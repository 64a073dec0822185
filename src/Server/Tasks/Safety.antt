-- ===== src/Server/Tasks/Safety.antt =====
-- What every sequence of calls on the registry of src/server/pcap/tasks.rs guarantees, whatever
-- the order in which results, uploads, removals and disconnects arrive.
use evebox.Base.{
  lt_of_get, some_inj, ℕ, ◌≤◌, ◌≡◌, ◌≢◌, ◌↔◌, ◌⊎◌, inl, inr, refl, sym, ap, true, Option, none,
  some, List, [], ◌∷◌, String, length, get_elem?, lookup, arith, subst,
}
use evebox.Agent.Protocol.{PcapResult}
use evebox.Server.Job.{
  completed, UploadSink, Task, Handles, Job, AgentConnectionId, claim_upload, deliver,
}
use evebox.Server.Job.Kept.{
  JobInv-IsKept, HasResult, HasResult-IsKept, IsBarred, IsBarred-IsKept, IsIdle,
  deliver_of_mismatch,
}
use evebox.Server.Job.Token.{token_matches_iff}
use evebox.Server.Job.Invariant.{total, SinksOk, JobInv, new_job-JobInv}
use evebox.Server.Tasks.{
  Registry, empty, begin_upload, claim_at, claim_job, deliver_result, deliver_at, disconnected,
  Call, run,
}
use evebox.Server.Tasks.Invariant.{
  HoldsAt, length-fail_each, modify_id, fail_each-IsBarred, run-HoldsAt, HoldsAt_lem, get-HoldsAt,
}

-- every job that calls can bring about satisfies the invariant of a job
pub run-JobInv :
    (calls : List Call) (a : ℕ) {j : Job} → get_elem? (run calls empty).heap a ≡ some j → JobInv j
run-JobInv calls a e =
    HoldsAt_lem JobInv a (run calls empty).heap e
      (run-HoldsAt JobInv calls a empty JobInv-IsKept (inr new_job-JobInv) tt)

sinks_bounds :
    (sinks : List UploadSink) (t : Task) (h : Handles)
    → SinksOk sinks t h.upload h.body
    → (length sinks ≤ 1)
      × (total h.body ≤ t.max_bytes)
      × ((b : ℕ) → h.upload ≡ completed b → b ≡ total h.body)
sinks_bounds [] t h (_, _, idle, none_sent) = (omega arith, rw none_sent (omega arith), λ b e. cc)
sinks_bounds (s ∷ []) t h ok = (omega arith, omega arith, λ b e. ground arith)
sinks_bounds (_ ∷ _ ∷ _) t h ok = absurd ok

-- However the calls interleave, a job has at most one upload, no more bytes than its limit pass
-- to the waiting request, and a completed upload reports exactly the bytes that were passed.
pub upload_once :
    (calls : List Call) (a : ℕ) {j : Job}
    → get_elem? (run calls empty).heap a ≡ some j
    → (length j.sinks ≤ 1)
      × (total j.handles.body ≤ j.task.max_bytes)
      × ((b : ℕ) → j.handles.upload ≡ completed b → b ≡ total j.handles.body)
upload_once calls a {j} e = sinks_bounds j.sinks j.task j.handles (run-JobInv calls a e).sinks_ok

-- The result that a request has received is final: no later call changes it.
pub result_once :
    (before after : List Call) (a : ℕ) {j : Job} {x : PcapResult}
    → get_elem? (run before empty).heap a ≡ some j
    → j.handles.result ≡ some x
    → HoldsAt (HasResult x) a (run after (run before empty)).heap
result_once before after a {j} {x} e seen =
    let inv = run-JobInv before a e in
    run-HoldsAt (HasResult x) after a (run before empty) (HasResult-IsKept x)
      (inl (lt_of_get a _ e))
      (get-HoldsAt (HasResult x) a (run before empty).heap e (ground (arith, inv.result_ok.unsent)))

-- A job whose connection is lost before its upload began never sees one: once the disconnect of
-- that connection has been handled, no later call makes a sink for it.
pub no_upload_after_disconnect :
    (after : List Call) (r : Registry) (c : AgentConnectionId) (id : String) (a : ℕ) {j : Job}
    → lookup id r.tasks ≡ some a
    → get_elem? r.heap a ≡ some j
    → j.task.agent ≡ c.name
    → j.task.generation ≡ c.generation
    → j.sinks ≡ []
    → HoldsAt IsBarred a (run after (disconnected c r)).heap
unfolding disconnected
no_upload_after_disconnect after r c id a {j} named e agent generation idle =
    let idle_job : IsIdle c j = record {
      idle_sinks = idle;
      bound_name = agent;
      bound_generation = generation;
    } in
    run-HoldsAt IsBarred after a (disconnected c r) IsBarred-IsKept
      (inl (omega (arith, lt_of_get a r.heap e, length-fail_each c r.tasks r.heap)))
      (fail_each-IsBarred c id a r.tasks r.heap named (get-HoldsAt (IsIdle c) a r.heap e idle_job))

deliver_at_bound :
    (o : Option ℕ) (c : AgentConnectionId) (token : List ℕ) (x : PcapResult) (r : Registry)
    → ((a : ℕ) (j : Job)
        → o ≡ some a
        → get_elem? r.heap a ≡ some j
        → (j.task.agent ≢ c.name) ⊎ ((j.task.generation ≢ c.generation) ⊎ (j.task.token ≢ token)))
    → deliver_at o c token x r ≡ r
unfolding deliver_at
deliver_at_bound none c token x r h = refl
deliver_at_bound (some a) c token x r h =
    ap (λ heap. record r { heap = heap })
      (modify_id a (deliver c token x) r.heap
        (λ j e. deliver_of_mismatch c token x j (h a j refl e)))

-- A result is delivered only over the connection that the job was dispatched on, and only with the
-- job's token: otherwise the registry does not change at all.
pub deliver_result_bound :
    (c : AgentConnectionId) (id : String) (token : List ℕ) (x : PcapResult) (r : Registry)
    → ((a : ℕ) (j : Job)
        → lookup id r.tasks ≡ some a
        → get_elem? r.heap a ≡ some j
        → (j.task.agent ≢ c.name) ⊎ ((j.task.generation ≢ c.generation) ⊎ (j.task.token ≢ token)))
    → deliver_result c id token x r ≡ r
unfolding deliver_result
deliver_result_bound c id token x r h = deliver_at_bound (lookup id r.tasks) c token x r h

-- The token is the job's, uploads are not barred, none has begun, and the sink is the first.
abbrev pub MayUpload : List ℕ → ℕ → Job → Type 0
MayUpload token i j =
    (j.task.token ≡ token) × (j.task.upload_allowed ≡ true) × (j.sinks ≡ []) × (i ≡ 0)

claim_iff :
    (token : List ℕ) (j : Job) (sinks : List UploadSink) (i : ℕ)
    → j.sinks ≡ sinks
    → SinksOk sinks j.task j.handles.upload j.handles.body
    → ((claim_upload token j).1 ≡ some i) ↔ MayUpload token i j
unfolding claim_upload
claim_iff token j [] i e ok = ground (arith, token_matches_iff j.task.token token)
claim_iff token j (s ∷ []) i e ok = ground (arith, token_matches_iff j.task.token token)
claim_iff token j (_ ∷ _ ∷ _) i e ok = absurd ok

claim_job_iff :
    (token : List ℕ) (a b i : ℕ) (o : Option Job) (r : Registry)
    → ((j : Job) → o ≡ some j → JobInv j)
    → ((claim_job b o token r).1 ≡ some (a, i))
      ↔ ((j : Job) × (b ≡ a) × (o ≡ some j) × (MayUpload token i j))
unfolding claim_job
claim_job_iff token a b i none r inv = (λ h. cc, λ h. cc)
claim_job_iff token a b i (some j) r inv =
    let split = claim_iff token j j.sinks i refl (inv j refl).sinks_ok in
    (λ h. (j, ground (arith, split), refl, ground (arith, split)), λ h. ground (arith, split))

claim_at_iff :
    (token : List ℕ) (a i : ℕ) (o : Option ℕ) (r : Registry)
    → ((b : ℕ) (j : Job) → get_elem? r.heap b ≡ some j → JobInv j)
    → ((claim_at o token r).1 ≡ some (a, i))
      ↔ ((j : Job) × (o ≡ some a) × (get_elem? r.heap a ≡ some j) × (MayUpload token i j))
unfolding claim_at
claim_at_iff token a i none r inv = (λ h. cc, λ h. cc)
claim_at_iff token a i (some b) r inv =
    let split = claim_job_iff token a b i (get_elem? r.heap b) r (inv b) in
    (
      λ h.
          let (j, same, there, rest) = split.0 h in
          (j, ap some same, subst (λ x. get_elem? r.heap x ≡ some j) same there, rest),
      λ h.
          let (j, same, there, rest) = h in
          split.1 (
            j,
            some_inj same,
            subst (λ x. get_elem? r.heap x ≡ some j) (sym (some_inj same)) there,
            rest,
          ),
    )

-- An upload is accepted exactly when the identifier names a job of the registry, the token is the
-- job's, uploads are not barred, and none has begun; the sink is then the first of that job.
pub begin_upload_iff :
    (calls : List Call) (id : String) (token : List ℕ) (a i : ℕ)
    → let r = run calls empty in
      ((begin_upload id token r).1 ≡ some (a, i)) ↔ (
        (j : Job) × (lookup id r.tasks ≡ some a)
        × (get_elem? r.heap a ≡ some j)
        × (MayUpload token i j))
unfolding begin_upload
begin_upload_iff calls id token a i =
    let r = run calls empty in
    claim_at_iff token a i (lookup id r.tasks) r (λ b j e. run-JobInv calls b e)
