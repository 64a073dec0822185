-- ===== src/Server/Tasks/Invariant.antt =====
-- A rule for the registry of src/server/pcap/tasks.rs: what every call on one job keeps, every
-- sequence of calls on the registry keeps.
use evebox.Base.{
  modify, length-modify, ap, some_inj, Bool-cases, str_eq, length-append, ◌⊎◌, inl, inr, sym, subst,
  lookup, ℕ, zero, suc, ◌≤◌, ◌<◌, ◌≡◌, refl, Option, none, some, List, [], ◌∷◌, ◌++◌, String,
  length, get_elem?, arith,
}
use evebox.Agent.Protocol.{PcapResult, pcap_result, agent_unknown}
use evebox.Server.Job.{
  Job, AgentConnectionId, new_job, claim_upload, deliver, disconnect, close_body, sink_call,
}
use evebox.Server.Job.Kept.{
  IsKept, IsBarred, IsBarred-IsKept, IsIdle, disconnect-IsIdle, disconnect-IsBarred_of_IsIdle,
}
use evebox.Server.Tasks.{
  Registry, register_at, claim_at, claim_job, deliver_at, remove, fail_each, Call, register_call,
  remove_call, begin_call, sink_step, close_step, message_call, disconnected_call, step, run,
}

-- What holds of the job at an address, if there is one.
abbrev pub HoldsAt : (Job → Type 0) → ℕ → List Job → Type 0
HoldsAt P a [] = Unit
HoldsAt P zero (j ∷ js) = P j
HoldsAt P (suc a) (j ∷ js) = HoldsAt P a js

remove-heap : (id : String) (token : List ℕ) (r : Registry) → (remove id token r).heap ≡ r.heap
unfolding remove
remove-heap id token r = ground arith

module _ (P : Job → Type 0) where
  modify-HoldsAt :
      (a b : ℕ) (f : Job → Job) (heap : List Job)
      → ((j : Job) → P j → P (f j))
      → HoldsAt P a heap
      → HoldsAt P a (modify b f heap)
  unfolding modify
  modify-HoldsAt a b f [] keep h = tt
  modify-HoldsAt zero zero f (j ∷ js) keep h = keep j h
  modify-HoldsAt zero (suc b) f (j ∷ js) keep h = h
  modify-HoldsAt (suc a) zero f (j ∷ js) keep h = h
  modify-HoldsAt (suc a) (suc b) f (j ∷ js) keep h = modify-HoldsAt a b f js keep h

  -- The same, where the new job is written over the one that was read.
  write-HoldsAt :
      (a b : ℕ) (j j' : Job) (heap : List Job)
      → get_elem? heap b ≡ some j
      → (P j → P j')
      → HoldsAt P a heap
      → HoldsAt P a (modify b (λ _. j') heap)
  unfolding modify
  write-HoldsAt a b j j' [] e keep h = tt
  write-HoldsAt zero zero j j' (k ∷ js) e keep h = keep (rw (← e') h)
    where
      e' : k ≡ j
      e' = cc
  write-HoldsAt zero (suc b) j j' (k ∷ js) e keep h = h
  write-HoldsAt (suc a) zero j j' (k ∷ js) e keep h = h
  write-HoldsAt (suc a) (suc b) j j' (k ∷ js) e keep h = write-HoldsAt a b j j' js e keep h

  -- A job that is there already is not the one that is added.
  append-HoldsAt :
      (a : ℕ) (heap : List Job) (j : Job)
      → (a < length heap) ⊎ P j
      → HoldsAt P a heap
      → HoldsAt P a (heap ++ j ∷ [])
  append-HoldsAt zero [] j (inl out) h = absurd (omega arith)
  append-HoldsAt zero [] j (inr p) h = p
  append-HoldsAt (suc a) [] j p h = tt
  append-HoldsAt zero (k ∷ js) j p h = h
  append-HoldsAt (suc a) (k ∷ js) j (inl below) h = append-HoldsAt a js j (inl (omega arith)) h
  append-HoldsAt (suc a) (k ∷ js) j (inr p) h = append-HoldsAt a js j (inr p) h

  fail_each-HoldsAt :
      (c : AgentConnectionId) (a : ℕ) (tasks : List (String × ℕ)) (heap : List Job)
      → IsKept P
      → HoldsAt P a heap
      → HoldsAt P a (fail_each c tasks heap)
  unfolding fail_each
  fail_each-HoldsAt c a [] heap k h = h
  fail_each-HoldsAt c a ((_, b) ∷ tasks) heap k h =
      fail_each-HoldsAt c a tasks (modify b (disconnect c) heap) k
        (modify-HoldsAt a b (disconnect c) heap (k.disconnect_keeps c) h)

  abbrev pub NewOk : ℕ → Registry → Type 0
  NewOk a r =
      (a < length r.heap)
      ⊎ ((token : List ℕ) (agent : String) (g max : ℕ) → P (new_job token agent g max))

  register-HoldsAt :
      (o : Option ℕ) (id : String) (token : List ℕ) (agent : String) (g max a : ℕ) (r : Registry)
      → NewOk a r
      → HoldsAt P a r.heap
      → HoldsAt P a (register_at o id token agent g max r).0.heap
  unfolding register_at
  register-HoldsAt (some b) id token agent g max a r ok h = h
  register-HoldsAt none id token agent g max a r (inl below) h =
      append-HoldsAt a r.heap (new_job token agent g max) (inl below) h
  register-HoldsAt none id token agent g max a r (inr new) h =
      append-HoldsAt a r.heap (new_job token agent g max) (inr (new token agent g max)) h

  claim_job-HoldsAt :
      (a b : ℕ) (o : Option Job) (token : List ℕ) (r : Registry)
      → get_elem? r.heap b ≡ o
      → IsKept P
      → HoldsAt P a r.heap
      → HoldsAt P a (claim_job b o token r).0.heap
  unfolding claim_job
  claim_job-HoldsAt a b none token r e k h = h
  claim_job-HoldsAt a b (some j) token r e k h =
      write-HoldsAt a b j (claim_upload token j).0 r.heap e (k.claim_keeps token j) h

  claim-HoldsAt :
      (o : Option ℕ) (token : List ℕ) (a : ℕ) (r : Registry)
      → IsKept P
      → HoldsAt P a r.heap
      → HoldsAt P a (claim_at o token r).0.heap
  unfolding claim_at
  claim-HoldsAt none token a r k h = h
  claim-HoldsAt (some b) token a r k h = claim_job-HoldsAt a b (get_elem? r.heap b) token r refl k h

  deliver-HoldsAt :
      (o : Option ℕ) (c : AgentConnectionId) (token : List ℕ) (result : PcapResult) (a : ℕ)
      (r : Registry)
      → IsKept P
      → HoldsAt P a r.heap
      → HoldsAt P a (deliver_at o c token result r).heap
  unfolding deliver_at
  deliver-HoldsAt none c token result a r k h = h
  deliver-HoldsAt (some b) c token result a r k h =
      modify-HoldsAt a b (deliver c token result) r.heap (k.deliver_keeps c token result) h

  pub step-HoldsAt :
      (call : Call) (a : ℕ) (r : Registry)
      → IsKept P
      → NewOk a r
      → HoldsAt P a r.heap
      → HoldsAt P a (step call r).heap
  unfolding step
  step-HoldsAt (register_call id token agent g max) a r k ok h =
      register-HoldsAt (lookup id r.tasks) id token agent g max a r ok h
  step-HoldsAt (remove_call id token) a r k ok h =
      subst (HoldsAt P a) (sym (remove-heap id token r)) h
  step-HoldsAt (begin_call id token) a r k ok h = claim-HoldsAt (lookup id r.tasks) token a r k h
  step-HoldsAt (sink_step b i call) a r k ok h =
      modify-HoldsAt a b (sink_call call i) r.heap (k.sink_keeps call i) h
  step-HoldsAt (close_step b) a r k ok h = modify-HoldsAt a b close_body r.heap k.close_keeps h
  step-HoldsAt (message_call c (pcap_result id token result)) a r k ok h =
      deliver-HoldsAt (lookup id r.tasks) c token result a r k h
  step-HoldsAt (message_call c agent_unknown) a r k ok h = h
  step-HoldsAt (disconnected_call c) a r k ok h = fail_each-HoldsAt c a r.tasks r.heap k h

pub length-fail_each :
    (c : AgentConnectionId) (tasks : List (String × ℕ)) (heap : List Job)
    → length (fail_each c tasks heap) ≡ length heap
unfolding fail_each
length-fail_each c [] heap = refl
length-fail_each c ((_, a) ∷ tasks) heap = omega (
  arith,
  length-fail_each c tasks (modify a (disconnect c) heap),
  length-modify a (disconnect c) heap,
)

length-register :
    (o : Option ℕ) (id : String) (token : List ℕ) (agent : String) (g max : ℕ) (r : Registry)
    → length r.heap ≤ length (register_at o id token agent g max r).0.heap
unfolding register_at
length-register (some b) id token agent g max r = omega arith
length-register none id token agent g max r =
    omega (arith, length-append r.heap (new_job token agent g max ∷ []))

length-claim_job :
    (b : ℕ) (o : Option Job) (token : List ℕ) (r : Registry)
    → length (claim_job b o token r).0.heap ≡ length r.heap
unfolding claim_job
length-claim_job b none token r = refl
length-claim_job b (some j) token r = length-modify b (λ _. (claim_upload token j).0) r.heap

length-claim :
    (o : Option ℕ) (token : List ℕ) (r : Registry)
    → length (claim_at o token r).0.heap ≡ length r.heap
unfolding claim_at
length-claim none token r = refl
length-claim (some b) token r = length-claim_job b (get_elem? r.heap b) token r

length-deliver :
    (o : Option ℕ) (c : AgentConnectionId) (token : List ℕ) (result : PcapResult) (r : Registry)
    → length (deliver_at o c token result r).heap ≡ length r.heap
unfolding deliver_at
length-deliver none c token result r = refl
length-deliver (some b) c token result r = length-modify b (deliver c token result) r.heap

-- No call frees a job.
pub length-step : (call : Call) (r : Registry) → length r.heap ≤ length (step call r).heap
unfolding step
length-step (register_call id token agent g max) r =
    length-register (lookup id r.tasks) id token agent g max r
length-step (remove_call id token) r = omega (arith, ap length (remove-heap id token r))
length-step (begin_call id token) r = omega (arith, length-claim (lookup id r.tasks) token r)
length-step (sink_step b i call) r = omega (arith, length-modify b (sink_call call i) r.heap)
length-step (close_step b) r = omega (arith, length-modify b close_body r.heap)
length-step (message_call c (pcap_result id token result)) r =
    omega (arith, length-deliver (lookup id r.tasks) c token result r)
length-step (message_call c agent_unknown) r = omega arith
length-step (disconnected_call c) r = omega (arith, length-fail_each c r.tasks r.heap)

module _ (P : Job → Type 0) where
  NewOk-step : (call : Call) (a : ℕ) (r : Registry) → NewOk P a r → NewOk P a (step call r)
  NewOk-step call a r (inl below) = inl (omega (arith, length-step call r))
  NewOk-step call a r (inr new) = inr new

  pub run-HoldsAt :
      (calls : List Call) (a : ℕ) (r : Registry)
      → IsKept P
      → NewOk P a r
      → HoldsAt P a r.heap
      → HoldsAt P a (run calls r).heap
  unfolding run
  run-HoldsAt [] a r k ok h = h
  run-HoldsAt (call ∷ calls) a r k ok h =
      run-HoldsAt calls a (step call r) k (NewOk-step call a r ok) (step-HoldsAt P call a r k ok h)

  pub HoldsAt_lem :
      (a : ℕ) (heap : List Job) {j : Job} → get_elem? heap a ≡ some j → HoldsAt P a heap → P j
  HoldsAt_lem a [] e h = cc
  HoldsAt_lem zero (k ∷ js) e h = subst P (some_inj e) h
  HoldsAt_lem (suc a) (k ∷ js) e h = HoldsAt_lem a js e h

  pub get-HoldsAt :
      (a : ℕ) (heap : List Job) {j : Job} → get_elem? heap a ≡ some j → P j → HoldsAt P a heap
  get-HoldsAt a [] e h = tt
  get-HoldsAt zero (k ∷ js) e h = subst P (sym (some_inj e)) h
  get-HoldsAt (suc a) (k ∷ js) e h = get-HoldsAt a js e h

-- The job at the address itself, which the call may take from one property to another.
modify_self-HoldsAt :
    (P Q : Job → Type 0) (a : ℕ) (f : Job → Job) (heap : List Job)
    → ((j : Job) → P j → Q (f j))
    → HoldsAt P a heap
    → HoldsAt Q a (modify a f heap)
unfolding modify
modify_self-HoldsAt P Q a f [] keep h = tt
modify_self-HoldsAt P Q zero f (j ∷ js) keep h = keep j h
modify_self-HoldsAt P Q (suc a) f (j ∷ js) keep h = modify_self-HoldsAt P Q a f js keep h

-- Every listed job that waits for the connection, and whose upload has not begun, is barred.
pub fail_each-IsBarred :
    (c : AgentConnectionId) (id : String) (a : ℕ) (tasks : List (String × ℕ)) (heap : List Job)
    → lookup id tasks ≡ some a
    → HoldsAt (IsIdle c) a heap
    → HoldsAt IsBarred a (fail_each c tasks heap)
unfolding fail_each lookup
fail_each-IsBarred c id a [] heap e h = cc
fail_each-IsBarred c id a ((k, b) ∷ tasks) heap e h = elim (Bool-cases (str_eq k id)) [
  | inl same ↦
      let at_a : b ≡ a = some_inj (rw same at e) in
      fail_each-HoldsAt IsBarred c a tasks (modify b (disconnect c) heap) IsBarred-IsKept (
        rw at_a (
          modify_self-HoldsAt (IsIdle c) IsBarred a (disconnect c) heap
            (disconnect-IsBarred_of_IsIdle c) h))
  | inr other ↦
      fail_each-IsBarred c id a tasks (modify b (disconnect c) heap) (rw other at e)
        (modify-HoldsAt (IsIdle c) a b (disconnect c) heap (disconnect-IsIdle c c) h)
]

-- A call that leaves the job at an address alone leaves the heap alone.
pub modify_id :
    (a : ℕ) (f : Job → Job) (heap : List Job)
    → ((j : Job) → get_elem? heap a ≡ some j → f j ≡ j)
    → modify a f heap ≡ heap
unfolding modify
modify_id a f [] h = refl
modify_id zero f (j ∷ js) h = ap (λ k. k ∷ js) (h j refl)
modify_id (suc a) f (j ∷ js) h = ap (λ ks. j ∷ ks) (modify_id a f js h)
