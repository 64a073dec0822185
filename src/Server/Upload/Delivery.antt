-- ===== src/Server/Upload/Delivery.antt =====
-- A capture within its limit reaches the request byte for byte: from the writes of the agent's
-- extraction (src/agent/channel.rs) to the body channel of its job (src/server/api/agent.rs).
use evebox.Base.{
  ℕ, ◌+◌, ◌^◌, ◌<◌, ◌≤◌, ◌≡◌, refl, sym, ap, subst, ◌∙◌, true, false, Option, some, List, [], ◌∷◌,
  ◌++◌, String, length, length-append, concat, concat-snoc, get_elem?, set, get_elem?-set_self,
  if_lem, All, not, arith,
}
use mathlib.Core.List.{append_assoc, append-nil}
use evebox.Agent.Writer.{WriterEnv, ChannelWriter, ok, write_out}
use evebox.Agent.Writer.Pushing.{IsChunk, Sleeps}
use evebox.Agent.Writer.Chunks.{IsHandedOn, write_out-IsHandedOn}
use evebox.Server.Job.{
  Job, UploadSink, UploadState, completed, sent, send, complete_sink, new_job, claim_upload,
  token_matches,
}
use evebox.Server.Job.Token.{token_matches_iff}
use evebox.Server.Upload.{
  BodyEvent, frame, ended, UploadEnd, accepted, receive_upload, receive_found, receive_event,
  after_send,
}

-- The frames of a body that ends cleanly.
abbrev pub body_of : List (List ℕ) → List BodyEvent
body_of [] = ended ∷ []
body_of (chunk ∷ chunks) = frame chunk false ∷ body_of chunks

-- The sink is open, and has counted what is in the channel.
pub record Receives (i max : ℕ) (s : UploadSink) (j : Job) : Type 0 where
  pub found : get_elem? j.sinks i ≡ some s
  pub limit : s.max_bytes ≡ max
  pub open_tx : s.tx ≡ true
  pub open_rx : j.handles.body_rx ≡ true
  pub counted : s.bytes ≡ length (concat j.handles.body)

-- The upload has come to its end with these bytes in the channel.
abbrev pub HasArrived : List ℕ → Job × UploadEnd → Type 0
HasArrived bytes (j, result) =
    (result ≡ accepted)
    × (concat j.handles.body ≡ bytes)
    × (j.handles.upload ≡ completed (length bytes))

-- The job after a chunk has gone into the channel.
abbrev passed : ℕ → UploadSink → List ℕ → Job → Job
passed i s chunk j =
    let h = j.handles in
    record j {
      handles = record h { body = h.body ++ chunk ∷ [] };
      sinks = set j.sinks i (record s { bytes = s.bytes + length chunk });
    }

send_lem :
    (i max : ℕ) (s : UploadSink) (j : Job) (chunk : List ℕ)
    → Receives i max s j
    → s.bytes + length chunk ≤ max
    → max < 2 ^ 64
    → send i s chunk j ≡ (passed i s chunk j, sent)
unfolding send
send_lem i max s j chunk r fits small = ground (arith, r.limit, r.open_tx, r.open_rx)

after_chunk :
    (i max : ℕ) (s : UploadSink) (j : Job) (chunk : List ℕ)
    → Receives i max s j
    → Receives i max (record s { bytes = s.bytes + length chunk }) (passed i s chunk j)
after_chunk i max s j chunk r = record {
  found = get_elem?-set_self j.sinks i _ r.found;
  limit = r.limit;
  open_tx = r.open_tx;
  open_rx = r.open_rx;
  counted = omega (
    arith,
    r.counted,
    ap length (concat-snoc j.handles.body chunk),
    length-append (concat j.handles.body) chunk,
  );
}

receive_lem :
    (i max : ℕ) (chunks : List (List ℕ)) (s : UploadSink) (j : Job)
    → max < 2 ^ 64
    → All IsChunk chunks
    → Receives i max s j
    → s.bytes + length (concat chunks) ≤ max
    → HasArrived (concat j.handles.body ++ concat chunks) (receive_upload i (body_of chunks) j)
unfolding receive_upload receive_found receive_event after_send complete_sink
receive_lem i max [] s j small cut r fits = rw r.found (
  refl,
  sym (append-nil (concat j.handles.body)),
  ap completed (r.counted ∙ ap length (sym (append-nil (concat j.handles.body)))),
)
receive_lem i max ([] ∷ chunks) s j small cut r fits = absurd (omega (arith, cut.0.0))
receive_lem i max ((byte ∷ bytes) ∷ chunks) s j small cut r fits =
    let chunk = byte ∷ bytes in
    let total = length-append chunk (concat chunks) in
    let whole : concat (j.handles.body ++ chunk ∷ []) ++ concat chunks
        ≡ concat j.handles.body ++ concat (chunk ∷ chunks) =
      ap (λ b. b ++ concat chunks) (concat-snoc j.handles.body chunk)
      ∙ append_assoc (concat j.handles.body) chunk (concat chunks) in
    rw (r.found, send_lem i max s j chunk r (omega (arith, fits, total)) small)
      (subst (λ b. HasArrived b (receive_upload i (body_of chunks) (passed i s chunk j))) whole
        (receive_lem i max chunks (record s { bytes = s.bytes + length chunk }) (passed i s chunk j)
          small cut.1 (after_chunk i max s j chunk r) (omega (arith, fits, total))))

-- The job of a request, once the agent's upload has claimed it.
abbrev pub claimed : List ℕ → String → (generation max_bytes : ℕ) → Job
claimed token agent generation max_bytes =
    (claim_upload token (new_job token agent generation max_bytes)).0

abbrev first_sink : ℕ → UploadSink
first_sink max_bytes = record { tx = true; max_bytes = max_bytes; bytes = 0; finished = false }

-- The token of a job matches itself.
claimed_lem {ℓ} :
    (P : Job → Type ℓ) (token : List ℕ) (agent : String) (generation max_bytes : ℕ)
    → (let j = new_job token agent generation max_bytes in
        let t = j.task in
        let h = j.handles in
        P (record j {
          task = record t { body_tx = false; uploading = true };
          handles = record h { upload = UploadState.streaming };
          sinks = first_sink max_bytes ∷ [];
        }))
    → P (claimed token agent generation max_bytes)
unfolding claim_upload new_job
claimed_lem P token agent generation max_bytes h =
    if_lem (λ (r : Job × Option ℕ). P r.0) (not (token_matches token token)) _ _
      (λ e. absurd (cc (e, (token_matches_iff token token).1 refl))) (λ _. h)

claimed-Receives :
    (token : List ℕ) (agent : String) (generation max_bytes : ℕ)
    → Receives 0 max_bytes (first_sink max_bytes) (claimed token agent generation max_bytes)
unfolding new_job
claimed-Receives token agent generation max_bytes =
    claimed_lem (Receives 0 max_bytes (first_sink max_bytes)) token agent generation max_bytes
      (record { found = refl; limit = refl; open_tx = refl; open_rx = refl; counted = refl })

claimed_empty :
    (token : List ℕ) (agent : String) (generation max_bytes : ℕ)
    → (claimed token agent generation max_bytes).handles.body ≡ []
unfolding new_job
claimed_empty token agent generation max_bytes =
    claimed_lem (λ j. j.handles.body ≡ []) token agent generation max_bytes refl

-- The chunks of an extraction's output, sent as the frames of one body that ends cleanly while the
-- request still reads, arrive whole and in order, and the upload is completed with their length,
-- where they are within the limit of the job.
pub upload_arrives :
    (env : WriterEnv) (writes : List (List ℕ)) (w : ChannelWriter) (token : List ℕ) (agent : String)
    (generation max_bytes : ℕ)
    → Sleeps env
    → write_out env writes ≡ ok w
    → max_bytes < 2 ^ 64
    → length (concat writes) ≤ max_bytes
    → HasArrived
        (concat writes)
        (receive_upload 0 (body_of w.chunks) (claimed token agent generation max_bytes))
upload_arrives env writes w token agent generation max_bytes sleeps e small fits =
    let (content, cut) : IsHandedOn writes (ok w) =
      subst (IsHandedOn writes) e (write_out-IsHandedOn env writes sleeps) in
    let j = claimed token agent generation max_bytes in
    let bytes : concat j.handles.body ++ concat w.chunks ≡ concat writes =
      ap (λ b. concat b ++ concat w.chunks) (claimed_empty token agent generation max_bytes)
      ∙ content in
    subst (λ b. HasArrived b (receive_upload 0 (body_of w.chunks) j)) bytes
      (receive_lem 0 max_bytes w.chunks (first_sink max_bytes) j small cut
        (claimed-Receives token agent generation max_bytes)
        (omega (arith, ap length content, fits)))
