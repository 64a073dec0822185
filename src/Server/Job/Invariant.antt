-- ===== src/Server/Job/Invariant.antt =====
-- What holds of a job of src/server/pcap/tasks.rs between two calls: at most one upload is ever
-- started for it, its bytes stay within the limit, and its result is sent at most once.
use evebox.Base.{
  ℕ, zero, suc, ◌+◌, ◌≤◌, ◌≡◌, refl, ◌⊎◌, true, false, Option, none, some, List, [], ◌∷◌, ◌++◌,
  String, length, arith,
}
use evebox.Agent.Protocol.{PcapResult}
use evebox.Server.Job.{
  UploadState, pending, streaming, completed, failed, Task, Handles, UploadSink, Job,
  AgentConnectionId, new_job, claim_upload, SinkCall, send_chunk, fail_call, run_sink, sink_call,
  promises_upload, deliver, disconnect, close_body, send_result, forbid_upload,
}

-- The number of bytes in the chunks that were passed on.
abbrev pub total : List (List ℕ) → ℕ
total [] = 0
total (chunk ∷ chunks) = length chunk + total chunks

total-append :
    (xs : List (List ℕ)) (chunk : List ℕ) → total (xs ++ chunk ∷ []) ≡ total xs + length chunk
total-append [] chunk = omega arith
total-append (x ∷ xs) chunk = omega (arith, total-append xs chunk)

-- No sink yet, or one that owns the body sender until it is consumed.
abbrev pub SinksOk : List UploadSink → Task → UploadState → List (List ℕ) → Type 0
SinksOk [] t upload body =
    (t.body_tx ≡ true) × (t.uploading ≡ false) × (upload ≡ pending) × (body ≡ [])
SinksOk (s ∷ []) t upload body =
    (t.body_tx ≡ false)
    × (t.uploading ≡ true)
    × (s.max_bytes ≡ t.max_bytes)
    × (s.bytes ≡ total body)
    × (s.bytes ≤ s.max_bytes)
    × (s.finished ≡ false → (s.tx ≡ true) × (upload ≡ streaming))
    × (s.finished ≡ true
        → (upload ≡ completed s.bytes) ⊎ ((reason : String) × (upload ≡ failed reason s.bytes)))
SinksOk (_ ∷ _ ∷ _) t upload body = ⊥

abbrev JobSinksOk : Job → Type 0
JobSinksOk j = SinksOk j.sinks j.task j.handles.upload j.handles.body

-- The result sender and what the receiver has seen.
pub record ResultOk (t : Task) (result : Option PcapResult) : Type 0 where
  pub unsent : t.result_tx ≡ true → result ≡ none
  pub sent_once : t.result_tx ≡ false → (r : PcapResult) × (result ≡ some r)
  -- a result that does not promise an upload forbids one that has not begun
  pub settled :
      (r : PcapResult) → result ≡ some r → promises_upload r ≡ false → t.upload_allowed ≡ false

pub record JobInv (j : Job) : Type 0 where
  pub sinks_ok : SinksOk j.sinks j.task j.handles.upload j.handles.body
  pub result_ok : ResultOk j.task j.handles.result

pub new_job-JobInv :
    (token : List ℕ) (agent : String) (g max : ℕ) → JobInv (new_job token agent g max)
unfolding new_job
new_job-JobInv token agent g max = record {
  sinks_ok = (refl, refl, refl, refl);
  result_ok = record { unsent = λ _. refl; sent_once = λ h. cc; settled = λ r h _. cc };
}

claim_upload-SinksOk :
    (token : List ℕ) (t : Task) (h : Handles) (sinks : List UploadSink)
    → SinksOk sinks t h.upload h.body
    → JobSinksOk (claim_upload token (record { task = t; handles = h; sinks = sinks })).0
unfolding claim_upload
claim_upload-SinksOk token t h [] ok = ground arith
claim_upload-SinksOk token t h (s ∷ []) ok = ground arith
claim_upload-SinksOk token t h (s ∷ s' ∷ r) ok = absurd ok

claim_upload-ResultOk :
    (token : List ℕ) (j : Job)
    → ResultOk j.task j.handles.result
    → ResultOk (claim_upload token j).0.task (claim_upload token j).0.handles.result
unfolding claim_upload
claim_upload-ResultOk token j ok = ground arith

send_result-JobInv :
    (r : PcapResult) (j : Job)
    → JobInv j
    → (promises_upload r ≡ false → j.task.upload_allowed ≡ false)
    → JobInv (send_result r j)
unfolding send_result
send_result-JobInv r j inv h = ground arith

forbid_upload-JobInv : (j : Job) → JobInv j → JobInv (forbid_upload j)
unfolding forbid_upload
forbid_upload-JobInv j inv = ground arith

pub claim_upload-JobInv : (token : List ℕ) (j : Job) → JobInv j → JobInv (claim_upload token j).0
claim_upload-JobInv token j inv = record {
  sinks_ok = claim_upload-SinksOk token j.task j.handles j.sinks inv.sinks_ok;
  result_ok = claim_upload-ResultOk token j inv.result_ok;
}

pub deliver-JobInv :
    (c : AgentConnectionId) (token : List ℕ) (r : PcapResult) (j : Job)
    → JobInv j
    → JobInv (deliver c token r j)
unfolding deliver
deliver-JobInv c token r j inv = ground arith

pub disconnect-JobInv : (c : AgentConnectionId) (j : Job) → JobInv j → JobInv (disconnect c j)
unfolding disconnect
disconnect-JobInv c j inv = ground arith

pub close_body-JobInv : (j : Job) → JobInv j → JobInv (close_body j)
unfolding close_body
close_body-JobInv j inv = ground arith

run_sink-ResultOk :
    (call : SinkCall) (i : ℕ) (s : UploadSink) (j : Job)
    → ResultOk j.task j.handles.result
    → ResultOk (run_sink call i s j).task (run_sink call i s j).handles.result
unfolding run_sink
run_sink-ResultOk (send_chunk chunk) i s j ok = ground arith
run_sink-ResultOk _ i s j ok = ground arith

-- The one sink of a job, while it is owned, keeps its count of the bytes that were passed on.
run_sink-SinksOk :
    (call : SinkCall) (s : UploadSink) (t : Task) (h : Handles)
    → s.finished ≡ false
    → SinksOk (s ∷ []) t h.upload h.body
    → JobSinksOk (run_sink call 0 s (record { task = t; handles = h; sinks = s ∷ [] }))
unfolding run_sink
run_sink-SinksOk (send_chunk chunk) s t h live ok = ground (arith, total-append h.body chunk)
run_sink-SinksOk (fail_call reason) s t h live ok = ground arith
run_sink-SinksOk _ s t h live ok = ground arith

sink_call-SinksOk :
    (call : SinkCall) (i : ℕ) (sinks : List UploadSink) (t : Task) (h : Handles)
    → SinksOk sinks t h.upload h.body
    → JobSinksOk (sink_call call i (record { task = t; handles = h; sinks = sinks }))
unfolding sink_call
sink_call-SinksOk call i [] t h ok = ok
sink_call-SinksOk call zero (s ∷ []) t h ok = ground (arith, run_sink-SinksOk call s t h)
sink_call-SinksOk call (suc i) (s ∷ []) t h ok = ok
sink_call-SinksOk call i (_ ∷ _ ∷ _) t h ok = absurd ok

pub sink_call-JobInv : (call : SinkCall) (i : ℕ) (j : Job) → JobInv j → JobInv (sink_call call i j)
unfolding sink_call
sink_call-JobInv call i j inv = record {
  sinks_ok = sink_call-SinksOk call i j.sinks j.task j.handles inv.sinks_ok;
  result_ok = ground (arith, λ (s : UploadSink). run_sink-ResultOk call i s j inv.result_ok);
}
