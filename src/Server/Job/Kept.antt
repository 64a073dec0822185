-- ===== src/Server/Job/Kept.antt =====
-- Properties of a job that no call of src/server/pcap/tasks.rs on it breaks.
use evebox.Base.{◌≢◌, ◌⊎◌, ℕ, ◌≡◌, false, some, List, [], arith, eq_iff}
use evebox.Agent.Protocol.{PcapResult}
use evebox.Server.Job.{
  UploadSink, Job, AgentConnectionId, claim_upload, deliver, disconnect, close_body, SinkCall,
  send_chunk, run_sink, sink_call,
}
use evebox.Server.Job.Token.{token_matches_iff}
use evebox.Server.Job.Invariant.{
  JobInv, claim_upload-JobInv, deliver-JobInv, disconnect-JobInv, close_body-JobInv,
  sink_call-JobInv,
}

pub record IsKept (P : Job → Type 0) : Type 0 where
  pub claim_keeps : (token : List ℕ) (j : Job) → P j → P (claim_upload token j).0
  pub deliver_keeps :
      (c : AgentConnectionId) (token : List ℕ) (r : PcapResult) (j : Job)
      → P j
      → P (deliver c token r j)
  pub disconnect_keeps : (c : AgentConnectionId) (j : Job) → P j → P (disconnect c j)
  pub close_keeps : (j : Job) → P j → P (close_body j)
  pub sink_keeps : (call : SinkCall) (i : ℕ) (j : Job) → P j → P (sink_call call i j)

pub JobInv-IsKept : IsKept JobInv
JobInv-IsKept = record {
  claim_keeps = claim_upload-JobInv;
  deliver_keeps = deliver-JobInv;
  disconnect_keeps = disconnect-JobInv;
  close_keeps = close_body-JobInv;
  sink_keeps = sink_call-JobInv;
}

-- The result has been sent, and it is this one.
pub record HasResult (x : PcapResult) (j : Job) : Type 0 where
  pub seen : j.handles.result ≡ some x
  pub spent : j.task.result_tx ≡ false

module _ (x : PcapResult) where
  claim-HasResult :
      (token : List ℕ) (j : Job) → HasResult x j → HasResult x (claim_upload token j).0
  unfolding claim_upload
  claim-HasResult token j h = ground arith

  deliver-HasResult :
      (c : AgentConnectionId) (token : List ℕ) (r : PcapResult) (j : Job)
      → HasResult x j
      → HasResult x (deliver c token r j)
  unfolding deliver
  deliver-HasResult c token r j h = ground arith

  disconnect-HasResult :
      (c : AgentConnectionId) (j : Job) → HasResult x j → HasResult x (disconnect c j)
  unfolding disconnect
  disconnect-HasResult c j h = ground arith

  close-HasResult : (j : Job) → HasResult x j → HasResult x (close_body j)
  unfolding close_body
  close-HasResult j h = ground arith

  run_sink-HasResult :
      (call : SinkCall) (i : ℕ) (s : UploadSink) (j : Job)
      → HasResult x j
      → HasResult x (run_sink call i s j)
  unfolding run_sink
  run_sink-HasResult (send_chunk chunk) i s j h = ground arith
  run_sink-HasResult _ i s j h = ground arith

  sink-HasResult :
      (call : SinkCall) (i : ℕ) (j : Job) → HasResult x j → HasResult x (sink_call call i j)
  unfolding sink_call
  sink-HasResult call i j h = ground (arith, λ (s : UploadSink). run_sink-HasResult call i s j h)

  pub HasResult-IsKept : IsKept (HasResult x)
  HasResult-IsKept = record {
    claim_keeps = claim-HasResult;
    deliver_keeps = deliver-HasResult;
    disconnect_keeps = disconnect-HasResult;
    close_keeps = close-HasResult;
    sink_keeps = sink-HasResult;
  }

-- No upload has begun, and none may.
pub record IsBarred (j : Job) : Type 0 where
  pub no_sink : j.sinks ≡ []
  pub forbidden : j.task.upload_allowed ≡ false

claim-IsBarred : (token : List ℕ) (j : Job) → IsBarred j → IsBarred (claim_upload token j).0
unfolding claim_upload
claim-IsBarred token j h = ground arith

deliver-IsBarred :
    (c : AgentConnectionId) (token : List ℕ) (r : PcapResult) (j : Job)
    → IsBarred j
    → IsBarred (deliver c token r j)
unfolding deliver
deliver-IsBarred c token r j h = ground arith

disconnect-IsBarred : (c : AgentConnectionId) (j : Job) → IsBarred j → IsBarred (disconnect c j)
unfolding disconnect
disconnect-IsBarred c j h = ground arith

close-IsBarred : (j : Job) → IsBarred j → IsBarred (close_body j)
unfolding close_body
close-IsBarred j h = ground arith

sink-IsBarred : (call : SinkCall) (i : ℕ) (j : Job) → IsBarred j → IsBarred (sink_call call i j)
unfolding sink_call
sink-IsBarred call i j h = ground arith

pub IsBarred-IsKept : IsKept IsBarred
IsBarred-IsKept = record {
  claim_keeps = claim-IsBarred;
  deliver_keeps = deliver-IsBarred;
  disconnect_keeps = disconnect-IsBarred;
  close_keeps = close-IsBarred;
  sink_keeps = sink-IsBarred;
}

-- Bound to a connection, with no upload begun.
pub record IsIdle (c : AgentConnectionId) (j : Job) : Type 0 where
  pub idle_sinks : j.sinks ≡ []
  pub bound_name : j.task.agent ≡ c.name
  pub bound_generation : j.task.generation ≡ c.generation

pub disconnect-IsIdle : (c d : AgentConnectionId) (j : Job) → IsIdle c j → IsIdle c (disconnect d j)
unfolding disconnect
disconnect-IsIdle c d j h = ground arith

-- The loss of the connection bars the uploads of its jobs.
pub disconnect-IsBarred_of_IsIdle :
    (c : AgentConnectionId) (j : Job) → IsIdle c j → IsBarred (disconnect c j)
unfolding disconnect
disconnect-IsBarred_of_IsIdle c j h = ground (arith, eq_iff j.task.agent c.name)

-- A result over another connection, or with another token, changes nothing.
pub deliver_of_mismatch :
    (c : AgentConnectionId) (token : List ℕ) (r : PcapResult) (j : Job)
    → (j.task.agent ≢ c.name) ⊎ ((j.task.generation ≢ c.generation) ⊎ (j.task.token ≢ token))
    → deliver c token r j ≡ j
unfolding deliver
deliver_of_mismatch c token r j h =
    ground (arith, eq_iff j.task.agent c.name, token_matches_iff j.task.token token)
