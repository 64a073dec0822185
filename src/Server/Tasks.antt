-- ===== src/Server/Tasks.antt =====
-- The registry of src/server/pcap/tasks.rs. Tasks are shared by `Arc`, so they stand in a heap and
-- the map holds their addresses: a task that is removed from the map lives on for those who hold
-- it. Each call is one step, also `begin_upload` and `deliver_result`, which let go of the registry's
-- lock before they lock the task; several calls are a list of them.
pub mod Invariant
pub mod Safety
pub mod Examples
use evebox.Base.{
  modify, ℕ, zero, suc, Bool, true, false, Option, none, some, List, [], ◌∷◌, ◌++◌, String, length,
  get_elem?, if◌then◌else◌, lookup, insert, remove as remove_key,
}
use evebox.Agent.Protocol.{PcapResult, AgentMessage, pcap_result, agent_unknown}
use evebox.Server.Job.{
  Job, AgentConnectionId, token_matches, new_job, claim_upload, deliver, disconnect, close_body,
  SinkCall, sink_call,
}

pub record Registry : Type 0 where
  pub heap : List Job
  pub tasks : List (String × ℕ)

abbrev pub empty : Registry
empty = record { heap = []; tasks = [] }

pub data RegisterResult : Type 0 where
  duplicate_id : RegisterResult
  registered : (address : ℕ) → RegisterResult

register_at : Option ℕ → String → List ℕ → String → ℕ → ℕ → Registry → Registry × RegisterResult
register_at (some _) id token agent generation max_bytes r = (r, duplicate_id)
register_at none id token agent generation max_bytes r = (
  record {
    heap = r.heap ++ new_job token agent generation max_bytes ∷ [];
    tasks = insert id (length r.heap) r.tasks;
  },
  registered (length r.heap),
)

unfoldable pub register : String → List ℕ → String → ℕ → ℕ → Registry → Registry × RegisterResult
unfolding register_at
register id token agent generation max_bytes r =
    register_at (lookup id r.tasks) id token agent generation max_bytes r

-- The task that an identifier names, with its address.
abbrev pub job_at : Option ℕ → List Job → Option Job
job_at none heap = none
job_at (some a) heap = get_elem? heap a

abbrev has_token : Option Job → List ℕ → Bool
has_token none token = false
has_token (some j) token = token_matches j.task.token token

unfoldable pub remove : String → List ℕ → Registry → Registry
remove id token r =
    if has_token (job_at (lookup id r.tasks) r.heap) token
    then record r { tasks = remove_key id r.tasks }
    else r

claim_job : ℕ → Option Job → List ℕ → Registry → Registry × Option (ℕ × ℕ)
claim_job a none token r = (r, none)
claim_job a (some j) token r =
    let (j', sink) = claim_upload token j in
    (
      record r { heap = modify a (λ _. j') r.heap },
      elim sink [ none ↦ none | some i ↦ some (a, i) ],
    )

claim_at : Option ℕ → List ℕ → Registry → Registry × Option (ℕ × ℕ)
unfolding claim_job
claim_at none token r = (r, none)
claim_at (some a) token r = claim_job a (get_elem? r.heap a) token r

-- On success the sink, named by the address of its job and its number there.
unfoldable pub begin_upload : String → List ℕ → Registry → Registry × Option (ℕ × ℕ)
unfolding claim_at
begin_upload id token r = claim_at (lookup id r.tasks) token r

deliver_at : Option ℕ → AgentConnectionId → List ℕ → PcapResult → Registry → Registry
deliver_at none connection token result r = r
deliver_at (some a) connection token result r = record r {
  heap = modify a (deliver connection token result) r.heap;
}

unfoldable pub deliver_result :
    AgentConnectionId → String → List ℕ → PcapResult → Registry → Registry
unfolding deliver_at
deliver_result connection id token result r =
    deliver_at (lookup id r.tasks) connection token result r

pub fail_each : AgentConnectionId → List (String × ℕ) → List Job → List Job
fail_each connection [] heap = heap
fail_each connection ((_, a) ∷ tasks) heap =
    fail_each connection tasks (modify a (disconnect connection) heap)

unfoldable pub fail_pending : AgentConnectionId → Registry → Registry
unfolding fail_each
fail_pending connection r = record r { heap = fail_each connection r.tasks r.heap }

-- The two callbacks of `AgentMessageHandler`.
unfoldable pub message : AgentConnectionId → AgentMessage → Registry → Registry
unfolding deliver_result
message connection (pcap_result id token result) r = deliver_result connection id token result r
message connection agent_unknown r = r

unfoldable pub disconnected : AgentConnectionId → Registry → Registry
unfolding fail_pending
disconnected connection r = fail_pending connection r

-- Everything that the browser request, the upload request and the control channel may call.
pub data Call : Type 0 where
  register_call :
      (id : String) → (token : List ℕ) → (agent : String) → (generation max_bytes : ℕ) → Call
  remove_call : (id : String) → (token : List ℕ) → Call
  begin_call : (id : String) → (token : List ℕ) → Call
  sink_step : (address sink : ℕ) → SinkCall → Call
  close_step : (address : ℕ) → Call
  message_call : AgentConnectionId → AgentMessage → Call
  disconnected_call : AgentConnectionId → Call

unfoldable pub step : Call → Registry → Registry
unfolding register remove begin_upload message disconnected
step (register_call id token agent generation max_bytes) r =
    (register id token agent generation max_bytes r).0
step (remove_call id token) r = remove id token r
step (begin_call id token) r = (begin_upload id token r).0
step (sink_step a i call) r = record r { heap = modify a (sink_call call i) r.heap }
step (close_step a) r = record r { heap = modify a close_body r.heap }
step (message_call connection m) r = message connection m r
step (disconnected_call connection) r = disconnected connection r

unfoldable pub run : List Call → Registry → Registry
run [] r = r
run (call ∷ calls) r = run calls (step call r)
