-- ===== src/Server/Job.antt =====
-- One remote capture job of src/server/pcap/tasks.rs: the `Task` that the registry shares, the
-- channels behind it, and the `UploadSink` handed to the agent's upload.
--
-- A job gathers what the Rust code reaches through shared pointers: the task, the ends of its
-- three channels, and every sink that was ever made for it. A sink that `complete`, `fail` or
-- its drop has consumed stays in the list with `finished` set; no later call can name it, since
-- those take it by value. A watch value is the one that a receiver still alive would see.
pub mod Invariant
pub mod Kept
pub mod Token
use Prim.Native.Nat.{bit_or, bit_xor}
use evebox.Base.{
  ℕ, zero, suc, ◌+◌, ◌^◌, Bool, true, false, not, ◌&&◌, ◌||◌, Option, none, some, List, [], ◌∷◌,
  ◌++◌, String, length, get_elem?, set, ltb, leb, ◌==◌, str_eq, if◌then◌else◌,
}
use evebox.Agent.Protocol.{
  PcapResult, PcapResultCode, PcapUploadStatus, complete, error, upload_complete, upload_failed,
}

pub data UploadState : Type 0 where
  pending streaming : UploadState
  completed : (bytes : ℕ) → UploadState
  failed : (reason : String) → (bytes : ℕ) → UploadState

pub record Task : Type 0 where
  pub token : List ℕ
  pub agent : String
  pub generation : ℕ
  pub max_bytes : ℕ
  pub body_tx : Bool  -- the task still owns the sender of the body channel
  pub result_tx : Bool  -- the task still owns the sender of the result channel
  pub uploading : Bool
  pub upload_allowed : Bool

-- What the holder of the receivers sees.
pub record Handles : Type 0 where
  pub body : List (List ℕ)  -- every chunk that entered the body channel, in order
  pub body_rx : Bool  -- the body receiver is alive
  pub upload : UploadState
  pub result : Option PcapResult

pub record UploadSink : Type 0 where
  pub tx : Bool  -- the sink still owns the sender of the body channel
  pub max_bytes : ℕ
  pub bytes : ℕ
  pub finished : Bool

pub record Job : Type 0 where
  pub task : Task
  pub handles : Handles
  pub sinks : List UploadSink

pub record AgentConnectionId : Type 0 where
  pub name : String
  pub generation : ℕ

-- The fold of `token_matches` over the two byte strings, which have one length.
difference : ℕ → List ℕ → List ℕ → ℕ
difference acc (x ∷ xs) (y ∷ ys) = difference (bit_or acc (bit_xor x y)) xs ys
difference acc _ _ = acc

unfoldable pub token_matches : List ℕ → List ℕ → Bool
unfolding difference
token_matches expected presented =
    if length expected == length presented then difference 0 expected presented == 0 else false

-- The task and channels that `register` makes.
unfoldable pub new_job : List ℕ → String → ℕ → ℕ → Job
new_job token agent generation max_bytes = record {
  task = record {
    token = token;
    agent = agent;
    generation = generation;
    max_bytes = max_bytes;
    body_tx = true;
    result_tx = true;
    uploading = false;
    upload_allowed = true;
  };
  handles = record { body = []; body_rx = true; upload = pending; result = none };
  sinks = [];
}

-- `begin_upload` after the task is found: on success the number of the new sink.
unfoldable pub claim_upload : List ℕ → Job → Job × Option ℕ
claim_upload token j =
    let t = j.task in
    let h = j.handles in
    let sink : UploadSink = record {
      tx = true;
      max_bytes = t.max_bytes;
      bytes = 0;
      finished = false;
    } in
    let claimed = record j {
      task = record t { body_tx = false; uploading = true };
      handles = record h { upload = streaming };
      sinks = j.sinks ++ sink ∷ [];
    } in
    if not (token_matches t.token token)
    then (j, none)
    else if not t.upload_allowed
    then (j, none)
    else if not t.body_tx
    then (j, none)
    else (claimed, some (length j.sinks))

pub data SendResult : Type 0 where
  sent receiver_closed too_large panicked : SendResult

-- `UploadSink::send`, when the channel has room: the wait for capacity is not modelled.
unfoldable pub send : ℕ → UploadSink → List ℕ → Job → Job × SendResult
send i s chunk j =
    let total = s.bytes + length chunk in
    let h = j.handles in
    if leb (2 ^ 64) total
    then (j, too_large)
    else if ltb s.max_bytes total
    then (j, too_large)
    else if not s.tx
    then (j, panicked)
    else if not h.body_rx
    then (j, receiver_closed)
    else (
      record j {
        handles = record h { body = h.body ++ chunk ∷ [] };
        sinks = set j.sinks i (record s { bytes = total });
      },
      sent,
    )

-- The common end of a sink: the body sender is dropped before the state is published.
finish : ℕ → UploadSink → UploadState → Job → Job
finish i s state j =
    let h = j.handles in
    record j {
      handles = record h { upload = state };
      sinks = set j.sinks i (record s { finished = true; tx = false });
    }

unfoldable pub complete_sink : ℕ → UploadSink → Job → Job
unfolding finish
complete_sink i s = finish i s (completed s.bytes)

unfoldable pub fail_sink : ℕ → UploadSink → String → Job → Job
unfolding finish
fail_sink i s reason = finish i s (failed reason s.bytes)

unfoldable pub drop_sink : ℕ → UploadSink → Job → Job
unfolding finish
drop_sink i s j = if s.finished then j else finish i s (failed "agent-upload-ended" s.bytes) j

pub data SinkCall : Type 0 where
  send_chunk : List ℕ → SinkCall
  complete_call : SinkCall
  fail_call : String → SinkCall
  drop_call : SinkCall

-- A call on a sink that is still owned by someone.
run_sink : SinkCall → ℕ → UploadSink → Job → Job
unfolding send complete_sink fail_sink drop_sink
run_sink (send_chunk chunk) i s j = (send i s chunk j).0
run_sink complete_call i s j = complete_sink i s j
run_sink (fail_call reason) i s j = fail_sink i s reason j
run_sink drop_call i s j = drop_sink i s j

unfoldable pub sink_call : SinkCall → ℕ → Job → Job
unfolding run_sink
sink_call call i j = elim (get_elem? j.sinks i) [
  | none ↦ j
  | some s ↦ if s.finished then j else run_sink call i s j
]

abbrev pub is_complete : PcapResultCode → Bool
is_complete complete = true
is_complete _ = false

abbrev pub is_upload_complete : PcapUploadStatus → Bool
is_upload_complete upload_complete = true
is_upload_complete _ = false

-- A result that says that an upload follows, or has gone before.
abbrev pub promises_upload : PcapResult → Bool
promises_upload result = is_complete result.code && is_upload_complete result.upload

-- The result sender is taken at most once.
send_result : PcapResult → Job → Job
send_result result j =
    let t = j.task in
    let h = j.handles in
    if t.result_tx
    then record j {
      task = record t { result_tx = false };
      handles = record h { result = some result };
    }
    else j

forbid_upload : Job → Job
forbid_upload j = let t = j.task in record j { task = record t { upload_allowed = false } }

is_bound : AgentConnectionId → Task → Bool
is_bound connection t = str_eq t.agent connection.name && t.generation == connection.generation

-- `deliver_result` after the task is found.
unfoldable pub deliver : AgentConnectionId → List ℕ → PcapResult → Job → Job
unfolding send_result forbid_upload is_bound
deliver connection token result j =
    if is_bound connection j.task && token_matches j.task.token token
    then send_result result (if promises_upload result then j else forbid_upload j)
    else j

abbrev pub disconnect_result : PcapResult
disconnect_result = record {
  code = error;
  upload = upload_failed;
  message = some "agent disconnected";
  stats = none;
}

-- The body of the loop of `fail_pending`.
unfoldable pub disconnect : AgentConnectionId → Job → Job
unfolding send_result forbid_upload is_bound
disconnect connection j =
    if is_bound connection j.task then send_result disconnect_result (forbid_upload j) else j

-- The waiting request drops its body receiver.
unfoldable pub close_body : Job → Job
close_body j = let h = j.handles in record j { handles = record h { body_rx = false } }
