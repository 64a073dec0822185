-- ===== src/Agent/Terminal.antt =====
-- The terminal result of a worker of src/agent/channel.rs, from what its extraction and its upload
-- ended with.
use Prim.Native.String.{◌++◌ as str_append}
use evebox.Base.{Bool, true, false, Option, none, some, String, if◌then◌else◌}
use evebox.Pcap.Request.{FetchStats}
use evebox.Pcap.Fetch.{FetchError, no_candidate_files, no_match, format, io}
use evebox.Agent.Protocol.{
  PcapResult, PcapResultCode, PcapUploadStatus, WireStats, upload_complete, upload_failed,
  cancelled_result, wire_of_stats,
}

-- What the task of the extraction ended with: its result, or the text of a join error.
pub data FetchJoin : Type 0 where
  fetch_ok : FetchStats → FetchJoin
  fetch_err : FetchError → FetchJoin
  fetch_failed : String → FetchJoin

-- What the task of the upload ended with: a response, with whether its status is a success and its
-- text; a transport error; a join error.
pub data UploadJoin : Type 0 where
  response : (is_success : Bool) → (status : String) → UploadJoin
  send_failed task_failed : String → UploadJoin

unfoldable pub upload_succeeded : UploadJoin → Bool
upload_succeeded (response is_success status) = is_success
upload_succeeded (send_failed e) = false
upload_succeeded (task_failed e) = false

unfoldable pub classify_upload : UploadJoin → PcapUploadStatus × Option String
classify_upload (response true status) = (upload_complete, none)
classify_upload (response false status) =
    (upload_failed, some (str_append "PCAP upload rejected with " status))
classify_upload (send_failed e) = (upload_failed, some (str_append "PCAP upload failed: " e))
classify_upload (task_failed e) = (upload_failed, some (str_append "PCAP upload task failed: " e))

abbrev default_wire_stats : WireStats
default_wire_stats = record {
  packets = 0;
  bytes = 0;
  files_scanned = 0;
  files_vanished = 0;
  truncated = false;
}

unfoldable pub terminal_stats : FetchJoin → Option WireStats
terminal_stats (fetch_ok stats) = some (wire_of_stats stats)
terminal_stats (fetch_err (no_match stats)) = some (wire_of_stats stats)
terminal_stats (fetch_err no_candidate_files) = some default_wire_stats
terminal_stats (fetch_err (format message)) = none
terminal_stats (fetch_err (io e)) = none
terminal_stats (fetch_failed e) = none

unfoldable pub terminal :
    PcapResultCode → PcapUploadStatus → Option String → Option WireStats → PcapResult
terminal code upload message stats = record {
  code = code;
  upload = upload;
  message = message;
  stats = stats;
}

unfoldable pub terminal_code : FetchJoin → PcapUploadStatus → PcapResult
unfolding terminal
terminal_code (fetch_ok stats) upload =
    terminal PcapResultCode.complete upload none (some (wire_of_stats stats))
terminal_code (fetch_err no_candidate_files) upload =
    terminal PcapResultCode.no_candidate_files upload none (some default_wire_stats)
terminal_code (fetch_err (no_match stats)) upload =
    terminal PcapResultCode.no_match upload none (some (wire_of_stats stats))
terminal_code (fetch_err (format message)) upload =
    terminal PcapResultCode.error upload (some message) none
terminal_code (fetch_err (io e)) upload = terminal PcapResultCode.error upload (some e) none
terminal_code (fetch_failed e) upload =
    terminal PcapResultCode.error upload (some (str_append "PCAP extraction task failed: " e)) none

unfoldable pub terminal_uploaded : FetchJoin → PcapUploadStatus → Option String → PcapResult
unfolding terminal_code terminal_stats terminal
terminal_uploaded fetched upload (some message) =
    terminal PcapResultCode.error upload (some message) (terminal_stats fetched)
terminal_uploaded fetched upload none = terminal_code fetched upload

unfoldable pub terminal_from_fetch :
    FetchJoin → (is_cancelled : Bool) → PcapUploadStatus → Option String → PcapResult
unfolding terminal_uploaded terminal_stats
terminal_from_fetch fetched is_cancelled upload upload_error =
    if is_cancelled
    then cancelled_result upload (terminal_stats fetched)
    else terminal_uploaded fetched upload upload_error
