-- ===== src/Server/Outcome.antt =====
-- `classify_result` of src/server/pcap/tasks.rs: the one interpreter of an agent's terminal result
-- against the upload that was observed. The texts of the messages are kept as they are written;
-- the numbers that one of them prints are the constructor's arguments.
pub mod Soundness
pub mod Examples
use evebox.Base.{
  ℕ, Bool, true, false, not, ◌&&◌, ◌||◌, Option, none, some, String, ◌==◌, if◌then◌else◌,
}
use evebox.Agent.Protocol.{
  WireStats, PcapResult, PcapResultCode, PcapUploadStatus, complete, no_candidate_files, no_match,
  cancelled, error, upload_none, upload_complete, upload_failed,
}
use evebox.Server.Job.{UploadState, pending, streaming, completed, failed}

pub data ProtocolDetail : Type 0 where
  omitted_statistics unconfirmed_upload not_an_empty_truncation : ProtocolDetail
  empty_result_after_upload denied_upload : ProtocolDetail
  bytes_disagree : (streamed uploaded reported : ℕ) → ProtocolDetail

pub data RemoteOutcome : Type 0 where
  wait : RemoteOutcome
  complete_outcome : WireStats → RemoteOutcome
  no_candidate_files_outcome no_match_outcome : RemoteOutcome
  cancelled_outcome : Option String → RemoteOutcome
  error_outcome : String → RemoteOutcome
  protocol : ProtocolDetail → RemoteOutcome

abbrev pub is_pending : UploadState → Bool
is_pending pending = true
is_pending _ = false

abbrev pub is_failed : UploadState → Bool
is_failed (failed _ _) = true
is_failed _ = false

abbrev pub unwrap_or_else : Option String → String → String
unwrap_or_else none d = d
unwrap_or_else (some m) d = m

-- A complete result that made no upload.
classify_no_upload : WireStats → UploadState → ℕ → RemoteOutcome
classify_no_upload stats upload streamed =
    if not (is_pending upload) || not (streamed == 0)
    then protocol unconfirmed_upload
    else if not (stats.bytes == 0) || not stats.truncated
    then protocol not_an_empty_truncation
    else complete_outcome stats

-- A complete result whose upload is over, or is still to come.
classify_uploaded : WireStats → UploadState → Bool → ℕ → RemoteOutcome
classify_uploaded stats (completed uploaded) body_open streamed =
    if body_open
    then wait
    else if not (uploaded == streamed) || not (stats.bytes == streamed)
    then protocol (bytes_disagree streamed uploaded stats.bytes)
    else complete_outcome stats
classify_uploaded stats _ body_open streamed = wait

classify_stats :
    PcapUploadStatus → Option WireStats → String → UploadState → Bool → ℕ → RemoteOutcome
unfolding classify_no_upload classify_uploaded
classify_stats upload_failed stats message upload body_open streamed = error_outcome message
classify_stats claimed none message upload body_open streamed =
    if is_failed upload then error_outcome message else protocol omitted_statistics
classify_stats upload_none (some stats) message upload body_open streamed =
    if is_failed upload then error_outcome message else classify_no_upload stats upload streamed
classify_stats upload_complete (some stats) message upload body_open streamed =
    if is_failed upload
    then error_outcome message
    else classify_uploaded stats upload body_open streamed

abbrev is_upload_none : PcapUploadStatus → Bool
is_upload_none upload_none = true
is_upload_none _ = false

classify_empty : PcapUploadStatus → UploadState → ℕ → RemoteOutcome → RemoteOutcome
classify_empty claimed upload streamed outcome =
    if not (is_upload_none claimed) || not (is_pending upload) || not (streamed == 0)
    then protocol empty_result_after_upload
    else outcome

classify_ended : PcapUploadStatus → UploadState → RemoteOutcome → RemoteOutcome
classify_ended claimed upload outcome =
    if is_upload_none claimed && not (is_pending upload) then protocol denied_upload else outcome

pub classify_code : PcapResultCode → PcapResult → UploadState → Bool → ℕ → RemoteOutcome
unfolding classify_stats classify_empty classify_ended
classify_code complete result upload body_open streamed =
    classify_stats result.upload result.stats (unwrap_or_else result.message "pcap upload failed")
      upload body_open streamed
classify_code no_candidate_files result upload body_open streamed =
    classify_empty result.upload upload streamed no_candidate_files_outcome
classify_code no_match result upload body_open streamed =
    classify_empty result.upload upload streamed no_match_outcome
classify_code cancelled result upload body_open streamed =
    classify_ended result.upload upload (cancelled_outcome result.message)
classify_code error result upload body_open streamed =
    classify_ended result.upload upload
      (error_outcome (unwrap_or_else result.message "pcap agent extraction failed"))

unfoldable pub classify_result : PcapResult → UploadState → Bool → ℕ → RemoteOutcome
unfolding classify_code
classify_result result upload body_open streamed =
    classify_code result.code result upload body_open streamed
