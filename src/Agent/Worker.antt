-- ===== src/Agent/Worker.antt =====
-- `run_job` of src/agent/channel.rs: one extraction with its upload, up to the terminal result. The
-- tasks around it (the semaphore, the blocking extraction, the upload, the clock, a cancel message)
-- are events that come in any order. A poll is one round of its `select!`, which is biased: the first
-- ready branch is taken.
pub mod Soundness
pub mod Extending
pub mod Rounds
pub mod Polling
pub mod Ending
pub mod Examples
use Prim.Native.String.{◌++◌ as str_append}
use evebox.Base.{
  ℕ, ◌+◌, Bool, true, false, not, ◌&&◌, ◌||◌, Option, none, some, List, [], ◌∷◌, String, ltb, leb,
  if◌then◌else◌,
}
use evebox.Pcap.Request.{FetchStats}
use evebox.Pcap.Fetch.{FetchError, no_candidate_files, no_match, format, io}
use evebox.Agent.Protocol.{
  PcapResult, PcapResultCode, PcapUploadStatus, WireStats, upload_none, upload_complete,
  upload_failed, error_result, cancelled_result, wire_of_stats,
}
use evebox.Agent.Terminal.{
  FetchJoin, UploadJoin, upload_succeeded, classify_upload, terminal_from_fetch, response, fetch_ok,
  fetch_err, fetch_failed, terminal_uploaded, terminal_code, terminal, send_failed, task_failed,
}

abbrev pub upload_stall_timeout : ℕ
upload_stall_timeout = 60_000_000_000

abbrev pub upload_response_timeout : ℕ
upload_response_timeout = 60_000_000_000

pub data UploadBodyProgress : Type 0 where
  progress_pending : UploadBodyProgress
  progress_bytes : ℕ → UploadBodyProgress
  progress_eof progress_cancelled : UploadBodyProgress

-- The local variables of the loop.
pub record Uploading : Type 0 where
  pub fetch_result : Option FetchJoin
  pub upload_result : Option UploadJoin
  pub body_eof : Bool
  pub progress_open : Bool
  pub upload_deadline : ℕ

-- Where `run_job` waits: for the permit; for the first chunk; for the extraction, where there is no
-- chunk; in the loop of the upload; for the extraction to stop; or it has returned.
pub data Phase : Type 0 where
  waiting fetching draining : Phase
  uploading : Uploading → Phase
  stopping : PcapUploadStatus → Option String → Phase
  done : PcapResult → Phase

pub record Worker : Type 0 where
  pub cancelled : Bool  -- the token that the server's cancel message sets
  pub fetch_cancelled : Bool  -- its child, which stops the extraction alone
  pub permit : Option Bool  -- what the semaphore answered
  pub launched : Bool  -- the blocking extraction was started
  pub first : Option Bool  -- a first chunk is there, or the extraction has closed the channel
  pub fetch : Option FetchJoin  -- how the extraction has ended
  pub upload_spawned : Bool
  pub upload_aborted : Bool
  pub upload : Option UploadJoin  -- how the upload has ended
  pub progress : Option UploadBodyProgress  -- a value not yet seen
  pub progress_closed : Bool
  pub now : ℕ
  pub phase : Phase

unfoldable pub new_worker : (start_us end_us : ℕ) → Worker
new_worker start_us end_us = record {
  cancelled = false;
  fetch_cancelled = false;
  permit = none;
  launched = false;
  first = none;
  fetch = none;
  upload_spawned = false;
  upload_aborted = false;
  upload = none;
  progress = none;
  progress_closed = false;
  now = 0;
  phase =
      if ltb end_us start_us
      then done (error_result "PCAP request start is after end")
      else waiting;
}

-- `finish_cancelled_fetch` and `finish_failed_upload`: the extraction is told to stop, and awaited
-- where its end was not yet seen.
pub stop : Option FetchJoin → PcapUploadStatus → Option String → Worker → Worker
stop (some fetched) upload message s = record s {
  fetch_cancelled = true;
  phase = done (terminal_from_fetch fetched s.cancelled upload message);
}
stop none upload message s = record s { fetch_cancelled = true; phase = stopping upload message }

poll_waiting : Option Bool → Worker → Worker
poll_waiting permit s =
    if s.cancelled
    then record s { phase = done (cancelled_result upload_none none) }
    else elim permit [
      | none ↦ s
      | some acquired ↦
          if acquired
          then record s { launched = true; phase = fetching }
          else record s { phase = done (error_result "PCAP extraction worker stopped") }
    ]

start_upload : Worker → Worker
start_upload s = record s {
  upload_spawned = true;
  phase = uploading (record {
    fetch_result = none;
    upload_result = none;
    body_eof = false;
    progress_open = true;
    upload_deadline = s.now + upload_stall_timeout;
  });
}

poll_fetching : Option Bool → Worker → Worker
unfolding stop start_upload
poll_fetching first s = if s.cancelled then stop none upload_none none s else elim first [
  | none ↦ s
  | some has_chunk ↦ if has_chunk then start_upload s else record s { phase = draining }
]

-- The extraction is awaited, for a result with this upload.
poll_ended : Option FetchJoin → PcapUploadStatus → Option String → Worker → Worker
poll_ended none upload message s = s
poll_ended (some fetched) upload message s = record s {
  phase = done (terminal_from_fetch fetched s.cancelled upload message);
}

-- The head of the loop: it ends when both results are there.
loop_head : Option FetchJoin → Option UploadJoin → Uploading → Worker → Worker
loop_head (some fetched) (some uploaded) u s =
    let (status, message) = classify_upload uploaded in
    record s { phase = done (terminal_from_fetch fetched s.cancelled status message) }
loop_head none uploaded u s = record s { phase = uploading u }
loop_head (some fetched) none u s = record s { phase = uploading u }

message_or : Option String → String → String
message_or none default = default
message_or (some message) default = message

upload_ended : UploadJoin → Uploading → Worker → Worker
unfolding loop_head stop message_or
upload_ended uploaded u s =
    if upload_succeeded uploaded
    then loop_head u.fetch_result (some uploaded) (record u { upload_result = some uploaded }) s
    else stop u.fetch_result upload_failed
        (some (message_or (classify_upload uploaded).1 "PCAP upload failed")) s

see_progress : UploadBodyProgress → Uploading → Worker → Uploading
see_progress progress_pending u s = u
see_progress progress_cancelled u s = u
see_progress (progress_bytes bytes) u s =
    if u.body_eof then u else record u { upload_deadline = s.now + upload_stall_timeout }
see_progress progress_eof u s = record u {
  body_eof = true;
  upload_deadline = s.now + upload_response_timeout;
}

timeout_message : Bool → String
timeout_message true = "PCAP upload response timed out after body EOF (60s)"
timeout_message false = "PCAP upload made no progress for 60s"

check_deadline : Uploading → Worker → Worker
unfolding stop timeout_message
check_deadline u s =
    if leb u.upload_deadline s.now
    then stop u.fetch_result upload_failed (some (timeout_message u.body_eof))
        (record s { upload_aborted = true })
    else s

-- The branches after the upload's: its progress, and its deadline.
poll_progress : Option UploadBodyProgress → Uploading → Worker → Worker
unfolding see_progress check_deadline
poll_progress changed u s = if not u.progress_open then check_deadline u s else elim changed [
  | some progress ↦ record s { progress = none; phase = uploading (see_progress progress u s) }
  | none ↦
      if s.progress_closed
      then record s { phase = uploading (record u { progress_open = false }) }
      else check_deadline u s
]

poll_upload : Option UploadJoin → Option UploadJoin → Uploading → Worker → Worker
unfolding upload_ended poll_progress
poll_upload (some seen) uploaded u s = s
poll_upload none (some uploaded) u s = upload_ended uploaded u s
poll_upload none none u s = poll_progress s.progress u s

poll_fetch : Option FetchJoin → Option FetchJoin → Uploading → Worker → Worker
unfolding loop_head poll_upload
poll_fetch none (some fetched) u s =
    loop_head (some fetched) u.upload_result (record u { fetch_result = some fetched }) s
poll_fetch none none u s = poll_upload u.upload_result s.upload u s
poll_fetch (some seen) fetched u s = poll_upload u.upload_result s.upload u s

poll_uploading : Uploading → Worker → Worker
unfolding stop poll_fetch
poll_uploading u s =
    if s.cancelled
    then stop u.fetch_result upload_failed none (record s { upload_aborted = true })
    else poll_fetch u.fetch_result s.fetch u s

pub poll_phase : Phase → Worker → Worker
unfolding poll_waiting poll_fetching poll_ended poll_uploading
poll_phase waiting s = poll_waiting s.permit s
poll_phase fetching s = poll_fetching s.first s
poll_phase draining s = poll_ended s.fetch upload_none none s
poll_phase (uploading u) s = poll_uploading u s
poll_phase (stopping upload message) s = poll_ended s.fetch upload message s
poll_phase (done result) s = s

-- What may happen around the worker; each task answers once, after it was started.
pub data Event : Type 0 where
  cancel_event : Event
  permit_event : Bool → Event
  first_event : Bool → Event
  fetch_event : FetchJoin → Event
  upload_event : UploadJoin → Event
  progress_event : UploadBodyProgress → Event
  progress_closed_event : Event
  clock_event : ℕ → Event
  poll_event : Event

pub answer_once {ℓ} : {A : Type ℓ} → Bool → Option A → A → Option A
answer_once started (some old) new = some old
answer_once true none new = some new
answer_once false none new = none

unfoldable pub step : Event → Worker → Worker
unfolding answer_once poll_phase
step cancel_event s = record s { cancelled = true }
step (permit_event acquired) s = record s { permit = answer_once true s.permit acquired }
step (first_event has_chunk) s = record s { first = answer_once s.launched s.first has_chunk }
step (fetch_event fetched) s = record s { fetch = answer_once s.launched s.fetch fetched }
step (upload_event uploaded) s = record s {
  upload = answer_once s.upload_spawned s.upload uploaded;
}
step (progress_event progress) s = record s { progress = some progress }
step progress_closed_event s = record s { progress_closed = true }
step (clock_event now) s = record s { now = now }
step poll_event s = poll_phase s.phase s

unfoldable pub run : List Event → Worker → Worker
run [] s = s
run (event ∷ events) s = run events (step event s)
