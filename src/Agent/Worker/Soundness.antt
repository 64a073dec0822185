-- ===== src/Agent/Worker/Soundness.antt =====
-- What the terminal result of `run_job` (src/agent/channel.rs) says of the extraction and the upload.
use evebox.Base.{◌≡◌, ◌≢◌, ◌⊎◌, refl, sym, subst, true, false, Option, none, some, String, if_lem}
use evebox.Pcap.Request.{FetchStats}
use evebox.Pcap.Fetch.{no_candidate_files, no_match, format, io}
use evebox.Agent.Protocol.{
  PcapResult, PcapResultCode, PcapUploadStatus, upload_none, upload_complete, cancelled_result,
  wire_of_stats,
}
use evebox.Agent.Terminal.{
  FetchJoin, fetch_ok, fetch_err, fetch_failed, UploadJoin, upload_succeeded, terminal_from_fetch,
  terminal_uploaded, terminal_code, terminal,
}
use evebox.Agent.Worker.{
  Phase, waiting, fetching, draining, uploading, stopping, done, Worker, stop,
}

-- No upload is reported exactly where none was started.
abbrev pub UploadAt : Worker → PcapUploadStatus → Type 0
UploadAt s upload =
    ((upload ≡ upload_none) × (s.upload_spawned ≡ false))
    ⊎ ((upload ≢ upload_none) × (s.upload_spawned ≡ true))

-- The upload was accepted.
abbrev pub IsAccepted : Worker → Type 0
IsAccepted s = (x : UploadJoin) × (s.upload ≡ some x) × (upload_succeeded x ≡ true)

abbrev pub CodeOk : Worker → PcapResult → PcapResultCode → Type 0
CodeOk s r PcapResultCode.complete =
    (stats : FetchStats) × (s.fetch ≡ some (fetch_ok stats))
    × (r.stats ≡ some (wire_of_stats stats))
    × ((r.upload ≡ upload_none) ⊎ ((r.upload ≡ upload_complete) × IsAccepted s))
CodeOk s r PcapResultCode.no_candidate_files = s.fetch ≡ some (fetch_err no_candidate_files)
CodeOk s r PcapResultCode.no_match =
    (stats : FetchStats) × (s.fetch ≡ some (fetch_err (no_match stats)))
CodeOk s r PcapResultCode.cancelled = s.cancelled ≡ true
CodeOk s r PcapResultCode.error = r.message ≢ none

-- The result tells what happened, and comes only after the extraction has ended.
pub record ResultOk (s : Worker) (r : PcapResult) : Type 0 where
  pub code : CodeOk s r r.code
  pub uploads : UploadAt s r.upload
  pub settled : s.launched ≡ true → s.fetch ≢ none

-- What a result may say of the upload where nothing was cancelled and nothing failed.
abbrev pub MayComplete : Worker → PcapUploadStatus → Option String → Type 0
MayComplete s upload message =
    s.cancelled ≡ false
    → message ≡ none
    → (upload ≡ upload_none) ⊎ ((upload ≡ upload_complete) × IsAccepted s)

terminal_code-CodeOk :
    (s : Worker) (fetched : FetchJoin) (upload : PcapUploadStatus)
    → s.fetch ≡ some fetched
    → (upload ≡ upload_none) ⊎ ((upload ≡ upload_complete) × IsAccepted s)
    → CodeOk s (terminal_code fetched upload) (terminal_code fetched upload).code
unfolding terminal_code terminal
terminal_code-CodeOk s (fetch_ok stats) upload e h = (stats, e, refl, h)
terminal_code-CodeOk s (fetch_err no_candidate_files) upload e h = e
terminal_code-CodeOk s (fetch_err (no_match stats)) upload e h = (stats, e)
terminal_code-CodeOk s (fetch_err (format message)) upload e h = λ f. cc
terminal_code-CodeOk s (fetch_err (io message)) upload e h = λ f. cc
terminal_code-CodeOk s (fetch_failed message) upload e h = λ f. cc

terminal_code-upload :
    (fetched : FetchJoin) (upload : PcapUploadStatus)
    → (terminal_code fetched upload).upload ≡ upload
unfolding terminal_code terminal
terminal_code-upload (fetch_ok stats) upload = refl
terminal_code-upload (fetch_err no_candidate_files) upload = refl
terminal_code-upload (fetch_err (no_match stats)) upload = refl
terminal_code-upload (fetch_err (format message)) upload = refl
terminal_code-upload (fetch_err (io message)) upload = refl
terminal_code-upload (fetch_failed message) upload = refl

has_ended : (s : Worker) (fetched : FetchJoin) → s.fetch ≡ some fetched → s.fetch ≢ none
has_ended s fetched e f = cc (e, f)

terminal_uploaded-ResultOk :
    (s : Worker) (fetched : FetchJoin) (upload : PcapUploadStatus) (message : Option String)
    → s.fetch ≡ some fetched
    → UploadAt s upload
    → (message ≡ none → (upload ≡ upload_none) ⊎ ((upload ≡ upload_complete) × IsAccepted s))
    → ResultOk s (terminal_uploaded fetched upload message)
unfolding terminal_uploaded terminal
terminal_uploaded-ResultOk s fetched upload (some message) e at may = record {
  code = λ f. cc;
  uploads = at;
  settled = λ _. has_ended s fetched e;
}
terminal_uploaded-ResultOk s fetched upload none e at may = record {
  code = terminal_code-CodeOk s fetched upload e (may refl);
  uploads = subst (UploadAt s) (sym (terminal_code-upload fetched upload)) at;
  settled = λ _. has_ended s fetched e;
}

pub terminal_from_fetch-ResultOk :
    (s : Worker) (fetched : FetchJoin) (upload : PcapUploadStatus) (message : Option String)
    → s.fetch ≡ some fetched
    → UploadAt s upload
    → MayComplete s upload message
    → ResultOk s (terminal_from_fetch fetched s.cancelled upload message)
unfolding terminal_from_fetch cancelled_result
terminal_from_fetch-ResultOk s fetched upload message e at may =
    if_lem (ResultOk s) s.cancelled _ _
      (λ set. record { code = set; uploads = at; settled = λ _. has_ended s fetched e })
      (λ unset. terminal_uploaded-ResultOk s fetched upload message e at (may unset))

-- What holds while the worker is in a phase.
abbrev pub PhaseOk : Worker → Phase → Type 0
PhaseOk s waiting = (s.launched ≡ false) × (s.upload_spawned ≡ false)
PhaseOk s fetching = (s.launched ≡ true) × (s.upload_spawned ≡ false)
PhaseOk s draining = (s.launched ≡ true) × (s.upload_spawned ≡ false)
PhaseOk s (uploading u) =
    (s.launched ≡ true)
    × (s.upload_spawned ≡ true)
    × ((x : FetchJoin) → u.fetch_result ≡ some x → s.fetch ≡ some x)
    × ((x : UploadJoin)
        → u.upload_result ≡ some x
        → (s.upload ≡ some x) × (upload_succeeded x ≡ true))
PhaseOk s (stopping upload message) =
    (s.launched ≡ true) × (UploadAt s upload) × (s.cancelled ≡ false → message ≢ none)
PhaseOk s (done r) = ResultOk s r

pub stop-PhaseOk :
    (o : Option FetchJoin) (upload : PcapUploadStatus) (message : Option String) (s : Worker)
    → s.launched ≡ true
    → UploadAt s upload
    → (s.cancelled ≡ false → message ≢ none)
    → ((x : FetchJoin) → o ≡ some x → s.fetch ≡ some x)
    → PhaseOk (stop o upload message s) (stop o upload message s).phase
unfolding stop
stop-PhaseOk none upload message s launched at why seen = (launched, at, why)
stop-PhaseOk (some fetched) upload message s launched at why seen =
    let s' : Worker = record s { fetch_cancelled = true } in
    let h =
      terminal_from_fetch-ResultOk s' fetched upload message (seen fetched refl) at
        (λ unset e. absurd (why unset e)) in
    record { code = h.code; uploads = h.uploads; settled = h.settled }
