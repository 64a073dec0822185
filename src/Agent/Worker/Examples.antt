-- ===== src/Agent/Worker/Examples.antt =====
-- A worker whose extraction and upload both succeed, and one that is cancelled during its upload.
use evebox.Base.{◌≡◌, ◌≢◌, refl, true, false, none, some, List, [], ◌∷◌}
use evebox.Pcap.Request.{FetchStats}
use evebox.Agent.Protocol.{PcapResult, complete, upload_complete, wire_of_stats}
use evebox.Agent.Terminal.{
  fetch_ok, response, upload_succeeded, classify_upload, terminal_from_fetch,
}
use evebox.Agent.Worker.{
  done, new_worker, Event, cancel_event, permit_event, first_event, fetch_event, upload_event,
  poll_event, run, step,
}
use evebox.Agent.Worker.Soundness.{ResultOk}
use evebox.Agent.Worker.Polling.{run-ResultOk}
use evebox.Agent.Worker.Ending.{Returns, cancel-Returns}

abbrev pub stats : FetchStats
stats = record {
  packets = 2;
  bytes = 60;
  files_scanned = 1;
  files_vanished = 0;
  truncated = false;
  linktype = some 1;
}

abbrev pub events : List Event
events =
    permit_event true
    ∷ poll_event
    ∷ first_event true
    ∷ poll_event
    ∷ upload_event (response true "200 OK")
    ∷ poll_event
    ∷ fetch_event (fetch_ok stats)
    ∷ poll_event
    ∷ []

abbrev pub result : PcapResult
result = record {
  code = complete;
  upload = upload_complete;
  message = none;
  stats = some (record {
    packets = 2;
    bytes = 60;
    files_scanned = 1;
    files_vanished = 0;
    truncated = false;
  });
}

pub both_succeed : (run events (new_worker 10 20)).phase ≡ done result
unfolding run step new_worker upload_succeeded classify_upload terminal_from_fetch wire_of_stats
both_succeed = refl

pub was_spawned : (run events (new_worker 10 20)).upload_spawned ≡ true
unfolding run step new_worker upload_succeeded
was_spawned = refl

pub fetched : (run events (new_worker 10 20)).fetch ≡ some (fetch_ok stats)
unfolding run step new_worker upload_succeeded
fetched = refl

run-ResultOk_example : ResultOk (run events (new_worker 10 20)) result
run-ResultOk_example = run-ResultOk 10 20 events result both_succeed

abbrev cancelled_events : List Event
cancelled_events =
    permit_event true
    ∷ poll_event
    ∷ first_event true
    ∷ poll_event
    ∷ cancel_event
    ∷ fetch_event (fetch_ok stats)
    ∷ []

was_cancelled : (run cancelled_events (new_worker 10 20)).cancelled ≡ true
unfolding run step new_worker
was_cancelled = refl

has_ended : (run cancelled_events (new_worker 10 20)).fetch ≢ none
unfolding run step new_worker
has_ended e = cc

cancel-Returns_example :
    Returns (run (poll_event ∷ poll_event ∷ []) (run cancelled_events (new_worker 10 20)))
cancel-Returns_example = cancel-Returns 10 20 cancelled_events was_cancelled (λ _. has_ended)
