-- ===== src/Agent/Channel/Examples.antt =====
-- A connection on which an identifier is used again after its first job has settled.
use evebox.Base.{
  ℕ, ◌≡◌, refl, true, false, some, List, [], ◌∷◌, All, get_elem?, lookup, insert, remove, list_eq,
  modify, arith,
}
use evebox.Agent.Protocol.{hello, pcap_request, wire_all, WireLimits, error_result, capability_pcap}
use evebox.Agent.Reconnect.{
  min_backoff, ConnectionOutcome, disconnected, connect_failed, server_too_old, sleeps,
}
use evebox.Agent.Channel.{
  working, Worker, new_connection, cancel_job, Event, text, settles, publishes, forwards, run, step,
  handle_message, start_job, settle, publish, forward, accept, new_connection,
}
use evebox.Agent.Reconnect.Bounds.{IsPause, reconnect_bounds}
use evebox.Agent.Channel.Cancelling.{IsCancelExact, cancel_job_exact}
use evebox.Agent.Channel.Starting.{IsLinked}
use evebox.Agent.Channel.Safety.{run-IsLinked, one_worker}

abbrev token : List ℕ
token = 7 ∷ 8 ∷ []

abbrev limits : WireLimits
limits = record { max_bytes = 100; scan_timeout_ms = 1_000 }

abbrev requested : Event
requested = text (some (pcap_request "job" token wire_all 1 2 limits))

abbrev events : List Event
events =
    text (some (hello "1.0" (capability_pcap ∷ [])))
    ∷ requested
    ∷ settles 0 (error_result "no spool")
    ∷ publishes 0
    ∷ forwards true
    ∷ requested
    ∷ []

abbrev second_worker : Worker
second_worker = record {
  id = "job";
  token = token;
  filter = wire_all;
  start_us = 1;
  end_us = 2;
  limits = limits;
  is_cancelled = false;
  state = working;
}

second_runs : get_elem? (run events new_connection).workers 1 ≡ some second_worker
unfolding run step handle_message start_job settle publish forward accept new_connection lookup
    insert remove list_eq modify
second_runs = refl

run-IsLinked_example : IsLinked (run events new_connection)
run-IsLinked_example = run-IsLinked events

one_worker_example : ◌≡◌ {A = ℕ} 1 1
one_worker_example =
    one_worker events 1 1 second_worker second_worker second_runs second_runs refl refl refl

second_cancelled :
    get_elem? (cancel_job "job" token (run events new_connection)).workers 1
    ≡ some (record second_worker { is_cancelled = true })
unfolding cancel_job run step handle_message start_job settle publish forward accept new_connection
    lookup insert remove list_eq modify
second_cancelled = refl

cancel_job_exact_example :
    IsCancelExact "job" token second_worker (record second_worker { is_cancelled = true })
cancel_job_exact_example =
    cancel_job_exact events "job" token 1 second_worker
      (record second_worker { is_cancelled = true }) second_runs second_cancelled

abbrev outcomes : List ConnectionOutcome
outcomes = connect_failed ∷ connect_failed ∷ server_too_old ∷ disconnected 90_000_000_000 ∷ []

abbrev random_range : ℕ → ℕ
random_range max = max

doubled :
    sleeps random_range min_backoff outcomes
    ≡ 1_500_000_000 ∷ 3_000_000_000 ∷ 45_000_000_000 ∷ 1_500_000_000 ∷ []
unfolding sleeps
doubled = refl

reconnect_bounds_example : All IsPause (sleeps random_range min_backoff outcomes)
reconnect_bounds_example = reconnect_bounds random_range outcomes (λ max. omega arith)
