-- ===== src/Agent/Worker/Polling.antt =====
-- Every event of a worker of src/agent/channel.rs keeps what its phase promises.
use evebox.Base.{ℕ, ◌≡◌, inl, refl, subst, Bool, Option, none, some, List, [], ◌∷◌, if_lem, ltb}
use evebox.Agent.Protocol.{PcapResult, error_result}
use evebox.Agent.Worker.{
  UploadBodyProgress, done, Worker, new_worker, Event, cancel_event, permit_event, first_event,
  fetch_event, upload_event, progress_event, progress_closed_event, clock_event, poll_event,
  answer_once, step, run,
}
use evebox.Agent.Worker.Soundness.{ResultOk, PhaseOk}
use evebox.Agent.Worker.Extending.{Extends, PhaseOk-Extends, IsExplained}
use evebox.Agent.Worker.Rounds.{poll_phase-IsExplained}

answer_once-some {ℓ} :
    {A : Type ℓ} (started : Bool) (o : Option A) (new x : A)
    → o ≡ some x
    → answer_once started o new ≡ some x
unfolding answer_once
answer_once-some started none new x e = cc
answer_once-some started (some old) new x e = e

-- What the results do not depend on.
around :
    (s : Worker) (permit first : Option Bool) (progress : Option UploadBodyProgress)
    (progress_closed : Bool) (now : ℕ)
    → Extends s (record s {
      permit = permit;
      first = first;
      progress = progress;
      progress_closed = progress_closed;
      now = now;
    })
around s permit first progress progress_closed now = record {
  launched = refl;
  spawned = refl;
  cancelled = λ e. e;
  fetch = λ x e. e;
  upload = λ x e. e;
}

step-IsExplained : (event : Event) (s : Worker) → IsExplained s → IsExplained (step event s)
unfolding step
step-IsExplained cancel_event s h =
    PhaseOk-Extends s _ s.phase
      (record {
        launched = refl;
        spawned = refl;
        cancelled = λ _. refl;
        fetch = λ x e. e;
        upload = λ x e. e;
      })
      h
step-IsExplained (permit_event acquired) s h = PhaseOk-Extends s _ s.phase (around s _ _ _ _ _) h
step-IsExplained (first_event has_chunk) s h = PhaseOk-Extends s _ s.phase (around s _ _ _ _ _) h
step-IsExplained (fetch_event fetched) s h =
    PhaseOk-Extends s _ s.phase
      (record {
        launched = refl;
        spawned = refl;
        cancelled = λ e. e;
        fetch = λ x e. answer_once-some s.launched s.fetch fetched x e;
        upload = λ x e. e;
      })
      h
step-IsExplained (upload_event uploaded) s h =
    PhaseOk-Extends s _ s.phase
      (record {
        launched = refl;
        spawned = refl;
        cancelled = λ e. e;
        fetch = λ x e. e;
        upload = λ x e. answer_once-some s.upload_spawned s.upload uploaded x e;
      })
      h
step-IsExplained (progress_event p) s h = PhaseOk-Extends s _ s.phase (around s _ _ _ _ _) h
step-IsExplained progress_closed_event s h = PhaseOk-Extends s _ s.phase (around s _ _ _ _ _) h
step-IsExplained (clock_event now) s h = PhaseOk-Extends s _ s.phase (around s _ _ _ _ _) h
step-IsExplained poll_event s h = poll_phase-IsExplained s.phase s h h

pub run_keeps-IsExplained :
    (events : List Event) (s : Worker) → IsExplained s → IsExplained (run events s)
unfolding run
run_keeps-IsExplained [] s h = h
run_keeps-IsExplained (event ∷ events) s h =
    run_keeps-IsExplained events (step event s) (step-IsExplained event s h)

pub new_worker-IsExplained : (start_us end_us : ℕ) → IsExplained (new_worker start_us end_us)
unfolding new_worker error_result
new_worker-IsExplained start_us end_us =
    if_lem (PhaseOk (new_worker start_us end_us)) (ltb end_us start_us) _ _
      (λ _. record { code = λ e. cc; uploads = inl (refl, refl); settled = λ e. cc })
      (λ _. (refl, refl))

-- Whatever happens around a worker, and in whatever order, once it has returned its result is true:
-- "complete" means that the extraction ended with just these statistics, and that either no upload
-- was started or the whole upload was answered with a success; a result that nothing was found comes
-- from the extraction, "cancelled" only after the server has cancelled, and an error has a message.
-- It reports no upload exactly where none was started, and the extraction, if it was started at all,
-- has come to its end.
pub run-ResultOk :
    (start_us end_us : ℕ) (events : List Event) (r : PcapResult)
    → (run events (new_worker start_us end_us)).phase ≡ done r
    → ResultOk (run events (new_worker start_us end_us)) r
run-ResultOk start_us end_us events r e =
    let s = run events (new_worker start_us end_us) in
    subst (PhaseOk s) e (
      run_keeps-IsExplained events (new_worker start_us end_us)
        (new_worker-IsExplained start_us end_us))
