-- ===== src/Agent/Worker/Ending.antt =====
-- A worker of src/agent/channel.rs that was cancelled returns as soon as its extraction has ended.
use evebox.Base.{
  ℕ, ◌≡◌, ◌≢◌, inl, inr, refl, sym, subst, true, Option, Option-cases, none, some, List, [], ◌∷◌,
  String, if_lem,
}
use evebox.Agent.Protocol.{PcapResult, PcapUploadStatus, upload_none, upload_failed}
use evebox.Agent.Terminal.{FetchJoin}
use evebox.Agent.Worker.{
  Phase, waiting, fetching, draining, uploading, stopping, done, Worker, new_worker, stop,
  poll_waiting, poll_fetching, poll_ended, poll_uploading, poll_phase, Event, poll_event, step, run,
}
use evebox.Agent.Worker.Soundness.{PhaseOk}
use evebox.Agent.Worker.Polling.{run_keeps-IsExplained, new_worker-IsExplained}

abbrev pub Returns : Worker → Type 0
Returns s = (r : PcapResult) × (s.phase ≡ done r)

-- Two polls.
twice : Phase → Worker → Worker
unfolding poll_phase
twice p s = let s' = poll_phase p s in poll_phase s'.phase s'

poll_ended-Returns :
    (o : Option FetchJoin) (x : FetchJoin) (upload : PcapUploadStatus) (message : Option String)
    (s : Worker)
    → o ≡ some x
    → Returns (poll_ended o upload message s)
unfolding poll_ended
poll_ended-Returns none x upload message s e = cc
poll_ended-Returns (some y) x upload message s e = (_, refl)

poll_again : (s : Worker) → Returns s → Returns (poll_phase s.phase s)
unfolding poll_phase
poll_again s (r, e) = subst (λ p. Returns (poll_phase p s)) (sym e) (r, e)

stop-Returns :
    (o : Option FetchJoin) (x : FetchJoin) (upload : PcapUploadStatus) (message : Option String)
    (s : Worker)
    → s.fetch ≡ some x
    → (let s' = stop o upload message s in Returns (poll_phase s'.phase s'))
unfolding stop poll_phase
stop-Returns none x upload message s e = poll_ended-Returns s.fetch x upload message _ e
stop-Returns (some y) x upload message s e = (_, refl)

twice-Returns :
    (p : Phase) (s : Worker)
    → s.phase ≡ p
    → s.cancelled ≡ true
    → (s.launched ≡ true → (x : FetchJoin) × (s.fetch ≡ some x))
    → PhaseOk s p
    → Returns (twice p s)
unfolding twice poll_phase poll_waiting poll_fetching poll_uploading
twice-Returns waiting s at set ended h =
    if_lem (λ (s' : Worker). Returns (poll_phase s'.phase s')) s.cancelled _ _ (λ _. (_, refl))
      (λ f. absurd (cc (set, f)))
twice-Returns fetching s at set ended h =
    let (x, e) = ended h.0 in
    if_lem (λ (s' : Worker). Returns (poll_phase s'.phase s')) s.cancelled _ _
      (λ _. stop-Returns none x upload_none none s e) (λ f. absurd (cc (set, f)))
twice-Returns draining s at set ended h =
    let (x, e) = ended h.0 in
    poll_again (poll_ended s.fetch upload_none none s)
      (poll_ended-Returns s.fetch x upload_none none s e)
twice-Returns (uploading u) s at set ended h =
    let (x, e) = ended h.0 in
    if_lem (λ (s' : Worker). Returns (poll_phase s'.phase s')) s.cancelled _ _
      (λ _. stop-Returns u.fetch_result x upload_failed none (record s { upload_aborted = true }) e)
      (λ f. absurd (cc (set, f)))
twice-Returns (stopping upload message) s at set ended h =
    let (x, e) = ended h.0 in
    poll_again (poll_ended s.fetch upload message s)
      (poll_ended-Returns s.fetch x upload message s e)
twice-Returns (done r) s at set ended h = subst (λ q. Returns (poll_phase q s)) (sym at) (r, at)

-- A cancelled worker comes to its result: whatever has happened before, once the server has
-- cancelled the job and its extraction has ended, if it was started, two polls give a result, the
-- state of the upload notwithstanding.
pub cancel-Returns :
    (start_us end_us : ℕ) (events : List Event)
    → (let s = run events (new_worker start_us end_us) in
        (s.cancelled ≡ true)
        → (s.launched ≡ true → s.fetch ≢ none)
        → Returns (run (poll_event ∷ poll_event ∷ []) s))
unfolding run step twice
cancel-Returns start_us end_us events set ended =
    let s = run events (new_worker start_us end_us) in
    twice-Returns s.phase s refl set
      (λ e. elim (Option-cases s.fetch) [
        | inl nothing ↦ absurd (ended e nothing)
        | inr there ↦ there
      ])
      (run_keeps-IsExplained events (new_worker start_us end_us)
        (new_worker-IsExplained start_us end_us))
