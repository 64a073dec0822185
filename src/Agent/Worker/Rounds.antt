-- ===== src/Agent/Worker/Rounds.antt =====
-- Every poll of a worker of src/agent/channel.rs keeps what its phase promises.
use evebox.Base.{
  ◌≡◌, inl, inr, refl, subst, ◌∙◌, Bool, true, false, not, Option, none, some, some_inj, String,
  if_lem, if◌then◌else◌, leb,
}
use evebox.Agent.Protocol.{
  PcapUploadStatus, upload_none, upload_complete, upload_failed, error_result, cancelled_result,
}
use evebox.Agent.Terminal.{
  FetchJoin, UploadJoin, response, send_failed, task_failed, upload_succeeded, classify_upload,
  terminal_from_fetch,
}
use evebox.Agent.Worker.{
  UploadBodyProgress, Uploading, Phase, waiting, fetching, draining, uploading, stopping, done,
  Worker, poll_waiting, start_upload, poll_fetching, poll_ended, loop_head, upload_ended,
  see_progress, progress_pending, progress_bytes, progress_eof, progress_cancelled, check_deadline,
  poll_progress, poll_upload, poll_fetch, poll_uploading, poll_phase,
}
use evebox.Agent.Worker.Soundness.{
  UploadAt, ResultOk, MayComplete, terminal_from_fetch-ResultOk, PhaseOk, stop-PhaseOk,
}
use evebox.Agent.Worker.Extending.{ResultOk-Extends, same, IsExplained}

poll_waiting-IsExplained :
    (o : Option Bool) (s : Worker)
    → IsExplained s
    → PhaseOk s waiting
    → IsExplained (poll_waiting o s)
unfolding poll_waiting cancelled_result error_result
poll_waiting-IsExplained o s old h =
    if_lem IsExplained s.cancelled _ _
      (λ set. record { code = set; uploads = inl (refl, h.1); settled = λ e. cc (h.0, e) })
      (λ unset. answered o)
  where
    answered :
        (o : Option Bool)
        → IsExplained (elim o [
          | none ↦ s
          | some acquired ↦
              if acquired
              then record s { launched = true; phase = fetching }
              else record s { phase = done (error_result "PCAP extraction worker stopped") }
        ])
    answered none = old
    answered (some true) = (refl, h.1)
    answered (some false) = record {
      code = λ e. cc;
      uploads = inl (refl, h.1);
      settled = λ e. cc (h.0, e);
    }

poll_fetching-IsExplained :
    (o : Option Bool) (s : Worker)
    → IsExplained s
    → PhaseOk s fetching
    → IsExplained (poll_fetching o s)
unfolding poll_fetching start_upload
poll_fetching-IsExplained o s old h =
    if_lem IsExplained s.cancelled _ _
      (λ set.
        stop-PhaseOk none upload_none none s h.0 (inl (refl, h.1)) (λ unset. cc (set, unset))
          (λ x e. cc))
      (λ unset. answered o)
  where
    answered :
        (o : Option Bool)
        → IsExplained (elim o [
          | none ↦ s
          | some has_chunk ↦ if has_chunk then start_upload s else record s { phase = draining }
        ])
    answered none = old
    answered (some true) = (h.0, refl, λ x e. cc, λ x e. cc)
    answered (some false) = h

poll_ended-IsExplained :
    (o : Option FetchJoin) (upload : PcapUploadStatus) (message : Option String) (s : Worker)
    → IsExplained s
    → s.fetch ≡ o
    → UploadAt s upload
    → MayComplete s upload message
    → IsExplained (poll_ended o upload message s)
unfolding poll_ended
poll_ended-IsExplained none upload message s old e at may = old
poll_ended-IsExplained (some fetched) upload message s old e at may =
    ResultOk-Extends s _ _ (same s _)
      (terminal_from_fetch-ResultOk s fetched upload message e at may)

-- Both results are there.
both_ended :
    (s : Worker) (fetched : FetchJoin) (x : UploadJoin)
    → s.upload_spawned ≡ true
    → s.fetch ≡ some fetched
    → s.upload ≡ some x
    → upload_succeeded x ≡ true
    → ResultOk s
        (terminal_from_fetch fetched s.cancelled (classify_upload x).0 (classify_upload x).1)
unfolding classify_upload upload_succeeded
both_ended s fetched (response true status) spawned e there good =
    terminal_from_fetch-ResultOk s fetched upload_complete none e (inr (λ f. cc, spawned))
      (λ _ _. inr (refl, (response true status, there, good)))
both_ended s fetched (response false status) spawned e there good = cc
both_ended s fetched (send_failed message) spawned e there good = cc
both_ended s fetched (task_failed message) spawned e there good = cc

loop_head-IsExplained :
    (o : Option FetchJoin) (p : Option UploadJoin) (u : Uploading) (s : Worker)
    → u.fetch_result ≡ o
    → u.upload_result ≡ p
    → PhaseOk s (uploading u)
    → IsExplained (loop_head o p u s)
unfolding loop_head
loop_head-IsExplained (some fetched) (some x) u s e f (launched, spawned, fetch, upload) =
    ResultOk-Extends s _ _ (same s _)
      (both_ended s fetched x spawned (fetch fetched e) (upload x f).0 (upload x f).1)
loop_head-IsExplained none p u s e f h = h
loop_head-IsExplained (some fetched) none u s e f h = h

upload_ended-IsExplained :
    (x : UploadJoin) (u : Uploading) (s : Worker)
    → s.upload ≡ some x
    → PhaseOk s (uploading u)
    → IsExplained (upload_ended x u s)
unfolding upload_ended
upload_ended-IsExplained x u s there (launched, spawned, fetch, upload) =
    if_lem IsExplained (upload_succeeded x) _ _
      (λ good.
        let good_too : (y : UploadJoin)
            → some x ≡ some y
            → (s.upload ≡ some y) × (upload_succeeded y ≡ true) =
          λ y e.
            subst (λ z. (s.upload ≡ some z) × (upload_succeeded z ≡ true)) (some_inj e)
              (there, good) in
        loop_head-IsExplained u.fetch_result (some x) (record u { upload_result = some x }) s refl
          refl (launched, spawned, fetch, good_too))
      (λ _.
        stop-PhaseOk u.fetch_result upload_failed _ s launched (inr (λ e. cc, spawned)) (λ _ e. cc)
          fetch)

check_deadline-IsExplained :
    (u : Uploading) (s : Worker)
    → IsExplained s
    → PhaseOk s (uploading u)
    → IsExplained (check_deadline u s)
unfolding check_deadline
check_deadline-IsExplained u s old (launched, spawned, fetch, upload) =
    if_lem IsExplained (leb u.upload_deadline s.now) _ _
      (λ _.
        stop-PhaseOk u.fetch_result upload_failed _ (record s { upload_aborted = true }) launched
          (inr (λ e. cc, spawned)) (λ _ e. cc) fetch)
      (λ _. old)

see_progress-PhaseOk :
    (p : UploadBodyProgress) (u : Uploading) (s : Worker)
    → PhaseOk s (uploading u)
    → PhaseOk s (uploading (see_progress p u s))
unfolding see_progress
see_progress-PhaseOk progress_pending u s h = h
see_progress-PhaseOk progress_cancelled u s h = h
see_progress-PhaseOk (progress_bytes bytes) u s h =
    if_lem (λ v. PhaseOk s (uploading v)) u.body_eof _ _ (λ _. h) (λ _. h)
see_progress-PhaseOk progress_eof u s h = h

poll_progress-IsExplained :
    (o : Option UploadBodyProgress) (u : Uploading) (s : Worker)
    → IsExplained s
    → PhaseOk s (uploading u)
    → IsExplained (poll_progress o u s)
unfolding poll_progress
poll_progress-IsExplained o u s old h =
    if_lem IsExplained (not u.progress_open) _ _ (λ _. check_deadline-IsExplained u s old h)
      (λ _. changed o)
  where
    changed :
        (o : Option UploadBodyProgress)
        → IsExplained (elim o [
          | some progress ↦ record s {
            progress = none;
            phase = uploading (see_progress progress u s);
          }
          | none ↦
              if s.progress_closed
              then record s { phase = uploading (record u { progress_open = false }) }
              else check_deadline u s
        ])
    changed (some p) = see_progress-PhaseOk p u s h
    changed none =
        if_lem IsExplained s.progress_closed _ _ (λ _. h)
          (λ _. check_deadline-IsExplained u s old h)

poll_upload-IsExplained :
    (seen o : Option UploadJoin) (u : Uploading) (s : Worker)
    → IsExplained s
    → s.upload ≡ o
    → PhaseOk s (uploading u)
    → IsExplained (poll_upload seen o u s)
unfolding poll_upload
poll_upload-IsExplained (some x) o u s old e h = old
poll_upload-IsExplained none (some x) u s old e h = upload_ended-IsExplained x u s e h
poll_upload-IsExplained none none u s old e h = poll_progress-IsExplained s.progress u s old h

poll_fetch-IsExplained :
    (seen o : Option FetchJoin) (u : Uploading) (s : Worker)
    → IsExplained s
    → s.fetch ≡ o
    → PhaseOk s (uploading u)
    → IsExplained (poll_fetch seen o u s)
unfolding poll_fetch
poll_fetch-IsExplained none (some fetched) u s old e (launched, spawned, fetch, upload) =
    loop_head-IsExplained (some fetched) u.upload_result (record u { fetch_result = some fetched })
      s refl refl (launched, spawned, λ x f. e ∙ f, upload)
poll_fetch-IsExplained none none u s old e h =
    poll_upload-IsExplained u.upload_result s.upload u s old refl h
poll_fetch-IsExplained (some x) o u s old e h =
    poll_upload-IsExplained u.upload_result s.upload u s old refl h

poll_uploading-IsExplained :
    (u : Uploading) (s : Worker)
    → IsExplained s
    → PhaseOk s (uploading u)
    → IsExplained (poll_uploading u s)
unfolding poll_uploading
poll_uploading-IsExplained u s old h =
    if_lem IsExplained s.cancelled _ _
      (λ set.
        stop-PhaseOk u.fetch_result upload_failed none (record s { upload_aborted = true }) h.0
          (inr (λ e. cc, h.1)) (λ unset. cc (set, unset)) h.2)
      (λ _. poll_fetch-IsExplained u.fetch_result s.fetch u s old refl h)

pub poll_phase-IsExplained :
    (p : Phase) (s : Worker) → IsExplained s → PhaseOk s p → IsExplained (poll_phase p s)
unfolding poll_phase
poll_phase-IsExplained waiting s old h = poll_waiting-IsExplained s.permit s old h
poll_phase-IsExplained fetching s old h = poll_fetching-IsExplained s.first s old h
poll_phase-IsExplained draining s old h =
    poll_ended-IsExplained s.fetch upload_none none s old refl (inl (refl, h.1)) (λ _ _. inl refl)
poll_phase-IsExplained (uploading u) s old h = poll_uploading-IsExplained u s old h
poll_phase-IsExplained (stopping upload message) s old h =
    poll_ended-IsExplained s.fetch upload message s old refl h.1 (λ unset e. absurd (h.2 unset e))
poll_phase-IsExplained (done r) s old h = old
