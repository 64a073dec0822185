-- ===== src/Agent/Worker/Extending.antt =====
-- More events make a worker of src/agent/channel.rs know more: what its phase promises stays true.
use evebox.Base.{◌≡◌, inl, inr, refl, sym, ◌∙◌, true, Bool-cases, Option-cases, some}
use evebox.Agent.Protocol.{PcapResult, PcapResultCode, PcapUploadStatus}
use evebox.Agent.Terminal.{FetchJoin, UploadJoin}
use evebox.Agent.Worker.{Phase, waiting, fetching, draining, uploading, stopping, done, Worker}
use evebox.Agent.Worker.Soundness.{UploadAt, CodeOk, ResultOk, PhaseOk}

-- More may have become known: answers stay, and so does a cancellation.
pub record Extends (s s' : Worker) : Type 0 where
  pub launched : s'.launched ≡ s.launched
  pub spawned : s'.upload_spawned ≡ s.upload_spawned
  pub cancelled : s.cancelled ≡ true → s'.cancelled ≡ true
  pub fetch : (x : FetchJoin) → s.fetch ≡ some x → s'.fetch ≡ some x
  pub upload : (x : UploadJoin) → s.upload ≡ some x → s'.upload ≡ some x

CodeOk-Extends :
    (s s' : Worker) (r : PcapResult) (code : PcapResultCode)
    → Extends s s'
    → CodeOk s r code
    → CodeOk s' r code
CodeOk-Extends s s' r PcapResultCode.complete k (stats, e, told, up) = (
  stats,
  k.fetch _ e,
  told,
  elim up [
    | inl quiet ↦ inl quiet
    | inr (whole, (x, there, good)) ↦ inr (whole, (x, k.upload x there, good))
  ],
)
CodeOk-Extends s s' r PcapResultCode.no_candidate_files k h = k.fetch _ h
CodeOk-Extends s s' r PcapResultCode.no_match k (stats, e) = (stats, k.fetch _ e)
CodeOk-Extends s s' r PcapResultCode.cancelled k h = k.cancelled h
CodeOk-Extends s s' r PcapResultCode.error k h = h

UploadAt-Extends :
    (s s' : Worker) (upload : PcapUploadStatus)
    → Extends s s'
    → UploadAt s upload
    → UploadAt s' upload
UploadAt-Extends s s' upload k (inl (e, f)) = inl (e, k.spawned ∙ f)
UploadAt-Extends s s' upload k (inr (e, f)) = inr (e, k.spawned ∙ f)

pub ResultOk-Extends :
    (s s' : Worker) (r : PcapResult) → Extends s s' → ResultOk s r → ResultOk s' r
ResultOk-Extends s s' r k h = record {
  code = CodeOk-Extends s s' r r.code k h.code;
  uploads = UploadAt-Extends s s' r.upload k h.uploads;
  settled = λ e. elim (Option-cases s.fetch) [
    | inl nothing ↦ absurd (h.settled (sym k.launched ∙ e) nothing)
    | inr (x, there) ↦ λ f. cc (k.fetch x there, f)
  ];
}

pub PhaseOk-Extends : (s s' : Worker) (p : Phase) → Extends s s' → PhaseOk s p → PhaseOk s' p
PhaseOk-Extends s s' waiting k h = (k.launched ∙ h.0, k.spawned ∙ h.1)
PhaseOk-Extends s s' fetching k h = (k.launched ∙ h.0, k.spawned ∙ h.1)
PhaseOk-Extends s s' draining k h = (k.launched ∙ h.0, k.spawned ∙ h.1)
PhaseOk-Extends s s' (uploading u) k (launched, spawned, fetch, upload) = (
  k.launched ∙ launched,
  k.spawned ∙ spawned,
  λ x e. k.fetch x (fetch x e),
  λ x e. (k.upload x (upload x e).0, (upload x e).1),
)
PhaseOk-Extends s s' (stopping upload message) k (launched, at, why) = (
  k.launched ∙ launched,
  UploadAt-Extends s s' upload k at,
  λ unset. elim (Bool-cases s.cancelled) [
    | inl set ↦ absurd (cc (k.cancelled set, unset))
    | inr still ↦ why still
  ],
)
PhaseOk-Extends s s' (done r) k h = ResultOk-Extends s s' r k h

-- The same worker in another phase.
pub same : (s : Worker) (p : Phase) → Extends s (record s { phase = p })
same s p = record {
  launched = refl;
  spawned = refl;
  cancelled = λ e. e;
  fetch = λ x e. e;
  upload = λ x e. e;
}

abbrev pub IsExplained : Worker → Type 0
IsExplained s = PhaseOk s s.phase
