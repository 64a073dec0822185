-- ===== src/Server/Outcome/Soundness.antt =====
-- What an outcome of `classify_result` (src/server/pcap/tasks.rs) proves about the transfer.
use evebox.Base.{ℕ, ◌≡◌, ◌≢◌, ◌⊎◌, ◌↔◌, Bool, true, false, none, some, arith}
use evebox.Agent.Protocol.{
  WireStats, PcapResult, complete, no_candidate_files, no_match, upload_none, upload_complete,
}
use evebox.Server.Job.{UploadState, pending, streaming, completed}
use evebox.Server.Outcome.{
  wait, complete_outcome, no_candidate_files_outcome, no_match_outcome, classify_result,
}

-- The whole upload was passed on, and every count of its bytes agrees.
abbrev pub IsTransferred : PcapResult → WireStats → UploadState → Bool → ℕ → Type 0
IsTransferred result stats upload body_open streamed =
    (result.upload ≡ upload_complete)
    × (upload ≡ completed streamed)
    × (stats.bytes ≡ streamed)
    × (body_open ≡ false)

-- The limit left no room for a first byte, so nothing was uploaded.
abbrev pub IsEmptyTruncation : PcapResult → WireStats → UploadState → ℕ → Type 0
IsEmptyTruncation result stats upload streamed =
    (result.upload ≡ upload_none)
    × (upload ≡ pending)
    × (streamed ≡ 0)
    × (stats.bytes ≡ 0)
    × (stats.truncated ≡ true)

-- The request is told that its capture is complete exactly when the agent says so with these
-- statistics and either the whole upload was passed on with every byte count in agreement, or
-- there was no upload and the extraction was an empty truncation.
pub complete_iff :
    (result : PcapResult) (upload : UploadState) (body_open : Bool) (streamed : ℕ)
    (stats : WireStats)
    → (classify_result result upload body_open streamed ≡ complete_outcome stats) ↔ (
        (result.code ≡ complete)
        × (result.stats ≡ some stats)
        × ((IsTransferred result stats upload body_open streamed)
            ⊎ (IsEmptyTruncation result stats upload streamed)))
unfolding classify_result
complete_iff result upload body_open streamed stats = ground arith

-- The request keeps waiting exactly when a complete result promises an upload, gives statistics,
-- and the upload has not failed and is not yet at a clean end with its body consumed.
pub wait_iff :
    (result : PcapResult) (upload : UploadState) (body_open : Bool) (streamed : ℕ)
    → (classify_result result upload body_open streamed ≡ wait) ↔ (
        (result.code ≡ complete)
        × (result.upload ≡ upload_complete)
        × (result.stats ≢ none)
        × ((upload ≡ pending)
            ⊎ (upload ≡ streaming)
            ⊎ ((bytes : ℕ) × (upload ≡ completed bytes) × (body_open ≡ true))))
unfolding classify_result
wait_iff result upload body_open streamed = ground arith

-- A result that says that nothing was found is believed only where no upload began and no byte
-- was passed on.
pub empty_outcomes :
    (result : PcapResult) (upload : UploadState) (body_open : Bool) (streamed : ℕ)
    → (classify_result result upload body_open streamed ≡ no_match_outcome)
      ⊎ (classify_result result upload body_open streamed ≡ no_candidate_files_outcome)
    → (result.upload ≡ upload_none)
      × (upload ≡ pending)
      × (streamed ≡ 0)
      × ((result.code ≡ no_match) ⊎ (result.code ≡ no_candidate_files))
unfolding classify_result
empty_outcomes result upload body_open streamed h = ground arith
