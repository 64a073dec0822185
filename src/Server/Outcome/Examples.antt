-- ===== src/Server/Outcome/Examples.antt =====
-- Results of an agent against the uploads that were seen.
use evebox.Base.{ℕ, zero, ◌≡◌, ◌≢◌, ◌⊎◌, ◌↔◌, inl, refl, true, false, none, some}
use evebox.Agent.Protocol.{
  WireStats, PcapResult, complete, no_candidate_files, no_match, upload_none, upload_complete,
}
use evebox.Server.Job.{pending, streaming, completed}
use evebox.Server.Outcome.{wait, complete_outcome, no_match_outcome, classify_result}
use evebox.Server.Outcome.Soundness.{
  IsTransferred, IsEmptyTruncation, complete_iff, wait_iff, empty_outcomes,
}

abbrev stats : WireStats
stats = record {
  packets = 2;
  bytes = 100;
  files_scanned = 1;
  files_vanished = 0;
  truncated = false;
}

abbrev uploaded : PcapResult
uploaded = record { code = complete; upload = upload_complete; message = none; stats = some stats }

abbrev nothing : PcapResult
nothing = record { code = no_match; upload = upload_none; message = none; stats = none }

complete_iff_example :
    (classify_result uploaded (completed 100) false 100 ≡ complete_outcome stats) ↔ (
      (uploaded.code ≡ complete)
      × (uploaded.stats ≡ some stats)
      × ((IsTransferred uploaded stats (completed 100) false 100)
          ⊎ (IsEmptyTruncation uploaded stats (completed 100) 100)))
complete_iff_example = complete_iff uploaded (completed 100) false 100 stats

wait_iff_example : (classify_result uploaded streaming true 40 ≡ wait) ↔ (
    (uploaded.code ≡ complete)
    × (uploaded.upload ≡ upload_complete)
    × (uploaded.stats ≢ none)
    × ((streaming ≡ pending)
        ⊎ (streaming ≡ streaming)
        ⊎ ((bytes : ℕ) × (streaming ≡ completed bytes) × (true ≡ true))))
wait_iff_example = wait_iff uploaded streaming true 40

no_match_here : classify_result nothing pending true 0 ≡ no_match_outcome
unfolding classify_result
no_match_here = refl

empty_outcomes_example :
    (nothing.upload ≡ upload_none)
    × (pending ≡ pending)
    × (zero ≡ zero)
    × ((nothing.code ≡ no_match) ⊎ (nothing.code ≡ no_candidate_files))
empty_outcomes_example = empty_outcomes nothing pending true 0 (inl no_match_here)
