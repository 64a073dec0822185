-- ===== src/Pcap/Spool.antt =====
-- The pruning of rotated files in `load_files` of src/pcap/spool.rs. A file of a rotation group is
-- its creation time in seconds and its path, and a group is sorted by them.
pub mod Coverage
pub mod Examples
use evebox.Base.{
  ℕ, ◌+◌, ◌-◌, ◌*◌, ◌/◌, min, Bool, true, false, List, [], ◌∷◌, String, ltb, if◌then◌else◌,
}
use evebox.Pcap.Request.{SpoolConfig, u64_max}

-- The margin in microseconds.
unfoldable pub margin_micros : SpoolConfig → ℕ
margin_micros config = min (config.margin / 1_000) u64_max

-- The window widened by the margin: `saturating_sub` and `saturating_add`.
unfoldable pub start_time : SpoolConfig → ℕ → ℕ
unfolding margin_micros
start_time config start = start - margin_micros config

unfoldable pub end_time : SpoolConfig → ℕ → ℕ
unfolding margin_micros
end_time config end = min (end + margin_micros config) u64_max

unfoldable pub created_micros : ℕ → ℕ
created_micros seconds = min (seconds * 1_000_000) u64_max

-- The file after this one was created before the window.
unfoldable pub next_is_before : ℕ → List (ℕ × String) → Bool
unfolding created_micros
next_is_before start [] = false
next_is_before start ((seconds, _) ∷ rest) = ltb (created_micros seconds) start

-- `retain`, with the copy of the list that it looks ahead in.
unfoldable pub prune : ℕ → ℕ → List (ℕ × String) → List (ℕ × String)
unfolding created_micros next_is_before
prune start end [] = []
prune start end ((seconds, path) ∷ rest) =
    let kept = prune start end rest in
    if ltb end (created_micros seconds)
    then kept
    else if next_is_before start rest
    then kept
    else (seconds, path) ∷ kept

-- A group's files for a request of the window.
unfoldable pub prune_group : SpoolConfig → ℕ → ℕ → List (ℕ × String) → List (ℕ × String)
unfolding start_time end_time prune
prune_group config start end files = prune (start_time config start) (end_time config end) files
