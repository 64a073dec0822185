-- ===== src/Pcap/Spool/Coverage.antt =====
-- What the pruning of src/pcap/spool.rs keeps.
use evebox.Base.{ℕ, ◌+◌, ◌≤◌, ◌≡◌, ◌⊎◌, inr, List, [], ◌∷◌, ◌++◌, String, arith, if_lem, ltb}
use evebox.Pcap.Request.{SpoolConfig}
use evebox.Pcap.Spool.{
  margin_micros, start_time, end_time, created_micros, next_is_before, prune, prune_group,
}

-- The file stands in the list.
abbrev pub Has : ℕ × String → List (ℕ × String) → Type 0
Has f [] = ⊥
Has f (g ∷ files) = (f ≡ g) ⊎ Has f files

-- A packet of the time can stand before the rotation to the next file, clocks being off by the margin.
abbrev pub IsBeforeNext : ℕ → ℕ → List (ℕ × String) → Type 0
IsBeforeNext margin time [] = Unit
IsBeforeNext margin time ((seconds, _) ∷ rest) = time ≤ created_micros seconds + margin

stays :
    (config : SpoolConfig) (start end time seconds : ℕ) (path : String) (after : List (ℕ × String))
    → start ≤ time
    → time ≤ end
    → created_micros seconds ≤ time + margin_micros config
    → IsBeforeNext (margin_micros config) time after
    → Has
        (seconds, path)
        (prune (start_time config start) (end_time config end) ((seconds, path) ∷ after))
unfolding prune start_time end_time next_is_before created_micros
stays config start end time seconds path [] lo hi created next = ground arith
stays config start end time seconds path ((s, p) ∷ rest) lo hi created next = ground arith

Has-prune-cons :
    (start end : ℕ) (f g : ℕ × String) (rest : List (ℕ × String))
    → Has f (prune start end rest)
    → Has f (prune start end (g ∷ rest))
unfolding prune
Has-prune-cons start end f (seconds, path) rest h =
    if_lem (Has f) (ltb end (created_micros seconds)) _ _ (λ _. h)
      (λ _. if_lem (Has f) (next_is_before start rest) _ _ (λ _. h) (λ _. inr h))

-- No packet of the window is lost by the pruning: a file stays whenever a packet of a time in the
-- window could stand in it, that is, the file was created by then and the next one of its group was
-- not yet, each up to the margin of the spool.
pub prune_group_covers :
    (config : SpoolConfig) (start end time seconds : ℕ) (path : String)
    (before after : List (ℕ × String))
    → start ≤ time
    → time ≤ end
    → created_micros seconds ≤ time + margin_micros config
    → IsBeforeNext (margin_micros config) time after
    → Has (seconds, path) (prune_group config start end (before ++ (seconds, path) ∷ after))
unfolding prune_group
prune_group_covers config start end time seconds path [] after lo hi created next =
    stays config start end time seconds path after lo hi created next
prune_group_covers config start end time seconds path (g ∷ before) after lo hi created next =
    Has-prune-cons (start_time config start) (end_time config end) (seconds, path) g
      (before ++ (seconds, path) ∷ after)
      (prune_group_covers config start end time seconds path before after lo hi created next)
