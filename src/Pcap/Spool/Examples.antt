-- ===== src/Pcap/Spool/Examples.antt =====
-- Three files of one group, a minute apart, with a margin of a second.
use evebox.Base.{ℕ, ◌+◌, ◌≤◌, ◌≡◌, refl, none, List, [], ◌∷◌, String, arith}
use evebox.Pcap.Request.{SpoolConfig}
use evebox.Pcap.Spool.{
  margin_micros, start_time, end_time, created_micros, next_is_before, prune, prune_group,
}
use evebox.Pcap.Spool.Coverage.{Has, prune_group_covers}

abbrev config : SpoolConfig
config = record { directory = "/spool"; prefix = none; margin = 1_000_000_000 }

abbrev files : List (ℕ × String)
files = (100, "a") ∷ (160, "b") ∷ (220, "c") ∷ []

only_the_middle : prune_group config 170_000_000 180_000_000 files ≡ (160, "b") ∷ []
unfolding prune_group prune start_time end_time margin_micros created_micros next_is_before
only_the_middle = refl

created_in_time : created_micros 160 ≤ 170_000_000 + margin_micros config
unfolding created_micros margin_micros
created_in_time = omega arith

next_is_later : 170_000_000 ≤ created_micros 220 + margin_micros config
unfolding created_micros margin_micros
next_is_later = omega arith

prune_group_covers_example : Has (160, "b") (prune_group config 170_000_000 180_000_000 files)
prune_group_covers_example =
    prune_group_covers config 170_000_000 180_000_000 170_000_000 160 "b" ((100, "a") ∷ [])
      ((220, "c") ∷ []) (omega arith) (omega arith) created_in_time next_is_later
