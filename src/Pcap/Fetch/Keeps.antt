-- ===== src/Pcap/Fetch/Keeps.antt =====
-- What the loops of src/pcap/fetch.rs leave alone between two written packets: the output and the
-- counts that describe it.
use evebox.Base.{◌≡◌, ◌≢◌, refl, ◌∙◌, Option, none, some, arith}
use evebox.Pcap.Fetch.{
  Env, Matcher, Stop, Progress, Turn, go, halt, turn_failed, live, maybe_flush, turn_live, turn,
}

pub record Keeps (p p' : Progress) : Type 0 where
  pub writer : p'.writer ≡ p.writer
  pub bytes : p'.stats.bytes ≡ p.stats.bytes
  pub packets : p'.stats.packets ≡ p.stats.packets
  pub truncated : p'.stats.truncated ≡ p.stats.truncated
  pub sticky : p'.stopped ≡ none → p.stopped ≡ none

pub Keeps-refl : (p : Progress) → Keeps p p
Keeps-refl p = record {
  writer = refl;
  bytes = refl;
  packets = refl;
  truncated = refl;
  sticky = λ h. h;
}

pub Keeps-trans : (p q r : Progress) → Keeps p q → Keeps q r → Keeps p r
Keeps-trans p q r h k = record {
  writer = k.writer ∙ h.writer;
  bytes = k.bytes ∙ h.bytes;
  packets = k.packets ∙ h.packets;
  truncated = k.truncated ∙ h.truncated;
  sticky = λ e. h.sticky (k.sticky e);
}

-- The progress that a turn hands on: it goes on only where nothing has stopped the fetch, and halts
-- only where something has.
abbrev pub TurnKeeps : Progress → Turn → Type 0
TurnKeeps p (go p') = (Keeps p p') × (p.stopped ≡ none)
TurnKeeps p (halt p') = (Keeps p p') × (p'.stopped ≢ none)
TurnKeeps p (turn_failed e p') = Keeps p p'

live-Keeps : (env : Env) (m : Matcher) (p : Progress) → Keeps p (live env m p)
unfolding live
live-Keeps env m p = ground arith

maybe_flush-Keeps :
    (env : Env) (m : Matcher) (p : Progress) → p.stopped ≡ none → TurnKeeps p (maybe_flush env m p)
unfolding maybe_flush
maybe_flush-Keeps env m p h = ground arith

turn_live-Keeps :
    (env : Env) (m : Matcher) (o : Option Stop) (p : Progress)
    → p.stopped ≡ o
    → TurnKeeps p (turn_live env m o p)
unfolding turn_live
turn_live-Keeps env m none p h = maybe_flush-Keeps env m p h
turn_live-Keeps env m (some stop) p h = (Keeps-refl p, λ e. cc)

TurnKeeps-trans : (p q : Progress) (t : Turn) → Keeps p q → TurnKeeps q t → TurnKeeps p t
TurnKeeps-trans p q (go r) h k = (Keeps-trans p q r h k.0, h.sticky k.1)
TurnKeeps-trans p q (halt r) h k = (Keeps-trans p q r h k.0, k.1)
TurnKeeps-trans p q (turn_failed e r) h k = Keeps-trans p q r h k

pub turn-Keeps : (env : Env) (m : Matcher) (p : Progress) → TurnKeeps p (turn env m p)
unfolding turn
turn-Keeps env m p =
    let p' = live env m p in
    TurnKeeps-trans p p' (turn_live env m p'.stopped p') (live-Keeps env m p)
      (turn_live-Keeps env m p'.stopped p' refl)
