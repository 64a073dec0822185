-- ===== src/Pcap/Fetch/Merge/Heap.antt =====
-- The heap and the cursors of the merge of src/pcap/fetch.rs: who has a pending packet is on it once.
use evebox.Base.{
  ℕ, zero, suc, ◌+◌, ◌≤◌, ◌≡◌, ◌≢◌, refl, sym, ap, ◌∙◌, Option, none, some, List, [], ◌∷◌, length,
  length-append, get_elem?, get_elem?-set_self, get_elem?-set_ne, set, if_lem, some_inj, arith,
}
use evebox.Pcap.File.{Packet}
use evebox.Pcap.Fetch.{Env, Matcher, Progress}
use evebox.Pcap.Fetch.Cursor.{PendingPacket, GroupCursor, Refill, refilled, refill_failed}
use evebox.Pcap.Fetch.Cursor.Reading.{RefillOk, upcoming, IsSuffix}
use evebox.Pcap.Fetch.Merge.{
  Merge, Step, next, ended, cut, failed, panicked, before, push, push_pending, after_refill,
}
use evebox.Pcap.Fetch.Merge.Writing.{CursorsOk, CursorsOk-set}

-- No entry of the heap is the group's.
abbrev pub Absent : ℕ → List (ℕ × ℕ) → Type 0
Absent i [] = Unit
Absent i ((_, j) ∷ heap) = (j ≢ i) × Absent i heap

abbrev pub Distinct : List (ℕ × ℕ) → Type 0
Distinct [] = Unit
Distinct ((_, i) ∷ heap) = (Absent i heap) × Distinct heap

abbrev pub HasPending : List GroupCursor → ℕ → Type 0
HasPending cursors i =
    (c : GroupCursor) × (q : PendingPacket) × (get_elem? cursors i ≡ some c) × (c.pending ≡ some q)

abbrev pub Pending : List GroupCursor → List (ℕ × ℕ) → Type 0
Pending cursors [] = Unit
Pending cursors ((_, i) ∷ heap) = (HasPending cursors i) × Pending cursors heap

-- The packets that all groups still have.
abbrev pub weight : Env → List GroupCursor → ℕ
weight env [] = 0
weight env (c ∷ cursors) = length (upcoming env c) + weight env cursors

Absent-push :
    (i t j : ℕ) (heap : List (ℕ × ℕ)) → j ≢ i → Absent i heap → Absent i (push (t, j) heap)
unfolding push
Absent-push i t j [] ne h = (ne, tt)
Absent-push i t j ((u, k) ∷ heap) ne h =
    if_lem (Absent i) (before (t, j) (u, k)) _ _ (λ _. (ne, h))
      (λ _. (h.0, Absent-push i t j heap ne h.1))

Distinct-push :
    (t i : ℕ) (heap : List (ℕ × ℕ)) → Absent i heap → Distinct heap → Distinct (push (t, i) heap)
unfolding push
Distinct-push t i [] a d = (tt, tt)
Distinct-push t i ((u, k) ∷ heap) a d =
    if_lem Distinct (before (t, i) (u, k)) _ _ (λ _. (a, d))
      (λ _. (Absent-push k t i heap (λ e. a.0 (sym e)) d.0, Distinct-push t i heap a.1 d.1))

Pending-push :
    (cursors : List GroupCursor) (t i : ℕ) (heap : List (ℕ × ℕ))
    → HasPending cursors i
    → Pending cursors heap
    → Pending cursors (push (t, i) heap)
unfolding push
Pending-push cursors t i [] h k = (h, tt)
Pending-push cursors t i ((u, j) ∷ heap) h k =
    if_lem (Pending cursors) (before (t, i) (u, j)) _ _ (λ _. (h, k))
      (λ _. (k.0, Pending-push cursors t i heap h k.1))

Pending-set :
    (cursors : List GroupCursor) (i : ℕ) (c : GroupCursor) (heap : List (ℕ × ℕ))
    → Absent i heap
    → Pending cursors heap
    → Pending (set cursors i c) heap
Pending-set cursors i c [] a h = tt
Pending-set cursors i c ((t, j) ∷ heap) a ((d, q, at_j, has), h) = (
  (d, q, get_elem?-set_ne cursors i j c (λ e. a.0 (sym e)) ∙ at_j, has),
  Pending-set cursors i c heap a.1 h,
)

weight-set :
    (env : Env) (cursors : List GroupCursor) (i : ℕ) (c d : GroupCursor)
    → get_elem? cursors i ≡ some c
    → weight env (set cursors i d) + length (upcoming env c)
      ≡ weight env cursors + length (upcoming env d)
weight-set env [] i c d h = cc
weight-set env (x ∷ cursors) zero c d h =
    omega (arith, ap (λ y. length (upcoming env y)) (some_inj h))
weight-set env (x ∷ cursors) (suc i) c d h = omega (arith, weight-set env cursors i c d h)

pub record Running (env : Env) (m : Matcher) (s : Merge) : Type 0 where
  pub cursors_ok : CursorsOk env m s.cursors
  pub distinct : Distinct s.heap
  pub pending : Pending s.cursors s.heap

-- Every round takes a packet off, and none panics.
abbrev pub StepRuns : Env → Matcher → ℕ → Step → Type 0
StepRuns env m bound (next s) = (Running env m s) × (weight env s.cursors ≤ bound)
StepRuns env m bound (ended p) = Unit
StepRuns env m bound (cut p) = Unit
StepRuns env m bound (failed e p) = Unit
StepRuns env m bound (panicked p) = ⊥

push_pending-Distinct :
    (o : Option PendingPacket) (i : ℕ) (heap : List (ℕ × ℕ))
    → Absent i heap
    → Distinct heap
    → Distinct (push_pending o i heap)
unfolding push_pending
push_pending-Distinct none i heap a d = d
push_pending-Distinct (some q) i heap a d = Distinct-push q.packet_micros i heap a d

push_pending-Pending :
    (cursors : List GroupCursor) (c : GroupCursor) (o : Option PendingPacket) (i : ℕ)
    (heap : List (ℕ × ℕ))
    → c.pending ≡ o
    → get_elem? cursors i ≡ some c
    → Pending cursors heap
    → Pending cursors (push_pending o i heap)
unfolding push_pending
push_pending-Pending cursors c none i heap e at_i h = h
push_pending-Pending cursors c (some q) i heap e at_i h =
    Pending-push cursors q.packet_micros i heap (c, q, at_i, e) h

length-IsSuffix : (whole rest : List Packet) → IsSuffix whole rest → length rest ≤ length whole
length-IsSuffix whole rest (dropped, e) = omega (arith, ap length e, length-append dropped rest)

-- The popped cursor is refilled from what it has ahead.
pub after_refill-StepRuns :
    (env : Env) (m : Matcher) (ahead : List Packet) (p : Progress) (r : Refill) (index : ℕ)
    (s : Merge) (c : GroupCursor) (bound : ℕ)
    → CursorsOk env m s.cursors
    → Distinct s.heap
    → Pending s.cursors s.heap
    → Absent index s.heap
    → get_elem? s.cursors index ≡ some c
    → weight env s.cursors + length ahead ≤ bound + length (upcoming env c)
    → RefillOk env m ahead p r
    → StepRuns env m bound (after_refill r index s)
unfolding after_refill
after_refill-StepRuns env m ahead p (refill_failed e q) index s c bound all d h a at_i le ok = tt
after_refill-StepRuns env m ahead p (refilled c' q) index s c bound all d h a at_i le
      (ok, k, suffix, _) =
    let cursors = set s.cursors index c' in
    (
      record {
        cursors_ok = CursorsOk-set env m s.cursors index c' ok all;
        distinct = push_pending-Distinct c'.pending index s.heap a d;
        pending =
            push_pending-Pending cursors c' c'.pending index s.heap refl
              (get_elem?-set_self s.cursors index c' at_i)
              (Pending-set s.cursors index c' s.heap a h);
      },
      omega (
        arith,
        le,
        weight-set env s.cursors index c c' at_i,
        length-IsSuffix ahead (upcoming env c') suffix,
      ),
    )
