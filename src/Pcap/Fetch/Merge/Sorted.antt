-- ===== src/Pcap/Fetch/Merge/Sorted.antt =====
-- Order by time, of packets and of the heap's entries, for the merge of src/pcap/fetch.rs.
use evebox.Base.{
  ℕ, ◌≤◌, ◌≡◌, ◌≢◌, ◌⊎◌, inl, inr, refl, sym, ap, true, false, List, [], ◌∷◌, ◌++◌, All, All-append,
  if_lem, arith,
}
use evebox.Pcap.File.{Packet}
use evebox.Pcap.File.Unique.{FitsRecord}
use evebox.Pcap.Fetch.{ts_micros}
use evebox.Pcap.Fetch.Merge.{before, push}
use evebox.Pcap.Fetch.Merge.Heap.{Absent}

abbrev pub IsAtMost : Packet → Packet → Type 0
IsAtMost p q = ts_micros p ≤ ts_micros q

abbrev pub AllFrom : Packet → List Packet → Type 0
AllFrom p qs = All (λ q. IsAtMost p q) qs

-- Every packet fits its record, and is at most as late as those after it.
abbrev pub IsOrdered : List Packet → Type 0
IsOrdered [] = Unit
IsOrdered (p ∷ ps) = FitsRecord p × AllFrom p ps × IsOrdered ps

-- All of the first list are at most as late as all of the second.
abbrev pub Precede : List Packet → List Packet → Type 0
Precede ws ps = All (λ w. AllFrom w ps) ws

AllFrom-trans : (p q : Packet) (ps : List Packet) → IsAtMost p q → AllFrom q ps → AllFrom p ps
AllFrom-trans p q [] le h = tt
AllFrom-trans p q (x ∷ ps) le h = (omega (arith, le, h.0), AllFrom-trans p q ps le h.1)

pub AllFrom-drop : (p : Packet) (xs ys : List Packet) → AllFrom p (xs ++ ys) → AllFrom p ys
AllFrom-drop p [] ys h = h
AllFrom-drop p (x ∷ xs) ys h = AllFrom-drop p xs ys h.1

pub IsOrdered-drop : (xs ys : List Packet) → IsOrdered (xs ++ ys) → IsOrdered ys
IsOrdered-drop [] ys h = h
IsOrdered-drop (x ∷ xs) ys h = IsOrdered-drop xs ys h.2

pub Precede-drop : (ws xs ys : List Packet) → Precede ws (xs ++ ys) → Precede ws ys
Precede-drop [] xs ys h = tt
Precede-drop (w ∷ ws) xs ys h = (AllFrom-drop w xs ys h.0, Precede-drop ws xs ys h.1)

pub Precede-snoc :
    (ws ps : List Packet) (q : Packet) → Precede ws ps → AllFrom q ps → Precede (ws ++ q ∷ []) ps
Precede-snoc ws ps q h k = All-append (λ w. AllFrom w ps) ws (q ∷ []) h (k, tt)

-- A packet that none of the written ones is later than goes to the end.
pub IsOrdered-snoc :
    (ws : List Packet) (q : Packet) (ps : List Packet)
    → IsOrdered ws
    → FitsRecord q
    → Precede ws (q ∷ ps)
    → IsOrdered (ws ++ q ∷ [])
IsOrdered-snoc [] q ps h fits k = (fits, tt, tt)
IsOrdered-snoc (w ∷ ws) q ps h fits k = (
  h.0,
  All-append (λ x. IsAtMost w x) ws (q ∷ []) h.1 (k.0.0, tt),
  IsOrdered-snoc ws q ps h.2 fits k.1,
)

-- A pending packet that is not earlier than `q` puts all that follows it after `q`.
pub AllFrom-next :
    (q p : Packet) (ps : List Packet) → IsAtMost q p → IsOrdered (p ∷ ps) → AllFrom q (p ∷ ps)
AllFrom-next q p ps le h = (le, AllFrom-trans q p ps le h.1)

-- The heap: no entry is earlier than the first.
abbrev pub IsFirst : ℕ → List (ℕ × ℕ) → Type 0
IsFirst t heap = All (λ (e : ℕ × ℕ). t ≤ e.0) heap

abbrev pub IsHeap : List (ℕ × ℕ) → Type 0
IsHeap [] = Unit
IsHeap ((t, i) ∷ heap) = IsFirst t heap × IsHeap heap

IsFirst-trans : (t u : ℕ) (heap : List (ℕ × ℕ)) → t ≤ u → IsFirst u heap → IsFirst t heap
IsFirst-trans t u [] le h = tt
IsFirst-trans t u (e ∷ heap) le h = (omega (arith, le, h.0), IsFirst-trans t u heap le h.1)

IsFirst-push :
    (t u i : ℕ) (heap : List (ℕ × ℕ)) → t ≤ u → IsFirst t heap → IsFirst t (push (u, i) heap)
unfolding push
IsFirst-push t u i [] le h = (le, tt)
IsFirst-push t u i ((v, j) ∷ heap) le h =
    if_lem (IsFirst t) (before (u, i) (v, j)) _ _ (λ _. (le, h))
      (λ _. (h.0, IsFirst-push t u i heap le h.1))

before-le : (t i u j : ℕ) → before (t, i) (u, j) ≡ true → t ≤ u
before-le t i u j h = ground arith

not-before-le : (t i u j : ℕ) → before (t, i) (u, j) ≡ false → u ≤ t
not-before-le t i u j h = ground arith

pub IsHeap-push : (t i : ℕ) (heap : List (ℕ × ℕ)) → IsHeap heap → IsHeap (push (t, i) heap)
unfolding push
IsHeap-push t i [] h = (tt, tt)
IsHeap-push t i ((u, j) ∷ heap) h =
    if_lem IsHeap (before (t, i) (u, j)) _ _
      (λ e. let le = before-le t i u j e in ((le, IsFirst-trans t u heap le h.0), h))
      (λ e. (IsFirst-push u t i heap (not-before-le t i u j e) h.0, IsHeap-push t i heap h.1))

-- The entry stands in the heap.
abbrev pub Has : ℕ × ℕ → List (ℕ × ℕ) → Type 0
Has e [] = ⊥
Has e (f ∷ heap) = (e ≡ f) ⊎ Has e heap

pub Has-push : (e : ℕ × ℕ) (t i : ℕ) (heap : List (ℕ × ℕ)) → Has e heap → Has e (push (t, i) heap)
unfolding push
Has-push e t i [] h = absurd h
Has-push e t i ((u, j) ∷ heap) (inl same) =
    if_lem (Has e) (before (t, i) (u, j)) _ _ (λ _. inr (inl same)) (λ _. inl same)
Has-push e t i ((u, j) ∷ heap) (inr there) =
    if_lem (Has e) (before (t, i) (u, j)) _ _ (λ _. inr (inr there))
      (λ _. inr (Has-push e t i heap there))

pub Has-pushed : (t i : ℕ) (heap : List (ℕ × ℕ)) → Has (t, i) (push (t, i) heap)
unfolding push
Has-pushed t i [] = inl refl
Has-pushed t i ((u, j) ∷ heap) =
    if_lem (Has (t, i)) (before (t, i) (u, j)) _ _ (λ _. inl refl) (λ _. inr (Has-pushed t i heap))

pub Has-IsFirst : (t u i : ℕ) (heap : List (ℕ × ℕ)) → IsFirst t heap → Has (u, i) heap → t ≤ u
Has-IsFirst t u i [] h k = absurd k
Has-IsFirst t u i (e ∷ heap) h (inl same) = omega (arith, h.0, ap (λ (x : ℕ × ℕ). x.0) same)
Has-IsFirst t u i (e ∷ heap) h (inr there) = Has-IsFirst t u i heap h.1 there

Absent-Has : (t i : ℕ) (heap : List (ℕ × ℕ)) → Absent i heap → Has (t, i) heap → ⊥
Absent-Has t i [] a k = k
Absent-Has t i ((u, j) ∷ heap) a (inl same) = a.0 (sym (ap (λ (x : ℕ × ℕ). x.1) same))
Absent-Has t i ((u, j) ∷ heap) a (inr there) = Absent-Has t i heap a.1 there

-- The entry of a group that is on top is the only one of the group.
pub Has-top : (t u i : ℕ) (heap : List (ℕ × ℕ)) → Absent i heap → Has (u, i) ((t, i) ∷ heap) → u ≡ t
Has-top t u i heap a (inl same) = ap (λ (x : ℕ × ℕ). x.0) same
Has-top t u i heap a (inr there) = absurd (Absent-Has u i heap a there)

-- The entries of the other groups stand below it.
pub Has-below :
    (t i u j : ℕ) (heap : List (ℕ × ℕ)) → i ≢ j → Has (u, j) ((t, i) ∷ heap) → Has (u, j) heap
Has-below t i u j heap ne (inl same) = absurd (ne (sym (ap (λ (x : ℕ × ℕ). x.1) same)))
Has-below t i u j heap ne (inr there) = there
