-- ===== src/Pcap/Fetch/Merge/Refilled.antt =====
-- A group of the merge of src/pcap/fetch.rs is refilled: what it has comes after what was written.
use evebox.Base.{
  ℕ, ◌≡◌, ◌≢◌, ◌⊎◌, inl, inr, ap, subst, ◌∙◌, Option, none, some, some_inj, List, get_elem?,
  get_elem?-set_inv,
}
use evebox.Pcap.File.{Packet}
use evebox.Pcap.Fetch.{Env, Matcher, Progress}
use evebox.Pcap.Fetch.Keeps.{Keeps}
use evebox.Pcap.Fetch.Cursor.{PendingPacket, GroupCursor, Refill, refilled, refill_failed}
use evebox.Pcap.Fetch.Cursor.Reading.{IsDone, IsSuffix, RefillOk, upcoming}
use evebox.Pcap.Fetch.Merge.{
  Merge, Step, next, ended, cut, failed, panicked, push_pending, after_refill,
}
use evebox.Pcap.Fetch.Merge.Writing.{Output, Output-Keeps}
use evebox.Pcap.Fetch.Merge.Sorted.{
  IsOrdered, IsOrdered-drop, Precede, Precede-drop, IsHeap, IsHeap-push, Has, Has-push, Has-pushed,
}

-- What stands in a group comes after what has been written, in order.
abbrev pub Follows : Env → List Packet → GroupCursor → Type 0
Follows env ws c = IsOrdered (upcoming env c) × Precede ws (upcoming env c)

-- The order that the loop keeps. `seen` says which groups have been
-- looked at: all, once the first refills are over.
pub record InOrder (env : Env) (seen : ℕ → Type 0) (ws : List Packet) (s : Merge) : Type 0 where
  pub written_order : IsOrdered ws
  pub follows : (i : ℕ) (c : GroupCursor) → get_elem? s.cursors i ≡ some c → Follows env ws c
  pub full :
      (i : ℕ) (c : GroupCursor) (q : PendingPacket)
      → get_elem? s.cursors i ≡ some c
      → c.pending ≡ some q
      → Has (q.packet_micros, i) s.heap
  pub heap_order : IsHeap s.heap
  pub done :
      (i : ℕ) (c : GroupCursor) → seen i → get_elem? s.cursors i ≡ some c → IsDone env c s.progress

-- The same for all groups but one, with that one off the heap.
pub record InOrderBut (env : Env) (seen : ℕ → Type 0) (ws : List Packet) (index : ℕ) (s : Merge)
    (p : Progress) : Type 0 where
  pub written_order : IsOrdered ws
  pub follows :
      (i : ℕ) (c : GroupCursor) → index ≢ i → get_elem? s.cursors i ≡ some c → Follows env ws c
  pub full :
      (i : ℕ) (c : GroupCursor) (q : PendingPacket)
      → index ≢ i
      → get_elem? s.cursors i ≡ some c
      → c.pending ≡ some q
      → Has (q.packet_micros, i) s.heap
  pub heap_order : IsHeap s.heap
  pub done :
      (i : ℕ) (c : GroupCursor)
      → index ≢ i
      → seen i
      → get_elem? s.cursors i ≡ some c
      → IsDone env c p

-- The loop's state with its output so far, or the output at the end.
abbrev pub StepOrdered : Env → Matcher → (ℕ → Type 0) → Step → Type 0
StepOrdered env m seen (next s) =
    (ws : List Packet) × (Output env m s.output_linktype ws s.progress) × (InOrder env seen ws s)
StepOrdered env m seen (ended p) =
    (linktype : Option ℕ) × (ws : List Packet) × (Output env m linktype ws p) × (IsOrdered ws)
StepOrdered env m seen (cut p) =
    (linktype : Option ℕ) × (ws : List Packet) × (Output env m linktype ws p) × (IsOrdered ws)
StepOrdered env m seen (failed e p) = Unit
StepOrdered env m seen (panicked p) = Unit

pub IsDone-Keeps :
    (env : Env) (c : GroupCursor) (p q : Progress) → Keeps p q → IsDone env c p → IsDone env c q
IsDone-Keeps env c p q k h e = elim (h e) [
  | inl read ↦ inl read
  | inr stopped ↦ inr (λ f. stopped (k.sticky f))
]

Follows-IsSuffix :
    (env : Env) (ws ahead : List Packet) (c : GroupCursor)
    → IsOrdered ahead
    → Precede ws ahead
    → IsSuffix ahead (upcoming env c)
    → Follows env ws c
Follows-IsSuffix env ws ahead c o f (dropped, e) = (
  IsOrdered-drop dropped (upcoming env c) (subst IsOrdered e o),
  Precede-drop ws dropped (upcoming env c) (subst (Precede ws) e f),
)

Has-push_pending :
    (e : ℕ × ℕ) (o : Option PendingPacket) (i : ℕ) (heap : List (ℕ × ℕ))
    → Has e heap
    → Has e (push_pending o i heap)
unfolding push_pending
Has-push_pending e none i heap h = h
Has-push_pending e (some q) i heap h = Has-push e q.packet_micros i heap h

Has-own :
    (o : Option PendingPacket) (q : PendingPacket) (i : ℕ) (heap : List (ℕ × ℕ))
    → o ≡ some q
    → Has (q.packet_micros, i) (push_pending o i heap)
unfolding push_pending
Has-own none q i heap e = cc
Has-own (some q') q i heap e =
    subst (λ (x : PendingPacket). Has (x.packet_micros, i) (push_pending (some q') i heap))
      (some_inj e) (Has-pushed q'.packet_micros i heap)

IsHeap-push_pending :
    (o : Option PendingPacket) (i : ℕ) (heap : List (ℕ × ℕ))
    → IsHeap heap
    → IsHeap (push_pending o i heap)
unfolding push_pending
IsHeap-push_pending none i heap h = h
IsHeap-push_pending (some q) i heap h = IsHeap-push q.packet_micros i heap h

-- The state that a refill leaves, with the output that it had.
abbrev pub RefillOrdered : Env → Matcher → (ℕ → Type 0) → List Packet → Step → Type 0
RefillOrdered env m seen ws (next s) =
    (Output env m s.output_linktype ws s.progress) × (InOrder env seen ws s)
RefillOrdered env m seen ws (ended p) = ⊥
RefillOrdered env m seen ws (cut p) = ⊥
RefillOrdered env m seen ws (failed e p) = Unit
RefillOrdered env m seen ws (panicked p) = ⊥

-- The group that was off the heap is refilled and comes back.
pub after_refill-RefillOrdered :
    (env : Env) (m : Matcher) (seen : ℕ → Type 0) (ws ahead : List Packet) (p : Progress)
    (r : Refill) (index : ℕ) (s : Merge)
    → Output env m s.output_linktype ws p
    → InOrderBut env seen ws index s p
    → IsOrdered ahead
    → Precede ws ahead
    → RefillOk env m ahead p r
    → RefillOrdered env m seen ws (after_refill r index s)
unfolding after_refill
after_refill-RefillOrdered env m seen ws ahead p (refill_failed e q) index s out h o f ok = tt
after_refill-RefillOrdered env m seen ws ahead p (refilled c q) index s out h o f
      (ok, k, suffix, done) =
    (
      Output-Keeps env m s.output_linktype ws p q k out,
      record {
        written_order = h.written_order;
        follows = λ i d e. follows i d (get_elem?-set_inv s.cursors index i c e);
        full = λ i d x e pend. full i d x (get_elem?-set_inv s.cursors index i c e) pend;
        heap_order = IsHeap-push_pending c.pending index s.heap h.heap_order;
        done = λ i d lt e. is_done i d lt (get_elem?-set_inv s.cursors index i c e);
      },
    )
  where
    Case : ℕ → GroupCursor → Type 0
    Case i d = ((index ≡ i) × (c ≡ d)) ⊎ ((index ≢ i) × (get_elem? s.cursors i ≡ some d))

    follows : (i : ℕ) (d : GroupCursor) → Case i d → Follows env ws d
    follows i d (inl (_, same)) =
        subst (Follows env ws) same (Follows-IsSuffix env ws ahead c o f suffix)
    follows i d (inr (ne, there)) = h.follows i d ne there

    full :
        (i : ℕ) (d : GroupCursor) (x : PendingPacket)
        → Case i d
        → d.pending ≡ some x
        → Has (x.packet_micros, i) (push_pending c.pending index s.heap)
    full i d x (inl (here, same)) pend =
        subst (λ j. Has (x.packet_micros, j) (push_pending c.pending index s.heap)) here
          (Has-own c.pending x index s.heap (ap (λ (y : GroupCursor). y.pending) same ∙ pend))
    full i d x (inr (ne, there)) pend =
        Has-push_pending (x.packet_micros, i) c.pending index s.heap (h.full i d x ne there pend)

    is_done : (i : ℕ) (d : GroupCursor) → seen i → Case i d → IsDone env d q
    is_done i d lt (inl (_, same)) = subst (λ y. IsDone env y q) same done
    is_done i d lt (inr (ne, there)) = IsDone-Keeps env d p q k (h.done i d ne lt there)

pub RefillOrdered-StepOrdered :
    (env : Env) (m : Matcher) (seen : ℕ → Type 0) (ws : List Packet) (r : Step)
    → RefillOrdered env m seen ws r
    → StepOrdered env m seen r
RefillOrdered-StepOrdered env m seen ws (next s) h = (ws, h.0, h.1)
RefillOrdered-StepOrdered env m seen ws (ended p) h = absurd h
RefillOrdered-StepOrdered env m seen ws (cut p) h = absurd h
RefillOrdered-StepOrdered env m seen ws (failed e p) h = tt
RefillOrdered-StepOrdered env m seen ws (panicked p) h = tt

pub after_refill-StepOrdered :
    (env : Env) (m : Matcher) (seen : ℕ → Type 0) (ws ahead : List Packet) (p : Progress)
    (r : Refill) (index : ℕ) (s : Merge)
    → Output env m s.output_linktype ws p
    → InOrderBut env seen ws index s p
    → IsOrdered ahead
    → Precede ws ahead
    → RefillOk env m ahead p r
    → StepOrdered env m seen (after_refill r index s)
after_refill-StepOrdered env m seen ws ahead p r index s out h o f ok =
    RefillOrdered-StepOrdered env m seen ws (after_refill r index s)
      (after_refill-RefillOrdered env m seen ws ahead p r index s out h o f ok)
