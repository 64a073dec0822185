-- ===== src/Pcap/Fetch/Run/Filling.antt =====
-- The first fill of the heap in `fetch` of src/pcap/fetch.rs: no group is ahead of what it still has.
use evebox.Base.{
  ℕ, ◌+◌, ◌<◌, ◌≤◌, ◌≡◌, List, [], ◌∷◌, map, length, length-set, lt_of_get, arith, String,
}
use evebox.Pcap.Fetch.{Env, Matcher}
use evebox.Pcap.Fetch.Cursor.{GroupCursor, new_cursor, Refill, refilled, refill_failed, refill}
use evebox.Pcap.Fetch.Cursor.Reading.{in_files, new_cursor-CursorOk, refill_lem}
use evebox.Pcap.Fetch.Merge.{Merge, Step, next, ended, cut, failed, panicked, after_refill}
use evebox.Pcap.Fetch.Merge.Writing.{Output}
use evebox.Pcap.Fetch.Merge.Heap.{weight, Running, after_refill-StepRuns}
use evebox.Pcap.Fetch.Merge.Refilled.{
  InOrder, InOrderBut, RefillOrdered, after_refill-RefillOrdered,
}
use evebox.Pcap.Fetch.Merge.Ordered.{Everything}
use evebox.Pcap.Fetch.Run.{and_fill, fill}
use evebox.Pcap.Fetch.Run.Ends.{Below, Below-Absent, Waiting, FillRuns, first_refill}

-- The groups before the index have been refilled once; nothing is written yet.
pub record Filled (env : Env) (m : Matcher) (gs : List (List String)) (index bound : ℕ) (s : Merge)
    : Type 0 where
  pub running : Running env m s
  pub bounded : weight env s.cursors ≤ bound
  pub below : Below index s.heap
  pub waiting : Waiting gs index s.cursors
  pub count : length s.cursors ≡ index + length gs
  pub output : Output env m s.output_linktype [] s.progress
  pub in_order : InOrder env (λ i. i < index) [] s

abbrev FillOrdered : Env → Matcher → List (List String) → ℕ → ℕ → Step → Type 0
FillOrdered env m gs index bound (next s) = Filled env m gs index bound s
FillOrdered env m gs index bound (ended p) = ⊥
FillOrdered env m gs index bound (cut p) = ⊥
FillOrdered env m gs index bound (failed e p) = Unit
FillOrdered env m gs index bound (panicked p) = ⊥

-- What the loop starts with.
abbrev pub StartOrdered : Env → Matcher → Step → Type 0
StartOrdered env m (next s) =
    (Running env m s)
    × (Output env m s.output_linktype [] s.progress)
    × (InOrder env Everything [] s)
StartOrdered env m (ended p) = ⊥
StartOrdered env m (cut p) = ⊥
StartOrdered env m (failed e p) = Unit
StartOrdered env m (panicked p) = ⊥

untouched :
    (env : Env) (m : Matcher) (gs : List (List String)) (index bound : ℕ) (s : Merge)
    → Filled env m gs index bound s
    → InOrderBut env (λ i. i < index + 1) [] index s s.progress
untouched env m gs index bound s h = record {
  written_order = h.in_order.written_order;
  follows = λ i c ne e. h.in_order.follows i c e;
  full = λ i c q ne e pend. h.in_order.full i c q e pend;
  heap_order = h.in_order.heap_order;
  done = λ i c ne lt e. h.in_order.done i c (omega (arith, λ (x : index ≡ i). ne x)) e;
}

refill-FillOrdered :
    (env : Env) (m : Matcher) (gs : List (List String)) (g : List String) (index bound : ℕ)
    (s : Merge) (r : Refill)
    → Filled env m (g ∷ gs) index bound s
    → FillRuns env m gs (index + 1) bound (after_refill r index s)
    → RefillOrdered env m (λ i. i < index + 1) [] (after_refill r index s)
    → FillOrdered env m gs (index + 1) bound (after_refill r index s)
unfolding after_refill
refill-FillOrdered env m gs g index bound s (refill_failed e p) h runs order = tt
refill-FillOrdered env m gs g index bound s (refilled c p) h runs order = record {
  running = runs.0;
  bounded = runs.1;
  below = runs.2;
  waiting = runs.3;
  count = omega (arith, length-set s.cursors index c, h.count);
  output = order.0;
  in_order = order.1;
}

first-FillOrdered :
    (env : Env) (m : Matcher) (gs : List (List String)) (g : List String) (index bound : ℕ)
    (s : Merge)
    → Filled env m (g ∷ gs) index bound s
    → FillOrdered env m gs
        (index + 1)
        bound
        (after_refill (refill env m (new_cursor g) s.progress) index s)
first-FillOrdered env m gs g index bound s h =
    let c : GroupCursor = new_cursor g in
    let r : Refill = refill env m c s.progress in
    let ok = refill_lem env m c s.progress (new_cursor-CursorOk env m g) in
    let absent = Below-Absent index s.heap h.below in
    let (sorted, precede) = h.in_order.follows index c h.waiting.0 in
    refill-FillOrdered env m gs g index bound s r h
      (first_refill env m gs g index bound s r h.below h.waiting (
        after_refill-StepRuns env m _ s.progress r index s c bound h.running.cursors_ok
          h.running.distinct h.running.pending absent h.waiting.0 (omega (arith, h.bounded)) ok))
      (after_refill-RefillOrdered env m (λ i. i < index + 1) [] (in_files env g) s.progress r index
        s h.output (untouched env m (g ∷ gs) index bound s h) sorted precede ok)

and_fill-StartOrdered :
    (env : Env) (m : Matcher) (gs : List (List String)) (index bound : ℕ) (r : Step)
    (f : Merge → Step)
    → FillOrdered env m gs index bound r
    → ((s : Merge) → Filled env m gs index bound s → StartOrdered env m (f s))
    → StartOrdered env m (and_fill r f)
unfolding and_fill
and_fill-StartOrdered env m gs index bound (next s) f h k = k s h
and_fill-StartOrdered env m gs index bound (ended p) f h k = absurd h
and_fill-StartOrdered env m gs index bound (cut p) f h k = absurd h
and_fill-StartOrdered env m gs index bound (failed e p) f h k = tt
and_fill-StartOrdered env m gs index bound (panicked p) f h k = absurd h

pub fill-StartOrdered :
    (env : Env) (m : Matcher) (gs : List (List String)) (index bound : ℕ) (s : Merge)
    → Filled env m gs index bound s
    → StartOrdered env m (fill env m (map new_cursor gs) index s)
unfolding fill
fill-StartOrdered env m [] index bound s h = (
  h.running,
  h.output,
  record {
    written_order = h.in_order.written_order;
    follows = h.in_order.follows;
    full = h.in_order.full;
    heap_order = h.in_order.heap_order;
    done = λ i c _ e. h.in_order.done i c (omega (arith, lt_of_get i s.cursors e, h.count)) e;
  },
)
fill-StartOrdered env m (g ∷ gs) index bound s h =
    and_fill-StartOrdered env m gs (index + 1) bound
      (after_refill (refill env m (new_cursor g) s.progress) index s) _
      (first-FillOrdered env m gs g index bound s h)
      (λ s' h'. fill-StartOrdered env m gs (index + 1) bound s' h')
