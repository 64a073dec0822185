-- ===== src/Pcap/Fetch/Merge/Ordered.antt =====
-- The loop of src/pcap/fetch.rs keeps the order of time: the packet that is popped is the next.
use evebox.Base.{
  ℕ, zero, suc, ◌≡◌, ◌≢◌, inl, inr, refl, sym, subst, ◌∙◌, Option, none, some, List, [], ◌∷◌, ◌++◌,
  get_elem?, arith,
}
use evebox.Pcap.File.{Packet}
use evebox.Pcap.Fetch.{Env, Matcher, Progress, ts_micros, Turn, go, halt, turn_failed, turn}
use evebox.Pcap.Fetch.Keeps.{Keeps, TurnKeeps, turn-Keeps}
use evebox.Pcap.Fetch.Cursor.{PendingPacket, GroupCursor}
use evebox.Pcap.Fetch.Cursor.Reading.{in_files, in_open, upcoming}
use evebox.Pcap.Fetch.Merge.{
  Merge, Step, next, ended, cut, failed, panicked, emit_pending, take_pending, pop_turn, pop,
  merge_step, merge, and_next,
}
use evebox.Pcap.Fetch.Merge.Writing.{CursorsOk, Output, Output-Keeps}
use evebox.Pcap.Fetch.Merge.Heap.{Absent, Distinct, Running, StepRuns, weight}
use evebox.Pcap.Fetch.Merge.Ends.{pop-StepRuns}
use evebox.Pcap.Fetch.Merge.Sorted.{
  IsOrdered, AllFrom, AllFrom-next, IsHeap, Has, Has-IsFirst, Has-top, Has-below,
}
use evebox.Pcap.Fetch.Merge.Refilled.{InOrder, InOrderBut, StepOrdered, IsDone-Keeps}
use evebox.Pcap.Fetch.Merge.Order.{upcoming_pending, emit-StepOrdered}

abbrev pub Everything : ℕ → Type 0
Everything i = Unit

next_pending :
    (env : Env) (m : Matcher) (t index i : ℕ) (heap : List (ℕ × ℕ)) (ws : List Packet)
    (q : PendingPacket) (s : Merge) (d : GroupCursor) (o : Option PendingPacket)
    → s.heap ≡ (t, index) ∷ heap
    → s.progress.stopped ≡ none
    → InOrder env Everything ws s
    → CursorsOk env m s.cursors
    → t ≡ ts_micros q.packet
    → index ≢ i
    → get_elem? s.cursors i ≡ some d
    → d.pending ≡ o
    → AllFrom q.packet (upcoming env d)
next_pending env m t index i heap ws q s d none top live h ok time ne there e =
    elim (h.done i d tt there e) [
      | inl read ↦ subst (AllFrom q.packet) (sym read) tt
      | inr stopped ↦ absurd (stopped live)
    ]
next_pending env m t index i heap ws q s d (some x) top live h ok time ne there e =
    let this = upcoming_pending env d x e in
    let below =
      Has-below t index x.packet_micros i heap ne
        (subst (Has (x.packet_micros, i)) top (h.full i d x there e)) in
    let order : IsHeap ((t, index) ∷ heap) = subst IsHeap top h.heap_order in
    let le = Has-IsFirst t x.packet_micros i heap order.0 below in
    subst (AllFrom q.packet) (sym this) (
      AllFrom-next q.packet x.packet (in_open d.open_capture ++ in_files env d.files)
        (omega (arith, le, time, ((ok i d there).matching x e).1))
        (subst IsOrdered this (h.follows i d there).0))

popped :
    (env : Env) (t index : ℕ) (heap : List (ℕ × ℕ)) (ws : List Packet) (s : Merge) (p : Progress)
    → s.heap ≡ (t, index) ∷ heap
    → Keeps s.progress p
    → InOrder env Everything ws s
    → InOrderBut env Everything ws index (record s { heap = heap }) p
popped env t index heap ws s p top k h = record {
  written_order = h.written_order;
  follows = λ i d ne e. h.follows i d e;
  full = λ i d x ne e pend.
      Has-below t index x.packet_micros i heap ne
        (subst (Has (x.packet_micros, i)) top (h.full i d x e pend));
  heap_order = (subst IsHeap top h.heap_order).1;
  done = λ i d ne _ e. IsDone-Keeps env d s.progress p k (h.done i d tt e);
}

emit_pending-StepOrdered :
    (env : Env) (m : Matcher) (t index : ℕ) (heap : List (ℕ × ℕ)) (ws : List Packet) (s : Merge)
    (p : Progress) (c : GroupCursor) (o : Option PendingPacket)
    → s.heap ≡ (t, index) ∷ heap
    → Absent index heap
    → get_elem? s.cursors index ≡ some c
    → c.pending ≡ o
    → Keeps s.progress p
    → s.progress.stopped ≡ none
    → CursorsOk env m s.cursors
    → Output env m s.output_linktype ws s.progress
    → InOrder env Everything ws s
    → StepOrdered env m Everything (emit_pending env m o index c (record s { heap = heap }) p)
unfolding emit_pending
emit_pending-StepOrdered env m t index heap ws s p c none top alone here pend k live ok out h = tt
emit_pending-StepOrdered env m t index heap ws s p c (some q) top alone here pend k live ok out h =
    let s₁ : Merge = record s { heap = heap } in
    let time : q.packet_micros ≡ t =
      Has-top t q.packet_micros index heap alone
        (subst (Has (q.packet_micros, index)) top (h.full index c q here pend)) in
    let micros = ((ok index c here).matching q pend).1 in
    emit-StepOrdered env m Everything q index c s₁ p ws pend (ok index c here)
      (Output-Keeps env m s.output_linktype ws s.progress p k out)
      (popped env t index heap ws s p top k h) (h.follows index c here)
      (λ i d ne there.
        next_pending env m t index i heap ws q s d d.pending top live h ok (sym time ∙ micros) ne
          there refl)

take_pending-StepOrdered :
    (env : Env) (m : Matcher) (t index : ℕ) (heap : List (ℕ × ℕ)) (ws : List Packet) (s : Merge)
    (p : Progress) (o : Option GroupCursor)
    → s.heap ≡ (t, index) ∷ heap
    → Absent index heap
    → get_elem? s.cursors index ≡ o
    → Keeps s.progress p
    → s.progress.stopped ≡ none
    → CursorsOk env m s.cursors
    → Output env m s.output_linktype ws s.progress
    → InOrder env Everything ws s
    → StepOrdered env m Everything (take_pending env m index o (record s { heap = heap }) p)
unfolding take_pending
take_pending-StepOrdered env m t index heap ws s p none top alone here k live ok out h = tt
take_pending-StepOrdered env m t index heap ws s p (some c) top alone here k live ok out h =
    emit_pending-StepOrdered env m t index heap ws s p c c.pending top alone here refl k live ok out
      h

pop_turn-StepOrdered :
    (env : Env) (m : Matcher) (t index : ℕ) (heap : List (ℕ × ℕ)) (ws : List Packet) (s : Merge)
    (r : Turn)
    → s.heap ≡ (t, index) ∷ heap
    → Absent index heap
    → TurnKeeps s.progress r
    → CursorsOk env m s.cursors
    → Output env m s.output_linktype ws s.progress
    → InOrder env Everything ws s
    → StepOrdered env m Everything (pop_turn env m r index heap s)
unfolding pop_turn
pop_turn-StepOrdered env m t index heap ws s (halt p) top alone k ok out h = (
  s.output_linktype,
  ws,
  Output-Keeps env m s.output_linktype ws s.progress p k.0 out,
  h.written_order,
)
pop_turn-StepOrdered env m t index heap ws s (turn_failed e p) top alone k ok out h = tt
pop_turn-StepOrdered env m t index heap ws s (go p) top alone k ok out h =
    take_pending-StepOrdered env m t index heap ws s p (get_elem? s.cursors index) top alone refl
      k.0 k.1 ok out h

pop-StepOrdered :
    (env : Env) (m : Matcher) (heap : List (ℕ × ℕ)) (ws : List Packet) (s : Merge)
    → s.heap ≡ heap
    → Running env m s
    → Output env m s.output_linktype ws s.progress
    → InOrder env Everything ws s
    → StepOrdered env m Everything (pop env m heap s)
unfolding pop
pop-StepOrdered env m [] ws s top run out h = (s.output_linktype, ws, out, h.written_order)
pop-StepOrdered env m ((t, index) ∷ heap) ws s top run out h =
    pop_turn-StepOrdered env m t index heap ws s (turn env m s.progress) top
      (subst Distinct top run.distinct).0 (turn-Keeps env m s.progress) run.cursors_ok out h

-- The end of the loop.
abbrev pub ResultOrdered : Env → Matcher → Option Step → Type 0
ResultOrdered env m none = Unit
ResultOrdered env m (some r) = StepOrdered env m Everything r

and_next-ResultOrdered :
    (env : Env) (m : Matcher) (bound : ℕ) (r : Step) (f : Merge → Option Step)
    → StepOrdered env m Everything r
    → StepRuns env m bound r
    → ((s : Merge) (ws : List Packet)
        → Running env m s
        → Output env m s.output_linktype ws s.progress
        → InOrder env Everything ws s
        → ResultOrdered env m (f s))
    → ResultOrdered env m (and_next r f)
unfolding and_next
and_next-ResultOrdered env m bound (next s) f (ws, out, h) (run, _) k = k s ws run out h
and_next-ResultOrdered env m bound (ended p) f h run k = h
and_next-ResultOrdered env m bound (cut p) f h run k = h
and_next-ResultOrdered env m bound (failed e p) f h run k = tt
and_next-ResultOrdered env m bound (panicked p) f h run k = tt

pub merge-ResultOrdered :
    (env : Env) (m : Matcher) (fuel : ℕ) (s : Merge) (ws : List Packet)
    → Running env m s
    → Output env m s.output_linktype ws s.progress
    → InOrder env Everything ws s
    → ResultOrdered env m (merge env m fuel s)
unfolding merge merge_step
merge-ResultOrdered env m zero s ws run out h = tt
merge-ResultOrdered env m (suc fuel) s ws run out h =
    and_next-ResultOrdered env m (weight env s.cursors) (merge_step env m s) (merge env m fuel)
      (pop-StepOrdered env m s.heap ws s refl run out h)
      (pop-StepRuns env m s.heap s (weight env s.cursors) run.cursors_ok run.distinct run.pending
        (omega arith))
      (λ s' ws' run' out' h'. merge-ResultOrdered env m fuel s' ws' run' out' h')
