-- ===== src/Pcap/Fetch/Merge/Ends.antt =====
-- The merge of src/pcap/fetch.rs ends, and the cursor that it pops always has a pending packet.
use evebox.Base.{
  ℕ, zero, suc, ◌+◌, ◌≤◌, ◌≡◌, refl, sym, ap, ◌∙◌, Bool, Option, none, some, List, [], ◌∷◌, ◌++◌,
  length, length-append, get_elem?, if_lem, some_inj, arith,
}
use evebox.Pcap.File.{WriteResult, written, write_failed, write_packet}
use evebox.Pcap.Fetch.{Env, Matcher, Progress, Turn, go, halt, turn_failed, turn}
use evebox.Pcap.Fetch.Cursor.{PendingPacket, GroupCursor, skip_current_file, refill}
use evebox.Pcap.Fetch.Cursor.Reading.{CursorOk, refill_lem, upcoming, in_open, in_files}
use evebox.Pcap.Fetch.Merge.{
  Merge, Step, next, ended, cut, failed, panicked, differs, after_write, refill_after_write,
  exceeds, emit, emit_pending, take_pending, pop_turn, pop, merge_step, merge, and_next,
}
use evebox.Pcap.Fetch.Merge.Writing.{CursorsOk}
use evebox.Pcap.Fetch.Merge.Heap.{
  Absent, Distinct, HasPending, Pending, weight, Running, StepRuns, after_refill-StepRuns,
}

-- A cursor with a pending packet has one more than what it reads on from.
length-upcoming :
    (env : Env) (c : GroupCursor) (o : Option PendingPacket) {q : PendingPacket}
    → c.pending ≡ o
    → o ≡ some q
    → length (upcoming env c) ≡ 1 + length (in_open c.open_capture ++ in_files env c.files)
length-upcoming env c none e f = cc
length-upcoming env c (some q) e f = rw (e) (omega arith)

refill_after_write-StepRuns :
    (env : Env) (m : Matcher) (q : PendingPacket) (index : ℕ) (c : GroupCursor) (s : Merge)
    (p : Progress) (r : WriteResult) (bound : ℕ)
    → CursorOk env m c
    → CursorsOk env m s.cursors
    → Distinct s.heap
    → Pending s.cursors s.heap
    → Absent index s.heap
    → get_elem? s.cursors index ≡ some c
    → weight env s.cursors + length (in_open c.open_capture ++ in_files env c.files)
      ≤ bound + length (upcoming env c)
    → StepRuns env m bound (refill_after_write env m (after_write env r q s p) index c)
unfolding refill_after_write after_write
refill_after_write-StepRuns env m q index c s p (write_failed w) bound ok all d h a at_i le = tt
refill_after_write-StepRuns env m q index c s p (written w) bound ok all d h a at_i le =
    let s' : Merge = (after_write env (written w) q s p).0 in
    let c' : GroupCursor = record c { pending = none } in
    let ok' : CursorOk env m c' = record { filter = ok.filter; matching = λ q e. cc } in
    after_refill-StepRuns env m _ s'.progress (refill env m c' s'.progress) index s' c bound all d h
      a at_i le (refill_lem env m c' s'.progress ok')

emit-StepRuns :
    (env : Env) (m : Matcher) (q : PendingPacket) (index : ℕ) (c : GroupCursor) (s : Merge)
    (p : Progress) (bound : ℕ)
    → c.pending ≡ some q
    → CursorOk env m c
    → CursorsOk env m s.cursors
    → Distinct s.heap
    → Pending s.cursors s.heap
    → Absent index s.heap
    → get_elem? s.cursors index ≡ some c
    → weight env s.cursors ≤ suc bound
    → StepRuns env m bound (emit env m q index c s p)
unfolding emit skip_current_file
emit-StepRuns env m q index c s p bound has ok all d h a at_i le =
    let skipped : GroupCursor = record c { open_capture = none; pending = none } in
    let accepts : ℕ → Bool = λ i. env.accepts (p.tick + 1 + i) in
    let one = length-upcoming env c c.pending refl has in
    if_lem (StepRuns env m bound) (differs s.output_linktype q.linktype) _ _
      (λ _.
        after_refill-StepRuns env m _ p (refill env m skipped p) index s c bound all d h a at_i
          (omega (arith, le, one, length-append (in_open c.open_capture) (in_files env c.files)))
          (refill_lem env m skipped p (record { filter = λ file e. cc; matching = λ q e. cc })))
      (λ _.
        if_lem (StepRuns env m bound) (exceeds m q p) _ _ (λ _. tt)
          (λ _.
            refill_after_write-StepRuns env m q index c s p
              (write_packet accepts q.linktype q.packet p.writer) bound ok all d h a at_i
              (omega (arith, le, one))))

emit_pending-StepRuns :
    (env : Env) (m : Matcher) (o : Option PendingPacket) (index : ℕ) (c : GroupCursor) (s : Merge)
    (p : Progress) (bound : ℕ) {q : PendingPacket}
    → c.pending ≡ o
    → o ≡ some q
    → CursorOk env m c
    → CursorsOk env m s.cursors
    → Distinct s.heap
    → Pending s.cursors s.heap
    → Absent index s.heap
    → get_elem? s.cursors index ≡ some c
    → weight env s.cursors ≤ suc bound
    → StepRuns env m bound (emit_pending env m o index c s p)
unfolding emit_pending
emit_pending-StepRuns env m none index c s p bound e f ok all d h a at_i le = cc
emit_pending-StepRuns env m (some q') index c s p bound e f ok all d h a at_i le =
    emit-StepRuns env m q' index c s p bound e ok all d h a at_i le

take_pending-StepRuns :
    (env : Env) (m : Matcher) (index : ℕ) (o : Option GroupCursor) (s : Merge) (p : Progress)
    (bound : ℕ)
    → get_elem? s.cursors index ≡ o
    → HasPending s.cursors index
    → CursorsOk env m s.cursors
    → Distinct s.heap
    → Pending s.cursors s.heap
    → Absent index s.heap
    → weight env s.cursors ≤ suc bound
    → StepRuns env m bound (take_pending env m index o s p)
unfolding take_pending
take_pending-StepRuns env m index none s p bound e (c, q, at_i, has) all d h a le = cc
take_pending-StepRuns env m index (some c') s p bound e (c, q, at_i, has) all d h a le =
    let same : c ≡ c' = some_inj (sym at_i ∙ e) in
    emit_pending-StepRuns env m c'.pending index c' s p bound refl
      (sym (ap (λ (x : GroupCursor). x.pending) same) ∙ has) (all index c' e) all d h a e le

pop_turn-StepRuns :
    (env : Env) (m : Matcher) (t : Turn) (index : ℕ) (heap : List (ℕ × ℕ)) (s : Merge) (bound : ℕ)
    → HasPending s.cursors index
    → CursorsOk env m s.cursors
    → Distinct heap
    → Pending s.cursors heap
    → Absent index heap
    → weight env s.cursors ≤ suc bound
    → StepRuns env m bound (pop_turn env m t index heap s)
unfolding pop_turn
pop_turn-StepRuns env m (halt p) index heap s bound has all d h a le = tt
pop_turn-StepRuns env m (turn_failed e p) index heap s bound has all d h a le = tt
pop_turn-StepRuns env m (go p) index heap s bound has all d h a le =
    take_pending-StepRuns env m index (get_elem? s.cursors index) (record s { heap = heap }) p bound
      refl has all d h a le

pub pop-StepRuns :
    (env : Env) (m : Matcher) (heap : List (ℕ × ℕ)) (s : Merge) (bound : ℕ)
    → CursorsOk env m s.cursors
    → Distinct heap
    → Pending s.cursors heap
    → weight env s.cursors ≤ suc bound
    → StepRuns env m bound (pop env m heap s)
unfolding pop
pop-StepRuns env m [] s bound all d h le = tt
pop-StepRuns env m ((t, index) ∷ heap) s bound all (a, d) (has, h) le =
    pop_turn-StepRuns env m (turn env m s.progress) index heap s bound has all d h a le

-- With nothing left, nothing is pending.
weight-Pending :
    (env : Env) (cursors : List GroupCursor) (i : ℕ) → HasPending cursors i → 1 ≤ weight env cursors
weight-Pending env [] i (c, q, at_i, has) = cc
weight-Pending env (x ∷ cursors) zero (c, q, at_i, has) =
    let same : x ≡ c = some_inj at_i in
    omega
      (arith, length-upcoming env x x.pending refl (ap (λ (y : GroupCursor). y.pending) same ∙ has))
weight-Pending env (x ∷ cursors) (suc i) (c, q, at_i, has) =
    omega (arith, weight-Pending env cursors i (c, q, at_i, has))

idle-StepRuns :
    (env : Env) (m : Matcher) (heap : List (ℕ × ℕ)) (s : Merge)
    → Pending s.cursors heap
    → weight env s.cursors ≤ 0
    → (pop env m heap s ≡ ended s.progress)
unfolding pop
idle-StepRuns env m [] s h le = refl
idle-StepRuns env m ((t, i) ∷ heap) s (has, h) le =
    absurd (omega (arith, le, weight-Pending env s.cursors i has))

-- The loop has come to an end that is not a panic.
abbrev pub Ends : Option Step → Type 0
Ends none = ⊥
Ends (some (next s)) = ⊥
Ends (some (ended p)) = Unit
Ends (some (cut p)) = Unit
Ends (some (failed e p)) = Unit
Ends (some (panicked p)) = ⊥

and_next-Ends :
    (env : Env) (m : Matcher) (bound : ℕ) (r : Step) (f : Merge → Option Step)
    → StepRuns env m bound r
    → ((s : Merge) → Running env m s → weight env s.cursors ≤ bound → Ends (f s))
    → Ends (and_next r f)
unfolding and_next
and_next-Ends env m bound (next s) f (run, le) k = k s run le
and_next-Ends env m bound (ended p) f h k = tt
and_next-Ends env m bound (cut p) f h k = tt
and_next-Ends env m bound (failed e p) f h k = tt
and_next-Ends env m bound (panicked p) f h k = absurd h

pub merge-Ends :
    (env : Env) (m : Matcher) (fuel : ℕ) (s : Merge)
    → Running env m s
    → weight env s.cursors ≤ fuel
    → Ends (merge env m (suc fuel) s)
unfolding merge merge_step
merge-Ends env m zero s run le = rw (idle-StepRuns env m s.heap s run.pending le) tt
merge-Ends env m (suc fuel) s run le =
    and_next-Ends env m fuel (merge_step env m s) (merge env m (suc fuel))
      (pop-StepRuns env m s.heap s fuel run.cursors_ok run.distinct run.pending le)
      (λ s' run' le'. merge-Ends env m fuel s' run' le')
