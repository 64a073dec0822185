-- ===== src/Pcap/Fetch/Merge/Output.antt =====
-- What the merge of src/pcap/fetch.rs writes.
use evebox.Base.{
  ℕ, zero, suc, ◌+◌, ◌≡◌, refl, Bool, false, Option, none, some, List, [], ◌∷◌, ◌++◌, length,
  get_elem?, if_lem,
}
use evebox.Pcap.File.{
  Packet, PcapWriter, next_write_size, WriteResult, written, write_failed, write_packet,
}
use evebox.Pcap.File.Stream.{Wrote, write_packet-Wrote}
use evebox.Pcap.Fetch.{Env, Matcher, Progress, Turn, go, halt, turn_failed, turn}
use evebox.Pcap.Fetch.Keeps.{TurnKeeps, turn-Keeps}
use evebox.Pcap.Fetch.Cursor.{PendingPacket, GroupCursor, skip_current_file, refill}
use evebox.Pcap.Fetch.Cursor.Opening.{Matches}
use evebox.Pcap.Fetch.Cursor.Reading.{CursorOk, refill_lem}
use evebox.Pcap.Fetch.Merge.{
  Merge, Step, next, ended, cut, failed, panicked, differs, after_write, refill_after_write,
  exceeds, emit, take_pending, emit_pending, pop_turn, pop, merge_step, merge, and_next,
}
use evebox.Pcap.Fetch.Merge.Writing.{
  Output, Output-Keeps, CursorsOk, MergeOk, StepOk, after_refill-StepOk, was, move, Wrote-Output,
}

refill_after_write-StepOk :
    (env : Env) (m : Matcher) (q : PendingPacket) (index : ℕ) (c : GroupCursor) (s : Merge)
    (p : Progress) (ws : List Packet) (r : WriteResult)
    → CursorOk env m c
    → CursorsOk env m s.cursors
    → Matches env m q.linktype q.packet
    → Output env m s.output_linktype ws p
    → differs s.output_linktype q.linktype ≡ false
    → exceeds m q p ≡ false
    → ((w : PcapWriter)
        → r ≡ written w
        → (Wrote q.linktype (ws ++ q.packet ∷ []) w)
          × (length w.out
              ≡ length p.writer.out + next_write_size (length q.packet.payload) p.writer))
    → StepOk env m (refill_after_write env m (after_write env r q s p) index c)
unfolding refill_after_write after_write
refill_after_write-StepOk env m q index c s p ws (write_failed w) ok all matches o same fits h = tt
refill_after_write-StepOk env m q index c s p ws (written w) ok all matches o same fits h =
    let s' : Merge = (after_write env (written w) q s p).0 in
    let c' = record c { pending = none } in
    let ok' : CursorOk env m c' = record { filter = ok.filter; matching = λ q e. cc } in
    after_refill-StepOk env m _ s'.progress (refill env m c' s'.progress) index s'
      (ws ++ q.packet ∷ [])
      (Wrote-Output env m q s p ws w s'.progress matches o same fits (h w refl) refl refl refl) all
      (refill_lem env m c' s'.progress ok')

emit-StepOk :
    (env : Env) (m : Matcher) (q : PendingPacket) (index : ℕ) (c : GroupCursor) (s : Merge)
    (p : Progress) (ws : List Packet)
    → CursorOk env m c
    → CursorsOk env m s.cursors
    → Matches env m q.linktype q.packet
    → Output env m s.output_linktype ws p
    → StepOk env m (emit env m q index c s p)
unfolding emit skip_current_file
emit-StepOk env m q index c s p ws ok all matches o =
    let skipped : GroupCursor = record c { open_capture = none; pending = none } in
    let accepts : ℕ → Bool = λ i. env.accepts (p.tick + 1 + i) in
    if_lem (StepOk env m) (differs s.output_linktype q.linktype) _ _
      (λ _.
        after_refill-StepOk env m _ p (refill env m skipped p) index s ws o all
          (refill_lem env m skipped p (record { filter = λ file e. cc; matching = λ q e. cc })))
      (λ same.
        if_lem (StepOk env m) (exceeds m q p) _ _
          (λ _. (
            s.output_linktype,
            ws,
            record {
              wrote = o.wrote;
              counted = o.counted;
              measured = o.measured;
              bounded = o.bounded;
              matching = o.matching;
              unset = o.unset;
            },
          ))
          (λ fits.
            refill_after_write-StepOk env m q index c s p ws
              (write_packet accepts q.linktype q.packet p.writer) ok all matches o same fits
              (λ w h.
                write_packet-Wrote accepts q.linktype ws q.packet p.writer
                  (move env m s.output_linktype q.linktype ws p
                    (was s.output_linktype q.linktype same) o).0
                  h)))

emit_pending-StepOk :
    (env : Env) (m : Matcher) (o : Option PendingPacket) (index : ℕ) (c : GroupCursor) (s : Merge)
    (p : Progress) (ws : List Packet)
    → c.pending ≡ o
    → CursorOk env m c
    → CursorsOk env m s.cursors
    → Output env m s.output_linktype ws p
    → StepOk env m (emit_pending env m o index c s p)
unfolding emit_pending
emit_pending-StepOk env m none index c s p ws e ok all out = tt
emit_pending-StepOk env m (some q) index c s p ws e ok all out =
    emit-StepOk env m q index c s p ws ok all (ok.matching q e).0 out

take_pending-StepOk :
    (env : Env) (m : Matcher) (index : ℕ) (o : Option GroupCursor) (s : Merge) (p : Progress)
    (ws : List Packet)
    → ((c : GroupCursor) → o ≡ some c → CursorOk env m c)
    → CursorsOk env m s.cursors
    → Output env m s.output_linktype ws p
    → StepOk env m (take_pending env m index o s p)
unfolding take_pending
take_pending-StepOk env m index none s p ws ok all out = tt
take_pending-StepOk env m index (some c) s p ws ok all out =
    emit_pending-StepOk env m c.pending index c s p ws refl (ok c refl) all out

pop_turn-StepOk :
    (env : Env) (m : Matcher) (t : Turn) (index : ℕ) (heap : List (ℕ × ℕ)) (s : Merge)
    (ws : List Packet)
    → TurnKeeps s.progress t
    → CursorsOk env m s.cursors
    → Output env m s.output_linktype ws s.progress
    → StepOk env m (pop_turn env m t index heap s)
unfolding pop_turn
pop_turn-StepOk env m (halt p) index heap s ws k all out =
    (s.output_linktype, ws, Output-Keeps env m s.output_linktype ws s.progress p k.0 out)
pop_turn-StepOk env m (turn_failed e p) index heap s ws k all out = tt
pop_turn-StepOk env m (go p) index heap s ws k all out =
    take_pending-StepOk env m index (get_elem? s.cursors index) (record s { heap = heap }) p ws
      (all index) all (Output-Keeps env m s.output_linktype ws s.progress p k.0 out)

pop-StepOk :
    (env : Env) (m : Matcher) (heap : List (ℕ × ℕ)) (s : Merge)
    → MergeOk env m s
    → StepOk env m (pop env m heap s)
unfolding pop
pop-StepOk env m [] s ((ws, out), all) = (s.output_linktype, ws, out)
pop-StepOk env m ((t, index) ∷ heap) s ((ws, out), all) =
    pop_turn-StepOk env m (turn env m s.progress) index heap s ws (turn-Keeps env m s.progress) all
      out

-- The end of the whole loop.
abbrev pub ResultOk : Env → Matcher → Option Step → Type 0
ResultOk env m none = Unit
ResultOk env m (some r) = StepOk env m r

and_next-ResultOk :
    (env : Env) (m : Matcher) (r : Step) (f : Merge → Option Step)
    → StepOk env m r
    → ((s : Merge) → MergeOk env m s → ResultOk env m (f s))
    → ResultOk env m (and_next r f)
unfolding and_next
and_next-ResultOk env m (next s) f h k = k s h
and_next-ResultOk env m (ended p) f h k = h
and_next-ResultOk env m (cut p) f h k = h
and_next-ResultOk env m (failed e p) f h k = tt
and_next-ResultOk env m (panicked p) f h k = tt

pub merge-ResultOk :
    (env : Env) (m : Matcher) (fuel : ℕ) (s : Merge)
    → MergeOk env m s
    → ResultOk env m (merge env m fuel s)
unfolding merge merge_step
merge-ResultOk env m zero s h = tt
merge-ResultOk env m (suc fuel) s h =
    and_next-ResultOk env m (merge_step env m s) (merge env m fuel) (pop-StepOk env m s.heap s h)
      (λ s' h'. merge-ResultOk env m fuel s' h')
