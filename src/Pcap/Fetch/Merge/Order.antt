-- ===== src/Pcap/Fetch/Merge/Order.antt =====
-- The merge of src/pcap/fetch.rs writes in the order of time, where each group is in that order.
use evebox.Base.{
  ℕ, ◌+◌, ◌≡◌, ◌≢◌, inl, inr, refl, sym, ap, subst, ◌∙◌, Bool, false, length, Option, none, some,
  some_inj, List, [], ◌∷◌, ◌++◌, get_elem?, if_lem,
}
use evebox.Pcap.File.{
  next_write_size, Packet, PcapWriter, WriteResult, written, write_failed, write_packet,
}
use evebox.Pcap.File.Stream.{Wrote, write_packet-Wrote}
use evebox.Pcap.Fetch.{Env, Matcher, Progress}
use evebox.Pcap.Fetch.Cursor.{PendingPacket, GroupCursor, skip_current_file, refill}
use evebox.Pcap.Fetch.Cursor.Reading.{CursorOk, refill_lem, in_files, in_open, in_pending, upcoming}
use evebox.Pcap.Fetch.Merge.{Merge, differs, after_write, refill_after_write, exceeds, emit}
use evebox.Pcap.Fetch.Merge.Writing.{Output, Wrote-Output, move, was}
use evebox.Pcap.Fetch.Merge.Sorted.{
  IsOrdered, AllFrom, IsOrdered-drop, Precede, Precede-drop, Precede-snoc, IsOrdered-snoc, IsHeap,
  Has,
}
use evebox.Pcap.Fetch.Merge.Refilled.{Follows, InOrderBut, StepOrdered, after_refill-StepOrdered}

in_pending-some :
    (o : Option PendingPacket) (q : PendingPacket) → o ≡ some q → in_pending o ≡ q.packet ∷ []
in_pending-some none q e = cc
in_pending-some (some q') q e = ap (λ (x : PendingPacket). x.packet ∷ []) (some_inj e)

pub upcoming_pending :
    (env : Env) (c : GroupCursor) (q : PendingPacket)
    → c.pending ≡ some q
    → upcoming env c ≡ q.packet ∷ (in_open c.open_capture ++ in_files env c.files)
upcoming_pending env c q e =
    ap (λ ps. ps ++ (in_open c.open_capture ++ in_files env c.files))
      (in_pending-some c.pending q e)

-- The popped packet comes before everything that the other groups still have.
abbrev pub IsNext : Env → ℕ → Packet → Merge → Type 0
IsNext env index q s =
    (i : ℕ) (d : GroupCursor)
    → index ≢ i
    → get_elem? s.cursors i ≡ some d
    → AllFrom q (upcoming env d)

InOrderBut-snoc :
    (env : Env) (seen : ℕ → Type 0) (ws : List Packet) (q : Packet) (index : ℕ) (s t : Merge)
    (p p' : Progress)
    → InOrderBut env seen ws index s p
    → IsOrdered (ws ++ q ∷ [])
    → IsNext env index q s
    → t.cursors ≡ s.cursors
    → t.heap ≡ s.heap
    → p'.stopped ≡ p.stopped
    → InOrderBut env seen (ws ++ q ∷ []) index t p'
InOrderBut-snoc env seen ws q index s t p p' h sorted first same_cursors same_heap same_stop =
    record {
      written_order = sorted;
      follows = λ i d ne e.
          let there = sym (ap (λ cs. get_elem? cs i) same_cursors) ∙ e in
          let (o, f) = h.follows i d ne there in
          (o, Precede-snoc ws (upcoming env d) q f (first i d ne there));
      full = λ i d x ne e pend.
          subst (Has (x.packet_micros, i)) (sym same_heap)
            (h.full i d x ne (sym (ap (λ cs. get_elem? cs i) same_cursors) ∙ e) pend);
      heap_order = subst IsHeap (sym same_heap) h.heap_order;
      done = λ i d ne lt e pend.
          elim (h.done i d ne lt (sym (ap (λ cs. get_elem? cs i) same_cursors) ∙ e) pend) [
            | inl read ↦ inl read
            | inr stopped ↦ inr (λ f. stopped (sym same_stop ∙ f))
          ];
    }

refill_after_write-StepOrdered :
    (env : Env) (m : Matcher) (seen : ℕ → Type 0) (q : PendingPacket) (index : ℕ) (c : GroupCursor)
    (s : Merge) (p : Progress) (ws : List Packet) (r : WriteResult)
    → c.pending ≡ some q
    → CursorOk env m c
    → Output env m s.output_linktype ws p
    → InOrderBut env seen ws index s p
    → Follows env ws c
    → IsNext env index q.packet s
    → differs s.output_linktype q.linktype ≡ false
    → exceeds m q p ≡ false
    → ((w : PcapWriter)
        → r ≡ written w
        → (Wrote q.linktype (ws ++ q.packet ∷ []) w)
          × (length w.out
              ≡ length p.writer.out + next_write_size (length q.packet.payload) p.writer))
    → StepOrdered env m seen (refill_after_write env m (after_write env r q s p) index c)
unfolding refill_after_write after_write
refill_after_write-StepOrdered env m seen q index c s p ws (write_failed w) pend ok out h f first
      same fits wrote =
    tt
refill_after_write-StepOrdered env m seen q index c s p ws (written w) pend ok out h f first same
      fits wrote =
    let s' : Merge = (after_write env (written w) q s p).0 in
    let c' : GroupCursor = record c { pending = none } in
    let ok' : CursorOk env m c' = record { filter = ok.filter; matching = λ q e. cc } in
    let ahead = in_open c.open_capture ++ in_files env c.files in
    let this = upcoming_pending env c q pend in
    let ordered = subst IsOrdered this f.0 in
    let before_this = subst (Precede ws) this f.1 in
    after_refill-StepOrdered env m seen (ws ++ q.packet ∷ []) ahead s'.progress
      (refill env m c' s'.progress) index s'
      (Wrote-Output env m q s p ws w s'.progress (ok.matching q pend).0 out same fits (wrote w refl)
        refl refl refl)
      (InOrderBut-snoc env seen ws q.packet index s s' p s'.progress h
        (IsOrdered-snoc ws q.packet ahead h.written_order ordered.0 before_this) first refl refl
        refl)
      ordered.2
      (Precede-snoc ws ahead q.packet (Precede-drop ws (q.packet ∷ []) ahead before_this) ordered.1)
      (refill_lem env m c' s'.progress ok')

pub emit-StepOrdered :
    (env : Env) (m : Matcher) (seen : ℕ → Type 0) (q : PendingPacket) (index : ℕ) (c : GroupCursor)
    (s : Merge) (p : Progress) (ws : List Packet)
    → c.pending ≡ some q
    → CursorOk env m c
    → Output env m s.output_linktype ws p
    → InOrderBut env seen ws index s p
    → Follows env ws c
    → IsNext env index q.packet s
    → StepOrdered env m seen (emit env m q index c s p)
unfolding emit skip_current_file
emit-StepOrdered env m seen q index c s p ws pend ok out h f first =
    let skipped : GroupCursor = record c { open_capture = none; pending = none } in
    let accepts : ℕ → Bool = λ i. env.accepts (p.tick + 1 + i) in
    let this = upcoming_pending env c q pend in
    let dropped = q.packet ∷ in_open c.open_capture in
    if_lem (StepOrdered env m seen) (differs s.output_linktype q.linktype) _ _
      (λ _.
        after_refill-StepOrdered env m seen ws (in_files env c.files) p (refill env m skipped p)
          index s out h (IsOrdered-drop dropped (in_files env c.files) (subst IsOrdered this f.0))
          (Precede-drop ws dropped (in_files env c.files) (subst (Precede ws) this f.1))
          (refill_lem env m skipped p (record { filter = λ file e. cc; matching = λ q e. cc })))
      (λ same.
        if_lem (StepOrdered env m seen) (exceeds m q p) _ _
          (λ _. (
            s.output_linktype,
            ws,
            record {
              wrote = out.wrote;
              counted = out.counted;
              measured = out.measured;
              bounded = out.bounded;
              matching = out.matching;
              unset = out.unset;
            },
            h.written_order,
          ))
          (λ fits.
            refill_after_write-StepOrdered env m seen q index c s p ws
              (write_packet accepts q.linktype q.packet p.writer) pend ok out h f first same fits
              (λ w e.
                write_packet-Wrote accepts q.linktype ws q.packet p.writer
                  (move env m s.output_linktype q.linktype ws p
                    (was s.output_linktype q.linktype same) out).0
                  e)))
