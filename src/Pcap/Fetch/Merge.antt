-- ===== src/Pcap/Fetch/Merge.antt =====
-- The k-way merge of src/pcap/fetch.rs: the cursors, the heap of their pending packets' times, and
-- the loop, on fuel. The heap is kept as the list of its entries in the order of `pop`.
pub mod Writing
pub mod Output
pub mod Heap
pub mod Ends
pub mod Sorted
pub mod Refilled
pub mod Order
pub mod Ordered
use evebox.Base.{
  ℕ, zero, suc, ◌+◌, ◌-◌, ◌^◌, min, Bool, true, false, not, ◌&&◌, ◌||◌, Option, none, some, List,
  [], ◌∷◌, String, ltb, ◌==◌, if◌then◌else◌, length, get_elem?, set, all,
}
use evebox.Pcap.Request.{FetchStats, default_stats, u64_max}
use evebox.Pcap.File.{
  Packet, PcapWriter, new_writer, next_write_size, WriteResult, written, write_failed, write_packet,
}
use evebox.Pcap.Fetch.{
  Env, FetchError, no_candidate_files, no_match, format, io, Stop, cancelled, deadline, Matcher,
  Progress, Turn, go, halt, turn_failed, turn,
}
use evebox.Pcap.Fetch.Cursor.{
  PendingPacket, GroupCursor, new_cursor, skip_current_file, Refill, refilled, refill_failed,
  refill,
}

-- The order of the heap: by time, and at equal times by group.
abbrev pub before : ℕ × ℕ → ℕ × ℕ → Bool
before (t, i) (u, j) = ltb t u || ((t == u) && ltb i j)

unfoldable pub push : ℕ × ℕ → List (ℕ × ℕ) → List (ℕ × ℕ)
push entry [] = entry ∷ []
push entry (top ∷ heap) =
    let rest = push entry heap in if before entry top then entry ∷ top ∷ heap else top ∷ rest

pub record Merge : Type 0 where
  pub cursors : List GroupCursor
  pub heap : List (ℕ × ℕ)
  pub output_linktype : Option ℕ
  pub progress : Progress

pub data Step : Type 0 where
  next : Merge → Step
  ended : Progress → Step
  cut : Progress → Step
  failed : (io_error : String) → Progress → Step
  panicked : Progress → Step

-- The cursor's next packet is put on the heap, if it has one.
unfoldable pub push_pending : Option PendingPacket → ℕ → List (ℕ × ℕ) → List (ℕ × ℕ)
unfolding push
push_pending none index heap = heap
push_pending (some pending) index heap = push (pending.packet_micros, index) heap

unfoldable pub after_refill : Refill → ℕ → Merge → Step
unfolding push_pending
after_refill (refill_failed e p) index s = failed e p
after_refill (refilled cursor p) index s = next (record s {
  cursors = set s.cursors index cursor;
  heap = push_pending cursor.pending index s.heap;
  progress = p;
})

pub get_or_insert : Option ℕ → ℕ → Option ℕ
get_or_insert none linktype = some linktype
get_or_insert (some linktype) _ = some linktype

pub differs : Option ℕ → ℕ → Bool
differs none linktype = false
differs (some output) linktype = not (output == linktype)

-- The packet has gone out, or the consumer has refused it. The time of the write is credited.
after_write : Env → WriteResult → PendingPacket → Merge → Progress → Merge × Option String
unfolding get_or_insert
after_write env (write_failed w) packet s p =
    (record s { progress = record p { writer = w; tick = p.tick + 4 } }, some "write")
after_write env (written w) packet s p =
    let stats = p.stats in
    let t = p.tick in
    (
      record s {
        output_linktype = get_or_insert s.output_linktype packet.linktype;
        progress = record p {
          writer = w;
          tick = t + 4;
          write_credit = p.write_credit + (env.now (t + 3) - env.now t);
          stats = record stats { bytes = w.bytes; packets = stats.packets + 1 };
        };
      },
      none,
    )

refill_after_write : Env → Matcher → Merge × Option String → ℕ → GroupCursor → Step
unfolding refill after_refill
refill_after_write env m (s, some e) index cursor = failed e s.progress
refill_after_write env m (s, none) index cursor =
    after_refill (refill env m (record cursor { pending = none }) s.progress) index s

-- The bytes that the output would have, against the limit.
unfoldable pub exceeds : Matcher → PendingPacket → Progress → Bool
unfolding next_write_size
exceeds m packet p =
    let size = next_write_size (length packet.packet.payload) p.writer in
    ltb m.max_bytes (min (p.stats.bytes + size) u64_max)

-- One packet of the merge: dropped with the rest of its file where its link type is not the
-- output's, too large for the limit, or written.
pub emit : Env → Matcher → PendingPacket → ℕ → GroupCursor → Merge → Progress → Step
unfolding refill after_refill skip_current_file differs exceeds write_packet after_write
    refill_after_write
emit env m packet index cursor s p =
    let w = p.writer in
    let stats = p.stats in
    if differs s.output_linktype packet.linktype
    then after_refill (refill env m (record (skip_current_file cursor) { pending = none }) p) index
        s
    else if exceeds m packet p
    then cut (record p { stats = record stats { truncated = true } })
    else refill_after_write env m
        (after_write env
          (write_packet (λ i. env.accepts (p.tick + 1 + i)) packet.linktype packet.packet w) packet
          s p)
        index cursor

-- The cursor that was popped has a pending packet, or the fetch panics.
emit_pending : Env → Matcher → Option PendingPacket → ℕ → GroupCursor → Merge → Progress → Step
unfolding emit
emit_pending env m none index cursor s p = panicked p
emit_pending env m (some packet) index cursor s p = emit env m packet index cursor s p

take_pending : Env → Matcher → ℕ → Option GroupCursor → Merge → Progress → Step
unfolding emit_pending
take_pending env m index none s p = panicked p
take_pending env m index (some cursor) s p = emit_pending env m cursor.pending index cursor s p

pop_turn : Env → Matcher → Turn → ℕ → List (ℕ × ℕ) → Merge → Step
unfolding take_pending
pop_turn env m (halt p) index heap s = ended p
pop_turn env m (turn_failed e p) index heap s = failed e p
pop_turn env m (go p) index heap s =
    take_pending env m index (get_elem? s.cursors index) (record s { heap = heap }) p

pub pop : Env → Matcher → List (ℕ × ℕ) → Merge → Step
unfolding pop_turn
pop env m [] s = ended s.progress
pop env m ((_, index) ∷ heap) s = pop_turn env m (turn env m s.progress) index heap s

-- One round of the loop.
unfoldable pub merge_step : Env → Matcher → Merge → Step
unfolding pop
merge_step env m s = pop env m s.heap s

-- The loop: what it ends with, or none where the fuel is used up.
and_next : Step → (Merge → Option Step) → Option Step
and_next (next s) f = f s
and_next (ended p) f = some (ended p)
and_next (cut p) f = some (cut p)
and_next (failed e p) f = some (failed e p)
and_next (panicked p) f = some (panicked p)

unfoldable pub merge : Env → Matcher → ℕ → Merge → Option Step
unfolding and_next
merge env m zero s = none
merge env m (suc fuel) s = and_next (merge_step env m s) (merge env m fuel)
