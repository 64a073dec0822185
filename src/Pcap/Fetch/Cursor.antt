-- ===== src/Pcap/Fetch/Cursor.antt =====
-- The cursors of src/pcap/fetch.rs: opening a spool file, and refilling a group's pending packet.
-- The loop of `refill` reads the packets of the open file and then the other files, so it is
-- recursion on the two lists; each round begins with a `turn`.
pub mod Opening
pub mod Reading
use evebox.Base.{
  ℕ, zero, suc, ◌+◌, ◌-◌, ◌*◌, Bool, true, false, Option, none, some, List, [], ◌∷◌, String,
  if◌then◌else◌,
}
use evebox.Pcap.Request.{FetchStats}
use evebox.Pcap.File.{Packet, PcapWriter}
use evebox.Pcap.Fetch.{
  BpfProgram, CompileResult, compiled, compile_failed, FileResult, capture, unreadable,
  fd_exhausted, Env, FetchError, io, Matcher, Progress, ts_micros, passes, Turn, go, halt,
  turn_failed, turn,
}

pub record PendingPacket : Type 0 where
  pub packet_micros : ℕ
  pub packet : Packet
  pub linktype : ℕ

pub record OpenCapture : Type 0 where
  pub packets : List Packet
  pub linktype : ℕ
  pub filter_program : Option BpfProgram
  pub path : String

pub record GroupCursor : Type 0 where
  pub files : List String
  pub open_capture : Option OpenCapture
  pub pending : Option PendingPacket

abbrev pub new_cursor : List String → GroupCursor
new_cursor files = record { files = files; open_capture = none; pending = none }

unfoldable pub skip_current_file : GroupCursor → GroupCursor
skip_current_file cursor = record cursor { open_capture = none }

pub data Opened : Type 0 where
  opened : OpenCapture → Progress → Opened
  skipped : Progress → Opened
  open_failed : (io_error : String) → Progress → Opened

or_first : Option String → String → Option String
or_first none message = some message
or_first (some first) message = some first

linktype_or : Option ℕ → ℕ → Option ℕ
linktype_or none linktype = some linktype
linktype_or (some first) linktype = some first

-- A user expression that does not compile for this link type skips the file and is remembered.
compile_expression : CompileResult → (ℕ × List Packet × String) → Progress → Opened
unfolding or_first
compile_expression (compiled program) (linktype, packets, path) p =
    opened
      (record {
        packets = packets;
        linktype = linktype;
        filter_program = some program;
        path = path;
      })
      (record p { compiled_any = true })
compile_expression (compile_failed message) _ p =
    skipped (record p { first_error = or_first p.first_error message })

-- A flow filter: with VLAN tags where the link type has them, else without.
compile_flow : CompileResult → CompileResult → (ℕ × List Packet × String) → Progress → Opened
compile_flow (compiled wrapped) base (linktype, packets, path) p =
    opened
      (record {
        packets = packets;
        linktype = linktype;
        filter_program = some wrapped;
        path = path;
      })
      p
compile_flow (compile_failed _) (compiled base) (linktype, packets, path) p =
    opened
      (record { packets = packets; linktype = linktype; filter_program = some base; path = path }) p
compile_flow (compile_failed _) (compile_failed _) _ p = skipped p

compile_filter :
    Env → Option String → Option (String × String) → (ℕ × List Packet × String) → Progress → Opened
unfolding compile_expression compile_flow
compile_filter env (some expression) _ (linktype, packets, path) p =
    compile_expression (env.compile linktype expression) (linktype, packets, path) p
compile_filter env none (some (wrapped, base)) (linktype, packets, path) p =
    compile_flow (env.compile linktype wrapped) (env.compile linktype base)
      (linktype, packets, path) p
compile_filter env none none (linktype, packets, path) p =
    opened (record { packets = packets; linktype = linktype; filter_program = none; path = path }) p

pub open_result : Env → Matcher → FileResult → String → Progress → Opened
unfolding compile_filter linktype_or
open_result env m unreadable path p =
    let stats = p.stats in
    skipped (record p { stats = record stats { files_vanished = stats.files_vanished + 1 } })
open_result env m (fd_exhausted message) path p = open_failed message p
open_result env m (capture linktype packets) path p =
    let stats = p.stats in
    compile_filter env m.expression m.flow_expressions (linktype, packets, path)
      (record p {
        stats = record stats {
          files_scanned = stats.files_scanned + 1;
          linktype = linktype_or stats.linktype linktype;
        };
      })

unfoldable pub open_group_file : Env → Matcher → String → Progress → Opened
unfolding open_result
open_group_file env m path p = open_result env m (env.from_file path) path p

pub data Refill : Type 0 where
  refilled : GroupCursor → Progress → Refill
  refill_failed : (io_error : String) → Progress → Refill

-- The open file has no more packets, or the refill is over.
pub data Scan : Type 0 where
  exhausted : Progress → Scan
  over : Refill → Scan

unfoldable pub scan : Env → Matcher → List String → OpenCapture → List Packet → Turn → Scan
scan env m files c packets (halt p) = over (
    refilled
      (record {
        files = files;
        open_capture = some (record c { packets = packets });
        pending = none;
      })
      p)
scan env m files c packets (turn_failed e p) = over (refill_failed e p)
scan env m files c [] (go p) = exhausted p
scan env m files c (packet ∷ packets) (go p) =
    let rest = scan env m files c packets (turn env m p) in
    if passes m c.filter_program packet
    then over (
        refilled
          (record {
            files = files;
            open_capture = some (record c { packets = packets });
            pending = some (record {
              packet_micros = ts_micros packet;
              packet = packet;
              linktype = c.linktype;
            });
          })
          p)
    else rest

unfoldable pub after_scan : Scan → (Progress → Refill) → Refill
after_scan (exhausted p) next_file = next_file p
after_scan (over r) next_file = r

unfoldable pub after_open : Env → Matcher → List String → Opened → (Progress → Refill) → Refill
unfolding scan after_scan
after_open env m files (opened c p) next_file =
    after_scan (scan env m files c c.packets (turn env m p)) next_file
after_open env m files (skipped p) next_file = next_file p
after_open env m files (open_failed e p) next_file = refill_failed e p

unfoldable pub refill_files : Env → Matcher → List String → Turn → Refill
unfolding open_group_file after_open
refill_files env m files (halt p) = refilled (new_cursor files) p
refill_files env m files (turn_failed e p) = refill_failed e p
refill_files env m [] (go p) = refilled (new_cursor []) p
refill_files env m (path ∷ files) (go p) =
    after_open env m files (open_group_file env m path p)
      (λ p'. refill_files env m files (turn env m p'))

unfoldable pub refill_from : Env → Matcher → Option OpenCapture → List String → Progress → Refill
unfolding scan after_scan refill_files
refill_from env m none files p = refill_files env m files (turn env m p)
refill_from env m (some c) files p =
    after_scan (scan env m files c c.packets (turn env m p))
      (λ p'. refill_files env m files (turn env m p'))

-- The group's next matching packet, for a cursor whose pending packet has been taken.
unfoldable pub refill : Env → Matcher → GroupCursor → Progress → Refill
unfolding refill_from
refill env m cursor p = refill_from env m cursor.open_capture cursor.files p
