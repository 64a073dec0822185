-- ===== src/Pcap/Fetch.antt =====
-- src/pcap/fetch.rs: the blocking fetch. This file has what the merge is made of; the cursors of the
-- rotation groups are in Fetch/Cursor, the merge in Fetch/Merge.
--
-- What is not the program's is a parameter, `Env`: opening a capture, compiling and running a
-- filter (libpcap), the clock, the cancellation token and the consumer of the output. The clock,
-- the token and the consumer answer differently from call to call, so they take the number of
-- calls made so far, `tick`.
pub mod Cursor
pub mod Merge
pub mod Keeps
pub mod Run
pub mod Examples
use evebox.Base.{
  ℕ, zero, suc, ◌+◌, ◌-◌, ◌*◌, ◌^◌, ◌<◌, ◌≤◌, min, Bool, true, false, not, ◌&&◌, ◌||◌, Option, none,
  some, List, [], ◌∷◌, String, ltb, leb, if◌then◌else◌,
}
use evebox.Pcap.Request.{FetchStats, u64_max}
use evebox.Pcap.File.{ℤ, pos, negsuc, Packet, PcapWriter}

abbrev pub BpfProgram : Type 0
BpfProgram = Packet → Bool

pub data CompileResult : Type 0 where
  compiled : BpfProgram → CompileResult
  compile_failed : (message : String) → CompileResult

-- What `pcap::Capture::from_file` answers. A capture has a link type and the packets that can be
-- read; every error of `next_packet` ends a file as its end does.
pub data FileResult : Type 0 where
  capture : (linktype : ℕ) → List Packet → FileResult
  unreadable : FileResult
  fd_exhausted : (message : String) → FileResult

pub record Env : Type 0 where
  pub from_file : String → FileResult
  pub compile : (linktype : ℕ) → (expression : String) → CompileResult
  pub now : (tick : ℕ) → ℕ
  pub is_cancelled : (tick : ℕ) → Bool
  pub accepts : (tick : ℕ) → Bool

pub data FetchError : Type 0 where
  no_candidate_files : FetchError
  no_match : FetchStats → FetchError
  format : String → FetchError
  io : String → FetchError

pub data Stop : Type 0 where
  cancelled deadline : Stop

-- What is fixed for one fetch: the matcher of the source, and the limits.
pub record Matcher : Type 0 where
  pub expression : Option String
  pub flow_expressions : Option (String × String)
  pub gate : Bool
  pub start : ℕ
  pub end : ℕ
  pub started : ℕ
  pub deadline : Option ℕ
  pub flush_interval : ℕ
  pub max_bytes : ℕ

-- The state that every cursor shares: the control, the flusher, the tracker of user expressions,
-- the statistics and the writer.
pub record Progress : Type 0 where
  pub tick : ℕ
  pub stopped : Option Stop
  pub write_credit : ℕ
  pub last_flush : ℕ
  pub compiled_any : Bool
  pub first_error : Option String
  pub stats : FetchStats
  pub writer : PcapWriter

-- `u64::try_from(secs)`, `checked_mul` and `checked_add` of the time gate.
unfoldable pub checked_micros : ℤ → ℤ → Option ℕ
checked_micros (pos secs) (pos micros) =
    if leb (secs * 1_000_000 + micros) u64_max then some (secs * 1_000_000 + micros) else none
checked_micros _ _ = none

unfoldable pub unsigned : ℤ → ℕ
unsigned (pos n) = n
unsigned (negsuc _) = 0

-- The key of the heap, saturated.
unfoldable pub ts_micros : Packet → ℕ
unfolding unsigned
ts_micros packet =
    min (min (unsigned packet.tv_sec * 1_000_000) u64_max + unsigned packet.tv_usec) u64_max

unfoldable pub is_inside : ℕ → ℕ → Option ℕ → Bool
is_inside start end none = false
is_inside start end (some timestamp) = not (ltb timestamp start) && not (ltb end timestamp)

abbrev runs : Option BpfProgram → Packet → Bool
runs none packet = true
runs (some program) packet = program packet

-- The gate on the packet's time and the filter, as refill applies them.
unfoldable pub passes : Matcher → Option BpfProgram → Packet → Bool
unfolding is_inside checked_micros
passes m program packet =
    (not m.gate || is_inside m.start m.end (checked_micros packet.tv_sec packet.tv_usec))
    && runs program packet

-- `Control::live`: the deadline counts the time that was not spent in writes.
deadline_passed : Option ℕ → ℕ → Bool
deadline_passed none scanned = false
deadline_passed (some limit) scanned = leb limit scanned

unfoldable pub live : Env → Matcher → Progress → Progress
unfolding deadline_passed
live env m p = elim p.stopped [
  | some stop ↦ p
  | none ↦
      if env.is_cancelled p.tick
      then record p { stopped = some cancelled; tick = p.tick + 1 }
      else if deadline_passed m.deadline (env.now (p.tick + 1) - m.started - p.write_credit)
      then record p { stopped = some deadline; tick = p.tick + 2 }
      else record p { tick = p.tick + 2 }
]

pub data Turn : Type 0 where
  go : Progress → Turn
  halt : Progress → Turn
  turn_failed : (io_error : String) → Progress → Turn

-- `Flusher::maybe_flush`: the four calls are the clock, the clock, the flush and the clock twice.
unfoldable pub maybe_flush : Env → Matcher → Progress → Turn
maybe_flush env m p =
    let t = p.tick in
    if ltb (env.now t - p.last_flush) m.flush_interval
    then go (record p { tick = t + 1 })
    else if not (env.accepts (t + 2))
    then turn_failed "flush" (record p { tick = t + 3 })
    else go (record p {
      tick = t + 5;
      write_credit = p.write_credit + (env.now (t + 3) - env.now (t + 1));
      last_flush = env.now (t + 4);
    })

turn_live : Env → Matcher → Option Stop → Progress → Turn
unfolding maybe_flush
turn_live env m none p = maybe_flush env m p
turn_live env m (some stop) p = halt p

-- What both loops begin with: stop when the fetch should stop, flush when it is time.
unfoldable pub turn : Env → Matcher → Progress → Turn
unfolding turn_live live
turn env m p = let p' = live env m p in turn_live env m p'.stopped p'
