-- ===== src/Pcap/Fetch/Run.antt =====
-- The function `fetch` of src/pcap/fetch.rs: the matcher, the first fill of the heap, the merge, and
-- what is answered. The files of a spool directory and the text of a flow filter are parameters.
pub mod Output
pub mod Ends
pub mod Filling
pub mod Order
use evebox.Base.{
  ℕ, zero, suc, ◌+◌, Bool, true, false, not, ◌&&◌, ◌||◌, ◌==◌, Option, none, some, List, [], ◌∷◌,
  map, String, length, if◌then◌else◌, all,
}
use evebox.Pcap.Request.{
  FetchStats, default_stats, u64_max, PcapFilter, expression, flow, FlowSelector, PcapSource, spool,
  files, SpoolConfig, PcapRequest,
}
use evebox.Pcap.File.{Packet, PcapWriter, new_writer}
use evebox.Pcap.Fetch.{
  CompileResult, compiled, compile_failed, Env, FetchError, no_candidate_files, no_match, format,
  io, Stop, cancelled, deadline, Matcher, Progress,
}
use evebox.Pcap.Fetch.Cursor.{GroupCursor, new_cursor, refill}
use evebox.Pcap.Fetch.Cursor.Reading.{in_files}
use evebox.Pcap.Fetch.Merge.{Merge, Step, next, ended, cut, failed, panicked, after_refill, merge}

pub data FetchResult : Type 0 where
  ok : FetchStats → FetchResult
  err : FetchError → FetchResult
  panic : FetchResult

-- The groups of files to merge, or why they could not be listed.
pub data Groups : Type 0 where
  groups : List (List String) → Groups
  not_listed : (io_error : String) → Groups

pub record Spool : Type 0 where
  pub load_files : SpoolConfig → (start end : ℕ) → Groups
  -- a flow filter, wrapped for VLAN tags and bare
  pub to_bpf : FlowSelector → String × String

unfoldable pub groups_of : Spool → PcapSource → ℕ → ℕ → Groups
groups_of env (spool config) start end = env.load_files config start end
groups_of env (files paths) start end = groups (map (λ path. path ∷ []) paths)

has_value : Option ℕ → Bool
has_value none = false
has_value (some _) = true

value_or : ℕ → Option ℕ → ℕ
value_or default none = default
value_or default (some n) = n

user_expression : Option PcapFilter → Option String
user_expression (some (expression text)) = some text
user_expression _ = none

flow_expressions : Spool → Option PcapFilter → Option (String × String)
flow_expressions s (some (flow selector)) = some (s.to_bpf selector)
flow_expressions _ _ = none

unfoldable pub matcher_of : Env → Spool → PcapRequest → Matcher
unfolding has_value value_or user_expression flow_expressions
matcher_of env s request = record {
  expression = user_expression request.filter;
  flow_expressions = flow_expressions s request.filter;
  gate = has_value request.start || has_value request.end;
  start = value_or 0 request.start;
  end = value_or u64_max request.end;
  started = env.now 0;
  deadline = request.limits.deadline;
  flush_interval = request.limits.flush_interval;
  max_bytes = request.limits.max_bytes;
}

unfoldable pub start_progress : Env → Progress
start_progress env = record {
  tick = 1;
  stopped = none;
  write_credit = 0;
  last_flush = env.now 0;
  compiled_any = false;
  first_error = none;
  stats = default_stats;
  writer = new_writer;
}

and_fill : Step → (Merge → Step) → Step
and_fill (next s) f = f s
and_fill (ended p) f = ended p
and_fill (cut p) f = cut p
and_fill (failed e p) f = failed e p
and_fill (panicked p) f = panicked p

-- Every cursor is refilled once, in the order of the groups.
unfoldable pub fill : Env → Matcher → List GroupCursor → ℕ → Merge → Step
unfolding refill after_refill and_fill
fill env m [] index s = next s
fill env m (cursor ∷ cursors) index s =
    and_fill (after_refill (refill env m cursor s.progress) index s)
      (fill env m cursors (index + 1))

is_empty : List String → Bool
is_empty [] = true
is_empty (_ ∷ _) = false

-- A user expression that compiled nowhere, no file that could be opened, or nothing that matched.
unmatched : Progress → FetchError
unmatched p = if p.stats.files_scanned == 0 then no_candidate_files else no_match p.stats

nothing_found : Option String → Bool → Option String → Progress → FetchError
unfolding unmatched
nothing_found none compiled_any first_error p = unmatched p
nothing_found (some _) true first_error p = unmatched p
nothing_found (some _) false none p = unmatched p
nothing_found (some _) false (some message) p = format message

finish_stopped : Matcher → Option Stop → Progress → FetchResult
unfolding nothing_found
finish_stopped m (some cancelled) p = ok p.stats
finish_stopped m (some deadline) p = let stats = p.stats in ok (record stats { truncated = true })
finish_stopped m none p =
    if (p.stats.packets == 0) && not p.stats.truncated
    then err (nothing_found m.expression p.compiled_any p.first_error p)
    else ok p.stats

-- What is answered at the end of the loop, with what the output got.
unfoldable pub finish : Matcher → Option Step → FetchResult × PcapWriter
unfolding finish_stopped
finish m none = (panic, new_writer)
finish m (some (next s)) = (panic, s.progress.writer)
finish m (some (ended p)) = (finish_stopped m p.stopped p, p.writer)
finish m (some (cut p)) = (ok p.stats, p.writer)
finish m (some (failed e p)) = (err (io e), p.writer)
finish m (some (panicked p)) = (panic, p.writer)

-- The number of packets in the files bounds the number of rounds.
unfoldable pub rounds : Env → List (List String) → ℕ
rounds env [] = 1
rounds env (group ∷ rest) = length (in_files env group) + rounds env rest

run_merge : Env → Matcher → ℕ → Step → Option Step
unfolding merge
run_merge env m fuel (next s) = merge env m fuel s
run_merge env m fuel (ended p) = some (ended p)
run_merge env m fuel (cut p) = some (cut p)
run_merge env m fuel (failed e p) = some (failed e p)
run_merge env m fuel (panicked p) = some (panicked p)

pub start_merge : Env → List (List String) → Merge
unfolding start_progress
start_merge env gs = record {
  cursors = map new_cursor gs;
  heap = [];
  output_linktype = none;
  progress = start_progress env;
}

fetch_groups : Env → Matcher → Groups → FetchResult × PcapWriter
unfolding start_merge fill run_merge finish rounds is_empty
fetch_groups env m (not_listed e) = (err (io e), new_writer)
fetch_groups env m (groups gs) =
    let s = start_merge env gs in
    if all is_empty gs
    then (err no_candidate_files, new_writer)
    else finish m (run_merge env m (rounds env gs) (fill env m s.cursors 0 s))

-- A flow filter must compile for Ethernet, the link type 1, before any file is touched.
check_flow : Env → Option (String × String) → Option String
check_flow env none = none
check_flow env (some (wrapped, base)) = elim (env.compile 1 wrapped) [
  | compiled _ ↦ none
  | compile_failed message ↦ some message
]

fetch_checked : Env → Spool → PcapRequest → PcapSource → Option String → FetchResult × PcapWriter
unfolding fetch_groups groups_of matcher_of
fetch_checked env s request source (some message) = (err (format message), new_writer)
fetch_checked env s request source none =
    let m = matcher_of env s request in fetch_groups env m (groups_of s source m.start m.end)

unfoldable pub fetch : Env → Spool → PcapSource → PcapRequest → FetchResult × PcapWriter
unfolding check_flow fetch_checked flow_expressions
fetch env s source request =
    fetch_checked env s request source (check_flow env (flow_expressions s request.filter))
