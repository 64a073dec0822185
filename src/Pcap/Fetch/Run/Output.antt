-- ===== src/Pcap/Fetch/Run/Output.antt =====
-- The whole fetch of src/pcap/fetch.rs: what its answer says of the output.
use evebox.Base.{
  ℕ, zero, suc, ◌+◌, ◌%◌, ◌^◌, ◌<◌, ◌≤◌, ◌≡◌, refl, ap, subst, ◌∙◌, inl, Bool, true, false, not,
  Option, none, some, List, [], ◌∷◌, map, length, String, if_lem, some_inj, All, arith, all, ◌==◌,
  ◌&&◌,
}
use evebox.Pcap.Request.{FetchStats, u64_max, PcapRequest, PcapSource}
use evebox.Pcap.File.{Packet, PcapWriter}
use evebox.Pcap.File.Stream.{stream}
use evebox.Pcap.Fetch.{
  Env, no_candidate_files, no_match, format, io, Stop, cancelled, deadline, Matcher, Progress,
}
use evebox.Pcap.Fetch.Cursor.{new_cursor, refill}
use evebox.Pcap.Fetch.Cursor.Opening.{Matches}
use evebox.Pcap.Fetch.Cursor.Reading.{CursorOk, new_cursor-CursorOk, refill_lem}
use evebox.Pcap.Fetch.Merge.{Merge, Step, next, ended, cut, failed, panicked, after_refill}
use evebox.Pcap.Fetch.Merge.Writing.{
  linktype_of, IsWithin, Output, CursorsOk, MergeOk, HasOutput, StepOk, after_refill-StepOk,
}
use evebox.Pcap.Fetch.Merge.Output.{ResultOk, merge-ResultOk}
use evebox.Pcap.Fetch.Run.{
  FetchResult, ok, err, panic, Groups, groups, not_listed, Spool, groups_of, matcher_of,
  start_progress, and_fill, fill, finish_stopped, finish, run_merge, start_merge, fetch_groups,
  fetch_checked, fetch, nothing_found, unmatched, rounds, is_empty, check_flow, flow_expressions,
}

-- The statistics describe the output, which is a capture of packets that were asked for.
abbrev pub IsDescribed : Env → Matcher → FetchStats → PcapWriter → Type 0
IsDescribed env m stats w =
    (linktype : ℕ) × (ws : List Packet) × (w.out ≡ stream linktype ws)
    × (All (λ p. Matches env m linktype p) ws)
    × (stats.packets ≡ length ws)
    × (stats.bytes ≡ length w.out % 2 ^ 64)
    × (IsWithin m.max_bytes (length w.out))

-- The same within a limit, where the bytes are counted without wrapping.
abbrev pub IsCaptureOf : Env → Matcher → FetchStats → PcapWriter → Type 0
IsCaptureOf env m stats w =
    (linktype : ℕ) × (ws : List Packet) × (w.out ≡ stream linktype ws)
    × (All (λ p. Matches env m linktype p) ws)
    × (stats.packets ≡ length ws)
    × (stats.bytes ≡ length w.out)
    × (length w.out ≤ m.max_bytes)

pub IsDescribed-IsCaptureOf :
    (env : Env) (m : Matcher) (stats : FetchStats) (w : PcapWriter)
    → m.max_bytes < u64_max
    → IsDescribed env m stats w
    → IsCaptureOf env m stats w
IsDescribed-IsCaptureOf env m stats w small
      (linktype, ws, as_stream, matching, packets, bytes, within) =
    let bounded : length w.out ≤ m.max_bytes = ground (arith, within, small) in
    (linktype, ws, as_stream, matching, packets, omega (arith, bytes, bounded, small), bounded)

-- What the caller may rely on, for each answer.
abbrev pub FetchOk : Env → Matcher → FetchResult × PcapWriter → Type 0
FetchOk env m (ok stats, w) = IsDescribed env m stats w
FetchOk env m (err (io _), w) = Unit
FetchOk env m (err no_candidate_files, w) = w.out ≡ []
FetchOk env m (err (no_match stats), w) = (w.out ≡ []) × (stats.packets ≡ 0) × (stats.bytes ≡ 0)
FetchOk env m (err (format message), w) = w.out ≡ []
FetchOk env m (panic, w) = Unit

and_fill-StepOk :
    (env : Env) (m : Matcher) (r : Step) (f : Merge → Step)
    → StepOk env m r
    → ((s : Merge) → MergeOk env m s → StepOk env m (f s))
    → StepOk env m (and_fill r f)
unfolding and_fill
and_fill-StepOk env m (next s) f h k = k s h
and_fill-StepOk env m (ended p) f h k = h
and_fill-StepOk env m (cut p) f h k = h
and_fill-StepOk env m (failed e p) f h k = tt
and_fill-StepOk env m (panicked p) f h k = tt

fill-StepOk :
    (env : Env) (m : Matcher) (gs : List (List String)) (index : ℕ) (s : Merge)
    → MergeOk env m s
    → StepOk env m (fill env m (map new_cursor gs) index s)
unfolding fill
fill-StepOk env m [] index s h = h
fill-StepOk env m (g ∷ gs) index s ((ws, out), all) =
    and_fill-StepOk env m (after_refill (refill env m (new_cursor g) s.progress) index s) _
      (after_refill-StepOk env m _ s.progress (refill env m (new_cursor g) s.progress) index s ws
        out all (refill_lem env m (new_cursor g) s.progress (new_cursor-CursorOk env m g)))
      (λ s' h'. fill-StepOk env m gs (index + 1) s' h')

run_merge-ResultOk :
    (env : Env) (m : Matcher) (fuel : ℕ) (r : Step)
    → StepOk env m r
    → ResultOk env m (run_merge env m fuel r)
unfolding run_merge
run_merge-ResultOk env m fuel (next s) h = merge-ResultOk env m fuel s h
run_merge-ResultOk env m fuel (ended p) h = h
run_merge-ResultOk env m fuel (cut p) h = h
run_merge-ResultOk env m fuel (failed e p) h = tt
run_merge-ResultOk env m fuel (panicked p) h = tt

pub start-Output :
    (env : Env) (m : Matcher) (gs : List (List String))
    → (let s = start_merge env gs in Output env m s.output_linktype [] s.progress)
unfolding start_merge start_progress
start-Output env m gs = record {
  wrote = record { as_stream = refl; begun = refl; counted = refl };
  counted = refl;
  measured = refl;
  bounded = inl (omega arith);
  matching = tt;
  unset = λ _. refl;
}

start-MergeOk :
    (env : Env) (m : Matcher) (gs : List (List String)) → MergeOk env m (start_merge env gs)
unfolding start_merge
start-MergeOk env m gs = (([], start-Output env m gs), new-CursorsOk gs)
  where
    new-CursorsOk : (gs : List (List String)) → CursorsOk env m (map new_cursor gs)
    new-CursorsOk [] i c h = cc
    new-CursorsOk (g ∷ gs) zero c h =
        subst (CursorOk env m) (some_inj h) (new_cursor-CursorOk env m g)
    new-CursorsOk (g ∷ gs) (suc i) c h = new-CursorsOk gs i c h

Output-IsDescribed :
    (env : Env) (m : Matcher) (linktype : Option ℕ) (ws : List Packet) (p : Progress)
    (stats : FetchStats)
    → stats.packets ≡ p.stats.packets
    → stats.bytes ≡ p.stats.bytes
    → Output env m linktype ws p
    → IsDescribed env m stats p.writer
Output-IsDescribed env m linktype ws p stats e f o = (
  linktype_of linktype,
  ws,
  o.wrote.as_stream,
  o.matching,
  e ∙ o.counted,
  f ∙ o.measured,
  o.bounded,
)

-- Nothing has been written where no packet was counted.
no_packets :
    (env : Env) (m : Matcher) (linktype : Option ℕ) (ws : List Packet) (p : Progress)
    → Output env m linktype ws p
    → p.stats.packets ≡ 0
    → p.writer.out ≡ []
no_packets env m linktype [] p o e = o.wrote.as_stream
no_packets env m linktype (w ∷ ws) p o e = absurd (omega (arith, e, o.counted))

unmatched-FetchOk :
    (env : Env) (m : Matcher) (p : Progress)
    → p.writer.out ≡ []
    → p.stats.packets ≡ 0
    → p.stats.bytes ≡ 0
    → FetchOk env m (err (unmatched p), p.writer)
unfolding unmatched
unmatched-FetchOk env m p out packets bytes =
    if_lem (λ e. FetchOk env m (err e, p.writer)) (p.stats.files_scanned == 0) no_candidate_files
      (no_match p.stats) (λ _. out) (λ _. (out, packets, bytes))

nothing_found-FetchOk :
    (env : Env) (m : Matcher) (e : Option String) (b : Bool) (f : Option String) (p : Progress)
    → p.writer.out ≡ []
    → p.stats.packets ≡ 0
    → p.stats.bytes ≡ 0
    → FetchOk env m (err (nothing_found e b f p), p.writer)
unfolding nothing_found
nothing_found-FetchOk env m none b f p = unmatched-FetchOk env m p
nothing_found-FetchOk env m (some e) true f p = unmatched-FetchOk env m p
nothing_found-FetchOk env m (some e) false none p = unmatched-FetchOk env m p
nothing_found-FetchOk env m (some e) false (some message) p = λ out _ _. out

finish_stopped-FetchOk :
    (env : Env) (m : Matcher) (o : Option Stop) (p : Progress)
    → HasOutput env m p
    → FetchOk env m (finish_stopped m o p, p.writer)
unfolding finish_stopped
finish_stopped-FetchOk env m (some cancelled) p (l, ws, out) =
    Output-IsDescribed env m l ws p p.stats refl refl out
finish_stopped-FetchOk env m (some deadline) p (l, ws, out) =
    let stats : FetchStats = p.stats in
    Output-IsDescribed env m l ws p (record stats { truncated = true }) refl refl out
finish_stopped-FetchOk env m none p (l, ws, out) =
    if_lem (λ r. FetchOk env m (r, p.writer)) ((p.stats.packets == 0) && not p.stats.truncated) _ _
      (λ empty.
        let packets : p.stats.packets ≡ 0 = ground arith in
        let nothing = no_packets env m l ws p out packets in
        nothing_found-FetchOk env m m.expression p.compiled_any p.first_error p nothing packets
          (out.measured ∙ ap (λ b. length b % 2 ^ 64) nothing))
      (λ _. Output-IsDescribed env m l ws p p.stats refl refl out)

finish-FetchOk :
    (env : Env) (m : Matcher) (r : Option Step) → ResultOk env m r → FetchOk env m (finish m r)
unfolding finish
finish-FetchOk env m none h = tt
finish-FetchOk env m (some (next s)) h = tt
finish-FetchOk env m (some (ended p)) h = finish_stopped-FetchOk env m p.stopped p h
finish-FetchOk env m (some (cut p)) (l, ws, out) =
    Output-IsDescribed env m l ws p p.stats refl refl out
finish-FetchOk env m (some (failed e p)) h = tt
finish-FetchOk env m (some (panicked p)) h = tt

fetch_groups-FetchOk : (env : Env) (m : Matcher) (g : Groups) → FetchOk env m (fetch_groups env m g)
unfolding fetch_groups
fetch_groups-FetchOk env m (not_listed e) = tt
fetch_groups-FetchOk env m (groups gs) =
    if_lem (FetchOk env m) (all is_empty gs) _ _ (λ _. refl)
      (λ _. finish-FetchOk env m (run_merge env m (rounds env gs) _) (
        run_merge-ResultOk env m (rounds env gs) _
          (fill-StepOk env m gs 0 (start_merge env gs) (start-MergeOk env m gs))))

fetch_checked-FetchOk :
    (env : Env) (s : Spool) (source : PcapSource) (request : PcapRequest) (o : Option String)
    → FetchOk env (matcher_of env s request) (fetch_checked env s request source o)
unfolding fetch_checked matcher_of
fetch_checked-FetchOk env s source request (some message) = refl
fetch_checked-FetchOk env s source request none =
    let m = matcher_of env s request in
    fetch_groups-FetchOk env m (groups_of s source m.start m.end)

-- What a fetch answers describes its output. Statistics mean that the output is a capture of one link
-- type whose packets all lie in the requested window, where there is one, and pass the filter compiled
-- for that link type, that they count its packets, and its bytes in 64 bits, and that it is within the
-- limit, unless the limit is 2^64 - 1, which stands for none. Every error but one of the consumer, of
-- the file descriptors or of the directory means that the output is empty.
pub fetch-FetchOk :
    (env : Env) (s : Spool) (source : PcapSource) (request : PcapRequest)
    → FetchOk env (matcher_of env s request) (fetch env s source request)
unfolding fetch
fetch-FetchOk env s source request =
    fetch_checked-FetchOk env s source request (check_flow env (flow_expressions s request.filter))
