-- ===== src/Pcap/Fetch/Run/Order.antt =====
-- The whole fetch of src/pcap/fetch.rs writes in the order of time: the fill before the loop.
use evebox.Base.{
  ℕ, zero, suc, ◌≡◌, refl, subst, ap, not, Option, none, some, List, [], ◌∷◌, map, get_elem?,
  length, if_lem, ◌==◌, ◌&&◌, some_inj, arith, String, all, All,
}
use evebox.Pcap.Request.{FetchStats, PcapRequest, PcapSource}
use evebox.Pcap.File.{Packet, PcapWriter}
use evebox.Pcap.File.Stream.{stream}
use evebox.Pcap.Fetch.{Env, Matcher, Progress, Stop, cancelled, deadline}
use evebox.Pcap.Fetch.Cursor.{GroupCursor, new_cursor}
use evebox.Pcap.Fetch.Cursor.Reading.{in_files}
use evebox.Pcap.Fetch.Merge.{Step, next, ended, cut, failed, panicked}
use evebox.Pcap.Fetch.Merge.Writing.{Output, linktype_of}
use evebox.Pcap.Fetch.Merge.Heap.{weight}
use evebox.Pcap.Fetch.Merge.Sorted.{IsOrdered}
use evebox.Pcap.Fetch.Merge.Refilled.{Follows}
use evebox.Pcap.Fetch.Merge.Ordered.{ResultOrdered, merge-ResultOrdered}
use evebox.Pcap.Fetch.Run.{
  FetchResult, ok, err, panic, Groups, groups, not_listed, Spool, groups_of, matcher_of,
  start_progress, finish_stopped, finish, rounds, run_merge, start_merge, fetch_groups,
  fetch_checked, check_flow, flow_expressions, fetch, is_empty,
}
use evebox.Pcap.Fetch.Run.Output.{start-Output}
use evebox.Pcap.Fetch.Run.Ends.{new-CursorsOk, Waiting-new}
use evebox.Pcap.Fetch.Run.Filling.{Filled, StartOrdered, fill-StartOrdered}

-- The files of every group hold their packets in the order of time, with times and lengths that fit
-- into the record of a packet.
abbrev pub GroupsOrdered : Env → Groups → Type 0
GroupsOrdered env (not_listed e) = Unit
GroupsOrdered env (groups gs) = All (λ g. IsOrdered (in_files env g)) gs

new_cursors :
    (env : Env) (gs : List (List String)) (i : ℕ) (c : GroupCursor)
    → GroupsOrdered env (groups gs)
    → get_elem? (map new_cursor gs) i ≡ some c
    → (c.pending ≡ none) × (Follows env [] c)
new_cursors env [] i c h e = cc
new_cursors env (g ∷ gs) zero c h e =
    subst (λ (d : GroupCursor). (d.pending ≡ none) × (Follows env [] d)) (some_inj e)
      (refl, (h.0, tt))
new_cursors env (g ∷ gs) (suc i) c h e = new_cursors env gs i c h.1 e

length-new_cursors : (gs : List (List String)) → length (map new_cursor gs) ≡ length gs
length-new_cursors [] = refl
length-new_cursors (g ∷ gs) = ap suc (length-new_cursors gs)

start-Filled :
    (env : Env) (m : Matcher) (gs : List (List String))
    → GroupsOrdered env (groups gs)
    → Filled env m gs 0 (weight env (map new_cursor gs)) (start_merge env gs)
unfolding start_merge start_progress
start-Filled env m gs sorted = record {
  running = record { cursors_ok = new-CursorsOk env m gs; distinct = tt; pending = tt };
  bounded = omega arith;
  below = tt;
  waiting = Waiting-new gs;
  count = omega (arith, length-new_cursors gs);
  output = start-Output env m gs;
  in_order = record {
    written_order = tt;
    follows = λ i c e. (new_cursors env gs i c sorted e).1;
    full = λ i c q e pend. cc ((new_cursors env gs i c sorted e).0, pend);
    heap_order = tt;
    done = λ i c lt e. absurd (omega (arith, lt));
  };
}

run_merge-ResultOrdered :
    (env : Env) (m : Matcher) (fuel : ℕ) (r : Step)
    → StartOrdered env m r
    → ResultOrdered env m (run_merge env m fuel r)
unfolding run_merge
run_merge-ResultOrdered env m fuel (next s) h = merge-ResultOrdered env m fuel s [] h.0 h.1 h.2
run_merge-ResultOrdered env m fuel (ended p) h = absurd h
run_merge-ResultOrdered env m fuel (cut p) h = absurd h
run_merge-ResultOrdered env m fuel (failed e p) h = tt
run_merge-ResultOrdered env m fuel (panicked p) h = absurd h

-- The output is a capture whose packets stand in the order of time. They fit their records, so that
-- the times that are ordered are those in the bytes of the output.
abbrev pub IsCaptureInOrder : PcapWriter → Type 0
IsCaptureInOrder w =
    (linktype : ℕ) × (ws : List Packet) × (w.out ≡ stream linktype ws) × (IsOrdered ws)

abbrev pub AnswerOrdered : FetchResult × PcapWriter → Type 0
AnswerOrdered (ok stats, w) = IsCaptureInOrder w
AnswerOrdered (err e, w) = Unit
AnswerOrdered (panic, w) = Unit

capture_in_order :
    (env : Env) (m : Matcher) (linktype : Option ℕ) (ws : List Packet) (p : Progress)
    (stats : FetchStats)
    → Output env m linktype ws p
    → IsOrdered ws
    → AnswerOrdered (ok stats, p.writer)
capture_in_order env m linktype ws p stats out sorted =
    (linktype_of linktype, ws, out.wrote.as_stream, sorted)

finish_stopped-AnswerOrdered :
    (env : Env) (m : Matcher) (linktype : Option ℕ) (ws : List Packet) (o : Option Stop)
    (p : Progress)
    → Output env m linktype ws p
    → IsOrdered ws
    → AnswerOrdered (finish_stopped m o p, p.writer)
unfolding finish_stopped
finish_stopped-AnswerOrdered env m l ws (some cancelled) p out sorted =
    capture_in_order env m l ws p p.stats out sorted
finish_stopped-AnswerOrdered env m l ws (some deadline) p out sorted =
    capture_in_order env m l ws p p.stats out sorted
finish_stopped-AnswerOrdered env m l ws none p out sorted =
    if_lem (λ r. AnswerOrdered (r, p.writer)) ((p.stats.packets == 0) && not p.stats.truncated) _ _
      (λ _. tt) (λ _. capture_in_order env m l ws p p.stats out sorted)

finish-AnswerOrdered :
    (env : Env) (m : Matcher) (r : Option Step) → ResultOrdered env m r → AnswerOrdered (finish m r)
unfolding finish
finish-AnswerOrdered env m none h = tt
finish-AnswerOrdered env m (some (next s)) h = tt
finish-AnswerOrdered env m (some (ended p)) (l, ws, out, sorted) =
    finish_stopped-AnswerOrdered env m l ws p.stopped p out sorted
finish-AnswerOrdered env m (some (cut p)) (l, ws, out, sorted) =
    capture_in_order env m l ws p p.stats out sorted
finish-AnswerOrdered env m (some (failed e p)) h = tt
finish-AnswerOrdered env m (some (panicked p)) h = tt

fetch_groups-AnswerOrdered :
    (env : Env) (m : Matcher) (g : Groups)
    → GroupsOrdered env g
    → AnswerOrdered (fetch_groups env m g)
unfolding fetch_groups start_merge
fetch_groups-AnswerOrdered env m (not_listed e) h = tt
fetch_groups-AnswerOrdered env m (groups gs) h =
    if_lem AnswerOrdered (all is_empty gs) _ _ (λ _. tt)
      (λ _. finish-AnswerOrdered env m (run_merge env m (rounds env gs) _) (
        run_merge-ResultOrdered env m (rounds env gs) _
          (fill-StartOrdered env m gs 0 _ (start_merge env gs) (start-Filled env m gs h))))

fetch_checked-AnswerOrdered :
    (env : Env) (s : Spool) (request : PcapRequest) (source : PcapSource) (o : Option String)
    → (let m = matcher_of env s request in GroupsOrdered env (groups_of s source m.start m.end))
    → AnswerOrdered (fetch_checked env s request source o)
unfolding fetch_checked matcher_of
fetch_checked-AnswerOrdered env s request source (some message) h = tt
fetch_checked-AnswerOrdered env s request source none h =
    let m = matcher_of env s request in
    fetch_groups-AnswerOrdered env m (groups_of s source m.start m.end) h

-- The packets of the output stand in the order of time: where each group of files, read one file
-- after the other, holds its packets in that order, with times and lengths below 2^32, a
-- fetch that answers with statistics has merged the groups into one capture of
-- packets with such times and lengths, ordered by their time in microseconds.
pub fetch-AnswerOrdered :
    (env : Env) (s : Spool) (source : PcapSource) (request : PcapRequest)
    → (let m = matcher_of env s request in GroupsOrdered env (groups_of s source m.start m.end))
    → AnswerOrdered (fetch env s source request)
unfolding fetch
fetch-AnswerOrdered env s source request h =
    fetch_checked-AnswerOrdered env s request source
      (check_flow env (flow_expressions s request.filter)) h
