-- ===== src/Pcap/Fetch/Run/Ends.antt =====
-- The whole fetch of src/pcap/fetch.rs comes to an answer: it neither loops on nor panics.
use evebox.Base.{
  ℕ, zero, suc, ◌+◌, ◌<◌, ◌≤◌, ◌≡◌, ◌≢◌, refl, subst, ◌∙◌, not, Option, none, some, List, [], ◌∷◌,
  map, get_elem?, get_elem?-set_ne, set, if_lem, ◌==◌, ◌&&◌, some_inj, arith, String, all,
}
use evebox.Pcap.Request.{PcapRequest, PcapSource}
use evebox.Pcap.File.{PcapWriter}
use evebox.Pcap.Fetch.{Env, Matcher, Progress, Stop, cancelled, deadline}
use evebox.Pcap.Fetch.Cursor.{
  PendingPacket, GroupCursor, new_cursor, Refill, refilled, refill_failed, refill,
}
use evebox.Pcap.Fetch.Cursor.Reading.{CursorOk, new_cursor-CursorOk, refill_lem}
use evebox.Pcap.Fetch.Merge.{
  Merge, Step, next, ended, cut, failed, panicked, after_refill, push, push_pending, before,
}
use evebox.Pcap.Fetch.Merge.Writing.{CursorsOk}
use evebox.Pcap.Fetch.Merge.Heap.{Absent, weight, Running, StepRuns, after_refill-StepRuns}
use evebox.Pcap.Fetch.Merge.Ends.{Ends, merge-Ends}
use evebox.Pcap.Fetch.Run.{
  FetchResult, panic, Groups, groups, not_listed, Spool, groups_of, matcher_of, and_fill, fill,
  finish_stopped, finish, rounds, run_merge, start_merge, fetch_groups, fetch_checked, check_flow,
  flow_expressions, fetch, is_empty,
}

-- Only groups before the index are on the heap.
abbrev pub Below : ℕ → List (ℕ × ℕ) → Type 0
Below n [] = Unit
Below n ((_, j) ∷ heap) = (j < n) × Below n heap

pub Below-Absent : (n : ℕ) (heap : List (ℕ × ℕ)) → Below n heap → Absent n heap
Below-Absent n [] h = tt
Below-Absent n ((t, j) ∷ heap) h = (λ e. omega (arith, e, h.0), Below-Absent n heap h.1)

Below-suc : (n : ℕ) (heap : List (ℕ × ℕ)) → Below n heap → Below (n + 1) heap
Below-suc n [] h = tt
Below-suc n ((t, j) ∷ heap) h = (omega (arith, h.0), Below-suc n heap h.1)

Below-push : (n t i : ℕ) (heap : List (ℕ × ℕ)) → i < n → Below n heap → Below n (push (t, i) heap)
unfolding push
Below-push n t i [] lt h = (lt, tt)
Below-push n t i ((u, j) ∷ heap) lt h =
    if_lem (Below n) (before (t, i) (u, j)) _ _ (λ _. (lt, h))
      (λ _. (h.0, Below-push n t i heap lt h.1))

-- The cursors from the index on have not been touched.
abbrev pub Waiting : List (List String) → ℕ → List GroupCursor → Type 0
Waiting [] index cursors = Unit
Waiting (g ∷ gs) index cursors =
    (get_elem? cursors index ≡ some (new_cursor g)) × Waiting gs (index + 1) cursors

Waiting-set :
    (gs : List (List String)) (i index : ℕ) (cursors : List GroupCursor) (c : GroupCursor)
    → i < index
    → Waiting gs index cursors
    → Waiting gs index (set cursors i c)
Waiting-set [] i index cursors c lt h = tt
Waiting-set (g ∷ gs) i index cursors c lt h = (
  get_elem?-set_ne cursors i index c (λ e. omega (arith, e, lt)) ∙ h.0,
  Waiting-set gs i (index + 1) cursors c (omega (arith, lt)) h.1,
)

abbrev pub FillRuns : Env → Matcher → List (List String) → ℕ → ℕ → Step → Type 0
FillRuns env m gs index bound (next s) =
    (Running env m s)
    × (weight env s.cursors ≤ bound)
    × (Below index s.heap)
    × Waiting gs index s.cursors
FillRuns env m gs index bound (ended p) = Unit
FillRuns env m gs index bound (cut p) = Unit
FillRuns env m gs index bound (failed e p) = Unit
FillRuns env m gs index bound (panicked p) = ⊥

Below-push_pending :
    (o : Option PendingPacket) (i : ℕ) (heap : List (ℕ × ℕ))
    → Below i heap
    → Below (i + 1) (push_pending o i heap)
unfolding push_pending
Below-push_pending none i heap h = Below-suc i heap h
Below-push_pending (some q) i heap h =
    Below-push (i + 1) q.packet_micros i heap (omega arith) (Below-suc i heap h)

pub first_refill :
    (env : Env) (m : Matcher) (gs : List (List String)) (g : List String) (index bound : ℕ)
    (s : Merge) (r : Refill)
    → Below index s.heap
    → Waiting (g ∷ gs) index s.cursors
    → StepRuns env m bound (after_refill r index s)
    → FillRuns env m gs (index + 1) bound (after_refill r index s)
unfolding after_refill
first_refill env m gs g index bound s (refill_failed e p) b w h = tt
first_refill env m gs g index bound s (refilled c p) b w (run, le) = (
  run,
  le,
  Below-push_pending c.pending index s.heap b,
  Waiting-set gs index (index + 1) s.cursors c (omega arith) w.1,
)

and_fill-FillRuns :
    (env : Env) (m : Matcher) (gs : List (List String)) (index bound : ℕ) (r : Step)
    (f : Merge → Step)
    → FillRuns env m gs index bound r
    → ((s : Merge)
        → Running env m s
        → weight env s.cursors ≤ bound
        → Below index s.heap
        → Waiting gs index s.cursors
        → StepRuns env m bound (f s))
    → StepRuns env m bound (and_fill r f)
unfolding and_fill
and_fill-FillRuns env m gs index bound (next s) f (run, le, b, w) k = k s run le b w
and_fill-FillRuns env m gs index bound (ended p) f h k = tt
and_fill-FillRuns env m gs index bound (cut p) f h k = tt
and_fill-FillRuns env m gs index bound (failed e p) f h k = tt
and_fill-FillRuns env m gs index bound (panicked p) f h k = absurd h

pub fill-StepRuns :
    (env : Env) (m : Matcher) (gs : List (List String)) (index bound : ℕ) (s : Merge)
    → Running env m s
    → weight env s.cursors ≤ bound
    → Below index s.heap
    → Waiting gs index s.cursors
    → StepRuns env m bound (fill env m (map new_cursor gs) index s)
unfolding fill
fill-StepRuns env m [] index bound s run le b w = (run, le)
fill-StepRuns env m (g ∷ gs) index bound s run le b w =
    let c : GroupCursor = new_cursor g in
    let r : Refill = refill env m c s.progress in
    let runs : StepRuns env m bound (after_refill r index s) =
      after_refill-StepRuns env m _ s.progress r index s c bound run.cursors_ok run.distinct
        run.pending (Below-Absent index s.heap b) w.0 (omega (arith, le))
        (refill_lem env m c s.progress (new_cursor-CursorOk env m g)) in
    and_fill-FillRuns env m gs (index + 1) bound (after_refill r index s) _
      (first_refill env m gs g index bound s r b w runs)
      (λ s' run' le' b' w'. fill-StepRuns env m gs (index + 1) bound s' run' le' b' w')

pub weight-rounds :
    (env : Env) (gs : List (List String)) → weight env (map new_cursor gs) + 1 ≡ rounds env gs
unfolding rounds
weight-rounds env [] = omega arith
weight-rounds env (g ∷ gs) = omega (arith, weight-rounds env gs)

run_merge-Ends :
    (env : Env) (m : Matcher) (fuel : ℕ) (r : Step)
    → StepRuns env m fuel r
    → Ends (run_merge env m (suc fuel) r)
unfolding run_merge
run_merge-Ends env m fuel (next s) (run, le) = merge-Ends env m fuel s run le
run_merge-Ends env m fuel (ended p) h = tt
run_merge-Ends env m fuel (cut p) h = tt
run_merge-Ends env m fuel (failed e p) h = tt
run_merge-Ends env m fuel (panicked p) h = absurd h

-- The cursors that a fetch starts with.
pub new-CursorsOk :
    (env : Env) (m : Matcher) (gs : List (List String)) → CursorsOk env m (map new_cursor gs)
new-CursorsOk env m [] i c h = cc
new-CursorsOk env m (g ∷ gs) zero c h =
    subst (CursorOk env m) (some_inj h) (new_cursor-CursorOk env m g)
new-CursorsOk env m (g ∷ gs) (suc i) c h = new-CursorsOk env m gs i c h

Waiting-cons :
    (gs : List (List String)) (index : ℕ) (c : GroupCursor) (cursors : List GroupCursor)
    → Waiting gs index cursors
    → Waiting gs (suc index) (c ∷ cursors)
Waiting-cons [] index c cursors h = tt
Waiting-cons (g ∷ gs) index c cursors h = (
  h.0,
  subst (λ n. Waiting gs n (c ∷ cursors)) {x = suc (index + 1)} (omega arith)
      (Waiting-cons gs (index + 1) c cursors h.1),
)

pub Waiting-new : (gs : List (List String)) → Waiting gs 0 (map new_cursor gs)
Waiting-new [] = tt
Waiting-new (g ∷ gs) = (refl, Waiting-cons gs 0 (new_cursor g) (map new_cursor gs) (Waiting-new gs))

finish_stopped-answers :
    (m : Matcher) (o : Option Stop) (p : Progress) → finish_stopped m o p ≢ panic
unfolding finish_stopped
finish_stopped-answers m (some cancelled) p = λ e. cc
finish_stopped-answers m (some deadline) p = λ e. cc
finish_stopped-answers m none p =
    if_lem (λ r. r ≢ panic) ((p.stats.packets == 0) && not p.stats.truncated) _ _ (λ _ e. cc)
      (λ _ e. cc)

finish-answers : (m : Matcher) (r : Option Step) → Ends r → (finish m r).0 ≢ panic
unfolding finish
finish-answers m none h = absurd h
finish-answers m (some (next s)) h = absurd h
finish-answers m (some (ended p)) h = finish_stopped-answers m p.stopped p
finish-answers m (some (cut p)) h = λ e. cc
finish-answers m (some (failed e p)) h = λ e. cc
finish-answers m (some (panicked p)) h = absurd h

fetch_groups-answers : (env : Env) (m : Matcher) (g : Groups) → (fetch_groups env m g).0 ≢ panic
unfolding fetch_groups start_merge
fetch_groups-answers env m (not_listed e) = λ e. cc
fetch_groups-answers env m (groups gs) =
    let s : Merge = start_merge env gs in
    let w = weight env s.cursors in
    if_lem (λ (r : FetchResult × PcapWriter). r.0 ≢ panic) (all is_empty gs) _ _ (λ _ e. cc)
      (λ _. finish-answers m (run_merge env m (rounds env gs) _) (
        subst (λ n. Ends (run_merge env m n (fill env m s.cursors 0 s))) {x = suc w}
          (omega (arith, weight-rounds env gs))
          (run_merge-Ends env m w _ (
            fill-StepRuns env m gs 0 w s
              (record { cursors_ok = new-CursorsOk env m gs; distinct = tt; pending = tt })
              (omega arith) tt (Waiting-new gs)))))

fetch_checked-answers :
    (env : Env) (s : Spool) (request : PcapRequest) (source : PcapSource) (o : Option String)
    → (fetch_checked env s request source o).0 ≢ panic
unfolding fetch_checked
fetch_checked-answers env s request source (some message) = λ e. cc
fetch_checked-answers env s request source none =
    let m = matcher_of env s request in
    fetch_groups-answers env m (groups_of s source m.start m.end)

-- Every fetch comes to an answer: within the number of packets of its files it ends with statistics
-- or an error, the cursor that is popped always has its pending packet, and nothing panics.
pub fetch_answers :
    (env : Env) (s : Spool) (source : PcapSource) (request : PcapRequest)
    → (fetch env s source request).0 ≢ panic
unfolding fetch
fetch_answers env s source request =
    fetch_checked-answers env s request source (check_flow env (flow_expressions s request.filter))
