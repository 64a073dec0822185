-- ===== src/Agent/Channel/Settling.antt =====
-- The supervisors of src/agent/channel.rs: a worker that settles leaves the map, and no other does.
use evebox.Base.{
  ℕ, ◌≡◌, ◌≢◌, inl, inr, refl, sym, ap, ◌∙◌, Bool, true, false, not, if◌then◌else◌, Bool-cases,
  Option, none, some, some_inj, List, [], ◌∷◌, String, length, lookup, remove, lookup-remove,
  remove-HasDistinctKeys, length-remove-le, get_elem?, modify, get_elem?-modify_inv,
  get_elem?-modify_ne, get_elem?-modify_self, str_eq, eq_iff, list_eq_iff, arith, if_lem, ltb,
}
use evebox.Agent.Protocol.{AgentMessage, PcapResult}
use evebox.Agent.Channel.{
  result_channel_capacity, ActiveJob, WorkerState, working, settled, published, Worker, Connection,
  settle, settle_found, settle_worker, remove_own, publish, publish_found, publish_worker, forward,
  forward_result,
}
use evebox.Agent.Channel.Flags.{Flagged-refl}
use evebox.Agent.Channel.Starting.{IsLinked, IsOwned, Flagged-IsLinked, close-IsLinked}

abbrev pub with_state : WorkerState → Worker → Worker
with_state state w = record w { state = state }

-- Whoever runs after a worker was given a state of rest ran before, and is another.
still_working :
    (ws : List Worker) (k i : ℕ) (state : WorkerState) (w w' : Worker)
    → state ≢ working
    → get_elem? ws k ≡ some w
    → get_elem? (modify k (with_state state) ws) i ≡ some w'
    → w'.state ≡ working
    → (k ≢ i) × (get_elem? ws i ≡ some w')
still_working ws k i state w w' rest here there now =
    let other : k ≢ i = λ e. rest (
      ap (λ (x : Worker). x.state)
        (some_inj (
          sym (get_elem?-modify_self k (with_state state) ws here)
          ∙ ap (get_elem? (modify k (with_state state) ws)) e
          ∙ there))
      ∙ now) in
    (other, sym (get_elem?-modify_ne k i (with_state state) ws other) ∙ there)

-- The workers of the jobs are still there, where another worker changes.
IsOwned-modify :
    (ws : List Worker) (k : ℕ) (state : WorkerState) (id : String) (job : ActiveJob)
    → k ≢ job.cancel
    → IsOwned ws id job
    → IsOwned (modify k (with_state state) ws) id job
IsOwned-modify ws k state id job other (w, here, name, token, now) =
    (w, get_elem?-modify_ne k job.cancel (with_state state) ws other ∙ here, name, token, now)

module _ (c : Connection) (k : ℕ) (w : Worker) (result : PcapResult) (h : IsLinked c) where
  -- The worker has left the map.
  settled_IsLinked :
      get_elem? c.workers k ≡ some w
      → w.state ≡ working
      → IsLinked (record c {
        workers = modify k (with_state (settled result)) c.workers;
        jobs = remove w.id c.jobs;
      })
  settled_IsLinked here now = record {
    distinct = remove-HasDistinctKeys w.id c.jobs h.distinct;
    few = omega (arith, length-remove-le w.id c.jobs, h.few);
    owned = λ id job e. owned id job (sym (lookup-remove w.id id c.jobs h.distinct) ∙ e);
    listed = λ i w' there now'.
        let (other, old) =
          still_working c.workers k i (settled result) w w' (λ e. cc) here there now' in
        listed i w' other (h.listed i w' old now');
    negotiated = λ i w' there.
        let (x, old, _) = get_elem?-modify_inv k i (with_state (settled result)) c.workers there in
        h.negotiated i x old;
    ended = λ e i w' there now'.
        h.ended e i w'
          (still_working c.workers k i (settled result) w w' (λ e. cc) here there now').1 now';
  }
    where
      mine : lookup w.id c.jobs ≡ some (record { token = w.token; cancel = k })
      mine = h.listed k w here now

      owned :
          (id : String) (job : ActiveJob)
          → (if str_eq w.id id then none else lookup id c.jobs) ≡ some job
          → IsOwned (modify k (with_state (settled result)) c.workers) id job
      owned id job e = elim (Bool-cases (str_eq w.id id)) [
        | inl same ↦ cc (rw same at e)
        | inr other ↦
            let old = h.owned id job (rw other at e) in
            IsOwned-modify c.workers k (settled result) id job
              (λ same.
                let this : w ≡ old.0 =
                  some_inj (sym here ∙ ap (get_elem? c.workers) same ∙ old.1) in
                let name = ap (λ (x : Worker). x.id) this ∙ old.2 in
                cc (other, (eq_iff w.id id).1 name))
              old
      ]

      listed :
          (i : ℕ) (w' : Worker)
          → k ≢ i
          → lookup w'.id c.jobs ≡ some (record { token = w'.token; cancel = i })
          → lookup w'.id (remove w.id c.jobs) ≡ some (record { token = w'.token; cancel = i })
      listed i w' other old =
          lookup-remove w.id w'.id c.jobs h.distinct
          ∙ if_lem (λ o. o ≡ some (record { token = w'.token; cancel = i })) (str_eq w.id w'.id) _ _
              (λ same. absurd (
                other (
                  ap (λ (x : ActiveJob). x.cancel)
                    (some_inj (
                      sym mine ∙ ap (λ id. lookup id c.jobs) ((eq_iff w.id w'.id).0 same) ∙ old)))))
              (λ _. old)

settle_worker-IsLinked :
    (state : WorkerState) (k : ℕ) (w : Worker) (result : PcapResult) (c : Connection)
    → get_elem? c.workers k ≡ some w
    → w.state ≡ state
    → IsLinked c
    → IsLinked (settle_worker state k w result c)
unfolding settle_worker remove_own
settle_worker-IsLinked (settled _) k w result c here e h = h
settle_worker-IsLinked (published _) k w result c here e h = h
settle_worker-IsLinked working k w result c here e h =
    rw (h.listed k w here e, (list_eq_iff w.token w.token).1 refl)
      (settled_IsLinked c k w result h here e)

pub settle-IsLinked :
    (k : ℕ) (result : PcapResult) (c : Connection) → IsLinked c → IsLinked (settle k result c)
unfolding settle settle_found
settle-IsLinked k result c h = found (get_elem? c.workers k) refl
  where
    found : (o : Option Worker) → get_elem? c.workers k ≡ o → IsLinked (settle_found o k result c)
    found none e = h
    found (some w) e = settle_worker-IsLinked w.state k w result c e refl h

-- The supervisor has handed the result on: nothing but the state of a settled worker changes.
publish_state-IsLinked :
    (k : ℕ) (w : Worker) (result : PcapResult) (c : Connection) (results : List AgentMessage)
    → get_elem? c.workers k ≡ some w
    → w.state ≡ settled result
    → IsLinked c
    → IsLinked (record c {
      workers = modify k (with_state (published result)) c.workers;
      results = results;
    })
publish_state-IsLinked k w result c results here now h = record {
  distinct = h.distinct;
  few = h.few;
  owned = λ id job e.
      let old = h.owned id job e in
      IsOwned-modify c.workers k (published result) id job
        (λ same.
          let this : w ≡ old.0 = some_inj (sym here ∙ ap (get_elem? c.workers) same ∙ old.1) in
          cc (ap (λ (x : Worker). x.state) this, now, old.4))
        old;
  listed = λ i w' there now'.
      let (_, old) =
        still_working c.workers k i (published result) w w' (λ e. cc) here there now' in
      h.listed i w' old now';
  negotiated = λ i w' there.
      let (x, old, _) = get_elem?-modify_inv k i (with_state (published result)) c.workers there in
      h.negotiated i x old;
  ended = λ e i w' there now'.
      h.ended e i w'
        (still_working c.workers k i (published result) w w' (λ e. cc) here there now').1 now';
}

publish_worker-IsLinked :
    (state : WorkerState) (k : ℕ) (w : Worker) (c : Connection)
    → get_elem? c.workers k ≡ some w
    → w.state ≡ state
    → IsLinked c
    → IsLinked (publish_worker state k w c)
unfolding publish_worker
publish_worker-IsLinked working k w c here e h = h
publish_worker-IsLinked (published _) k w c here e h = h
publish_worker-IsLinked (settled result) k w c here e h =
    if_lem IsLinked (not c.is_open) _ _
      (λ _. publish_state-IsLinked k w result c c.results here e h)
      (λ _.
        if_lem IsLinked (ltb (length c.results) result_channel_capacity) _ _
          (λ _. publish_state-IsLinked k w result c _ here e h) (λ _. h))

pub publish-IsLinked : (k : ℕ) (c : Connection) → IsLinked c → IsLinked (publish k c)
unfolding publish publish_found
publish-IsLinked k c h = found (get_elem? c.workers k) refl
  where
    found : (o : Option Worker) → get_elem? c.workers k ≡ o → IsLinked (publish_found o k c)
    found none e = h
    found (some w) e = publish_worker-IsLinked w.state k w c e refl h

with_results-IsLinked :
    (c : Connection) (results sent : List AgentMessage)
    → IsLinked c
    → IsLinked (record c { results = results; sent = sent })
with_results-IsLinked c results sent h =
    Flagged-IsLinked c _ h refl refl (Flagged-refl c.workers) h.ended

pub forward-IsLinked :
    (is_written : Bool) (c : Connection) → IsLinked c → IsLinked (forward is_written c)
unfolding forward forward_result
forward-IsLinked is_written c h = queued is_written c.results
  where
    queued :
        (is_written : Bool) (results : List AgentMessage)
        → IsLinked (forward_result results is_written c)
    queued is_written [] = h
    queued true (m ∷ rest) = with_results-IsLinked c rest _ h
    queued false (m ∷ rest) = close-IsLinked _ (with_results-IsLinked c rest c.sent h)
