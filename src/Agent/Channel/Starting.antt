-- ===== src/Agent/Channel/Starting.antt =====
-- The jobs of one connection of src/agent/channel.rs: the map and the workers fit together.
use evebox.Base.{
  ℕ, ◌<◌, ◌≤◌, ◌≡◌, ◌⊎◌, inl, inr, refl, sym, ap, subst, ◌∙◌, true, false, Bool-cases, Option, none,
  some, some_inj, List, [], ◌∷◌, ◌++◌, String, length, lookup, lookup-insert, HasDistinctKeys,
  insert-HasDistinctKeys, length-insert-le, if◌then◌else◌, get_elem?, get_elem?-snoc,
  get_elem?-snoc_inv, get_elem?-snoc_last, str_eq, eq_iff, list_eq, arith, if_lem, leb,
}
use evebox.Agent.Protocol.{WirePcapFilter, WireLimits}
use evebox.Agent.Channel.{
  max_active_jobs, ready, ActiveJob, working, Worker, Connection, new_connection, StartJob,
  start_job, start_new, spawn, cancel_found, close, run,
}
use evebox.Agent.Channel.Flags.{Flagged, modify-Flagged, cancel_all-Flagged, cancel_all_lem}

-- The worker runs for the job that the map has under its identifier.
abbrev pub IsOwned : List Worker → String → ActiveJob → Type 0
IsOwned workers id job =
    (w : Worker) × (get_elem? workers job.cancel ≡ some w)
    × (w.id ≡ id)
    × (w.token ≡ job.token)
    × (w.state ≡ working)

-- What holds of a connection and its workers at any time.
pub record IsLinked (c : Connection) : Type 0 where
  pub distinct : HasDistinctKeys c.jobs
  pub few : length c.jobs ≤ max_active_jobs
  pub owned :
      (id : String) (job : ActiveJob) → lookup id c.jobs ≡ some job → IsOwned c.workers id job
  pub listed :
      (k : ℕ) (w : Worker)
      → get_elem? c.workers k ≡ some w
      → w.state ≡ working
      → lookup w.id c.jobs ≡ some (record { token = w.token; cancel = k })
  pub negotiated : (k : ℕ) (w : Worker) → get_elem? c.workers k ≡ some w → c.control ≡ ready true
  pub ended :
      c.is_open ≡ false
      → (k : ℕ) (w : Worker) → get_elem? c.workers k ≡ some w
      → w.state ≡ working
      → w.is_cancelled ≡ true

pub new_connection-IsLinked : IsLinked new_connection
unfolding new_connection lookup
new_connection-IsLinked = record {
  distinct = tt;
  few = omega arith;
  owned = λ id job h. cc;
  listed = λ k w h working. cc;
  negotiated = λ k w h. cc;
  ended = λ e k w h working. cc;
}

-- Cancelling workers keeps all but the last.
pub Flagged-IsLinked :
    (c c' : Connection)
    → IsLinked c
    → c'.jobs ≡ c.jobs
    → c'.control ≡ c.control
    → Flagged c.workers c'.workers
    → (c'.is_open ≡ false
        → (k : ℕ) (w : Worker) → get_elem? c'.workers k ≡ some w
        → w.state ≡ working
        → w.is_cancelled ≡ true)
    → IsLinked c'
Flagged-IsLinked c c' h jobs control f ended = record {
  distinct = subst HasDistinctKeys (sym jobs) h.distinct;
  few = subst (λ js. length js ≤ max_active_jobs) (sym jobs) h.few;
  owned = λ id job e.
      let (w, here, name, token, state) = h.owned id job (sym (ap (lookup id) jobs) ∙ e) in
      let (w', there, g) = f.forth job.cancel w here in
      (w', there, g.0 ∙ name, g.1 ∙ token, g.2 ∙ state);
  listed = λ k w' e run.
      let (w, there, g) = f.back k w' e in
      let old = h.listed k w there (sym g.2 ∙ run) in
      ap (lookup w'.id) jobs
      ∙ ap (λ id. lookup id c.jobs) g.0
      ∙ old
      ∙ ap (λ t. some (job_of t k)) (sym g.1);
  negotiated = λ k w' e. let (w, there, _) = f.back k w' e in control ∙ h.negotiated k w there;
  ended = ended;
}
  where
    job_of : List ℕ → ℕ → ActiveJob
    job_of t k = record { token = t; cancel = k }

pub cancel_found-IsLinked :
    (o : Option ActiveJob) (token : List ℕ) (c : Connection)
    → c.is_open ≡ true
    → IsLinked c
    → IsLinked (cancel_found o token c)
unfolding cancel_found
cancel_found-IsLinked none token c live h = h
cancel_found-IsLinked (some job) token c live h =
    if_lem IsLinked (list_eq job.token token) _ _
      (λ _.
        Flagged-IsLinked c _ h refl refl (modify-Flagged job.cancel c.workers) (λ e. cc (live, e)))
      (λ _. h)

pub close-IsLinked : (c : Connection) → IsLinked c → IsLinked (close c)
unfolding close
close-IsLinked c h =
    let f = cancel_all-Flagged c.jobs c.workers in
    Flagged-IsLinked c (close c) h refl refl f (λ _ k w' e run.
      let (w, there, flagged) = f.back k w' e in
      cancel_all_lem c.jobs c.workers w.id (record { token = w.token; cancel = k }) w w'
        (h.listed k w there (sym flagged.2 ∙ run)) there e)

-- A new worker at the end of the list, under a name that was free.
spawn-IsLinked :
    (id : String) (token : List ℕ) (filter : WirePcapFilter) (start_us end_us : ℕ)
    (limits : WireLimits) (c : Connection)
    → c.is_open ≡ true
    → c.control ≡ ready true
    → lookup id c.jobs ≡ none
    → length c.jobs < max_active_jobs
    → IsLinked c
    → IsLinked (spawn id token filter start_us end_us limits c)
unfolding spawn
spawn-IsLinked id token filter start_us end_us limits c live pcap free room h = record {
  distinct = insert-HasDistinctKeys id job c.jobs h.distinct;
  few = omega (arith, length-insert-le id job c.jobs, room);
  owned = λ j x e. owned j x (sym (lookup-insert id j job c.jobs) ∙ e);
  listed = λ k w e run.
      lookup-insert id w.id job c.jobs ∙ listed k w (get_elem?-snoc_inv c.workers new k e) run;
  negotiated = λ k w e. pcap;
  ended = λ e k w _ _. cc (live, e);
}
  where
    job : ActiveJob
    job = record { token = token; cancel = length c.workers }

    new : Worker
    new = record {
      id = id;
      token = token;
      filter = filter;
      start_us = start_us;
      end_us = end_us;
      limits = limits;
      is_cancelled = false;
      state = working;
    }

    owned :
        (j : String) (x : ActiveJob)
        → (if str_eq id j then some job else lookup j c.jobs) ≡ some x
        → IsOwned (c.workers ++ new ∷ []) j x
    owned j x e = elim (Bool-cases (str_eq id j)) [
      | inl same ↦
          subst (IsOwned (c.workers ++ new ∷ []) j) (some_inj (rw same at e))
            (new, get_elem?-snoc_last c.workers new, (eq_iff id j).0 same, refl, refl)
      | inr other ↦
          let (w, here, name, same, run) = h.owned j x (rw other at e) in
          (w, get_elem?-snoc c.workers new x.cancel here, name, same, run)
    ]

    listed :
        (k : ℕ) (w : Worker)
        → (get_elem? c.workers k ≡ some w) ⊎ ((k ≡ length c.workers) × (w ≡ new))
        → w.state ≡ working
        → (if str_eq id w.id then some job else lookup w.id c.jobs)
          ≡ some (record { token = w.token; cancel = k })
    listed k w (inl old) run =
        let before = h.listed k w old run in
        if_lem (λ o. o ≡ some (record { token = w.token; cancel = k })) (str_eq id w.id) _ _
          (λ same. cc ((eq_iff id w.id).0 same, before, free)) (λ _. before)
    listed k w (inr (last, this)) run = ground (arith, this, last, eq_iff id w.id)

pub start_job-IsLinked :
    (id : String) (token : List ℕ) (filter : WirePcapFilter) (start_us end_us : ℕ)
    (limits : WireLimits) (c : Connection)
    → c.is_open ≡ true
    → c.control ≡ ready true
    → IsLinked c
    → IsLinked (start_job id token filter start_us end_us limits c).0
unfolding start_job
start_job-IsLinked id token filter start_us end_us limits c live pcap h =
    found (lookup id c.jobs) refl
  where
    found :
        (o : Option ActiveJob)
        → lookup id c.jobs ≡ o
        → IsLinked (start_new o id token filter start_us end_us limits c).0
    found (some existing) e = h
    found none e =
        if_lem (λ (r : Connection × StartJob). IsLinked r.0) (leb max_active_jobs (length c.jobs)) _
          _ (λ _. h)
          (λ room.
            spawn-IsLinked id token filter start_us end_us limits c live pcap e (ground arith) h)
