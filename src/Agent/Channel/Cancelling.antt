-- ===== src/Agent/Channel/Cancelling.antt =====
-- A cancel message of src/agent/channel.rs reaches the worker of its job, and no other.
use evebox.Base.{
  ℕ, ◌≡◌, ◌≢◌, ◌⊎◌, ◌↔◌, inl, inr, refl, sym, ap, subst, ◌∙◌, true, Bool-cases, Option, none, some,
  some_inj, List, String, lookup, get_elem?, modify, get_elem?-modify_ne, get_elem?-modify_self,
  list_eq, list_eq_iff, ◌==◌, ==_iff,
}
use evebox.Agent.Channel.{
  ActiveJob, working, Worker, Connection, new_connection, cancel_job, cancel_found, set_cancelled,
  Event, run,
}
use evebox.Agent.Channel.Starting.{IsLinked}
use evebox.Agent.Channel.Safety.{run-IsLinked}

-- The worker runs for the job that the message names.
abbrev pub IsMeant : String → List ℕ → Worker → Type 0
IsMeant id token w = (w.state ≡ working) × (w.id ≡ id) × (w.token ≡ token)

abbrev pub IsCancelExact : String → List ℕ → Worker → Worker → Type 0
IsCancelExact id token w w' =
    (w'.is_cancelled ≡ true) ↔ ((w.is_cancelled ≡ true) ⊎ (IsMeant id token w))

module _ (id : String) (token : List ℕ) (c : Connection) (k : ℕ) (w w' : Worker) (h : IsLinked c)
    (here : get_elem? c.workers k ≡ some w) where
  -- Where nothing is changed, no worker is meant.
  unchanged :
      (IsMeant id token w → ⊥) → get_elem? c.workers k ≡ some w' → IsCancelExact id token w w'
  unchanged none_meant there =
      let same : w' ≡ w = some_inj (sym there ∙ here) in
      (
        λ e. inl (sym (ap (λ (x : Worker). x.is_cancelled) same) ∙ e),
        λ how. elim how [
          | inl e ↦ ap (λ (x : Worker). x.is_cancelled) same ∙ e
          | inr meant ↦ absurd (none_meant meant)
        ],
      )

  changed :
      (job : ActiveJob)
      → lookup id c.jobs ≡ some job
      → job.token ≡ token
      → get_elem? (modify job.cancel set_cancelled c.workers) k ≡ some w'
      → IsCancelExact id token w w'
  unfolding set_cancelled
  changed job listed right there = elim (Bool-cases (job.cancel == k)) [
    | inl same ↦
        let at = (==_iff job.cancel k).0 same in
        let now : w' ≡ set_cancelled w = some_inj (
          sym there
          ∙ subst (λ i. get_elem? (modify i set_cancelled c.workers) k ≡ some (set_cancelled w))
              (sym at) (get_elem?-modify_self k set_cancelled c.workers here)) in
        let (v, there', name, right', run_v) = h.owned id job listed in
        let this : w ≡ v = some_inj (sym here ∙ sym (ap (get_elem? c.workers) at) ∙ there') in
        (
          λ _. inr (
            ap (λ (x : Worker). x.state) this ∙ run_v,
            ap (λ (x : Worker). x.id) this ∙ name,
            ap (λ (x : Worker). x.token) this ∙ right' ∙ right,
          ),
          λ _. ap (λ (x : Worker). x.is_cancelled) now,
        )
    | inr other ↦
        let ne : job.cancel ≢ k = λ e. cc (other, (==_iff job.cancel k).1 e) in
        unchanged
          (λ meant. ne (
            ap (λ (x : ActiveJob). x.cancel)
              (some_inj (
                sym listed ∙ sym (ap (λ j. lookup j c.jobs) meant.1) ∙ h.listed k w here meant.0))))
          (sym (get_elem?-modify_ne job.cancel k set_cancelled c.workers ne) ∙ there)
  ]

  found :
      (o : Option ActiveJob)
      → lookup id c.jobs ≡ o
      → get_elem? (cancel_found o token c).workers k ≡ some w'
      → IsCancelExact id token w w'
  unfolding cancel_found
  found none free there =
      unchanged
        (λ meant.
          cc (sym free ∙ sym (ap (λ j. lookup j c.jobs) meant.1) ∙ h.listed k w here meant.0))
        there
  found (some job) listed there = elim (Bool-cases (list_eq job.token token)) [
    | inl right ↦ changed job listed ((list_eq_iff job.token token).0 right) (rw right at there)
    | inr wrong ↦
        unchanged
          (λ meant.
            let same : job.token ≡ w.token =
              ap (λ (x : ActiveJob). x.token)
                (some_inj (
                  sym listed
                  ∙ sym (ap (λ j. lookup j c.jobs) meant.1)
                  ∙ h.listed k w here meant.0)) in
            cc (wrong, (list_eq_iff job.token token).1 (same ∙ meant.2)))
          (rw wrong at there)
  ]

-- After any events of a connection, a cancel message leaves a worker cancelled exactly where it was
-- cancelled before, or it still runs and has both the identifier and the token of the message.
pub cancel_job_exact :
    (events : List Event) (id : String) (token : List ℕ) (k : ℕ) (w w' : Worker)
    → get_elem? (run events new_connection).workers k ≡ some w
    → get_elem? (cancel_job id token (run events new_connection)).workers k ≡ some w'
    → IsCancelExact id token w w'
unfolding cancel_job
cancel_job_exact events id token k w w' here there =
    let c = run events new_connection in
    found id token c k w w' (run-IsLinked events) here (lookup id c.jobs) refl there
