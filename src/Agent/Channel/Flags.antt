-- ===== src/Agent/Channel/Flags.antt =====
-- What `CancellationToken::cancel` does to the workers of src/agent/channel.rs, one by one and for
-- all jobs of a connection.
use evebox.Base.{
  ℕ, ◌≡◌, ◌⊎◌, inl, inr, refl, sym, subst, ◌∙◌, true, Bool-cases, some, some_inj, List, [], ◌∷◌,
  String, lookup, get_elem?, modify, get_elem?-modify_inv, get_elem?-modify_ne,
  get_elem?-modify_self, str_eq, ◌==◌, ==_iff,
}
use evebox.Agent.Channel.{ActiveJob, Worker, set_cancelled, cancel_all}

-- A worker that differs at most in that it has been cancelled.
abbrev pub IsFlagged : Worker → Worker → Type 0
IsFlagged w w' =
    (w'.id ≡ w.id)
    × (w'.token ≡ w.token)
    × (w'.state ≡ w.state)
    × (w.is_cancelled ≡ true → w'.is_cancelled ≡ true)

pub record Flagged (ws ws' : List Worker) : Type 0 where
  pub back :
      (k : ℕ) (w' : Worker)
      → get_elem? ws' k ≡ some w'
      → (w : Worker) × (get_elem? ws k ≡ some w) × IsFlagged w w'
  pub forth :
      (k : ℕ) (w : Worker)
      → get_elem? ws k ≡ some w
      → (w' : Worker) × (get_elem? ws' k ≡ some w') × IsFlagged w w'

IsFlagged-refl : (w : Worker) → IsFlagged w w
IsFlagged-refl w = (refl, refl, refl, λ h. h)

pub Flagged-refl : (ws : List Worker) → Flagged ws ws
Flagged-refl ws = record {
  back = λ k w e. (w, e, IsFlagged-refl w);
  forth = λ k w e. (w, e, IsFlagged-refl w);
}

IsFlagged-trans : (u v w : Worker) → IsFlagged u v → IsFlagged v w → IsFlagged u w
IsFlagged-trans u v w h k = (k.0 ∙ h.0, k.1 ∙ h.1, k.2 ∙ h.2, λ e. k.3 (h.3 e))

Flagged-trans : (us vs ws : List Worker) → Flagged us vs → Flagged vs ws → Flagged us ws
Flagged-trans us vs ws h k = record {
  back = λ i w e.
      let (v, there, f) = k.back i w e in
      let (u, here, g) = h.back i v there in (u, here, IsFlagged-trans u v w g f);
  forth = λ i u e.
      let (v, there, f) = h.forth i u e in
      let (w, here, g) = k.forth i v there in (w, here, IsFlagged-trans u v w f g);
}

set_cancelled-IsFlagged :
    (i k : ℕ) (w w' : Worker) → (w' ≡ w) ⊎ ((i ≡ k) × (w' ≡ set_cancelled w)) → IsFlagged w w'
unfolding set_cancelled
set_cancelled-IsFlagged i k w w' (inl same) = subst (IsFlagged w) (sym same) (IsFlagged-refl w)
set_cancelled-IsFlagged i k w w' (inr (_, now)) =
    subst (IsFlagged w) (sym now) (refl, refl, refl, λ _. refl)

pub modify-Flagged : (i : ℕ) (ws : List Worker) → Flagged ws (modify i set_cancelled ws)
unfolding set_cancelled
modify-Flagged i ws = record {
  back = λ k w' e.
      let (w, there, how) = get_elem?-modify_inv i k set_cancelled ws e in
      (w, there, set_cancelled-IsFlagged i k w w' how);
  forth = λ k w e. elim (Bool-cases (i == k)) [
    | inl same ↦
        let here = (==_iff i k).0 same in
        (
          set_cancelled w,
          subst (λ j. get_elem? (modify i set_cancelled ws) j ≡ some (set_cancelled w)) here
              (get_elem?-modify_self i set_cancelled ws
                (subst (λ j. get_elem? ws j ≡ some w) (sym here) e)),
          (refl, refl, refl, λ _. refl),
        )
    | inr other ↦ (
      w,
      get_elem?-modify_ne i k set_cancelled ws (λ h. cc (other, (==_iff i k).1 h)) ∙ e,
      IsFlagged-refl w,
    )
  ];
}

pub cancel_all-Flagged :
    (jobs : List (String × ActiveJob)) (ws : List Worker) → Flagged ws (cancel_all jobs ws)
unfolding cancel_all set_cancelled
cancel_all-Flagged [] ws = Flagged-refl ws
cancel_all-Flagged ((id, job) ∷ jobs) ws =
    Flagged-trans ws (modify job.cancel set_cancelled ws) _ (modify-Flagged job.cancel ws)
      (cancel_all-Flagged jobs (modify job.cancel set_cancelled ws))

-- A worker that has been cancelled stays so.
pub stays_cancelled :
    (ws ws' : List Worker) (k : ℕ) (w w' : Worker)
    → Flagged ws ws'
    → get_elem? ws k ≡ some w
    → w.is_cancelled ≡ true
    → get_elem? ws' k ≡ some w'
    → w'.is_cancelled ≡ true
stays_cancelled ws ws' k w w' f here flag there =
    let (v, at, g) = f.back k w' there in
    g.3 (subst (λ (x : Worker). x.is_cancelled ≡ true) (some_inj (sym here ∙ at)) flag)

pub cancel_all_lem :
    (jobs : List (String × ActiveJob)) (ws : List Worker) (id : String) (job : ActiveJob)
    (w w' : Worker)
    → lookup id jobs ≡ some job
    → get_elem? ws job.cancel ≡ some w
    → get_elem? (cancel_all jobs ws) job.cancel ≡ some w'
    → w'.is_cancelled ≡ true
unfolding cancel_all lookup set_cancelled
cancel_all_lem [] ws id job w w' listed here there = cc
cancel_all_lem ((name, first) ∷ jobs) ws id job w w' listed here there =
    let ws₁ = modify first.cancel set_cancelled ws in
    elim (Bool-cases (str_eq name id)) [
      | inl same ↦
          let this : first ≡ job = some_inj (rw same at listed) in
          let now : get_elem? ws₁ job.cancel ≡ some (set_cancelled w) =
            subst
              (λ (x : ActiveJob).
                get_elem? (modify x.cancel set_cancelled ws) job.cancel ≡ some (set_cancelled w))
              (sym this) (get_elem?-modify_self job.cancel set_cancelled ws here) in
          stays_cancelled ws₁ (cancel_all jobs ws₁) job.cancel (set_cancelled w) w'
            (cancel_all-Flagged jobs ws₁) now refl there
      | inr other ↦
          let (v, at, _) = (modify-Flagged first.cancel ws).forth job.cancel w here in
          cancel_all_lem jobs ws₁ id job v w' (rw other at listed) at there
    ]
