-- ===== src/Server/Agents/Revocation.antt =====
-- Revocation of an agent key in src/server/agents.rs: the list of revoked keys, and the entry that
-- a revocation disconnects.
use evebox.Base.{
  ℕ, ◌≡◌, modify, Bool, inl, inr, refl, true, false, Option, none, some, List, [], ◌∷◌, String,
  get_elem?, get_elem?-modify_self, lookup, HasDistinctKeys, lookup_of_IsFresh, ◌≢◌, arith, subst,
  sym, ap, ◌∙◌, eq_iff, eq_refl, Bool-cases,
}
use evebox.Agent.Protocol.{AgentHandshake, ServerMessage}
use evebox.Server.AgentEntry.{AgentEntry, AgentKeyIdentity, cancel_entry}
use evebox.Server.Agents.{
  AgentRegistry, new_registry, contains_id, accept, is_revoked, register, refused, revoked_key,
  remove, holds_key, find_key, revoke_found, revoke_key, try_send_entry, try_send_current, Call,
  register_call, remove_call, revoke_call, send_call, entry_step, step, run,
}
use evebox.Server.Agents.Invariant.{reached-RegistryInv}

revoked-found :
    (o : Option ℕ) (r : AgentRegistry) → (revoke_found o r).0.revoked_key_ids ≡ r.revoked_key_ids
unfolding revoke_found
revoked-found none r = refl
revoked-found (some a) r = refl

revoked-send :
    (a : ℕ) (o : Option AgentEntry) (m : ServerMessage) (r : AgentRegistry)
    → (try_send_entry a o m r).0.revoked_key_ids ≡ r.revoked_key_ids
unfolding try_send_entry
revoked-send a none m r = refl
revoked-send a (some e) m r = ground arith

-- The registry's list of revoked keys only grows.
revoked-step :
    (call : Call) (r : AgentRegistry) (k : ℕ)
    → contains_id k r.revoked_key_ids ≡ true
    → contains_id k (step call r).revoked_key_ids ≡ true
unfolding step register accept remove revoke_key try_send_current
revoked-step (register_call handshake key remote now) r k h = ground arith
revoked-step (remove_call c) r k h = ground arith
revoked-step (revoke_call k') r k h =
    let grown = record r { revoked_key_ids = k' ∷ r.revoked_key_ids } in
    ap (contains_id k) (revoked-found (find_key k' r.agents r.heap) grown) ∙ ground arith
revoked-step (send_call a m) r k h =
    ap (contains_id k) (revoked-send a (get_elem? r.heap a) m r) ∙ h
revoked-step (entry_step a call) r k h = h

revoked-run :
    (calls : List Call) (r : AgentRegistry) (k : ℕ)
    → contains_id k r.revoked_key_ids ≡ true
    → contains_id k (run calls r).revoked_key_ids ≡ true
unfolding run
revoked-run [] r k h = h
revoked-run (call ∷ calls) r k h = revoked-run calls (step call r) k (revoked-step call r k h)

revoke_key-contains :
    (k : ℕ) (r : AgentRegistry) → contains_id k (revoke_key k r).0.revoked_key_ids ≡ true
unfolding revoke_key
revoke_key-contains k r =
    let grown = record r { revoked_key_ids = k ∷ r.revoked_key_ids } in
    ap (contains_id k) (revoked-found (find_key k r.agents r.heap) grown) ∙ ground arith

register_revoked :
    (handshake : AgentHandshake) (key : AgentKeyIdentity) (remote : String) (now : ℕ)
    (r : AgentRegistry)
    → contains_id key.id r.revoked_key_ids ≡ true
    → register handshake (some key) remote now r ≡ (r, refused revoked_key)
unfolding register is_revoked
register_revoked handshake key remote now r h = rw h

-- Once a key has been revoked, whatever the connections and the interface do in between, every
-- registration with that key is refused as revoked and changes nothing: an upgrade that had
-- already passed authentication does not register late.
pub revoked_register :
    (r : AgentRegistry) (calls : List Call) (handshake : AgentHandshake) (key : AgentKeyIdentity)
    (remote : String) (now : ℕ)
    → register handshake (some key) remote now (run calls (revoke_key key.id r).0)
      ≡ (run calls (revoke_key key.id r).0, refused revoked_key)
revoked_register r calls handshake key remote now =
    let revoked = (revoke_key key.id r).0 in
    register_revoked handshake key remote now (run calls revoked)
      (revoked-run calls revoked key.id (revoke_key-contains key.id r))

-- An entry that a name leads to, under the key.
abbrev pub IsHolder : ℕ → ℕ → AgentRegistry → Type 0
IsHolder k a r =
    ((n : String) × (lookup n r.agents ≡ some a)) × (holds_key k (get_elem? r.heap a) ≡ true)

find_key-some :
    (k : ℕ) (agents : List (String × ℕ)) (heap : List AgentEntry) (a : ℕ)
    → HasDistinctKeys agents
    → find_key k agents heap ≡ some a
    → ((n : String) × (lookup n agents ≡ some a)) × (holds_key k (get_elem? heap a) ≡ true)
unfolding find_key lookup
find_key-some k [] heap a d h = cc
find_key-some k ((n, b) ∷ agents) heap a d h = elim (Bool-cases (holds_key k (get_elem? heap b))) [
  | inl found ↦
      let here : b ≡ a = ground arith in
      (
        (n, rw (eq_refl n) (ap some here)),
        subst (λ x. holds_key k (get_elem? heap x) ≡ true) here found,
      )
  | inr other ↦
      let ((m, there), held) = find_key-some k agents heap a d.1 (ground arith) in
      ((m, ground (arith, eq_iff n m, lookup_of_IsFresh n agents d.0)), held)
]

find_key_complete :
    (k : ℕ) (n : String) (agents : List (String × ℕ)) (heap : List AgentEntry) (a : ℕ)
    → lookup n agents ≡ some a
    → holds_key k (get_elem? heap a) ≡ true
    → find_key k agents heap ≢ none
unfolding find_key lookup
find_key_complete k n [] heap a h held none_found = cc
find_key_complete k n ((m, b) ∷ agents) heap a h held none_found =
    elim (Bool-cases (holds_key k (get_elem? heap b))) [
      | inl found ↦ ground arith
      | inr other ↦
          find_key_complete k n agents heap a
            (ground
              (arith, λ (e : b ≡ a). subst (λ x. holds_key k (get_elem? heap x) ≡ false) e other))
            held (ground arith)
    ]

-- The entry of a connection that is told to stop.
abbrev pub IsCancelled : Option AgentEntry → Type 0
IsCancelled o = (e : AgentEntry) × (o ≡ some e) × (e.cancelled ≡ true)

holds_key-some :
    (k : ℕ) (o : Option AgentEntry) → holds_key k o ≡ true → (e : AgentEntry) × (o ≡ some e)
unfolding holds_key
holds_key-some k none h = cc
holds_key-some k (some e) h = (e, refl)

revoke_found-IsCancelled :
    (k a : ℕ) (r : AgentRegistry)
    → holds_key k (get_elem? r.heap a) ≡ true
    → IsCancelled (get_elem? (revoke_found (some a) r).0.heap a)
unfolding revoke_found cancel_entry
revoke_found-IsCancelled k a r held =
    let (e, at_a) = holds_key-some k (get_elem? r.heap a) held in
    (cancel_entry e, get_elem?-modify_self a cancel_entry r.heap at_a, refl)

-- What the revocation of a key comes to, where `r` is the registry before it: some current connection
-- has the key, and one such connection is told to stop; or none has it, and no connection is changed.
abbrev pub IsRevoked : ℕ → AgentRegistry → AgentRegistry × Bool → Type 0
IsRevoked k r (r', true) =
    (a : ℕ) × (IsHolder k a r)
    × (IsCancelled (get_elem? r'.heap a))
    × (r'.heap ≡ modify a cancel_entry r.heap)
IsRevoked k r (r', false) = (¬ ((a : ℕ) × IsHolder k a r)) × (r'.heap ≡ r.heap)

revoke_found-IsRevoked :
    (k : ℕ) (r grown : AgentRegistry) (o : Option ℕ)
    → HasDistinctKeys r.agents
    → grown.heap ≡ r.heap
    → find_key k r.agents r.heap ≡ o
    → IsRevoked k r (revoke_found o grown)
unfolding revoke_found
revoke_found-IsRevoked k r grown none d same found =
    (λ h. find_key_complete k h.1.0.0 r.agents r.heap h.0 h.1.0.1 h.1.1 found, same)
revoke_found-IsRevoked k r grown (some b) d same found =
    let holder : IsHolder k b r = find_key-some k r.agents r.heap b d found in
    let held = subst (λ heap. holds_key k (get_elem? heap b) ≡ true) (sym same) holder.1 in
    (b, holder, revoke_found-IsCancelled k b grown held, ap (modify b cancel_entry) same)

-- Revoking a key in any registry that calls can lead to reports success exactly where some name's
-- current connection has the key, and then tells one such connection to stop and changes no other;
-- where it reports none, it changes no connection. After it the key is among the revoked ones.
pub revoke_key_iff :
    (calls : List Call) (k : ℕ)
    → (IsRevoked k (run calls new_registry) (revoke_key k (run calls new_registry)))
      × (contains_id k (revoke_key k (run calls new_registry)).0.revoked_key_ids ≡ true)
unfolding revoke_key
revoke_key_iff calls k =
    let r = run calls new_registry in
    (
      revoke_found-IsRevoked k r (record r { revoked_key_ids = k ∷ r.revoked_key_ids })
          (find_key k r.agents r.heap) (reached-RegistryInv calls).distinct refl refl,
      revoke_key-contains k r,
    )
