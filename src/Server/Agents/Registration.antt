-- ===== src/Server/Agents/Registration.antt =====
-- Registration, replacement and cleanup in src/server/agents.rs.
use evebox.Base.{
  ℕ, ◌^◌, ◌<◌, ◌≡◌, ◌≢◌, ◌↔◌, refl, true, false, Option, none, some, List, [], ◌∷◌, ◌++◌, String,
  length, get_elem?, lt_of_get, get_elem?-modify_self, get_elem?-snoc_last, get_elem?-snoc, modify,
  length-modify, lookup, lookup-insert, arith, subst, sym, ap, ◌∙◌, eq_refl, some_inj,
}
use evebox.Agent.Protocol.{AgentHandshake}
use evebox.Server.AgentEntry.{AgentEntry, AgentKeyIdentity, connection_id, cancel_entry}
use evebox.Server.Agents.{
  AgentRegistry, new_registry, registered, contains_id, is_revoked, is_held_by_other, is_other_key,
  entry_at, accept, cancel_previous, new_entry, inherited_slot, register, get, remove, Call, run,
}
use evebox.Server.Agents.Invariant.{reached-RegistryInv}

-- Fewer than 2^64 registrations have been made, so the generation counter has not wrapped.
abbrev pub IsUnwrapped : AgentRegistry → Type 0
IsUnwrapped r = length r.heap < 2 ^ 64

-- Until the counter wraps, no two connections ever have the same generation.
pub generation_unique :
    (calls : List Call) (a b : ℕ) {e f : AgentEntry}
    → IsUnwrapped (run calls new_registry)
    → get_elem? (run calls new_registry).heap a ≡ some e
    → get_elem? (run calls new_registry).heap b ≡ some f
    → e.generation ≡ f.generation
    → a ≡ b
generation_unique calls a b {e} {f} unwrapped at_a at_b same =
    let r = run calls new_registry in
    let inv = reached-RegistryInv calls in
    omega (
      arith,
      inv.numbered a e at_a,
      inv.numbered b f at_b,
      lt_of_get a r.heap at_a,
      lt_of_get b r.heap at_b,
    )

-- The cleanup of a connection that was replaced does not touch its replacement: a removal with the
-- identity of an entry that its name no longer leads to is refused and changes nothing.
pub stale_remove :
    (calls : List Call) (a b : ℕ) {e : AgentEntry}
    → IsUnwrapped (run calls new_registry)
    → get_elem? (run calls new_registry).heap a ≡ some e
    → lookup e.name (run calls new_registry).agents ≡ some b
    → a ≢ b
    → remove (connection_id e) (run calls new_registry) ≡ (run calls new_registry, false)
unfolding remove connection_id
stale_remove calls a b {e} unwrapped at_a named other =
    let r = run calls new_registry in
    let (f, at_b, _) = (reached-RegistryInv calls).named e.name b named in
    rw (named, at_b)
      (ground (
        arith,
        λ (same : e.generation ≡ f.generation).
            other (generation_unique calls a b unwrapped at_a at_b same),
      ))

-- The key is not among the revoked ones.
abbrev pub IsUnrevoked : Option AgentKeyIdentity → List ℕ → Type 0
IsUnrevoked key ids = (k : AgentKeyIdentity) → key ≡ some k → contains_id k.id ids ≡ false

-- Where the holder of the name and the newcomer both have a key, it is the same key.
abbrev pub IsSameKey : Option AgentEntry → Option AgentKeyIdentity → Type 0
IsSameKey holder key =
    (e : AgentEntry) (k held : AgentKeyIdentity)
    → holder ≡ some e
    → key ≡ some k
    → e.key ≡ some held
    → held.id ≡ k.id

is_revoked_iff :
    (key : Option AgentKeyIdentity) (ids : List ℕ)
    → (is_revoked key ids ≡ false) ↔ IsUnrevoked key ids
unfolding is_revoked
is_revoked_iff none ids = (λ h k e. cc, λ h. refl)
is_revoked_iff (some k) ids =
    (λ h k' e. subst (λ x. contains_id x.id ids ≡ false) (some_inj e) h, λ h. h k refl)

is_other_key_iff :
    (held key : Option AgentKeyIdentity)
    → (is_other_key held key ≡ false)
      ↔ ((k h : AgentKeyIdentity) → key ≡ some k → held ≡ some h → h.id ≡ k.id)
unfolding is_other_key
is_other_key_iff none key = (λ _ k h e f. cc, λ _. refl)
is_other_key_iff (some h) none = (λ _ k h' e f. cc, λ _. refl)
is_other_key_iff (some h) (some k) =
    (λ same k' h' e f. ground arith, λ all. ground (arith, all k h refl refl))

is_held_by_other_iff :
    (holder : Option AgentEntry) (key : Option AgentKeyIdentity)
    → (is_held_by_other holder key ≡ false) ↔ IsSameKey holder key
unfolding is_held_by_other
is_held_by_other_iff none key = (λ h e k held there. cc, λ h. refl)
is_held_by_other_iff (some e) key = (
  λ h e' k held there e₁ e₂.
      (is_other_key_iff e.key key).0 h k held e₁
        (subst (λ x. x.key ≡ some held) (sym (some_inj there)) e₂),
  λ h. (is_other_key_iff e.key key).1 (λ k held e₁ e₂. h e k held refl e₁ e₂),
)

-- A registration is accepted exactly when its key is not revoked and the name is not held by a
-- connection that authenticated with another key; one that is refused changes nothing.
pub register_iff :
    (handshake : AgentHandshake) (key : Option AgentKeyIdentity) (remote : String) (now : ℕ)
    (r : AgentRegistry)
    → (((register handshake key remote now r).1 ≡ registered (length r.heap))
        ↔ ((IsUnrevoked key r.revoked_key_ids) × (IsSameKey (get handshake.name r) key)))
      × (((register handshake key remote now r).1 ≢ registered (length r.heap))
          → (register handshake key remote now r).0 ≡ r)
unfolding register get
register_iff handshake key remote now r =
    let unrevoked = is_revoked_iff key r.revoked_key_ids in
    let same = is_held_by_other_iff (entry_at (lookup handshake.name r.agents) r.heap) key in
    (
      (
        λ h. (unrevoked.0 (ground arith), same.0 (ground arith)),
        λ h. rw (unrevoked.1 h.0, same.1 h.1),
      ),
      λ h. ground arith,
    )

register_accepted :
    (handshake : AgentHandshake) (key : Option AgentKeyIdentity) (remote : String) (now : ℕ)
    (r : AgentRegistry)
    → (register handshake key remote now r).1 ≡ registered (length r.heap)
    → (register handshake key remote now r).0
      ≡ accept (lookup handshake.name r.agents) handshake key remote now r
unfolding register
register_accepted handshake key remote now r h = ground arith

-- The old connection is told to stop, and the new one has its slot.
abbrev pub IsReplaced :
    AgentHandshake
    → Option AgentKeyIdentity
    → ℕ
    → AgentEntry
    → AgentRegistry
    → AgentRegistry
    → Type 0
IsReplaced handshake key b old r s =
    ((stopped : AgentEntry) × (get_elem? s.heap b ≡ some stopped) × (stopped.cancelled ≡ true))
    × ((new : AgentEntry) × (get handshake.name s ≡ some new)
        × (new.pcap_busy ≡ old.pcap_busy)
        × (new.key ≡ key)
        × (new.cancelled ≡ false)
        × (new.generation ≡ r.next_generation))

accept_replaces :
    (handshake : AgentHandshake) (key : Option AgentKeyIdentity) (remote : String) (now b : ℕ)
    (r : AgentRegistry) {old : AgentEntry}
    → get_elem? r.heap b ≡ some old
    → IsReplaced handshake key b old r (accept (some b) handshake key remote now r)
unfolding accept get cancel_previous cancel_entry new_entry inherited_slot
accept_replaces handshake key remote now b r {old} at_b =
    let slot = inherited_slot (entry_at (some b) r.heap) (length r.heap) in
    let new = new_entry handshake key remote now r.next_generation slot in
    let heap = modify b cancel_entry r.heap in
    let found = lookup-insert handshake.name handshake.name (length r.heap) r.agents in
    (
      (
        cancel_entry old,
        get_elem?-snoc heap new b (get_elem?-modify_self b cancel_entry r.heap at_b),
        refl,
      ),
      (
        new,
        rw (found, eq_refl handshake.name)
            (subst (λ i. get_elem? (heap ++ new ∷ []) i ≡ some new)
              (length-modify b cancel_entry r.heap) (get_elem?-snoc_last heap new)),
        rw at_b,
        refl,
        refl,
        refl,
      ),
    )

-- What an accepted registration does to a name that was taken: the old connection is told to stop,
-- and the new one, with the next generation, takes over its capture slot.
pub register_replaces :
    (handshake : AgentHandshake) (key : Option AgentKeyIdentity) (remote : String) (now b : ℕ)
    (r : AgentRegistry) {old : AgentEntry}
    → lookup handshake.name r.agents ≡ some b
    → get_elem? r.heap b ≡ some old
    → (register handshake key remote now r).1 ≡ registered (length r.heap)
    → IsReplaced handshake key b old r (register handshake key remote now r).0
register_replaces handshake key remote now b r {old} named at_b accepted =
    subst (IsReplaced handshake key b old r)
      (sym (
        register_accepted handshake key remote now r accepted
        ∙ ap (λ o. accept o handshake key remote now r) named))
      (accept_replaces handshake key remote now b r at_b)
