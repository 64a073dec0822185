-- ===== src/Server/Agents/Issued.antt =====
-- Agent keys that are issued for one name each: src/server/api/agent.rs registers a connection only
-- under the name of its key, so that in src/server/agents.rs one connection at most has a key.
use evebox.Base.{
  ℕ, ◌≡◌, ◌⊎◌, inl, inr, refl, sym, ap, ◌∙◌, subst, Bool, true, false, Option, none, some, some_inj,
  List, [], ◌∷◌, String, length, get_elem?, get_elem?-snoc_inv, lookup, modify, All, ◌==◌, arith,
}
use evebox.Agent.Protocol.{AgentHandshake, ServerMessage}
use evebox.Server.AgentEntry.{AgentEntry, AgentKeyIdentity, cancel_entry, try_send, entry_call}
use evebox.Server.Agents.{
  AgentRegistry, new_registry, cancel_previous, accept, new_entry, inherited_slot, entry_at,
  holds_key, find_key, revoke_found, revoke_key, try_send_entry, Call, register_call, remove_call,
  revoke_call, send_call, entry_step, step, run,
}
use evebox.Server.Agents.Frame.{
  HeapFrame, HeapFrame-modify, HeapFrame-cancel_previous, Frame, Frame-cancel_entry,
  Frame-entry_call, Frame-try_send,
}
use evebox.Server.Agents.Invariant.{
  RegistryInv, cases_keep, register_cases, remove_cases, send_cases, reached-RegistryInv,
}
use evebox.Server.Agents.Revocation.{IsHolder, IsCancelled, IsRevoked, revoke_key_iff}

-- A registration is under the name that its key was issued for.
abbrev pub IsIssued : (issued : ℕ → String) → Call → Type 0
IsIssued issued (register_call handshake (some key) remote now) = issued key.id ≡ handshake.name
IsIssued issued (register_call handshake none remote now) = Unit
IsIssued issued (remove_call connection) = Unit
IsIssued issued (revoke_call key_id) = Unit
IsIssued issued (send_call a message) = Unit
IsIssued issued (entry_step a call) = Unit

module _ (issued : ℕ → String) where
  abbrev IsNamed : AgentEntry → Type 0
  IsNamed e = (key : AgentKeyIdentity) → e.key ≡ some key → issued key.id ≡ e.name

  abbrev AllNamed : List AgentEntry → Type 0
  AllNamed heap = (a : ℕ) (e : AgentEntry) → get_elem? heap a ≡ some e → IsNamed e

  frame-AllNamed : (old new : List AgentEntry) → HeapFrame old new → AllNamed old → AllNamed new
  frame-AllNamed old new frame named a e at key held =
      let (e₀, there, fr) = frame a e at in
      named a e₀ there key (sym fr.same_key ∙ held) ∙ sym fr.same_name

  modify-AllNamed :
      (a : ℕ) (f : AgentEntry → AgentEntry) (heap : List AgentEntry)
      → ((e : AgentEntry) → get_elem? heap a ≡ some e → Frame e (f e))
      → AllNamed heap
      → AllNamed (modify a f heap)
  modify-AllNamed a f heap keep =
      frame-AllNamed heap (modify a f heap) (HeapFrame-modify a f heap keep)

  accept-AllNamed :
      (previous : Option ℕ) (handshake : AgentHandshake) (key : Option AgentKeyIdentity)
      (remote : String) (now : ℕ) (r : AgentRegistry)
      → IsIssued issued (register_call handshake key remote now)
      → AllNamed r.heap
      → AllNamed (accept previous handshake key remote now r).heap
  unfolding accept new_entry
  accept-AllNamed previous handshake key remote now r ok named a e at =
      placed (get_elem?-snoc_inv (cancel_previous previous r.heap) entry a at)
    where
      entry : AgentEntry
      entry =
          new_entry handshake key remote now r.next_generation
            (inherited_slot (entry_at previous r.heap) (length r.heap))

      keyed :
          (key : Option AgentKeyIdentity) (k : AgentKeyIdentity)
          → IsIssued issued (register_call handshake key remote now)
          → key ≡ some k
          → issued k.id ≡ handshake.name
      keyed none k ok held = cc
      keyed (some own) k ok held = ap (λ x. issued x.id) (some_inj (sym held)) ∙ ok

      placed :
          (get_elem? (cancel_previous previous r.heap) a ≡ some e)
            ⊎ ((a ≡ length (cancel_previous previous r.heap)) × (e ≡ entry))
          → IsNamed e
      placed (inl there) =
          frame-AllNamed r.heap (cancel_previous previous r.heap)
            (HeapFrame-cancel_previous previous r.heap) named a e there
      placed (inr (_, same)) = subst IsNamed (sym same) (λ k held. keyed key k ok held)

  revoke_found-AllNamed :
      (o : Option ℕ) (r : AgentRegistry) → AllNamed r.heap → AllNamed (revoke_found o r).0.heap
  unfolding revoke_found
  revoke_found-AllNamed none r named = named
  revoke_found-AllNamed (some a) r named =
      modify-AllNamed a cancel_entry r.heap (λ e _. Frame-cancel_entry e) named

  send-AllNamed :
      (a : ℕ) (o : Option AgentEntry) (m : ServerMessage) (r : AgentRegistry)
      → get_elem? r.heap a ≡ o
      → AllNamed r.heap
      → AllNamed (try_send_entry a o m r).0.heap
  unfolding try_send_entry
  send-AllNamed a none m r there named = named
  send-AllNamed a (some e) m r there named =
      cases_keep (λ s. AllNamed s.heap) (send_cases a e m r) named
        (modify-AllNamed a (λ _. (try_send m e).0) r.heap
          (λ e' there'.
            subst (λ x. Frame x (try_send m e).0) (some_inj (sym there ∙ there'))
              (Frame-try_send m e))
          named)

  step-AllNamed :
      (call : Call) (r : AgentRegistry)
      → IsIssued issued call
      → AllNamed r.heap
      → AllNamed (step call r).heap
  unfolding step revoke_key
  step-AllNamed (register_call handshake key remote now) r ok named =
      cases_keep (λ s. AllNamed s.heap) (register_cases handshake key remote now r) named
        (accept-AllNamed (lookup handshake.name r.agents) handshake key remote now r ok named)
  step-AllNamed (remove_call c) r ok named =
      cases_keep (λ s. AllNamed s.heap) (remove_cases c r) named named
  step-AllNamed (revoke_call k) r ok named =
      revoke_found-AllNamed (find_key k r.agents r.heap)
        (record r { revoked_key_ids = k ∷ r.revoked_key_ids }) named
  step-AllNamed (send_call a m) r ok named = send-AllNamed a (get_elem? r.heap a) m r refl named
  step-AllNamed (entry_step a call) r ok named =
      modify-AllNamed a (entry_call call) r.heap (λ e _. Frame-entry_call call e) named

  run-AllNamed :
      (calls : List Call) (r : AgentRegistry)
      → All (IsIssued issued) calls
      → AllNamed r.heap
      → AllNamed (run calls r).heap
  unfolding run
  run-AllNamed [] r ok named = named
  run-AllNamed (call ∷ calls) r ok named =
      run-AllNamed calls (step call r) ok.1 (step-AllNamed call r ok.0 named)

  new-AllNamed : AllNamed new_registry.heap
  unfolding new_registry
  new-AllNamed a e h = cc

  -- The name of a connection that has a key is the one that the key was issued for.
  held-name : (k : ℕ) (e : AgentEntry) → IsNamed e → holds_key k (some e) ≡ true → issued k ≡ e.name
  unfolding holds_key
  held-name k e named held = cases e.key refl held
    where
      cases :
          (key : Option AgentKeyIdentity)
          → e.key ≡ key
          → (elim key [ none ↦ false | some own ↦ own.id == k ]) ≡ true
          → issued k ≡ e.name
      cases none own h = cc
      cases (some key) own h =
          let same : key.id ≡ k = ground arith in ap issued (sym same) ∙ named key own

  holder-name :
      (k a : ℕ) (r : AgentRegistry)
      → RegistryInv r
      → AllNamed r.heap
      → (h : IsHolder k a r) → issued k ≡ h.0.0
  holder-name k a r inv named ((n, there), held) =
      let (e, at, name) = inv.named n a there in
      held-name k e (named a e at) (subst (λ o. holds_key k o ≡ true) at held) ∙ name

  one_holder :
      (k a b : ℕ) (r : AgentRegistry)
      → RegistryInv r
      → AllNamed r.heap
      → IsHolder k a r
      → IsHolder k b r
      → a ≡ b
  one_holder k a b r inv named h g =
      let same = sym (holder-name k a r inv named h) ∙ holder-name k b r inv named g in
      some_inj (sym h.0.1 ∙ ap (λ n. lookup n r.agents) same ∙ g.0.1)

found_stops :
    (k a : ℕ) (r : AgentRegistry) (result : AgentRegistry × Bool)
    → IsRevoked k r result
    → IsHolder k a r
    → ((b : ℕ) → IsHolder k b r → b ≡ a)
    → (result.1 ≡ true) × (IsCancelled (get_elem? result.0.heap a))
found_stops k a r (r', true) (b, holder, cancelled, _) h unique =
    (refl, subst (λ x. IsCancelled (get_elem? r'.heap x)) (unique b holder) cancelled)
found_stops k a r (r', false) (never, _) h unique = absurd (never (a, h))

-- Where every registration that gives a key is under the name that the key was issued for, whatever
-- else the connections and the interface do, revoking a key stops every connection that has it: each
-- current connection under the key is told to stop, and the revocation reports success.
pub revoke_stops_holder :
    (issued : ℕ → String) (calls : List Call) (k a : ℕ)
    → All (IsIssued issued) calls
    → IsHolder k a (run calls new_registry)
    → ((revoke_key k (run calls new_registry)).1 ≡ true)
      × (IsCancelled (get_elem? (revoke_key k (run calls new_registry)).0.heap a))
revoke_stops_holder issued calls k a ok holder =
    let r = run calls new_registry in
    let named = run-AllNamed issued calls new_registry ok (new-AllNamed issued) in
    found_stops k a r (revoke_key k r) (revoke_key_iff calls k).0 holder
      (λ b other. one_holder issued k b a r (reached-RegistryInv calls) named other holder)
