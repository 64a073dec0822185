-- ===== src/Server/Agents/Invariant.antt =====
-- The invariant of the registry of src/server/agents.rs: every name stands once and leads to an
-- entry of that name, and the entry at address a has generation a + 1, modulo the width of the
-- counter.
use evebox.Base.{
  ℕ, ◌+◌, ◌^◌, ◌%◌, ◌≡◌, ◌⊎◌, inl, inr, refl, true, false, Option, none, some, List, [], ◌∷◌, ◌++◌,
  String, length, get_elem?, get_of_lt, lt_of_get, modify, length-modify, length-append,
  get_elem?-snoc_last, get_elem?-snoc, get_elem?-snoc_inv, lookup, insert, remove as remove_key,
  lookup-insert, lookup-remove, HasDistinctKeys, insert-HasDistinctKeys, remove-HasDistinctKeys,
  arith, subst, sym, ap, eq_iff, some_inj, str_eq, Bool-cases, ◌∙◌,
}
use evebox.Agent.Protocol.{AgentHandshake, ServerMessage}
use evebox.Server.Job.{AgentConnectionId}
use evebox.Server.AgentEntry.{AgentEntry, AgentKeyIdentity, cancel_entry, try_send, entry_call}
use evebox.Server.Agents.{
  AgentRegistry, new_registry, cancel_previous, accept, new_entry, inherited_slot, entry_at,
  register, remove, revoke_found, find_key, try_send_entry, Call, register_call, remove_call,
  revoke_call, send_call, entry_step, step, run,
}
use evebox.Server.Agents.Frame.{
  Frame, HeapFrame, HeapFrame-modify, HeapFrame-cancel_previous, length-cancel_previous,
  Frame-cancel_entry, Frame-entry_call, Frame-try_send,
}

pub record RegistryInv (r : AgentRegistry) : Type 0 where
  pub distinct : HasDistinctKeys r.agents
  pub named :
      (n : String) (a : ℕ)
      → lookup n r.agents ≡ some a
      → (e : AgentEntry) × (get_elem? r.heap a ≡ some e) × (e.name ≡ n)
  pub numbered :
      (a : ℕ) (e : AgentEntry) → get_elem? r.heap a ≡ some e → e.generation ≡ (a + 1) % 2 ^ 64
  pub counted : r.next_generation ≡ (length r.heap + 1) % 2 ^ 64

pub new_registry-RegistryInv : RegistryInv new_registry
unfolding new_registry lookup
new_registry-RegistryInv = record {
  distinct = tt;
  named = λ n a h. cc;
  numbered = λ a e h. cc;
  counted = omega arith;
}

-- A heap that is framed from the old one keeps the invariant.
pub frame-RegistryInv :
    (r : AgentRegistry) (heap : List AgentEntry)
    → HeapFrame r.heap heap
    → length heap ≡ length r.heap
    → RegistryInv r
    → RegistryInv (record r { heap = heap })
frame-RegistryInv r heap frame len inv = record {
  distinct = inv.distinct;
  named = λ n a h. still_named n a (inv.named n a h);
  numbered =
      λ a e h. let (e₀, there, fr) = frame a e h in fr.same_generation ∙ inv.numbered a e₀ there;
  counted = omega (arith, inv.counted);
}
  where
    still_named :
        (n : String) (a : ℕ)
        → (e : AgentEntry) × (get_elem? r.heap a ≡ some e) × (e.name ≡ n)
        → (e : AgentEntry) × (get_elem? heap a ≡ some e) × (e.name ≡ n)
    still_named n a (e₀, there, name) =
        let (e, here) = get_of_lt a heap (omega (arith, lt_of_get a r.heap there)) in
        let (e₁, there', fr) = frame a e here in
        (e, here, fr.same_name ∙ ap (λ x. x.name) (some_inj (sym there' ∙ there)) ∙ name)

pub remove_key-RegistryInv :
    (r : AgentRegistry) (k : String)
    → RegistryInv r
    → RegistryInv (record r { agents = remove_key k r.agents })
remove_key-RegistryInv r k inv = record {
  distinct = remove-HasDistinctKeys k r.agents inv.distinct;
  named = λ n a h. inv.named n a (still n a h);
  numbered = inv.numbered;
  counted = inv.counted;
}
  where
    still :
        (n : String) (a : ℕ)
        → lookup n (remove_key k r.agents) ≡ some a
        → lookup n r.agents ≡ some a
    still n a h = ground (arith, lookup-remove k n r.agents inv.distinct)

-- An entry is added under its name, with the generation that is next.
push-RegistryInv :
    (r : AgentRegistry) (entry : AgentEntry) (address : ℕ)
    → address ≡ length r.heap
    → entry.generation ≡ r.next_generation
    → RegistryInv r
    → RegistryInv (record r {
      heap = r.heap ++ entry ∷ [];
      agents = insert entry.name address r.agents;
      next_generation = (r.next_generation + 1) % 2 ^ 64;
    })
push-RegistryInv r entry address at_end next inv = record {
  distinct = insert-HasDistinctKeys entry.name address r.agents inv.distinct;
  named = λ n a h. now_named n a h (Bool-cases (str_eq entry.name n));
  numbered = λ a e h. now_numbered a e (get_elem?-snoc_inv r.heap entry a h);
  counted = omega (arith, length-append r.heap (entry ∷ []), inv.counted);
}
  where
    now_named :
        (n : String) (a : ℕ)
        → lookup n (insert entry.name address r.agents) ≡ some a
        → (str_eq entry.name n ≡ true) ⊎ (str_eq entry.name n ≡ false)
        → (e : AgentEntry) × (get_elem? (r.heap ++ entry ∷ []) a ≡ some e) × (e.name ≡ n)
    now_named n a h (inl same) =
        let here : address ≡ a = ground (arith, lookup-insert entry.name n address r.agents) in
        (
          entry,
          rw (← here, at_end) (get_elem?-snoc_last r.heap entry),
          (eq_iff entry.name n).0 same,
        )
    now_named n a h (inr other) =
        let (e, there, name) =
          inv.named n a (ground (arith, lookup-insert entry.name n address r.agents)) in
        (e, get_elem?-snoc r.heap entry a there, name)

    now_numbered :
        (a : ℕ) (e : AgentEntry)
        → (get_elem? r.heap a ≡ some e) ⊎ ((a ≡ length r.heap) × (e ≡ entry))
        → e.generation ≡ (a + 1) % 2 ^ 64
    now_numbered a e (inl there) = inv.numbered a e there
    now_numbered a e (inr (last, same)) =
        ap (λ x. x.generation) same ∙ next ∙ inv.counted ∙ ap (λ x. (x + 1) % 2 ^ 64) (sym last)

accept-RegistryInv :
    (previous : Option ℕ) (handshake : AgentHandshake) (key : Option AgentKeyIdentity)
    (remote : String) (now : ℕ) (r : AgentRegistry)
    → RegistryInv r
    → RegistryInv (accept previous handshake key remote now r)
unfolding accept new_entry
accept-RegistryInv previous handshake key remote now r inv =
    push-RegistryInv (record r { heap = cancel_previous previous r.heap })
      (new_entry handshake key remote now r.next_generation
        (inherited_slot (entry_at previous r.heap) (length r.heap)))
      (length r.heap) (sym (length-cancel_previous previous r.heap)) refl
      (frame-RegistryInv r (cancel_previous previous r.heap)
        (HeapFrame-cancel_previous previous r.heap) (length-cancel_previous previous r.heap) inv)

-- A registration changes nothing, or it is accepted.
pub register_cases :
    (handshake : AgentHandshake) (key : Option AgentKeyIdentity) (remote : String) (now : ℕ)
    (r : AgentRegistry)
    → ((register handshake key remote now r).0 ≡ r)
      ⊎ ((register handshake key remote now r).0
          ≡ accept (lookup handshake.name r.agents) handshake key remote now r)
unfolding register
register_cases handshake key remote now r = ground arith

modify-RegistryInv :
    (r : AgentRegistry) (a : ℕ) (f : AgentEntry → AgentEntry)
    → ((e : AgentEntry) → get_elem? r.heap a ≡ some e → Frame e (f e))
    → RegistryInv r
    → RegistryInv (record r { heap = modify a f r.heap })
modify-RegistryInv r a f keep inv =
    frame-RegistryInv r (modify a f r.heap) (HeapFrame-modify a f r.heap keep)
      (length-modify a f r.heap) inv

pub cases_keep :
    (P : AgentRegistry → Type 0) {r s t : AgentRegistry} → (t ≡ r) ⊎ (t ≡ s) → P r → P s → P t
cases_keep P (inl e) p q = subst P (sym e) p
cases_keep P (inr e) p q = subst P (sym e) q

pub remove_cases :
    (c : AgentConnectionId) (r : AgentRegistry)
    → ((remove c r).0 ≡ r) ⊎ ((remove c r).0 ≡ record r { agents = remove_key c.name r.agents })
unfolding remove
remove_cases c r = ground arith

revoke_found-RegistryInv :
    (o : Option ℕ) (r : AgentRegistry) → RegistryInv r → RegistryInv (revoke_found o r).0
unfolding revoke_found
revoke_found-RegistryInv none r inv = inv
revoke_found-RegistryInv (some a) r inv =
    modify-RegistryInv r a cancel_entry (λ e _. Frame-cancel_entry e) inv

revoke_ids-RegistryInv :
    (r : AgentRegistry) (ids : List ℕ)
    → RegistryInv r
    → RegistryInv (record r { revoked_key_ids = ids })
revoke_ids-RegistryInv r ids inv = record {
  distinct = inv.distinct;
  named = inv.named;
  numbered = inv.numbered;
  counted = inv.counted;
}

pub send_cases :
    (a : ℕ) (e : AgentEntry) (m : ServerMessage) (r : AgentRegistry)
    → ((try_send_entry a (some e) m r).0 ≡ r)
      ⊎ ((try_send_entry a (some e) m r).0
          ≡ record r { heap = modify a (λ _. (try_send m e).0) r.heap })
unfolding try_send_entry
send_cases a e m r = ground arith

send-RegistryInv :
    (a : ℕ) (o : Option AgentEntry) (m : ServerMessage) (r : AgentRegistry)
    → get_elem? r.heap a ≡ o
    → RegistryInv r
    → RegistryInv (try_send_entry a o m r).0
unfolding try_send_entry
send-RegistryInv a none m r there inv = inv
send-RegistryInv a (some e) m r there inv = cases_keep RegistryInv (send_cases a e m r) inv (
    modify-RegistryInv r a (λ _. (try_send m e).0)
      (λ e' there'.
        subst (λ x. Frame x (try_send m e).0) (some_inj (sym there ∙ there')) (Frame-try_send m e))
      inv)

pub step-RegistryInv : (call : Call) (r : AgentRegistry) → RegistryInv r → RegistryInv (step call r)
unfolding step
step-RegistryInv (register_call handshake key remote now) r inv =
    cases_keep RegistryInv (register_cases handshake key remote now r) inv
      (accept-RegistryInv (lookup handshake.name r.agents) handshake key remote now r inv)
step-RegistryInv (remove_call c) r inv =
    cases_keep RegistryInv (remove_cases c r) inv (remove_key-RegistryInv r c.name inv)
step-RegistryInv (revoke_call k) r inv =
    revoke_found-RegistryInv (find_key k r.agents r.heap)
      (record r { revoked_key_ids = k ∷ r.revoked_key_ids })
      (revoke_ids-RegistryInv r (k ∷ r.revoked_key_ids) inv)
step-RegistryInv (send_call a m) r inv = send-RegistryInv a (get_elem? r.heap a) m r refl inv
step-RegistryInv (entry_step a call) r inv =
    modify-RegistryInv r a (entry_call call) (λ e _. Frame-entry_call call e) inv

run-RegistryInv :
    (calls : List Call) (r : AgentRegistry) → RegistryInv r → RegistryInv (run calls r)
unfolding run
run-RegistryInv [] r inv = inv
run-RegistryInv (call ∷ calls) r inv =
    run-RegistryInv calls (step call r) (step-RegistryInv call r inv)

-- every registry that calls can bring about
pub reached-RegistryInv : (calls : List Call) → RegistryInv (run calls new_registry)
reached-RegistryInv calls = run-RegistryInv calls new_registry new_registry-RegistryInv
