-- ===== src/Server/Agents/Sending.antt =====
-- Sending to a connected agent in src/server/agents.rs: `try_send_current`.
use evebox.Base.{
  ℕ, ◌≡◌, ◌↔◌, ◌<◌, ◌⊎◌, inl, inr, refl, sym, ap, true, not, Option, none, some, some_inj, subst,
  [], ◌∷◌, ◌++◌, length, get_elem?, modify, modify-at, modify-same, ltb, if_lem, arith,
}
use evebox.Agent.Protocol.{ServerMessage}
use evebox.Server.AgentEntry.{AgentEntry, SendError, closed, full, try_send, outbound_capacity}
use evebox.Server.Agents.{AgentRegistry, is_generation, get, try_send_entry, try_send_current}

-- The name of the entry leads to an entry of the same generation.
abbrev pub IsCurrent : AgentEntry → AgentRegistry → Type 0
IsCurrent e r = (f : AgentEntry) × (get e.name r ≡ some f) × (f.generation ≡ e.generation)

is_generation_iff :
    (o : Option AgentEntry) (generation : ℕ)
    → (is_generation o generation ≡ true)
      ↔ ((f : AgentEntry) × (o ≡ some f) × (f.generation ≡ generation))
unfolding is_generation
is_generation_iff none generation = (λ h. cc, λ h. cc)
is_generation_iff (some f) generation = (λ h. (f, refl, ground arith), λ (g, same, e). ground arith)

-- The connection can take a message: it still has its queue, with room.
abbrev pub HasRoom : AgentEntry → Type 0
HasRoom e = (e.outbound_open ≡ true) × (length e.outbound < outbound_capacity)

try_send_entry_iff :
    (a : ℕ) (o : Option AgentEntry) (message : ServerMessage) (r : AgentRegistry)
    → ((try_send_entry a o message r).1 ≡ none)
      ↔ ((e : AgentEntry) × (o ≡ some e) × (IsCurrent e r) × (HasRoom e))
unfolding try_send_entry try_send
try_send_entry_iff a none message r = (λ h. cc, λ h. cc)
try_send_entry_iff a (some e) message r =
    let current = is_generation_iff (get e.name r) e.generation in
    (
      λ h. (e, refl, current.0 (ground arith), (ground arith, ground arith)),
      λ (f, same, here, room).
          let back : f ≡ e = sym (some_inj same) in
          let now = current.1 (subst (λ x. IsCurrent x r) back here) in
          let (is_open, free) = subst HasRoom back room in ground arith,
    )

-- The entry with one more message in its queue.
abbrev queued : ServerMessage → AgentEntry → AgentEntry
queued message e = record e { outbound = e.outbound ++ message ∷ [] }

-- A success puts the message last in the queue of the entry, and a failure changes nothing.
abbrev pub IsSent : ℕ → ServerMessage → AgentRegistry → AgentRegistry × Option SendError → Type 0
IsSent a message r (r', none) = r' ≡ record r { heap = modify a (queued message) r.heap }
IsSent a message r (r', some failure) = r' ≡ r

abbrev IsTried : ServerMessage → AgentEntry → AgentEntry × Option SendError → Type 0
IsTried message e r =
    (r ≡ (queued message e, none)) ⊎ ((failure : SendError) × (r ≡ (e, some failure)))

-- The entry after a message: with it in its queue, or as it was.
try_send-cases : (message : ServerMessage) (e : AgentEntry) → IsTried message e (try_send message e)
unfolding try_send
try_send-cases message e =
    if_lem (IsTried message e) (not e.outbound_open) _ _ (λ _. inr (closed, refl))
      (λ _.
        if_lem (IsTried message e) (ltb (length e.outbound) outbound_capacity) _ _ (λ _. inl refl)
          (λ _. inr (full, refl)))

try_send_entry-IsSent :
    (a : ℕ) (o : Option AgentEntry) (message : ServerMessage) (r : AgentRegistry)
    → get_elem? r.heap a ≡ o
    → IsSent a message r (try_send_entry a o message r)
unfolding try_send_entry try_send
try_send_entry-IsSent a none message r at = refl
try_send_entry-IsSent a (some e) message r at =
    let put : AgentEntry → AgentRegistry = λ x. record r { heap = modify a (λ _. x) r.heap } in
    if_lem (IsSent a message r) (is_generation (get e.name r) e.generation) _ _
      (λ _. elim (try_send-cases message e) [
        | inl done ↦
            subst (λ x. IsSent a message r (put x.0, x.1)) (sym done)
              (ap (λ heap. record r { heap = heap }) (modify-at a (queued message) r.heap e at))
        | inr (failure, kept) ↦
            subst (λ x. IsSent a message r (put x.0, x.1)) (sym kept)
              (ap (λ heap. record r { heap = heap }) (modify-same a r.heap e at))
      ])
      (λ _. refl)

-- A message to a connection is queued exactly when its name still leads to a connection of its
-- generation, its queue is open and fewer than the capacity of messages wait in it. A success puts
-- the message last in the queue of that connection and changes nothing else; a failure changes
-- nothing.
pub try_send_current_iff :
    (a : ℕ) (message : ServerMessage) (r : AgentRegistry)
    → (((try_send_current a message r).1 ≡ none)
        ↔ ((e : AgentEntry) × (get_elem? r.heap a ≡ some e) × (IsCurrent e r) × (HasRoom e)))
      × (IsSent a message r (try_send_current a message r))
unfolding try_send_current
try_send_current_iff a message r = (
  try_send_entry_iff a (get_elem? r.heap a) message r,
  try_send_entry-IsSent a (get_elem? r.heap a) message r refl,
)
