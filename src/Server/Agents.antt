-- ===== src/Server/Agents.antt =====
-- src/server/agents.rs: the connected agents.
--
-- An entry is shared by `Arc` between the registry, the connection's task and the capture
-- requests, so entries stand in a heap and the map of names holds their addresses.
pub mod Invariant
pub mod Frame
pub mod Registration
pub mod Revocation
pub mod Issued
pub mod Sending
pub mod Routing
pub mod Examples
use evebox.Base.{
  modify, ℕ, zero, suc, ◌+◌, ◌-◌, ◌^◌, ◌%◌, Bool, true, false, not, ◌&&◌, ◌||◌, Option, none, some,
  List, [], ◌∷◌, ◌++◌, String, length, get_elem?, any, ltb, ◌==◌, str_eq, if◌then◌else◌, lookup,
  insert, remove as remove_key,
}
use evebox.Pcap.Request.{u64_max}
use evebox.Agent.Protocol.{AgentHandshake, ServerMessage}
use evebox.Server.Job.{AgentConnectionId}
use evebox.Server.AgentEntry.{
  AgentEntry, AgentKeyIdentity, cancel_entry, SendError, closed, try_send, EntryCall, entry_call,
}

pub data RegistrationRefused : Type 0 where
  name_held_by_other_key revoked_key : RegistrationRefused

pub record AgentRegistry : Type 0 where
  pub heap : List AgentEntry
  pub agents : List (String × ℕ)
  pub revoked_key_ids : List ℕ
  pub next_generation : ℕ

unfoldable pub new_registry : AgentRegistry
new_registry = record { heap = []; agents = []; revoked_key_ids = []; next_generation = 1 }

abbrev pub entry_at : Option ℕ → List AgentEntry → Option AgentEntry
entry_at none heap = none
entry_at (some a) heap = get_elem? heap a

abbrev pub contains_id : ℕ → List ℕ → Bool
contains_id k ids = any (λ id. id == k) ids

is_revoked : Option AgentKeyIdentity → List ℕ → Bool
is_revoked none revoked = false
is_revoked (some key) revoked = contains_id key.id revoked

-- Two identities to compare, and they differ.
is_other_key : Option AgentKeyIdentity → Option AgentKeyIdentity → Bool
is_other_key (some held) (some claimed) = not (held.id == claimed.id)
is_other_key _ _ = false

is_held_by_other : Option AgentEntry → Option AgentKeyIdentity → Bool
unfolding is_other_key
is_held_by_other none key = false
is_held_by_other (some previous) key = is_other_key previous.key key

-- The slot of the entry that is replaced, or a new one.
inherited_slot : Option AgentEntry → ℕ → ℕ
inherited_slot none fresh = fresh
inherited_slot (some previous) fresh = previous.pcap_busy

-- The previous entry of the name is told to stop.
pub cancel_previous : Option ℕ → List AgentEntry → List AgentEntry
unfolding cancel_entry
cancel_previous none heap = heap
cancel_previous (some a) heap = modify a cancel_entry heap

pub data RegisterResult : Type 0 where
  registered : (address : ℕ) → RegisterResult
  refused : RegistrationRefused → RegisterResult

new_entry : AgentHandshake → Option AgentKeyIdentity → String → ℕ → ℕ → ℕ → AgentEntry
new_entry handshake key remote now generation slot = record {
  name = handshake.name;
  hostname = handshake.hostname;
  version = handshake.version;
  capabilities = handshake.capabilities;
  connected_at = now;
  generation = generation;
  key = key;
  remote = remote;
  outbound = [];
  outbound_open = true;
  pcap_busy = slot;
  last_seen = now;
  rtt_ms = u64_max;
  pongs = 0;
  cancelled = false;
}

-- The state after an accepted registration; `previous` is the address that the name had.
pub accept :
    Option ℕ → AgentHandshake → Option AgentKeyIdentity → String → ℕ → AgentRegistry → AgentRegistry
unfolding new_entry inherited_slot cancel_previous
accept previous handshake key remote now r =
    let address = length r.heap in
    let slot = inherited_slot (entry_at previous r.heap) address in
    let entry = new_entry handshake key remote now r.next_generation slot in
    record r {
      heap = cancel_previous previous r.heap ++ entry ∷ [];
      agents = insert handshake.name address r.agents;
      next_generation = (r.next_generation + 1) % 2 ^ 64;
    }

unfoldable pub register :
    AgentHandshake
    → Option AgentKeyIdentity
    → String
    → ℕ
    → AgentRegistry
    → AgentRegistry × RegisterResult
unfolding is_revoked is_held_by_other accept
register handshake key remote now r =
    let previous = lookup handshake.name r.agents in
    if is_revoked key r.revoked_key_ids
    then (r, refused revoked_key)
    else if is_held_by_other (entry_at previous r.heap) key
    then (r, refused name_held_by_other_key)
    else (accept previous handshake key remote now r, registered (length r.heap))

is_generation : Option AgentEntry → ℕ → Bool
is_generation none generation = false
is_generation (some e) generation = e.generation == generation

unfoldable pub get : String → AgentRegistry → Option AgentEntry
get name r = entry_at (lookup name r.agents) r.heap

unfoldable pub remove : AgentConnectionId → AgentRegistry → AgentRegistry × Bool
unfolding is_generation get
remove connection r =
    if is_generation (get connection.name r) connection.generation
    then (record r { agents = remove_key connection.name r.agents }, true)
    else (r, false)

pub holds_key : ℕ → Option AgentEntry → Bool
holds_key key_id none = false
holds_key key_id (some e) = elim e.key [ none ↦ false | some key ↦ key.id == key_id ]

-- The address of the first current entry with the key.
pub find_key : ℕ → List (String × ℕ) → List AgentEntry → Option ℕ
unfolding holds_key
find_key key_id [] heap = none
find_key key_id ((_, a) ∷ agents) heap =
    if holds_key key_id (get_elem? heap a) then some a else find_key key_id agents heap

revoke_found : Option ℕ → AgentRegistry → AgentRegistry × Bool
unfolding cancel_entry
revoke_found none r = (r, false)
revoke_found (some a) r = (record r { heap = modify a cancel_entry r.heap }, true)

unfoldable pub revoke_key : ℕ → AgentRegistry → AgentRegistry × Bool
unfolding find_key revoke_found
revoke_key key_id r =
    revoke_found (find_key key_id r.agents r.heap)
      (record r { revoked_key_ids = key_id ∷ r.revoked_key_ids })

-- Queue a message for the entry at an address, only while its generation is current.
pub try_send_entry :
    ℕ → Option AgentEntry → ServerMessage → AgentRegistry → AgentRegistry × Option SendError
unfolding try_send is_generation get
try_send_entry a none message r = (r, some closed)
try_send_entry a (some e) message r =
    let (e', failure) = try_send message e in
    if is_generation (get e.name r) e.generation
    then (record r { heap = modify a (λ _. e') r.heap }, failure)
    else (r, some closed)

unfoldable pub try_send_current :
    ℕ → ServerMessage → AgentRegistry → AgentRegistry × Option SendError
unfolding try_send_entry
try_send_current a message r = try_send_entry a (get_elem? r.heap a) message r

-- Everything that connections, the admin interface and capture requests call.
pub data Call : Type 0 where
  register_call : AgentHandshake → Option AgentKeyIdentity → (remote : String) → (now : ℕ) → Call
  remove_call : AgentConnectionId → Call
  revoke_call : (key_id : ℕ) → Call
  send_call : (address : ℕ) → ServerMessage → Call
  entry_step : (address : ℕ) → EntryCall → Call

unfoldable pub step : Call → AgentRegistry → AgentRegistry
unfolding register remove revoke_key try_send_current
step (register_call handshake key remote now) r = (register handshake key remote now r).0
step (remove_call connection) r = (remove connection r).0
step (revoke_call key_id) r = (revoke_key key_id r).0
step (send_call a message) r = (try_send_current a message r).0
step (entry_step a call) r = record r { heap = modify a (entry_call call) r.heap }

unfoldable pub run : List Call → AgentRegistry → AgentRegistry
run [] r = r
run (call ∷ calls) r = run calls (step call r)
