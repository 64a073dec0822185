-- ===== src/Server/Agents/Examples.antt =====
-- Runs of the registry of src/server/agents.rs: an agent that connects twice under one key, and the
-- revocation of that key.
use evebox.Base.{
  ℕ, zero, ◌≡◌, ◌≢◌, ◌↔◌, refl, Bool, true, false, none, some, List, [], ◌∷◌, String, length,
  get_elem?, lookup, insert, modify, arith,
}
use evebox.Pcap.Request.{u64_max}
use evebox.Agent.Protocol.{AgentHandshake, server_unknown}
use evebox.Server.AgentEntry.{AgentEntry, AgentKeyIdentity, connection_id, cancel_entry, supports}
use evebox.Server.Agents.{
  new_registry, try_send_current, Call, register_call, run, step, register, registered, refused,
  revoked_key, remove, get, revoke_key, contains_id, holds_key,
}
use evebox.Server.Agents.Registration.{
  IsUnwrapped, IsUnrevoked, IsSameKey, IsReplaced, generation_unique, stale_remove, register_iff,
  register_replaces,
}
use evebox.Server.Agents.Routing.{has_pcap, pcap_agent, has_pcap_iff}
use evebox.Server.Agents.Sending.{IsCurrent, HasRoom, IsSent, try_send_current_iff}
use evebox.Server.Agents.Issued.{revoke_stops_holder}
use evebox.Server.Agents.Revocation.{
  IsHolder, IsCancelled, IsRevoked, revoked_register, revoke_key_iff,
}

abbrev handshake : AgentHandshake
handshake = record { name = "eve"; hostname = "host"; version = "0.1"; capabilities = "pcap" ∷ [] }

abbrev key : AgentKeyIdentity
key = record { id = 5; name = "eve" }

abbrev connected : (now generation : ℕ) → Bool → AgentEntry
connected now generation cancelled = record {
  name = "eve";
  hostname = "host";
  version = "0.1";
  capabilities = "pcap" ∷ [];
  connected_at = now;
  generation = generation;
  key = some key;
  remote = "10.0.0.1";
  outbound = [];
  outbound_open = true;
  pcap_busy = 0;
  last_seen = now;
  rtt_ms = u64_max;
  pongs = 0;
  cancelled = cancelled;
}

abbrev once : List Call
once = register_call handshake (some key) "10.0.0.1" 100 ∷ []

abbrev twice : List Call
twice =
    register_call handshake (some key) "10.0.0.1" 100
    ∷ register_call handshake (some key) "10.0.0.1" 200
    ∷ []

once_at_0 : get_elem? (run once new_registry).heap 0 ≡ some (connected 100 1 false)
unfolding run step register new_registry lookup insert
once_at_0 = refl

once_named : lookup "eve" (run once new_registry).agents ≡ some 0
unfolding run step register new_registry lookup insert
once_named = refl

once-IsUnwrapped : IsUnwrapped (run once new_registry)
unfolding run step register new_registry lookup insert
once-IsUnwrapped = omega arith

twice_at_0 : get_elem? (run twice new_registry).heap 0 ≡ some (connected 100 1 true)
unfolding run step register new_registry lookup insert modify cancel_entry
twice_at_0 = refl

twice_named : lookup "eve" (run twice new_registry).agents ≡ some 1
unfolding run step register new_registry lookup insert modify cancel_entry
twice_named = refl

twice-IsUnwrapped : IsUnwrapped (run twice new_registry)
unfolding run step register new_registry lookup insert modify cancel_entry
twice-IsUnwrapped = omega arith

generation_unique_example : zero ≡ zero
generation_unique_example = generation_unique once 0 0 once-IsUnwrapped once_at_0 once_at_0 refl

stale_remove_example :
    remove (connection_id (connected 100 1 true)) (run twice new_registry)
    ≡ (run twice new_registry, false)
stale_remove_example =
    stale_remove twice 0 1 twice-IsUnwrapped twice_at_0 twice_named (λ e. omega (arith, e))

register_iff_example :
    (((register handshake (some key) "10.0.0.1" 200 (run once new_registry)).1
        ≡ registered (length (run once new_registry).heap))
      ↔ ((IsUnrevoked (some key) (run once new_registry).revoked_key_ids)
          × (IsSameKey (get "eve" (run once new_registry)) (some key))))
    × (((register handshake (some key) "10.0.0.1" 200 (run once new_registry)).1
          ≢ registered (length (run once new_registry).heap))
        → (register handshake (some key) "10.0.0.1" 200 (run once new_registry)).0
          ≡ run once new_registry)
register_iff_example = register_iff handshake (some key) "10.0.0.1" 200 (run once new_registry)

second_accepted :
    (register handshake (some key) "10.0.0.1" 200 (run once new_registry)).1
    ≡ registered (length (run once new_registry).heap)
unfolding run step register new_registry lookup insert
second_accepted = refl

register_replaces_example :
    IsReplaced handshake
      (some key)
      0
      (connected 100 1 false)
      (run once new_registry)
      (register handshake (some key) "10.0.0.1" 200 (run once new_registry)).0
register_replaces_example =
    register_replaces handshake (some key) "10.0.0.1" 200 0 (run once new_registry) once_named
      once_at_0 second_accepted

revoked_register_example :
    register handshake (some key) "10.0.0.1" 300 (run once (revoke_key 5 (run once new_registry)).0)
    ≡ (run once (revoke_key 5 (run once new_registry)).0, refused revoked_key)
revoked_register_example =
    revoked_register (run once new_registry) once handshake key "10.0.0.1" 300

revoke_key_iff_example :
    (IsRevoked 5 (run once new_registry) (revoke_key 5 (run once new_registry)))
    × (contains_id 5 (revoke_key 5 (run once new_registry)).0.revoked_key_ids ≡ true)
revoke_key_iff_example = revoke_key_iff once 5

once-IsHolder : IsHolder 5 0 (run once new_registry)
unfolding run step register new_registry lookup insert holds_key
once-IsHolder = (("eve", once_named), refl)

revoke_stops_holder_example :
    ((revoke_key 5 (run once new_registry)).1 ≡ true)
    × (IsCancelled (get_elem? (revoke_key 5 (run once new_registry)).0.heap 0))
revoke_stops_holder_example = revoke_stops_holder (λ id. "eve") once 5 0 (refl, tt) once-IsHolder

try_send_current_iff_example :
    (((try_send_current 0 server_unknown (run once new_registry)).1 ≡ none) ↔ (
      (e : AgentEntry) × (get_elem? (run once new_registry).heap 0 ≡ some e)
      × (IsCurrent e (run once new_registry))
      × (HasRoom e)))
    × (IsSent 0 server_unknown
        (run once new_registry)
        (try_send_current 0 server_unknown (run once new_registry)))
try_send_current_iff_example = try_send_current_iff 0 server_unknown (run once new_registry)

has_pcap_iff_example :
    (has_pcap (run once new_registry) ≡ true)
    ↔ ((name : String) × (pcap_agent name (run once new_registry) ≢ none))
has_pcap_iff_example = has_pcap_iff once

once-has_pcap : has_pcap (run once new_registry) ≡ true
unfolding has_pcap run step register new_registry lookup insert supports
once-has_pcap = refl
