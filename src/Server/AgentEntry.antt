-- ===== src/Server/AgentEntry.antt =====
-- `AgentEntry` of src/server/agents.rs: a connected agent, as its connection's task, the registry
-- and the capture requests share it. The cells that change (last seen, round trip, pongs, the
-- shutdown token, the outbound queue) are fields. A semaphore is named by the address of the
-- entry that made it. The time of day is an argument. Key identifiers are natural numbers.
use evebox.Base.{
  ℕ, ◌+◌, ◌^◌, ◌%◌, Bool, true, false, not, Option, none, some, List, [], ◌∷◌, ◌++◌, String, length,
  any, ltb, str_eq, if◌then◌else◌,
}
use evebox.Agent.Protocol.{ServerMessage}
use evebox.Server.Job.{AgentConnectionId}

abbrev pub outbound_capacity : ℕ
outbound_capacity = 32

abbrev pub local_pcap_source_name : String
local_pcap_source_name = "(server)"

pub record AgentKeyIdentity : Type 0 where
  pub id : ℕ
  pub name : String

pub record AgentEntry : Type 0 where
  pub name : String
  pub hostname : String
  pub version : String
  pub capabilities : List String
  pub connected_at : ℕ
  pub generation : ℕ
  pub key : Option AgentKeyIdentity
  pub remote : String
  pub outbound : List ServerMessage  -- messages queued and not yet taken by the connection
  pub outbound_open : Bool  -- the connection still holds the receiver
  pub pcap_busy : ℕ
  pub last_seen : ℕ
  pub rtt_ms : ℕ  -- `u64_max` while no round trip has been seen
  pub pongs : ℕ
  pub cancelled : Bool  -- the shutdown token

unfoldable pub connection_id : AgentEntry → AgentConnectionId
connection_id e = record { name = e.name; generation = e.generation }

unfoldable pub touch : ℕ → AgentEntry → AgentEntry
touch now e = record e { last_seen = now }

unfoldable pub set_rtt : ℕ → AgentEntry → AgentEntry
set_rtt rtt_ms e = record e { rtt_ms = rtt_ms }

unfoldable pub pong_received : AgentEntry → AgentEntry
pong_received e = record e { pongs = (e.pongs + 1) % 2 ^ 64 }

unfoldable pub cancel_entry : AgentEntry → AgentEntry
cancel_entry e = record e { cancelled = true }

unfoldable pub supports : String → AgentEntry → Bool
supports capability e = any (λ value. str_eq value capability) e.capabilities

pub data SendError : Type 0 where
  full closed : SendError

unfoldable pub try_send : ServerMessage → AgentEntry → AgentEntry × Option SendError
try_send message e =
    if not e.outbound_open
    then (e, some closed)
    else if ltb (length e.outbound) outbound_capacity
    then (record e { outbound = e.outbound ++ message ∷ [] }, none)
    else (e, some full)

-- The calls on one shared entry that others than the registry make.
pub data EntryCall : Type 0 where
  touch_call : (now : ℕ) → EntryCall
  rtt_call : (rtt_ms : ℕ) → EntryCall
  pong_call close_outbound take_message : EntryCall

abbrev tail_messages : List ServerMessage → List ServerMessage
tail_messages [] = []
tail_messages (_ ∷ messages) = messages

unfoldable pub entry_call : EntryCall → AgentEntry → AgentEntry
unfolding touch set_rtt pong_received
entry_call (touch_call now) e = touch now e
entry_call (rtt_call rtt_ms) e = set_rtt rtt_ms e
entry_call pong_call e = pong_received e
entry_call close_outbound e = record e { outbound_open = false }
entry_call take_message e = record e { outbound = tail_messages e.outbound }
