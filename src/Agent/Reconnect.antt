-- ===== src/Agent/Reconnect.antt =====
-- The pauses of `run` in src/agent/channel.rs, from one connection to the next. A random draw is a
-- function of its bound.
pub mod Bounds
use evebox.Base.{
  ℕ, ◌+◌, ◌*◌, ◌/◌, min, Bool, true, false, not, ◌||◌, Option, none, some, List, [], ◌∷◌, ◌++◌,
  String, length, ltb, leb, ◌==◌, if◌then◌else◌, lookup, insert, remove, get_elem?, modify, str_eq,
  any, list_eq,
}
use evebox.Agent.Protocol.{
  capability_pcap, ServerMessage, hello, pcap_request, cancel, server_unknown, AgentMessage,
  pcap_result, PcapResult, WirePcapFilter, WireLimits,
}

abbrev pub min_backoff : ℕ
min_backoff = 1_000_000_000

abbrev pub max_backoff : ℕ
max_backoff = 30_000_000_000

abbrev pub healthy_connection_age : ℕ
healthy_connection_age = 60_000_000_000

pub data ConnectionOutcome : Type 0 where
  disconnected : (connected_for : ℕ) → ConnectionOutcome
  connect_failed server_too_old unauthorized : ConnectionOutcome

unfoldable pub next_backoff : ℕ → ℕ → ℕ × ℕ
next_backoff backoff connected_for =
    if leb healthy_connection_age connected_for
    then (min_backoff, min_backoff)
    else (backoff, min (backoff * 2) max_backoff)

-- One round of the loop in `run`: the delay, and the backoff of the next round.
unfoldable pub retry : ConnectionOutcome → ℕ → ℕ × ℕ
unfolding next_backoff
retry (disconnected connected_for) backoff = next_backoff backoff connected_for
retry connect_failed backoff = next_backoff backoff 0
retry server_too_old backoff = (max_backoff, backoff)
retry unauthorized backoff = (max_backoff, backoff)

-- `random_range` draws a number of milliseconds up to its argument.
unfoldable pub jitter : (random_range : ℕ → ℕ) → ℕ → ℕ
jitter random_range delay =
    let max_millis = delay / 1_000_000 / 2 in
    if max_millis == 0 then 0 else random_range max_millis * 1_000_000

-- How long `run` sleeps after the last of the connections.
unfoldable pub sleeps : (random_range : ℕ → ℕ) → ℕ → List ConnectionOutcome → List ℕ
unfolding retry jitter
sleeps random_range backoff [] = []
sleeps random_range backoff (outcome ∷ outcomes) =
    let (delay, next) = retry outcome backoff in
    (delay + jitter random_range delay) ∷ sleeps random_range next outcomes
