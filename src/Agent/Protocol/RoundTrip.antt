-- ===== src/Agent/Protocol/RoundTrip.antt =====
-- The conversions of src/agent/protocol.rs between the wire and the engine lose nothing but what
-- the wire cannot carry.
use evebox.Base.{ℕ, ◌+◌, ◌*◌, ◌/◌, ◌≤◌, ◌<◌, ◌≡◌, refl, Option, none, some, arith}
use evebox.Pcap.Request.{PcapFilter, expression, flow, Limits, u64_max}
use evebox.Agent.Protocol.{
  WireLimits, ok, wire_of_option, into_pcap_filter, limits_of_wire, wire_of_limits,
}

-- A filter that the server puts on the wire is the one that the agent works with.
pub into_pcap_filter-wire_of_option :
    (filter : Option PcapFilter) → into_pcap_filter (wire_of_option filter) ≡ filter
unfolding into_pcap_filter wire_of_option
into_pcap_filter-wire_of_option none = refl
into_pcap_filter-wire_of_option (some (expression text)) = refl
into_pcap_filter-wire_of_option (some (flow selector)) = refl

-- A deadline in whole milliseconds survives the way to the agent and back.
pub wire_of_limits-limits_of_wire :
    (limits : WireLimits)
    → limits.scan_timeout_ms ≤ u64_max
    → wire_of_limits (limits_of_wire limits) ≡ ok limits
unfolding wire_of_limits limits_of_wire
wire_of_limits-limits_of_wire limits h = ground arith

-- The limits that the agent works under never exceed those that the server has set.
pub limits-wire_bounds :
    (limits : Limits) {wire : WireLimits} {deadline : ℕ}
    → limits.deadline ≡ some deadline
    → wire_of_limits limits ≡ ok wire
    → ((limits_of_wire wire).max_bytes ≡ limits.max_bytes)
      × ((allowed : ℕ) × ((limits_of_wire wire).deadline ≡ some allowed)
          × (allowed ≤ deadline)
          × (deadline < allowed + 1_000_000))
unfolding wire_of_limits limits_of_wire
limits-wire_bounds limits {deadline = d} h e =
    (ground arith, (d / 1_000_000 * 1_000_000, ground arith, ground arith, ground arith))
