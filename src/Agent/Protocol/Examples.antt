-- ===== src/Agent/Protocol/Examples.antt =====
-- Conversions of src/agent/protocol.rs at concrete values.
use evebox.Base.{ℕ, ◌+◌, ◌≤◌, ◌<◌, ◌≡◌, refl, some, arith}
use evebox.Pcap.Request.{expression, Limits}
use evebox.Agent.Protocol.{
  WireLimits, ok, wire_of_option, into_pcap_filter, limits_of_wire, wire_of_limits,
}
use evebox.Agent.Protocol.RoundTrip.{
  into_pcap_filter-wire_of_option, wire_of_limits-limits_of_wire, limits-wire_bounds,
}

into_pcap_filter-wire_of_option_example :
    into_pcap_filter (wire_of_option (some (expression "tcp port 80")))
    ≡ some (expression "tcp port 80")
into_pcap_filter-wire_of_option_example =
    into_pcap_filter-wire_of_option (some (expression "tcp port 80"))

abbrev wire : WireLimits
wire = record { max_bytes = 1_000; scan_timeout_ms = 20 }

wire_of_limits-limits_of_wire_example : wire_of_limits (limits_of_wire wire) ≡ ok wire
wire_of_limits-limits_of_wire_example = wire_of_limits-limits_of_wire wire (omega arith)

abbrev limits : Limits
limits = record { max_bytes = 1_000; deadline = some 20_000_007; flush_interval = 0 }

on_the_wire : wire_of_limits limits ≡ ok wire
unfolding wire_of_limits
on_the_wire = refl

limits-wire_bounds_example :
    ((limits_of_wire wire).max_bytes ≡ 1_000)
    × ((allowed : ℕ) × ((limits_of_wire wire).deadline ≡ some allowed)
        × (allowed ≤ 20_000_007)
        × (20_000_007 < allowed + 1_000_000))
limits-wire_bounds_example = limits-wire_bounds limits refl on_the_wire
