-- ===== src/Agent/Protocol.antt =====
-- src/agent/protocol.rs: the messages of the control channel and their conversions to and from
-- the types of the extraction engine. A token is the list of its bytes.
pub mod RoundTrip
pub mod Examples
use evebox.Base.{
  ℕ, ◌/◌, ◌*◌, Bool, true, false, Option, none, some, List, [], ◌∷◌, String, leb, if◌then◌else◌,
}
use evebox.Pcap.Request.{
  IpAddr, FlowSelector, PcapFilter, expression, flow, Limits, default_limits, FetchStats, u64_max,
}

abbrev pub capability_pcap : String
capability_pcap = "pcap"

pub record AgentHandshake : Type 0 where
  pub name : String
  pub hostname : String
  pub version : String
  pub capabilities : List String

pub record WireEndpoint : Type 0 where
  pub ip : IpAddr
  pub port : Option ℕ

pub data WirePcapFilter : Type 0 where
  wire_flow : (proto : ℕ) → (a b : WireEndpoint) → WirePcapFilter
  wire_expression : String → WirePcapFilter
  wire_all : WirePcapFilter

pub record WireLimits : Type 0 where
  pub max_bytes : ℕ
  pub scan_timeout_ms : ℕ

pub record WireStats : Type 0 where
  pub packets : ℕ
  pub bytes : ℕ
  pub files_scanned : ℕ
  pub files_vanished : ℕ
  pub truncated : Bool

pub data PcapResultCode : Type 0 where
  complete no_candidate_files no_match cancelled error : PcapResultCode

pub data PcapUploadStatus : Type 0 where
  upload_none upload_complete upload_failed : PcapUploadStatus

pub record PcapResult : Type 0 where
  pub code : PcapResultCode
  pub upload : PcapUploadStatus
  pub message : Option String
  pub stats : Option WireStats

unfoldable pub error_result : String → PcapResult
error_result message = record {
  code = error;
  upload = upload_none;
  message = some message;
  stats = none;
}

unfoldable pub cancelled_result : PcapUploadStatus → Option WireStats → PcapResult
cancelled_result upload stats = record {
  code = cancelled;
  upload = upload;
  message = none;
  stats = stats;
}

pub data ServerMessage : Type 0 where
  hello : (server_version : String) → (capabilities : List String) → ServerMessage
  pcap_request :
      (id : String)
      → (token : List ℕ) → (filter : WirePcapFilter) → (start_us end_us : ℕ) → (limits : WireLimits)
      → ServerMessage
  cancel : (id : String) → (token : List ℕ) → ServerMessage
  server_unknown : ServerMessage

pub data AgentMessage : Type 0 where
  pcap_result : (id : String) → (token : List ℕ) → (result : PcapResult) → AgentMessage
  agent_unknown : AgentMessage

unfoldable pub wire_of_selector : FlowSelector → WirePcapFilter
wire_of_selector selector =
    wire_flow selector.proto (record { ip = selector.a_ip; port = selector.a_port })
      (record { ip = selector.b_ip; port = selector.b_port })

unfoldable pub wire_of_filter : PcapFilter → WirePcapFilter
unfolding wire_of_selector
wire_of_filter (flow selector) = wire_of_selector selector
wire_of_filter (expression text) = wire_expression text

unfoldable pub wire_of_option : Option PcapFilter → WirePcapFilter
unfolding wire_of_filter
wire_of_option (some filter) = wire_of_filter filter
wire_of_option none = wire_all

unfoldable pub into_pcap_filter : WirePcapFilter → Option PcapFilter
into_pcap_filter (wire_flow proto a b) =
    some
      (flow (record { proto = proto; a_ip = a.ip; a_port = a.port; b_ip = b.ip; b_port = b.port }))
into_pcap_filter (wire_expression text) = some (expression text)
into_pcap_filter wire_all = none

unfoldable pub limits_of_wire : WireLimits → Limits
unfolding default_limits
limits_of_wire limits = record default_limits {
  max_bytes = limits.max_bytes;
  deadline = some (limits.scan_timeout_ms * 1_000_000);
}

-- What `TryFrom<&Limits>` refuses.
pub data WireLimitsError : Type 0 where
  timeout_required timeout_too_large : WireLimitsError

pub data WireLimitsResult : Type 0 where
  ok : WireLimits → WireLimitsResult
  err : WireLimitsError → WireLimitsResult

wire_of_deadline : ℕ → Option ℕ → WireLimitsResult
wire_of_deadline max_bytes none = err timeout_required
wire_of_deadline max_bytes (some deadline) =
    let millis = deadline / 1_000_000 in
    if leb millis u64_max
    then ok (record { max_bytes = max_bytes; scan_timeout_ms = millis })
    else err timeout_too_large

unfoldable pub wire_of_limits : Limits → WireLimitsResult
unfolding wire_of_deadline
wire_of_limits limits = wire_of_deadline limits.max_bytes limits.deadline

unfoldable pub wire_of_stats : FetchStats → WireStats
wire_of_stats stats = record {
  packets = stats.packets;
  bytes = stats.bytes;
  files_scanned = stats.files_scanned;
  files_vanished = stats.files_vanished;
  truncated = stats.truncated;
}

unfoldable pub stats_of_wire : WireStats → FetchStats
stats_of_wire stats = record {
  packets = stats.packets;
  bytes = stats.bytes;
  files_scanned = stats.files_scanned;
  files_vanished = stats.files_vanished;
  truncated = stats.truncated;
  linktype = none;
}
