-- ===== src/Pcap/Request.antt =====
-- src/pcap/request.rs, and the selector of src/pcap/filter.rs: what a fetch is asked for.
-- A `Duration` is its number of nanoseconds, a path is a text, an address is its number.
use evebox.Base.{ℕ, ◌-◌, ◌*◌, ◌^◌, Bool, false, Option, none, List, String}

pub data IpAddr : Type 0 where
  v4 v6 : ℕ → IpAddr

abbrev pub u64_max : ℕ
u64_max = 2 ^ 64 - 1

pub record FlowSelector : Type 0 where
  pub proto : ℕ
  pub a_ip : IpAddr
  pub a_port : Option ℕ
  pub b_ip : IpAddr
  pub b_port : Option ℕ

pub data PcapFilter : Type 0 where
  expression : String → PcapFilter
  flow : FlowSelector → PcapFilter

pub record SpoolConfig : Type 0 where
  pub directory : String
  pub prefix : Option String
  pub margin : ℕ

unfoldable pub new_spool_config : String → Option String → SpoolConfig
new_spool_config directory prefix = record {
  directory = directory;
  prefix = prefix;
  margin = 60 * 1_000_000_000;
}

pub data PcapSource : Type 0 where
  spool : SpoolConfig → PcapSource
  files : List String → PcapSource

pub record Limits : Type 0 where
  pub max_bytes : ℕ
  pub deadline : Option ℕ
  pub flush_interval : ℕ

unfoldable pub default_limits : Limits
default_limits = record { max_bytes = u64_max; deadline = none; flush_interval = 250 * 1_000_000 }

pub record FetchStats : Type 0 where
  pub packets : ℕ
  pub bytes : ℕ
  pub files_scanned : ℕ
  pub files_vanished : ℕ
  pub truncated : Bool
  pub linktype : Option ℕ

abbrev pub default_stats : FetchStats
default_stats = record {
  packets = 0;
  bytes = 0;
  files_scanned = 0;
  files_vanished = 0;
  truncated = false;
  linktype = none;
}

pub record PcapRequest : Type 0 where
  pub filter : Option PcapFilter
  pub start : Option ℕ
  pub end : Option ℕ
  pub limits : Limits
