-- ===== src/Pcap/File.antt =====
-- src/util/pcap.rs (the file and record headers) and src/pcap/writer.rs (the streaming writer).
-- A byte is a number below 256. What `write_all` answers is the consumer's: an oracle on the number
-- of the call.
pub mod Stream
pub mod Unique
pub mod Examples
use evebox.Base.{
  ℕ, zero, suc, ◌+◌, ◌-◌, ◌*◌, ◌/◌, ◌%◌, ◌^◌, Bool, true, false, not, List, [], ◌∷◌, ◌++◌, length,
  if◌then◌else◌,
}

-- The signed fields of libpcap's timestamps, over the same numbers as everything else.
pub data ℤ : Type 0 where
  pos negsuc : ℕ → ℤ

-- `as u32` keeps the low 32 bits, of the two's complement where the number is negative.
unfoldable pub as_u32 : ℤ → ℕ
as_u32 (pos n) = n % 2 ^ 32
as_u32 (negsuc n) = 2 ^ 32 - 1 - n % 2 ^ 32

pub record Packet : Type 0 where
  pub tv_sec : ℤ
  pub tv_usec : ℤ
  pub orig_len : ℕ
  pub payload : List ℕ

abbrev pub file_header_len : ℕ
file_header_len = 24

abbrev pub pcap_record_header_size : ℕ
pcap_record_header_size = 16

unfoldable pub put_u16_le : ℕ → List ℕ
put_u16_le n = n % 256 ∷ (n / 256) % 256 ∷ []

unfoldable pub put_u32_le : ℕ → List ℕ
put_u32_le n = n % 256 ∷ (n / 256) % 256 ∷ (n / 65_536) % 256 ∷ (n / 16_777_216) % 256 ∷ []

unfoldable pub create_header_with_snaplen : ℕ → ℕ → List ℕ
unfolding put_u16_le put_u32_le
create_header_with_snaplen linktype snaplen =
    put_u32_le 2_712_847_316
    ++ put_u16_le 2
    ++ put_u16_le 4
    ++ put_u32_le 0
    ++ put_u32_le 0
    ++ put_u32_le snaplen
    ++ put_u32_le linktype

unfoldable pub create_header : ℕ → List ℕ
unfolding create_header_with_snaplen
create_header linktype = create_header_with_snaplen linktype 4_294_967_295

unfoldable pub create_record_raw : ℕ → ℕ → ℕ → List ℕ → List ℕ
unfolding put_u32_le
create_record_raw ts_sec ts_usec orig_len payload =
    put_u32_le ts_sec
    ++ put_u32_le ts_usec
    ++ put_u32_le (length payload % 2 ^ 32)
    ++ put_u32_le orig_len
    ++ payload

pub record PcapWriter : Type 0 where
  pub out : List ℕ
  pub bytes : ℕ
  pub header_written : Bool

abbrev pub new_writer : PcapWriter
new_writer = record { out = []; bytes = 0; header_written = false }

unfoldable pub next_write_size : ℕ → PcapWriter → ℕ
next_write_size data_len w =
    if w.header_written
    then pcap_record_header_size + data_len
    else pcap_record_header_size + data_len + file_header_len

-- A call of `write_all` that the consumer takes, or refuses.
pub data WriteResult : Type 0 where
  written : PcapWriter → WriteResult
  write_failed : PcapWriter → WriteResult

unfoldable pub record_of : Packet → List ℕ
unfolding create_record_raw as_u32
record_of packet =
    create_record_raw (as_u32 packet.tv_sec) (as_u32 packet.tv_usec) packet.orig_len packet.payload

unfoldable pub write_record : (accepts : Bool) → Packet → PcapWriter → WriteResult
unfolding record_of
write_record false packet w = write_failed w
write_record true packet w =
    let chunk = record_of packet in
    written (record w { out = w.out ++ chunk; bytes = (w.bytes + length chunk) % 2 ^ 64 })

unfoldable pub write_header : (accepts : Bool) → ℕ → PcapWriter → WriteResult
unfolding create_header
write_header false linktype w = write_failed w
write_header true linktype w =
    let header = create_header linktype in
    written (record {
      out = w.out ++ header;
      bytes = (w.bytes + length header) % 2 ^ 64;
      header_written = true;
    })

-- Go on after a write that was taken.
unfoldable pub and_then : WriteResult → (PcapWriter → WriteResult) → WriteResult
and_then (written w) f = f w
and_then (write_failed w) f = write_failed w

-- The header goes out before the first record; `accepts` answers for the two calls.
unfoldable pub write_packet :
    (accepts : ℕ → Bool) → (linktype : ℕ) → Packet → PcapWriter → WriteResult
unfolding write_header write_record and_then
write_packet accepts linktype packet w =
    and_then
      (if w.header_written then written w else write_header (accepts 0) (linktype % 2 ^ 32) w)
      (write_record (accepts 1) packet)
