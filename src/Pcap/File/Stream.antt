-- ===== src/Pcap/File/Stream.antt =====
-- What the writer of src/pcap/writer.rs has written: nothing, or one file header and the records.
use evebox.Base.{
  ℕ, ◌+◌, ◌%◌, ◌^◌, ◌≡◌, refl, sym, ap, subst, ◌∙◌, Bool, true, false, not, List, [], ◌∷◌, ◌++◌,
  length, length-append, arith,
}
use mathlib.Core.List.{append_assoc, append-nil}
use evebox.Pcap.File.{
  Packet, put_u16_le, put_u32_le, create_header_with_snaplen, create_header, create_record_raw,
  PcapWriter, next_write_size, WriteResult, written, write_failed, record_of, write_record,
  write_header, and_then, write_packet,
}

-- The records, one after another.
abbrev pub records : List Packet → List ℕ
records [] = []
records (packet ∷ packets) = record_of packet ++ records packets

-- A capture of the packets: an empty output where there are none.
abbrev pub stream : ℕ → List Packet → List ℕ
stream linktype [] = []
stream linktype (packet ∷ packets) = create_header (linktype % 2 ^ 32) ++ records (packet ∷ packets)

abbrev pub is_empty : List Packet → Bool
is_empty [] = true
is_empty (_ ∷ _) = false

-- The writer has written these packets.
pub record Wrote (linktype : ℕ) (packets : List Packet) (w : PcapWriter) : Type 0 where
  pub as_stream : w.out ≡ stream linktype packets
  pub begun : w.header_written ≡ not (is_empty packets)
  pub counted : w.bytes ≡ length w.out % 2 ^ 64

records-snoc :
    (packets : List Packet) (packet : Packet)
    → records (packets ++ packet ∷ []) ≡ records packets ++ record_of packet
records-snoc [] packet = append-nil (record_of packet)
records-snoc (p ∷ packets) packet =
    ap (λ r. record_of p ++ r) (records-snoc packets packet)
    ∙ sym (append_assoc (record_of p) (records packets) (record_of packet))

pub length-record_of : (packet : Packet) → length (record_of packet) ≡ 16 + length packet.payload
unfolding record_of create_record_raw put_u32_le
length-record_of packet = omega arith

pub length-create_header : (linktype : ℕ) → length (create_header linktype) ≡ 24
unfolding create_header create_header_with_snaplen put_u32_le put_u16_le
length-create_header linktype = omega arith

-- The writer after a chunk has gone out.
record Sent (chunk : List ℕ) (begun : Bool) (w w' : PcapWriter) : Type 0 where
  out : w'.out ≡ w.out ++ chunk
  bytes : w'.bytes ≡ (w.bytes + length chunk) % 2 ^ 64
  header : w'.header_written ≡ begun

write_record-Sent :
    (accepts : Bool) (packet : Packet) (w : PcapWriter) {w' : PcapWriter}
    → write_record accepts packet w ≡ written w'
    → Sent (record_of packet) w.header_written w w'
unfolding write_record
write_record-Sent false packet w e = cc
write_record-Sent true packet w e = record { out = cc; bytes = cc; header = cc }

write_header-Sent :
    (accepts : Bool) (linktype : ℕ) (w : PcapWriter) {w' : PcapWriter}
    → write_header accepts linktype w ≡ written w'
    → Sent (create_header linktype) true w w'
unfolding write_header
write_header-Sent false linktype w e = cc
write_header-Sent true linktype w e = record { out = cc; bytes = cc; header = cc }

and_then_inv :
    (r : WriteResult) (f : PcapWriter → WriteResult) {w' : PcapWriter}
    → and_then r f ≡ written w'
    → (w : PcapWriter) × (r ≡ written w) × (f w ≡ written w')
unfolding and_then
and_then_inv (written w) f e = (w, refl, e)
and_then_inv (write_failed w) f e = cc

length-Sent :
    (chunk : List ℕ) (b : Bool) (w w' : PcapWriter)
    → Sent chunk b w w'
    → w.bytes ≡ length w.out % 2 ^ 64
    → (length w'.out ≡ length w.out + length chunk) × (w'.bytes ≡ length w'.out % 2 ^ 64)
length-Sent chunk b w w' s counted =
    let len = ap length s.out ∙ length-append w.out chunk in
    (len, omega (arith, len, s.bytes, counted))

-- Where a capture of the packets has been written, a write that the consumer takes makes it the
-- capture of them and the new one, and adds as many bytes as `next_write_size` announces.
pub write_packet-Wrote :
    (accepts : ℕ → Bool) (linktype : ℕ) (packets : List Packet) (packet : Packet) (w : PcapWriter)
    {w' : PcapWriter}
    → Wrote linktype packets w
    → write_packet accepts linktype packet w ≡ written w'
    → Wrote linktype (packets ++ packet ∷ []) w'
      × (length w'.out ≡ length w.out + next_write_size (length packet.payload) w)
unfolding write_packet next_write_size
write_packet-Wrote accepts linktype [] packet w {w'} h e =
    let (w₁, first, second) = and_then_inv _ (write_record (accepts 1) packet) e in
    let s₁ = write_header-Sent (accepts 0) (linktype % 2 ^ 32) w (ground arith) in
    let s₂ = write_record-Sent (accepts 1) packet w₁ second in
    let l₁ = length-Sent _ true w w₁ s₁ h.counted in
    let l₂ = length-Sent _ w₁.header_written w₁ w' s₂ l₁.1 in
    (
      record {
        as_stream =
            s₂.out
            ∙ ap (λ o. o ++ record_of packet)
                (s₁.out ∙ ap (λ o. o ++ create_header (linktype % 2 ^ 32)) h.as_stream)
            ∙ ap (λ o. create_header (linktype % 2 ^ 32) ++ o)
                (sym (append-nil (record_of packet)));
        begun = s₂.header ∙ s₁.header;
        counted = l₂.1;
      },
      rw (h.begun) (
          omega
            (arith, l₁.0, l₂.0, length-create_header (linktype % 2 ^ 32), length-record_of packet)),
    )
write_packet-Wrote accepts linktype (p ∷ packets) packet w {w'} h e =
    let (w₁, first, second) = and_then_inv _ (write_record (accepts 1) packet) e in
    let s₂ = write_record-Sent (accepts 1) packet w₁ second in
    let same : w ≡ w₁ = ground arith in
    let l₂ =
      length-Sent _ w₁.header_written w₁ w' s₂
        (subst (λ x. x.bytes ≡ length x.out % 2 ^ 64) same h.counted) in
    (
      record {
        as_stream =
            s₂.out
            ∙ ap (λ o. o ++ record_of packet) (sym (ap (λ x. x.out) same) ∙ h.as_stream)
            ∙ append_assoc (create_header (linktype % 2 ^ 32)) (records (p ∷ packets))
                (record_of packet)
            ∙ ap (λ o. create_header (linktype % 2 ^ 32) ++ o)
                (sym (records-snoc (p ∷ packets) packet));
        begun = s₂.header ∙ sym (ap (λ x. x.header_written) same) ∙ h.begun;
        counted = l₂.1;
      },
      rw (h.begun) (omega (arith, ap (λ x. length x.out) same, l₂.0, length-record_of packet)),
    )
