-- ===== src/Pcap/File/Examples.antt =====
-- The first packet of a capture.
use evebox.Base.{◌+◌, ◌≡◌, refl, true, [], ◌∷◌, length, arith}
use evebox.Pcap.File.{
  Packet, pos, PcapWriter, new_writer, next_write_size, written, write_packet, write_header,
  write_record, and_then, record_of, create_record_raw, create_header, create_header_with_snaplen,
  put_u16_le, put_u32_le, as_u32,
}
use evebox.Pcap.File.Stream.{Wrote, stream, write_packet-Wrote}
use evebox.Pcap.File.Unique.{stream_unique}

abbrev first_packet : Packet
first_packet = record { tv_sec = pos 7; tv_usec = pos 1; orig_len = 2; payload = 8 ∷ 9 ∷ [] }

abbrev first_writer : PcapWriter
first_writer = record { out = stream 1 (first_packet ∷ []); bytes = 42; header_written = true }

new_writer-Wrote : Wrote 1 [] new_writer
new_writer-Wrote = record { as_stream = refl; begun = refl; counted = refl }

first_written : write_packet (λ call. true) 1 first_packet new_writer ≡ written first_writer
unfolding write_packet write_header write_record and_then record_of create_record_raw create_header
    create_header_with_snaplen put_u16_le put_u32_le as_u32
first_written = refl

write_packet-Wrote_example :
    Wrote 1 (first_packet ∷ []) first_writer
    × (length first_writer.out ≡ length new_writer.out + next_write_size 2 new_writer)
write_packet-Wrote_example =
    write_packet-Wrote (λ call. true) 1 [] first_packet new_writer new_writer-Wrote first_written

-- The link type of the second capture is the same in the 32 bits of the header.
stream_unique_example : first_packet ∷ [] ≡ first_packet ∷ []
unfolding create_header create_header_with_snaplen put_u16_le put_u32_le
stream_unique_example =
    stream_unique 1 4_294_967_297 (first_packet ∷ []) (first_packet ∷ []) (omega arith)
      (omega arith) refl
