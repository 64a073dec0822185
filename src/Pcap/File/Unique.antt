-- ===== src/Pcap/File/Unique.antt =====
-- What src/pcap/writer.rs writes can be read in one way: the bytes of a capture determine its packets.
use evebox.Base.{
  ℕ, ◌/◌, ◌%◌, ◌^◌, ◌<◌, ◌≡◌, refl, sym, ap, ◌∙◌, List, [], ◌∷◌, ◌++◌, length, All, arith,
}
use evebox.Pcap.File.{
  ℤ, pos, negsuc, as_u32, Packet, put_u16_le, put_u32_le, create_header_with_snaplen, create_header,
  create_record_raw, record_of,
}
use evebox.Pcap.File.Stream.{records, stream}

abbrev pub FitsU32 : ℤ → Type 0
FitsU32 (pos n) = n < 2 ^ 32
FitsU32 (negsuc n) = ⊥

-- The fields of a record hold the packet's time and lengths, so that its bytes tell them.
abbrev pub FitsRecord : Packet → Type 0
FitsRecord p =
    (FitsU32 p.tv_sec) × (FitsU32 p.tv_usec) × (p.orig_len < 2 ^ 32) × (length p.payload < 2 ^ 32)

u32_eq : (n m : ℕ) → n < 2 ^ 32 → m < 2 ^ 32 → put_u32_le n ≡ put_u32_le m → n ≡ m
unfolding put_u32_le
u32_eq n m low low' e =
    let e₀ : n % 256 ≡ m % 256 = cc in
    let e₁ : (n / 256) % 256 ≡ (m / 256) % 256 = cc in
    let e₂ : (n / 65_536) % 256 ≡ (m / 65_536) % 256 = cc in
    let e₃ : (n / 16_777_216) % 256 ≡ (m / 16_777_216) % 256 = cc in omega arith

as_u32-lt : (z : ℤ) → as_u32 z < 2 ^ 32
unfolding as_u32
as_u32-lt (pos n) = omega arith
as_u32-lt (negsuc n) = omega arith

as_u32_eq : (a b : ℤ) → FitsU32 a → FitsU32 b → as_u32 a ≡ as_u32 b → a ≡ b
unfolding as_u32
as_u32_eq (pos n) (pos m) low low' e = let same : n ≡ m = omega (arith, low, low', e) in ap pos same
as_u32_eq (pos n) (negsuc m) low low' e = absurd low'
as_u32_eq (negsuc n) b low low' e = absurd low

append_eq : (xs ys r s : List ℕ) → length xs ≡ length ys → xs ++ r ≡ ys ++ s → (xs ≡ ys) × (r ≡ s)
append_eq [] [] r s len e = (refl, e)
append_eq [] (y ∷ ys) r s len e = absurd (omega (arith, len))
append_eq (x ∷ xs) [] r s len e = absurd (omega (arith, len))
append_eq (x ∷ xs) (y ∷ ys) r s len e =
    let (same, rest) = append_eq xs ys r s (omega (arith, len)) cc in
    let first : x ≡ y = cc in (cc, rest)

length-put_u32_le : (n m : ℕ) → length (put_u32_le n) ≡ length (put_u32_le m)
unfolding put_u32_le
length-put_u32_le n m = refl

-- The number in front, and what follows it.
field_eq :
    (n m : ℕ) (r s : List ℕ)
    → n < 2 ^ 32
    → m < 2 ^ 32
    → put_u32_le n ++ r ≡ put_u32_le m ++ s
    → (n ≡ m) × (r ≡ s)
field_eq n m r s low low' e =
    let (same, rest) = append_eq (put_u32_le n) (put_u32_le m) r s (length-put_u32_le n m) e in
    (u32_eq n m low low' same, rest)

-- A record as the fields that stand in front of what follows.
abbrev fields : Packet → List ℕ → List ℕ
fields p r =
    put_u32_le (as_u32 p.tv_sec)
    ++ (put_u32_le (as_u32 p.tv_usec)
        ++ (put_u32_le (length p.payload % 2 ^ 32) ++ (put_u32_le p.orig_len ++ (p.payload ++ r))))

record_of-append : (p : Packet) (r : List ℕ) → record_of p ++ r ≡ fields p r
unfolding record_of create_record_raw put_u32_le
record_of-append p r = refl

packet_eq :
    (p q : Packet)
    → p.tv_sec ≡ q.tv_sec
    → p.tv_usec ≡ q.tv_usec
    → p.orig_len ≡ q.orig_len
    → p.payload ≡ q.payload
    → p ≡ q
packet_eq p q a b c d i = record { tv_sec = a i; tv_usec = b i; orig_len = c i; payload = d i }

-- One record, and what follows it.
record_eq :
    (p q : Packet) (r s : List ℕ)
    → FitsRecord p
    → FitsRecord q
    → record_of p ++ r ≡ record_of q ++ s
    → (p ≡ q) × (r ≡ s)
record_eq p q r s (sec, usec, orig, len) (sec', usec', orig', len') e =
    let start = sym (record_of-append p r) ∙ e ∙ record_of-append q s in
    let (secs, e₁) = field_eq _ _ _ _ (as_u32-lt p.tv_sec) (as_u32-lt q.tv_sec) start in
    let (usecs, e₂) = field_eq _ _ _ _ (as_u32-lt p.tv_usec) (as_u32-lt q.tv_usec) e₁ in
    let (lens, e₃) =
      field_eq (length p.payload % 2 ^ 32) (length q.payload % 2 ^ 32) _ _ (omega arith)
        (omega arith) e₂ in
    let (origs, e₄) = field_eq _ _ _ _ orig orig' e₃ in
    let (payloads, after) = append_eq p.payload q.payload r s (omega (arith, lens, len, len')) e₄ in
    (
      packet_eq p q (as_u32_eq p.tv_sec q.tv_sec sec sec' secs)
          (as_u32_eq p.tv_usec q.tv_usec usec usec' usecs) origs payloads,
      after,
    )

records_eq :
    (ps qs : List Packet)
    → All FitsRecord ps
    → All FitsRecord qs
    → records ps ≡ records qs
    → ps ≡ qs
unfolding record_of create_record_raw put_u32_le
records_eq [] [] h k e = refl
records_eq [] (q ∷ qs) h k e = cc
records_eq (p ∷ ps) [] h k e = cc
records_eq (p ∷ ps) (q ∷ qs) h k e =
    let (first, rest) = record_eq p q (records ps) (records qs) h.0 k.0 e in
    ap (λ x. x ∷ ps) first ∙ ap (λ xs. q ∷ xs) (records_eq ps qs h.1 k.1 rest)

-- The bytes of a capture determine its packets: two captures with the same bytes, whatever their link
-- types, have the same packets, where times and lengths fit into the records of both.
pub stream_unique :
    (linktype linktype' : ℕ) (ps qs : List Packet)
    → All FitsRecord ps
    → All FitsRecord qs
    → stream linktype ps ≡ stream linktype' qs
    → ps ≡ qs
unfolding create_header create_header_with_snaplen put_u32_le put_u16_le
stream_unique linktype linktype' [] [] h k e = refl
stream_unique linktype linktype' [] (q ∷ qs) h k e = cc
stream_unique linktype linktype' (p ∷ ps) [] h k e = cc
stream_unique linktype linktype' (p ∷ ps) (q ∷ qs) h k e =
    records_eq (p ∷ ps) (q ∷ qs) h k
      (append_eq (create_header (linktype % 2 ^ 32)) (create_header (linktype' % 2 ^ 32))
        (records (p ∷ ps)) (records (q ∷ qs)) refl e).1
