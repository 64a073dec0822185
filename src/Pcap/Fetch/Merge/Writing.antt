-- ===== src/Pcap/Fetch/Merge/Writing.antt =====
-- One write of the merge of src/pcap/fetch.rs: the output stays a capture of what was asked for.
use evebox.Base.{
  ℕ, ◌+◌, ◌%◌, ◌^◌, ◌≤◌, ◌≡◌, ◌≢◌, ◌⊎◌, inl, inr, refl, sym, ap, subst, ◌∙◌, false, Option, none,
  some, List, [], ◌∷◌, ◌++◌, length, length-append, get_elem?, get_elem?-set_inv, set, All,
  All-append, arith,
}
use evebox.Pcap.Request.{u64_max}
use evebox.Pcap.File.{Packet, PcapWriter, next_write_size}
use evebox.Pcap.File.Stream.{Wrote}
use evebox.Pcap.Fetch.{Env, Matcher, Progress}
use evebox.Pcap.Fetch.Keeps.{Keeps}
use evebox.Pcap.Fetch.Cursor.{PendingPacket, GroupCursor, Refill, refilled, refill_failed}
use evebox.Pcap.Fetch.Cursor.Opening.{Matches}
use evebox.Pcap.Fetch.Cursor.Reading.{CursorOk, RefillOk}
use evebox.Pcap.Fetch.Merge.{
  Merge, Step, next, ended, cut, failed, panicked, after_refill, get_or_insert, differs, exceeds,
}

abbrev pub linktype_of : Option ℕ → ℕ
linktype_of none = 0
linktype_of (some linktype) = linktype

-- The output is within the limit, unless the limit is the largest number of 64 bits, which stands for
-- none.
abbrev pub IsWithin : ℕ → ℕ → Type 0
IsWithin max_bytes size = (size ≤ max_bytes) ⊎ (u64_max ≤ max_bytes)

-- The output is a capture of these packets, all of them asked for, with the counts of the statistics
-- and within the limit. The bytes are counted in 64 bits.
pub record Output (env : Env) (m : Matcher) (linktype : Option ℕ) (ws : List Packet) (p : Progress)
    : Type 0 where
  pub wrote : Wrote (linktype_of linktype) ws p.writer
  pub counted : p.stats.packets ≡ length ws
  pub measured : p.stats.bytes ≡ length p.writer.out % 2 ^ 64
  pub bounded : IsWithin m.max_bytes (length p.writer.out)
  pub matching : All (λ w. Matches env m (linktype_of linktype) w) ws
  pub unset : linktype ≡ none → ws ≡ []

pub Output-Keeps :
    (env : Env) (m : Matcher) (linktype : Option ℕ) (ws : List Packet) (p q : Progress)
    → Keeps p q
    → Output env m linktype ws p
    → Output env m linktype ws q
Output-Keeps env m linktype ws p q k o = record {
  wrote = subst (Wrote (linktype_of linktype) ws) (sym k.writer) o.wrote;
  counted = k.packets ∙ o.counted;
  measured = k.bytes ∙ o.measured ∙ sym (ap (λ w. length w.out % 2 ^ 64) k.writer);
  bounded = subst (λ w. IsWithin m.max_bytes (length w.out)) (sym k.writer) o.bounded;
  matching = o.matching;
  unset = o.unset;
}

abbrev pub CursorsOk : Env → Matcher → List GroupCursor → Type 0
CursorsOk env m cursors =
    (i : ℕ) (c : GroupCursor) → get_elem? cursors i ≡ some c → CursorOk env m c

pub CursorsOk-set :
    (env : Env) (m : Matcher) (cursors : List GroupCursor) (i : ℕ) (c : GroupCursor)
    → CursorOk env m c
    → CursorsOk env m cursors
    → CursorsOk env m (set cursors i c)
CursorsOk-set env m cursors i c ok all j d h = case (get_elem?-set_inv cursors i j c h)
  where
    case : ((i ≡ j) × (c ≡ d)) ⊎ ((i ≢ j) × (get_elem? cursors j ≡ some d)) → CursorOk env m d
    case (inl (_, same)) = subst (CursorOk env m) same ok
    case (inr (_, there)) = all j d there

-- The loop's state, with what it has written so far.
abbrev pub MergeOk : Env → Matcher → Merge → Type 0
MergeOk env m s =
    ((ws : List Packet) × Output env m s.output_linktype ws s.progress) × CursorsOk env m s.cursors

-- The end of the loop without an error.
abbrev pub HasOutput : Env → Matcher → Progress → Type 0
HasOutput env m p = (linktype : Option ℕ) × (ws : List Packet) × Output env m linktype ws p

abbrev pub StepOk : Env → Matcher → Step → Type 0
StepOk env m (next s) = MergeOk env m s
StepOk env m (ended p) = HasOutput env m p
StepOk env m (cut p) = HasOutput env m p
StepOk env m (failed e p) = Unit
StepOk env m (panicked p) = Unit

pub after_refill-StepOk :
    (env : Env) (m : Matcher) (ahead : List Packet) (p : Progress) (r : Refill) (index : ℕ)
    (s : Merge) (ws : List Packet)
    → Output env m s.output_linktype ws p
    → CursorsOk env m s.cursors
    → RefillOk env m ahead p r
    → StepOk env m (after_refill r index s)
unfolding after_refill
after_refill-StepOk env m ahead p (refill_failed e q) index s ws o all h = tt
after_refill-StepOk env m ahead p (refilled c q) index s ws o all (ok, k, _, _) = (
  (ws, Output-Keeps env m s.output_linktype ws p q k o),
  CursorsOk-set env m s.cursors index c ok all,
)

-- What a write adds stays within the limit: no sum of the two saturates or wraps there.
exceeds-IsWithin :
    (m : Matcher) (q : PendingPacket) (p : Progress) (size : ℕ)
    → IsWithin m.max_bytes size
    → p.stats.bytes ≡ size % 2 ^ 64
    → exceeds m q p ≡ false
    → IsWithin m.max_bytes (size + next_write_size (length q.packet.payload) p.writer)
unfolding exceeds
exceeds-IsWithin m q p size (inr unlimited) counted h = inr unlimited
exceeds-IsWithin m q p size (inl within) counted h = ground arith

agrees :
    (output : Option ℕ) (linktype : ℕ)
    → differs output linktype ≡ false
    → linktype_of (get_or_insert output linktype) ≡ linktype
unfolding differs get_or_insert
agrees none linktype h = refl
agrees (some output) linktype h = ground arith

pub was :
    (output : Option ℕ) (linktype : ℕ)
    → differs output linktype ≡ false
    → (output ≡ none) ⊎ (linktype_of output ≡ linktype)
unfolding differs
was none linktype h = inl refl
was (some output) linktype h = inr (ground arith)

get_or_insert≢none : (output : Option ℕ) (linktype : ℕ) → get_or_insert output linktype ≢ none
unfolding get_or_insert
get_or_insert≢none none linktype h = cc
get_or_insert≢none (some output) linktype h = cc

move_empty :
    (env : Env) (m : Matcher) (a b : ℕ) (ws : List Packet) (w : PcapWriter)
    → ws ≡ []
    → Wrote a ws w
    → (Wrote b ws w) × (All (λ w. Matches env m b w) ws)
move_empty env m a b [] w e h =
    (record { as_stream = h.as_stream; begun = h.begun; counted = h.counted }, tt)
move_empty env m a b (x ∷ ws) w e h = cc

-- What is written for one link type is written for any, where nothing is.
pub move :
    (env : Env) (m : Matcher) (output : Option ℕ) (linktype : ℕ) (ws : List Packet) (p : Progress)
    → (output ≡ none) ⊎ (linktype_of output ≡ linktype)
    → Output env m output ws p
    → (Wrote linktype ws p.writer) × (All (λ w. Matches env m linktype w) ws)
move env m output linktype ws p (inl unset) o =
    move_empty env m (linktype_of output) linktype ws p.writer (o.unset unset) o.wrote
move env m output linktype ws p (inr same) o =
    subst (λ l. (Wrote l ws p.writer) × (All (λ w. Matches env m l w) ws)) same
      (o.wrote, o.matching)

-- The state after a write that the consumer took.
pub Wrote-Output :
    (env : Env) (m : Matcher) (q : PendingPacket) (s : Merge) (p : Progress) (ws : List Packet)
    (w : PcapWriter) (p' : Progress)
    → Matches env m q.linktype q.packet
    → Output env m s.output_linktype ws p
    → differs s.output_linktype q.linktype ≡ false
    → exceeds m q p ≡ false
    → (Wrote q.linktype (ws ++ q.packet ∷ []) w)
      × (length w.out ≡ length p.writer.out + next_write_size (length q.packet.payload) p.writer)
    → p'.writer ≡ w
    → p'.stats.bytes ≡ w.bytes
    → p'.stats.packets ≡ p.stats.packets + 1
    → Output env m (get_or_insert s.output_linktype q.linktype) (ws ++ q.packet ∷ []) p'
Wrote-Output env m q s p ws w p' matches o same fits (wrote, len) pw pb pp =
    let lt = agrees s.output_linktype q.linktype same in
    let (_, all) =
      move env m s.output_linktype q.linktype ws p (was s.output_linktype q.linktype same) o in
    let len' = ap (λ (x : PcapWriter). length x.out) pw in
    record {
      wrote =
          subst (λ l. Wrote l (ws ++ q.packet ∷ []) p'.writer) (sym lt)
            (subst (Wrote q.linktype (ws ++ q.packet ∷ [])) (sym pw) wrote);
      counted = omega (arith, pp, o.counted, length-append ws (q.packet ∷ []));
      measured = pb ∙ wrote.counted ∙ sym (ap (λ n. n % 2 ^ 64) len');
      bounded =
          subst (IsWithin m.max_bytes) (sym (len' ∙ len))
            (exceeds-IsWithin m q p (length p.writer.out) o.bounded o.measured fits);
      matching =
          subst (λ l. All (λ w. Matches env m l w) (ws ++ q.packet ∷ [])) (sym lt)
            (All-append (λ w. Matches env m q.linktype w) ws (q.packet ∷ []) all (matches, tt));
      unset = λ e. absurd (get_or_insert≢none s.output_linktype q.linktype e);
    }
