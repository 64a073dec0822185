-- ===== src/Pcap/Fetch/Cursor/Reading.antt =====
-- What a refill of src/pcap/fetch.rs does: it takes packets off the group's front, keeps the output,
-- and the packet that it ends with passes the gate and the filter of its file.
use evebox.Base.{
  ◌≡◌, refl, sym, ap, subst, ◌∙◌, Option, none, some, List, [], ◌∷◌, ◌++◌, String, if_lem, some_inj,
  ◌⊎◌, inl, inr, ◌≢◌,
}
use mathlib.Core.List.{append_assoc}
use evebox.Pcap.File.{Packet}
use evebox.Pcap.Fetch.{Env, Matcher, Progress, ts_micros, passes, Turn, go, halt, turn_failed, turn}
use evebox.Pcap.Fetch.Cursor.Opening.{IsFilter, Matches, packets_in, OpenedOk, open_result-lem}
use evebox.Pcap.Fetch.Cursor.{
  PendingPacket, OpenCapture, GroupCursor, new_cursor, Opened, opened, skipped, open_failed,
  open_group_file, Refill, refilled, refill_failed, Scan, exhausted, over, scan, after_scan,
  after_open, refill_files, refill_from, refill,
}
use evebox.Pcap.Fetch.Keeps.{Keeps, Keeps-trans, TurnKeeps, turn-Keeps}

pub record CursorOk (env : Env) (m : Matcher) (c : GroupCursor) : Type 0 where
  pub filter :
      (file : OpenCapture)
      → c.open_capture ≡ some file
      → IsFilter env m file.linktype file.filter_program
  pub matching :
      (q : PendingPacket)
      → c.pending ≡ some q
      → (Matches env m q.linktype q.packet) × (q.packet_micros ≡ ts_micros q.packet)

-- The packets that the group still has to read, in their order.
abbrev pub in_files : Env → List String → List Packet
in_files env [] = []
in_files env (path ∷ files) = packets_in (env.from_file path) ++ in_files env files

abbrev pub in_open : Option OpenCapture → List Packet
in_open none = []
in_open (some c) = c.packets

abbrev pub in_pending : Option PendingPacket → List Packet
in_pending none = []
in_pending (some q) = q.packet ∷ []

abbrev pub upcoming : Env → GroupCursor → List Packet
upcoming env c = in_pending c.pending ++ (in_open c.open_capture ++ in_files env c.files)

abbrev pub IsSuffix : List Packet → List Packet → Type 0
IsSuffix whole rest = (dropped : List Packet) × (whole ≡ dropped ++ rest)

pub IsSuffix-trans : (a b c : List Packet) → IsSuffix a b → IsSuffix b c → IsSuffix a c
IsSuffix-trans a b c (d, e) (d', e') =
    (d ++ d', e ∙ ap (λ x. d ++ x) e' ∙ sym (append_assoc d d' c))

-- A cursor has no pending packet only where its group has been read, or the fetch is stopped.
abbrev pub IsDone : Env → GroupCursor → Progress → Type 0
IsDone env c p = c.pending ≡ none → (upcoming env c ≡ []) ⊎ (p.stopped ≢ none)

abbrev pub RefillOk : Env → Matcher → List Packet → Progress → Refill → Type 0
RefillOk env m ahead p (refilled c p') =
    (CursorOk env m c) × (Keeps p p') × (IsSuffix ahead (upcoming env c)) × (IsDone env c p')
RefillOk env m ahead p (refill_failed e p') = Keeps p p'

RefillOk-trans :
    (env : Env) (m : Matcher) (a b : List Packet) (p q : Progress) (r : Refill)
    → IsSuffix a b
    → Keeps p q
    → RefillOk env m b q r
    → RefillOk env m a p r
RefillOk-trans env m a b p q (refilled c p') s k (ok, k', s', done) =
    (ok, Keeps-trans p q p' k k', IsSuffix-trans a b (upcoming env c) s s', done)
RefillOk-trans env m a b p q (refill_failed e p') s k k' = Keeps-trans p q p' k k'

abbrev ScanOk : Env → Matcher → List String → List Packet → Progress → Scan → Type 0
ScanOk env m files ahead p (exhausted p') = Keeps p p'
ScanOk env m files ahead p (over r) = RefillOk env m (ahead ++ in_files env files) p r

-- A cursor on an open file: what holds of the filter and of the pending packet.
at_file-CursorOk :
    (env : Env) (m : Matcher) (files : List String) (c : OpenCapture) (o : Option PendingPacket)
    → IsFilter env m c.linktype c.filter_program
    → ((q : PendingPacket)
        → o ≡ some q
        → (Matches env m q.linktype q.packet) × (q.packet_micros ≡ ts_micros q.packet))
    → CursorOk env m (record { files = files; open_capture = some c; pending = o })
at_file-CursorOk env m files c o f pends = record {
  filter = λ file e.
      subst (λ (x : OpenCapture). IsFilter env m x.linktype x.filter_program) (some_inj e) f;
  matching = pends;
}

ScanOk-cons :
    (env : Env) (m : Matcher) (files : List String) (packet : Packet) (packets : List Packet)
    (p q : Progress)
    → Keeps p q
    → (r : Scan) → ScanOk env m files packets q r
    → ScanOk env m files (packet ∷ packets) p r
ScanOk-cons env m files packet packets p q k (exhausted p') h = Keeps-trans p q p' k h
ScanOk-cons env m files packet packets p q k (over r) h =
    RefillOk-trans env m _ (packets ++ in_files env files) p q r (packet ∷ [], refl) k h

scan-lem :
    (env : Env) (m : Matcher) (files : List String) (c : OpenCapture) (packets : List Packet)
    (p : Progress) (t : Turn)
    → IsFilter env m c.linktype c.filter_program
    → TurnKeeps p t
    → ScanOk env m files packets p (scan env m files c packets t)
unfolding scan
scan-lem env m files c packets p (halt p') f k = (
  at_file-CursorOk env m files (record c { packets = packets }) none f (λ q e. cc),
  k.0,
  ([], refl),
  λ _. inr k.1,
)
scan-lem env m files c packets p (turn_failed e p') f k = k
scan-lem env m files c [] p (go p') f k = k.0
scan-lem env m files c (packet ∷ packets) p (go p') f k =
    let q : PendingPacket = record {
      packet_micros = ts_micros packet;
      packet = packet;
      linktype = c.linktype;
    } in
    if_lem (ScanOk env m files (packet ∷ packets) p) (passes m c.filter_program packet) _ _
      (λ pass. (
        at_file-CursorOk env m files (record c { packets = packets }) (some q) f
            (λ q' e.
              subst
                (λ (x : PendingPacket).
                  (Matches env m x.linktype x.packet) × (x.packet_micros ≡ ts_micros x.packet))
                (some_inj e) ((c.filter_program, f, pass), refl)),
        k.0,
        ([], refl),
        λ e. cc,
      ))
      (λ _.
        ScanOk-cons env m files packet packets p p' k.0 _
          (scan-lem env m files c packets p' (turn env m p') f (turn-Keeps env m p')))

after_scan-lem :
    (env : Env) (m : Matcher) (files : List String) (packets : List Packet) (p : Progress)
    (r : Scan) (next_file : Progress → Refill)
    → ((p' : Progress) → RefillOk env m (in_files env files) p' (next_file p'))
    → ScanOk env m files packets p r
    → RefillOk env m (packets ++ in_files env files) p (after_scan r next_file)
unfolding after_scan
after_scan-lem env m files packets p (exhausted p') next_file h k =
    RefillOk-trans env m _ (in_files env files) p p' (next_file p') (packets, refl) k (h p')
after_scan-lem env m files packets p (over r) next_file h k = k

after_open-lem :
    (env : Env) (m : Matcher) (files : List String) (packets : List Packet) (p : Progress)
    (r : Opened) (next_file : Progress → Refill)
    → ((p' : Progress) → RefillOk env m (in_files env files) p' (next_file p'))
    → OpenedOk env m packets p r
    → RefillOk env m (packets ++ in_files env files) p (after_open env m files r next_file)
unfolding after_open
after_open-lem env m files packets p (opened c p') next_file h k =
    RefillOk-trans env m _ (c.packets ++ in_files env files) p p' _
      ([], ap (λ x. x ++ in_files env files) (sym k.1)) k.2
      (after_scan-lem env m files c.packets p' (scan env m files c c.packets (turn env m p'))
        next_file h (scan-lem env m files c c.packets p' (turn env m p') k.0 (turn-Keeps env m p')))
after_open-lem env m files packets p (skipped p') next_file h k =
    RefillOk-trans env m _ (in_files env files) p p' (next_file p') (packets, refl) k (h p')
after_open-lem env m files packets p (open_failed e p') next_file h k = k

pub new_cursor-CursorOk :
    (env : Env) (m : Matcher) (files : List String) → CursorOk env m (new_cursor files)
new_cursor-CursorOk env m files = record { filter = λ file e. cc; matching = λ q e. cc }

refill_files-lem :
    (env : Env) (m : Matcher) (files : List String) (p : Progress) (t : Turn)
    → TurnKeeps p t
    → RefillOk env m (in_files env files) p (refill_files env m files t)
unfolding refill_files open_group_file
refill_files-lem env m files p (halt p') k =
    (new_cursor-CursorOk env m files, k.0, ([], refl), λ _. inr k.1)
refill_files-lem env m files p (turn_failed e p') k = k
refill_files-lem env m [] p (go p') k =
    (new_cursor-CursorOk env m [], k.0, ([], refl), λ _. inl refl)
refill_files-lem env m (path ∷ files) p (go p') k =
    RefillOk-trans env m _ (in_files env (path ∷ files)) p p' _ ([], refl) k.0
      (after_open-lem env m files (packets_in (env.from_file path)) p' _ _
        (λ q. refill_files-lem env m files q (turn env m q) (turn-Keeps env m q))
        (open_result-lem env m (env.from_file path) path p'))

refill_from-lem :
    (env : Env) (m : Matcher) (o : Option OpenCapture) (files : List String) (p : Progress)
    → ((c : OpenCapture) → o ≡ some c → IsFilter env m c.linktype c.filter_program)
    → RefillOk env m (in_open o ++ in_files env files) p (refill_from env m o files p)
unfolding refill_from
refill_from-lem env m none files p f =
    refill_files-lem env m files p (turn env m p) (turn-Keeps env m p)
refill_from-lem env m (some c) files p f =
    after_scan-lem env m files c.packets p (scan env m files c c.packets (turn env m p)) _
      (λ q. refill_files-lem env m files q (turn env m q) (turn-Keeps env m q))
      (scan-lem env m files c c.packets p (turn env m p) (f c refl) (turn-Keeps env m p))

-- A refill keeps the output; the cursor it answers has a pending packet that matches, if any, and
-- what that cursor still has is the end of what the old one had ahead.
pub refill_lem :
    (env : Env) (m : Matcher) (c : GroupCursor) (p : Progress)
    → CursorOk env m c
    → RefillOk env m (in_open c.open_capture ++ in_files env c.files) p (refill env m c p)
unfolding refill
refill_lem env m c p ok = refill_from-lem env m c.open_capture c.files p ok.filter
