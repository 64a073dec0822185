-- ===== src/Server/Response/Reading.antt =====
-- The streamed body of src/server/api/pcap.rs, read to its end: the chunks in their order, then what
-- the terminal frame or its absence makes of the end.
use evebox.Base.{
  ℕ, suc, ◌≡◌, refl, sym, ap, ◌∙◌, Bool, true, false, Option, some, List, [], ◌∷◌, ◌++◌, concat,
  if◌then◌else◌,
}
use mathlib.Core.List.{append_assoc}
use evebox.Server.Download.{
  ProducerEnd, complete, end_no_candidate_files, end_no_match, end_io, end_format, Frame, done,
}
use evebox.Server.Download.Framing.{framed}
use evebox.Server.Response.{
  Item, yielded, extraction_failed, ended_unexpectedly, BodyState, new_completion, new_body, mark,
  is_fault, is_truncated, receive, poll_queued, poll, cons_item, and_poll, read_body,
}

-- The bytes that a reader gets, and whether the transfer is torn.
abbrev pub received : List Item → List ℕ
received [] = []
received (yielded c ∷ items) = c ++ received items
received (extraction_failed ∷ items) = received items
received (ended_unexpectedly ∷ items) = received items

abbrev pub is_faulty : List Item → Bool
is_faulty [] = false
is_faulty (yielded c ∷ items) = is_faulty items
is_faulty (extraction_failed ∷ items) = true
is_faulty (ended_unexpectedly ∷ items) = true

-- One round for each chunk and frame that is there, and two for the end.
abbrev rounds_of_frames : List Frame → ℕ
rounds_of_frames [] = 2
rounds_of_frames (frame ∷ rx) = suc (rounds_of_frames rx)

abbrev rounds_of_queue : List (List ℕ) → ℕ → ℕ
rounds_of_queue [] n = n
rounds_of_queue (c ∷ queued) n = suc (rounds_of_queue queued n)

abbrev pub rounds : BodyState → ℕ
rounds s = rounds_of_queue s.queued (rounds_of_frames s.rx)

abbrev pub yields : List (List ℕ) → List Item → List Item
yields [] items = items
yields (c ∷ chunks) items = yielded c ∷ yields chunks items

pub received-yields :
    (chunks : List (List ℕ)) (items : List Item)
    → received (yields chunks items) ≡ concat chunks ++ received items
received-yields [] items = refl
received-yields (c ∷ chunks) items =
    ap (λ b. c ++ b) (received-yields chunks items)
    ∙ sym (append_assoc c (concat chunks) (received items))

pub is_faulty-yields :
    (chunks : List (List ℕ)) (items : List Item) → is_faulty (yields chunks items) ≡ is_faulty items
is_faulty-yields [] items = refl
is_faulty-yields (c ∷ chunks) items = is_faulty-yields chunks items

abbrev and_then : List (List ℕ) → Option (List Item × BodyState) → Option (List Item × BodyState)
and_then [] r = r
and_then (c ∷ chunks) r = cons_item (yielded c) (and_then chunks r)

and_then-some :
    (chunks : List (List ℕ)) (items : List Item) (s : BodyState)
    → and_then chunks (some (items, s)) ≡ some (yields chunks items, s)
unfolding cons_item
and_then-some [] items s = refl
and_then-some (c ∷ chunks) items s = ap (cons_item (yielded c)) (and_then-some chunks items s)

read_body-queued :
    (native : Bool) (n : ℕ) (rx : List Frame) (queued : List (List ℕ))
    → read_body (rounds_of_queue queued n) (new_body native rx queued)
      ≡ and_then queued (read_body n (new_body native rx []))
unfolding read_body new_body poll poll_queued and_poll
read_body-queued native n rx [] = refl
read_body-queued native n rx (c ∷ queued) =
    ap (cons_item (yielded c)) (read_body-queued native n rx queued)

read_body-framed :
    (native : Bool) (chunks : List (List ℕ)) (tail : List Frame)
    → read_body
        (rounds_of_frames (framed chunks ++ tail))
        (new_body native (framed chunks ++ tail) [])
      ≡ and_then chunks (read_body (rounds_of_frames tail) (new_body native tail []))
unfolding read_body new_body poll poll_queued receive and_poll
read_body-framed native [] tail = refl
read_body-framed native (c ∷ chunks) tail =
    ap (cons_item (yielded c)) (read_body-framed native chunks tail)

-- The end of a body whose terminal frame is `end`.
abbrev pub last_items : ProducerEnd → List Item
last_items end = if is_fault end then extraction_failed ∷ [] else []

abbrev pub ended : (native : Bool) → ProducerEnd → BodyState
ended native end = record {
  rx = [];
  queued = [];
  finished = true;
  armed = false;
  completion = mark (new_completion native) (is_truncated end);
}

read_body-done :
    (native : Bool) (end : ProducerEnd)
    → read_body 3 (new_body native (done end ∷ []) []) ≡ some (last_items end, ended native end)
unfolding read_body new_body poll poll_queued receive and_poll cons_item is_fault
read_body-done native (complete truncated) = refl
read_body-done native end_no_candidate_files = refl
read_body-done native end_no_match = refl
read_body-done native end_io = refl
read_body-done native (end_format message) = refl

read_body-chunks :
    (native : Bool) (queued chunks : List (List ℕ)) (tail : List Frame) (items : List Item)
    (s : BodyState)
    → read_body (rounds_of_frames tail) (new_body native tail []) ≡ some (items, s)
    → read_body
        (rounds (new_body native (framed chunks ++ tail) queued))
        (new_body native (framed chunks ++ tail) queued)
      ≡ some (yields queued (yields chunks items), s)
unfolding new_body
read_body-chunks native queued chunks tail items s e =
    read_body-queued native (rounds_of_frames (framed chunks ++ tail)) (framed chunks ++ tail)
      queued
    ∙ ap (and_then queued) (
        read_body-framed native chunks tail ∙ ap (and_then chunks) e ∙ and_then-some chunks items s)
    ∙ and_then-some queued (yields chunks items) s

pub read_body-ended :
    (native : Bool) (queued chunks : List (List ℕ)) (end : ProducerEnd)
    → read_body
        (rounds (new_body native (framed chunks ++ done end ∷ []) queued))
        (new_body native (framed chunks ++ done end ∷ []) queued)
      ≡ some (yields queued (yields chunks (last_items end)), ended native end)
read_body-ended native queued chunks end =
    read_body-chunks native queued chunks (done end ∷ []) (last_items end) (ended native end)
      (read_body-done native end)

abbrev pub torn : (native : Bool) → BodyState
torn native = record {
  rx = [];
  queued = [];
  finished = true;
  armed = false;
  completion = new_completion native;
}

pub read_body-torn :
    (native : Bool) (queued chunks : List (List ℕ))
    → read_body
        (rounds (new_body native (framed chunks ++ []) queued))
        (new_body native (framed chunks ++ []) queued)
      ≡ some (yields queued (yields chunks (ended_unexpectedly ∷ [])), torn native)
unfolding read_body new_body poll poll_queued receive and_poll cons_item
read_body-torn native queued chunks =
    read_body-chunks native queued chunks [] (ended_unexpectedly ∷ []) (torn native) refl
