-- ===== src/Server/Response.antt =====
-- The response to a download (src/server/api/pcap.rs): what it is after the first frames of the
-- channel, and the streamed body that is read from the rest of them.
pub mod Reading
pub mod Telling
pub mod Honesty
pub mod Examples
use evebox.Base.{
  ℕ, zero, suc, Bool, true, false, Option, none, some, List, [], ◌∷◌, ◌++◌, String, if◌then◌else◌,
}
use evebox.Pcap.File.{put_u16_le, put_u32_le}
use evebox.Server.Download.{
  ProducerEnd, complete, end_no_candidate_files, end_no_match, end_io, end_format, Frame, chunk,
  done,
}

-- The body of a response. `rx` is what its channel still yields before it closes; `armed` is the guard
-- that takes a dropped body for a disconnect, `completion` what a buffered request looks at.
pub record BodyState : Type 0 where
  pub rx : List Frame
  pub queued : List (List ℕ)
  pub finished : Bool
  pub armed : Bool
  pub completion : Option Bool

pub data Item : Type 0 where
  yielded : List ℕ → Item
  extraction_failed ended_unexpectedly : Item

-- `native` is a download that the browser makes itself.
unfoldable pub new_completion : (native : Bool) → Option Bool
new_completion true = none
new_completion false = some false

unfoldable pub new_body : (native : Bool) → List Frame → (queued : List (List ℕ)) → BodyState
unfolding new_completion
new_body native rx queued = record {
  rx = rx;
  queued = queued;
  finished = false;
  armed = true;
  completion = new_completion native;
}

unfoldable pub mark : Option Bool → (truncated : Bool) → Option Bool
mark none truncated = none
mark (some marked) truncated = some (if truncated then true else marked)

unfoldable pub is_fault : ProducerEnd → Bool
is_fault (end_format message) = true
is_fault end_io = true
is_fault end = false

unfoldable pub is_truncated : ProducerEnd → Bool
is_truncated (complete truncated) = truncated
is_truncated end = false

unfoldable pub receive : List Frame → BodyState → Option Item × BodyState
unfolding is_fault is_truncated mark
receive (chunk c ∷ rx) s = (some (yielded c), record s { rx = rx })
receive (done end ∷ rx) s = (
  if is_fault end then some extraction_failed else none,
  record s {
    rx = rx;
    finished = true;
    armed = false;
    completion = mark s.completion (is_truncated end);
  },
)
receive [] s = (some ended_unexpectedly, record s { finished = true; armed = false })

unfoldable pub poll_queued : List (List ℕ) → BodyState → Option Item × BodyState
unfolding receive
poll_queued (c ∷ queued) s = (some (yielded c), record s { queued = queued })
poll_queued [] s = if s.finished then (none, s) else receive s.rx s

-- What the stream yields when it is polled; it ends with the first `none`.
unfoldable pub poll : BodyState → Option Item × BodyState
unfolding poll_queued
poll s = poll_queued s.queued s

unfoldable pub cons_item : Item → Option (List Item × BodyState) → Option (List Item × BodyState)
cons_item item none = none
cons_item item (some (items, s)) = some (item ∷ items, s)

unfoldable pub and_poll :
    Option Item × BodyState
    → (BodyState → Option (List Item × BodyState))
    → Option (List Item × BodyState)
unfolding cons_item
and_poll (none, s) rest = some ([], s)
and_poll (some item, s) rest = cons_item item (rest s)

-- The whole body, on fuel.
unfoldable pub read_body : ℕ → BodyState → Option (List Item × BodyState)
unfolding poll and_poll
read_body zero s = none
read_body (suc fuel) s = and_poll (poll s) (read_body fuel)

-- The file header of a capture without packets, as `empty_pcap_bytes` fills it in.
unfoldable pub empty_pcap_bytes : List ℕ
unfolding put_u16_le put_u32_le
empty_pcap_bytes =
    put_u32_le 2_712_847_316
    ++ put_u16_le 2
    ++ put_u16_le 4
    ++ (0 ∷ 0 ∷ 0 ∷ 0 ∷ 0 ∷ 0 ∷ 0 ∷ 0 ∷ [])
    ++ put_u32_le 262_144
    ++ put_u32_le 1

-- `refused` has a status of HTTP and a code; `empty_capture` has the bytes of its body; `whole` says
-- in its headers whether the capture is truncated.
pub data Response : Type 0 where
  refused : (status : ℕ) → (code : String) → Response
  empty_capture : List ℕ → Response
  whole : (truncated : Bool) → List ℕ → Response
  streaming : BodyState → Response

unfoldable pub empty_response : (native : Bool) → ProducerEnd → Response
unfolding empty_pcap_bytes
empty_response native (end_format message) = refused 502 "format"
empty_response native end_io = refused 502 "io"
empty_response true end = empty_capture empty_pcap_bytes
empty_response false (complete truncated) = whole truncated []
empty_response false end_no_candidate_files = refused 404 "no-candidate-files"
empty_response false end_no_match = refused 404 "no-match"

-- The terminal frame is right behind the first chunk.
unfoldable pub single_chunk : List ℕ → ProducerEnd → Response
unfolding is_truncated
single_chunk first (end_format message) = refused 502 "format"
single_chunk first end_io = refused 502 "io"
single_chunk first end = whole (is_truncated end) first

after_first : (native ready : Bool) → List ℕ → List Frame → Response
unfolding single_chunk new_body
after_first native true first (done end ∷ rx) = single_chunk first end
after_first native true first (chunk second ∷ rx) =
    streaming (new_body native rx (first ∷ second ∷ []))
after_first native ready first rx = streaming (new_body native rx (first ∷ []))

after_recv : (native ready : Bool) → List Frame → Response
unfolding empty_response after_first
after_recv native ready [] = refused 500 "internal"
after_recv native ready (done end ∷ rx) = empty_response native end
after_recv native ready (chunk first ∷ rx) = after_first native ready first rx

-- The response, with whether the first frame comes in time, and whether another one is ready then.
unfoldable pub respond : (native in_time ready : Bool) → List Frame → Response
unfolding after_recv
respond native in_time ready frames =
    if in_time then after_recv native ready frames else refused 504 "timeout"
