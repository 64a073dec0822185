-- ===== src/Server/Upload.antt =====
-- The upload request of src/server/api/agent.rs: the body that an agent sends is pumped into the sink
-- of its job. The body, the clock and what happens to the consumer come as events in their order.
pub mod Delivery
pub mod Capture
pub mod Replies
pub mod Examples
use evebox.Base.{
  ℕ, Bool, true, false, Option, none, some, List, [], ◌∷◌, String, get_elem?, modify, if◌then◌else◌,
}
use evebox.Server.Job.{
  Job, UploadSink, SendResult, sent, receiver_closed, too_large, panicked, send, complete_sink,
  fail_sink, drop_sink, close_body,
}
use evebox.Server.Tasks.{Registry, begin_upload}

pub data UploadFailure : Type 0 where
  agent_error agent_stalled client_closed client_stalled too_large_upload : UploadFailure

unfoldable pub reason : UploadFailure → String
reason agent_error = "agent-error"
reason agent_stalled = "agent-stalled"
reason client_closed = "client-closed"
reason client_stalled = "client-stalled"
reason too_large_upload = "too-large"

-- The status codes of HTTP.
unfoldable pub status : UploadFailure → ℕ
status agent_error = 400
status agent_stalled = 408
status client_stalled = 408
status client_closed = 410
status too_large_upload = 413

-- What a round of the loop may meet: the deadline has passed, before or while it waits for the body;
-- the body ends, or fails; a frame comes, whose way into the channel may take too long; or the
-- browser's request has dropped the receiver, between two rounds.
pub data BodyEvent : Type 0 where
  stalled ended body_failed : BodyEvent
  frame : (bytes : List ℕ) → (times_out : Bool) → BodyEvent
  consumer_closes : BodyEvent

-- How the loop has ended, if it has. `unwound` is a panic, which drops the sink.
pub data UploadEnd : Type 0 where
  going_on accepted unwound : UploadEnd
  refused : UploadFailure → UploadEnd

refuse : UploadFailure → ℕ → UploadSink → Job → Job × UploadEnd
unfolding reason
refuse failure i s j = (fail_sink i s (reason failure) j, refused failure)

after_send : SendResult → ℕ → UploadSink → Job → Job × UploadEnd → Job × UploadEnd
unfolding refuse
after_send sent i s j rest = rest
after_send too_large i s j rest = refuse too_large_upload i s j
after_send receiver_closed i s j rest = refuse client_closed i s j
after_send panicked i s j rest = (drop_sink i s j, unwound)

-- One round, with what comes of the following ones.
receive_event : BodyEvent → ℕ → UploadSink → Job → (Job → Job × UploadEnd) → Job × UploadEnd
unfolding refuse after_send
receive_event stalled i s j rest = refuse agent_stalled i s j
receive_event ended i s j rest = (complete_sink i s j, accepted)
receive_event body_failed i s j rest = refuse agent_error i s j
receive_event consumer_closes i s j rest = rest (close_body j)
receive_event (frame [] times_out) i s j rest = rest j
receive_event (frame (byte ∷ bytes) true) i s j rest = refuse client_stalled i s j
receive_event (frame (byte ∷ bytes) false) i s j rest =
    let (j', result) = send i s (byte ∷ bytes) j in after_send result i s j (rest j')

receive_found : Option UploadSink → BodyEvent → ℕ → Job → (Job → Job × UploadEnd) → Job × UploadEnd
unfolding receive_event
receive_found none event i j rest = (j, unwound)
receive_found (some s) event i j rest = receive_event event i s j rest

unfoldable pub receive_upload : ℕ → List BodyEvent → Job → Job × UploadEnd
unfolding receive_found
receive_upload i [] j = (j, going_on)
receive_upload i (event ∷ events) j =
    receive_found (get_elem? j.sinks i) event i j (receive_upload i events)

-- What the agent is told at the end.
unfoldable pub response : UploadEnd → Option ℕ
unfolding status
response going_on = none
response unwound = none
response accepted = some 200
response (refused failure) = some (status failure)

receive_in : Option Job → ℕ → ℕ → List BodyEvent → Registry → Registry × Option ℕ
receive_in none a i events r = (r, none)
receive_in (some j) a i events r =
    let (j', end) = receive_upload i events j in
    (record r { heap = modify a (λ _. j') r.heap }, response end)

upload_at : Option (ℕ × ℕ) → List BodyEvent → Registry → Registry × Option ℕ
unfolding receive_in
upload_at none events r = (r, some 410)
upload_at (some (a, i)) events r = receive_in (get_elem? r.heap a) a i events r

upload_bearer : Option (List ℕ) → String → List BodyEvent → Registry → Registry × Option ℕ
unfolding upload_at
upload_bearer none id events r = (r, some 410)
upload_bearer (some token) id events r =
    let (r', sink) = begin_upload id token r in upload_at sink events r'

-- The handler, with whether the content type is right and the bearer token of the headers.
unfoldable pub upload_pcap :
    (is_pcap_content_type : Bool)
    → Option (List ℕ)
    → String
    → List BodyEvent
    → Registry
    → Registry × Option ℕ
unfolding upload_bearer
upload_pcap is_pcap_content_type bearer id events r =
    if is_pcap_content_type then upload_bearer bearer id events r else (r, some 415)
