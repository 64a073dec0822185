-- ===== src/Server/Upload/Replies.antt =====
-- What the reply to an upload says of its job (src/server/api/agent.rs).
use evebox.Base.{
  ℕ, ◌≡◌, ◌≢◌, ◌⊎◌, inl, inr, refl, sym, subst, true, false, Option, none, some, some_inj, List, [],
  ◌∷◌, String, get_elem?, get_elem?-modify_self, Bool, if_lem, arith,
}
use evebox.Server.Job.{
  Job, UploadSink, completed, failed, SendResult, sent, receiver_closed, too_large, panicked, send,
  complete_sink, fail_sink,
}
use evebox.Server.Tasks.{Registry, begin_upload}
use evebox.Server.Upload.{
  BodyEvent, stalled, ended, body_failed, frame, consumer_closes, UploadFailure, agent_error,
  agent_stalled, client_closed, client_stalled, too_large_upload, UploadEnd, going_on, accepted,
  unwound, refused, refuse, reason, after_send, receive_event, receive_found, receive_upload,
  response, status, receive_in, upload_at, upload_bearer, upload_pcap,
}

-- An upload that is accepted is completed, one that is refused has failed for the reason given.
abbrev pub IsAnswered : Job × UploadEnd → Type 0
IsAnswered (j, accepted) = (bytes : ℕ) × (j.handles.upload ≡ completed bytes)
IsAnswered (j, refused failure) = (bytes : ℕ) × (j.handles.upload ≡ failed (reason failure) bytes)
IsAnswered (j, unwound) = Unit
IsAnswered (j, going_on) = Unit

refuse-IsAnswered :
    (failure : UploadFailure) (i : ℕ) (s : UploadSink) (j : Job) → IsAnswered (refuse failure i s j)
unfolding refuse fail_sink
refuse-IsAnswered failure i s j = (s.bytes, refl)

after_send-IsAnswered :
    (sent_or : SendResult) (i : ℕ) (s : UploadSink) (j : Job) (rest : Job × UploadEnd)
    → IsAnswered rest
    → IsAnswered (after_send sent_or i s j rest)
unfolding after_send
after_send-IsAnswered sent i s j rest h = h
after_send-IsAnswered too_large i s j rest h = refuse-IsAnswered too_large_upload i s j
after_send-IsAnswered receiver_closed i s j rest h = refuse-IsAnswered client_closed i s j
after_send-IsAnswered panicked i s j rest h = tt

receive_event-IsAnswered :
    (event : BodyEvent) (i : ℕ) (s : UploadSink) (j : Job) (rest : Job → Job × UploadEnd)
    → ((j : Job) → IsAnswered (rest j))
    → IsAnswered (receive_event event i s j rest)
unfolding receive_event complete_sink
receive_event-IsAnswered stalled i s j rest h = refuse-IsAnswered agent_stalled i s j
receive_event-IsAnswered ended i s j rest h = (s.bytes, refl)
receive_event-IsAnswered body_failed i s j rest h = refuse-IsAnswered agent_error i s j
receive_event-IsAnswered consumer_closes i s j rest h = h _
receive_event-IsAnswered (frame [] times_out) i s j rest h = h j
receive_event-IsAnswered (frame (byte ∷ bytes) true) i s j rest h =
    refuse-IsAnswered client_stalled i s j
receive_event-IsAnswered (frame (byte ∷ bytes) false) i s j rest h =
    after_send-IsAnswered (send i s (byte ∷ bytes) j).1 i s j _ (h _)

found-IsAnswered :
    (o : Option UploadSink) (event : BodyEvent) (i : ℕ) (j : Job) (rest : Job → Job × UploadEnd)
    → ((j : Job) → IsAnswered (rest j))
    → IsAnswered (receive_found o event i j rest)
unfolding receive_found
found-IsAnswered none event i j rest h = tt
found-IsAnswered (some s) event i j rest h = receive_event-IsAnswered event i s j rest h

receive_upload-IsAnswered :
    (i : ℕ) (events : List BodyEvent) (j : Job) → IsAnswered (receive_upload i events j)
unfolding receive_upload
receive_upload-IsAnswered i [] j = tt
receive_upload-IsAnswered i (event ∷ events) j =
    found-IsAnswered (get_elem? j.sinks i) event i j (receive_upload i events)
      (λ j'. receive_upload-IsAnswered i events j')

-- What a status tells of the job.
abbrev pub IsTold : ℕ → Job → Type 0
IsTold code j =
    ((code ≡ 200) × (bytes : ℕ) × (j.handles.upload ≡ completed bytes))
    ⊎ ((code ≢ 200)
        × (failure : UploadFailure) × (bytes : ℕ) × (code ≡ status failure)
        × (j.handles.upload ≡ failed (reason failure) bytes))

status_ne : (failure : UploadFailure) → status failure ≢ 200
unfolding status
status_ne agent_error = λ e. omega (arith, e)
status_ne agent_stalled = λ e. omega (arith, e)
status_ne client_closed = λ e. omega (arith, e)
status_ne client_stalled = λ e. omega (arith, e)
status_ne too_large_upload = λ e. omega (arith, e)

status-IsTold :
    (failure : UploadFailure) (bytes : ℕ) (j : Job)
    → j.handles.upload ≡ failed (reason failure) bytes
    → IsTold (status failure) j
status-IsTold failure bytes j e = inr (status_ne failure, failure, bytes, refl, e)

answered-IsTold :
    (end : UploadEnd) (code : ℕ) (j : Job)
    → IsAnswered (j, end)
    → response end ≡ some code
    → IsTold code j
unfolding response
answered-IsTold going_on code j h e = cc
answered-IsTold unwound code j h e = cc
answered-IsTold accepted code j (bytes, done) e = inl (sym (some_inj e), bytes, done)
answered-IsTold (refused failure) code j (bytes, over) e =
    subst (λ n. IsTold n j) (some_inj e) (status-IsTold failure bytes j over)

-- The reply to an upload is true, whatever its body does: an agent that is told 200 has its upload
-- completed, and one that is told another status has it failed, for the reason that the status
-- stands for.
pub reply-IsTold :
    (i : ℕ) (events : List BodyEvent) (j : Job) (code : ℕ)
    → response (receive_upload i events j).1 ≡ some code
    → IsTold code (receive_upload i events j).0
reply-IsTold i events j code e =
    let r = receive_upload i events j in
    answered-IsTold r.1 code r.0 (receive_upload-IsAnswered i events j) e

-- The registry after an upload, where the status was 200: some job of it has been completed.
abbrev pub HasCompleted : Registry × Option ℕ → Type 0
HasCompleted (r, code) =
    code ≡ some 200
    → (a : ℕ) × (j : Job) × (bytes : ℕ) × (get_elem? r.heap a ≡ some j)
      × (j.handles.upload ≡ completed bytes)

receive_in-HasCompleted :
    (o : Option Job) (a i : ℕ) (events : List BodyEvent) (r : Registry)
    → get_elem? r.heap a ≡ o
    → HasCompleted (receive_in o a i events r)
unfolding receive_in
receive_in-HasCompleted none a i events r here e = cc
receive_in-HasCompleted (some j) a i events r here e = elim (reply-IsTold i events j 200 e) [
  | inl (_, bytes, done) ↦ (
    a,
    (receive_upload i events j).0,
    bytes,
    get_elem?-modify_self a (λ _. (receive_upload i events j).0) r.heap here,
    done,
  )
  | inr (other, _, _, _, _) ↦ absurd (other refl)
]

upload_at-HasCompleted :
    (o : Option (ℕ × ℕ)) (events : List BodyEvent) (r : Registry)
    → HasCompleted (upload_at o events r)
unfolding upload_at
upload_at-HasCompleted none events r e = absurd (omega (arith, some_inj e))
upload_at-HasCompleted (some (a, i)) events r e =
    receive_in-HasCompleted (get_elem? r.heap a) a i events r refl e

upload_bearer-HasCompleted :
    (bearer : Option (List ℕ)) (id : String) (events : List BodyEvent) (r : Registry)
    → HasCompleted (upload_bearer bearer id events r)
unfolding upload_bearer
upload_bearer-HasCompleted none id events r e = absurd (omega (arith, some_inj e))
upload_bearer-HasCompleted (some token) id events r e =
    upload_at-HasCompleted (begin_upload id token r).1 events (begin_upload id token r).0 e

-- An agent whose upload request is answered with 200 has completed the upload of a job: a request
-- with the wrong content type, without a token, for a job that is unknown or not to be uploaded to,
-- or whose body breaks off, is never answered so.
pub upload_pcap-HasCompleted :
    (is_pcap_content_type : Bool) (bearer : Option (List ℕ)) (id : String) (events : List BodyEvent)
    (r : Registry)
    → HasCompleted (upload_pcap is_pcap_content_type bearer id events r)
unfolding upload_pcap
upload_pcap-HasCompleted is_pcap_content_type bearer id events r =
    if_lem HasCompleted is_pcap_content_type _ _
      (λ _. upload_bearer-HasCompleted bearer id events r)
      (λ _ e. absurd (omega (arith, some_inj e)))
