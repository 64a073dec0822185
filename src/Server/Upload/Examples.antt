-- ===== src/Server/Upload/Examples.antt =====
-- A capture of two files on its way to the request, and an upload that breaks off.
use evebox.Base.{ℕ, ◌≡◌, refl, true, false, some, List, [], ◌∷◌, ◌*◌, arith}
use mathlib.Core.List.{append-nil}
use evebox.Pcap.File.{create_header, record_of}
use evebox.Pcap.Fetch.Run.{matcher_of}
use evebox.Pcap.Fetch.Run.Output.{IsCaptureOf}
use evebox.Pcap.Fetch.Examples.{env, spool, source, request, stats, output, fetched}
use evebox.Agent.Writer.{
  WriterEnv, Attempt, ChannelWriter, ok, write_out, write_each, write, write_loop, flush, push,
  push_loop,
}
use evebox.Agent.Writer.Pushing.{Sleeps}
use evebox.Server.Job.{new_job, claim_upload, token_matches, send, fail_sink}
use evebox.Server.Upload.{BodyEvent, frame, body_failed, receive_upload, response}
use evebox.Server.Upload.Delivery.{body_of, claimed}
use evebox.Server.Upload.Capture.{IsDelivered, remote_capture}
use evebox.Server.Upload.Replies.{IsTold, reply-IsTold}

abbrev token : List ℕ
token = 7 ∷ 8 ∷ []

abbrev writer : WriterEnv
writer = record {
  try_send = λ tick. Attempt.sent;
  is_cancelled = λ tick. false;
  now = λ tick. tick * 20_000_000;
}

sleeps : Sleeps writer
sleeps = record { after_full = λ tick e. cc }

-- The whole output in one write goes out in one chunk.
abbrev sent_whole : ChannelWriter
sent_whole = record { buffer = []; first_sent = true; chunks = output.out ∷ []; tick = 1 }

goes_out : write_out writer (output.out ∷ []) ≡ ok sent_whole
unfolding write_out write_each write write_loop flush push push_loop create_header record_of
goes_out = refl

remote_capture_example :
    (IsCaptureOf env (matcher_of env spool request) stats output)
    × (IsDelivered stats output.out (
        receive_upload 0
          (body_of sent_whole.chunks)
          (claimed token "sensor" 3 request.limits.max_bytes)))
remote_capture_example =
    remote_capture env spool source request stats output writer (output.out ∷ []) sent_whole token
      "sensor" 3 (omega arith) fetched (append-nil output.out) sleeps goes_out

abbrev broken : List BodyEvent
broken = frame (1 ∷ 2 ∷ []) false ∷ body_failed ∷ []

broken_off : response (receive_upload 0 broken (claimed token "sensor" 3 100)).1 ≡ some 400
unfolding receive_upload response claim_upload new_job token_matches send fail_sink
broken_off = refl

reply-IsTold_example : IsTold 400 (receive_upload 0 broken (claimed token "sensor" 3 100)).0
reply-IsTold_example = reply-IsTold 0 broken (claimed token "sensor" 3 100) 400 broken_off
