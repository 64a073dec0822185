-- ===== src/Server/Upload/Capture.antt =====
-- A remote capture from end to end: the extraction of src/pcap/fetch.rs at the agent, its way in
-- chunks (src/agent/channel.rs) into the body channel of the server's job (src/server/api/agent.rs),
-- and the verdict on the agent's result (src/server/pcap/tasks.rs).
use evebox.Base.{
  ℕ, ◌<◌, ◌≡◌, refl, ap, subst, false, none, some, inl, List, String, length, concat, arith,
}
use evebox.Pcap.Request.{FetchStats, PcapRequest, PcapSource, u64_max}
use evebox.Pcap.File.{PcapWriter}
use evebox.Pcap.Fetch.{Env}
use evebox.Pcap.Fetch.Run.{FetchResult, Spool, matcher_of, fetch}
use evebox.Pcap.Fetch.Run.Output.{FetchOk, IsCaptureOf, IsDescribed-IsCaptureOf, fetch-FetchOk}
use evebox.Agent.Protocol.{PcapResult, PcapResultCode, upload_complete, wire_of_stats}
use evebox.Agent.Writer.{WriterEnv, ChannelWriter, ok, write_out}
use evebox.Agent.Writer.Pushing.{Sleeps}
use evebox.Server.Job.{Job}
use evebox.Server.Outcome.{complete_outcome, classify_result}
use evebox.Server.Outcome.Soundness.{complete_iff}
use evebox.Server.Upload.{UploadEnd, accepted, receive_upload}
use evebox.Server.Upload.Delivery.{HasArrived, body_of, claimed, upload_arrives}

-- The result of a worker that has extracted and uploaded.
abbrev pub complete_result : FetchStats → PcapResult
complete_result stats = record {
  code = PcapResultCode.complete;
  upload = upload_complete;
  message = none;
  stats = some (wire_of_stats stats);
}

-- The bytes are in the channel, and with all of them passed on the result counts as complete.
abbrev pub IsDelivered : FetchStats → List ℕ → Job × UploadEnd → Type 0
IsDelivered stats bytes (j, end) =
    (end ≡ accepted)
    × (concat j.handles.body ≡ bytes)
    × (classify_result (complete_result stats) j.handles.upload false (length bytes)
        ≡ complete_outcome (wire_of_stats stats))

arrived-IsDelivered :
    (stats : FetchStats) (bytes : List ℕ) (r : Job × UploadEnd)
    → stats.bytes ≡ length bytes
    → HasArrived bytes r
    → IsDelivered stats bytes r
unfolding wire_of_stats
arrived-IsDelivered stats bytes (j, end) counted (e, content, whole) = (
  e,
  content,
  (complete_iff (complete_result stats) j.handles.upload false (length bytes)
        (wire_of_stats stats)).1
      (refl, refl, inl (refl, whole, counted, refl)),
)

-- A capture that an agent has extracted is delivered whole: where its extraction answers with
-- statistics within a limit below 2^64 - 1, its output went out in some writes that all succeeded,
-- and the chunks are the frames of a body that ends cleanly while the request reads, the bytes in the
-- job's channel are exactly the output, which is a capture as the statistics describe it, and the
-- agent's result counts as complete with these statistics.
pub remote_capture :
    (env : Env) (s : Spool) (source : PcapSource) (request : PcapRequest) (stats : FetchStats)
    (output : PcapWriter) (writer : WriterEnv) (writes : List (List ℕ)) (w : ChannelWriter)
    (token : List ℕ) (agent : String) (generation : ℕ)
    → request.limits.max_bytes < u64_max
    → fetch env s source request ≡ (FetchResult.ok stats, output)
    → concat writes ≡ output.out
    → Sleeps writer
    → write_out writer writes ≡ ok w
    → (IsCaptureOf env (matcher_of env s request) stats output)
      × (IsDelivered stats output.out (
          receive_upload 0
            (body_of w.chunks)
            (claimed token agent generation request.limits.max_bytes)))
unfolding matcher_of
remote_capture env s source request stats output writer writes w token agent generation small
      answered same sleeps written =
    let m = matcher_of env s request in
    let capture : IsCaptureOf env m stats output =
      IsDescribed-IsCaptureOf env m stats output small
        (subst (FetchOk env m) answered (fetch-FetchOk env s source request)) in
    let (_, _, _, _, _, counted, bounded) = capture in
    let max = request.limits.max_bytes in
    let r = receive_upload 0 (body_of w.chunks) (claimed token agent generation max) in
    (
      capture,
      arrived-IsDelivered stats output.out r counted (
          subst (λ b. HasArrived b r) same
            (upload_arrives writer writes w token agent generation max sleeps written
              (omega (arith, small)) (omega (arith, ap length same, bounded)))),
    )
