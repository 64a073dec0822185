-- ===== src/Server/Response/Honesty.antt =====
-- A download from a local spool (src/server/api/pcap.rs) from the extraction to the response.
use evebox.Base.{
  refl, sym, ◌∙◌, subst, Bool, true, false, Option, none, some, inl, inr, List, [], ◌∷◌, ◌++◌, ℕ,
  concat,
}
use mathlib.Core.List.{append_assoc, append-nil}
use evebox.Server.Download.{
  ProducerError, ProducerResult, failed, Frame, done, ChannelEnv, ChannelWriter, Call, producer_end,
  produce,
}
use evebox.Server.Download.Framing.{Sleeps, IsPrefix, framed}
use evebox.Server.Download.Producing.{output, Covers, Ends, Produces, produce-Produces}
use evebox.Server.Response.{after_first, after_recv, respond}
use evebox.Server.Response.Telling.{
  IsAnswer, two_queued, IsAnswered, empty_response-IsAnswer, single_chunk-IsAnswer, streaming-ended,
  streaming-torn,
}

-- A response to frames that end with the terminal frame.
after_recv-ended :
    (native in_time ready : Bool) (result : ProducerResult) (out : List ℕ) (chunks : List (List ℕ))
    → Covers result (concat chunks) out
    → IsAnswer in_time result result out
        (after_recv native ready (framed chunks ++ done (producer_end result) ∷ []))
unfolding after_recv after_first
after_recv-ended native in_time ready result out [] covers =
    empty_response-IsAnswer native in_time result out covers
after_recv-ended native in_time true result out (first ∷ []) covers =
    single_chunk-IsAnswer in_time result first out
      (subst (λ b. Covers result b out) (append-nil first) covers)
after_recv-ended native in_time false result out (first ∷ []) covers =
    streaming-ended native in_time result out (first ∷ []) []
      (subst (λ b. Covers result b out) (sym (append-nil (first ++ []))) covers)
after_recv-ended native in_time true result out (first ∷ second ∷ chunks) covers =
    streaming-ended native in_time result out (first ∷ second ∷ []) chunks
      (subst (λ b. Covers result b out) (sym (two_queued first second (concat chunks))) covers)
after_recv-ended native in_time false result out (first ∷ second ∷ chunks) covers =
    streaming-ended native in_time result out (first ∷ []) (second ∷ chunks) (
      subst (λ b. Covers result b out) (sym (append_assoc first [] (second ++ concat chunks)))
        covers)

-- A response to frames behind which the producer is gone.
after_recv-torn :
    (native in_time ready : Bool) (result : ProducerResult) (error : ProducerError) (out : List ℕ)
    (chunks : List (List ℕ))
    → IsPrefix (concat chunks) out
    → IsAnswer in_time result (failed error) out (after_recv native ready (framed chunks ++ []))
unfolding after_recv after_first
after_recv-torn native in_time ready result error out [] p = inr (error, refl)
after_recv-torn native in_time true result error out (first ∷ []) p =
    streaming-torn native in_time result error out (first ∷ []) []
      (subst (λ b. IsPrefix b out) (sym (append-nil (first ++ []))) p)
after_recv-torn native in_time false result error out (first ∷ []) p =
    streaming-torn native in_time result error out (first ∷ []) []
      (subst (λ b. IsPrefix b out) (sym (append-nil (first ++ []))) p)
after_recv-torn native in_time true result error out (first ∷ second ∷ chunks) p =
    streaming-torn native in_time result error out (first ∷ second ∷ []) chunks
      (subst (λ b. IsPrefix b out) (sym (two_queued first second (concat chunks))) p)
after_recv-torn native in_time false result error out (first ∷ second ∷ chunks) p =
    streaming-torn native in_time result error out (first ∷ []) (second ∷ chunks)
      (subst (λ b. IsPrefix b out) (sym (append_assoc first [] (second ++ concat chunks))) p)

respond-IsAnswer :
    (native in_time ready : Bool) (result final : ProducerResult) (out : List ℕ)
    (frames : List Frame)
    → Ends out result final frames
    → IsAnswer in_time result final out (respond native in_time ready frames)
unfolding respond
respond-IsAnswer native false ready result final out frames e = inl refl
respond-IsAnswer native true ready result final out frames (inl (same, chunks, e, covers)) =
    subst (λ r. IsAnswer true result r out (after_recv native ready frames)) (sym same)
      (subst (λ fs. IsAnswer true result result out (after_recv native ready fs)) (sym e)
        (after_recv-ended native true ready result out chunks covers))
respond-IsAnswer native true ready result final out frames (inr (error, same, (chunks, e, p))) =
    subst (λ r. IsAnswer true result r out (after_recv native ready frames)) (sym same)
      (subst (λ fs. IsAnswer true result (failed error) out (after_recv native ready fs))
        (sym (e ∙ sym (append-nil (framed chunks))))
        (after_recv-torn native true ready result error out chunks p))

-- A download is honest, whatever its extraction writes and answers, as long as a full channel makes
-- the thread sleep for the interval at least. The thread ends, and a streamed body is read to its end,
-- after which dropping it does not count as a disconnect. A response that carries output tells the
-- end of the thread. If that is a success, so has the extraction ended, and the client gets the whole
-- output with a clean end, and no wrong word on whether the capture is truncated. If it is a
-- failure, the client gets the beginning of the output, and the end is torn unless the extraction
-- answered that there were no files or no packets. A response that is an empty capture is a file
-- header alone, and comes only where the thread and the extraction ended with a success without any
-- output, or with no files or no packets. A refusal means that the first frame came too late, or that
-- the thread ended with a failure.
pub local_download :
    (env : ChannelEnv) (calls : List Call) (result : ProducerResult) (native in_time ready : Bool)
    → Sleeps env
    → IsAnswered native in_time ready result (output calls) (produce env calls result)
local_download env calls result native in_time ready sleeps =
    answered (produce env calls result) (produce-Produces env calls result sleeps)
  where
    answered :
        (r : Option (ProducerResult × ChannelWriter))
        → Produces (output calls) result r
        → IsAnswered native in_time ready result (output calls) r
    answered none h = h
    answered (some (final, w)) h =
        respond-IsAnswer native in_time ready result final (output calls) w.frames h
