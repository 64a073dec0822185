-- ===== src/Server/Download/Producing.antt =====
-- The end of a local extraction (src/server/api/pcap.rs): its terminal frame and its result.
use evebox.Base.{
  ◌≡◌, refl, sym, ap, ◌∙◌, subst, true, Option, none, some, ◌⊎◌, inl, inr, List, [], ◌∷◌, ◌++◌, ℕ,
  if_lem, concat, arith,
}
use mathlib.Core.List.{append_assoc, append-nil}
use evebox.Server.Download.{
  IoKind, broken_pipe, timed_out, other_kind, ProducerError, ProducerResult, succeeded, failed, io,
  Frame, done, ChannelEnv, ChannelWriter, new_writer, SendResult, ok, err, unfinished, push, Call,
  call, and_flush, end_extraction, and_call, run_extraction, producer_end, client_gone, downgrade,
  after_done, finish_producer, and_finish, produce,
}
use evebox.Server.Download.Framing.{
  Sleeps, IsGone, Sends, send_frame-Sends, IsPrefix, framed, Held, Delivers, Writes, Flushes,
  Held-Delivers, push-Flushes, written, call-Writes,
}

abbrev pub output : List Call → List ℕ
output [] = []
output (c ∷ calls) = written c ++ output calls

-- A success has all of the output, a failure the beginning of it.
abbrev pub Covers : ProducerResult → (content out : List ℕ) → Type 0
Covers (succeeded stats) content out = content ≡ out
Covers (failed error) content out = IsPrefix content out

-- After the extraction: the frames hold what its result says, or the client is gone.
abbrev Extracted : List ℕ → ProducerResult → Option (ProducerResult × ChannelWriter) → Type 0
Extracted out result none = ⊥
Extracted out result (some (final, w)) =
    ((final ≡ result)
      × (chunks : List (List ℕ)) × (w.frames ≡ framed chunks)
      × (Covers result (concat chunks) out))
    ⊎ ((kind : IoKind) × (final ≡ failed (io kind)) × (IsGone kind) × (Delivers out w.frames))

and_flush-Extracted :
    (out : List ℕ) (result : ProducerResult) (r : SendResult)
    → (Held-Covers : (chunks : List (List ℕ))
        → concat chunks ≡ out
        → Covers result (concat chunks) out)
    → Flushes out r
    → Extracted out result (and_flush result r)
unfolding and_flush
and_flush-Extracted out result (ok w) covers (h, e) = inl (
  refl,
  h.chunks,
  h.frames,
  covers h.chunks
      (sym (append-nil (concat h.chunks)) ∙ ap (λ b. concat h.chunks ++ b) (sym e) ∙ h.content),
)
and_flush-Extracted out result (err kind w) covers (d, gone) = inr (kind, refl, gone, d)
and_flush-Extracted out result unfinished covers h = h

end_extraction-Extracted :
    (env : ChannelEnv) (out : List ℕ) (result : ProducerResult) (w : ChannelWriter)
    → Sleeps env
    → Held out w
    → Extracted out result (end_extraction env result w)
unfolding end_extraction
end_extraction-Extracted env out (succeeded stats) w sleeps h =
    and_flush-Extracted out (succeeded stats) (push env w) (λ chunks e. e)
      (push-Flushes env out w sleeps h)
end_extraction-Extracted env out (failed error) w sleeps h =
    let (chunks, f, p) = Held-Delivers out w h in inl (refl, chunks, f, p)

and_call-Extracted :
    (held rest : List ℕ) (result : ProducerResult) (r : SendResult)
    (next : ChannelWriter → Option (ProducerResult × ChannelWriter))
    → Writes held r
    → ((w : ChannelWriter) → Held held w → Extracted (held ++ rest) result (next w))
    → Extracted (held ++ rest) result (and_call r next)
unfolding and_call
and_call-Extracted held rest result (ok w) next h k = k w h
and_call-Extracted held rest result (err kind w) next ((chunks, e, (more, p)), gone) k = inr (
  kind,
  refl,
  gone,
  (chunks, e, (more ++ rest, ap (λ b. b ++ rest) p ∙ append_assoc (concat chunks) more rest)),
)
and_call-Extracted held rest result unfinished next h k = h

run_extraction-Extracted :
    (env : ChannelEnv) (out : List ℕ) (calls : List Call) (result : ProducerResult)
    (w : ChannelWriter)
    → Sleeps env
    → Held out w
    → Extracted (out ++ output calls) result (run_extraction env calls result w)
unfolding run_extraction
run_extraction-Extracted env out [] result w sleeps h =
    subst (λ o. Extracted o result (end_extraction env result w)) (sym (append-nil out))
      (end_extraction-Extracted env out result w sleeps h)
run_extraction-Extracted env out (c ∷ calls) result w sleeps h =
    let whole = append_assoc out (written c) (output calls) in
    subst (λ o. Extracted o result (and_call (call env c w) (run_extraction env calls result)))
      whole
      (and_call-Extracted (out ++ written c) (output calls) result (call env c w)
        (run_extraction env calls result) (call-Writes env out c w sleeps h)
        (λ w' h'. run_extraction-Extracted env (out ++ written c) calls result w' sleeps h'))

-- At the end, either the terminal frame tells the result behind frames that hold what it says, or
-- there is none and the result is a failure.
abbrev pub Ends : List ℕ → ProducerResult → ProducerResult → List Frame → Type 0
Ends out result final frames =
    ((final ≡ result)
      × (chunks : List (List ℕ)) × (frames ≡ framed chunks ++ done (producer_end result) ∷ [])
      × (Covers result (concat chunks) out))
    ⊎ ((error : ProducerError) × (final ≡ failed error) × (Delivers out frames))

abbrev pub Produces : List ℕ → ProducerResult → Option (ProducerResult × ChannelWriter) → Type 0
Produces out result none = ⊥
Produces out result (some (final, w)) = Ends out result final w.frames

Covers-IsPrefix :
    (result : ProducerResult) (content out : List ℕ)
    → Covers result content out
    → IsPrefix content out
Covers-IsPrefix (succeeded stats) content out e = ([], sym e ∙ sym (append-nil content))
Covers-IsPrefix (failed error) content out h = h

downgrade-Fails :
    (result : ProducerResult) (kind : IoKind)
    → IsGone kind
    → (error : ProducerError) × (downgrade result kind ≡ failed error)
unfolding downgrade client_gone
downgrade-Fails (succeeded stats) broken_pipe gone = (io broken_pipe, refl)
downgrade-Fails (succeeded stats) timed_out gone = (io timed_out, refl)
downgrade-Fails (succeeded stats) other_kind gone = absurd (ground (arith, gone))
downgrade-Fails (failed error) kind gone = (error, refl)

after_done-Produces :
    (out : List ℕ) (result : ProducerResult) (w : ChannelWriter) (r : SendResult)
    (chunks : List (List ℕ))
    → w.frames ≡ framed chunks
    → Covers result (concat chunks) out
    → Sends (done (producer_end result)) w r
    → Produces out result (after_done result r)
unfolding after_done
after_done-Produces out result w (ok w') chunks e covers (sent, _) =
    inl (refl, chunks, sent ∙ ap (λ fs. fs ++ done (producer_end result) ∷ []) e, covers)
after_done-Produces out result w (err kind w') chunks e covers (same, gone) =
    let (error, d) = downgrade-Fails result kind gone in
    inr (error, d, (chunks, same ∙ e, Covers-IsPrefix result (concat chunks) out covers))
after_done-Produces out result w unfinished chunks e covers h = h

gone-Fails :
    (result : ProducerResult)
    → client_gone result ≡ true
    → (error : ProducerError) × (result ≡ failed error)
unfolding client_gone
gone-Fails (succeeded stats) gone = absurd (ground (arith, gone))
gone-Fails (failed error) gone = (error, refl)

finish-Produces :
    (env : ChannelEnv) (out : List ℕ) (result : ProducerResult)
    (r : Option (ProducerResult × ChannelWriter))
    → Sleeps env
    → Extracted out result r
    → Produces out result (and_finish env r)
unfolding and_finish finish_producer
finish-Produces env out result none sleeps h = h
finish-Produces env out result (some (final, w)) sleeps (inl (e, chunks, f, covers)) =
    subst (λ x. Produces out result (finish_producer env x w)) (sym e)
      (if_lem (Produces out result) (client_gone result) _ _
        (λ gone.
          let (error, d) = gone-Fails result gone in
          inr (error, d, (chunks, f, Covers-IsPrefix result (concat chunks) out covers)))
        (λ _.
          after_done-Produces out result w _ chunks f covers
            (send_frame-Sends env (done (producer_end result)) w sleeps)))
finish-Produces env out result (some (final, w)) sleeps (inr (kind, e, gone, d)) =
    subst (λ x. Produces out result (finish_producer env x w)) (sym e)
      (if_lem (Produces out result) (client_gone (failed (io kind))) _ _
        (λ _. inr (io kind, refl, d)) (λ here. absurd (ground (arith, gone, here))))

pub produce-Produces :
    (env : ChannelEnv) (calls : List Call) (result : ProducerResult)
    → Sleeps env
    → Produces (output calls) result (produce env calls result)
unfolding produce new_writer
produce-Produces env calls result sleeps = finish-Produces env (output calls) result _ sleeps (
    run_extraction-Extracted env [] calls result _ sleeps
      (record { chunks = []; frames = refl; content = refl }))
