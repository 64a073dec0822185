-- ===== src/Server/Download/Framing.antt =====
-- The thread of a local extraction (src/server/api/pcap.rs): what its channel has taken at the end.
use evebox.Base.{
  ℕ, zero, suc, ◌+◌, ◌*◌, ◌/◌, ◌≤◌, ◌≡◌, refl, sym, ap, ◌∙◌, subst, true, false, List, [], ◌∷◌,
  ◌++◌, leb, length, if_lem, concat, concat-snoc, arith,
}
use mathlib.Core.List.{append_assoc, append-nil}
use evebox.Server.Download.{
  chunk_size, retry_interval, IoKind, failed, io, Frame, chunk, Attempt, taken, closed, full,
  ChannelEnv, ChannelWriter, SendResult, ok, err, unfinished, attempt, send_loop, attempts,
  send_frame, push_buf, push, Call, write, flush, call, client_gone,
}

-- After an attempt that finds the channel full, the thread sleeps for the interval at least.
pub record Sleeps (env : ChannelEnv) : Type 0 where
  pub after_full :
      (tick : ℕ) → env.try_send tick ≡ full → env.now tick + retry_interval ≤ env.now (tick + 1)

abbrev pub IsGone : IoKind → Type 0
IsGone kind = client_gone (failed (io kind)) ≡ true

-- The frame goes out whole or not at all, and the loop ends; a failure means that the client is gone.
abbrev pub Sends : Frame → ChannelWriter → SendResult → Type 0
Sends frame w (ok w') = (w'.frames ≡ w.frames ++ frame ∷ []) × (w'.buf ≡ w.buf)
Sends frame w (err kind w') = (w'.frames ≡ w.frames) × (IsGone kind)
Sends frame w unfinished = ⊥

attempt-Sends :
    (env : ChannelEnv) (fuel deadline : ℕ) (frame : Frame) (w : ChannelWriter) (a : Attempt)
    → env.try_send w.tick ≡ a
    → (env.try_send w.tick ≡ full
        → leb deadline (env.now w.tick) ≡ false
        → Sends frame w (send_loop env fuel deadline frame (record w { tick = w.tick + 1 })))
    → Sends frame w (
        attempt env deadline frame w a
          (send_loop env fuel deadline frame (record w { tick = w.tick + 1 })))
unfolding attempt client_gone
attempt-Sends env fuel deadline frame w taken f again = (refl, refl)
attempt-Sends env fuel deadline frame w closed f again = (refl, refl)
attempt-Sends env fuel deadline frame w full f again =
    if_lem (Sends frame w) (env.is_cancelled w.tick) _ _ (λ _. (refl, refl))
      (λ _.
        if_lem (Sends frame w) (leb deadline (env.now w.tick)) _ _ (λ _. (refl, refl)) (again f))

send_loop-Sends :
    (env : ChannelEnv) (fuel deadline : ℕ) (frame : Frame) (w : ChannelWriter)
    → Sleeps env
    → deadline ≤ env.now w.tick + retry_interval * fuel
    → Sends frame w (send_loop env (suc fuel) deadline frame w)
unfolding send_loop
send_loop-Sends env zero deadline frame w sleeps fits =
    attempt-Sends env zero deadline frame w (env.try_send w.tick) refl
      (λ _ late. absurd (ground arith))
send_loop-Sends env (suc fuel) deadline frame w sleeps fits =
    attempt-Sends env (suc fuel) deadline frame w (env.try_send w.tick) refl (λ f _.
      send_loop-Sends env fuel deadline frame (record w { tick = w.tick + 1 }) sleeps
        (omega (arith, fits, sleeps.after_full w.tick f)))

pub send_frame-Sends :
    (env : ChannelEnv) (frame : Frame) (w : ChannelWriter)
    → Sleeps env
    → Sends frame w (send_frame env frame w)
unfolding send_frame attempts
send_frame-Sends env frame w sleeps =
    let fuel = env.stall_timeout / retry_interval + 1 in
    let fuel_suc : suc fuel ≡ env.stall_timeout / retry_interval + 2 = omega arith in
    let deadline = env.now w.tick + env.stall_timeout in
    subst (λ n. Sends frame w (send_loop env n deadline frame w)) fuel_suc
      (send_loop-Sends env fuel deadline frame w sleeps (omega arith))

abbrev pub IsPrefix : List ℕ → List ℕ → Type 0
IsPrefix xs ys = (rest : List ℕ) × (ys ≡ xs ++ rest)

abbrev pub framed : List (List ℕ) → List Frame
framed [] = []
framed (c ∷ chunks) = chunk c ∷ framed chunks

framed-snoc :
    (chunks : List (List ℕ)) (c : List ℕ)
    → framed chunks ++ chunk c ∷ [] ≡ framed (chunks ++ c ∷ [])
framed-snoc [] c = refl
framed-snoc (first ∷ chunks) c = ap (λ fs. chunk first ∷ fs) (framed-snoc chunks c)

-- The output so far is in frames, the rest of it in the buffer.
pub record Held (out : List ℕ) (w : ChannelWriter) : Type 0 where
  pub chunks : List (List ℕ)
  pub frames : w.frames ≡ framed chunks
  pub content : concat chunks ++ w.buf ≡ out

-- The frames hold the beginning of the output.
abbrev pub Delivers : List ℕ → List Frame → Type 0
Delivers out frames =
    (chunks : List (List ℕ)) × (frames ≡ framed chunks) × (IsPrefix (concat chunks) out)

abbrev pub Writes : List ℕ → SendResult → Type 0
Writes out (ok w) = Held out w
Writes out (err kind w) = (Delivers out w.frames) × (IsGone kind)
Writes out unfinished = ⊥

-- A flush leaves nothing behind.
abbrev pub Flushes : List ℕ → SendResult → Type 0
Flushes out (ok w) = (Held out w) × (w.buf ≡ [])
Flushes out (err kind w) = (Delivers out w.frames) × (IsGone kind)
Flushes out unfinished = ⊥

pub Held-Delivers : (out : List ℕ) (w : ChannelWriter) → Held out w → Delivers out w.frames
Held-Delivers out w h = (h.chunks, h.frames, (w.buf, sym h.content))

Sends-Flushes :
    (out c : List ℕ) (w : ChannelWriter) (r : SendResult)
    → (h : Held out w) → w.buf ≡ c
    → Sends (chunk c) (record w { buf = [] }) r
    → Flushes out r
Sends-Flushes out c w (ok w') h e (sent, emptied) = (
  record {
    chunks = h.chunks ++ c ∷ [];
    frames = sent ∙ ap (λ fs. fs ++ chunk c ∷ []) h.frames ∙ framed-snoc h.chunks c;
    content =
        ap (λ b. concat (h.chunks ++ c ∷ []) ++ b) emptied
        ∙ append-nil (concat (h.chunks ++ c ∷ []))
        ∙ concat-snoc h.chunks c
        ∙ ap (λ b. concat h.chunks ++ b) (sym e)
        ∙ h.content;
  },
  emptied,
)
Sends-Flushes out c w (err kind w') h e (same, gone) =
    ((h.chunks, same ∙ h.frames, (w.buf, sym h.content)), gone)
Sends-Flushes out c w unfinished h e s = s

pub push-Flushes :
    (env : ChannelEnv) (out : List ℕ) (w : ChannelWriter)
    → Sleeps env
    → Held out w
    → Flushes out (push env w)
unfolding push push_buf
push-Flushes env out w sleeps h = cases w.buf refl
  where
    cases : (b : List ℕ) → w.buf ≡ b → Flushes out (push_buf env b w)
    cases [] e = (h, e)
    cases (byte ∷ rest) e =
        Sends-Flushes out (byte ∷ rest) w _ h e
          (send_frame-Sends env (chunk (byte ∷ rest)) (record w { buf = [] }) sleeps)

Flushes-Writes : (out : List ℕ) (r : SendResult) → Flushes out r → Writes out r
Flushes-Writes out (ok w) (h, _) = h
Flushes-Writes out (err kind w) h = h
Flushes-Writes out unfinished h = h

-- What a call adds to the output.
abbrev pub written : Call → List ℕ
written (write data_bytes) = data_bytes
written flush = []

pub call-Writes :
    (env : ChannelEnv) (out : List ℕ) (c : Call) (w : ChannelWriter)
    → Sleeps env
    → Held out w
    → Writes (out ++ written c) (call env c w)
unfolding call
call-Writes env out (write data_bytes) w sleeps h =
    let held : Held (out ++ data_bytes) (record w { buf = w.buf ++ data_bytes }) = record {
      chunks = h.chunks;
      frames = h.frames;
      content =
          sym (append_assoc (concat h.chunks) w.buf data_bytes)
          ∙ ap (λ b. b ++ data_bytes) h.content;
    } in
    if_lem (Writes (out ++ data_bytes)) (leb chunk_size (length (w.buf ++ data_bytes))) _ _
      (λ _. Flushes-Writes (out ++ data_bytes) _ (push-Flushes env _ _ sleeps held)) (λ _. held)
call-Writes env out flush w sleeps h =
    subst (λ o. Writes o (push env w)) (sym (append-nil out))
      (Flushes-Writes out _ (push-Flushes env out w sleeps h))
