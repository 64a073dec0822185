-- ===== src/Agent/Writer/Pushing.antt =====
-- `push` of `ChannelWriter` (src/agent/channel.rs): the buffer goes out as one chunk, and the loop ends.
use evebox.Base.{
  ℕ, zero, suc, ◌+◌, ◌*◌, ◌<◌, ◌≤◌, ◌≡◌, refl, sym, ap, ◌∙◌, subst, true, false, List, [], ◌∷◌,
  ◌++◌, length, leb, if_lem, All, All-append, concat, concat-snoc, arith,
}
use mathlib.Core.List.{append-nil}
use evebox.Agent.Writer.{
  chunk_size, retry_interval, Attempt, sent, closed, full, WriterEnv, ChannelWriter, WriteResult,
  ok, err, unfinished, push_loop, attempt, upload_stall_timeout, push_buffer, push,
}

-- A chunk has a byte at least, and no more than the transport allows.
abbrev pub IsChunk : List ℕ → Type 0
IsChunk chunk = (0 < length chunk) × (length chunk ≤ chunk_size)

-- What was written so far: the chunks that were handed on, and the bytes in the buffer.
pub record Buffers (bytes : List ℕ) (w : ChannelWriter) : Type 0 where
  pub content : concat w.chunks ++ w.buffer ≡ bytes
  pub cut : All IsChunk w.chunks
  pub room : length w.buffer ≤ chunk_size
  pub early : w.first_sent ≡ false → w.chunks ≡ []

-- Between two writes: the first bytes have not waited, and there is room for more.
abbrev pub Holds : List ℕ → ChannelWriter → Type 0
Holds bytes w =
    (Buffers bytes w) × (length w.buffer < chunk_size) × (w.first_sent ≡ false → w.buffer ≡ [])

abbrev pub IsPrefix : List ℕ → List ℕ → Type 0
IsPrefix xs ys = (rest : List ℕ) × (ys ≡ xs ++ rest)

-- Where a call failed: what was handed on is the beginning of the bytes.
abbrev pub Delivers : List ℕ → ChannelWriter → Type 0
Delivers bytes w = (IsPrefix (concat w.chunks) bytes) × (All IsChunk w.chunks)

abbrev pub Writes : List ℕ → WriteResult → Type 0
Writes bytes (ok w) = Holds bytes w
Writes bytes (err e w) = Delivers bytes w
Writes bytes unfinished = ⊥

-- A flush leaves nothing behind.
abbrev pub Flushes : List ℕ → WriteResult → Type 0
Flushes bytes (ok w) = (Holds bytes w) × (w.buffer ≡ [])
Flushes bytes (err e w) = Delivers bytes w
Flushes bytes unfinished = ⊥

-- After an attempt that finds the channel full, the thread sleeps for the interval at least.
pub record Sleeps (env : WriterEnv) : Type 0 where
  pub after_full :
      (tick : ℕ) → env.try_send tick ≡ full → env.now tick + retry_interval ≤ env.now (tick + 1)

-- The chunk goes out whole or not at all, and the loop ends.
abbrev Sends : List ℕ → List (List ℕ) → WriteResult → Type 0
Sends chunk chunks (ok w) =
    (w.chunks ≡ chunks ++ chunk ∷ []) × (w.buffer ≡ []) × (w.first_sent ≡ true)
Sends chunk chunks (err e w) = w.chunks ≡ chunks
Sends chunk chunks unfinished = ⊥

-- How long the loop can go on: the time that is left fits into the sleeps of the fuel.
abbrev FitsIn : WriterEnv → ℕ → ℕ → ℕ → Type 0
FitsIn env deadline tick fuel = deadline ≤ env.now tick + retry_interval * fuel

attempt-Sends :
    (env : WriterEnv) (fuel deadline : ℕ) (chunk : List ℕ) (w : ChannelWriter) (a : Attempt)
    → w.buffer ≡ []
    → env.try_send w.tick ≡ a
    → (env.try_send w.tick ≡ full
        → leb deadline (env.now w.tick) ≡ false
        → Sends chunk w.chunks (push_loop env fuel deadline chunk (record w { tick = w.tick + 1 })))
    → Sends chunk w.chunks (
        attempt env deadline chunk w a
          (push_loop env fuel deadline chunk (record w { tick = w.tick + 1 })))
unfolding attempt
attempt-Sends env fuel deadline chunk w sent e f again = (refl, e, refl)
attempt-Sends env fuel deadline chunk w closed e f again = refl
attempt-Sends env fuel deadline chunk w full e f again =
    if_lem (Sends chunk w.chunks) (env.is_cancelled w.tick) _ _ (λ _. refl)
      (λ _. if_lem (Sends chunk w.chunks) (leb deadline (env.now w.tick)) _ _ (λ _. refl) (again f))

push_loop-Sends :
    (env : WriterEnv) (fuel deadline : ℕ) (chunk : List ℕ) (w : ChannelWriter)
    → Sleeps env
    → w.buffer ≡ []
    → FitsIn env deadline w.tick fuel
    → Sends chunk w.chunks (push_loop env (suc fuel) deadline chunk w)
unfolding push_loop
push_loop-Sends env zero deadline chunk w sleeps e fits =
    attempt-Sends env zero deadline chunk w (env.try_send w.tick) e refl
      (λ _ late. absurd (ground arith))
push_loop-Sends env (suc fuel) deadline chunk w sleeps e fits =
    attempt-Sends env (suc fuel) deadline chunk w (env.try_send w.tick) e refl (λ f _.
      push_loop-Sends env fuel deadline chunk (record w { tick = w.tick + 1 }) sleeps e
        (omega (arith, fits, sleeps.after_full w.tick f)))

Sends-Flushes :
    (bytes chunk : List ℕ) (chunks : List (List ℕ)) (r : WriteResult)
    → concat chunks ++ chunk ≡ bytes
    → IsChunk chunk
    → All IsChunk chunks
    → Sends chunk chunks r
    → Flushes bytes r
Sends-Flushes bytes chunk chunks (ok w) content size cut (out, none_left, first) = (
  (
    record {
      content =
          ap (λ b. concat w.chunks ++ b) none_left
          ∙ append-nil (concat w.chunks)
          ∙ ap concat out
          ∙ concat-snoc chunks chunk
          ∙ content;
      cut = subst (All IsChunk) (sym out) (All-append IsChunk chunks (chunk ∷ []) cut (size, tt));
      room = subst (λ b. length b ≤ chunk_size) (sym none_left) (omega arith);
      early = λ f. cc;
    },
    subst (λ b. length b < chunk_size) (sym none_left) (omega arith),
    λ f. cc,
  ),
  none_left,
)
Sends-Flushes bytes chunk chunks (err e w) content size cut same = (
  (chunk, sym content ∙ ap (λ cs. concat cs ++ chunk) (sym same)),
  subst (All IsChunk) (sym same) cut,
)
Sends-Flushes bytes chunk chunks unfinished content size cut h = h

pub push-Flushes :
    (env : WriterEnv) (bytes : List ℕ) (w : ChannelWriter)
    → Sleeps env
    → Buffers bytes w
    → Flushes bytes (push env w)
unfolding push push_buffer
push-Flushes env bytes w sleeps h = cases w.buffer refl
  where
    cases : (b : List ℕ) → w.buffer ≡ b → Flushes bytes (push_buffer env b w)
    cases [] e = ((h, subst (λ b. length b < chunk_size) (sym e) (omega arith), λ _. e), e)
    cases (byte ∷ rest) e =
        Sends-Flushes bytes (byte ∷ rest) w.chunks _
          (ap (λ b. concat w.chunks ++ b) (sym e) ∙ h.content)
          (omega arith, subst (λ b. length b ≤ chunk_size) e h.room) h.cut
          (push_loop-Sends env 3_000 (env.now w.tick + upload_stall_timeout) (byte ∷ rest)
            (record w { buffer = [] }) sleeps refl (omega arith))
