-- ===== src/Agent/Writer/Chunks.antt =====
-- What `ChannelWriter` of src/agent/channel.rs hands on is what was written, cut into chunks.
use evebox.Base.{
  ℕ, zero, suc, ◌-◌, ◌≤◌, ◌≡◌, refl, sym, ap, ◌∙◌, subst, min, Bool, true, false, not, ◌||◌, List,
  [], ◌∷◌, ◌++◌, length, length-append, take, drop, ◌==◌, if_lem, All, concat, take-append-drop,
  length-take, length-drop, arith,
}
use mathlib.Core.List.{append_assoc, append-nil}
use evebox.Agent.Writer.{
  chunk_size, WriterEnv, ChannelWriter, new_writer, WriteResult, ok, err, unfinished, push,
  and_write, fill_buffer, left_over, push_if_due, write_loop, write, flush, write_each, write_out,
}
use evebox.Agent.Writer.Pushing.{
  IsChunk, Buffers, Holds, IsPrefix, Delivers, Writes, Flushes, Sleeps, push-Flushes,
}

-- The buffer after it has taken what fits.
fill_buffer-Buffers :
    (bytes remaining : List ℕ) (w : ChannelWriter)
    → Holds bytes w
    → Buffers
        (bytes ++ take (min (chunk_size - length w.buffer) (length remaining)) remaining)
        (fill_buffer remaining w)
unfolding fill_buffer
fill_buffer-Buffers bytes remaining w (h, _, _) =
    let n = min (chunk_size - length w.buffer) (length remaining) in
    let part = take n remaining in
    record {
      content = sym (append_assoc (concat w.chunks) w.buffer part) ∙ ap (λ b. b ++ part) h.content;
      cut = h.cut;
      room =
          omega (arith, length-append w.buffer part, length-take n remaining (omega arith), h.room);
      early = h.early;
    }

due-Writes :
    (env : WriterEnv) (bytes : List ℕ) (w : ChannelWriter)
    → Sleeps env
    → Buffers bytes w
    → Writes bytes (push_if_due env w)
unfolding push_if_due
due-Writes env bytes w sleeps h =
    if_lem (Writes bytes) (not w.first_sent || (length w.buffer == chunk_size)) _ _
      (λ _. Flushes-Writes bytes (push env w) (push-Flushes env bytes w sleeps h))
      (λ due. (h, ground (arith, h.room), λ f. cc (early w.first_sent _ due f)))
  where
    Flushes-Writes : (bytes : List ℕ) (r : WriteResult) → Flushes bytes r → Writes bytes r
    Flushes-Writes bytes (ok w) f = f.0
    Flushes-Writes bytes (err e w) f = f
    Flushes-Writes bytes unfinished f = f

    early : (a b : Bool) → (not a || b) ≡ false → a ≡ false → false ≡ true
    early true b h e = sym e
    early false b h e = sym h

and_write-Writes :
    (held bytes : List ℕ) (r : WriteResult) (f : ChannelWriter → WriteResult)
    → IsPrefix held bytes
    → Writes held r
    → ((w : ChannelWriter) → Holds held w → Writes bytes (f w))
    → Writes bytes (and_write r f)
unfolding and_write
and_write-Writes held bytes (ok w) f p h k = k w h
and_write-Writes held bytes (err e w) f (rest, e₁) ((rest₂, e₂), cut) k =
    ((rest₂ ++ rest, e₁ ∙ ap (λ b. b ++ rest) e₂ ∙ append_assoc (concat w.chunks) rest₂ rest), cut)
and_write-Writes held bytes unfinished f p h k = h

write_loop-Writes :
    (env : WriterEnv) (fuel : ℕ) (bytes remaining : List ℕ) (w : ChannelWriter)
    → Sleeps env
    → length remaining ≤ fuel
    → Holds bytes w
    → Writes (bytes ++ remaining) (write_loop env fuel remaining w)
unfolding write_loop left_over
write_loop-Writes env fuel bytes [] w sleeps enough h =
    subst (λ b. Holds b w) (sym (append-nil bytes)) h
write_loop-Writes env zero bytes (byte ∷ rest) w sleeps enough h = absurd (omega arith)
write_loop-Writes env (suc fuel) bytes (byte ∷ rest) w sleeps enough h =
    let remaining = byte ∷ rest in
    let n = min (chunk_size - length w.buffer) (length remaining) in
    let left = drop n remaining in
    let held = bytes ++ take n remaining in
    let whole : bytes ++ remaining ≡ held ++ left =
      ap (λ b. bytes ++ b) (sym (take-append-drop n remaining))
      ∙ sym (append_assoc bytes (take n remaining) left) in
    and_write-Writes held (bytes ++ remaining) (push_if_due env (fill_buffer remaining w))
      (write_loop env fuel left) (left, whole)
      (due-Writes env held (fill_buffer remaining w) sleeps
        (fill_buffer-Buffers bytes remaining w h))
      (λ w' h'.
        subst (λ b. Writes b (write_loop env fuel left w')) (sym whole)
          (write_loop-Writes env fuel held left w' sleeps
            (omega (arith, length-drop n remaining (omega arith), h.1, enough)) h'))

write_each-Writes :
    (env : WriterEnv) (bytes : List ℕ) (writes : List (List ℕ)) (w : ChannelWriter)
    → Sleeps env
    → Holds bytes w
    → Writes (bytes ++ concat writes) (write_each env writes w)
unfolding write_each write
write_each-Writes env bytes [] w sleeps h = subst (λ b. Holds b w) (sym (append-nil bytes)) h
write_each-Writes env bytes (first ∷ writes) w sleeps h =
    let whole = append_assoc bytes first (concat writes) in
    and_write-Writes (bytes ++ first) (bytes ++ concat (first ∷ writes))
      (write_loop env (length first) first w) (write_each env writes) (concat writes, sym whole)
      (write_loop-Writes env (length first) bytes first w sleeps (omega arith) h)
      (λ w' h'.
        subst (λ b. Writes b (write_each env writes w')) whole
          (write_each-Writes env (bytes ++ first) writes w' sleeps h'))

-- What an upload gets of an extraction's output: all of it, or the beginning of it where a write or
-- the flush fails; cut into chunks of at least one and at most 64 Ki bytes.
abbrev pub IsHandedOn : List (List ℕ) → WriteResult → Type 0
IsHandedOn writes (ok w) = (concat w.chunks ≡ concat writes) × (All IsChunk w.chunks)
IsHandedOn writes (err e w) = Delivers (concat writes) w
IsHandedOn writes unfinished = ⊥

and_flush :
    (env : WriterEnv) (writes : List (List ℕ)) (r : WriteResult)
    → Sleeps env
    → Writes (concat writes) r
    → IsHandedOn writes (and_write r (flush env))
unfolding and_write flush
and_flush env writes (ok w) sleeps h =
    flushed (push env w) (push-Flushes env (concat writes) w sleeps h.0)
  where
    flushed : (r : WriteResult) → Flushes (concat writes) r → IsHandedOn writes r
    flushed (ok w) ((f, _, _), none_left) = (
      sym (append-nil (concat w.chunks))
          ∙ ap (λ b. concat w.chunks ++ b) (sym none_left)
          ∙ f.content,
      f.cut,
    )
    flushed (err e w) f = f
    flushed unfinished f = f
and_flush env writes (err e w) sleeps h = h
and_flush env writes unfinished sleeps h = h

-- Every sequence of writes ends: where the thread sleeps as long as it asks for, no write waits for
-- more than 3,001 attempts. If all the writes and the flush succeed, the chunks that the channel
-- has taken are together what was written; if one fails, they are the beginning of it. In both cases
-- each chunk has at least one and at most 64 Ki bytes.
pub write_out-IsHandedOn :
    (env : WriterEnv) (writes : List (List ℕ))
    → Sleeps env
    → IsHandedOn writes (write_out env writes)
unfolding write_out new_writer
write_out-IsHandedOn env writes sleeps = and_flush env writes (write_each env writes _) sleeps (
    write_each-Writes env [] writes _ sleeps (
      record { content = refl; cut = tt; room = omega arith; early = λ _. refl },
      omega arith,
      λ _. refl,
    ))
