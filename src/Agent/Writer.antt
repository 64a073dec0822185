-- ===== src/Agent/Writer.antt =====
-- `ChannelWriter` of src/agent/channel.rs: the bridge from the writes of an extraction to the chunks
-- of an upload. The channel, the clock and the cancellation token answer by the number of the
-- attempt. A chunk is the list of its bytes.
pub mod Pushing
pub mod Chunks
pub mod Examples
use evebox.Base.{
  ℕ, zero, suc, ◌+◌, ◌-◌, ◌*◌, min, Bool, true, false, not, ◌||◌, List, [], ◌∷◌, ◌++◌, length, take,
  drop, leb, ◌==◌, if◌then◌else◌,
}

abbrev pub chunk_size : ℕ
chunk_size = 64 * 1024

abbrev pub upload_stall_timeout : ℕ
upload_stall_timeout = 60_000_000_000

abbrev pub retry_interval : ℕ
retry_interval = 20_000_000

-- What `try_send` answers.
pub data Attempt : Type 0 where
  sent closed full : Attempt

pub record WriterEnv : Type 0 where
  pub try_send : (tick : ℕ) → Attempt
  pub is_cancelled : (tick : ℕ) → Bool
  pub now : (tick : ℕ) → ℕ

-- `chunks` is what the channel has taken, `tick` the number of attempts so far.
pub record ChannelWriter : Type 0 where
  pub buffer : List ℕ
  pub first_sent : Bool
  pub chunks : List (List ℕ)
  pub tick : ℕ

unfoldable pub new_writer : ChannelWriter
new_writer = record { buffer = []; first_sent = false; chunks = []; tick = 0 }

pub data WriteError : Type 0 where
  broken_pipe interrupted timed_out : WriteError

-- `unfinished` means that the fuel ran out.
pub data WriteResult : Type 0 where
  ok : ChannelWriter → WriteResult
  err : WriteError → ChannelWriter → WriteResult
  unfinished : WriteResult

-- One round of the loop in `push`, with what comes of the next.
attempt : WriterEnv → (deadline : ℕ) → List ℕ → ChannelWriter → Attempt → WriteResult → WriteResult
attempt env deadline chunk w sent again =
    ok (record w { tick = w.tick + 1; chunks = w.chunks ++ chunk ∷ []; first_sent = true })
attempt env deadline chunk w closed again = err broken_pipe (record w { tick = w.tick + 1 })
attempt env deadline chunk w full again =
    let w' : ChannelWriter = record w { tick = w.tick + 1 } in
    if env.is_cancelled w.tick
    then err interrupted w'
    else if leb deadline (env.now w.tick)
    then err timed_out w'
    else again

unfoldable pub push_loop : WriterEnv → ℕ → (deadline : ℕ) → List ℕ → ChannelWriter → WriteResult
unfolding attempt
push_loop env zero deadline chunk w = unfinished
push_loop env (suc fuel) deadline chunk w =
    let again = push_loop env fuel deadline chunk (record w { tick = w.tick + 1 }) in
    attempt env deadline chunk w (env.try_send w.tick) again

-- One attempt at the start, and one after each of the sleeps that fit before the deadline.
abbrev pub attempts : ℕ
attempts = 3_001

push_buffer : WriterEnv → List ℕ → ChannelWriter → WriteResult
unfolding push_loop
push_buffer env [] w = ok w
push_buffer env (byte ∷ bytes) w =
    push_loop env attempts (env.now w.tick + upload_stall_timeout) (byte ∷ bytes)
      (record w { buffer = [] })

unfoldable pub push : WriterEnv → ChannelWriter → WriteResult
unfolding push_buffer
push env w = push_buffer env w.buffer w

and_write : WriteResult → (ChannelWriter → WriteResult) → WriteResult
and_write (ok w) f = f w
and_write (err e w) f = err e w
and_write unfinished f = unfinished

-- The buffer takes what fits of the data.
fill_buffer : List ℕ → ChannelWriter → ChannelWriter
fill_buffer remaining w =
    let available = chunk_size - length w.buffer in
    record w { buffer = w.buffer ++ take (min available (length remaining)) remaining }

left_over : List ℕ → ChannelWriter → List ℕ
left_over remaining w =
    let available = chunk_size - length w.buffer in
    drop (min available (length remaining)) remaining

push_if_due : WriterEnv → ChannelWriter → WriteResult
unfolding push
push_if_due env w = if not w.first_sent || (length w.buffer == chunk_size) then push env w else ok w

-- `Write::write`: every round takes at least one byte, so the length of the data is fuel enough.
unfoldable pub write_loop : WriterEnv → ℕ → List ℕ → ChannelWriter → WriteResult
unfolding push_if_due fill_buffer left_over and_write
write_loop env fuel [] w = ok w
write_loop env zero (byte ∷ bytes) w = unfinished
write_loop env (suc fuel) (byte ∷ bytes) w =
    let remaining = byte ∷ bytes in
    and_write (push_if_due env (fill_buffer remaining w))
      (write_loop env fuel (left_over remaining w))

unfoldable pub write : WriterEnv → List ℕ → ChannelWriter → WriteResult
unfolding write_loop
write env bytes w = write_loop env (length bytes) bytes w

unfoldable pub flush : WriterEnv → ChannelWriter → WriteResult
unfolding push
flush env w = push env w

-- All the writes of an extraction.
unfoldable pub write_each : WriterEnv → List (List ℕ) → ChannelWriter → WriteResult
unfolding write and_write
write_each env [] w = ok w
write_each env (bytes ∷ rest) w = and_write (write env bytes w) (write_each env rest)

-- What `run_job` does: the writes of the extraction, and a flush where they all succeeded.
unfoldable pub write_out : WriterEnv → List (List ℕ) → WriteResult
unfolding write_each flush and_write new_writer
write_out env writes = and_write (write_each env writes new_writer) (flush env)
