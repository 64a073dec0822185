-- ===== src/Server/Download.antt =====
-- A download from a local spool (src/server/api/pcap.rs): the thread of the extraction frames its
-- output into a channel and ends it with a terminal frame. The channel, the clock and the token answer
-- by the number of the attempt.
pub mod Framing
pub mod Producing
use evebox.Base.{
  ℕ, zero, suc, ◌+◌, ◌*◌, ◌/◌, Bool, true, false, Option, none, some, List, [], ◌∷◌, ◌++◌, String,
  length, leb, if◌then◌else◌,
}
use evebox.Pcap.Request.{FetchStats}

abbrev pub chunk_size : ℕ
chunk_size = 64 * 1024

-- The sleep between two attempts, in nanoseconds.
abbrev pub retry_interval : ℕ
retry_interval = 20_000_000

pub data IoKind : Type 0 where
  broken_pipe timed_out other_kind : IoKind

-- The errors of a fetch, with the kind of an I/O error, which decides about the terminal frame.
pub data ProducerError : Type 0 where
  no_candidate_files : ProducerError
  no_match : FetchStats → ProducerError
  format : String → ProducerError
  io : IoKind → ProducerError

pub data ProducerResult : Type 0 where
  succeeded : FetchStats → ProducerResult
  failed : ProducerError → ProducerResult

pub data ProducerEnd : Type 0 where
  complete : (truncated : Bool) → ProducerEnd
  end_no_candidate_files end_no_match end_io : ProducerEnd
  end_format : String → ProducerEnd

pub data Frame : Type 0 where
  chunk : List ℕ → Frame
  done : ProducerEnd → Frame

-- What `try_send` answers.
pub data Attempt : Type 0 where
  taken closed full : Attempt

pub record ChannelEnv : Type 0 where
  pub try_send : (tick : ℕ) → Attempt
  pub is_cancelled : (tick : ℕ) → Bool
  pub now : (tick : ℕ) → ℕ
  pub stall_timeout : ℕ

-- `frames` is what the channel has taken, `tick` the number of attempts so far.
pub record ChannelWriter : Type 0 where
  pub buf : List ℕ
  pub frames : List Frame
  pub tick : ℕ

unfoldable pub new_writer : ChannelWriter
new_writer = record { buf = []; frames = []; tick = 0 }

-- `unfinished` means that the fuel ran out.
pub data SendResult : Type 0 where
  ok : ChannelWriter → SendResult
  err : IoKind → ChannelWriter → SendResult
  unfinished : SendResult

-- One round of the loop in `send_frame`, with what comes of the next.
unfoldable pub attempt :
    ChannelEnv → (deadline : ℕ) → Frame → ChannelWriter → Attempt → SendResult → SendResult
attempt env deadline frame w taken again =
    ok (record w { tick = w.tick + 1; frames = w.frames ++ frame ∷ [] })
attempt env deadline frame w closed again = err broken_pipe (record w { tick = w.tick + 1 })
attempt env deadline frame w full again =
    let w' : ChannelWriter = record w { tick = w.tick + 1 } in
    if env.is_cancelled w.tick
    then err broken_pipe w'
    else if leb deadline (env.now w.tick)
    then err timed_out w'
    else again

unfoldable pub send_loop : ChannelEnv → ℕ → (deadline : ℕ) → Frame → ChannelWriter → SendResult
unfolding attempt
send_loop env zero deadline frame w = unfinished
send_loop env (suc fuel) deadline frame w =
    let again = send_loop env fuel deadline frame (record w { tick = w.tick + 1 }) in
    attempt env deadline frame w (env.try_send w.tick) again

-- One attempt at the start, and one after each of the sleeps that fit before the deadline.
unfoldable pub attempts : ChannelEnv → ℕ
attempts env = env.stall_timeout / retry_interval + 2

unfoldable pub send_frame : ChannelEnv → Frame → ChannelWriter → SendResult
unfolding send_loop attempts
send_frame env frame w = send_loop env (attempts env) (env.now w.tick + env.stall_timeout) frame w

unfoldable pub push_buf : ChannelEnv → List ℕ → ChannelWriter → SendResult
unfolding send_frame
push_buf env [] w = ok w
push_buf env (byte ∷ bytes) w = send_frame env (chunk (byte ∷ bytes)) (record w { buf = [] })

unfoldable pub push : ChannelEnv → ChannelWriter → SendResult
unfolding push_buf
push env w = push_buf env w.buf w

-- The calls that an extraction makes on its writer.
pub data Call : Type 0 where
  write : List ℕ → Call
  flush : Call

unfoldable pub call : ChannelEnv → Call → ChannelWriter → SendResult
unfolding push
call env (write data_bytes) w =
    let w' : ChannelWriter = record w { buf = w.buf ++ data_bytes } in
    if leb chunk_size (length w'.buf) then push env w' else ok w'
call env flush w = push env w

-- `run_extraction`: an extraction ends with the first error of its writer; one that succeeds has its
-- output flushed. `result` is what the extraction answers if no call fails.
unfoldable pub and_flush : ProducerResult → SendResult → Option (ProducerResult × ChannelWriter)
and_flush result (ok w) = some (result, w)
and_flush result (err kind w) = some (failed (io kind), w)
and_flush result unfinished = none

unfoldable pub end_extraction :
    ChannelEnv → ProducerResult → ChannelWriter → Option (ProducerResult × ChannelWriter)
unfolding and_flush push
end_extraction env (succeeded stats) w = and_flush (succeeded stats) (push env w)
end_extraction env (failed error) w = some (failed error, w)

unfoldable pub and_call :
    SendResult
    → (ChannelWriter → Option (ProducerResult × ChannelWriter))
    → Option (ProducerResult × ChannelWriter)
and_call (ok w) rest = rest w
and_call (err kind w) rest = some (failed (io kind), w)
and_call unfinished rest = none

unfoldable pub run_extraction :
    ChannelEnv
    → List Call
    → ProducerResult
    → ChannelWriter
    → Option (ProducerResult × ChannelWriter)
unfolding call and_call end_extraction
run_extraction env [] result w = end_extraction env result w
run_extraction env (first ∷ calls) result w =
    and_call (call env first w) (run_extraction env calls result)

unfoldable pub producer_end : ProducerResult → ProducerEnd
producer_end (succeeded stats) = complete stats.truncated
producer_end (failed no_candidate_files) = end_no_candidate_files
producer_end (failed (no_match stats)) = end_no_match
producer_end (failed (format message)) = end_format message
producer_end (failed (io kind)) = end_io

-- A client that is gone gets no terminal frame.
unfoldable pub client_gone : ProducerResult → Bool
client_gone (failed (io broken_pipe)) = true
client_gone (failed (io timed_out)) = true
client_gone result = false

-- A success whose terminal frame is not taken is none.
unfoldable pub downgrade : ProducerResult → IoKind → ProducerResult
downgrade (succeeded stats) broken_pipe = failed (io broken_pipe)
downgrade (succeeded stats) timed_out = failed (io timed_out)
downgrade result kind = result

unfoldable pub after_done : ProducerResult → SendResult → Option (ProducerResult × ChannelWriter)
unfolding downgrade
after_done result (ok w) = some (result, w)
after_done result (err kind w) = some (downgrade result kind, w)
after_done result unfinished = none

unfoldable pub finish_producer :
    ChannelEnv → ProducerResult → ChannelWriter → Option (ProducerResult × ChannelWriter)
unfolding client_gone send_frame producer_end after_done
finish_producer env result w =
    if client_gone result
    then some (result, w)
    else after_done result (send_frame env (done (producer_end result)) w)

unfoldable pub and_finish :
    ChannelEnv → Option (ProducerResult × ChannelWriter) → Option (ProducerResult × ChannelWriter)
unfolding finish_producer
and_finish env none = none
and_finish env (some (result, w)) = finish_producer env result w

-- The thread of the extraction.
unfoldable pub produce :
    ChannelEnv → List Call → ProducerResult → Option (ProducerResult × ChannelWriter)
unfolding run_extraction and_finish new_writer
produce env calls result = and_finish env (run_extraction env calls result new_writer)
