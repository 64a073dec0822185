-- ===== src/Server/Response/Examples.antt =====
-- Downloads of three bytes in two chunks: to a client that reads, and to one that is gone.
use evebox.Base.{ℕ, zero, suc, ◌*◌, ◌≡◌, refl, true, false, some, List, [], ◌∷◌, arith}
use evebox.Pcap.Request.{FetchStats}
use evebox.Server.Download.{
  Attempt, taken, closed, full, ChannelEnv, Call, write, flush, succeeded, produce, run_extraction,
  and_finish, finish_producer, client_gone, producer_end, after_done, and_call, call, push,
  push_buf, send_frame, send_loop, attempt, attempts, new_writer, end_extraction, and_flush, chunk,
  done, complete, failed, io, broken_pipe,
}
use evebox.Server.Download.Framing.{Sleeps}
use evebox.Server.Download.Producing.{output}
use evebox.Server.Response.Telling.{IsAnswered}
use evebox.Server.Response.Honesty.{local_download}

abbrev answer : ℕ → Attempt
answer zero = full
answer (suc n) = taken

abbrev reading : ChannelEnv
reading = record {
  try_send = answer;
  is_cancelled = λ tick. false;
  now = λ tick. tick * 20_000_000;
  stall_timeout = 60_000_000;
}

abbrev stats : FetchStats
stats = record {
  packets = 1;
  bytes = 3;
  files_scanned = 1;
  files_vanished = 0;
  truncated = true;
  linktype = some 1;
}

abbrev calls : List Call
calls = write (1 ∷ 2 ∷ []) ∷ flush ∷ write (3 ∷ []) ∷ []

told :
    produce reading calls (succeeded stats)
    ≡ some (
      succeeded stats,
      record {
        buf = [];
        frames = chunk (1 ∷ 2 ∷ []) ∷ chunk (3 ∷ []) ∷ done (complete true) ∷ [];
        tick = 4;
      },
    )
unfolding produce run_extraction and_finish finish_producer client_gone producer_end after_done
    and_call call push push_buf send_frame send_loop attempt attempts new_writer end_extraction
    and_flush
told = refl

untold :
    produce (record reading { try_send = λ tick. closed }) calls (succeeded stats)
    ≡ some (failed (io broken_pipe), record { buf = []; frames = []; tick = 1 })
unfolding produce run_extraction and_finish finish_producer client_gone and_call call push push_buf
    send_frame send_loop attempt attempts new_writer
untold = refl

sleeps : Sleeps reading
sleeps = record { after_full = λ tick e. omega arith }

local_download_example :
    IsAnswered false true true
      (succeeded stats)
      (output calls)
      (produce reading calls (succeeded stats))
local_download_example = local_download reading calls (succeeded stats) false true true sleeps
