-- ===== src/Pcap/Fetch/Examples.antt =====
-- A fetch over two files whose packets interleave in time, with one that lies outside the window.
use evebox.Base.{ℕ, ◌≡◌, ◌≢◌, refl, Bool, true, false, none, some, [], ◌∷◌, str_eq, arith}
use evebox.Pcap.Request.{FetchStats, PcapRequest, PcapSource, files, expression}
use evebox.Pcap.File.{Packet, pos, PcapWriter}
use evebox.Pcap.File.Stream.{stream}
use evebox.Pcap.Fetch.{
  Env, compiled, FileResult, capture, ts_micros, checked_micros, passes, is_inside, live,
  maybe_flush, turn, unsigned,
}
use evebox.Pcap.Fetch.Cursor.{
  refill, refill_from, refill_files, after_open, after_scan, scan, open_group_file,
}
use evebox.Pcap.Fetch.Merge.{merge, merge_step, after_refill, push, push_pending, exceeds}
use evebox.Pcap.Fetch.Run.{
  ok, panic, groups, groups_of, Spool, fetch, matcher_of, start_progress, fill, finish, rounds,
}
use evebox.Pcap.Fetch.Run.Output.{FetchOk, fetch-FetchOk}
use evebox.Pcap.Fetch.Run.Ends.{fetch_answers}
use evebox.Pcap.Fetch.Run.Order.{AnswerOrdered, fetch-AnswerOrdered}

abbrev pub packet : ℕ → Packet
packet second = record {
  tv_sec = pos second;
  tv_usec = pos 0;
  orig_len = 2;
  payload = second ∷ 9 ∷ [];
}

-- The file of the first group, and any other.
abbrev pub file_of : Bool → FileResult
file_of true = capture 1 (packet 10 ∷ packet 30 ∷ packet 90 ∷ [])
file_of false = capture 1 (packet 20 ∷ packet 40 ∷ [])

abbrev pub env : Env
env = record {
  from_file = λ path. file_of (str_eq path "a.pcap");
  compile = λ linktype expression. compiled (λ packet. true);
  now = λ tick. 0;
  is_cancelled = λ tick. false;
  accepts = λ tick. true;
}

abbrev pub spool : Spool
spool = record { load_files = λ config start end. groups []; to_bpf = λ selector. ("", "") }

abbrev pub source : PcapSource
source = files ("a.pcap" ∷ "b.pcap" ∷ [])

abbrev pub request : PcapRequest
request = record {
  filter = some (expression "tcp");
  start = some 0;
  end = some 50_000_000;
  limits = record { max_bytes = 1_000; deadline = none; flush_interval = 1 };
}

abbrev pub stats : FetchStats
stats = record {
  packets = 4;
  bytes = 96;
  files_scanned = 2;
  files_vanished = 0;
  truncated = false;
  linktype = some 1;
}

fetch_merges :
    ((fetch env spool source request).0 ≡ ok stats)
    × ((fetch env spool source request).1.out
        ≡ stream 1 (packet 10 ∷ packet 20 ∷ packet 30 ∷ packet 40 ∷ []))
unfolding fetch matcher_of start_progress fill finish rounds merge merge_step after_refill push
    push_pending exceeds refill refill_from refill_files after_open after_scan scan open_group_file
    ts_micros checked_micros passes is_inside live maybe_flush turn unsigned
fetch_merges = (refl, refl)

abbrev pub output : PcapWriter
output = record {
  out = stream 1 (packet 10 ∷ packet 20 ∷ packet 30 ∷ packet 40 ∷ []);
  bytes = 96;
  header_written = true;
}

pub fetched : fetch env spool source request ≡ (ok stats, output)
unfolding fetch matcher_of start_progress fill finish rounds merge merge_step after_refill push
    push_pending exceeds refill refill_from refill_files after_open after_scan scan open_group_file
    ts_micros checked_micros passes is_inside live maybe_flush turn unsigned
fetched = refl

fetch-FetchOk_example : FetchOk env (matcher_of env spool request) (fetch env spool source request)
fetch-FetchOk_example = fetch-FetchOk env spool source request

fetch_answers_example : (fetch env spool source request).0 ≢ panic
fetch_answers_example = fetch_answers env spool source request

fetch-AnswerOrdered_example : AnswerOrdered (fetch env spool source request)
unfolding groups_of ts_micros checked_micros unsigned
fetch-AnswerOrdered_example = fetch-AnswerOrdered env spool source request (omega arith)
