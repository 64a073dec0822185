-- ===== src/Agent/Channel.antt =====
-- The agent's end of the control channel (src/agent/channel.rs): the state of a
-- connection, and the jobs that it runs. A message comes decoded, or as `none` where serde refuses
-- its text. What a spawned worker and its supervisor share by a cancellation token is a field of
-- the worker, and a job holds the number of its worker. Each locked section is one step.
pub mod Flags
pub mod Starting
pub mod Jobs
pub mod Settling
pub mod Safety
pub mod Cancelling
pub mod Examples
use evebox.Base.{
  ℕ, ◌+◌, ◌*◌, ◌/◌, min, Bool, true, false, not, ◌||◌, Option, none, some, List, [], ◌∷◌, ◌++◌,
  String, length, ltb, leb, ◌==◌, if◌then◌else◌, lookup, insert, remove, get_elem?, modify, str_eq,
  any, list_eq,
}
use evebox.Agent.Protocol.{
  capability_pcap, ServerMessage, hello, pcap_request, cancel, server_unknown, AgentMessage,
  pcap_result, PcapResult, WirePcapFilter, WireLimits,
}
use evebox.Agent.Reconnect.{
  min_backoff, ConnectionOutcome, disconnected, connect_failed, server_too_old, sleeps, max_backoff,
  unauthorized, next_backoff, retry, jitter,
}

abbrev pub result_channel_capacity : ℕ
result_channel_capacity = 8

abbrev pub max_active_jobs : ℕ
max_active_jobs = 16

pub data ControlState : Type 0 where
  awaiting_hello : ControlState
  ready : (pcap : Bool) → ControlState

unfoldable pub accept : ServerMessage → ControlState → ControlState × Bool
accept (hello version capabilities) awaiting_hello =
    (ready (any (λ value. str_eq value capability_pcap) capabilities), true)
accept (hello version capabilities) (ready pcap) = (ready pcap, false)
accept server_unknown state = (state, true)
accept (pcap_request id token filter start_us end_us limits) awaiting_hello =
    (awaiting_hello, false)
accept (pcap_request id token filter start_us end_us limits) (ready false) = (ready false, false)
accept (pcap_request id token filter start_us end_us limits) (ready true) = (ready true, true)
accept (cancel id token) awaiting_hello = (awaiting_hello, false)
accept (cancel id token) (ready pcap) = (ready pcap, true)

pub record ActiveJob : Type 0 where
  pub token : List ℕ
  pub cancel : ℕ

-- A worker runs, has its terminal result (and has left the map), or has handed it on.
pub data WorkerState : Type 0 where
  working : WorkerState
  settled : PcapResult → WorkerState
  published : PcapResult → WorkerState

pub record Worker : Type 0 where
  pub id : String
  pub token : List ℕ
  pub filter : WirePcapFilter
  pub start_us : ℕ
  pub end_us : ℕ
  pub limits : WireLimits
  pub is_cancelled : Bool
  pub state : WorkerState

-- One connection: `results` is the bounded channel of terminal results, `sent` what has been
-- written to the socket.
pub record Connection : Type 0 where
  pub control : ControlState
  pub jobs : List (String × ActiveJob)
  pub workers : List Worker
  pub is_open : Bool
  pub results : List AgentMessage
  pub sent : List AgentMessage

unfoldable pub new_connection : Connection
new_connection = record {
  control = awaiting_hello;
  jobs = [];
  workers = [];
  is_open = true;
  results = [];
  sent = [];
}

pub data StartJob : Type 0 where
  started duplicate conflict at_capacity : StartJob

spawn :
    String → List ℕ → WirePcapFilter → (start_us end_us : ℕ) → WireLimits → Connection → Connection
spawn id token filter start_us end_us limits c =
    let job : ActiveJob = record { token = token; cancel = length c.workers } in
    let worker : Worker = record {
      id = id;
      token = token;
      filter = filter;
      start_us = start_us;
      end_us = end_us;
      limits = limits;
      is_cancelled = false;
      state = working;
    } in
    record c { jobs = insert id job c.jobs; workers = c.workers ++ worker ∷ [] }

start_new :
    Option ActiveJob
    → String
    → List ℕ
    → WirePcapFilter
    → (start_us end_us : ℕ) → WireLimits
    → Connection
    → Connection × StartJob
unfolding spawn
start_new (some existing) id token filter start_us end_us limits c =
    (c, if list_eq existing.token token then duplicate else conflict)
start_new none id token filter start_us end_us limits c =
    if leb max_active_jobs (length c.jobs)
    then (c, at_capacity)
    else (spawn id token filter start_us end_us limits c, started)

unfoldable pub start_job :
    String
    → List ℕ
    → WirePcapFilter
    → (start_us end_us : ℕ) → WireLimits
    → Connection
    → Connection × StartJob
unfolding start_new
start_job id token filter start_us end_us limits c =
    start_new (lookup id c.jobs) id token filter start_us end_us limits c

-- `CancellationToken::cancel`.
pub set_cancelled : Worker → Worker
set_cancelled w = record w { is_cancelled = true }

pub cancel_found : Option ActiveJob → List ℕ → Connection → Connection
unfolding set_cancelled
cancel_found none token c = c
cancel_found (some job) token c =
    if list_eq job.token token
    then record c { workers = modify job.cancel set_cancelled c.workers }
    else c

unfoldable pub cancel_job : String → List ℕ → Connection → Connection
unfolding cancel_found
cancel_job id token c = cancel_found (lookup id c.jobs) token c

-- Whether the connection goes on.
pub data MessageOutcome : Type 0 where
  continue fatal : MessageOutcome

after_start : StartJob → MessageOutcome
after_start started = continue
after_start duplicate = continue
after_start conflict = fatal
after_start at_capacity = fatal

handle_accepted : ServerMessage → Connection → Connection × MessageOutcome
unfolding after_start
handle_accepted (hello version capabilities) c = (c, continue)
handle_accepted (pcap_request id token filter start_us end_us limits) c =
    let (c', result) = start_job id token filter start_us end_us limits c in
    (c', after_start result)
handle_accepted (cancel id token) c = (cancel_job id token c, continue)
handle_accepted server_unknown c = (c, continue)

unfoldable pub handle_message : Option ServerMessage → Connection → Connection × MessageOutcome
unfolding handle_accepted
handle_message none c = (c, fatal)
handle_message (some message) c =
    let (control, is_accepted) = accept message c.control in
    let c' : Connection = record c { control = control } in
    if is_accepted then handle_accepted message c' else (c', fatal)

pub cancel_all : List (String × ActiveJob) → List Worker → List Worker
unfolding set_cancelled
cancel_all [] workers = workers
cancel_all ((id, job) ∷ jobs) workers = cancel_all jobs (modify job.cancel set_cancelled workers)

-- The end of `run_connection`: every job is cancelled, and the channel of results is dropped.
unfoldable pub close : Connection → Connection
unfolding cancel_all
close c = record c { workers = cancel_all c.jobs c.workers; is_open = false; results = [] }

pub closing : Connection × MessageOutcome → Connection
closing (c, continue) = c
closing (c, fatal) = close c

-- The supervisor of a worker that came to its result: the job leaves the map, if it is still its.
pub remove_own : Option ActiveJob → Worker → Connection → Connection
remove_own none w c = c
remove_own (some job) w c =
    if list_eq job.token w.token then record c { jobs = remove w.id c.jobs } else c

pub settle_worker : WorkerState → ℕ → Worker → PcapResult → Connection → Connection
unfolding remove_own
settle_worker working k w result c =
    remove_own (lookup w.id c.jobs) w
      (record c { workers = modify k (λ x. record x { state = settled result }) c.workers })
settle_worker (settled _) k w result c = c
settle_worker (published _) k w result c = c

pub settle_found : Option Worker → ℕ → PcapResult → Connection → Connection
unfolding settle_worker
settle_found none k result c = c
settle_found (some w) k result c = settle_worker w.state k w result c

unfoldable pub settle : ℕ → PcapResult → Connection → Connection
unfolding settle_found
settle k result c = settle_found (get_elem? c.workers k) k result c

pub publish_worker : WorkerState → ℕ → Worker → Connection → Connection
publish_worker (settled result) k w c =
    let message = pcap_result w.id w.token result in
    let workers = modify k (λ x. record x { state = published result }) c.workers in
    if not c.is_open
    then record c { workers = workers }
    else if ltb (length c.results) result_channel_capacity
    then record c { workers = workers; results = c.results ++ message ∷ [] }
    else c
publish_worker working k w c = c
publish_worker (published _) k w c = c

pub publish_found : Option Worker → ℕ → Connection → Connection
unfolding publish_worker
publish_found none k c = c
publish_found (some w) k c = publish_worker w.state k w c

-- The supervisor sends the result: it waits while the channel is full, and the result is discarded
-- where the connection is gone.
unfoldable pub publish : ℕ → Connection → Connection
unfolding publish_found
publish k c = publish_found (get_elem? c.workers k) k c

-- A result is taken from the channel and written to the socket, which may fail.
pub forward_result : List AgentMessage → Bool → Connection → Connection
forward_result [] is_written c = c
forward_result (message ∷ rest) true c = record c { results = rest; sent = c.sent ++ message ∷ [] }
forward_result (message ∷ rest) false c = close (record c { results = rest })

unfoldable pub forward : Bool → Connection → Connection
unfolding forward_result
forward is_written c = forward_result c.results is_written c

-- What may happen next: a text comes; the socket fails, closes or is idle for too long; a worker
-- settles with its result; its supervisor sends that on; a result is written to the socket.
pub data Event : Type 0 where
  text : Option ServerMessage → Event
  lost : Event
  settles : ℕ → PcapResult → Event
  publishes : ℕ → Event
  forwards : (is_written : Bool) → Event

when_open : Connection → (Connection → Connection) → Connection
when_open c f = if c.is_open then f c else c

unfoldable pub step : Event → Connection → Connection
unfolding when_open closing
step (text message) c = when_open c (λ c. closing (handle_message message c))
step lost c = when_open c close
step (settles k result) c = settle k result c
step (publishes k) c = publish k c
step (forwards is_written) c = when_open c (forward is_written)

unfoldable pub run : List Event → Connection → Connection
run [] c = c
run (event ∷ events) c = run events (step event c)
