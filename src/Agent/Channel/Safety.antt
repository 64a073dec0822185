-- ===== src/Agent/Channel/Safety.antt =====
-- What holds of a connection of src/agent/channel.rs through any events.
use evebox.Base.{ℕ, ◌≡◌, sym, ap, ◌∙◌, some, some_inj, List, [], ◌∷◌, lookup, get_elem?, if_lem}
use evebox.Agent.Channel.{
  ActiveJob, working, Worker, Connection, new_connection, handle_message, Event, text, lost,
  settles, publishes, forwards, when_open, step, run,
}
use evebox.Agent.Channel.Starting.{IsLinked, new_connection-IsLinked, close-IsLinked}
use evebox.Agent.Channel.Jobs.{handle_message-IsLinked, closing-IsLinked}
use evebox.Agent.Channel.Settling.{settle-IsLinked, publish-IsLinked, forward-IsLinked}

step-IsLinked : (event : Event) (c : Connection) → IsLinked c → IsLinked (step event c)
unfolding step when_open
step-IsLinked (text message) c h =
    if_lem IsLinked c.is_open _ _
      (λ live.
        closing-IsLinked (handle_message message c) (handle_message-IsLinked message c live h))
      (λ _. h)
step-IsLinked lost c h = if_lem IsLinked c.is_open _ _ (λ _. close-IsLinked c h) (λ _. h)
step-IsLinked (settles k result) c h = settle-IsLinked k result c h
step-IsLinked (publishes k) c h = publish-IsLinked k c h
step-IsLinked (forwards is_written) c h =
    if_lem IsLinked c.is_open _ _ (λ _. forward-IsLinked is_written c h) (λ _. h)

keeps-IsLinked : (events : List Event) (c : Connection) → IsLinked c → IsLinked (run events c)
unfolding run
keeps-IsLinked [] c h = h
keeps-IsLinked (event ∷ events) c h = keeps-IsLinked events (step event c) (step-IsLinked event c h)

-- Through any events of a connection its jobs have different identifiers and are 16 at most; the
-- jobs and the workers that still run belong to one another by identifier and token; a worker was
-- started only after a hello that advertised the capability; and once the connection is gone every
-- worker that still runs has been cancelled.
pub run-IsLinked : (events : List Event) → IsLinked (run events new_connection)
run-IsLinked events = keeps-IsLinked events new_connection new_connection-IsLinked

-- At any time at most one worker runs for an identifier.
pub one_worker :
    (events : List Event) (i k : ℕ) (v w : Worker)
    → get_elem? (run events new_connection).workers i ≡ some v
    → get_elem? (run events new_connection).workers k ≡ some w
    → v.state ≡ working
    → w.state ≡ working
    → v.id ≡ w.id
    → i ≡ k
one_worker events i k v w here there run_v run_w same =
    let h = run-IsLinked events in
    ap (λ (x : ActiveJob). x.cancel)
      (some_inj (
        sym (h.listed i v here run_v)
        ∙ ap (λ id. lookup id (run events new_connection).jobs) same
        ∙ h.listed k w there run_w))
