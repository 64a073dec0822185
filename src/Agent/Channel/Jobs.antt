-- ===== src/Agent/Channel/Jobs.antt =====
-- The messages of the server on a connection of src/agent/channel.rs.
use evebox.Base.{◌≡◌, refl, sym, ◌∙◌, true, false, Option, none, some, lookup, if_lem}
use evebox.Agent.Protocol.{ServerMessage, hello, pcap_request, cancel, server_unknown}
use evebox.Agent.Channel.{
  ControlState, awaiting_hello, ready, accept, Connection, cancel_job, MessageOutcome, continue,
  fatal, handle_message, handle_accepted, closing,
}
use evebox.Agent.Channel.Starting.{
  IsLinked, cancel_found-IsLinked, close-IsLinked, start_job-IsLinked,
}

-- What is accepted before the first hello starts nothing.
accept-IsLinked :
    (m : ServerMessage) (s : ControlState) (c : Connection)
    → c.control ≡ s
    → IsLinked c
    → IsLinked (record c { control = (accept m s).0 })
unfolding accept
accept-IsLinked m s c e h = record {
  distinct = h.distinct;
  few = h.few;
  owned = h.owned;
  listed = h.listed;
  negotiated = λ k w here. keeps m s (sym e ∙ h.negotiated k w here);
  ended = h.ended;
}
  where
    keeps : (m : ServerMessage) (s : ControlState) → s ≡ ready true → (accept m s).0 ≡ ready true
    keeps (hello v cs) awaiting_hello e = cc
    keeps (hello v cs) (ready pcap) e = e
    keeps server_unknown s e = e
    keeps (pcap_request id t f a b l) awaiting_hello e = e
    keeps (pcap_request id t f a b l) (ready false) e = e
    keeps (pcap_request id t f a b l) (ready true) e = e
    keeps (cancel id t) awaiting_hello e = e
    keeps (cancel id t) (ready pcap) e = e

handle_accepted-IsLinked :
    (m : ServerMessage) (s : ControlState) (c : Connection)
    → c.is_open ≡ true
    → c.control ≡ (accept m s).0
    → (accept m s).1 ≡ true
    → IsLinked c
    → IsLinked (handle_accepted m c).0
unfolding handle_accepted accept cancel_job
handle_accepted-IsLinked (hello v cs) s c live control ok h = h
handle_accepted-IsLinked server_unknown s c live control ok h = h
handle_accepted-IsLinked (pcap_request id t f a b l) awaiting_hello c live control ok h = cc
handle_accepted-IsLinked (pcap_request id t f a b l) (ready false) c live control ok h = cc
handle_accepted-IsLinked (pcap_request id t f a b l) (ready true) c live control ok h =
    start_job-IsLinked id t f a b l c live control h
handle_accepted-IsLinked (cancel id t) s c live control ok h =
    cancel_found-IsLinked (lookup id c.jobs) t c live h

pub handle_message-IsLinked :
    (o : Option ServerMessage) (c : Connection)
    → c.is_open ≡ true
    → IsLinked c
    → IsLinked (handle_message o c).0
unfolding handle_message
handle_message-IsLinked none c live h = h
handle_message-IsLinked (some m) c live h =
    let c' : Connection = record c { control = (accept m c.control).0 } in
    let h' = accept-IsLinked m c.control c refl h in
    if_lem (λ (r : Connection × MessageOutcome). IsLinked r.0) (accept m c.control).1 _ _
      (λ ok. handle_accepted-IsLinked m c.control c' live refl ok h') (λ _. h')

pub closing-IsLinked : (r : Connection × MessageOutcome) → IsLinked r.0 → IsLinked (closing r)
unfolding closing
closing-IsLinked (c, continue) h = h
closing-IsLinked (c, fatal) h = close-IsLinked c h
