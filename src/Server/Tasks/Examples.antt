-- ===== src/Server/Tasks/Examples.antt =====
-- Runs of the registry of src/server/pcap/tasks.rs: an upload from start to end, and a connection
-- that is lost before the upload began.
use evebox.Base.{
  ℕ, ◌≤◌, ◌≡◌, ◌↔◌, inl, inr, refl, sym, ap, subst, some_inj, ◌∙◌, ◌≢◌, true, false, none, some,
  List, [], ◌∷◌, length, lookup, get_elem?, insert, modify, arith,
}
use evebox.Agent.Protocol.{PcapResult, pcap_result, complete, upload_complete, WireStats}
use evebox.Server.Job.{
  pending, completed, Job, AgentConnectionId, new_job, claim_upload, deliver, send_chunk,
  complete_call, sink_call, token_matches, send, complete_sink,
}
use evebox.Server.Job.Invariant.{total, JobInv}
use evebox.Server.Job.Kept.{HasResult, IsBarred}
use evebox.Server.Tasks.{
  empty, Call, register_call, begin_call, sink_step, message_call, disconnected_call, run, step,
  register, register_at, begin_upload, claim_at, claim_job, deliver_result, deliver_at, message,
  disconnected,
}
use evebox.Server.Tasks.Invariant.{HoldsAt}
use evebox.Server.Tasks.Safety.{
  run-JobInv, upload_once, result_once, no_upload_after_disconnect, deliver_result_bound,
  begin_upload_iff, MayUpload,
}

abbrev token : List ℕ
token = 1 ∷ 2 ∷ []

abbrev agent_3 : AgentConnectionId
agent_3 = record { name = "eve"; generation = 3 }

abbrev agent_4 : AgentConnectionId
agent_4 = record { name = "eve"; generation = 4 }

abbrev stats : WireStats
stats = record { packets = 1; bytes = 3; files_scanned = 1; files_vanished = 0; truncated = false }

abbrev done : PcapResult
done = record { code = complete; upload = upload_complete; message = none; stats = some stats }

abbrev registered_job : Job
registered_job = record {
  task = record {
    token = token;
    agent = "eve";
    generation = 3;
    max_bytes = 10;
    body_tx = true;
    result_tx = true;
    uploading = false;
    upload_allowed = true;
  };
  handles = record { body = []; body_rx = true; upload = pending; result = none };
  sinks = [];
}

abbrev uploaded_job : Job
uploaded_job = record {
  task = record {
    token = token;
    agent = "eve";
    generation = 3;
    max_bytes = 10;
    body_tx = false;
    result_tx = false;
    uploading = true;
    upload_allowed = true;
  };
  handles = record {
    body = (7 ∷ 8 ∷ 9 ∷ []) ∷ [];
    body_rx = true;
    upload = completed 3;
    result = some done;
  };
  sinks = record { tx = false; max_bytes = 10; bytes = 3; finished = true } ∷ [];
}

abbrev registration : List Call
registration = register_call "job" token "eve" 3 10 ∷ []

abbrev transfer : List Call
transfer =
    register_call "job" token "eve" 3 10
    ∷ begin_call "job" token
    ∷ sink_step 0 0 (send_chunk (7 ∷ 8 ∷ 9 ∷ []))
    ∷ sink_step 0 0 complete_call
    ∷ message_call agent_3 (pcap_result "job" token done)
    ∷ []

registered_at_0 : get_elem? (run registration empty).heap 0 ≡ some registered_job
unfolding run step register register_at new_job lookup insert
registered_at_0 = refl

transferred_at_0 : get_elem? (run transfer empty).heap 0 ≡ some uploaded_job
unfolding run step register register_at new_job lookup insert modify begin_upload claim_at claim_job
    claim_upload token_matches sink_call send complete_sink message deliver_result deliver_at
    deliver
transferred_at_0 = refl

run-JobInv_example : JobInv uploaded_job
run-JobInv_example = run-JobInv transfer 0 transferred_at_0

upload_once_example :
    (length uploaded_job.sinks ≤ 1)
    × (total uploaded_job.handles.body ≤ 10)
    × ((b : ℕ) → uploaded_job.handles.upload ≡ completed b → b ≡ total uploaded_job.handles.body)
upload_once_example = upload_once transfer 0 transferred_at_0

result_once_example :
    HoldsAt (HasResult done) 0 (run (disconnected_call agent_3 ∷ []) (run transfer empty)).heap
result_once_example = result_once transfer (disconnected_call agent_3 ∷ []) 0 transferred_at_0 refl

named_job : lookup "job" (run registration empty).tasks ≡ some 0
unfolding run step register register_at lookup insert
named_job = refl

no_upload_after_disconnect_example :
    HoldsAt IsBarred 0
      (run (begin_call "job" token ∷ []) (disconnected agent_3 (run registration empty))).heap
no_upload_after_disconnect_example =
    no_upload_after_disconnect (begin_call "job" token ∷ []) (run registration empty) agent_3 "job"
      0 named_job registered_at_0 refl refl refl

-- The job was dispatched on another connection of the agent.
other_connection :
    (a : ℕ) (j : Job)
    → lookup "job" (run registration empty).tasks ≡ some a
    → get_elem? (run registration empty).heap a ≡ some j
    → j.task.generation ≢ agent_4.generation
other_connection a j named at_a same =
    let here : 0 ≡ a = some_inj (sym named_job ∙ named) in
    let this : registered_job ≡ j = some_inj (
      sym registered_at_0
      ∙ subst (λ i. get_elem? (run registration empty).heap i ≡ some j) (sym here) at_a) in
    omega (arith, ap (λ (x : Job). x.task.generation) this, same)

deliver_result_bound_example :
    deliver_result agent_4 "job" token done (run registration empty) ≡ run registration empty
deliver_result_bound_example =
    deliver_result_bound agent_4 "job" token done (run registration empty)
      (λ a j e f. inr (inl (other_connection a j e f)))

begin_upload_iff_example :
    let r = run registration empty in
    ((begin_upload "job" token r).1 ≡ some (0, 0)) ↔ (
      (j : Job) × (lookup "job" r.tasks ≡ some 0)
      × (get_elem? r.heap 0 ≡ some j)
      × (MayUpload token 0 j))
begin_upload_iff_example = begin_upload_iff registration "job" token 0 0
