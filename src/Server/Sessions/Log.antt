-- ===== src/Server/Sessions/Log.antt =====
-- The session store of src/server/session.rs against a log that is only ever added to.
use evebox.Base.{
  ◌≡◌, refl, ap, ◌∙◌, true, Option, none, some, List, [], ◌∷◌, String, str_eq, lookup, insert,
  remove, lookup-insert, lookup-remove, HasDistinctKeys, insert-HasDistinctKeys,
  remove-HasDistinctKeys, if◌then◌else◌,
}
use evebox.Server.Sessions.{
  Session, SessionStore, is_some, is_none, put_at, put, get, delete, Call, call_put, call_get,
  call_delete, Answer, was_put, was_deleted, got, step, answers,
}

-- What became of the ids, the latest first.
abbrev pub Log : Type 0
Log = List (String × Option Session)

abbrev pub latest : String → Log → Option Session
latest session_id [] = none
latest session_id ((name, session) ∷ log) =
    if str_eq name session_id then session else latest session_id log

-- The call's answer is read off the log, and the log only grows.
abbrev log_put : Option String → Session → Log → Log × Answer
log_put none session log = (log, was_put true)
log_put (some session_id) session log =
    ((session_id, some session) ∷ log, was_put (is_none (latest session_id log)))

abbrev log_step : Call → Log → Log × Answer
log_step (call_put session) log = log_put session.session_id session log
log_step (call_get session_id) log = (log, got (latest session_id log))
log_step (call_delete session_id) log =
    ((session_id, none) ∷ log, was_deleted (is_some (latest session_id log)))

abbrev pub log_answers : List Call → Log → List Answer
log_answers [] log = []
log_answers (call ∷ calls) log =
    let (log', answer) = log_step call log in answer ∷ log_answers calls log'

-- The store has of each id what the log says last.
pub record Agrees (cache : SessionStore) (log : Log) : Type 0 where
  pub distinct : HasDistinctKeys cache
  pub same : (session_id : String) → lookup session_id cache ≡ latest session_id log

insert-Agrees :
    (key : String) (session : Session) (cache : SessionStore) (log : Log)
    → Agrees cache log
    → Agrees (insert key session cache) ((key, some session) ∷ log)
insert-Agrees key session cache log h = record {
  distinct = insert-HasDistinctKeys key session cache h.distinct;
  same = λ asked.
      lookup-insert key asked session cache
      ∙ ap (λ rest. if str_eq key asked then some session else rest) (h.same asked);
}

remove-Agrees :
    (key : String) (cache : SessionStore) (log : Log)
    → Agrees cache log
    → Agrees (remove key cache) ((key, none) ∷ log)
remove-Agrees key cache log h = record {
  distinct = remove-HasDistinctKeys key cache h.distinct;
  same = λ asked.
      lookup-remove key asked cache h.distinct
      ∙ ap (λ rest. if str_eq key asked then none else rest) (h.same asked);
}

abbrev AgreesStep : SessionStore × Answer → Log × Answer → Type 0
AgreesStep (cache, answer) (log, logged) = (Agrees cache log) × (answer ≡ logged)

put-Agrees :
    (id : Option String) (session : Session) (cache : SessionStore) (log : Log)
    → Agrees cache log
    → AgreesStep
        ((put_at id session cache).0, was_put (put_at id session cache).1)
        (log_put id session log)
unfolding put_at
put-Agrees none session cache log h = (h, refl)
put-Agrees (some key) session cache log h =
    (insert-Agrees key session cache log h, ap (λ s. was_put (is_none s)) (h.same key))

step-Agrees :
    (call : Call) (cache : SessionStore) (log : Log)
    → Agrees cache log
    → AgreesStep (step call cache) (log_step call log)
unfolding step put get delete
step-Agrees (call_put session) cache log h = put-Agrees session.session_id session cache log h
step-Agrees (call_get key) cache log h = (h, ap got (h.same key))
step-Agrees (call_delete key) cache log h =
    (remove-Agrees key cache log h, ap (λ s. was_deleted (is_some s)) (h.same key))

answers-log :
    (calls : List Call) (cache : SessionStore) (log : Log)
    → Agrees cache log
    → answers calls cache ≡ log_answers calls log
unfolding answers
answers-log [] cache log h = refl
answers-log (call ∷ calls) cache log h =
    let (h', e) = step-Agrees call cache log h in
    let (cache', answer) = step call cache in
    let (log', logged) = log_step call log in
    ap (λ a. a ∷ answers calls cache') e
    ∙ ap (λ rest. logged ∷ rest) (answers-log calls cache' log' h')

-- The session store answers every sequence of calls as a log of all puts and deletions would: a
-- session is found from the last put of its id, also where that put failed for a duplicate, until
-- the id is deleted; a put fails, and a deletion finds something, exactly where there is a session
-- with the id; a session without an id is never stored, and its put succeeds.
pub store_is_log : (calls : List Call) → answers calls [] ≡ log_answers calls []
unfolding lookup
store_is_log calls = answers-log calls [] [] (record { distinct = tt; same = λ session_id. refl })
