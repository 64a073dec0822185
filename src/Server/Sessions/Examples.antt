-- ===== src/Server/Sessions/Examples.antt =====
-- A session that is replaced, found and deleted.
use evebox.Base.{◌≡◌, refl, true, false, none, some, List, [], ◌∷◌, lookup, insert, remove}
use evebox.Server.Sessions.{
  Session, Call, call_put, call_get, call_delete, was_put, was_deleted, got, step, answers, put,
  put_at, get, delete, is_some, is_none,
}
use evebox.Server.Sessions.Log.{log_answers, store_is_log}

abbrev first : Session
first = record { session_id = some "s"; username = some "alice" }

abbrev second : Session
second = record { session_id = some "s"; username = some "bob" }

abbrev calls : List Call
calls =
    call_put first
    ∷ call_put second
    ∷ call_get "s"
    ∷ call_delete "s"
    ∷ call_get "s"
    ∷ call_put (record first { session_id = none })
    ∷ []

replaced :
    answers calls []
    ≡ was_put true
      ∷ was_put false
      ∷ got (some second)
      ∷ was_deleted true
      ∷ got none
      ∷ was_put true
      ∷ []
unfolding answers step put put_at get delete is_some is_none lookup insert remove
replaced = refl

store_is_log_example : answers calls [] ≡ log_answers calls []
store_is_log_example = store_is_log calls
