-- ===== src/Server/Sessions.antt =====
-- The session store of src/server/session.rs. A session is never changed once it is shared, so that
-- the map holds the sessions themselves. Each call locks the map for its whole length.
pub mod Log
pub mod Examples
use evebox.Base.{
  Bool, true, false, Option, none, some, List, [], ◌∷◌, String, lookup, insert, remove,
}

pub record Session : Type 0 where
  pub session_id : Option String
  pub username : Option String

abbrev pub SessionStore : Type 0
SessionStore = List (String × Session)

unfoldable pub is_some : {A : Type 0} → Option A → Bool
is_some none = false
is_some (some x) = true

unfoldable pub is_none : {A : Type 0} → Option A → Bool
is_none none = true
is_none (some x) = false

-- The store afterwards, and whether the call succeeds: it fails where another session had the id.
unfoldable pub put_at : Option String → Session → SessionStore → SessionStore × Bool
unfolding is_none
put_at none session cache = (cache, true)
put_at (some session_id) session cache =
    (insert session_id session cache, is_none (lookup session_id cache))

unfoldable pub put : Session → SessionStore → SessionStore × Bool
unfolding put_at
put session cache = put_at session.session_id session cache

unfoldable pub get : String → SessionStore → Option Session
get session_id cache = lookup session_id cache

-- Whether there was a session with the id.
unfoldable pub delete : String → SessionStore → SessionStore × Bool
unfolding is_some
delete session_id cache = (remove session_id cache, is_some (lookup session_id cache))

pub data Call : Type 0 where
  call_put : Session → Call
  call_get call_delete : String → Call

pub data Answer : Type 0 where
  was_put was_deleted : Bool → Answer
  got : Option Session → Answer

unfoldable pub step : Call → SessionStore → SessionStore × Answer
unfolding put get delete
step (call_put session) cache = let (cache', ok) = put session cache in (cache', was_put ok)
step (call_get session_id) cache = (cache, got (get session_id cache))
step (call_delete session_id) cache =
    let (cache', found) = delete session_id cache in (cache', was_deleted found)

-- What the calls answer, in the order in which they get the lock.
unfoldable pub answers : List Call → SessionStore → List Answer
unfolding step
answers [] cache = []
answers (call ∷ calls) cache =
    let (cache', answer) = step call cache in answer ∷ answers calls cache'
