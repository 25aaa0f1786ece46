-- ===== src/Sessions.antt =====
-- `IdleTimeoutMiddleware` of framework/security/idle_timeout.py. Times are in one unit; a test of a
-- text's start or of a part is a parameter.
mod Idle
mod Examples
use django_project_test.Base.{
  ◌-◌, ◌&&◌, ltb, some, ◌||◌, none, Option, if◌then◌else◌, List, false, Bool, ℕ, String, [], ◌∷◌,
}

pub record Texts : Type 0 where
  pub starts_with : String → String → Bool
  pub has_part : String → String → Bool

-- What `float` makes of the stored value.
pub data Stamp : Type 0 where
  time : ℕ → Stamp
  unreadable : Stamp

-- The part of a session that counts here: whether its user is logged in, and `last_activity`.
pub record Session : Type 0 where
  pub is_authenticated : Bool
  pub last_activity : Option Stamp

-- `session.flush()`, which also logs the user out
abbrev pub flushed : Session
flushed = record { is_authenticated = false; last_activity = none }

pub record IdleTimeoutMiddleware : Type 0 where
  pub timeout : ℕ
  pub exempt_prefixes : List String
  pub redirect_url : String

-- A request with the two readings of the clock.
pub record Request : Type 0 where
  pub path : String
  pub accept : String
  pub now : ℕ
  pub later : ℕ

pub data Reply (R : Type 0) : Type 0 where
  unauthorized : Reply R
  redirect : (url : String) → Reply R
  viewed : R → Reply R

module _ (texts : Texts) where
  unfoldable pub is_exempt : List String → String → Bool
  is_exempt [] path = false
  is_exempt (p ∷ ps) path = texts.starts_with path p || is_exempt ps path

  unfoldable pub is_api_request : Request → Bool
  is_api_request request =
      texts.starts_with request.path "/api/" || texts.has_part request.accept "application/json"

-- `idle > timeout`, where the clock may have been set back
unfoldable pub is_idle : ℕ → ℕ → Option Stamp → Bool
is_idle timeout now none = false
is_idle timeout now (some unreadable) = false
is_idle timeout now (some (time last)) = ltb 0 timeout && ltb timeout (now - last)

module _ {R : Type 0} (texts : Texts) (mw : IdleTimeoutMiddleware) where
  abbrev pub served : R × Session → Reply R × Session
  served p = (viewed p.0, p.1)

  unfoldable pub refuse : Request → Reply R
  refuse request = if is_api_request texts request then unauthorized else redirect mw.redirect_url

  -- `__call__`; the view answers and may change the session.
  unfoldable pub call : Request → (Session → R × Session) → Session → Reply R × Session
  unfolding refuse
  call request view session =
      if is_exempt texts mw.exempt_prefixes request.path
      then served (view session)
      else if session.is_authenticated
      then if is_idle mw.timeout request.now session.last_activity
        then (refuse request, flushed)
        else served (view (record session { last_activity = some (time request.later) }))
      else served (view session)
