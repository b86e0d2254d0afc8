-- ===== src/AuthToken.antt =====
-- `_AuthTokenManager` of modal/_utils/auth_token_manager.py. The clock is read at each step; a token's
-- payload, which the server signs, is decoded by a parameter.
pub mod Tasks
pub mod Exclusion
pub mod Freshness
mod Examples
use text.Mathlib.Text.{◌==◌}
use modal_client.Prelude.{
  String, Bool, true, false, not, ◌&&◌, ◌||◌, Option, none, some, Result, ok, err, if◌then◌else◌,
}
use modal_client.Float.{Floats}

pub data TokenError : Type 0 where
  rpc_error no_token cannot_parse : TokenError

module _ (f : Floats) (decode_jwt : String → Option (Option f.R)) where
  open f use {R, of_nat, add, sub, lt}

  pub record AuthTokenManager : Type 0 where
    pub token : String
    pub expiry : R
    pub locked : Bool

  abbrev pub refresh_window : R
  refresh_window = of_nat 300

  abbrev pub default_expiry_offset : R
  default_expiry_offset = of_nat 1200

  abbrev pub new_manager : AuthTokenManager
  new_manager = record { token = ""; expiry = of_nat 0; locked = false }

  abbrev pub needs_refresh : R → AuthTokenManager → Bool
  needs_refresh now m = not (lt now (sub m.expiry refresh_window))

  abbrev pub is_expired : R → AuthTokenManager → Bool
  is_expired now m = not (lt now m.expiry)

  abbrev pub has_token : AuthTokenManager → Bool
  has_token m = not (m.token == "")

  -- where a task is in `get_token`: it waits for the lock, or for the server, or it has ended
  pub data Phase : Type 0 where
    idle waiting fetching : Phase
    returned : String → Phase
    failed : TokenError → Phase

  -- `get_token` up to its first `await`, `async with lock` included
  unfoldable pub get_token : R → AuthTokenManager → Phase
  get_token now m =
      if not (has_token m) || is_expired now m
      then waiting
      else if needs_refresh now m
      then (if m.locked then returned m.token else waiting)
      else returned m.token

  -- from where `_refresh_token` gets the lock
  unfoldable pub enter : R → AuthTokenManager → Phase × AuthTokenManager
  enter now m =
      if has_token m && not (needs_refresh now m)
      then (returned m.token, m)
      else (fetching, record m { locked = true })

  -- the new expiry; an `exp` that is missing or zero is `none`
  abbrev pub expiry_of : R → Option R → R
  expiry_of now none = add now default_expiry_offset
  expiry_of now (some exp) = exp

  abbrev store : R → String → Option (Option R) → AuthTokenManager → Phase × AuthTokenManager
  store now token none m = (failed cannot_parse, record m { token = token })
  store now token (some exp) m =
      (returned token, record m { token = token; expiry = expiry_of now exp })

  -- from where the server answers with a token; the lock is given back in any case
  unfoldable pub receive :
      R → Result TokenError String → AuthTokenManager → Phase × AuthTokenManager
  receive now (err e) m = (failed e, record m { locked = false })
  receive now (ok token) m =
      if token == ""
      then (failed no_token, record m { locked = false })
      else store now token (decode_jwt token) (record m { locked = false })
