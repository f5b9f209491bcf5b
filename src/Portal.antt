-- ===== src/Portal.antt =====
-- apps/portal/src/lib/backend.ts: the calls of the portal's server to the API, and the token of
-- development that it keeps. The answers of `fetch` come from outside; of a call there are the
-- headers that the API's guard reads.
pub mod Admitted
use bf_techops.Prelude.{
  ℕ, ◌+◌, Bool, true, false, Option, none, some, List, [], ◌∷◌, ◌++◌, ltb, if◌then◌else◌,
}
use bf_techops.Js.{Text, codes, text_eq}
use bf_techops.Failure.{Failure, Result, ok, err, error}
use bf_techops.Config.{ProcessEnv, or_default, filled}
use bf_techops.Wire.{Time}

pub record CachedToken : Type 0 where
  pub value : Text
  pub expires_at : Time

-- The module's state: `localToken`, and how often the token was requested.
pub record PortalState : Type 0 where
  pub local_token : Option CachedToken
  pub requests : ℕ

-- The headers of a call.
pub record BackendCall : Type 0 where
  pub authorization : Text
  pub platform_api_key : Text

-- What `POST /v1/auth/dev-token` answers; nothing where the answer is not ok.
abbrev pub TokenRequest : Type 0
TokenRequest = Text → Option CachedToken

abbrev pub after_request : PortalState → Option CachedToken → Result Text × PortalState
after_request s none = (err (error "Development actor token request failed"), s)
after_request s (some token) =
    (ok token.value, record { local_token = some token; requests = s.requests + 1 })

-- A cached token that is good for another minute.
abbrev pub usable : Time → Option CachedToken → Option CachedToken
usable now none = none
usable now (some token) = if ltb (now + 60_000) token.expires_at then some token else none

abbrev pub use_or_request :
    TokenRequest → Text → PortalState → Option CachedToken → Result Text × PortalState
use_or_request request api_key s none = after_request s (request api_key)
use_or_request request api_key s (some token) = (ok token.value, s)

abbrev pub supplied_or :
    Option Text → PortalState → Result Text × PortalState → Result Text × PortalState
supplied_or none s other = other
supplied_or (some token) s other = (ok token, s)

module _ (vars : ProcessEnv) (request : TokenRequest) (now : Time) where
  -- `actorToken`
  unfoldable pub actor_token : Text → Option Text → PortalState → Result Text × PortalState
  actor_token api_key supplied s = supplied_or (filled supplied) s (
      if text_eq (or_default [] (vars "NODE_ENV")) (codes "production")
      then (err (error "Actor session must be supplied by the production identity proxy"), s)
      else use_or_request request api_key s (usable now s.local_token))

  -- The headers of a call that carry the actor and the key. `init.headers`, which come after them in
  -- the source, are left out: the portal's callers give only an idempotency key there.
  abbrev pub call_with : Text → Result Text × PortalState → Result BackendCall × PortalState
  call_with api_key (err e, s) = (err e, s)
  call_with api_key (ok token, s) =
      (ok record { authorization = codes "Bearer " ++ token; platform_api_key = api_key }, s)

  abbrev pub with_key : Option Text → PortalState → Option Text → Result BackendCall × PortalState
  with_key supplied s none = (err (error "PLATFORM_API_KEY is required by the portal server"), s)
  with_key supplied s (some api_key) = call_with api_key (actor_token api_key supplied s)

  -- `backendFetch`, up to the call.
  unfoldable pub backend_fetch : Option Text → PortalState → Result BackendCall × PortalState
  backend_fetch supplied s = with_key supplied s (filled (vars "PLATFORM_API_KEY"))
