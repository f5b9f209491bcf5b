-- ===== src/Portal/Admitted.antt =====
-- The portal's calls at the API's guard.
use bf_techops.Prelude.{
  ℕ, ◌+◌, ◌*◌, ◌/◌, ◌<◌, ◌≡◌, refl, sym, ap, true, false, none, some, [], ◌++◌, ltb, every, arith,
}
use bf_techops.Js.{Text, codes, text_eq}
use bf_techops.Failure.{ok, on_bind, on_reject, ok-injective}
use bf_techops.Config.{ApiConfig, ProcessEnv, or_default, filled}
use bf_techops.Persistence.Database.{Env}
use bf_techops.Domain.ActorToken.{json_object}
use bf_techops.Domain.ActorToken.RoundTrip.{IsPart}
use bf_techops.Auth.{
  one, HandlerMarks, GuardEnv, includes, now_seconds, roles_or_none, can_activate, DevToken,
  dev_token,
}
use bf_techops.Auth.Development.{later, issued_payload, issued_body, dev_token_activates}
use bf_techops.Portal.{PortalState, BackendCall, TokenRequest, actor_token, backend_fetch}

module _ (env : GuardEnv) (config : ApiConfig) (base : Env) where
  expiry_lem :
      (issued : DevToken env config)
      → dev_token env config ≡ ok issued
      → issued.expires_at ≡ (now_seconds env config + 8 * 60 * 60) * 1000
  unfolding dev_token
  expiry_lem issued h = on_reject _ _ _ h λ _ h.
      on_bind _ _ h λ _ _ h. sym (ap (λ (t : DevToken env config). t.expires_at) (ok-injective h))

  in_time :
      (now start expires : ℕ)
      → expires ≡ (start + 8 * 60 * 60) * 1000
      → now + 60_000 < expires
      → now / 1000 < start + 8 * 60 * 60
  in_time now start expires e h = omega (arith, e, h)

  -- The state of a portal that has kept a token of development.
  abbrev pub kept : DevToken env config → ℕ → PortalState
  kept issued requests = record {
    local_token = some record { value = issued.token; expires_at = issued.expires_at };
    requests = requests;
  }

  abbrev pub call_of : Text → DevToken env config → BackendCall
  call_of api_key issued = record {
    authorization = codes "Bearer " ++ issued.token;
    platform_api_key = api_key;
  }

  kept_used :
      (vars : ProcessEnv) (request : TokenRequest) (issued : DevToken env config) (requests : ℕ)
      (api_key : Text)
      → filled (vars "PLATFORM_API_KEY") ≡ some api_key
      → text_eq (or_default [] (vars "NODE_ENV")) (codes "production") ≡ false
      → ltb (base.now + 60_000) issued.expires_at ≡ true
      → backend_fetch vars request base.now none (kept issued requests)
        ≡ (ok (call_of api_key issued), kept issued requests)
  unfolding backend_fetch actor_token
  kept_used vars request issued requests api_key keyed development fresh =
      rw keyed (rw development (rw fresh refl))

  -- While a token of development that the portal keeps has more than a minute left, and the portal has
  -- the platform's key and no session of its own, backendFetch asks for no other token, and its call
  -- passes the API's guard at every handler for actors whose required roles the operator has, as the
  -- operator, where JSON and base64url give back what they were given, and base64url texts are not
  -- empty and have no dot.
  pub backend_fetch-admitted :
      (vars : ProcessEnv) (request : TokenRequest) (issued : DevToken env config) (requests : ℕ)
      (marks : HandlerMarks)
      → env.codec.parse (env.codec.stringify (issued_payload env config base))
        ≡ some (json_object (issued_payload env config base))
      → env.codec.decode (issued_body env config base)
        ≡ env.codec.stringify (issued_payload env config base)
      → IsPart (issued_body env config base)
      → IsPart
          (env.codec.sign (or_default [] config.actor_token_secret) (issued_body env config base))
      → dev_token env config ≡ ok issued
      → filled (vars "PLATFORM_API_KEY") ≡ some config.platform_api_key
      → text_eq (or_default [] (vars "NODE_ENV")) (codes "production") ≡ false
      → base.now + 60_000 < issued.expires_at
      → marks.is_public ≡ false
      → marks.platform_only ≡ false
      → every
          (includes (issued_payload env config base).roles)
          (roles_or_none env config marks.required_roles)
        ≡ true
      → (backend_fetch vars request base.now none (kept issued requests)
          ≡ (ok (call_of config.platform_api_key issued), kept issued requests))
        × (can_activate
              (later env config base)
              config
              marks
              (one (call_of config.platform_api_key issued).platform_api_key)
              (one (call_of config.platform_api_key issued).authorization)
            ≡ ok (some (issued_payload env config base)))
  backend_fetch-admitted vars request issued requests marks parses decodes first second h keyed
        development fresh private actors allowed =
      (
        kept_used vars request issued requests config.platform_api_key keyed development
            (ground arith),
        dev_token_activates env config base marks issued parses decodes first second h
            (in_time base.now (now_seconds env config) issued.expires_at (expiry_lem issued h)
              fresh)
            private actors allowed,
      )
