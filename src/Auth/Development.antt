-- ===== src/Auth/Development.antt =====
-- The tokens of development at the guard.
use bf_techops.Prelude.{
  ◌+◌, ◌*◌, ◌<◌, ◌≡◌, refl, ap, subst, true, false, some, [], ◌++◌, ==_refl, every,
}
use bf_techops.Js.{Text, codes, text_eq}
use bf_techops.Failure
use bf_techops.Failure.{
  Failure, Result, ok, err, reject_if, or_throw, ◌>>=◌, ◌>>◌, on_bind, on_reject, ok-injective,
}
use bf_techops.Config.{ApiConfig, or_default}
use bf_techops.Persistence.Database.{Env}
use bf_techops.Domain.Webhook.{constant_time_equal}
use bf_techops.Domain.ActorToken.{RawPayload, json_object, verify_actor_token}
use bf_techops.Domain.ActorToken.RoundTrip.{IsPart, verify-create}
use bf_techops.Auth.{
  one, header, HandlerMarks, GuardEnv, after_prefix, includes, now_seconds, verify_actor,
  roles_or_none, activate_actor, activate_known, can_activate, DevToken, operator, dev_token,
}

equal_itself : (env : Env) (s : Text) → constant_time_equal env s s ≡ true
unfolding constant_time_equal
equal_itself env s = ==_refl (env.sha256 s)

module _ (env : GuardEnv) (config : ApiConfig) (base : Env) where
  -- The guard at a later time.
  abbrev pub later : GuardEnv
  later = record env { base = base }

  -- The operator's payload, issued now.
  abbrev pub issued_payload : RawPayload
  issued_payload = operator env config (now_seconds env config + 8 * 60 * 60)

  activates :
      (marks : HandlerMarks) (token : Text)
      → marks.is_public ≡ false
      → marks.platform_only ≡ false
      → every (includes issued_payload.roles) (roles_or_none env config marks.required_roles) ≡ true
      → text_eq config.node_env (codes "production") ≡ false
      → verify_actor_token env.codec token
          (or_default [] config.actor_token_secret)
          (now_seconds later config)
        ≡ ok issued_payload
      → can_activate later config marks
          (one config.platform_api_key)
          (one (codes "Bearer " ++ token))
        ≡ ok (some issued_payload)
  unfolding can_activate activate_known activate_actor verify_actor header after_prefix or_throw
      reject_if Failure.◌>>=◌
  activates marks token private actors allowed development verified = rw private (
      rw (equal_itself base config.platform_api_key)
        (rw actors (rw development (rw verified (rw allowed refl)))))

  abbrev pub issued_body : Text
  issued_body = env.codec.encode (env.codec.stringify issued_payload)

  -- For less than 8 hours, the token that POST /v1/auth/dev-token returns, with the platform's key,
  -- opens every handler for actors whose required roles the operator has, where JSON and base64url
  -- give back what they were given, and base64url texts are not empty and have no dot; the actor of
  -- the request is the operator.
  pub dev_token_activates :
      (marks : HandlerMarks) (issued : DevToken env config)
      → env.codec.parse (env.codec.stringify issued_payload) ≡ some (json_object issued_payload)
      → env.codec.decode issued_body ≡ env.codec.stringify issued_payload
      → IsPart issued_body
      → IsPart (env.codec.sign (or_default [] config.actor_token_secret) issued_body)
      → dev_token env config ≡ ok issued
      → now_seconds later config < now_seconds env config + 8 * 60 * 60
      → marks.is_public ≡ false
      → marks.platform_only ≡ false
      → every (includes issued_payload.roles) (roles_or_none env config marks.required_roles) ≡ true
      → can_activate later config marks
          (one config.platform_api_key)
          (one (codes "Bearer " ++ issued.token))
        ≡ ok (some issued_payload)
  unfolding dev_token
  dev_token_activates marks issued parses decodes first second h within private actors allowed =
      on_reject _ _ _ h λ development h. on_bind _ _ h λ token created h.
        let same : token ≡ issued.token =
          ap (λ (t : DevToken env config). t.token) (ok-injective h) in
        activates marks issued.token private actors allowed development (
          subst
            (λ (t : Text).
              verify_actor_token env.codec t (or_default [] config.actor_token_secret)
                (now_seconds later config)
              ≡ ok issued_payload)
            same
            (verify-create env.codec issued_payload (or_default [] config.actor_token_secret) token
              (now_seconds later config) (now_seconds env config + 8 * 60 * 60) parses decodes first
              second refl within created))
