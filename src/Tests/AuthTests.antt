-- ===== src/Tests/AuthTests.antt =====
-- Tokens of actors, and the guard.
use bf_techops.Prelude.{if◌then◌else◌, ◌≡◌, refl, true, false, none, some, [], ◌∷◌, arith}
use bf_techops.Js.{Text, nat, codes, text_eq}
use bf_techops.Failure
use bf_techops.Failure.{Result, ok, err, reject_if, or_throw}
use bf_techops.Config.{ApiConfig, ProcessEnv}
use bf_techops.Domain.Webhook.{validate_token_secret, constant_time_equal}
use bf_techops.Domain.ActorToken.{
  text, RawPayload, json_object, TokenCodec, is_uuid, matches_all, is_role, roles_valid, exp_valid,
  expired, subject_valid, validate_fields, validate_actor_payload, split_dots, token_parts,
  create_actor_token, verify_actor_token,
}
use bf_techops.Domain.ActorToken.Laws.{IsCurrent, IsSignedToken, verify_actor_token-IsSignedToken}
use bf_techops.Domain.ActorToken.RoundTrip.{verify-create}
use bf_techops.Auth.{
  one, header, HandlerMarks, GuardEnv, after_prefix, verify_actor, activate_actor, activate_known,
  can_activate, DevToken, dev_token,
}
use bf_techops.Auth.Laws.{IsKnown, can_activate-IsKnown}
use bf_techops.Auth.Development.{dev_token_activates}
use bf_techops.Portal.{TokenRequest, backend_fetch}
use bf_techops.Portal.Admitted.{kept, call_of, backend_fetch-admitted}
use bf_techops.Tests.Fixtures.{env, config, secret}

abbrev payload : RawPayload
payload = record {
  actor_merchant_id = some (codes "00000000-0000-4000-8000-000000000001");
  roles = some (
      text (codes "merchant:read")
      ∷ text (codes "invoice:read")
      ∷ text (codes "invoice:write")
      ∷ text (codes "payment:read")
      ∷ text (codes "audit:read")
      ∷ text (codes "ops:read")
      ∷ []);
  exp = nat 10_028_800;
  subject = text (codes "local-operator");
}

-- One payload, under one signature.
abbrev codec : TokenCodec
codec = record {
  stringify = λ p. codes "payload";
  parse = λ s. some (json_object payload);
  encode = λ s. s;
  decode = λ s. s;
  sign = λ key s. codes "signature";
}

abbrev token : Text
token = codes "payload.signature"

abbrev guard_env : GuardEnv
guard_env = record { base = env; codec = codec; jwt_verify = λ url issuer audience jwt. none }

abbrev dev_config : ApiConfig
dev_config = record config { actor_token_secret = some secret }

abbrev invoice_marks : HandlerMarks
invoice_marks = record {
  is_public = false;
  platform_only = false;
  required_roles = some (codes "invoice:write" ∷ []);
}

verified : verify_actor_token codec token secret 10_000_000 ≡ ok payload
unfolding verify_actor_token validate_token_secret split_dots token_parts text_eq
    validate_actor_payload validate_fields is_uuid matches_all roles_valid is_role exp_valid expired
    subject_valid reject_if or_throw Failure.◌>>=◌
verified = refl

verify_actor_token-IsSignedToken_example :
    IsSignedToken codec token secret payload × IsCurrent payload 10_000_000
verify_actor_token-IsSignedToken_example =
    verify_actor_token-IsSignedToken codec token secret 10_000_000 payload verified

created : create_actor_token codec payload secret ≡ ok token
unfolding create_actor_token validate_token_secret validate_actor_payload validate_fields is_uuid
    matches_all roles_valid is_role exp_valid expired subject_valid reject_if or_throw Failure.◌>>=◌
created = refl

verify-create_example : verify_actor_token codec token secret 10_000_000 ≡ ok payload
verify-create_example =
    verify-create codec payload secret token 10_000_000 10_028_800 refl refl (refl, refl)
      (refl, refl) refl (omega arith) created

activated :
    can_activate guard_env dev_config invoice_marks
      (one (codes "platform-api-key"))
      (one (codes "Bearer payload.signature"))
    ≡ ok (some payload)
unfolding can_activate activate_known activate_actor verify_actor header after_prefix
    constant_time_equal verify_actor_token validate_token_secret split_dots token_parts text_eq
    validate_actor_payload validate_fields is_uuid matches_all roles_valid is_role exp_valid expired
    subject_valid reject_if or_throw Failure.◌>>=◌
activated = refl

can_activate-IsKnown_example :
    (constant_time_equal env (header (one (codes "platform-api-key"))) (codes "platform-api-key")
      ≡ true)
    × IsKnown guard_env dev_config invoice_marks
        (one (codes "Bearer payload.signature"))
        (some payload)
can_activate-IsKnown_example =
    can_activate-IsKnown guard_env dev_config invoice_marks (one (codes "platform-api-key"))
      (one (codes "Bearer payload.signature")) (some payload) refl activated

abbrev issued : DevToken guard_env dev_config
issued = record { token = token; expires_at = 10_028_800_000 }

issues : dev_token guard_env dev_config ≡ ok issued
unfolding dev_token create_actor_token validate_token_secret validate_actor_payload validate_fields
    is_uuid matches_all roles_valid is_role exp_valid expired subject_valid text_eq reject_if
    or_throw Failure.◌>>=◌
issues = refl

dev_token_activates_example :
    can_activate guard_env dev_config invoice_marks
      (one (codes "platform-api-key"))
      (one (codes "Bearer payload.signature"))
    ≡ ok (some payload)
unfolding text_eq
dev_token_activates_example =
    dev_token_activates guard_env dev_config env invoice_marks issued refl refl (refl, refl)
      (refl, refl) issues (omega arith) refl refl refl

-- A portal with the platform's key.
abbrev portal_variables : ProcessEnv
portal_variables name =
    if text_eq (codes name) (codes "PLATFORM_API_KEY")
    then some (codes "platform-api-key")
    else none

abbrev no_request : TokenRequest
no_request api_key = none

backend_fetch-admitted_example :
    (backend_fetch portal_variables no_request env.now none (kept guard_env dev_config env issued 1)
      ≡ (
        ok (call_of guard_env dev_config env (codes "platform-api-key") issued),
        kept guard_env dev_config env issued 1,
      ))
    × (can_activate guard_env dev_config invoice_marks
          (one (codes "platform-api-key"))
          (one (codes "Bearer payload.signature"))
        ≡ ok (some payload))
unfolding text_eq
backend_fetch-admitted_example =
    backend_fetch-admitted guard_env dev_config env portal_variables no_request issued 1
      invoice_marks refl refl (refl, refl) (refl, refl) issues refl refl (omega arith) refl refl
      refl
