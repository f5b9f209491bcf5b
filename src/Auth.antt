-- ===== src/Auth.antt =====
-- apps/api/src/common/platform-auth.guard.ts: who may call a handler; and
-- apps/api/src/auth/dev-auth.controller.ts: the tokens of development. What `jwtVerify` finds in a
-- token, checked against the keys of the issuer, comes from outside.
pub mod Laws
pub mod Development
use bf_techops.Prelude.{
  ℕ, ◌+◌, ◌*◌, ◌/◌, Bool, true, false, not, ◌&&◌, ◌||◌, Option, none, some, List, [], ◌∷◌, any,
  ◌==◌, if◌then◌else◌, every,
}
use bf_techops.Js.{Text, JsNumber, nat, neg, other, codes, text_eq}
use bf_techops.Failure.{
  Failure, Result, ok, err, error, unauthorized, forbidden, reject_if, or_throw, ◌>>=◌, ◌>>◌,
}
use bf_techops.Config.{ApiConfig, or_default, given}
use bf_techops.Persistence.Database.{Env}
use bf_techops.Domain.Webhook.{constant_time_equal}
use bf_techops.Domain.ActorToken.{
  TextField, text, RawPayload, json_object, TokenCodec, assert_actor_token_payload,
  create_actor_token, verify_actor_token,
}

-- `string | string[] | undefined`
pub data Header : Type 0 where
  missing : Header
  one : Text → Header
  several : List Text → Header

abbrev pub first_or_empty : List Text → Text
first_or_empty [] = []
first_or_empty (s ∷ texts) = s

-- `header`
unfoldable pub header : Header → Text
header missing = []
header (one s) = s
header (several texts) = first_or_empty texts

-- The claims that are read from a verified token: `merchant_id` if it is a string, `roles` if it is an
-- array, `exp`, and `sub`.
pub record JwtPayload : Type 0 where
  pub merchant_id : Option Text
  pub roles : Option (List TextField)
  pub exp : JsNumber
  pub sub : TextField

-- What the decorators of a handler and its class say.
pub record HandlerMarks : Type 0 where
  pub is_public : Bool
  pub platform_only : Bool
  pub required_roles : Option (List Text)

-- What the guard takes from outside: `jwtVerify(token, jwks, { issuer, audience })`, for the keys at
-- the URL, nothing where it throws; and the codec of actor tokens.
pub record GuardEnv : Type 0 where
  pub base : Env
  pub codec : TokenCodec
  pub jwt_verify : Text → Text → Text → Text → Option JwtPayload

-- `text.startsWith(prefix)`, and what follows the prefix.
unfoldable pub after_prefix : Text → Text → Option Text
after_prefix [] s = some s
after_prefix (c ∷ prefix) [] = none
after_prefix (c ∷ prefix) (d ∷ s) =
    let rest = after_prefix prefix s in if c == d then rest else none

abbrev pub has_expiry : JsNumber → Bool
has_expiry (nat n) = not (n == 0)
has_expiry (neg n) = true
has_expiry other = false

-- The actor of the claims.
unfoldable pub claimed_actor : JwtPayload → Result RawPayload
claimed_actor claims = elim claims.merchant_id [
  | none ↦ err (error "Actor token is missing merchant_id or roles claims")
  | some merchant_id ↦ elim claims.roles [
    | none ↦ err (error "Actor token is missing merchant_id or roles claims")
    | some roles ↦
        if has_expiry claims.exp
        then ok record {
          actor_merchant_id = some merchant_id;
          roles = some roles;
          exp = claims.exp;
          subject = claims.sub;
        }
        else err (error "Actor token must expire")
  ]
]

abbrev pub includes : Option (List TextField) → Text → Bool
includes none role = false
includes (some roles) role = any (λ r. elim r [ text s ↦ text_eq s role | _ ↦ false ]) roles

module _ (env : GuardEnv) (config : ApiConfig) where
  -- The clock in seconds.
  abbrev pub now_seconds : ℕ
  now_seconds = env.base.now / 1000

  -- The part of `verifyActor` for production.
  unfoldable pub verify_claims : Text → Result RawPayload
  verify_claims token = do
    reject_if
        (not (given config.actor_jwks_url)
          || not (given config.actor_issuer)
          || not (given config.actor_audience))
        (error "OIDC actor verification is not configured")
    claims ←
        or_throw
          (env.jwt_verify (or_default [] config.actor_jwks_url) (or_default [] config.actor_issuer)
            (or_default [] config.actor_audience) token)
          (error "jwtVerify")
    actor ← claimed_actor claims
    assert_actor_token_payload (json_object actor) now_seconds

  unfoldable pub verify_actor : Text → Result RawPayload
  verify_actor token =
      if not (text_eq config.node_env (codes "production"))
      then verify_actor_token env.codec token (or_default [] config.actor_token_secret) now_seconds
      else verify_claims token

  abbrev pub or_unauthorized {ℓ} : {A : Type ℓ} → Result A → Result A
  or_unauthorized (ok a) = ok a
  or_unauthorized (err e) = err (unauthorized "Invalid or expired actor token")

  abbrev pub roles_or_none : Option (List Text) → List Text
  roles_or_none none = []
  roles_or_none (some roles) = roles

  -- The part of `canActivate` for an actor: it sets the actor of the request.
  unfoldable pub activate_actor : HandlerMarks → Header → Result (Option RawPayload)
  activate_actor marks authorization = do
    token ←
        or_throw (after_prefix (codes "Bearer ") (header authorization))
          (unauthorized "Bearer actor token is required")
    actor ← or_unauthorized (verify_actor token)
    reject_if (not (every (includes actor.roles) (roles_or_none marks.required_roles)))
        (forbidden "Actor does not have the required role")
    ok (some actor)

  -- The part of `canActivate` for a handler that is not public.
  unfoldable pub activate_known : HandlerMarks → Header → Header → Result (Option RawPayload)
  activate_known marks api_key authorization = do
    reject_if (not (constant_time_equal env.base (header api_key) config.platform_api_key))
        (unauthorized "Invalid platform API key")
    if marks.platform_only then ok none else activate_actor marks authorization

  -- `canActivate`, which returns true wherever it does not throw; the result is the actor that it
  -- sets, if any.
  unfoldable pub can_activate : HandlerMarks → Header → Header → Result (Option RawPayload)
  can_activate marks api_key authorization =
      if marks.is_public then ok none else activate_known marks api_key authorization

  pub record DevToken : Type 0 where
    pub token : Text
    pub expires_at : ℕ

  abbrev pub operator : ℕ → RawPayload
  operator exp = record {
    actor_merchant_id = some (codes "00000000-0000-4000-8000-000000000001");
    roles = some (
        text (codes "merchant:read")
        ∷ text (codes "invoice:read")
        ∷ text (codes "invoice:write")
        ∷ text (codes "payment:read")
        ∷ text (codes "audit:read")
        ∷ text (codes "ops:read")
        ∷ []);
    exp = nat exp;
    subject = text (codes "local-operator");
  }

  -- The handler of `POST /v1/auth/dev-token`; the expiry is in milliseconds.
  unfoldable pub dev_token : Result DevToken
  dev_token = do
    reject_if (text_eq config.node_env (codes "production"))
        (forbidden "Development token endpoint is disabled")
    token ←
        create_actor_token env.codec (operator (now_seconds + 8 * 60 * 60))
          (or_default [] config.actor_token_secret)
    ok record { token = token; expires_at = (now_seconds + 8 * 60 * 60) * 1000 }
