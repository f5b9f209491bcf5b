-- ===== src/Config.antt =====
-- apps/api/src/config.ts: the configuration of the API, and how it is read from the environment of
-- the process. What `Number(text)` returns and which texts `new URL` takes come from outside.
pub mod Valid
use bf_techops.Prelude.{
  ℕ, String, Bool, true, false, not, ◌&&◌, ◌||◌, Option, none, some, List, [], ◌∷◌, ltb, leb, ◌==◌,
  if◌then◌else◌, length, every,
}
use bf_techops.Js.{Text, JsNumber, nat, neg, other, codes, text_eq}
use bf_techops.Failure.{Result, ok, err, error, type_error, reject_if, ◌>>=◌, ◌>>◌}

pub record ApiConfig : Type 0 where
  pub node_env : Text
  pub port : ℕ
  pub platform_api_key : Text
  pub actor_token_secret : Option Text
  pub actor_jwks_url : Option Text
  pub actor_issuer : Option Text
  pub actor_audience : Option Text
  pub payment_provider : Text
  pub payment_webhook_secret : Text
  pub payment_webhook_tolerance_seconds : ℕ
  pub release_version : Text

-- `process.env`
abbrev pub ProcessEnv : Type 0
ProcessEnv = String → Option Text

-- `value ?? default`
abbrev pub or_default : Text → Option Text → Text
or_default default none = default
or_default default (some s) = s

abbrev pub filled : Option Text → Option Text
filled none = none
filled (some []) = none
filled (some (c ∷ s)) = some (c ∷ s)

-- A value that is not `undefined` and not empty.
abbrev pub given : Option Text → Bool
given none = false
given (some []) = false
given (some (c ∷ s)) = true

-- `required`
unfoldable pub required : ProcessEnv → String → Result Text
required env key = elim (filled (env key)) [ none ↦ err (error key) | some value ↦ ok value ]

-- An integer between two bounds, or the given refusal.
unfoldable pub in_range : ℕ → ℕ → JsNumber → Result ℕ → Result ℕ
in_range minimum maximum (nat n) refused = if ltb n minimum || ltb maximum n then refused else ok n
in_range minimum maximum (neg n) refused = refused
in_range minimum maximum other refused = refused

-- `[a-z0-9-]{2,40}`
abbrev pub is_provider_unit : ℕ → Bool
is_provider_unit c = (leb b'a' c && leb c b'z') || (leb b'0' c && leb c b'9') || c == b'-'

unfoldable pub matches_provider : Text → Bool
matches_provider s = leb 2 (length s) && leb (length s) 40 && every is_provider_unit s

-- `value.length < n`, which a missing value passes for.
abbrev pub shorter : ℕ → Option Text → Bool
shorter n none = true
shorter n (some s) = ltb (length s) n

module _ (to_number : Text → JsNumber) (is_url : Text → Bool) (env : ProcessEnv) where
  unfoldable pub bounded_integer : Text → String → ℕ → ℕ → Result ℕ
  bounded_integer value name minimum maximum =
      in_range minimum maximum (to_number value) (err (error name))

  abbrev pub port_number : Option Text → JsNumber
  port_number none = nat 8080
  port_number (some s) = to_number s

  -- What production needs: verification against the keys of an issuer.
  unfoldable pub check_production : Result (Unit {0})
  check_production = do
    reject_if
        (not (given (env "ACTOR_JWKS_URL"))
          || not (given (env "ACTOR_ISSUER"))
          || not (given (env "ACTOR_AUDIENCE")))
        (error "ACTOR_JWKS_URL, ACTOR_ISSUER, and ACTOR_AUDIENCE are required in production")
    reject_if (not (is_url (or_default [] (env "ACTOR_JWKS_URL")))) (type_error "Invalid URL")

  unfoldable pub check_actor_tokens : Result (Unit {0})
  check_actor_tokens =
      if text_eq (or_default (codes "development") (env "NODE_ENV")) (codes "production")
      then check_production
      else reject_if (shorter 32 (env "ACTOR_TOKEN_SECRET"))
          (error "ACTOR_TOKEN_SECRET must contain at least 32 characters outside production")

  -- `loadApiConfig`
  unfoldable pub load_api_config : Result ApiConfig
  load_api_config = do
    platform_api_key ← required env "PLATFORM_API_KEY"
    reject_if (ltb (length platform_api_key) 16)
        (error "PLATFORM_API_KEY must contain at least 16 characters")
    payment_webhook_secret ← required env "PAYMENT_WEBHOOK_SECRET"
    reject_if (not (matches_provider (or_default (codes "sandboxpay") (env "PAYMENT_PROVIDER"))))
        (error "PAYMENT_PROVIDER must contain 2-40 lowercase letters, digits, or hyphens")
    reject_if (ltb (length payment_webhook_secret) 32)
        (error "PAYMENT_WEBHOOK_SECRET must contain at least 32 characters")
    check_actor_tokens
    port ←
        in_range 1 65_535 (port_number (env "API_PORT"))
          (err (error "API_PORT must be a valid TCP port"))
    tolerance ←
        bounded_integer (or_default (codes "300") (env "PAYMENT_WEBHOOK_TOLERANCE_SECONDS"))
          "PAYMENT_WEBHOOK_TOLERANCE_SECONDS" 30 900
    ok record {
      node_env = or_default (codes "development") (env "NODE_ENV");
      port = port;
      platform_api_key = platform_api_key;
      actor_token_secret = env "ACTOR_TOKEN_SECRET";
      actor_jwks_url = env "ACTOR_JWKS_URL";
      actor_issuer = env "ACTOR_ISSUER";
      actor_audience = env "ACTOR_AUDIENCE";
      payment_provider = or_default (codes "sandboxpay") (env "PAYMENT_PROVIDER");
      payment_webhook_secret = payment_webhook_secret;
      payment_webhook_tolerance_seconds = tolerance;
      release_version = or_default (codes "unknown") (env "RELEASE_VERSION");
    }
