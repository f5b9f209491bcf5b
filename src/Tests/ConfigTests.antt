-- ===== src/Tests/ConfigTests.antt =====
-- The configurations of the API and of the worker.
use bf_techops.Prelude.{
  ℕ, ◌+◌, ◌-◌, ◌*◌, ◌≡◌, refl, true, Option, none, some, List, [], ◌∷◌, if◌then◌else◌,
}
use bf_techops.Js.{Text, JsNumber, nat, codes, text_eq}
use bf_techops.Failure
use bf_techops.Failure.{Result, ok, err, reject_if, or_throw}
use bf_techops.Config.{
  ApiConfig, ProcessEnv, required, in_range, matches_provider, bounded_integer, check_actor_tokens,
  load_api_config,
}
use bf_techops.Config.Valid as ApiValid
use bf_techops.Config.Valid.{load_api_config-IsValid}
use bf_techops.Worker.Config.{provider_named, integer, load_provider, load_worker_config}
use bf_techops.Worker.Config.Valid as WorkerValid
use bf_techops.Worker.Config.Valid.{load_worker_config-IsValid}
use bf_techops.Tests.Fixtures.{secret}
use bf_techops.Tests.RelayTests.{worker_config}

-- `Number`, of a text of digits.
abbrev digits_value : ℕ → Text → ℕ
digits_value n [] = n
digits_value n (c ∷ s) = digits_value (n * 10 + (c - 48)) s

abbrev to_number : Text → JsNumber
to_number s = nat (digits_value 0 s)

abbrev look_up : Text → List (Text × Text) → Option Text
look_up name [] = none
look_up name (row ∷ rows) = if text_eq name row.0 then some row.1 else look_up name rows

abbrev variables : ProcessEnv
variables name = look_up (codes name) (
    (codes "PLATFORM_API_KEY", codes "platform-api-key")
    ∷ (codes "PAYMENT_WEBHOOK_SECRET", secret)
    ∷ (codes "ACTOR_TOKEN_SECRET", secret)
    ∷ (codes "REDIS_HOST", codes "redis")
    ∷ [])

abbrev api_config : ApiConfig
api_config = record {
  node_env = codes "development";
  port = 8080;
  platform_api_key = codes "platform-api-key";
  actor_token_secret = some secret;
  actor_jwks_url = none;
  actor_issuer = none;
  actor_audience = none;
  payment_provider = codes "sandboxpay";
  payment_webhook_secret = secret;
  payment_webhook_tolerance_seconds = 300;
  release_version = codes "unknown";
}

loads : load_api_config to_number (λ s. true) variables ≡ ok api_config
unfolding load_api_config required matches_provider check_actor_tokens text_eq bounded_integer
    in_range reject_if or_throw Failure.◌>>=◌
loads = refl

load_api_config-IsValid_example : ApiValid.IsValid (λ s. true) api_config
load_api_config-IsValid_example =
    load_api_config-IsValid to_number (λ s. true) variables api_config loads

abbrev webhook_variables : ProcessEnv
webhook_variables name = look_up (codes name) (
    (codes "REDIS_HOST", codes "redis")
    ∷ (codes "NODE_ENV", codes "production")
    ∷ (codes "NOTIFICATION_PROVIDER", codes "webhook")
    ∷ (codes "NOTIFICATION_PROVIDER_URL", codes "u")
    ∷ (codes "NOTIFICATION_PROVIDER_API_KEY", codes "k")
    ∷ (codes "RELEASE_VERSION", codes "1")
    ∷ [])

loads_worker : load_worker_config to_number webhook_variables ≡ ok worker_config
unfolding load_worker_config load_provider provider_named required integer text_eq in_range
    reject_if or_throw Failure.◌>>=◌
loads_worker = refl

load_worker_config-IsValid_example : WorkerValid.IsValid (codes "production") worker_config
unfolding text_eq
load_worker_config-IsValid_example =
    load_worker_config-IsValid to_number webhook_variables worker_config loads_worker
