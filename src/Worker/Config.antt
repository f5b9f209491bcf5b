-- ===== src/Worker/Config.antt =====
-- apps/worker/src/config.ts: the configuration of the worker, and how it is read from the
-- environment of the process.
pub mod Valid
use bf_techops.Prelude.{
  ℕ, String, Bool, true, false, not, ◌&&◌, ◌||◌, Option, none, some, [], if◌then◌else◌,
}
use bf_techops.Js.{Text, JsNumber, codes, text_eq}
use bf_techops.Failure.{Result, ok, err, error, reject_if, or_throw, ◌>>=◌, ◌>>◌}
use bf_techops.Config.{ProcessEnv, or_default, given, required, in_range}

pub data ProviderKind : Type 0 where
  log webhook : ProviderKind

pub record WorkerConfig : Type 0 where
  pub redis_host : Text
  pub redis_port : ℕ
  pub redis_tls : Bool
  pub redis_password : Option Text
  pub poll_interval_ms : ℕ
  pub max_attempts : ℕ
  pub base_delay_ms : ℕ
  pub concurrency : ℕ
  pub metrics_port : ℕ
  pub provider : ProviderKind
  pub provider_url : Option Text
  pub provider_api_key : Option Text
  pub release_version : Text
  pub idempotency_retention_days : ℕ
  pub outbox_retention_days : ℕ
  pub webhook_receipt_retention_days : ℕ

abbrev pub ProviderName : Type 0
ProviderName = Option ProviderKind

-- The provider that a text names.
unfoldable pub provider_named : Text → ProviderName
provider_named s =
    if text_eq s (codes "log")
    then some ProviderKind.log
    else if text_eq s (codes "webhook")
    then some ProviderKind.webhook
    else none

abbrev pub is_log : ProviderKind → Bool
is_log ProviderKind.log = true
is_log ProviderKind.webhook = false

module _ (to_number : Text → JsNumber) (env : ProcessEnv) where
  unfoldable pub integer : Text → String → ℕ → ℕ → Result ℕ
  integer value name minimum maximum = in_range minimum maximum (to_number value) (err (error name))

  -- The checks of the provider.
  unfoldable pub load_provider : Result ProviderKind
  load_provider = do
    provider ←
        or_throw (provider_named (or_default (codes "log") (env "NOTIFICATION_PROVIDER")))
          (error "NOTIFICATION_PROVIDER must be log or webhook")
    reject_if
        (text_eq (or_default (codes "development") (env "NODE_ENV")) (codes "production")
          && is_log provider)
        (error "The log notification provider is forbidden in production")
    reject_if
        (not (is_log provider)
          && (not (given (env "NOTIFICATION_PROVIDER_URL"))
              || not (given (env "NOTIFICATION_PROVIDER_API_KEY"))))
        (error "Webhook provider URL and API key are required")
    ok provider

  -- `loadWorkerConfig`; `required` is the one of the API.
  unfoldable pub load_worker_config : Result WorkerConfig
  load_worker_config = do
    provider ← load_provider
    redis_host ← required env "REDIS_HOST"
    redis_port ← integer (or_default (codes "6379") (env "REDIS_PORT")) "REDIS_PORT" 1 65_535
    poll_interval_ms ←
        integer (or_default (codes "1000") (env "OUTBOX_POLL_INTERVAL_MS"))
          "OUTBOX_POLL_INTERVAL_MS" 100 60_000
    max_attempts ←
        integer (or_default (codes "5") (env "NOTIFICATION_MAX_ATTEMPTS"))
          "NOTIFICATION_MAX_ATTEMPTS" 1 20
    base_delay_ms ←
        integer (or_default (codes "1000") (env "NOTIFICATION_BASE_DELAY_MS"))
          "NOTIFICATION_BASE_DELAY_MS" 100 60_000
    concurrency ←
        integer (or_default (codes "8") (env "WORKER_CONCURRENCY")) "WORKER_CONCURRENCY" 1 100
    metrics_port ←
        integer (or_default (codes "9091") (env "WORKER_METRICS_PORT")) "WORKER_METRICS_PORT" 1
          65_535
    idempotency_retention_days ←
        integer (or_default (codes "7") (env "IDEMPOTENCY_RETENTION_DAYS"))
          "IDEMPOTENCY_RETENTION_DAYS" 1 90
    outbox_retention_days ←
        integer (or_default (codes "30") (env "OUTBOX_RETENTION_DAYS")) "OUTBOX_RETENTION_DAYS" 7
          365
    webhook_receipt_retention_days ←
        integer (or_default (codes "400") (env "WEBHOOK_RECEIPT_RETENTION_DAYS"))
          "WEBHOOK_RECEIPT_RETENTION_DAYS" 90 2_555
    ok record {
      redis_host = redis_host;
      redis_port = redis_port;
      redis_tls = text_eq (or_default [] (env "REDIS_TLS")) (codes "true");
      redis_password = env "REDIS_PASSWORD";
      poll_interval_ms = poll_interval_ms;
      max_attempts = max_attempts;
      base_delay_ms = base_delay_ms;
      concurrency = concurrency;
      metrics_port = metrics_port;
      provider = provider;
      provider_url = env "NOTIFICATION_PROVIDER_URL";
      provider_api_key = env "NOTIFICATION_PROVIDER_API_KEY";
      release_version = or_default (codes "unknown") (env "RELEASE_VERSION");
      idempotency_retention_days = idempotency_retention_days;
      outbox_retention_days = outbox_retention_days;
      webhook_receipt_retention_days = webhook_receipt_retention_days;
    }
