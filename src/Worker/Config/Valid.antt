-- ===== src/Worker/Config/Valid.antt =====
-- The configuration that loadWorkerConfig returns.
use bf_techops.Prelude.{
  ℕ, ◌≤◌, ◌≡◌, refl, sym, subst, ◌∙◌, String, Bool, true, false, not, ◌&&◌, ◌||◌, arith,
}
use bf_techops.Js.{Text, JsNumber, codes, text_eq}
use bf_techops.Failure.{ok, on_bind, on_reject, ok-injective}
use bf_techops.Config.{ProcessEnv, or_default, given}
use bf_techops.Config.Valid.{in_range-bounds}
use bf_techops.Worker.Config.{
  ProviderKind, WorkerConfig, is_log, integer, load_provider, load_worker_config,
}

-- A configuration that the worker can run with.
pub record IsValid (node_env : Text) (config : WorkerConfig) : Type 0 where
  pub redis_port_bounds : (1 ≤ config.redis_port) × (config.redis_port ≤ 65_535)
  pub metrics_port_bounds : (1 ≤ config.metrics_port) × (config.metrics_port ≤ 65_535)
  pub poll_bounds : (100 ≤ config.poll_interval_ms) × (config.poll_interval_ms ≤ 60_000)
  pub attempts_bounds : (1 ≤ config.max_attempts) × (config.max_attempts ≤ 20)
  pub delay_bounds : (100 ≤ config.base_delay_ms) × (config.base_delay_ms ≤ 60_000)
  pub concurrency_bounds : (1 ≤ config.concurrency) × (config.concurrency ≤ 100)
  pub idempotency_bounds :
      (1 ≤ config.idempotency_retention_days) × (config.idempotency_retention_days ≤ 90)
  pub outbox_bounds : (7 ≤ config.outbox_retention_days) × (config.outbox_retention_days ≤ 365)
  pub receipt_bounds :
      (90 ≤ config.webhook_receipt_retention_days) × (config.webhook_receipt_retention_days ≤ 2_555)
  pub production :
      text_eq node_env (codes "production") ≡ true → config.provider ≡ ProviderKind.webhook
  pub webhook :
      config.provider ≡ ProviderKind.webhook
      → (given config.provider_url ≡ true) × (given config.provider_api_key ≡ true)

not_log :
    (p : ProviderKind) (c : Bool) → (c && is_log p) ≡ false → c ≡ true → p ≡ ProviderKind.webhook
not_log ProviderKind.log true h e = cc
not_log ProviderKind.log false h e = cc
not_log ProviderKind.webhook c h e = refl

both_given :
    (p : ProviderKind) (a b : Bool)
    → (not (is_log p) && (not a || not b)) ≡ false
    → p ≡ ProviderKind.webhook
    → (a ≡ true) × (b ≡ true)
both_given ProviderKind.log a b h e = cc
both_given ProviderKind.webhook a b h e = ground arith

module _ (to_number : Text → JsNumber) (env : ProcessEnv) where
  loaded_provider :
      {p : ProviderKind}
      → load_provider to_number env ≡ ok p
      → (text_eq (or_default (codes "development") (env "NODE_ENV")) (codes "production") ≡ true
          → p ≡ ProviderKind.webhook)
        × (p ≡ ProviderKind.webhook
            → (given (env "NOTIFICATION_PROVIDER_URL") ≡ true)
              × (given (env "NOTIFICATION_PROVIDER_API_KEY") ≡ true))
  unfolding load_provider
  loaded_provider {p} h = on_bind _ _ h λ q _ h. on_reject _ _ _ h λ forbidden h.
      on_reject _ _ _ h λ needed h.
        let same : q ≡ p = ok-injective h in
        ((λ c. sym same ∙ not_log q _ forbidden c), λ e. both_given q _ _ needed (same ∙ e))

  in_bounds :
      (value : Text) (name : String) (minimum maximum : ℕ) {n : ℕ}
      → integer to_number env value name minimum maximum ≡ ok n
      → (minimum ≤ n) × (n ≤ maximum)
  unfolding integer
  in_bounds value name minimum maximum h = in_range-bounds minimum maximum _ _ h

  -- Every number of a configuration that loadWorkerConfig returns is within its bounds; in production
  -- its provider is the webhook; and if the provider is the webhook, its URL and its key are given.
  pub load_worker_config-IsValid :
      (config : WorkerConfig)
      → load_worker_config to_number env ≡ ok config
      → IsValid (or_default (codes "development") (env "NODE_ENV")) config
  unfolding load_worker_config
  load_worker_config-IsValid config h = on_bind _ _ h λ provider checked h. on_bind _ _ h λ _ _ h.
      on_bind _ _ h λ _ redis h. on_bind _ _ h λ _ interval h. on_bind _ _ h λ _ attempts h.
        on_bind _ _ h λ _ delay h. on_bind _ _ h λ _ concurrency h. on_bind _ _ h λ _ metrics h.
          on_bind _ _ h λ _ keys h. on_bind _ _ h λ _ outbox h. on_bind _ _ h λ _ receipts h.
            let (in_production, given_both) = loaded_provider checked in
            subst (IsValid (or_default (codes "development") (env "NODE_ENV"))) (ok-injective h)
              record {
                redis_port_bounds = in_bounds _ _ 1 65_535 redis;
                metrics_port_bounds = in_bounds _ _ 1 65_535 metrics;
                poll_bounds = in_bounds _ _ 100 60_000 interval;
                attempts_bounds = in_bounds _ _ 1 20 attempts;
                delay_bounds = in_bounds _ _ 100 60_000 delay;
                concurrency_bounds = in_bounds _ _ 1 100 concurrency;
                idempotency_bounds = in_bounds _ _ 1 90 keys;
                outbox_bounds = in_bounds _ _ 7 365 outbox;
                receipt_bounds = in_bounds _ _ 90 2_555 receipts;
                production = in_production;
                webhook = given_both;
              }
