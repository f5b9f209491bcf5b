-- ===== src/Config/Valid.antt =====
-- The configuration that loadApiConfig returns.
use bf_techops.Prelude.{
  ℕ, ◌≤◌, ◌≡◌, refl, subst, Bool, true, false, not, ◌||◌, [], ltb, if◌then◌else◌, length, not-false,
  arith,
}
use bf_techops.Js.{Text, JsNumber, nat, neg, other, codes, text_eq}
use bf_techops.Failure.{Failure, ok, err, reject_if, on_bind, on_reject, ok-injective}
use bf_techops.Domain.Webhook.{validate_token_secret}
use bf_techops.Config.{
  ApiConfig, ProcessEnv, or_default, given, in_range, matches_provider, shorter, bounded_integer,
  check_production, check_actor_tokens, load_api_config,
}

pub in_range-bounds :
    (minimum maximum : ℕ) (n : JsNumber) (e : Failure) {m : ℕ}
    → in_range minimum maximum n (err e) ≡ ok m
    → (minimum ≤ m) × (m ≤ maximum)
unfolding in_range
in_range-bounds minimum maximum (nat n) e {m} h = chosen (ltb n minimum || ltb maximum n) refl h
  where
    chosen :
        (c : Bool)
        → (ltb n minimum || ltb maximum n) ≡ c
        → (if c then err e else ok n) ≡ ok m
        → (minimum ≤ m) × (m ≤ maximum)
    chosen true out h = cc
    chosen false within h = let same : n ≡ m = ok-injective h in (ground arith, ground arith)
in_range-bounds minimum maximum (neg n) e h = cc
in_range-bounds minimum maximum other e h = cc

-- What `if (c) throw e` lets through.
pub passed : (c : Bool) (e : Failure) {u : Unit {0}} → reject_if c e ≡ ok u → c ≡ false
unfolding reject_if
passed true e h = cc
passed false e h = refl

pub branch_true {ℓ} :
    {A : Type ℓ} (c : Bool) → c ≡ true → (a b : A) {r : A} → (if c then a else b) ≡ r → a ≡ r
branch_true true e a b h = h
branch_true false e a b h = cc

pub branch_false {ℓ} :
    {A : Type ℓ} (c : Bool) → c ≡ false → (a b : A) {r : A} → (if c then a else b) ≡ r → b ≡ r
branch_false true e a b h = cc
branch_false false e a b h = h

all_given :
    (a b c : Bool) → (not a || not b || not c) ≡ false → (b ≡ true) × (c ≡ true) × (a ≡ true)
all_given a b c h = ground arith

-- A configuration that the API can run with.
pub record IsValid (is_url : Text → Bool) (config : ApiConfig) : Type 0 where
  pub port_bounds : (1 ≤ config.port) × (config.port ≤ 65_535)
  pub key_length : 16 ≤ length config.platform_api_key
  pub provider_name : matches_provider config.payment_provider ≡ true
  -- Signatures are checked with it, and its length is not refused then.
  pub webhook_secret : validate_token_secret config.payment_webhook_secret ≡ ok tt
  pub tolerance_bounds :
      (30 ≤ config.payment_webhook_tolerance_seconds)
      × (config.payment_webhook_tolerance_seconds ≤ 900)
  pub production :
      text_eq config.node_env (codes "production") ≡ true
      → (given config.actor_issuer ≡ true)
        × (given config.actor_audience ≡ true)
        × (given config.actor_jwks_url ≡ true)
        × (is_url (or_default [] config.actor_jwks_url) ≡ true)
  pub development :
      text_eq config.node_env (codes "production") ≡ false
      → shorter 32 config.actor_token_secret ≡ false

long_secret :
    (secret : Text) → ltb (length secret) 32 ≡ false → validate_token_secret secret ≡ ok tt
unfolding validate_token_secret reject_if
long_secret secret h = rw h refl

module _ (to_number : Text → JsNumber) (is_url : Text → Bool) (env : ProcessEnv) where
  checked_production :
      {u : Unit {0}}
      → check_production to_number is_url env ≡ ok u
      → (given (env "ACTOR_ISSUER") ≡ true)
        × (given (env "ACTOR_AUDIENCE") ≡ true)
        × (given (env "ACTOR_JWKS_URL") ≡ true)
        × (is_url (or_default [] (env "ACTOR_JWKS_URL")) ≡ true)
  unfolding check_production
  checked_production h = on_reject _ _ _ h λ missing h.
      let (issuer, audience, url) = all_given _ _ _ missing in
      (issuer, audience, url, not-false _ (passed _ _ h))

  checked_actor_tokens :
      {u : Unit {0}}
      → check_actor_tokens to_number is_url env ≡ ok u
      → (text_eq (or_default (codes "development") (env "NODE_ENV")) (codes "production") ≡ true
          → check_production to_number is_url env ≡ ok u)
        × (text_eq (or_default (codes "development") (env "NODE_ENV")) (codes "production") ≡ false
            → shorter 32 (env "ACTOR_TOKEN_SECRET") ≡ false)
  unfolding check_actor_tokens
  checked_actor_tokens h =
      ((λ c. branch_true _ c _ _ h), (λ c. passed _ _ (branch_false _ c _ _ h)))

  -- A configuration that loadApiConfig returns has a TCP port, a platform key of 16 units or more, a
  -- well-formed name of the provider, a webhook secret that is long enough for signatures, and a
  -- tolerance of 30 to 900 seconds; in production it has an issuer, an audience and the URL of the
  -- keys, and elsewhere a secret of 32 units or more for actor tokens.
  pub load_api_config-IsValid :
      (config : ApiConfig)
      → load_api_config to_number is_url env ≡ ok config
      → IsValid is_url config
  unfolding load_api_config bounded_integer
  load_api_config-IsValid config h = on_bind _ _ h λ key _ h. on_reject _ _ _ h λ long h.
      on_bind _ _ h λ secret _ h. on_reject _ _ _ h λ named h. on_reject _ _ _ h λ secure h.
        on_bind _ _ h λ _ actors h. on_bind _ _ h λ port ranged h.
          on_bind _ _ h λ tolerance within h.
            let (in_production, otherwise) = checked_actor_tokens actors in
            subst (IsValid is_url) (ok-injective h) record {
              port_bounds = in_range-bounds 1 65_535 _ _ ranged;
              key_length = ground arith;
              provider_name = not-false _ named;
              webhook_secret = long_secret secret secure;
              tolerance_bounds = in_range-bounds 30 900 _ _ within;
              production = λ c. checked_production (in_production c);
              development = otherwise;
            }
