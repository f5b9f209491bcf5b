-- ===== src/Domain/Webhook.antt =====
-- The signatures of webhooks: `createWebhookSignature`, `verifyWebhookSignature`, `constantTimeEqual`
-- and `validateTokenSecret` of packages/domain/src/index.js.
pub mod Laws
use bf_techops.Prelude.{
  ℕ, zero, suc, ◌+◌, ◌-◌, ◌/◌, ◌%◌, Bool, true, not, ◌&&◌, ◌||◌, [], ◌∷◌, ◌++◌, ltb, leb, ◌==◌,
  if◌then◌else◌, length, every,
}
use bf_techops.Js.{Text, to_lower_case, max_safe_integer, JsNumber, nat, neg, other}
use bf_techops.Failure.{
  Result, ok, err, type_error, coded, invalid_webhook_signature, reject_if, ◌>>=◌, ◌>>◌,
}
use bf_techops.Persistence.Database.{Env}
use bf_techops.Domain.Money.{require_integer}
use bf_techops.Domain.StableJson.{decimal}

unfoldable pub validate_token_secret : Text → Result (Unit {0})
validate_token_secret secret =
    reject_if (ltb (length secret) 32)
      (type_error "Actor token secret must contain at least 32 characters")

-- The timestamp as a positive safe integer, or the given refusal.
abbrev pub positive_or : JsNumber → Result ℕ → Result ℕ
positive_or (nat n) refused = if leb n max_safe_integer && leb 1 n then ok n else refused
positive_or (neg n) refused = refused
positive_or other refused = refused

abbrev pub hex_unit : ℕ → ℕ
hex_unit d = if ltb d 10 then b'0' + d else b'a' + d - 10

-- The last `count` hexadecimal digits of a digest, in front of `rest`.
hex_before : ℕ → ℕ → Text → Text
hex_before zero n rest = rest
hex_before (suc count) n rest = hex_before count (n / 16) (hex_unit (n % 16) ∷ rest)

-- `digest("hex")` of 32 bytes
unfoldable pub hex_digest : ℕ → Text
unfolding hex_before
hex_digest n = hex_before 64 n []

unfoldable pub create_webhook_signature : Env → Text → Text → JsNumber → Result Text
create_webhook_signature env raw_body secret timestamp = do
  validate_token_secret secret
  parsed ←
      positive_or timestamp (err (type_error "Webhook timestamp must be a positive epoch second"))
  ok (hex_digest (env.hmac_sha256 secret (decimal parsed ++ b'.' ∷ raw_body)))

unfoldable pub constant_time_equal : Env → Text → Text → Bool
constant_time_equal env left right = env.sha256 left == env.sha256 right

-- `[a-f0-9]`, in either case
abbrev pub is_hex : ℕ → Bool
is_hex c = (leb b'0' c && leb c b'9') || (leb b'a' c && leb c b'f') || (leb b'A' c && leb c b'F')

-- `Math.abs(a - b)`
abbrev pub distance : ℕ → ℕ → ℕ
distance a b = (a - b) + (b - a)

module _ (env : Env) (raw_body secret : Text) (timestamp : JsNumber) (signature : Text) where
  unfoldable pub verify_webhook_signature : ℕ → JsNumber → Result Bool
  verify_webhook_signature now_epoch_seconds tolerance_seconds = do
    parsed ←
        positive_or timestamp (err (coded invalid_webhook_signature "Invalid webhook timestamp"))
    tolerance ← require_integer tolerance_seconds 1
    reject_if (ltb tolerance (distance now_epoch_seconds parsed))
        (coded invalid_webhook_signature "Webhook timestamp is outside the replay window")
    reject_if (not (length signature == 64 && every is_hex signature))
        (coded invalid_webhook_signature "Invalid webhook signature format")
    expected ← create_webhook_signature env raw_body secret (nat parsed)
    reject_if (not (constant_time_equal env (to_lower_case expected) (to_lower_case signature)))
        (coded invalid_webhook_signature "Invalid webhook signature")
    ok true
