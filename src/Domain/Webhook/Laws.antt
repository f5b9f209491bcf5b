-- ===== src/Domain/Webhook/Laws.antt =====
-- What a signature that is accepted shows.
use bf_techops.Prelude.{
  not-false, ℕ, ◌≤◌, ◌≡◌, ap, ◌∙◌, Bool, true, ◌&&◌, ◌∷◌, ◌++◌, ◌==◌, ==_iff, length, every, arith,
}
use bf_techops.Js.{Text, to_lower_case, JsNumber, nat, neg, other}
use bf_techops.Failure.{Failure, ok, err, on_bind, on_reject, ok-injective}
use bf_techops.Persistence.Database.{Env}
use bf_techops.Domain.Money.{require_integer}
use bf_techops.Domain.Money.Laws.{require_integer-ok, nat-injective}
use bf_techops.Domain.StableJson.{decimal}
use bf_techops.Domain.Webhook.{
  validate_token_secret, positive_or, hex_digest, create_webhook_signature, constant_time_equal,
  is_hex, distance, verify_webhook_signature,
}

module _ (env : Env) (raw_body secret : Text) (timestamp : JsNumber) (signature : Text)
    (now_epoch_seconds tolerance : ℕ) where
  -- The signature is the HMAC of the timestamp and the body, up to case and up to SHA-256.
  pub record IsSigned : Type 0 where
    pub seconds : ℕ
    pub stamped : timestamp ≡ nat seconds
    pub positive : 1 ≤ seconds
    pub recent : distance now_epoch_seconds seconds ≤ tolerance
    pub hexadecimal : (length signature == 64 && every is_hex signature) ≡ true
    pub long_secret : 32 ≤ length secret
    pub same_digest :
        env.sha256
          (to_lower_case (hex_digest (env.hmac_sha256 secret (decimal seconds ++ b'.' ∷ raw_body))))
        ≡ env.sha256 (to_lower_case signature)

  positive_or-ok :
      (n : JsNumber) (e : Failure) {seconds : ℕ}
      → positive_or n (err e) ≡ ok seconds
      → (n ≡ nat seconds) × (1 ≤ seconds)
  positive_or-ok (nat n) e h = ground arith
  positive_or-ok (neg n) e h = cc
  positive_or-ok other e h = cc

  created :
      (seconds : ℕ) {expected : Text}
      → create_webhook_signature env raw_body secret (nat seconds) ≡ ok expected
      → (32 ≤ length secret)
        × (hex_digest (env.hmac_sha256 secret (decimal seconds ++ b'.' ∷ raw_body)) ≡ expected)
  unfolding create_webhook_signature validate_token_secret
  created seconds h = on_reject _ _ _ h λ long h₁.
      on_bind (positive_or (nat seconds) _) _ h₁ λ parsed e h₂.
        let same = nat-injective (positive_or-ok (nat seconds) _ e).0 in
        (
          ground arith,
          ap (λ (n : ℕ). hex_digest (env.hmac_sha256 secret (decimal n ++ b'.' ∷ raw_body))) same
              ∙ ok-injective h₂,
        )

  -- A signature is accepted only if the timestamp is a positive number of seconds within the
  -- tolerance of now, the signature is 64 hexadecimal digits, the secret has at least 32 units, and
  -- the signature's SHA-256 is that of the HMAC of the timestamp and the body, letters in lower case.
  pub verify_webhook_signature-IsSigned :
      (checked : Bool)
      → verify_webhook_signature env raw_body secret timestamp signature now_epoch_seconds
          (nat tolerance)
        ≡ ok checked
      → IsSigned
  unfolding verify_webhook_signature constant_time_equal
  verify_webhook_signature-IsSigned checked h =
      on_bind (positive_or timestamp _) _ h λ seconds e₁ h₁.
        on_bind (require_integer (nat tolerance) 1) _ h₁ λ bound e₂ h₂.
          on_reject _ _ _ h₂ λ near h₃. on_reject _ _ _ h₃ λ hex h₄.
            on_bind (create_webhook_signature env raw_body secret (nat seconds)) _ h₄
              λ expected e₃ h₅. on_reject _ _ _ h₅ λ same h₆.
                let stamp = positive_or-ok timestamp _ e₁ in
                let limit = nat-injective (require_integer-ok (nat tolerance) 1 e₂).0 in
                let made = created seconds e₃ in
                record {
                  seconds = seconds;
                  stamped = stamp.0;
                  positive = stamp.1;
                  recent = ground (arith, limit);
                  hexadecimal = not-false _ hex;
                  long_secret = made.0;
                  same_digest =
                      ap (λ (t : Text). env.sha256 (to_lower_case t)) made.1
                      ∙ (==_iff _ _).0 (not-false _ same);
                }
