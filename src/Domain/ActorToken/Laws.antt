-- ===== src/Domain/ActorToken/Laws.antt =====
-- What verifyActorToken lets through.
use bf_techops.Prelude.{
  ℕ, ◌<◌, ◌≡◌, refl, ap, subst, ◌∙◌, true, false, Option, none, some, not-false, arith,
}
use bf_techops.Js.{Text, JsNumber, nat, neg, other, text_eq}
use bf_techops.Failure.{Failure, ok, or_throw, on_bind, on_reject, ok-injective}
use bf_techops.Config.Valid.{passed}
use bf_techops.Domain.Webhook.{validate_token_secret}
use bf_techops.Domain.ActorToken.{
  RawPayload, JsonValue, json_object, json_other, TokenCodec, text_or_empty, is_uuid, roles_valid,
  exp_valid, expired, subject_valid, validate_fields, validate_actor_payload, split_dots,
  token_parts, verify_actor_token,
}

-- A payload with a UUID, roles, and an expiry in the future.
pub record IsCurrent (payload : RawPayload) (now : ℕ) : Type 0 where
  pub merchant : is_uuid (text_or_empty payload.actor_merchant_id) ≡ true
  pub has_roles : roles_valid payload.roles ≡ true
  pub expiry : ℕ
  pub expires : payload.exp ≡ nat expiry
  pub later : now < expiry
  pub subject_bounds : subject_valid payload.subject ≡ true

unexpired :
    (now : ℕ) (n : JsNumber)
    → exp_valid n ≡ true
    → expired now n ≡ false
    → (expiry : ℕ) × ((n ≡ nat expiry) × (now < expiry))
unfolding exp_valid expired
unexpired now (nat n) valid h = (n, (refl, ground arith))
unexpired now (neg n) valid h = cc
unexpired now other valid h = cc

fields-IsCurrent :
    (payload : RawPayload) (now : ℕ) {u : Unit {0}}
    → validate_fields payload true now ≡ ok u
    → IsCurrent payload now
unfolding validate_fields
fields-IsCurrent payload now h = on_reject _ _ _ h λ merchant h. on_reject _ _ _ h λ roles h.
    on_reject _ _ _ h λ valid h. on_reject _ _ _ h λ fresh h.
      let (expiry, (expires, later)) = unexpired now payload.exp (not-false _ valid) fresh in
      record {
        merchant = not-false _ merchant;
        has_roles = not-false _ roles;
        expiry = expiry;
        expires = expires;
        later = later;
        subject_bounds = not-false _ (passed _ _ h);
      }

pub validated-IsCurrent :
    (value : JsonValue) (now : ℕ) {payload : RawPayload}
    → validate_actor_payload value true now ≡ ok payload
    → (value ≡ json_object payload) × IsCurrent payload now
unfolding validate_actor_payload
validated-IsCurrent json_other now h = cc
validated-IsCurrent (json_object raw) now {payload} h = on_bind _ _ h λ _ checked h.
    let same : raw ≡ payload = ok-injective h in
    (ap json_object same, subst (λ p. IsCurrent p now) same (fields-IsCurrent raw now checked))

parsed_value :
    (o : Option JsonValue) (e : Failure) {v : JsonValue} → or_throw o e ≡ ok v → o ≡ some v
unfolding or_throw
parsed_value none e h = cc
parsed_value (some v) e h = ap some (ok-injective h)

-- A token has body and signature, the signature is that of the body, and the body is of the payload.
pub record IsSignedToken (codec : TokenCodec) (token secret : Text) (payload : RawPayload)
    : Type 0 where
  pub secret_length : validate_token_secret secret ≡ ok tt
  pub parts : Text × Text
  pub split : token_parts (split_dots token) ≡ ok parts
  pub signed : text_eq parts.1 (codec.sign secret parts.0) ≡ true
  pub read : codec.parse (codec.decode parts.0) ≡ some (json_object payload)

module _ (codec : TokenCodec) (token secret : Text) (now : ℕ) where
  -- A token that verifyActorToken takes is signed, as it stands, under a secret that is long enough;
  -- and the payload that it returns is what the signed body says, with a merchant's UUID, 1 to 32
  -- well-formed roles, a subject of 1 to 120 units if it has one, and an expiry after the clock.
  pub verify_actor_token-IsSignedToken :
      (payload : RawPayload)
      → verify_actor_token codec token secret now ≡ ok payload
      → IsSignedToken codec token secret payload × IsCurrent payload now
  unfolding verify_actor_token
  verify_actor_token-IsSignedToken payload h = on_bind _ _ h λ _ secure h.
      on_bind _ _ h λ parts split h. on_reject _ _ _ h λ signed h. on_bind _ _ h λ value read h.
        let (same, current) = validated-IsCurrent value now h in
        (
          record {
            secret_length = secure;
            parts = parts;
            split = split;
            signed = not-false _ signed;
            read = parsed_value _ _ read ∙ ap some same;
          },
          current,
        )
