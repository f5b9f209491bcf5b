-- ===== src/Domain/ActorToken/RoundTrip.antt =====
-- createActorToken and verifyActorToken.
use bf_techops.Prelude.{
  ℕ, ◌<◌, ◌≡◌, refl, sym, subst, Bool, true, false, not, some, [], ◌∷◌, ◌++◌, ltb, leb, ◌==◌,
  ==_refl, length, every, not-false, arith,
}
use bf_techops.Prelude.Table.Unique.{absurd_bool}
use bf_techops.MerchantScope.Lists.{and_left, and_right}
use bf_techops.Js.{Text, nat, text_eq}
use bf_techops.Failure
use bf_techops.Failure.{
  Failure, Result, ok, err, reject_if, or_throw, ◌>>=◌, ◌>>◌, on_bind, on_reject, ok-injective,
}
use bf_techops.Config.Valid.{passed}
use bf_techops.Domain.Webhook.{validate_token_secret}
use bf_techops.Domain.ActorToken.{
  RawPayload, json_object, TokenCodec, is_uuid, roles_valid, exp_valid, expired, subject_valid,
  text_or_empty, validate_fields, validate_actor_payload, split_dots, token_parts,
  create_actor_token, verify_actor_token,
}

-- A text that is not empty and has no dot.
abbrev pub IsPart : Text → Type 0
IsPart s = (ltb 0 (length s) ≡ true) × (every (λ c. not (c == b'.')) s ≡ true)

not_dot : (b : Bool) → not b ≡ true → b ≡ false
not_dot true h = cc
not_dot false h = refl

split_one : (s : Text) → every (λ c. not (c == b'.')) s ≡ true → split_dots s ≡ s ∷ []
unfolding split_dots
split_one [] h = refl
split_one (c ∷ s) h =
    rw (not_dot (c == b'.') (and_left (not (c == b'.')) (every (λ d. not (d == b'.')) s) h))
      (rw (split_one s (and_right (not (c == b'.')) (every (λ d. not (d == b'.')) s) h)) refl)

split_two :
    (a b : Text)
    → every (λ c. not (c == b'.')) a ≡ true
    → every (λ c. not (c == b'.')) b ≡ true
    → split_dots (a ++ b'.' ∷ b) ≡ a ∷ b ∷ []
unfolding split_dots
split_two [] b h h' = rw (split_one b h') refl
split_two (c ∷ a) b h h' =
    rw (not_dot (c == b'.') (and_left (not (c == b'.')) (every (λ d. not (d == b'.')) a) h))
      (rw (split_two a b (and_right (not (c == b'.')) (every (λ d. not (d == b'.')) a) h) h') refl)

parts_of : (a b : Text) → IsPart a → IsPart b → token_parts (a ∷ b ∷ []) ≡ ok (a, b)
unfolding token_parts
parts_of [] b p q = absurd_bool (sym p.0)
parts_of (c ∷ a) [] p q = absurd_bool (sym q.0)
parts_of (c ∷ a) (d ∷ b) p q = refl

pub text_eq_refl : (s : Text) → text_eq s s ≡ true
unfolding text_eq
text_eq_refl [] = refl
text_eq_refl (c ∷ s) = rw (==_refl c) (text_eq_refl s)

-- What the check of the fields without a clock lets through.
abbrev IsFine : RawPayload → Type 0
IsFine payload =
    (is_uuid (text_or_empty payload.actor_merchant_id) ≡ true)
    × (roles_valid payload.roles ≡ true)
    × (exp_valid payload.exp ≡ true)
    × (subject_valid payload.subject ≡ true)

checked_fields :
    (payload : RawPayload) {u : Unit {0}} → validate_fields payload false 0 ≡ ok u → IsFine payload
unfolding validate_fields
checked_fields payload h = on_reject _ _ _ h λ merchant h. on_reject _ _ _ h λ roles h.
    on_reject _ _ _ h λ valid h. on_reject _ _ _ h λ fresh h.
      (not-false _ merchant, not-false _ roles, not-false _ valid, not-false _ (passed _ _ h))

not_yet : {now expiry : ℕ} → now < expiry → leb expiry now ≡ false
not_yet {now} {expiry} h = ground arith

-- Before they expire, they pass the check with a clock.
still_valid :
    (payload : RawPayload) (now expiry : ℕ)
    → IsFine payload
    → payload.exp ≡ nat expiry
    → now < expiry
    → validate_fields payload true now ≡ ok tt
unfolding validate_fields expired reject_if Failure.◌>>=◌
still_valid payload now expiry (merchant, roles, valid, subject) expires later =
    let fresh : expired now payload.exp ≡ false = rw expires (not_yet later) in
    rw merchant (rw roles (rw valid (rw fresh (rw subject refl))))

checked_payload :
    (payload checked : RawPayload)
    → validate_actor_payload (json_object payload) false 0 ≡ ok checked
    → IsFine payload
unfolding validate_actor_payload
checked_payload payload checked h = on_bind _ _ h λ _ fine _. checked_fields payload fine

module _ (codec : TokenCodec) (payload : RawPayload) (secret token : Text) (now expiry : ℕ) where
  abbrev pub body : Text
  body = codec.encode (codec.stringify payload)

  taken :
      codec.parse (codec.stringify payload) ≡ some (json_object payload)
      → codec.decode body ≡ codec.stringify payload
      → IsPart body
      → IsPart (codec.sign secret body)
      → {u : Unit {0}} → validate_token_secret secret ≡ ok u
      → validate_fields payload true now ≡ ok tt
      → verify_actor_token codec (body ++ b'.' ∷ codec.sign secret body) secret now ≡ ok payload
  unfolding verify_actor_token validate_actor_payload reject_if or_throw Failure.◌>>=◌
  taken parses decodes first second secure valid = rw secure (
      rw (split_two body (codec.sign secret body) first.1 second.1) (
        rw (parts_of body (codec.sign secret body) first second)
          (rw (text_eq_refl (codec.sign secret body)) (rw decodes (rw parses (rw valid refl))))))

  -- Until it expires, verifyActorToken takes a token that createActorToken made under the same
  -- secret, and returns its payload, where JSON and base64url give back what they were given, and
  -- base64url texts are not empty and have no dot.
  pub verify-create :
      codec.parse (codec.stringify payload) ≡ some (json_object payload)
      → codec.decode body ≡ codec.stringify payload
      → IsPart body
      → IsPart (codec.sign secret body)
      → payload.exp ≡ nat expiry
      → now < expiry
      → create_actor_token codec payload secret ≡ ok token
      → verify_actor_token codec token secret now ≡ ok payload
  unfolding create_actor_token
  verify-create parses decodes first second expires later h = on_bind _ _ h λ _ secure h.
      on_bind _ _ h λ checked fine h.
        subst (λ t. verify_actor_token codec t secret now ≡ ok payload) (ok-injective h)
          (taken parses decodes first second secure
            (still_valid payload now expiry (checked_payload payload checked fine) expires later))
