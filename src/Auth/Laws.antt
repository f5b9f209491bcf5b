-- ===== src/Auth/Laws.antt =====
-- Who PlatformAuthGuard lets through.
use bf_techops.Prelude.{
  ◌≡◌, refl, sym, ap, ◌∙◌, Bool, true, false, not, Option, none, some, [], every, not-false,
  Bool-cases, inl, inr,
}
use bf_techops.Js.{Text, codes, text_eq}
use bf_techops.Failure.{Failure, Result, ok, err, or_throw, on_bind, on_reject, ok-injective}
use bf_techops.Config.{ApiConfig, or_default}
use bf_techops.Config.Valid.{branch_true, branch_false}
use bf_techops.Domain.Webhook.{constant_time_equal}
use bf_techops.Domain.ActorToken.{RawPayload, JsonValue, json_object, json_other}
use bf_techops.Domain.ActorToken.Laws.{
  IsCurrent, IsSignedToken, verify_actor_token-IsSignedToken, validated-IsCurrent,
}
use bf_techops.Auth.{
  Header, header, JwtPayload, HandlerMarks, GuardEnv, after_prefix, claimed_actor, includes,
  now_seconds, verify_claims, verify_actor, or_unauthorized, roles_or_none, activate_actor,
  activate_known, can_activate,
}

abbrev payload_or : RawPayload → JsonValue → RawPayload
payload_or other (json_object payload) = payload
payload_or other json_other = other

negated : (c : Bool) → c ≡ true → not c ≡ false
negated c h = rw h refl

affirmed : (c : Bool) → c ≡ false → not c ≡ true
affirmed c h = rw h refl

module _ (env : GuardEnv) (config : ApiConfig) where
  -- Where a token's actor comes from.
  pub data IsFrom (token : Text) (actor : RawPayload) : Type 0 where
    -- outside production: the token is signed with the secret of the configuration
    from_secret :
        text_eq config.node_env (codes "production") ≡ false
        → IsSignedToken env.codec token (or_default [] config.actor_token_secret) actor
        → IsFrom token actor
    -- in production: the issuer's keys verify it, for the issuer and the audience
    from_issuer :
        (claims : JwtPayload)
        → text_eq config.node_env (codes "production") ≡ true
        → env.jwt_verify
            (or_default [] config.actor_jwks_url)
            (or_default [] config.actor_issuer)
            (or_default [] config.actor_audience)
            token
          ≡ some claims
        → claimed_actor claims ≡ ok actor
        → IsFrom token actor

  pub record IsActor (marks : HandlerMarks) (authorization : Header) (actor : RawPayload)
      : Type 0 where
    pub token : Text
    pub bearer : after_prefix (codes "Bearer ") (header authorization) ≡ some token
    pub from : IsFrom token actor
    pub current : IsCurrent actor (now_seconds env config)
    pub allowed :
        every (includes actor.roles) (roles_or_none env config marks.required_roles) ≡ true

  thrown_or {ℓ} :
      {A : Type ℓ} (o : Option A) (e : Failure) {a : A} → or_throw o e ≡ ok a → o ≡ some a
  unfolding or_throw
  thrown_or none e h = cc
  thrown_or (some a) e h = ap some (ok-injective h)

  authorized {ℓ} :
      {A : Type ℓ} (r : Result A) {a : A} → or_unauthorized env config r ≡ ok a → r ≡ ok a
  authorized (ok a) h = h
  authorized (err e) h = cc

  same_payload :
      (value : RawPayload) {actor : RawPayload}
      → json_object value ≡ json_object actor
      → value ≡ actor
  same_payload value {actor} h = ap (payload_or value) h

  verified_claims :
      (token : Text) {actor : RawPayload}
      → text_eq config.node_env (codes "production") ≡ true
      → verify_claims env config token ≡ ok actor
      → IsFrom token actor × IsCurrent actor (now_seconds env config)
  unfolding verify_claims
  verified_claims token production h = on_reject _ _ _ h λ configured h.
      on_bind _ _ h λ claims found h. on_bind _ _ h λ raw read h.
        let (same, current) = validated-IsCurrent (json_object raw) (now_seconds env config) h in
        (
          from_issuer claims production (thrown_or _ _ found)
              (read ∙ ap ok (same_payload raw same)),
          current,
        )

  verified_actor :
      (token : Text) {actor : RawPayload}
      → verify_actor env config token ≡ ok actor
      → IsFrom token actor × IsCurrent actor (now_seconds env config)
  unfolding verify_actor
  verified_actor token h = elim (Bool-cases (text_eq config.node_env (codes "production"))) [
    | inl production ↦
        verified_claims token production (branch_false _ (negated _ production) _ _ h)
    | inr other ↦
        let (signed, current) =
          verify_actor_token-IsSignedToken env.codec token (or_default [] config.actor_token_secret)
            (now_seconds env config) _ (branch_true _ (affirmed _ other) _ _ h) in
        (from_secret other signed, current)
  ]

  activated :
      (marks : HandlerMarks) (authorization : Header) {o : Option RawPayload}
      → activate_actor env config marks authorization ≡ ok o
      → (actor : RawPayload) × ((o ≡ some actor) × IsActor marks authorization actor)
  unfolding activate_actor
  activated marks authorization h = on_bind _ _ h λ token bearer h.
      on_bind _ _ h λ actor verified h. on_reject _ _ _ h λ allowed h.
        let (from, current) = verified_actor token (authorized _ verified) in
        (
          actor,
          (
            sym (ok-injective h),
            record {
              token = token;
              bearer = thrown_or _ _ bearer;
              from = from;
              current = current;
              allowed = not-false _ allowed;
            },
          ),
        )

  -- Why a call of a handler that is not public was let through.
  pub data IsKnown (marks : HandlerMarks) (authorization : Header) (o : Option RawPayload)
      : Type 0 where
    for_platform : marks.platform_only ≡ true → o ≡ none → IsKnown marks authorization o
    for_actor :
        (actor : RawPayload)
        → o ≡ some actor
        → IsActor marks authorization actor
        → IsKnown marks authorization o

  known :
      (marks : HandlerMarks) (api_key authorization : Header) {o : Option RawPayload}
      → activate_known env config marks api_key authorization ≡ ok o
      → (constant_time_equal env.base (header api_key) config.platform_api_key ≡ true)
        × IsKnown marks authorization o
  unfolding activate_known
  known marks api_key authorization h = on_reject _ _ _ h λ keyed h. (
    not-false _ keyed,
    elim (Bool-cases marks.platform_only) [
      | inl platform ↦ for_platform platform (sym (ok-injective (branch_true _ platform _ _ h)))
      | inr other ↦
          let (actor, (same, proof)) = activated marks authorization (branch_false _ other _ _ h) in
          for_actor actor same proof
    ],
  )

  -- If the guard lets a call through to a handler that is not public, the call has the platform's key
  -- (compared by SHA-256), and the handler is the platform's own, or the call has a bearer token whose
  -- actor has every role that the handler requires: outside production a token signed with the
  -- configured secret, in production one that the issuer's keys verify; the payload has a merchant's
  -- UUID, well-formed roles and an expiry after the clock. The actor of the request is that payload.
  pub can_activate-IsKnown :
      (marks : HandlerMarks) (api_key authorization : Header) (o : Option RawPayload)
      → marks.is_public ≡ false
      → can_activate env config marks api_key authorization ≡ ok o
      → (constant_time_equal env.base (header api_key) config.platform_api_key ≡ true)
        × IsKnown marks authorization o
  unfolding can_activate
  can_activate-IsKnown marks api_key authorization o private h =
      known marks api_key authorization (branch_false _ private _ _ h)
