-- ===== src/Domain/ActorToken.antt =====
-- Tokens of actors: createActorToken, verifyActorToken, assertActorTokenPayload and
-- validateActorPayload of packages/domain/src/index.js. JSON, base64url and the HMAC come from
-- outside; of a payload there is what the checks and the guard read.
pub mod Laws
pub mod RoundTrip
use bf_techops.Prelude.{
  ℕ, String, Bool, true, false, not, ◌&&◌, ◌||◌, Option, none, some, List, [], ◌∷◌, ◌++◌, ltb, leb,
  ◌==◌, if◌then◌else◌, length, every,
}
use bf_techops.Js.{Text, JsNumber, nat, neg, other, text_eq, max_safe_integer}
use bf_techops.Failure.{
  Failure, Result, ok, err, coded, invalid_actor_token, reject_if, or_throw, ◌>>=◌, ◌>>◌,
}
use bf_techops.Domain.Webhook.{validate_token_secret, is_hex}

-- A field that may be missing, or not a text.
pub data TextField : Type 0 where
  absent : TextField
  text : Text → TextField
  not_text : TextField

-- The fields of a payload: the merchant as the text that a pattern is tested on, nothing where it is
-- missing or null; the roles, nothing where they are no array.
pub record RawPayload : Type 0 where
  pub actor_merchant_id : Option Text
  pub roles : Option (List TextField)
  pub exp : JsNumber
  pub subject : TextField

pub data JsonValue : Type 0 where
  json_object : RawPayload → JsonValue
  json_other : JsonValue

-- JSON.stringify and JSON.parse, base64url of a text's bytes and back, and the HMAC of a key and a
-- text as `digest("base64url")` gives it.
pub record TokenCodec : Type 0 where
  pub stringify : RawPayload → Text
  pub parse : Text → Option JsonValue
  pub encode : Text → Text
  pub decode : Text → Text
  pub sign : Text → Text → Text

abbrev pub token_error : String → Failure
token_error message = coded invalid_actor_token message

-- Each unit passes its own test, and there are as many as tests.
unfoldable pub matches_all : List (ℕ → Bool) → Text → Bool
matches_all [] [] = true
matches_all [] (c ∷ s) = false
matches_all (p ∷ tests) [] = false
matches_all (p ∷ tests) (c ∷ s) = p c && matches_all tests s

abbrev pub is_dash : ℕ → Bool
is_dash c = c == b'-'

-- `[1-5]` and `[89ab]`
abbrev pub is_version : ℕ → Bool
is_version c = leb b'1' c && leb c b'5'

abbrev pub is_variant : ℕ → Bool
is_variant c = c == b'8' || c == b'9' || c == b'a' || c == b'b' || c == b'A' || c == b'B'

abbrev pub three_hex : List (ℕ → Bool)
three_hex = is_hex ∷ is_hex ∷ is_hex ∷ []

abbrev pub four_hex : List (ℕ → Bool)
four_hex = is_hex ∷ three_hex

-- The pattern of a UUID, letters in either case.
abbrev pub uuid_pattern : List (ℕ → Bool)
uuid_pattern =
    four_hex
    ++ four_hex
    ++ is_dash ∷ four_hex
    ++ is_dash ∷ is_version ∷ three_hex
    ++ is_dash ∷ is_variant ∷ three_hex
    ++ is_dash ∷ four_hex
    ++ four_hex
    ++ four_hex

unfoldable pub is_uuid : Text → Bool
is_uuid s = matches_all uuid_pattern s

abbrev pub text_or_empty : Option Text → Text
text_or_empty none = []
text_or_empty (some s) = s

-- `[a-z0-9:*._-]`, in either case
abbrev pub is_role_unit : ℕ → Bool
is_role_unit c =
    (leb b'a' c && leb c b'z')
    || (leb b'A' c && leb c b'Z')
    || (leb b'0' c && leb c b'9')
    || c == b':'
    || c == b'*'
    || c == b'.'
    || c == b'_'
    || c == b'-'

unfoldable pub is_role : TextField → Bool
is_role absent = false
is_role not_text = false
is_role (text s) = leb 1 (length s) && leb (length s) 80 && every is_role_unit s

unfoldable pub roles_valid : Option (List TextField) → Bool
roles_valid none = false
roles_valid (some roles) = leb 1 (length roles) && leb (length roles) 32 && every is_role roles

unfoldable pub exp_valid : JsNumber → Bool
exp_valid (nat n) = leb n max_safe_integer && leb 1 n
exp_valid (neg n) = false
exp_valid other = false

-- `payload.exp <= nowEpochSeconds`, for an expiry that is an integer.
unfoldable pub expired : ℕ → JsNumber → Bool
expired now (nat n) = leb n now
expired now (neg n) = true
expired now other = false

unfoldable pub subject_valid : TextField → Bool
subject_valid absent = true
subject_valid not_text = false
subject_valid (text s) = leb 1 (length s) && leb (length s) 120

unfoldable pub validate_fields : RawPayload → Bool → ℕ → Result (Unit {0})
validate_fields payload require_future_expiry now = do
  reject_if (not (is_uuid (text_or_empty payload.actor_merchant_id)))
      (token_error "Actor token merchant ID must be a UUID")
  reject_if (not (roles_valid payload.roles)) (token_error "Actor token roles are invalid")
  reject_if (not (exp_valid payload.exp)) (token_error "Actor token expiry is invalid")
  reject_if (require_future_expiry && expired now payload.exp)
      (token_error "Actor token has expired")
  reject_if (not (subject_valid payload.subject)) (token_error "Actor token subject is invalid")

-- `validateActorPayload`, and the payload that it lets through.
unfoldable pub validate_actor_payload : JsonValue → Bool → ℕ → Result RawPayload
validate_actor_payload json_other require_future_expiry now =
    err (token_error "Actor token payload must be an object")
validate_actor_payload (json_object payload) require_future_expiry now =
    validate_fields payload require_future_expiry now >> ok payload

-- `assertActorTokenPayload`, and the payload that it lets through.
abbrev pub assert_actor_token_payload : JsonValue → ℕ → Result RawPayload
assert_actor_token_payload value now = validate_actor_payload value true now

-- `text.split(".")`
abbrev pub onto_first : ℕ → List Text → List Text
onto_first c [] = (c ∷ []) ∷ []
onto_first c (part ∷ parts) = (c ∷ part) ∷ parts

unfoldable pub split_dots : Text → List Text
split_dots [] = [] ∷ []
split_dots (c ∷ s) = let rest = split_dots s in if c == b'.' then [] ∷ rest else onto_first c rest

abbrev pub malformed : Result (Text × Text)
malformed = err (token_error "Malformed actor token")

-- Body and signature: both not empty, and a third part, if any, empty.
unfoldable pub token_parts : List Text → Result (Text × Text)
token_parts [] = malformed
token_parts (body ∷ []) = malformed
token_parts ([] ∷ signature ∷ parts) = malformed
token_parts ((c ∷ body) ∷ [] ∷ parts) = malformed
token_parts ((c ∷ body) ∷ (d ∷ signature) ∷ []) = ok (c ∷ body, d ∷ signature)
token_parts ((c ∷ body) ∷ (d ∷ signature) ∷ [] ∷ parts) = ok (c ∷ body, d ∷ signature)
token_parts ((c ∷ body) ∷ (d ∷ signature) ∷ (e ∷ extra) ∷ parts) = malformed

module _ (codec : TokenCodec) where
  unfoldable pub create_actor_token : RawPayload → Text → Result Text
  create_actor_token payload secret = do
    validate_token_secret secret
    checked ← validate_actor_payload (json_object payload) false 0
    let body = codec.encode (codec.stringify payload)
    ok (body ++ b'.' ∷ codec.sign secret body)

  unfoldable pub verify_actor_token : Text → Text → ℕ → Result RawPayload
  verify_actor_token token secret now = do
    validate_token_secret secret
    parts ← token_parts (split_dots token)
    reject_if (not (text_eq parts.1 (codec.sign secret parts.0)))
        (token_error "Invalid actor token signature")
    payload ←
        or_throw (codec.parse (codec.decode parts.0)) (token_error "Invalid actor token payload")
    validate_actor_payload payload true now
