-- ===== src/Scripts/Provision/Input.antt =====
-- scripts/provision-tenant.mjs: the input, from the environment of the process. Which texts are time
-- zones, and the number that stands for a UUID, come from outside.
use bf_techops.Prelude.{
  ℕ, String, Bool, false, not, ◌&&◌, ◌||◌, [], ◌∷◌, ltb, leb, ◌==◌, length, every,
}
use bf_techops.Js.{Text, trim}
use bf_techops.Failure.{Result, ok, error, reject_if, ◌>>=◌, ◌>>◌}
use bf_techops.Config.{ProcessEnv, required}
use bf_techops.Wire.{Uuid}
use bf_techops.Domain.ActorToken.{is_uuid}

pub record ProvisionInput : Type 0 where
  pub change_id : Text
  pub merchant_id : Uuid
  pub merchant_name : Text
  pub store_id : Uuid
  pub store_code : Text
  pub store_name : Text
  pub store_timezone : Text

-- `[A-Z0-9]`
abbrev pub is_code_first : ℕ → Bool
is_code_first c = (leb b'A' c && leb c b'Z') || (leb b'0' c && leb c b'9')

-- `[A-Z0-9][A-Z0-9_-]{1,39}`
unfoldable pub is_store_code : Text → Bool
is_store_code [] = false
is_store_code (c ∷ s) =
    is_code_first c
    && leb 1 (length s)
    && leb (length s) 39
    && every (λ d. is_code_first d || d == b'_' || d == b'-') s

-- `[A-Za-z0-9._:-]{4,80}`
unfoldable pub is_change_id : Text → Bool
is_change_id s =
    leb 4 (length s)
    && leb (length s) 80
    && every
        (λ c.
          is_code_first c
          || (leb b'a' c && leb c b'z')
          || c == b'.'
          || c == b'_'
          || c == b':'
          || c == b'-')
        s

module _ (is_zone : Text → Bool) (uuid_of : Text → Uuid) (vars : ProcessEnv) where
  unfoldable pub bounded : String → ℕ → ℕ → Result Text
  bounded name minimum maximum = do
    value ← required vars name
    reject_if (ltb (length (trim value)) minimum || ltb maximum (length (trim value))) (error name)
    ok (trim value)

  -- `match`
  unfoldable pub matching : String → (Text → Bool) → Result Text
  matching name pattern = do
    value ← required vars name
    reject_if (not (pattern value)) (error name)
    ok value

  unfoldable pub uuid : String → Result Uuid
  uuid name = do value ← matching name is_uuid; ok (uuid_of value)

  unfoldable pub timezone : String → Result Text
  timezone name = do
    value ← bounded name 3 64
    reject_if (not (is_zone value)) (error name)
    ok value

  -- `input`
  unfoldable pub read_input : Result ProvisionInput
  read_input = do
    change_id ← required vars "PROVISIONING_CHANGE_ID"
    merchant_id ← uuid "ROOT_MERCHANT_ID"
    merchant_name ← bounded "ROOT_MERCHANT_NAME" 2 160
    store_id ← uuid "STORE_ID"
    store_code ← matching "STORE_CODE" is_store_code
    store_name ← bounded "STORE_NAME" 2 160
    store_timezone ← timezone "STORE_TIMEZONE"
    reject_if (not (is_change_id change_id))
        (error "PROVISIONING_CHANGE_ID must be a safe ticket or change identifier")
    ok record {
      change_id = change_id;
      merchant_id = merchant_id;
      merchant_name = merchant_name;
      store_id = store_id;
      store_code = store_code;
      store_name = store_name;
      store_timezone = store_timezone;
    }
