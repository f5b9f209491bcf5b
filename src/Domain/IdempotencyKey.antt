-- ===== src/Domain/IdempotencyKey.antt =====
-- `normalizeIdempotencyKey` of packages/domain/src/index.js.
use bf_techops.Prelude.{
  ℕ, ◌≤◌, ◌≡◌, refl, Bool, true, false, ◌&&◌, ◌||◌, Option, none, some, [], ◌∷◌, leb, ◌==◌,
  if◌then◌else◌, length, every, arith,
}
use bf_techops.Js.{Text, is_space, trim_start, trim_end, trim}
use bf_techops.Failure.{Failure, Result, ok, err, type_error}

abbrev pub is_alphanumeric : ℕ → Bool
is_alphanumeric c =
    (leb b'A' c && leb c b'Z') || (leb b'a' c && leb c b'z') || (leb b'0' c && leb c b'9')

-- `[A-Za-z0-9._:-]`
unfoldable pub is_key_unit : ℕ → Bool
is_key_unit c = is_alphanumeric c || c == b'.' || c == b'_' || c == b':' || c == b'-'

-- `/^[A-Za-z0-9][A-Za-z0-9._:-]{15,127}$/`
unfoldable pub matches_key : Text → Bool
matches_key [] = false
matches_key (c ∷ s) =
    is_alphanumeric c && every is_key_unit s && leb 15 (length s) && leb (length s) 127

abbrev pub text_or_empty : Option Text → Text
text_or_empty none = []
text_or_empty (some s) = s

unfoldable pub normalize_idempotency_key : Option Text → Result Text
normalize_idempotency_key value =
    let key = trim (text_or_empty value) in
    if matches_key key
    then ok key
    else err (type_error "Idempotency-Key must be 16-128 URL-safe characters")

key_unit_range : (c : ℕ) → is_key_unit c ≡ true → (45 ≤ c) × (c ≤ 122)
unfolding is_key_unit
key_unit_range c h = ground arith

no_space_in_range : (c : ℕ) → 45 ≤ c → c ≤ 122 → is_space c ≡ false
unfolding is_space
no_space_in_range c h k = ground arith

key_unit_is_no_space : (c : ℕ) → is_key_unit c ≡ true → is_space c ≡ false
key_unit_is_no_space c h = let r = key_unit_range c h in no_space_in_range c r.0 r.1

trim_end_keeps : (c : ℕ) (s : Text) → is_space c ≡ false → trim_end s ≡ s → trim_end (c ∷ s) ≡ c ∷ s
unfolding trim_end
trim_end_keeps c [] h e = rw h
trim_end_keeps c (d ∷ s) h e = rw e

trim_end-key : (s : Text) → every is_key_unit s ≡ true → trim_end s ≡ s
trim_end-key [] h = unfold trim_end in refl
trim_end-key (c ∷ s) h =
    trim_end_keeps c s (key_unit_is_no_space c (ground arith)) (trim_end-key s (ground arith))

trim_start-key : (s : Text) → every is_key_unit s ≡ true → trim_start s ≡ s
unfolding trim_start
trim_start-key [] h = refl
trim_start-key (c ∷ s) h =
    let k : is_space c ≡ false = key_unit_is_no_space c (ground arith) in rw k

trim-key : (s : Text) → every is_key_unit s ≡ true → trim s ≡ s
unfolding trim
trim-key s h = rw (trim_start-key s h) (trim_end-key s h)

alphanumeric_is_key_unit : (c : ℕ) → is_alphanumeric c ≡ true → is_key_unit c ≡ true
unfolding is_key_unit
alphanumeric_is_key_unit c h = rw h

matches_key-units :
    (s : Text)
    → matches_key s ≡ true
    → (every is_key_unit s ≡ true) × (16 ≤ length s) × (length s ≤ 128)
unfolding matches_key
matches_key-units [] h = cc
matches_key-units (c ∷ s) h = ground (arith, alphanumeric_is_key_unit c)

accepted :
    (s key : Text) (e : Failure)
    → (if matches_key s then ok s else err e) ≡ ok key
    → (key ≡ s) × (matches_key key ≡ true)
accepted s key e h = ground arith

-- An accepted key has 16 to 128 units, letters, digits and . _ : - only, is the trimmed header, and
-- is its own normal form: a client that sends the stored key again finds the same record.
pub normalize_idempotency_key-normal :
    (value : Option Text) (key : Text)
    → normalize_idempotency_key value ≡ ok key
    → (key ≡ trim (text_or_empty value))
      × (every is_key_unit key ≡ true)
      × (16 ≤ length key)
      × (length key ≤ 128)
      × (normalize_idempotency_key (some key) ≡ ok key)
unfolding normalize_idempotency_key
normalize_idempotency_key-normal value key h =
    let a = accepted (trim (text_or_empty value)) key _ h in
    let units = matches_key-units key a.1 in
    let same : trim key ≡ key = trim-key key units.0 in
    (a.0, units.0, units.1, units.2, rw same (rw a.1))
