-- ===== src/Domain/StableJson.antt =====
-- `stableJson` of packages/domain/src/index.js: JSON with the keys of every object in order.
use bf_techops.Prelude.{
  ℕ, zero, suc, ◌+◌, ◌-◌, ◌/◌, ◌%◌, Bool, true, false, not, ◌&&◌, ◌||◌, List, [], ◌∷◌, ◌++◌, ltb,
  leb, ◌==◌, if◌then◌else◌,
}
use bf_techops.Js.{Text, codes}

-- `num` is an integer that is not negative, the only kind of number in the requests.
mutual
  pub data Json : Type 0 where
    null : Json
    bool : Bool → Json
    num : ℕ → Json
    str : Text → Json
    arr : Items → Json
    obj : Fields → Json

  pub data Items : Type 0 where
    nil : Items
    cons : Json → Items → Items

  pub data Fields : Type 0 where
    end : Fields
    field : Text → Json → Fields → Fields

-- `JSON.stringify` of a number: its decimal digits.
digits_before : ℕ → ℕ → Text → Text
digits_before zero n rest = rest
digits_before (suc fuel) n rest =
    let more = digits_before fuel (n / 10) ((b'0' + n % 10) ∷ rest) in
    if ltb n 10 then (b'0' + n) ∷ rest else more

unfoldable pub decimal : ℕ → Text
unfolding digits_before
decimal n = digits_before (suc n) n []

hex_digit : ℕ → ℕ
hex_digit d = if ltb d 10 then b'0' + d else b'a' + d - 10

unicode_escape : ℕ → Text
unfolding hex_digit
unicode_escape c =
    b'\\'
    ∷ b'u'
    ∷ hex_digit (c / 4096 % 16)
    ∷ hex_digit (c / 256 % 16)
    ∷ hex_digit (c / 16 % 16)
    ∷ hex_digit (c % 16)
    ∷ []

abbrev is_high_surrogate : ℕ → Bool
is_high_surrogate c = leb 0xd800 c && leb c 0xdbff

abbrev is_low_surrogate : ℕ → Bool
is_low_surrogate c = leb 0xdc00 c && leb c 0xdfff

-- One code unit inside the quotes; `paired` says that it is half of a surrogate pair.
escape : Bool → ℕ → Text
unfolding unicode_escape
escape paired c =
    if c == b'"'
    then b'\\' ∷ b'"' ∷ []
    else if c == b'\\'
    then b'\\' ∷ b'\\' ∷ []
    else if c == 8
    then b'\\' ∷ b'b' ∷ []
    else if c == 9
    then b'\\' ∷ b't' ∷ []
    else if c == 10
    then b'\\' ∷ b'n' ∷ []
    else if c == 12
    then b'\\' ∷ b'f' ∷ []
    else if c == 13
    then b'\\' ∷ b'r' ∷ []
    else if ltb c 32
    then unicode_escape c
    else if (is_high_surrogate c || is_low_surrogate c) && not paired
    then unicode_escape c
    else c ∷ []

abbrev starts_low : Text → Bool
starts_low [] = false
starts_low (c ∷ s) = is_low_surrogate c

-- `after_high` says that the code unit before is a high surrogate.
escapes : Bool → Text → Text
unfolding escape
escapes after_high [] = []
escapes after_high (c ∷ s) =
    escape ((is_high_surrogate c && starts_low s) || (is_low_surrogate c && after_high)) c
    ++ escapes (is_high_surrogate c) s

-- `JSON.stringify` of a text
unfoldable pub quoted : Text → Text
unfolding escapes
quoted s = b'"' ∷ (escapes false s ++ b'"' ∷ [])

-- The order of `sort()`: by UTF-16 code units.
unfoldable pub text_leb : Text → Text → Bool
text_leb [] t = true
text_leb (c ∷ s) [] = false
text_leb (c ∷ s) (d ∷ t) = ltb c d || (c == d && text_leb s t)

abbrev Member : Type 0
Member = Text × Text

unfoldable insert_member : Text × Text → List Member → List Member
insert_member m [] = m ∷ []
insert_member m (n ∷ ms) =
    let rest = insert_member m ms in if text_leb m.0 n.0 then m ∷ n ∷ ms else n ∷ rest

unfoldable sort_members : List Member → List Member
unfolding insert_member
sort_members [] = []
sort_members (m ∷ ms) = insert_member m (sort_members ms)

-- The members in braces, the key quoted before its value.
joined : List Member → Text
joined [] = []
joined (m ∷ []) = quoted m.0 ++ b':' ∷ m.1
joined (m ∷ n ∷ ms) = quoted m.0 ++ b':' ∷ (m.1 ++ b',' ∷ joined (n ∷ ms))

joined_items : List Text → Text
joined_items [] = []
joined_items (t ∷ []) = t
joined_items (t ∷ u ∷ ts) = t ++ b',' ∷ joined_items (u ∷ ts)

unfoldable mutual
  unfolding sort_members joined joined_items

  pub stable_json : Json → Text
  stable_json null = codes "null"
  stable_json (bool true) = codes "true"
  stable_json (bool false) = codes "false"
  stable_json (num n) = decimal n
  stable_json (str s) = quoted s
  stable_json (arr items) = b'[' ∷ (joined_items (stable_items items) ++ b']' ∷ [])
  stable_json (obj fields) = b'{' ∷ (joined (sort_members (stable_members fields)) ++ b'}' ∷ [])

  pub stable_items : Items → List Text
  stable_items nil = []
  stable_items (cons j items) = stable_json j ∷ stable_items items

  pub stable_members : Fields → List (Text × Text)
  stable_members end = []
  stable_members (field k j fields) = (k, stable_json j) ∷ stable_members fields
