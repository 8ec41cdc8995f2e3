-- ===== src/Audit/Canonical.antt =====
-- The canonical text of a value and its hash (api-worker/src/audit/hash.ts). The keys of an object
-- are taken to be names, not array indices, which JavaScript would list first.
use instant_grant_core.Prelude.{
  ℕ, ◌+◌, ◌/◌, ◌%◌, Bool, true, false, ◌&&◌, ◌||◌, not, ◌==◌, leb, List, [], ◌∷◌, ◌++◌, Text, codes,
  ltb, if◌then◌else◌,
}
use instant_grant_core.Js.{
  Number, Value, undefined, null, boolean, number, string, array, object, Items, nil, cons, Fields,
  end, field,
}

-- What the worker takes from its platform: `digest` gives the bytes of a text's SHA-256.
pub record Platform : Type 0 where
  pub number_text : Number → Text
  pub encode_uri_component : Text → Text
  pub digest : Text → List ℕ

-- The order of `Array.prototype.sort` on texts.
abbrev pub text_lt : Text → Text → Bool
text_lt [] [] = false
text_lt [] (d ∷ t) = true
text_lt (c ∷ s) [] = false
text_lt (c ∷ s) (d ∷ t) = if ltb c d then true else (if ltb d c then false else text_lt s t)

-- A field put before the first field with a later key.
abbrev pub insert_field : Text → Value → Fields → Fields
insert_field k v end = field k v end
insert_field k v (field j w fs) =
    let rest = insert_field k v fs in
    if text_lt j k then field j w rest else field k v (field j w fs)

unfoldable mutual
  pub sort_deep : Value → Value
  sort_deep (array xs) = array (sort_items xs)
  sort_deep (object fs) = object (sort_fields fs)
  sort_deep v = v

  pub sort_items : Items → Items
  sort_items nil = nil
  sort_items (cons v vs) = cons (sort_deep v) (sort_items vs)

  pub sort_fields : Fields → Fields
  sort_fields end = end
  sort_fields (field k v fs) = insert_field k (sort_deep v) (sort_fields fs)

abbrev pub join : Text → List Text → Text
join separator [] = []
join separator (t ∷ []) = t
join separator (t ∷ u ∷ ts) = t ++ (separator ++ join separator (u ∷ ts))

abbrev hex_digit : ℕ → ℕ
hex_digit n = if ltb n 10 then n + b'0' else n + 87

abbrev hex_byte : ℕ → Text
hex_byte b = hex_digit (b / 16) ∷ hex_digit (b % 16) ∷ []

-- A code unit in a JSON text.
abbrev escaped : ℕ → Text
escaped c =
    if c == b'"' || c == 92
    then 92 ∷ c ∷ []
    else if c == 8
    then codes "\\b"
    else if c == 9
    then codes "\\t"
    else if c == 10
    then codes "\\n"
    else if c == 12
    then codes "\\f"
    else if c == 13
    then codes "\\r"
    else if ltb c 32
    then codes "\\u00" ++ hex_byte c
    else c ∷ []

abbrev is_high : ℕ → Bool
is_high c = leb 0xd800 c && leb c 0xdbff

abbrev is_low : ℕ → Bool
is_low c = leb 0xdc00 c && leb c 0xdfff

-- Whether the code unit of a high surrogate makes a pair with the text behind it.
abbrev is_pair : ℕ → Text → Bool
is_pair c [] = false
is_pair c (d ∷ s) = is_high c && is_low d

-- A lone surrogate is escaped.
abbrev escaped_before : ℕ → Text → Text
escaped_before c s =
    if is_pair c s
    then c ∷ []
    else (if is_high c || is_low c
        then codes "\\u" ++ (hex_byte (c / 256) ++ hex_byte (c % 256))
        else escaped c)

-- Behind the first half of a pair comes its second half.
abbrev escape_from : Bool → Text → Text
escape_from paired [] = []
escape_from paired (c ∷ s) =
    (if paired then c ∷ [] else escaped_before c s) ++ escape_from (not paired && is_pair c s) s

abbrev escape_all : Text → Text
escape_all s = escape_from false s

abbrev quoted : Text → Text
quoted s = codes "\"" ++ (escape_all s ++ codes "\"")

abbrev is_undefined : Value → Bool
is_undefined undefined = true
is_undefined _ = false

abbrev truth_text : Bool → Text
truth_text true = codes "true"
truth_text false = codes "false"

module _ (platform : Platform) where
  open platform use {number_text, digest}

  -- `JSON.stringify`: a field that is undefined is left out, an item that is undefined is null.
  unfoldable mutual
    pub stringify : Value → Text
    stringify undefined = codes "null"
    stringify null = codes "null"
    stringify (boolean b) = truth_text b
    stringify (number n) = number_text n
    stringify (string s) = quoted s
    stringify (array xs) = codes "[" ++ (join (codes ",") (item_texts xs) ++ codes "]")
    stringify (object fs) = codes "{" ++ (join (codes ",") (field_texts fs) ++ codes "}")

    pub item_texts : Items → List Text
    item_texts nil = []
    item_texts (cons v vs) = stringify v ∷ item_texts vs

    pub field_texts : Fields → List Text
    field_texts end = []
    field_texts (field k v fs) =
        let rest = field_texts fs in
        if is_undefined v then rest else (quoted k ++ (codes ":" ++ stringify v)) ∷ rest

  unfoldable pub canonicalize : Value → Text
  unfolding sort_deep stringify
  canonicalize v = stringify (sort_deep v)

  abbrev pub hex_bytes : List ℕ → Text
  hex_bytes [] = []
  hex_bytes (b ∷ bs) = hex_byte b ++ hex_bytes bs

  unfoldable pub sha256_hex : Text → Text
  sha256_hex input = hex_bytes (digest input)
