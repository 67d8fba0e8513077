-- ===== src/Hashing.antt =====
-- src/hashing.py: the canonical encoding that every stable identifier is a hash of. A number stands
-- as the text that _number_to_string gives it; SHA-256 is an argument.
pub mod Sorted
pub mod Injective
use alerts_bi.Common.{
  Text, ℕ, zero, suc, codes, ◌+◌, ◌++◌, Bool, true, false, List, [], ◌∷◌, if◌then◌else◌, ltb,
  text_ltb, length,
}
use alerts_bi.Common.Decimal.{decimal}
use alerts_bi.Common.Json.{
  Json, null, boolean, number, string, array, object, Items, no_items, item, Fields, no_fields,
  field,
}
use alerts_bi.Common.Sorting.{sorted, gather}

-- The bytes of a code point in UTF-8.
unfoldable pub utf8_width : ℕ → ℕ
utf8_width c = if ltb c 128 then 1 else if ltb c 2048 then 2 else if ltb c 65536 then 3 else 4

-- `len(value.encode('utf-8'))`.
unfoldable pub utf8_length : Text → ℕ
unfolding utf8_width
utf8_length [] = 0
utf8_length (c ∷ cs) = utf8_width c + utf8_length cs

unfoldable pub encode_text : Text → Text
unfolding utf8_length decimal
encode_text t = b's' ∷ decimal (utf8_length t) ++ (b':' ∷ t)

unfoldable pub encode_number : Text → Text
unfolding decimal
encode_number t = b'd' ∷ decimal (length t) ++ (b':' ∷ t)

-- `f"{tag}{n}:{parts}"`.
unfoldable pub encode_parts : ℕ → ℕ → Text → Text
unfolding decimal
encode_parts tag n parts = tag ∷ decimal n ++ (b':' ∷ parts)

abbrev pub count_items : Items → ℕ
count_items no_items = 0
count_items (item v vs) = suc (count_items vs)

-- A key and what stands for its value.
abbrev pub key_ltb {ℓ} : {A : Type ℓ} → Text × A → Text × A → Bool
key_ltb p q = text_ltb p.0 q.0

abbrev pub encode_entry : Text × Text → Text
unfolding encode_text
encode_entry p = encode_text p.0 ++ p.1

unfoldable mutual
  unfolding encode_number encode_text encode_parts

  pub canonical_encode : Json → Text
  canonical_encode null = codes "n"
  canonical_encode (boolean true) = codes "b1"
  canonical_encode (boolean false) = codes "b0"
  canonical_encode (number t) = encode_number t
  canonical_encode (string t) = encode_text t
  canonical_encode (array vs) = encode_parts b'a' (count_items vs) (encode_items vs)
  canonical_encode (object fs) =
      let entries = encode_fields fs in
      encode_parts b'o' (length entries) (gather encode_entry (sorted key_ltb entries))

  pub encode_items : Items → Text
  encode_items no_items = []
  encode_items (item v vs) = canonical_encode v ++ encode_items vs

  -- The fields in the order of the dict, each value encoded.
  pub encode_fields : Fields → List (Text × Text)
  encode_fields no_fields = []
  encode_fields (field k v fs) = (k, canonical_encode v) ∷ encode_fields fs

-- `sha256_of`, the hash an argument.
unfoldable pub sha256_of : (Text → Text) → Json → Text
unfolding canonical_encode
sha256_of sha256 value = sha256 (canonical_encode value)
