-- ===== src/Hashing/Sorted.antt =====
-- The encoding is that of the value with the keys of its objects sorted, written as they stand.
use alerts_bi.Common.{
  Text, ℕ, suc, codes, ◌≡◌, refl, ap, sym, ◌∙◌, ◌++◌, true, false, List, [], ◌∷◌, map, length,
}
use alerts_bi.Common.Json.{
  Json, null, boolean, number, string, array, object, Items, no_items, item, Fields, no_fields,
  field,
}
use alerts_bi.Common.Sorting.{sorted, gather, sorted-map, sorted-length}
use alerts_bi.Hashing.{
  encode_text, encode_number, encode_parts, count_items, key_ltb, encode_entry, canonical_encode,
  encode_items, encode_fields,
}

abbrev pub fields_of : List (Text × Json) → Fields
fields_of [] = no_fields
fields_of (p ∷ ps) = field p.0 p.1 (fields_of ps)

abbrev pub count_fields : Fields → ℕ
count_fields no_fields = 0
count_fields (field k v fs) = suc (count_fields fs)

-- The value with the keys of its objects sorted, at every depth: what two values share that are
-- equal but for the order of keys.
unfoldable mutual
  pub sort_keys : Json → Json
  sort_keys null = null
  sort_keys (boolean b) = boolean b
  sort_keys (number t) = number t
  sort_keys (string t) = string t
  sort_keys (array vs) = array (sort_items vs)
  sort_keys (object fs) = object (fields_of (sorted key_ltb (sort_entries fs)))

  pub sort_items : Items → Items
  sort_items no_items = no_items
  sort_items (item v vs) = item (sort_keys v) (sort_items vs)

  pub sort_entries : Fields → List (Text × Json)
  sort_entries no_fields = []
  sort_entries (field k v fs) = (k, sort_keys v) ∷ sort_entries fs

-- The encoding without the sorting.
unfoldable mutual
  unfolding encode_number encode_text encode_parts

  pub plain_encode : Json → Text
  plain_encode null = codes "n"
  plain_encode (boolean true) = codes "b1"
  plain_encode (boolean false) = codes "b0"
  plain_encode (number t) = encode_number t
  plain_encode (string t) = encode_text t
  plain_encode (array vs) = encode_parts b'a' (count_items vs) (plain_items vs)
  plain_encode (object fs) = encode_parts b'o' (count_fields fs) (plain_fields fs)

  pub plain_items : Items → Text
  plain_items no_items = []
  plain_items (item v vs) = plain_encode v ++ plain_items vs

  pub plain_fields : Fields → Text
  plain_fields no_fields = []
  plain_fields (field k v fs) = (encode_text k ++ plain_encode v) ++ plain_fields fs

abbrev encode_value : Text × Json → Text × Text
unfolding plain_encode
encode_value p = (p.0, plain_encode p.1)

plain_fields-fields_of :
    (ps : List (Text × Json))
    → plain_fields (fields_of ps) ≡ gather encode_entry (map encode_value ps)
unfolding plain_encode encode_entry
plain_fields-fields_of [] = refl
plain_fields-fields_of (p ∷ ps) =
    ap (λ t. (encode_text p.0 ++ plain_encode p.1) ++ t) (plain_fields-fields_of ps)

count_fields-fields_of :
    (ps : List (Text × Json)) → count_fields (fields_of ps) ≡ length (map encode_value ps)
count_fields-fields_of [] = refl
count_fields-fields_of (p ∷ ps) = ap suc (count_fields-fields_of ps)

count_items-sort_items : (vs : Items) → count_items (sort_items vs) ≡ count_items vs
unfolding sort_keys
count_items-sort_items no_items = refl
count_items-sort_items (item v vs) = ap suc (count_items-sort_items vs)

object_case :
    (es : List (Text × Json)) (entries : List (Text × Text))
    → entries ≡ map encode_value es
    → encode_parts b'o' (length entries) (gather encode_entry (sorted key_ltb entries))
      ≡ plain_encode (object (fields_of (sorted key_ltb es)))
unfolding plain_encode
object_case es entries h =
    let moved : map encode_value (sorted key_ltb es) ≡ sorted key_ltb entries =
      sorted-map key_ltb key_ltb encode_value (λ x y. refl) es ∙ ap (sorted key_ltb) (sym h) in
    let parts = plain_fields-fields_of (sorted key_ltb es) ∙ ap (gather encode_entry) moved in
    let many =
      count_fields-fields_of (sorted key_ltb es)
      ∙ ap length moved
      ∙ sorted-length key_ltb entries in
    rw (parts, many) refl

mutual
  unfolding canonical_encode plain_encode sort_keys

  encode-sort_keys : (v : Json) → canonical_encode v ≡ plain_encode (sort_keys v)
  encode-sort_keys null = refl
  encode-sort_keys (boolean true) = refl
  encode-sort_keys (boolean false) = refl
  encode-sort_keys (number t) = refl
  encode-sort_keys (string t) = refl
  encode-sort_keys (array vs) = rw (encode_items-sort_items vs, count_items-sort_items vs) refl
  encode-sort_keys (object fs) =
      object_case (sort_entries fs) (encode_fields fs) (encode_fields-sort_entries fs)

  encode_items-sort_items : (vs : Items) → encode_items vs ≡ plain_items (sort_items vs)
  encode_items-sort_items no_items = refl
  encode_items-sort_items (item v vs) = rw (encode-sort_keys v, encode_items-sort_items vs) refl

  encode_fields-sort_entries : (fs : Fields) → encode_fields fs ≡ map encode_value (sort_entries fs)
  encode_fields-sort_entries no_fields = refl
  encode_fields-sort_entries (field k v fs) =
      rw (encode-sort_keys v, encode_fields-sort_entries fs) refl

-- The canonical encoding of a value is the plain one of the value with its keys sorted.
pub canonical_encode-sort_keys : (v : Json) → canonical_encode v ≡ plain_encode (sort_keys v)
canonical_encode-sort_keys v = encode-sort_keys v
