-- ===== src/Hashing/Injective.antt =====
-- No two values share an encoding, but for the order of keys.
use alerts_bi.Common.{
  Text, ℕ, ◌≤◌, ◌≡◌, refl, ap, sym, ◌∙◌, ◌++◌, append_assoc, true, false, [], ◌∷◌, length, arith,
  ◌↔◌,
}
use alerts_bi.Common.Decimal.{decimal, read_number, read_number-decimal}
use alerts_bi.Common.Json.{
  Json, null, boolean, number, string, array, object, Items, no_items, item, Fields, no_fields,
  field,
}
use alerts_bi.Hashing.{
  utf8_width, utf8_length, encode_text, encode_number, encode_parts, count_items, canonical_encode,
}
use alerts_bi.Hashing.Sorted.{
  count_fields, sort_keys, plain_encode, plain_items, plain_fields, canonical_encode-sort_keys,
}

cons-injective : (a b : ℕ) (s t : Text) → a ∷ s ≡ b ∷ t → (a ≡ b) × (s ≡ t)
cons-injective a b s t h = ground (arith, h)

tail-of : (a : ℕ) (s t : Text) → a ∷ s ≡ a ∷ t → s ≡ t
tail-of a s t h = ground (arith, h)

-- A number in front of a colon, and what follows it, are read off.
encode_parts-injective :
    (tag m n : ℕ) (s t r q : Text)
    → encode_parts tag m s ++ r ≡ encode_parts tag n t ++ q
    → (m ≡ n) × (s ++ r ≡ t ++ q)
unfolding encode_parts
encode_parts-injective tag m n s t r q h =
    let line =
      sym (append_assoc (decimal m) (b':' ∷ s) r)
      ∙ tail-of tag _ _ h
      ∙ append_assoc (decimal n) (b':' ∷ t) q in
    let read =
      sym (read_number-decimal m (s ++ r))
      ∙ ap (read_number 0) line
      ∙ read_number-decimal n (t ++ q) in
    (ap (λ p. p.0) read, ap (λ p. p.1) read)

utf8_width-positive : (c : ℕ) → 1 ≤ utf8_width c
unfolding utf8_width
utf8_width-positive c = ground arith

-- Texts of as many bytes at the front of one text are equal.
same_bytes : (s t r q : Text) → utf8_length s ≡ utf8_length t → s ++ r ≡ t ++ q → (s ≡ t) × (r ≡ q)
unfolding utf8_length
same_bytes [] [] r q h k = (refl, k)
same_bytes [] (d ∷ t) r q h k = absurd (omega (arith, h, utf8_width-positive d))
same_bytes (c ∷ s) [] r q h k = absurd (omega (arith, h, utf8_width-positive c))
same_bytes (c ∷ s) (d ∷ t) r q h k =
    let (same, rest) = cons-injective c d (s ++ r) (t ++ q) k in
    let width = ap utf8_width same in
    let (tails, left) = same_bytes s t r q (omega (arith, h, width)) rest in
    (rw (same, tails) refl, left)

same_length : (s t r q : Text) → length s ≡ length t → s ++ r ≡ t ++ q → (s ≡ t) × (r ≡ q)
same_length [] [] r q h k = (refl, k)
same_length [] (d ∷ t) r q h k = absurd (omega (arith, h))
same_length (c ∷ s) [] r q h k = absurd (omega (arith, h))
same_length (c ∷ s) (d ∷ t) r q h k =
    let (same, rest) = cons-injective c d (s ++ r) (t ++ q) k in
    let (tails, left) = same_length s t r q (omega (arith, h)) rest in (rw (same, tails) refl, left)

encode_text-injective :
    (s t r q : Text) → encode_text s ++ r ≡ encode_text t ++ q → (s ≡ t) × (r ≡ q)
unfolding encode_text
encode_text-injective s t r q h =
    let (many, rest) =
      encode_parts-injective b's' (utf8_length s) (utf8_length t) s t r q
        (unfold encode_parts in h) in
    same_bytes s t r q many rest

encode_number-injective :
    (s t r q : Text) → encode_number s ++ r ≡ encode_number t ++ q → (s ≡ t) × (r ≡ q)
unfolding encode_number
encode_number-injective s t r q h =
    let (many, rest) =
      encode_parts-injective b'd' (length s) (length t) s t r q (unfold encode_parts in h) in
    same_length s t r q many rest

-- The first code point of an encoding says which constructor it is of.
abbrev tag_of : Json → ℕ
tag_of null = b'n'
tag_of (boolean b) = b'b'
tag_of (number t) = b'd'
tag_of (string t) = b's'
tag_of (array vs) = b'a'
tag_of (object fs) = b'o'

head_of : Text → ℕ
head_of [] = 0
head_of (c ∷ cs) = c

head-plain_encode : (v : Json) (r : Text) → head_of (plain_encode v ++ r) ≡ tag_of v
unfolding head_of plain_encode encode_number encode_text encode_parts
head-plain_encode null r = refl
head-plain_encode (boolean true) r = refl
head-plain_encode (boolean false) r = refl
head-plain_encode (number t) r = refl
head-plain_encode (string t) r = refl
head-plain_encode (array vs) r = refl
head-plain_encode (object fs) r = refl

same_tag :
    (v w : Json) (r q : Text) → plain_encode v ++ r ≡ plain_encode w ++ q → tag_of v ≡ tag_of w
same_tag v w r q h = sym (head-plain_encode v r) ∙ ap head_of h ∙ head-plain_encode w q

spread : (a b c r : Text) → ((a ++ b) ++ c) ++ r ≡ a ++ (b ++ (c ++ r))
spread a b c r = append_assoc (a ++ b) c r ∙ append_assoc a b (c ++ r)

mutual
  unfolding plain_encode

  plain-injective :
      (v w : Json) (r q : Text) → plain_encode v ++ r ≡ plain_encode w ++ q → (v ≡ w) × (r ≡ q)
  plain-injective null null r q h = (refl, tail-of b'n' r q h)
  plain-injective (boolean true) (boolean true) r q h =
      (refl, tail-of b'1' r q (tail-of b'b' (b'1' ∷ r) (b'1' ∷ q) h))
  plain-injective (boolean false) (boolean false) r q h =
      (refl, tail-of b'0' r q (tail-of b'b' (b'0' ∷ r) (b'0' ∷ q) h))
  plain-injective (boolean true) (boolean false) r q h =
      absurd (ground (arith, tail-of b'b' (b'1' ∷ r) (b'0' ∷ q) h))
  plain-injective (boolean false) (boolean true) r q h =
      absurd (ground (arith, tail-of b'b' (b'0' ∷ r) (b'1' ∷ q) h))
  plain-injective (number s) (number t) r q h =
      let (same, left) = encode_number-injective s t r q h in (ap number same, left)
  plain-injective (string s) (string t) r q h =
      let (same, left) = encode_text-injective s t r q h in (ap string same, left)
  plain-injective (array vs) (array ws) r q h =
      let (many, rest) =
        encode_parts-injective b'a' (count_items vs) (count_items ws) (plain_items vs)
          (plain_items ws) r q h in
      let (same, left) = items-injective vs ws r q many rest in (ap array same, left)
  plain-injective (object fs) (object gs) r q h =
      let (many, rest) =
        encode_parts-injective b'o' (count_fields fs) (count_fields gs) (plain_fields fs)
          (plain_fields gs) r q h in
      let (same, left) = fields-injective fs gs r q many rest in (ap object same, left)
  plain-injective v w r q h = absurd (ground (arith, same_tag v w r q h))

  items-injective :
      (vs ws : Items) (r q : Text)
      → count_items vs ≡ count_items ws
      → plain_items vs ++ r ≡ plain_items ws ++ q
      → (vs ≡ ws) × (r ≡ q)
  items-injective no_items no_items r q n h = (refl, h)
  items-injective no_items (item w ws) r q n h = absurd (omega (arith, n))
  items-injective (item v vs) no_items r q n h = absurd (omega (arith, n))
  items-injective (item v vs) (item w ws) r q n h =
      let line =
        sym (append_assoc (plain_encode v) (plain_items vs) r)
        ∙ h
        ∙ append_assoc (plain_encode w) (plain_items ws) q in
      let (first, rest) = plain-injective v w (plain_items vs ++ r) (plain_items ws ++ q) line in
      let (others, left) = items-injective vs ws r q (omega (arith, n)) rest in
      (rw (first, others) refl, left)

  fields-injective :
      (fs gs : Fields) (r q : Text)
      → count_fields fs ≡ count_fields gs
      → plain_fields fs ++ r ≡ plain_fields gs ++ q
      → (fs ≡ gs) × (r ≡ q)
  fields-injective no_fields no_fields r q n h = (refl, h)
  fields-injective no_fields (field k v gs) r q n h = absurd (omega (arith, n))
  fields-injective (field k v fs) no_fields r q n h = absurd (omega (arith, n))
  fields-injective (field k v fs) (field j w gs) r q n h =
      let line =
        sym (spread (encode_text k) (plain_encode v) (plain_fields fs) r)
        ∙ h
        ∙ spread (encode_text j) (plain_encode w) (plain_fields gs) q in
      let (names, after) = encode_text-injective k j _ _ line in
      let (first, rest) = plain-injective v w (plain_fields fs ++ r) (plain_fields gs ++ q) after in
      let (others, left) = fields-injective fs gs r q (omega (arith, n)) rest in
      (rw (names, first, others) refl, left)

-- Two values have one encoding exactly when they are equal but for the order of their keys, at
-- every depth; so no field can be read across the borders of another.
pub canonical_encode-injective :
    (v w : Json) → (canonical_encode v ≡ canonical_encode w) ↔ (sort_keys v ≡ sort_keys w)
canonical_encode-injective v w = (
  λ h.
      let plain = sym (canonical_encode-sort_keys v) ∙ h ∙ canonical_encode-sort_keys w in
      (plain-injective (sort_keys v) (sort_keys w) [] [] (ap (λ t. t ++ []) plain)).0,
  λ h. canonical_encode-sort_keys v ∙ ap plain_encode h ∙ sym (canonical_encode-sort_keys w),
)
