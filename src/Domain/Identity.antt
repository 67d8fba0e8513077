-- ===== src/Domain/Identity.antt =====
-- src/domain/normalize.py: the composite identity of an alert, and its parts read back;
-- src/db/repositories.py: the key of a stored verdict; src/domain/metrics.py: the keys of tuples.
use alerts_bi.Common.{
  Text, ℕ, zero, suc, ◌+◌, ◌-◌, ◌*◌, ◌/◌, ◌%◌, ◌<◌, ◌≤◌, ◌≡◌, refl, ap, ◌∙◌, Option, none, some,
  true, false, [], ◌∷◌, ◌++◌, append_assoc, append-nil, subst, arith, Bool-cases, inl, inr, All,
  All-append, eqb, ltb, ltb→lt, length, take, drop, if◌then◌else◌,
}
use alerts_bi.Common.Decimal.{decimal, digits}
use alerts_bi.Common.Unicode.{is_ascii_digit}

-- `f"{len(p)}:{p}"`.
unfoldable pub prefixed : Text → Text
unfolding decimal
prefixed p = decimal (length p) ++ (b':' ∷ p)

-- `f"{len(a)}:{a}|{len(k)}:{k}"`; no part is None.
unfoldable pub identity_of : Text → Text → Text
unfolding prefixed
identity_of application key_field = prefixed application ++ (b'|' ∷ prefixed key_field)

unfoldable pub verdict_key : Text → Text → Text
unfolding prefixed
verdict_key application key_field = prefixed application ++ (b'|' ∷ prefixed key_field)

-- What stands before the first colon and what follows it; `index` raises where there is none.
unfoldable pub split_at_colon : Text → Option (Text × Text)
split_at_colon [] = none
split_at_colon (c ∷ cs) =
    let rest = split_at_colon cs in
    if eqb c b':' then some ([], cs) else (elim rest [ none ↦ none | some p ↦ some (c ∷ p.0, p.1) ])

-- `int(text)` of digits, behind `acc`; it is taken to raise for anything else.
unfoldable pub int_behind : ℕ → Text → Option ℕ
int_behind acc [] = some acc
int_behind acc (c ∷ cs) =
    let rest = int_behind (acc * 10 + (c - b'0')) cs in if is_ascii_digit c then rest else none

unfoldable pub split_identity : Text → Option (Text × Text)
unfolding split_at_colon int_behind
split_identity identity = elim (split_at_colon identity) [
  | none ↦ none
  | some p ↦ elim (int_behind 0 p.0) [
    | none ↦ none
    | some app_len ↦ elim (split_at_colon (drop (app_len + 1) p.1)) [
      | none ↦ none
      | some q ↦ some (take app_len p.1, q.1)
    ]
  ]
]

digits-All : (fuel n : ℕ) → All (λ c. is_ascii_digit c ≡ true) (digits fuel n)
unfolding digits
digits-All zero n = tt
digits-All (suc fuel) n = elim (Bool-cases (ltb n 10)) [
  | inl e ↦ rw e (ground (arith, ltb→lt n 10 e), tt)
  | inr e ↦
      rw e (All-append _ (digits fuel (n / 10)) _ (digits-All fuel (n / 10)) (ground arith, tt))
]

split_at_colon-digits :
    (ds rest : Text)
    → All (λ c. is_ascii_digit c ≡ true) ds
    → split_at_colon (ds ++ (b':' ∷ rest)) ≡ some (ds, rest)
unfolding split_at_colon
split_at_colon-digits [] rest h = refl
split_at_colon-digits (d ∷ ds) rest h =
    let differs : eqb d b':' ≡ false = ground (arith, h.0) in
    rw (differs, split_at_colon-digits ds rest h.1) refl

int_behind-snoc :
    (acc m d : ℕ) (ds : Text)
    → d < 10
    → int_behind acc ds ≡ some m
    → int_behind acc (ds ++ ((b'0' + d) ∷ [])) ≡ some (m * 10 + d)
unfolding int_behind
int_behind-snoc acc m d [] h k =
    let shown : is_ascii_digit (b'0' + d) ≡ true = ground (arith, h) in
    let same : acc ≡ m = ground (arith, k) in
    let value : acc * 10 + (b'0' + d - b'0') ≡ m * 10 + d = omega (arith, same) in
    rw (shown, value) refl
int_behind-snoc acc m d (c ∷ ds) h k = elim (Bool-cases (is_ascii_digit c)) [
  | inl e ↦ rw e (int_behind-snoc (acc * 10 + (c - b'0')) m d ds h (ground (arith, k, e)))
  | inr e ↦ absurd (ground (arith, k, e))
]

int_behind-digits : (fuel n : ℕ) → n < fuel → int_behind 0 (digits fuel n) ≡ some n
unfolding digits int_behind
int_behind-digits zero n h = absurd (omega arith)
int_behind-digits (suc fuel) n h = elim (Bool-cases (ltb n 10)) [
  | inl e ↦
      let value : 0 * 10 + n ≡ n = omega arith in
      rw e (int_behind-snoc 0 0 n [] (ltb→lt n 10 e) refl ∙ ap some value)
  | inr e ↦
      let least : 10 ≤ n = ground (arith, e) in
      let front = int_behind-digits fuel (n / 10) (omega (arith, h, least)) in
      let whole : n / 10 * 10 + n % 10 ≡ n = omega arith in
      rw e (
        int_behind-snoc 0 (n / 10) (n % 10) (digits fuel (n / 10)) (omega arith) front
        ∙ ap some whole)
]

int_behind-decimal : (n : ℕ) → int_behind 0 (decimal n) ≡ some n
unfolding decimal
int_behind-decimal n = int_behind-digits (n + 1) n (omega arith)

take-length-append : (a r : Text) → take (length a) (a ++ r) ≡ a
take-length-append [] [] = refl
take-length-append [] (c ∷ r) = refl
take-length-append (c ∷ a) r = ap (λ l. c ∷ l) (take-length-append a r)

drop-length-append : (a r : Text) (c : ℕ) → drop (suc (length a)) (a ++ (c ∷ r)) ≡ r
drop-length-append [] r c = refl
drop-length-append (b ∷ a) r c = drop-length-append a r c

split_at_colon-prefixed :
    (p rest : Text) → split_at_colon (prefixed p ++ rest) ≡ some (decimal (length p), p ++ rest)
unfolding prefixed decimal
split_at_colon-prefixed p rest =
    let ds = decimal (length p) in
    rw (append_assoc ds (b':' ∷ p) rest)
      (split_at_colon-digits ds (p ++ rest) (digits-All (length p + 1) (length p)))

-- The parts of an identity are read back from it, whatever characters they hold.
pub split_identity-identity_of :
    (application key_field : Text)
    → split_identity (identity_of application key_field) ≡ some (application, key_field)
unfolding split_identity identity_of
split_identity-identity_of a k =
    let len = length a in
    let first = split_at_colon-prefixed a (b'|' ∷ prefixed k) in
    let read = int_behind-decimal len in
    let second : split_at_colon (prefixed k) ≡ some (decimal (length k), k) =
      subst (λ t. split_at_colon t ≡ some (decimal (length k), k)) (append-nil (prefixed k))
        (split_at_colon-prefixed k [] ∙ ap (λ t. some (decimal (length k), t)) (append-nil k)) in
    let next : len + 1 ≡ suc len = omega arith in
    rw
      (
        split_identity,
        identity_of,
        first,
        read,
        next,
        drop-length-append a (prefixed k) b'|',
        second,
        take-length-append a (b'|' ∷ prefixed k),
      )
      refl
