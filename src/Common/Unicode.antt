-- ===== src/Common/Unicode.antt =====
-- Python's character classes and case mappings over all of Unicode (str.isspace, str.isalpha,
-- str.isdigit, str.lower, str.upper, unicodedata.category) are an interface: the tables come with
-- the interpreter. Its laws say what they answer on ASCII, which is documented and fixed.
use Prim.Native.Nat.{ℕ, ◌<◌, ◌+◌, ◌-◌}
use mathlib.Core.Path.{◌≡◌, refl}
use mathlib.Core.List.{[], ◌∷◌, map, reverse}
use mathlib.Core.Bool.{Bool, ◌&&◌, ◌||◌}
use alerts_bi.Common.Tests.{leb, eqb, if◌then◌else◌}
use alerts_bi.Common.Texts.{Text}

abbrev pub is_ascii_upper : ℕ → Bool
is_ascii_upper c = leb b'A' c && leb c b'Z'

abbrev pub is_ascii_lower : ℕ → Bool
is_ascii_lower c = leb b'a' c && leb c b'z'

abbrev pub is_ascii_letter : ℕ → Bool
is_ascii_letter c = is_ascii_upper c || is_ascii_lower c

-- The class [0-9].
abbrev pub is_ascii_digit : ℕ → Bool
is_ascii_digit c = leb b'0' c && leb c b'9'

-- Tab to carriage return, the four separators 0x1c to 0x1f, and the space.
abbrev pub is_ascii_space : ℕ → Bool
is_ascii_space c = (leb 9 c && leb c 13) || (leb 28 c && leb c 32)

-- The 23 punctuation marks of ASCII: its other marks ($+<=>^`|~) are symbols.
abbrev pub is_ascii_punctuation : ℕ → Bool
is_ascii_punctuation c =
    (leb 33 c && leb c 35)
    || (leb 37 c && leb c 42)
    || (leb 44 c && leb c 47)
    || (leb 58 c && leb c 59)
    || (leb 63 c && leb c 64)
    || (leb 91 c && leb c 93)
    || eqb c 95
    || eqb c 123
    || eqb c 125

abbrev pub ascii_lower : ℕ → ℕ
ascii_lower c = if is_ascii_upper c then c + 32 else c

abbrev pub ascii_upper : ℕ → ℕ
ascii_upper c = if is_ascii_lower c then c - 32 else c

abbrev pub IsAscii : Text → Type 0
IsAscii [] = Unit
IsAscii (c ∷ s) = (c < 128) × IsAscii s

pub record Unicode : Type 0 where
  pub is_space : ℕ → Bool
  pub is_alpha : ℕ → Bool
  pub is_digit : ℕ → Bool
  pub is_punctuation : ℕ → Bool
  pub lower : Text → Text
  pub upper : Text → Text
  pub space_ascii : (c : ℕ) → c < 128 → is_space c ≡ is_ascii_space c
  pub alpha_ascii : (c : ℕ) → c < 128 → is_alpha c ≡ is_ascii_letter c
  pub digit_ascii : (c : ℕ) → c < 128 → is_digit c ≡ is_ascii_digit c
  pub punctuation_ascii : (c : ℕ) → c < 128 → is_punctuation c ≡ is_ascii_punctuation c
  pub lower_ascii : (s : Text) → IsAscii s → lower s ≡ map ascii_lower s
  pub upper_ascii : (s : Text) → IsAscii s → upper s ≡ map ascii_upper s

-- The interface is met by tables that know nothing above ASCII.
instance abbrev pub ascii : Unicode
ascii = record {
  is_space = is_ascii_space;
  is_alpha = is_ascii_letter;
  is_digit = is_ascii_digit;
  is_punctuation = is_ascii_punctuation;
  lower = map ascii_lower;
  upper = map ascii_upper;
  space_ascii = λ c h. refl;
  alpha_ascii = λ c h. refl;
  digit_ascii = λ c h. refl;
  punctuation_ascii = λ c h. refl;
  lower_ascii = λ s h. refl;
  upper_ascii = λ s h. refl;
}

module _ ⦃u : Unicode⦄ where
  -- What `lstrip` leaves.
  abbrev pub lstrip : Text → Text
  lstrip [] = []
  lstrip (c ∷ s) = let rest = lstrip s in if u.is_space c then rest else c ∷ s

  -- `s.strip()`.
  abbrev pub strip : Text → Text
  strip s = reverse (lstrip (reverse (lstrip s)))

  -- `s.lower()`.
  abbrev pub lower : Text → Text
  lower s = u.lower s

  -- `s.upper()`.
  abbrev pub upper : Text → Text
  upper s = u.upper s
