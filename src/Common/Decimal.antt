-- ===== src/Common/Decimal.antt =====
-- Python's str(n) of a natural number, and the reading of a number up to a colon that undoes it.
use Prim.Native.Nat.{ℕ, zero, suc, ◌+◌, ◌-◌, ◌*◌, ◌/◌, ◌%◌, ◌<◌, ◌≤◌}
use mathlib.Core.Path.{◌≡◌, refl, ap, ◌∙◌}
use mathlib.Core.List.{[], ◌∷◌, ◌++◌, append_assoc}
use mathlib.Core.Bool.{false}
use mathlib.Core.Logic.{inl, inr}
use native.Mathlib.Omega.{arith}
use alerts_bi.Common.Tests.{if◌then◌else◌, ltb, ltb→lt, eqb, Bool-cases}
use alerts_bi.Common.Texts.{Text}

-- The digits, the last one first taken off; the number itself is more than enough fuel.
unfoldable pub digits : ℕ → ℕ → Text
digits zero n = []
digits (suc fuel) n =
    let before = digits fuel (n / 10) in
    if ltb n 10 then (b'0' + n) ∷ [] else before ++ ((b'0' + n % 10) ∷ [])

unfoldable pub decimal : ℕ → Text
unfolding digits
decimal n = digits (n + 1) n

-- What stands before the first colon, read as a number behind `acc`, and what follows it.
unfoldable pub read_number : ℕ → Text → ℕ × Text
read_number acc [] = (acc, [])
read_number acc (c ∷ cs) =
    let rest = read_number (acc * 10 + (c - b'0')) cs in if eqb c b':' then (acc, cs) else rest

read_number-digit :
    (acc d : ℕ) (t : Text)
    → d < 10
    → read_number acc ((b'0' + d) ∷ t) ≡ read_number (acc * 10 + d) t
unfolding read_number
read_number-digit acc d t h =
    let differs : eqb (b'0' + d) b':' ≡ false = ground arith in
    let value : acc * 10 + (b'0' + d - b'0') ≡ acc * 10 + d = omega arith in
    rw (differs, value) refl

read_number-digits :
    (fuel n : ℕ) (t : Text) → n < fuel → read_number 0 (digits fuel n ++ t) ≡ read_number n t
unfolding digits
read_number-digits zero n t h = absurd (omega arith)
read_number-digits (suc fuel) n t h = elim (Bool-cases (ltb n 10)) [
  | inl e ↦ rw e (read_number-digit 0 n t (ltb→lt n 10 e) ∙ ap (λ m. read_number m t) (omega arith))
  | inr e ↦
      let least : 10 ≤ n = ground (arith, e) in
      let whole : n / 10 * 10 + n % 10 ≡ n = omega arith in
      let shown = append_assoc (digits fuel (n / 10)) ((b'0' + n % 10) ∷ []) t in
      rw (e, shown)
        (read_number-digits fuel (n / 10) ((b'0' + n % 10) ∷ t) (omega (arith, h, least))
          ∙ read_number-digit (n / 10) (n % 10) t (omega arith)
          ∙ ap (λ m. read_number m t) whole)
]

-- A number is read back from its decimal digits and the colon behind them.
pub read_number-decimal : (n : ℕ) (t : Text) → read_number 0 (decimal n ++ (b':' ∷ t)) ≡ (n, t)
unfolding decimal read_number
read_number-decimal n t = read_number-digits (n + 1) n (b':' ∷ t) (omega arith)
