-- ===== src/Suppression/Lexer.antt =====
-- tokenize of src/suppression/lexer.py. The text from the offset `i` on is the argument, and what
-- a round leaves of it is the text from the new offset on.
use alerts_bi.Common.{
  ℕ, zero, suc, ◌+◌, ◌-◌, Text, codes, Option, none, some, Bool, not, List, [], ◌∷◌, ◌++◌, eqb,
  ◌==◌, nat_eq, text_eq, ◌&&◌, ◌||◌, if◌then◌else◌, length, take, drop, starts_with, contains,
  find_first,
}
use alerts_bi.Common.Result.{Result, ok, err, ◌>>=◌}
use alerts_bi.Common.Unicode.{Unicode, strip, upper, is_ascii_letter, is_ascii_digit}
use alerts_bi.Suppression.Token.{
  TokenType, identifier, string, number, operator, punct, keyword, variable, eof, Token, ParseError,
  unterminated_comment, unterminated_string, unterminated_double_bracket, unterminated_bracket,
  unterminated_quoted, unterminated_brace, stray_dollar, unexpected_character, assertion_error,
  out_of_fuel, keywords, operators, punctuation,
}

-- `s.find(p)`: what stands before the first occurrence, and what behind it.
unfoldable pub break_on : Text → Text → Option (Text × Text)
break_on p [] = if starts_with [] p then some ([], []) else none
break_on p (c ∷ s) =
    let rest = break_on p s in
    if starts_with (c ∷ s) p
    then some ([], drop (length p) (c ∷ s))
    else elim rest [ none ↦ none | some (before, after) ↦ some (c ∷ before, after) ]

-- The longest prefix of characters that pass the test, and the rest.
unfoldable pub span_of : (ℕ → Bool) → Text → Text × Text
span_of p [] = ([], [])
span_of p (c ∷ s) = let (run, rest) = span_of p s in if p c then (c ∷ run, rest) else ([], c ∷ s)

-- The loop inside a string literal, behind its opening quote; `''` is an escaped quote.
unfoldable pub scan_string : Text → Option (Text × Text)
scan_string [] = none
scan_string (c ∷ []) = if eqb c b'\'' then some ([], []) else none
scan_string (c ∷ d ∷ s) =
    let escaped = scan_string s in
    let plain = scan_string (d ∷ s) in
    if eqb c b'\''
    then (if eqb d b'\''
        then (elim escaped [ none ↦ none | some (value, rest) ↦ some (b'\'' ∷ value, rest) ])
        else some ([], d ∷ s))
    else (elim plain [ none ↦ none | some (value, rest) ↦ some (c ∷ value, rest) ])

-- One round of the loop: white space or a comment is passed, or a token is read, or it raises.
pub data Round : Type 0 where
  skip : Text → Round
  emit : TokenType → Text → Text → Round
  fail : ParseError → Round

abbrev word_start : ℕ → Bool
word_start c = is_ascii_letter c || eqb c b'_'

abbrev identifier_start : ℕ → Bool
identifier_start c = is_ascii_letter c || contains (codes "_@#") c

-- [A-Za-z0-9_@#$.]
abbrev identifier_rest : ℕ → Bool
identifier_rest c = is_ascii_letter c || is_ascii_digit c || contains (codes "_@#$.") c

-- \$[A-Za-z_][A-Za-z0-9_]*, behind the dollar.
unfoldable pub bare_variable : ℕ → Text → Round
bare_variable i [] = fail (stray_dollar i)
bare_variable i (c ∷ s) =
    let (word, rest) = span_of (λ d. word_start d || is_ascii_digit d) s in
    if word_start c then emit variable (c ∷ word) rest else fail (stray_dollar i)

-- (\.[0-9]+)?
unfoldable pub fraction : Text → Text × Text
fraction (c ∷ s) =
    let (digits, rest) = span_of is_ascii_digit s in
    if eqb c b'.' && not (digits == []) then (c ∷ digits, rest) else ([], c ∷ s)
fraction [] = ([], [])

-- [0-9]+(\.[0-9]+)?
unfoldable pub number_token : Text → Round
number_token s =
    let (digits, rest) = span_of is_ascii_digit s in
    let (decimals, rest') = fraction rest in
    if digits == [] then fail assertion_error else emit number (digits ++ decimals) rest'

module _ ⦃u : Unicode⦄ where
  -- [A-Za-z_@#][A-Za-z0-9_@#$.]*
  unfoldable pub word_token : Text → Round
  word_token [] = fail assertion_error
  word_token (c ∷ s) =
      let (word, rest) = span_of identifier_rest s in
      let raw = c ∷ word in
      if identifier_start c
      then (if contains keywords (upper raw)
          then emit keyword (upper raw) rest
          else emit identifier raw rest)
      else fail assertion_error

  -- `s.split(":")[0]`.
  abbrev before_colon : Text → Text
  before_colon s = (span_of (λ c. not (eqb c b':')) s).0

  unfoldable pub symbol : ℕ → Text → Round
  symbol i [] = fail (unexpected_character i)
  symbol i (c ∷ s) = elim (find_first (starts_with (c ∷ s)) operators) [
    | some op ↦ emit operator op (drop (length op) (c ∷ s))
    | none ↦ if contains punctuation c then emit punct (c ∷ []) s else fail (unexpected_character i)
  ]

  -- The text behind an opening delimiter up to the closing one, as a token.
  unfoldable pub enclosed : TokenType → (Text → Text) → Text → ParseError → Text → Round
  enclosed type value close problem s = elim (break_on close s) [
    | none ↦ fail problem
    | some (inner, rest) ↦ emit type (value inner) rest
  ]

  -- The tests of the loop in their order, at the offset `i`.
  unfoldable pub round : ℕ → Text → Round
  unfolding bare_variable number_token word_token symbol enclosed
  round i [] = fail (unexpected_character i)
  round i (c ∷ s) =
      if u.is_space c
      then skip s
      else if starts_with (c ∷ s) (codes "--")
      then (elim (break_on (10 ∷ []) (c ∷ s)) [
        | none ↦ skip []
        | some (comment, rest) ↦ skip (10 ∷ rest)
      ])
      else if starts_with (c ∷ s) (codes "/*")
      then (elim (break_on (codes "*/") (drop 1 s)) [
        | none ↦ fail (unterminated_comment i)
        | some (comment, rest) ↦ skip rest
      ])
      else if eqb c b'\''
      then (elim (scan_string s) [
        | none ↦ fail (unterminated_string i)
        | some (value, rest) ↦ emit string value rest
      ])
      else if starts_with (c ∷ s) (codes "[[")
      then enclosed variable strip (codes "]]") (unterminated_double_bracket i) (drop 1 s)
      else if eqb c b'['
      then enclosed identifier (λ t. t) (codes "]") (unterminated_bracket i) s
      else if eqb c b'"'
      then enclosed identifier (λ t. t) (b'"' ∷ []) (unterminated_quoted i) s
      else if starts_with (c ∷ s) (codes "${")
      then enclosed variable (λ t. strip (before_colon (strip t))) (codes "}")
          (unterminated_brace i) (drop 1 s)
      else if eqb c b'$'
      then bare_variable i s
      else if u.is_digit c
      then number_token (c ∷ s)
      else if u.is_alpha c || contains (codes "_@#") c
      then word_token (c ∷ s)
      else symbol i (c ∷ s)

  -- The loop. A round passes a character at least, so one more round than there are characters is
  -- enough. The source text of a token is what the round has passed.
  unfoldable pub tokens_from : ℕ → ℕ → Text → Result ParseError (List Token)
  unfolding round
  tokens_from zero i s = err out_of_fuel
  tokens_from (suc fuel) i [] = ok (record { type = eof; value = []; raw = []; start = i } ∷ [])
  tokens_from (suc fuel) i (c ∷ s) = elim (round i (c ∷ s)) [
    | skip rest ↦ tokens_from fuel (i + (length (c ∷ s) - length rest)) rest
    | emit type value rest ↦
        let n = length (c ∷ s) - length rest in
        tokens_from fuel (i + n) rest >>= λ more.
        ok (record { type = type; value = value; raw = take n (c ∷ s); start = i } ∷ more)
    | fail problem ↦ err problem
  ]

  unfoldable pub tokenize : Text → Result ParseError (List Token)
  unfolding tokens_from
  tokenize sql_text = tokens_from (length sql_text + 1) 0 sql_text
