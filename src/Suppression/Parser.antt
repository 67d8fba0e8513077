-- ===== src/Suppression/Parser.antt =====
-- _Parser and parse_panel_sql of src/suppression/parser.py. The parser's state is `pos`; `tokens` is
-- an argument. Each call that may lead back to itself takes a unit of fuel.
use alerts_bi.Common.{
  ℕ, zero, suc, ◌+◌, ◌-◌, min, Text, codes, none, some, Bool, true, false, List, [], ◌∷◌, eqb, ◌==◌,
  text_eq, ◌&&◌, ◌||◌, if◌then◌else◌, length, get_or, get_elem?, contains,
}
use alerts_bi.Common.Result.{Result, ok, err, ◌>>=◌}
use alerts_bi.Suppression.Token.{
  TokenType, identifier, string, number, operator, punct, keyword, eof, Token, ParseError,
  unexpected_token, expected_punct, expected_null, expected_and, dangling_not,
  unsupported_predicate, index_error, out_of_fuel,
}
use alerts_bi.Suppression.Syntax.{
  Operand, field, literal, variable, call, Operands, no_operands, operand, Leaf, comparison,
  in_list, like, is_null, between, call_leaf, Tree, and_node, or_node, not_node, leaf,
}

abbrev pub terminators : List Text
terminators =
    codes "GROUP"
    ∷ codes "ORDER"
    ∷ codes "HAVING"
    ∷ codes "LIMIT"
    ∷ codes "OFFSET"
    ∷ codes "UNION"
    ∷ []

abbrev eof_token : Token
eof_token = record { type = eof; value = []; raw = []; start = 0 }

-- `token.type == "keyword" and token.value == value`.
unfoldable pub is_keyword : Token → Text → Bool
is_keyword t value = elim t.type [ keyword ↦ t.value == value | _ ↦ false ]

unfoldable pub is_punct : Token → Text → Bool
is_punct t value = elim t.type [ punct ↦ t.value == value | _ ↦ false ]

unfoldable pub is_keyword_in : Token → List Text → Bool
is_keyword_in t values = elim t.type [ keyword ↦ contains values t.value | _ ↦ false ]

abbrev Parse {ℓ} : Type ℓ → Type ℓ
Parse A = ℕ → Result ParseError (A × ℕ)

-- `raw.split(".")[-1]`.
unfoldable pub after_last_dot : Text → Text → Text
after_last_dot found [] = found
after_last_dot found (c ∷ s) = after_last_dot (if eqb c b'.' then s else found) s

module _ (tokens : List Token) where
  -- `self.peek(offset)`.
  abbrev pub peek : ℕ → ℕ → Token
  peek offset pos = get_or tokens (min (pos + offset) (length tokens - 1)) eof_token

  abbrev pub next : Parse Token
  next pos = elim (get_elem? tokens pos) [ none ↦ err index_error | some t ↦ ok (t, pos + 1) ]

  abbrev pub match_keyword : Text → ℕ → Bool × ℕ
  match_keyword value pos = if is_keyword (peek 0 pos) value then (true, pos + 1) else (false, pos)

  abbrev pub match_punct : Text → ℕ → Bool × ℕ
  match_punct value pos = if is_punct (peek 0 pos) value then (true, pos + 1) else (false, pos)

  abbrev pub expect_punct : Text → Parse (Unit {0})
  expect_punct value pos =
      if is_punct (peek 0 pos) value
      then ok (tt, pos + 1)
      else err (expected_punct (peek 0 pos).start)

  unfoldable pub at_expression_end : ℕ → Bool
  at_expression_end pos =
      let token = peek 0 pos in
      (elim token.type [ eof ↦ true | _ ↦ false ])
      || is_punct token (codes ")")
      || is_punct token (codes ";")
      || is_keyword_in token terminators

  -- The cases of `parse_operand` on the token that it has taken; `arguments` is the call of
  -- `parse_argument_list` at the position behind it.
  unfoldable pub operand_of :
      Token → ℕ → Result ParseError (Operands × ℕ) → Result ParseError (Operand × ℕ)
  unfolding after_last_dot is_punct is_keyword_in
  operand_of token pos arguments = elim token.type [
    | identifier ↦
        if is_punct (peek 0 pos) (codes "(")
        then (arguments >>= λ (args, pos'). ok (call token.value args false, pos'))
        else ok (field (after_last_dot token.value token.value) token.value, pos)
    | TokenType.variable ↦
        if is_punct (peek 0 pos) (codes "(")
        then (arguments >>= λ (args, pos'). ok (call token.value args true, pos'))
        else ok (variable token.value token.raw, pos)
    | string ↦ ok (literal token.value, pos)
    | number ↦ ok (literal token.value, pos)
    | _ ↦
        if is_keyword_in token (codes "NULL" ∷ codes "TRUE" ∷ codes "FALSE" ∷ [])
        then ok (literal token.value, pos)
        else err (unexpected_token token.start)
  ]

  unfoldable mutual
    pub parse_operand : ℕ → Parse Operand
    parse_operand zero pos = err out_of_fuel
    parse_operand (suc f) pos =
        let arguments = parse_argument_list f (pos + 1) in
        next pos >>= λ (token, pos'). operand_of token pos' arguments

    pub parse_argument_list : ℕ → Parse Operands
    parse_argument_list zero pos = err out_of_fuel
    parse_argument_list (suc f) pos =
        let listed = parse_arguments f (pos + 1) in
        expect_punct (codes "(") pos >>= λ (_, pos').
        if (match_punct (codes ")") pos').0
        then ok (no_operands, (match_punct (codes ")") pos').1)
        else listed

    -- The loop of `parse_argument_list`.
    pub parse_arguments : ℕ → Parse Operands
    parse_arguments zero pos = err out_of_fuel
    parse_arguments (suc f) pos = parse_operand f pos >>= λ (a, pos').
        let more = parse_arguments f (pos' + 1) in
        if (match_punct (codes ",") pos').0
        then (more >>= λ (as', pos''). ok (operand a as', pos''))
        else (expect_punct (codes ")") pos' >>= λ (_, pos''). ok (operand a no_operands, pos''))

  -- `parse_predicate` behind its left operand, where the predicate is no bare call.
  unfoldable pub parse_comparison : ℕ → Operand → Parse Leaf
  unfolding is_keyword
  parse_comparison f left pos =
      let negated =
        is_keyword (peek 0 pos) (codes "NOT")
        && is_keyword_in (peek 1 pos) (codes "IN" ∷ codes "LIKE" ∷ codes "BETWEEN" ∷ []) in
      let at = if negated then pos + 1 else pos in
      let token = peek 0 at in
      if is_keyword token (codes "IN")
      then (parse_argument_list f (at + 1) >>= λ (values, end).
          ok (in_list left values negated, end))
      else if is_keyword token (codes "LIKE")
      then (parse_operand f (at + 1) >>= λ (pattern', end). ok (like left pattern' negated, end))
      else if is_keyword token (codes "BETWEEN")
      then (parse_operand f (at + 1) >>= λ (low, middle).
          if is_keyword (peek 0 middle) (codes "AND")
          then (parse_operand f (middle + 1) >>= λ (high, end).
              ok (between left low high negated, end))
          else err (expected_and (peek 0 middle).start))
      else if negated
      then err (dangling_not token.start)
      else (elim token.type [
        | operator ↦
            parse_operand f (at + 1) >>= λ (value, end). ok (comparison left token.value value, end)
        | _ ↦ err (unsupported_predicate token.start)
      ])

  unfoldable pub parse_predicate : ℕ → Parse Leaf
  unfolding parse_operand operand_of parse_comparison at_expression_end
  parse_predicate f pos = parse_operand f pos >>= λ (left, pos').
      let token = peek 0 pos' in
      let rest : Result ParseError (Leaf × ℕ) =
        if is_keyword token (codes "IS")
        then (let negated = is_keyword (peek 0 (pos' + 1)) (codes "NOT") in
            let at = if negated then pos' + 2 else pos' + 1 in
            if is_keyword (peek 0 at) (codes "NULL")
            then ok (is_null left negated, at + 1)
            else err (expected_null (peek 0 at).start))
        else parse_comparison f left pos' in
      elim left [
        | call name args macro ↦
            if at_expression_end pos'
              || is_keyword_in token (codes "AND" ∷ codes "OR" ∷ terminators)
            then ok (call_leaf name args macro, pos')
            else rest
        | _ ↦ rest
      ]

  unfoldable mutual
    pub parse_or : ℕ → Parse Tree
    parse_or zero pos = err out_of_fuel
    parse_or (suc f) pos = parse_and f pos >>= λ (left, pos'). or_loop f left pos'

    pub or_loop : ℕ → Tree → Parse Tree
    or_loop zero left pos = err out_of_fuel
    or_loop (suc f) left pos =
        let more = parse_and f (pos + 1) >>= λ (right, pos'). or_loop f (or_node left right) pos' in
        if is_keyword (peek 0 pos) (codes "OR") then more else ok (left, pos)

    pub parse_and : ℕ → Parse Tree
    parse_and zero pos = err out_of_fuel
    parse_and (suc f) pos = parse_not f pos >>= λ (left, pos'). and_loop f left pos'

    pub and_loop : ℕ → Tree → Parse Tree
    and_loop zero left pos = err out_of_fuel
    and_loop (suc f) left pos =
        let more =
          parse_not f (pos + 1) >>= λ (right, pos'). and_loop f (and_node left right) pos' in
        if is_keyword (peek 0 pos) (codes "AND") then more else ok (left, pos)

    pub parse_not : ℕ → Parse Tree
    parse_not zero pos = err out_of_fuel
    parse_not (suc f) pos =
        let negation = parse_not f (pos + 1) >>= λ (inner, pos'). ok (not_node inner, pos') in
        let primary = parse_primary f pos in
        if is_keyword (peek 0 pos) (codes "NOT") then negation else primary

    pub parse_primary : ℕ → Parse Tree
    parse_primary zero pos = err out_of_fuel
    parse_primary (suc f) pos =
        let inside = parse_or f (pos + 1) >>= λ (inner, pos').
        expect_punct (codes ")") pos' >>= λ (_, pos''). ok (inner, pos'') in
        let predicate = parse_predicate f pos >>= λ (l, pos'). ok (leaf l, pos') in
        if is_punct (peek 0 pos) (codes "(") then inside else predicate
