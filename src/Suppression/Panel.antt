-- ===== src/Suppression/Panel.antt =====
-- parse_panel_sql of src/suppression/parser.py.
use alerts_bi.Common.{
  ℕ, ◌+◌, ◌*◌, Text, codes, Option, none, some, List, [], ◌∷◌, eqb, not, ◌&&◌, if◌then◌else◌,
  length,
}
use alerts_bi.Common.Result.{Result, ok, err, ◌>>=◌}
use alerts_bi.Common.Unicode.{Unicode}
use alerts_bi.Suppression.Token.{Token, ParseError, unparsed_input}
use alerts_bi.Suppression.Lexer.{tokenize}
use alerts_bi.Suppression.Syntax.{Tree}
use alerts_bi.Suppression.Parser.{
  is_keyword, is_punct, peek, at_expression_end, parse_or, parse_predicate,
}

-- `tokens[where_index + 1:]` for the first WHERE at depth 0. `depth` is an integer, which may be
-- negative: it is the parentheses opened less those closed, and 0 where these are as many.
unfoldable pub behind_where : ℕ → ℕ → List Token → Option (List Token)
unfolding is_keyword is_punct
behind_where opened closed [] = none
behind_where opened closed (t ∷ tokens) =
    let opens = is_punct t (codes "(") in
    let closes = not opens && is_punct t (codes ")") in
    let rest =
      behind_where (if opens then opened + 1 else opened) (if closes then closed + 1 else closed)
        tokens in
    if is_keyword t (codes "WHERE") && eqb opened closed then some tokens else rest

-- Fuel for the expression behind WHERE.
abbrev pub expression_fuel : List Token → ℕ
expression_fuel tokens = 8 * length tokens + 8

unfoldable pub parse_where : List Token → Result ParseError Tree
unfolding parse_or parse_predicate
parse_where tokens = parse_or tokens (expression_fuel tokens) 0 >>= λ (tree, pos).
    if at_expression_end tokens pos then ok tree else err (unparsed_input (peek tokens 0 pos).start)

module _ ⦃u : Unicode⦄ where
  -- None if the query has no WHERE clause.
  unfoldable pub parse_panel_sql : Text → Result ParseError (Option Tree)
  unfolding tokenize behind_where parse_where
  parse_panel_sql sql_text = tokenize sql_text >>= λ tokens. elim (behind_where 0 0 tokens) [
    | none ↦ ok none
    | some behind ↦ parse_where behind >>= λ tree. ok (some tree)
  ]
