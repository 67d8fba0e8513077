-- ===== src/Suppression/Token.antt =====
-- Token, KEYWORDS and SqlParseError of src/suppression/lexer.py.
use alerts_bi.Common.{ℕ, Text, codes, List, [], ◌∷◌}

pub data TokenType : Type 0 where
  identifier string number operator punct keyword variable eof : TokenType

pub record Token : Type 0 where
  pub type : TokenType
  pub value : Text
  pub raw : Text
  pub start : ℕ

-- What a parse can end with. Each constructor but the last three is a SqlParseError with its
-- message, and the offset where the message has one.
pub data ParseError : Type 0 where
  unterminated_comment unterminated_string unterminated_double_bracket : ℕ → ParseError
  unterminated_bracket unterminated_quoted unterminated_brace stray_dollar : ℕ → ParseError
  unexpected_character unexpected_token expected_punct expected_null expected_and : ℕ → ParseError
  dangling_not unsupported_predicate unparsed_input : ℕ → ParseError
  -- `assert match is not None` and `self.tokens[self.pos]` fail with other exceptions.
  assertion_error index_error : ParseError
  -- No exception of the program: the model's recursion was cut short.
  out_of_fuel : ParseError

abbrev pub keywords : List Text
keywords =
    codes "SELECT"
    ∷ codes "FROM"
    ∷ codes "WHERE"
    ∷ codes "AND"
    ∷ codes "OR"
    ∷ codes "NOT"
    ∷ codes "IN"
    ∷ codes "LIKE"
    ∷ codes "IS"
    ∷ codes "NULL"
    ∷ codes "BETWEEN"
    ∷ codes "GROUP"
    ∷ codes "ORDER"
    ∷ codes "BY"
    ∷ codes "HAVING"
    ∷ codes "LIMIT"
    ∷ codes "OFFSET"
    ∷ codes "AS"
    ∷ codes "JOIN"
    ∷ codes "INNER"
    ∷ codes "LEFT"
    ∷ codes "RIGHT"
    ∷ codes "FULL"
    ∷ codes "OUTER"
    ∷ codes "ON"
    ∷ codes "UNION"
    ∷ codes "DISTINCT"
    ∷ codes "TOP"
    ∷ codes "CASE"
    ∷ codes "WHEN"
    ∷ codes "THEN"
    ∷ codes "ELSE"
    ∷ codes "END"
    ∷ codes "ASC"
    ∷ codes "DESC"
    ∷ codes "TRUE"
    ∷ codes "FALSE"
    ∷ []

-- Longest first, so that `<=` is not read as `<` and `=`.
abbrev pub operators : List Text
operators =
    codes "<="
    ∷ codes ">="
    ∷ codes "<>"
    ∷ codes "!="
    ∷ codes "!<"
    ∷ codes "!>"
    ∷ codes "="
    ∷ codes "<"
    ∷ codes ">"
    ∷ []

abbrev pub punctuation : Text
punctuation = codes "(),;*"
