-- ===== src/Domain/Record.antt =====
-- src/domain/normalize.py: the record onto which both schemas' documents are mapped, its identity
-- and the choice of the representative. Instants are microseconds since 0001-01-01 00:00 UTC.
use alerts_bi.Common.{
  ℕ, Text, Option, none, some, Bool, false, List, [], ◌∷◌, ltb, eqb, text_ltb, ◌==◌, ◌&&◌, ◌||◌,
  if◌then◌else◌, text_eq,
}
use alerts_bi.Common.Result.{Result, ok, err}

-- `"v1"` (Appchi) or `"v2"` (Appchi V2).
pub data Schema : Type 0 where
  v1 v2 : Schema

-- A JSON value that is kept as it came: `None`, a string, or another type, of which only the name
-- is ever read.
pub data Value : Type 0 where
  absent : Value
  text : Text → Value
  other : Text → Value

-- The whole source document is left out: nothing modelled here reads it.
pub record AlertRecord : Type 0 where
  pub schema : Schema
  pub application : Text
  pub key_field : Text
  pub identity : Text
  pub component : Option Text
  pub message : Option Text
  pub severity : Option Text
  pub operator : Option Text
  pub node_name : Option Text
  pub network : Option Text
  pub alert_rule_url : Option Text
  pub provider : Option Text
  pub status : Option Text
  pub impact : Value
  pub runbook_url : Value
  pub environment : Option Text
  pub site : Option Text
  pub time_created : Option Text
  pub timestamp : ℕ
  pub snapshot_date : ℕ
  pub doc_hash : Text

-- `x == "..."` where x may be None.
abbrev pub is_text : Option Text → Text → Bool
is_text none t = false
is_text (some s) t = s == t

pub data EmptyRows : Type 0 where
  zero_rows : EmptyRows

-- The test of the loop in `select_representative`.
abbrev pub replaces : AlertRecord → AlertRecord → Bool
replaces row best =
    ltb best.timestamp row.timestamp
    || (eqb row.timestamp best.timestamp && text_ltb row.doc_hash best.doc_hash)

unfoldable pub best_of : AlertRecord → List AlertRecord → AlertRecord
best_of best [] = best
best_of best (row ∷ rows) = best_of (if replaces row best then row else best) rows

unfoldable pub select_representative : List AlertRecord → Result EmptyRows AlertRecord
select_representative [] = err zero_rows
select_representative (row ∷ rows) = ok (best_of row rows)
