-- ===== src/Review/Decisions.antt =====
-- src/review/decisions.py: the decisions of people on findings of published weeks. The table is a list
-- of rows, a new one in front; a refusal inside the transaction leaves the tables as they were.
-- Messages are left out. Times are naive UTC; a date is the number of its day.
pub mod Appended
use alerts_bi.Common.{
  Text, ℕ, codes, ◌+◌, ◌/◌, ◌++◌, Option, none, some, Bool, true, false, not, ◌&&◌, ◌||◌, List, [],
  ◌∷◌, if◌then◌else◌, ltb, eqb, text_eq, ◌==◌, length, contains, keep, find_first,
}
use alerts_bi.Common.Result.{Result, ok, err, ◌>>=◌}
use alerts_bi.Common.Sorting.{sorted}
use alerts_bi.Common.Unicode.{Unicode, strip}
use alerts_bi.Domain.Time.{utc_date_key}
use alerts_bi.Review.Publication.{Publication, Database, is_current}

abbrev pub decision_states : List Text
decision_states = codes "pending" ∷ codes "confirmed" ∷ codes "dismissed" ∷ []

abbrev pub note_limit : ℕ
note_limit = 2000

-- DecisionRefused.
pub data Refusal : Type 0 where
  bad_state no_note long_note no_operator not_published no_alert not_a_finding : Refusal
  week_not_named no_such_week : Refusal

-- A row of `alert_findings`, as far as it is read.
pub record FindingRow : Type 0 where
  pub run_id : Text
  pub alert_schema : Text
  pub application : Text
  pub key_field : Text
  pub core_rule_ids : Option Text
  pub readiness_rule_ids : Option Text
  pub quality_state : Text
  pub llm_principle_id : Option Text

-- A row of `finding_decisions`.
pub record Decision : Type 0 where
  pub decision_id : ℕ
  pub team_id : Text
  pub run_id : Text
  pub alert_schema : Text
  pub application : Text
  pub key_field : Text
  pub finding_id : Text
  pub state : Text
  pub remark : Text
  pub decided_at : ℕ
  pub decided_by : Text

pub record Tables : Type 0 where
  pub review : Database
  pub findings : List FindingRow
  pub decisions : List Decision
  pub next_id : ℕ

-- `text.split(",")`, the part under way and what is left.
unfoldable pub split_commas : Text → Text → List Text
split_commas part [] = part ∷ []
split_commas part (c ∷ cs) =
    let cut = split_commas [] cs in
    let longer = split_commas (part ++ (c ∷ [])) cs in if eqb c b',' then part ∷ cut else longer

-- `_split`.
unfoldable pub split_ids : Option Text → List Text
unfolding split_commas
split_ids none = []
split_ids (some t) = keep (λ part. not (part == [])) (split_commas [] t)

-- The model's principle where it raised something.
unfoldable pub raised : FindingRow → List Text
raised row = elim row.llm_principle_id [
  | none ↦ []
  | some p ↦
      if (row.quality_state == codes "llm_flagged" || row.quality_state == codes "needs_review")
        && not (p == [])
      then p ∷ []
      else []
]

unfoldable pub findings_on : FindingRow → List Text
unfolding split_ids raised
findings_on row = split_ids row.core_rule_ids ++ split_ids row.readiness_rule_ids ++ raised row

abbrev pub is_published_run : Text → Publication → Bool
is_published_run run_id p = p.run_id == run_id && is_current p

-- The first row that the second query names; the database's order is not fixed.
unfoldable pub week_of_team : Database → Option Text → Option ℕ → Result Refusal Text
unfolding utc_date_key
week_of_team db (some team) (some date) =
    if team == []
    then err week_not_named
    else (elim (find_first
        (λ (p : Publication).
          p.team_id == team && is_current p && eqb (utc_date_key p.window_end) date)
        db.publications) [ none ↦ err no_such_week | some p ↦ ok p.run_id ])
week_of_team db _ _ = err week_not_named

-- An empty run id counts as none given.
unfoldable pub resolve_published_run :
    Database → Option Text → Option Text → Option ℕ → Result Refusal Text
unfolding week_of_team
resolve_published_run db none team date = week_of_team db team date
resolve_published_run db (some run_id) team date =
    if run_id == []
    then week_of_team db team date
    else (elim (find_first (is_published_run run_id) db.publications) [
      | none ↦ err not_published
      | some p ↦ ok p.run_id
    ])

-- The finding that a decision is about.
pub record Subject : Type 0 where
  pub run_id : Text
  pub alert_schema : Text
  pub application : Text
  pub key_field : Text
  pub finding_id : Text

abbrev pub is_subject : Subject → FindingRow → Bool
is_subject s row =
    row.run_id == s.run_id
    && row.alert_schema == s.alert_schema
    && row.application == s.application
    && row.key_field == s.key_field

abbrev pub decision_of : Subject → Text → Text → Text → Text → ℕ → ℕ → Decision
decision_of s team state remark by at id = record {
  decision_id = id;
  team_id = team;
  run_id = s.run_id;
  alert_schema = s.alert_schema;
  application = s.application;
  key_field = s.key_field;
  finding_id = s.finding_id;
  state = state;
  remark = remark;
  decided_at = at;
  decided_by = by;
}

-- The body of the transaction.
unfoldable pub insert_decision :
    Subject → Text → Text → Text → ℕ → Tables → Result Refusal (Tables × ℕ)
unfolding findings_on
insert_decision s state remark by at t =
    elim (find_first (is_published_run s.run_id) t.review.publications) [
      | none ↦ err not_published
      | some published ↦ elim (find_first (is_subject s) t.findings) [
        | none ↦ err no_alert
        | some row ↦
            if contains (findings_on row) s.finding_id
            then ok (
              record t {
                decisions =
                    decision_of s published.team_id state remark by at t.next_id ∷ t.decisions;
                next_id = t.next_id + 1;
              },
              t.next_id,
            )
            else err not_a_finding
      ]
    ]

module _ ⦃u : Unicode⦄ where
  unfoldable pub record_decision :
      Subject → Text → Text → Text → ℕ → Tables → Result Refusal (Tables × ℕ)
  unfolding insert_decision
  record_decision s state remark decided_by at t =
      let cleaned = strip remark in
      let by = strip decided_by in
      if not (contains decision_states state)
      then err bad_state
      else if cleaned == []
      then err no_note
      else if ltb note_limit (length cleaned)
      then err long_note
      else if by == []
      then err no_operator
      else insert_decision s state cleaned by at t

-- The order of (decided_at, decision_id).
abbrev pub decision_ltb : Decision → Decision → Bool
decision_ltb a b =
    ltb a.decided_at b.decided_at
    || (eqb a.decided_at b.decided_at && ltb a.decision_id b.decision_id)

unfoldable pub list_decisions : Tables → Text → List Decision
list_decisions t team = sorted decision_ltb (keep (λ (d : Decision). d.team_id == team) t.decisions)
