-- ===== src/Review/Decisions/Appended.antt =====
-- What a recorded decision adds.
use alerts_bi.Common.{
  Text, ℕ, ◌+◌, ◌≤◌, ◌≡◌, refl, subst, some, true, false, [], ◌∷◌, ltb, text_eq, ◌==◌, length,
  contains, find_first, arith, Bool-cases, Option-cases, inl, inr,
}
use alerts_bi.Common.Result.{ok}
use alerts_bi.Common.Unicode.{Unicode, strip}
use alerts_bi.Review.Publication.{Publication}
use alerts_bi.Review.Decisions.{
  Subject, Tables, FindingRow, decision_states, note_limit, is_published_run, is_subject,
  decision_of, findings_on, insert_decision, record_decision,
}

-- What the tables say of a decision that has been recorded.
pub record IsRecorded ⦃u : Unicode⦄ (s : Subject) (state remark by : Text) (at : ℕ)
    (t after : Tables) (id : ℕ) : Type 0 where
  pub week : Publication
  pub week_found : find_first (is_published_run s.run_id) t.review.publications ≡ some week
  pub row : FindingRow
  pub row_found : find_first (is_subject s) t.findings ≡ some row
  pub is_finding : contains (findings_on row) s.finding_id ≡ true
  pub known_state : contains decision_states state ≡ true
  pub short_note : length (strip remark) ≤ note_limit
  pub appended :
      after.decisions
      ≡ decision_of s week.team_id state (strip remark) (strip by) at id ∷ t.decisions
  pub numbered : (id ≡ t.next_id) × (after.next_id ≡ id + 1)
  pub kept : (after.findings ≡ t.findings) × (after.review ≡ t.review)

module _ ⦃u : Unicode⦄ where
  recorded :
      (s : Subject) (state remark by : Text) (at : ℕ) (t : Tables) (out : Tables × ℕ)
      → contains decision_states state ≡ true
      → ltb note_limit (length (strip remark)) ≡ false
      → insert_decision s state (strip remark) (strip by) at t ≡ ok out
      → IsRecorded s state remark by at t out.0 out.1
  unfolding insert_decision
  recorded s state remark by at t out known short h =
      elim (Option-cases (find_first (is_published_run s.run_id) t.review.publications)) [
        | inl e ↦ absurd (ground (arith, h, e))
        | inr (week, e) ↦ elim (Option-cases (find_first (is_subject s) t.findings)) [
          | inl f ↦ absurd (ground (arith, h, e, f))
          | inr (row, f) ↦ elim (Bool-cases (contains (findings_on row) s.finding_id)) [
            | inr g ↦ absurd (ground (arith, h, e, f, g))
            | inl g ↦
                let new = decision_of s week.team_id state (strip remark) (strip by) at t.next_id in
                let after : Tables = record t {
                  decisions = new ∷ t.decisions;
                  next_id = t.next_id + 1;
                } in
                let same : (after, t.next_id) ≡ out = ground (arith, h, e, f, g) in
                subst (λ o. IsRecorded s state remark by at t o.0 o.1) same
                  (record {
                    week = week;
                    week_found = e;
                    row = row;
                    row_found = f;
                    is_finding = g;
                    known_state = known;
                    short_note = ground (arith, short);
                    appended = refl;
                    numbered = (refl, refl);
                    kept = (refl, refl);
                  })
          ]
        ]
      ]

  -- A decision is recorded only on a finding of an alert in a week that is published, with a known
  -- state and a note that is not too long; it is put in front of the decisions that there are, which
  -- stay as they were, under the next number, and nothing else changes.
  pub record_decision-IsRecorded :
      (s : Subject) (state remark by : Text) (at : ℕ) (t : Tables) (out : Tables × ℕ)
      → record_decision s state remark by at t ≡ ok out
      → IsRecorded s state remark by at t out.0 out.1
  unfolding record_decision
  record_decision-IsRecorded s state remark by at t out h =
      elim (Bool-cases (contains decision_states state)) [
        | inr a ↦ absurd (ground (arith, h, a))
        | inl a ↦ elim (Bool-cases (strip remark == [])) [
          | inl b ↦ absurd (ground (arith, h, a, b))
          | inr b ↦ elim (Bool-cases (ltb note_limit (length (strip remark)))) [
            | inl c ↦ absurd (ground (arith, h, a, b, c))
            | inr c ↦ elim (Bool-cases (strip by == [])) [
              | inl d ↦ absurd (ground (arith, h, a, b, c, d))
              | inr d ↦ recorded s state remark by at t out a c (ground (arith, h, a, b, c, d))
            ]
          ]
        ]
      ]
