-- ===== src/Review/Publication/Added.antt =====
-- What a publication that replaces nothing adds to the table.
use alerts_bi.Common.{
  Text, ℕ, ◌≡◌, refl, subst, Option, none, some, Bool, false, List, ◌∷◌, map, arith, Bool-cases,
  Option-cases, inl, inr, find_first, ◌==◌, text_eq,
}
use alerts_bi.Common.Unicode.{Unicode}
use alerts_bi.Common.Result.{ok, Result-cases}
use alerts_bi.Review.Publication.{
  Run, Publication, PublishedWeek, Database, PublishResult, publish_run, publish_checked,
  insert_publication, replace_week, check_publication, check_others, check_gaps, same_window,
  has_overlap, current_weeks, clean, note_limit,
}

check_others-none :
    (candidate : PublishedWeek) (others : List PublishedWeek) (allow_gap : Bool)
    (replaced : Option PublishedWeek)
    → check_others candidate none others allow_gap ≡ ok replaced
    → replaced ≡ none
unfolding check_others
check_others-none candidate others allow_gap replaced h =
    elim (Option-cases (find_first (has_overlap candidate) others)) [
      | inl e ↦ elim (Result-cases (check_gaps candidate others)) [
        | inl (r, g) ↦ elim (Bool-cases allow_gap) [
          | inl a ↦ ground (arith, h, e, a)
          | inr a ↦ absurd (ground (arith, h, e, g, a))
        ]
        | inr (u, g) ↦ ground (arith, h, e, g)
      ]
      | inr (w, e) ↦ absurd (ground (arith, h, e))
    ]

check_publication-none :
    (candidate : PublishedWeek) (current : List PublishedWeek) (allow_gap : Bool)
    (replaced : Option PublishedWeek)
    → check_publication candidate current false allow_gap ≡ ok replaced
    → replaced ≡ none
unfolding check_publication
check_publication-none candidate current allow_gap replaced h =
    elim (Option-cases (find_first (same_window candidate) current)) [
      | inl e ↦ check_others-none candidate current allow_gap replaced (ground (arith, h, e))
      | inr (w, e) ↦ absurd (ground (arith, h, e))
    ]

abbrev pub run_ids : Database → List Text
run_ids db = map (λ (q : Publication). q.run_id) db.publications

insert_publication-run_ids :
    (run_id by : Text) (run : Run) (remark : Option Text) (at : ℕ) (db : Database)
    (replaced : Option PublishedWeek)
    → replaced ≡ none
    → run_ids (insert_publication run_id run replaced by remark at db).0 ≡ run_id ∷ run_ids db
unfolding insert_publication replace_week
insert_publication-run_ids run_id by run remark at db none h = refl
insert_publication-run_ids run_id by run remark at db (some w) h = absurd cc

publish_checked-run_ids :
    (run_id by : Text) (remark : Option Text) (allow_gap : Bool) (at : ℕ) (db : Database)
    (out : Database × PublishResult)
    → publish_checked run_id by remark false allow_gap at db ≡ ok out
    → run_ids out.0 ≡ run_id ∷ run_ids db
unfolding publish_checked
publish_checked-run_ids run_id by remark allow_gap at db out h =
    elim (Option-cases (find_first (λ (r : Run). r.run_id == run_id) db.runs)) [
      | inl e ↦ absurd (ground (arith, h, e))
      | inr (run, e) ↦
          let candidate : PublishedWeek = record {
            run_id = run_id;
            window_start = run.window_start;
            window_end = run.window_end;
            publication_id = none;
          } in
          let current = current_weeks run.team_id db.publications in
          elim (Result-cases (check_publication candidate current false allow_gap)) [
            | inl (r, c) ↦ absurd (ground (arith, h, e, c))
            | inr (replaced, c) ↦
                let stored : insert_publication run_id run replaced by remark at db ≡ out =
                  ground (arith, h, e, c) in
                subst (λ o. run_ids o.0 ≡ run_id ∷ run_ids db) stored
                  (insert_publication-run_ids run_id by run remark at db replaced
                    (check_publication-none candidate current allow_gap replaced c))
          ]
    ]

module _ ⦃u : Unicode⦄ where
  -- A publication that replaces nothing adds its run, and leaves the runs of the others.
  pub publish_run-run_ids :
      (run_id : Text) (by remark : Option Text) (allow_gap : Bool) (at : ℕ) (db : Database)
      (out : Database × PublishResult)
      → publish_run run_id by remark false allow_gap at db ≡ ok out
      → run_ids out.0 ≡ run_id ∷ run_ids db
  unfolding publish_run
  publish_run-run_ids run_id by remark allow_gap at db out h = elim (Result-cases (clean by 128)) [
    | inl (e, c) ↦ absurd (ground (arith, c, h))
    | inr (none, c) ↦ absurd (ground (arith, c, h))
    | inr (some by', c) ↦ elim (Result-cases (clean remark note_limit)) [
      | inl (e, d) ↦ absurd (ground (arith, c, d, h))
      | inr (remark', d) ↦
          publish_checked-run_ids run_id by' remark' allow_gap at db out (ground (arith, c, d, h))
    ]
  ]
