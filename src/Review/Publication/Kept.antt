-- ===== src/Review/Publication/Kept.antt =====
-- The weeks of a team from one state of the tables to the next.
use alerts_bi.Common.{
  Text, ℕ, ◌+◌, ◌≡◌, refl, ◌⊎◌, inl, inr, Option, none, some, Bool, true, false, ◌&&◌, List, [],
  ◌∷◌, arith, All, eqb, text_eq, ◌==◌, find_first, Bool-cases, Option-cases, if◌then◌else◌, All-map,
  sym, subst,
}
use alerts_bi.Common.Unicode.{Unicode}
use alerts_bi.Common.Result.{ok, Result-cases}
use alerts_bi.Domain.Time.{week}
use alerts_bi.Review.Publication.{
  PublishedWeek, has_overlap, check_publication, Run, Withdrawal, Publication, Database, is_current,
  week_of, current_weeks, withdraw, PublishResult, replace_week, insert_publication,
  publish_checked, publish_run, clean, note_limit,
}
use alerts_bi.Review.Publication.Separation.{
  IsOneWeek, Apart, IsSeparated, IsNarrowed, IsSeparated-map,
}
use alerts_bi.Review.Publication.Checks.{check_publication-ok, current_weeks-All}

-- A new publication next to those of its team that it does not overlap.
Apart-new :
    (new p : Publication)
    → new.window_end ≡ new.window_start + week
    → IsOneWeek p
    → (new.team_id ≡ p.team_id
        → is_current p ≡ true
        → has_overlap (week_of new) (week_of p) ≡ false)
    → Apart new p
unfolding Apart IsOneWeek
Apart-new new p h one apart same cn cp =
    let a = apart same cp in let o = one cp in ground (arith, h, a, o)

withdraw-IsSeparated :
    (id : Option ℕ) (why : Withdrawal) (ps : List Publication)
    → IsSeparated ps
    → IsSeparated (withdraw id why ps)
unfolding withdraw IsNarrowed
withdraw-IsSeparated none why ps s = s
withdraw-IsSeparated (some id) why ps s = IsSeparated-map _ ps (λ p. ground arith) s

replace_week-IsSeparated :
    (replaced : Option PublishedWeek) (run_id by : Text) (at : ℕ) (ps : List Publication)
    → IsSeparated ps
    → IsSeparated (replace_week replaced run_id by at ps)
unfolding replace_week withdraw
replace_week-IsSeparated none run_id by at ps s = s
replace_week-IsSeparated (some w) run_id by at ps s = withdraw-IsSeparated w.publication_id _ ps s

-- A current publication of the team of `new` does not overlap it, or is what it replaces.
abbrev Allows : Option PublishedWeek → Publication → Publication → Type 0
Allows replaced new p =
    new.team_id ≡ p.team_id
    → is_current p ≡ true
    → (has_overlap (week_of new) (week_of p) ≡ false) ⊎ (replaced ≡ some (week_of p))

Allows-none :
    (new : Publication) (ps : List Publication)
    → new.window_end ≡ new.window_start + week
    → IsSeparated ps
    → All (Allows none new) ps
    → All (Apart new) ps
unfolding IsSeparated
Allows-none new [] h s all = tt
Allows-none new (p ∷ ps) h s all = (
  Apart-new new p h s.0 (λ t c. let a = all.0 t c in ground (arith, a)),
  Allows-none new ps h s.2 all.1,
)

withdraw-Apart :
    (w : PublishedWeek) (id : Option ℕ) (why : Withdrawal) (ps : List Publication)
    (new : Publication)
    → w.publication_id ≡ id
    → new.window_end ≡ new.window_start + week
    → IsSeparated ps
    → All (Allows (some w) new) ps
    → All (Apart new) (withdraw id why ps)
unfolding withdraw IsSeparated Apart
withdraw-Apart w none why [] new e h s all = tt
withdraw-Apart w none why (p ∷ ps) new e h s all = (
  Apart-new new p h s.0 (λ t c. let a = all.0 t c in ground (arith, a, e)),
  withdraw-Apart w none why ps new e h s.2 all.1,
)
withdraw-Apart w (some id) why [] new e h s all = tt
withdraw-Apart w (some id) why (p ∷ ps) new e h s all =
    (withdrawn_Apart, withdraw-Apart w (some id) why ps new e h s.2 all.1)
  where
    withdrawn_Apart :
        Apart new (
          if eqb p.publication_id id && is_current p then record p { withdrawal = some why } else p)
    withdrawn_Apart = elim (Bool-cases (eqb p.publication_id id && is_current p)) [
      | inl q ↦ rw q (λ t cn cp. absurd (cc cp))
      | inr q ↦ rw q (Apart-new new p h s.0 λ t c. let a = all.0 t c in ground (arith, a, e, q, c))
    ]

-- The new publication keeps apart from all that is left current.
replace_week-Apart :
    (replaced : Option PublishedWeek) (run_id by : Text) (at : ℕ) (ps : List Publication)
    (new : Publication)
    → new.window_end ≡ new.window_start + week
    → IsSeparated ps
    → All (Allows replaced new) ps
    → All (Apart new) (replace_week replaced run_id by at ps)
unfolding replace_week
replace_week-Apart none run_id by at ps new h s all = Allows-none new ps h s all
replace_week-Apart (some w) run_id by at ps new h s all =
    withdraw-Apart w w.publication_id _ ps new refl h s all

insert_publication-IsSeparated :
    (run_id : Text) (run : Run) (replaced : Option PublishedWeek) (by : Text) (remark : Option Text)
    (at : ℕ) (db : Database)
    → run.window_end ≡ run.window_start + week
    → All
        (λ w.
          (has_overlap
              (record {
                run_id = run_id;
                window_start = run.window_start;
                window_end = run.window_end;
                publication_id = none;
              })
              w
            ≡ false)
          ⊎ (replaced ≡ some w))
        (current_weeks run.team_id db.publications)
    → IsSeparated db.publications
    → IsSeparated (insert_publication run_id run replaced by remark at db).0.publications
unfolding insert_publication IsSeparated IsOneWeek
insert_publication-IsSeparated run_id run replaced by remark at db h all s = (
  λ c. h,
  replace_week-Apart replaced run_id by at db.publications _ h s (
      All-map db.publications (λ p a t. a (sym t))
        (current_weeks-All _ run.team_id db.publications all)),
  replace_week-IsSeparated replaced run_id by at db.publications s,
)

publish_checked-IsSeparated :
    (run_id by : Text) (remark : Option Text) (replace allow_gap : Bool) (at : ℕ) (db : Database)
    (out : Database × PublishResult)
    → publish_checked run_id by remark replace allow_gap at db ≡ ok out
    → IsSeparated db.publications
    → IsSeparated out.0.publications
unfolding publish_checked
publish_checked-IsSeparated run_id by remark replace allow_gap at db out h s =
    elim (Option-cases (find_first (λ (r : Run). r.run_id == run_id) db.runs)) [
      | inl e ↦ absurd (ground (arith, h, e))
      | inr (run, e) ↦
          let candidate : PublishedWeek = record {
            run_id = run_id;
            window_start = run.window_start;
            window_end = run.window_end;
            publication_id = none;
          } in
          elim (Result-cases (
            check_publication candidate (current_weeks run.team_id db.publications) replace
              allow_gap)) [
                | inl (r, c) ↦ absurd (ground (arith, h, e, c))
                | inr (replaced, c) ↦
                    let done =
                      check_publication-ok candidate (current_weeks run.team_id db.publications)
                        replace allow_gap replaced c in
                    let stored : insert_publication run_id run replaced by remark at db ≡ out =
                      ground (arith, h, e, c) in
                    subst (λ o. IsSeparated o.0.publications) stored
                      (insert_publication-IsSeparated run_id run replaced by remark at db done.0
                        done.1 s)
              ]
    ]

module _ ⦃u : Unicode⦄ where
  -- Publishing keeps the weeks of each team apart: where no two current publications of a team
  -- overlap and each is of a week exactly, that holds after a week is published too, whether it
  -- replaces one or not and with gaps allowed or not.
  pub publish_run-IsSeparated :
      (run_id : Text) (by remark : Option Text) (replace allow_gap : Bool) (at : ℕ) (db : Database)
      (out : Database × PublishResult)
      → publish_run run_id by remark replace allow_gap at db ≡ ok out
      → IsSeparated db.publications
      → IsSeparated out.0.publications
  unfolding publish_run
  publish_run-IsSeparated run_id by remark replace allow_gap at db out h s =
      elim (Result-cases (clean by 128)) [
        | inl (e, c) ↦ absurd (ground (arith, c, h))
        | inr (none, c) ↦ absurd (ground (arith, c, h))
        | inr (some by', c) ↦ elim (Result-cases (clean remark note_limit)) [
          | inl (e, d) ↦ absurd (ground (arith, c, d, h))
          | inr (remark', d) ↦
              publish_checked-IsSeparated run_id by' remark' replace allow_gap at db out
                (ground (arith, c, d, h)) s
        ]
      ]
