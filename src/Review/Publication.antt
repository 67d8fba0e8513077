-- ===== src/Review/Publication.antt =====
-- src/review/publication.py: publishing and withdrawing weeks. The two tables are lists of rows, in
-- no particular order: a new row is put in front. The database gives an inserted row the next
-- identity, and a refusal inside the transaction leaves the tables as they were. Messages are left
-- out: a refusal names its reason and the week that it speaks of. Times are naive UTC.
pub mod Separation
pub mod Checks
pub mod Kept
pub mod Withdrawn
pub mod Added
use alerts_bi.Common.{
  Text, ℕ, zero, suc, codes, ◌+◌, ◌-◌, ◌++◌, min, max, Option, none, some, Bool, true, false, not,
  ◌||◌, ◌&&◌, List, [], ◌∷◌, if◌then◌else◌, ltb, leb, eqb, text_eq, ◌==◌, length, map, keep, any,
  find_first, is_some,
}
use alerts_bi.Common.Unicode.{Unicode, strip}
use alerts_bi.Common.Result.{Result, ok, err, ◌>>=◌}
use alerts_bi.Domain.Time.{week}

pub record PublishedWeek : Type 0 where
  pub run_id : Text
  pub window_start : ℕ
  pub window_end : ℕ
  pub publication_id : Option ℕ

-- PublicationRefused.
pub data Refusal : Type 0 where
  no_operator no_reason too_long no_run not_completed not_published : Refusal
  not_one_week already_published nothing_to_replace : Refusal
  week_taken overlaps gap_behind gap_ahead : PublishedWeek → Refusal

abbrev pub same_window : PublishedWeek → PublishedWeek → Bool
same_window a b = eqb a.window_start b.window_start && eqb a.window_end b.window_end

-- `[week for week in current if week is not replaced]`: `replaced` is the first with its window.
unfoldable pub without_first : (PublishedWeek → Bool) → List PublishedWeek → List PublishedWeek
without_first p [] = []
without_first p (w ∷ ws) = let rest = without_first p ws in if p w then ws else w ∷ rest

abbrev pub has_overlap : PublishedWeek → PublishedWeek → Bool
has_overlap a b = ltb (max a.window_start b.window_start) (min a.window_end b.window_end)

-- `max(before, key=window_end)`: the first of the latest.
unfoldable pub latest_end : PublishedWeek → List PublishedWeek → PublishedWeek
latest_end best [] = best
latest_end best (w ∷ ws) = latest_end (if ltb best.window_end w.window_end then w else best) ws

-- `min(after, key=window_start)`: the first of the earliest.
unfoldable pub earliest_start : PublishedWeek → List PublishedWeek → PublishedWeek
earliest_start best [] = best
earliest_start best (w ∷ ws) =
    earliest_start (if ltb w.window_start best.window_start then w else best) ws

unfoldable pub check_before : PublishedWeek → List PublishedWeek → Result Refusal (Unit {0})
unfolding latest_end
check_before candidate [] = ok tt
check_before candidate (w ∷ ws) =
    let previous = latest_end w ws in
    if ltb previous.window_end candidate.window_start then err (gap_behind previous) else ok tt

unfoldable pub check_after : PublishedWeek → List PublishedWeek → Result Refusal (Unit {0})
unfolding earliest_start
check_after candidate [] = ok tt
check_after candidate (w ∷ ws) =
    let following = earliest_start w ws in
    if ltb candidate.window_end following.window_start then err (gap_ahead following) else ok tt

unfoldable pub check_gaps : PublishedWeek → List PublishedWeek → Result Refusal (Unit {0})
unfolding check_before check_after
check_gaps candidate others =
    check_before candidate (keep (λ w. leb w.window_end candidate.window_start) others) >>= λ _.
    check_after candidate (keep (λ w. leb candidate.window_end w.window_start) others)

-- What follows the choice of `replaced`.
unfoldable pub check_others :
    PublishedWeek
    → Option PublishedWeek
    → List PublishedWeek
    → Bool
    → Result Refusal (Option PublishedWeek)
unfolding check_gaps
check_others candidate replaced others allow_gap =
    elim (find_first (has_overlap candidate) others) [
      | some w ↦ err (overlaps w)
      | none ↦
          if not allow_gap && not (is_some replaced)
          then (elim (check_gaps candidate others) [ err e ↦ err e | ok _ ↦ ok replaced ])
          else ok replaced
    ]

unfoldable pub check_publication :
    PublishedWeek → List PublishedWeek → Bool → Bool → Result Refusal (Option PublishedWeek)
unfolding check_others without_first
check_publication candidate current replace allow_gap =
    if not (eqb candidate.window_end (candidate.window_start + week))
    then err not_one_week
    else if any (λ w. w.run_id == candidate.run_id) current
    then err already_published
    else (elim (find_first (same_window candidate) current) [
      | some w ↦
          if not replace
          then err (week_taken w)
          else check_others candidate (some w) (without_first (same_window candidate) current)
              allow_gap
      | none ↦
          if replace then err nothing_to_replace else check_others candidate none current allow_gap
    ])

-- A row of `runs`, as far as it is read.
pub record Run : Type 0 where
  pub run_id : Text
  pub team_id : Text
  pub window_start : ℕ
  pub window_end : ℕ
  pub status : Text

pub record Withdrawal : Type 0 where
  pub withdrawn_at : ℕ
  pub withdrawn_by : Text
  pub withdrawn_reason : Text

-- A row of `review_publications`; the three columns on its withdrawal are null together.
pub record Publication : Type 0 where
  pub publication_id : ℕ
  pub run_id : Text
  pub team_id : Text
  pub window_start : ℕ
  pub window_end : ℕ
  pub published_at : ℕ
  pub published_by : Text
  pub review_note : Option Text
  pub withdrawal : Option Withdrawal

pub record Database : Type 0 where
  pub runs : List Run
  pub publications : List Publication
  pub next_id : ℕ

abbrev pub is_current : Publication → Bool
is_current p = not (is_some p.withdrawal)

abbrev pub week_of : Publication → PublishedWeek
week_of p = record {
  run_id = p.run_id;
  window_start = p.window_start;
  window_end = p.window_end;
  publication_id = some p.publication_id;
}

unfoldable pub current_weeks : Text → List Publication → List PublishedWeek
current_weeks team_id rows = map week_of (keep (λ p. p.team_id == team_id && is_current p) rows)

-- `UPDATE ... WHERE publication_id = :publication_id AND withdrawn_at IS NULL`.
unfoldable pub withdraw : Option ℕ → Withdrawal → List Publication → List Publication
withdraw none why rows = rows
withdraw (some id) why rows =
    map
      (λ p.
        if eqb p.publication_id id && is_current p then record p { withdrawal = some why } else p)
      rows

pub record PublishResult : Type 0 where
  pub publication_id : ℕ
  pub run_id : Text
  pub team_id : Text
  pub window_start : ℕ
  pub window_end : ℕ
  pub replaced_run_id : Option Text

abbrev pub note_limit : ℕ
note_limit = 4000

abbrev pub reason_limit : ℕ
reason_limit = 1000

abbrev pub required_text : Refusal → Option Text → Result Refusal Text
required_text refusal none = err refusal
required_text refusal (some t) = ok t

-- The withdrawal of what is replaced.
unfoldable pub replace_week :
    Option PublishedWeek → Text → Text → ℕ → List Publication → List Publication
unfolding withdraw
replace_week none run_id by at rows = rows
replace_week (some w) run_id by at rows =
    withdraw w.publication_id
      (record {
        withdrawn_at = at;
        withdrawn_by = by;
        withdrawn_reason = codes "replaced by run " ++ run_id;
      })
      rows

unfoldable pub insert_publication :
    Text → Run → Option PublishedWeek → Text → Option Text → ℕ → Database → Database × PublishResult
unfolding replace_week
insert_publication run_id run replaced by remark at db = (
  record db {
    publications =
        record {
          publication_id = db.next_id;
          run_id = run_id;
          team_id = run.team_id;
          window_start = run.window_start;
          window_end = run.window_end;
          published_at = at;
          published_by = by;
          review_note = remark;
          withdrawal = none;
        }
        ∷ replace_week replaced run_id by at db.publications;
    next_id = db.next_id + 1;
  },
  record {
    publication_id = db.next_id;
    run_id = run_id;
    team_id = run.team_id;
    window_start = run.window_start;
    window_end = run.window_end;
    replaced_run_id = elim replaced [ none ↦ none | some w ↦ some w.run_id ];
  },
)

-- The body of the transaction.
unfoldable pub publish_checked :
    Text
    → Text
    → Option Text
    → Bool
    → Bool
    → ℕ
    → Database
    → Result Refusal (Database × PublishResult)
unfolding check_publication current_weeks insert_publication
publish_checked run_id by remark replace allow_gap at db =
    elim (find_first (λ (r : Run). r.run_id == run_id) db.runs) [
      | none ↦ err no_run
      | some run ↦
          if not (run.status == codes "completed")
          then err not_completed
          else (elim (check_publication
              (record {
                run_id = run_id;
                window_start = run.window_start;
                window_end = run.window_end;
                publication_id = none;
              })
              (current_weeks run.team_id db.publications) replace allow_gap) [
                | err e ↦ err e
                | ok replaced ↦ ok (insert_publication run_id run replaced by remark at db)
              ])
    ]

unfoldable pub is_published : Database → Text → Bool
is_published db run_id = any (λ p. p.run_id == run_id && is_current p) db.publications

module _ ⦃u : Unicode⦄ where
  unfoldable pub clean : Option Text → ℕ → Result Refusal (Option Text)
  clean none limit = ok none
  clean (some t) limit =
      if strip t == []
      then ok none
      else if ltb limit (length (strip t))
      then err too_long
      else ok (some (strip t))

  unfoldable pub publish_run :
      Text
      → Option Text
      → Option Text
      → Bool
      → Bool
      → ℕ
      → Database
      → Result Refusal (Database × PublishResult)
  unfolding clean publish_checked
  publish_run run_id published_by remark replace allow_gap at db = clean published_by 128 >>= λ by.
      required_text no_operator by >>= λ by. clean remark note_limit >>= λ review_note.
      publish_checked run_id by review_note replace allow_gap at db

  unfoldable pub unpublish_run :
      Text → Option Text → Option Text → ℕ → Database → Result Refusal Database
  unfolding clean
  unpublish_run run_id withdrawn_by reason at db = clean withdrawn_by 128 >>= λ by.
      clean reason reason_limit >>= λ why. required_text no_operator by >>= λ by.
      required_text no_reason why >>= λ why.
      elim (find_first (λ (p : Publication). p.run_id == run_id && is_current p) db.publications) [
        | none ↦ err not_published
        | some current ↦ ok (record db {
          publications =
              map
                (λ p.
                  if eqb p.publication_id current.publication_id
                  then record p {
                    withdrawal =
                        some
                          (record { withdrawn_at = at; withdrawn_by = by; withdrawn_reason = why });
                  }
                  else p)
                db.publications;
        })
      ]
