-- ===== src/Review/Publication/Checks.antt =====
-- What a passed check says of the weeks that are published.
use alerts_bi.Common.{
  Text, ◌+◌, ◌≡◌, ◌⊎◌, inl, inr, Option, none, some, Bool, true, false, ◌&&◌, List, [], ◌∷◌, arith,
  All, text_eq, ◌==◌, find_first, Bool-cases, Option-cases, All-map, sym, subst, text_beq_iff,
}
use alerts_bi.Common.Result.{ok}
use alerts_bi.Domain.Time.{week}
use alerts_bi.Review.Publication.{
  PublishedWeek, same_window, without_first, has_overlap, check_others, check_publication,
  Publication, is_current, week_of, current_weeks,
}

module _ {ℓ} {A : Type ℓ} where
  find_first-none :
      (p : A → Bool) (xs : List A) → find_first p xs ≡ none → All (λ x. p x ≡ false) xs
  find_first-none p [] h = tt
  find_first-none p (x ∷ xs) h = ground (arith, find_first-none p xs)

-- What holds of all but the first holds of each, or it is the first.
without_first-All :
    (p q : PublishedWeek → Bool) (w : PublishedWeek) (ws : List PublishedWeek)
    → find_first p ws ≡ some w
    → All (λ x. q x ≡ false) (without_first p ws)
    → All (λ x. (q x ≡ false) ⊎ (some w ≡ some x)) ws
unfolding without_first
without_first-All p q w [] h all = tt
without_first-All p q w (x ∷ ws) h all = elim (Bool-cases (p x)) [
  | inl e ↦ (inr (sym (rw e at h)), All-map ws (λ x. inl) (rw e at all))
  | inr e ↦ let kept = (rw e at all) in (inl kept.0, without_first-All p q w ws (rw e at h) kept.1)
]

check_others-ok :
    (c : PublishedWeek) (replaced : Option PublishedWeek) (others : List PublishedWeek)
    (allow_gap : Bool) (r : Option PublishedWeek)
    → check_others c replaced others allow_gap ≡ ok r
    → (r ≡ replaced) × All (λ w. has_overlap c w ≡ false) others
unfolding check_others
check_others-ok c replaced others allow_gap r h =
    elim (Option-cases (find_first (has_overlap c) others)) [
      | inl e ↦ (ground (arith, h, e), find_first-none (has_overlap c) others e)
      | inr (w, e) ↦ absurd (ground (arith, h, e))
    ]

-- A week that may be published overlaps no current one but that which it replaces.
pub check_publication-ok :
    (c : PublishedWeek) (current : List PublishedWeek) (replace allow_gap : Bool)
    (replaced : Option PublishedWeek)
    → check_publication c current replace allow_gap ≡ ok replaced
    → (c.window_end ≡ c.window_start + week)
      × All (λ w. (has_overlap c w ≡ false) ⊎ (replaced ≡ some w)) current
unfolding check_publication
check_publication-ok c current replace allow_gap replaced h =
    elim (Option-cases (find_first (same_window c) current)) [
      | inl e ↦
          let checked : check_others c none current allow_gap ≡ ok replaced =
            ground (arith, h, e) in
          (
            ground (arith, h, e),
            All-map current (λ w. inl)
                (check_others-ok c none current allow_gap replaced checked).1,
          )
      | inr (w, e) ↦
          let checked : check_others c (some w) (without_first (same_window c) current) allow_gap
              ≡ ok replaced =
            ground (arith, h, e) in
          let done =
            check_others-ok c (some w) (without_first (same_window c) current) allow_gap replaced
              checked in
          (
            ground (arith, h, e),
            subst (λ r. All (λ v. (has_overlap c v ≡ false) ⊎ (r ≡ some v)) current) (sym done.0)
                (without_first-All (same_window c) (has_overlap c) w current e done.1),
          )
    ]

-- What holds of the current weeks of a team holds of its current publications.
pub current_weeks-All :
    (P : PublishedWeek → Type 0) (team_id : Text) (ps : List Publication)
    → All P (current_weeks team_id ps)
    → All (λ p. p.team_id ≡ team_id → is_current p ≡ true → P (week_of p)) ps
unfolding current_weeks
current_weeks-All P team_id [] all = tt
current_weeks-All P team_id (p ∷ ps) all =
    elim (Bool-cases (p.team_id == team_id && is_current p)) [
      | inl e ↦ let a = (rw e at all) in (λ t c. a.0, current_weeks-All P team_id ps a.1)
      | inr e ↦ (
        λ t c. absurd (ground (arith, e, (text_beq_iff p.team_id team_id).1 t)),
        current_weeks-All P team_id ps (rw e at all),
      )
    ]
