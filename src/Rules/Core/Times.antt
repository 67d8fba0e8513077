-- ===== src/Rules/Core/Times.antt =====
-- src/rules/core.py: the instant that a row's time of creation states, and the rows that R7 can judge.
use alerts_bi.Common.{
  Text, ℕ, codes, ◌+◌, ◌-◌, ◌≤◌, ◌<◌, ◌≡◌, ◌≢◌, refl, sym, ap, ◌∙◌, ◌↔◌, ◌⊎◌, inl, inr, Option,
  none, some, List, [], ◌∷◌, arith, Bool-cases, Option-cases, text_eq, le→leb, lt→ltb,
  if◌then◌else◌, eqb, nat_eq,
}
use alerts_bi.Common.Result.{Result, ok, Result-cases, ◌>>=◌, bind-ok}
use alerts_bi.Common.Sorting.{gather}
use alerts_bi.Common.Unicode.{Unicode, strip}
use alerts_bi.Domain.Time.{day}
use alerts_bi.Domain.Record.{AlertRecord, Schema, v1, v2}
use alerts_bi.Rules.Text.{is_blank}
use alerts_bi.Rules.Core.{
  Iso, Moment, naive, ahead, behind, Overflow, Offset, instant_of, calendar_end, to_utc,
  subtract_day, expand_zulu, range_problem, time_problem, parse_time_created, evaluate_r7,
  evaluate_core_rules, Problem, missing, unparseable, Finding,
}

-- `Z` as an offset, the other characters as they are.
abbrev pub zulu : ℕ → Text
zulu c = if eqb c b'Z' then codes "+00:00" else c ∷ []

expand_zulu-gather : (s : Text) → expand_zulu s ≡ gather zulu s
unfolding expand_zulu
expand_zulu-gather [] = refl
expand_zulu-gather (c ∷ s) = elim (Bool-cases (eqb c b'Z')) [
  | inl e ↦ ground (arith, e, expand_zulu-gather s)
  | inr e ↦ ground (arith, e, expand_zulu-gather s)
]

-- The instant of a wall clock time: the time less its offset from UTC, within the calendar where
-- there is an offset.
unfoldable pub IsInstant : ℕ → Offset → ℕ → Type 0
IsInstant wall naive created = created ≡ wall
IsInstant wall (ahead o) created = created + o ≡ wall
IsInstant wall (behind o) created = (created ≡ wall + o) × (created < calendar_end)

instant_of-IsInstant :
    (wall : ℕ) (offset : Offset) (created : ℕ)
    → (instant_of wall offset ≡ ok created) ↔ IsInstant wall offset created
unfolding instant_of IsInstant
instant_of-IsInstant wall naive created = ground arith
instant_of-IsInstant wall (ahead o) created = ground arith
instant_of-IsInstant wall (behind o) created = ground arith

module _ ⦃u : Unicode⦄ ⦃iso : Iso⦄ where
  -- The text states a time: stripped and its `Z` written out, it is one in the ISO format.
  unfoldable pub States : Text → ℕ → Type 0
  States t created =
      (m : Moment) × (iso.from_iso (gather zulu (strip t)) ≡ some m)
      × IsInstant m.wall m.offset created

  parse_time_created-some :
      (t : Text) (m : Moment)
      → iso.from_iso (gather zulu (strip t)) ≡ some m
      → parse_time_created t ≡ (instant_of m.wall m.offset >>= λ created. ok (some created))
  unfolding parse_time_created to_utc
  parse_time_created-some t m e =
      let read : iso.from_iso (expand_zulu (strip t)) ≡ some m =
        ap iso.from_iso (expand_zulu-gather (strip t)) ∙ e in
      ground (arith, read)

  parse_time_created-none :
      (t : Text) (created : ℕ)
      → iso.from_iso (gather zulu (strip t)) ≡ none
      → parse_time_created t ≢ ok (some created)
  unfolding parse_time_created
  parse_time_created-none t created e h = ground (arith, h, e, expand_zulu-gather (strip t))

  pub parse_time_created-States :
      (t : Text) (created : ℕ) → (parse_time_created t ≡ ok (some created)) ↔ States t created
  unfolding States
  parse_time_created-States t created = (
    λ h. (elim (Option-cases (iso.from_iso (gather zulu (strip t)))) [
      | inl e ↦ absurd (parse_time_created-none t created e h)
      | inr (m, e) ↦
          let (a, f, g) =
            bind-ok (instant_of m.wall m.offset) _ (some created)
              (sym (parse_time_created-some t m e) ∙ h) in
          let same : a ≡ created = ground (arith, g) in
          (m, e, (instant_of-IsInstant m.wall m.offset created).0 (f ∙ ap ok same))
    ]),
    λ (m, e, at).
        parse_time_created-some t m e
        ∙ ap (λ (r : Result Overflow ℕ). r >>= λ c. ok (some c))
            ((instant_of-IsInstant m.wall m.offset created).1 at),
  )

-- The time has an instant in UTC within the calendar.
unfoldable pub InCalendar : ℕ → Offset → Type 0
InCalendar wall naive = Unit
InCalendar wall (ahead o) = o ≤ wall
InCalendar wall (behind o) = wall + o < calendar_end

instant_of-InCalendar :
    (wall : ℕ) (offset : Offset)
    → InCalendar wall offset
    → (created : ℕ) × (instant_of wall offset ≡ ok created)
unfolding instant_of InCalendar
instant_of-InCalendar wall naive h = (wall, refl)
instant_of-InCalendar wall (ahead o) h = (wall - o, rw (le→leb o wall h) refl)
instant_of-InCalendar wall (behind o) h = (wall + o, rw (lt→ltb (wall + o) calendar_end h) refl)

module _ ⦃u : Unicode⦄ ⦃iso : Iso⦄ where
  -- R7 can judge the row: one of V1 was received a day into the calendar, and a time that it states
  -- has an instant in UTC within the calendar.
  unfoldable pub IsDatable : AlertRecord → Type 0
  IsDatable row =
      row.schema ≡ v1
      → (day ≤ row.timestamp)
        × ((t : Text) (m : Moment)
            → row.time_created ≡ some t
            → iso.from_iso (gather zulu (strip t)) ≡ some m
            → InCalendar m.wall m.offset)

  time_problem-returns :
      (receipt earliest : ℕ) (value : Option Text)
      → ((t : Text) (m : Moment)
          → value ≡ some t
          → iso.from_iso (gather zulu (strip t)) ≡ some m
          → InCalendar m.wall m.offset)
      → (o : Option Problem) × (time_problem receipt earliest value ≡ ok o)
  unfolding time_problem
  time_problem-returns receipt earliest none h = (some missing, refl)
  time_problem-returns receipt earliest (some t) h = elim (Bool-cases (is_blank (some t))) [
    | inl e ↦ (some missing, ground (arith, e))
    | inr e ↦ elim (Option-cases (iso.from_iso (gather zulu (strip t)))) [
      | inl f ↦
          let p : parse_time_created t ≡ ok none =
            unfold parse_time_created in ground (arith, f, expand_zulu-gather (strip t)) in
          (some unparseable, ground (arith, e, p))
      | inr (m, f) ↦
          let (created, at) = instant_of-InCalendar m.wall m.offset (h t m refl f) in
          let p : parse_time_created t ≡ ok (some created) =
            parse_time_created-some t m f
            ∙ ap (λ (r : Result Overflow ℕ). r >>= λ c. ok (some c)) at in
          (range_problem receipt earliest created, ground (arith, e, p))
    ]
  ]

  evaluate_r7-returns :
      (row : AlertRecord) → IsDatable row → (o : Option Finding) × (evaluate_r7 row ≡ ok o)
  unfolding evaluate_r7 subtract_day IsDatable
  evaluate_r7-returns row h = elim (v1-or-v2 row.schema) [
    | inr e ↦ (none, ground (arith, e))
    | inl e ↦
        let received = le→leb day row.timestamp (h e).0 in
        let (o, f) =
          time_problem-returns row.timestamp (row.timestamp - day) row.time_created (h e).1 in
        elim (Result-cases (evaluate_r7 row)) [
          | inr found ↦ found
          | inl (w, g) ↦ absurd (elim (Option-cases o) [
            | inl k ↦ ground (arith, e, received, f, g, k)
            | inr (reason, k) ↦ ground (arith, e, received, f, g, k)
          ])
        ]
  ]
    where
      v1-or-v2 : (s : Schema) → (s ≡ v1) ⊎ (s ≡ v2)
      v1-or-v2 v1 = inl refl
      v1-or-v2 v2 = inr refl

  pub evaluate_core_rules-returns :
      (row : AlertRecord) → IsDatable row → (fs : List Finding) × (evaluate_core_rules row ≡ ok fs)
  unfolding evaluate_core_rules
  evaluate_core_rules-returns row h =
      let (late, e) = evaluate_r7-returns row h in
      elim (Result-cases (evaluate_core_rules row)) [
        | inr found ↦ found
        | inl (w, g) ↦ absurd (ground (arith, e, g))
      ]
