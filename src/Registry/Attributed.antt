-- ===== src/Registry/Attributed.antt =====
-- What an accepted registry is: each operator is of one team.
use alerts_bi.Common.{
  Text, ◌≡◌, ◌≢◌, refl, sym, ap, ◌∙◌, subst, Option, none, some, true, false, not, ◌&&◌, Bool-cases,
  List, [], ◌∷◌, ◌++◌, ◌==◌, text_eq, text_beq_iff, inl, inr, All, All-map, arith, contains,
  is_empty, is_some, if◌then◌else◌, text_ltb,
}
use alerts_bi.Common.Result.{ok}
use alerts_bi.Common.Sorting.{sorted-All_back}
use alerts_bi.Domain.Metrics.{distinct_onto}
use alerts_bi.Registry.{
  TeamEntry, Owners, Problem, duplicate_team, no_source_operator, report, owner_of, listed,
  operators, own_operators, claim_operators, check_panels, lacks_operator, check_teams,
  validate_registry,
}
use alerts_bi.Registry.Owners.{IsFree, Keeps, claim_operators-kept}

append-empty : {A : Type 0} (xs ys : List A) → xs ++ ys ≡ [] → (xs ≡ []) × (ys ≡ [])
append-empty [] ys h = (refl, h)
append-empty (x ∷ xs) ys h = absurd (ground (arith, h))

contains-All :
    (P : Text → Type 0) (xs : List Text) (t : Text) → contains xs t ≡ true → All P xs → P t
contains-All P [] t h a = absurd (ground (arith, h))
contains-All P (x ∷ xs) t h a = elim (Bool-cases (t == x)) [
  | inl e ↦ subst P (sym ((text_beq_iff t x).0 e)) a.0
  | inr e ↦ contains-All P xs t (ground (arith, h, e)) a.1
]

distinct_onto-All_back :
    (P : Text → Type 0) (seen xs : List Text)
    → All P (distinct_onto seen xs)
    → All P seen × All P xs
unfolding distinct_onto
distinct_onto-All_back P seen [] h = (h, tt)
distinct_onto-All_back P seen (x ∷ xs) h = elim (Bool-cases (contains seen x)) [
  | inl e ↦
      let rest =
        distinct_onto-All_back P seen xs
          (subst (λ b. All P (distinct_onto (if b then seen else seen ++ (x ∷ [])) xs)) e h) in
      (rest.0, (contains-All P seen x e rest.0, rest.1))
  | inr e ↦
      let rest =
        distinct_onto-All_back P (seen ++ (x ∷ [])) xs
          (subst (λ b. All P (distinct_onto (if b then seen else seen ++ (x ∷ [])) xs)) e h) in
      let split = All-split P seen (x ∷ []) rest.0 in (split.0, (split.1.0, rest.1))
]
  where
    All-split : (P : Text → Type 0) (l m : List Text) → All P (l ++ m) → All P l × All P m
    All-split P [] m h = (tt, h)
    All-split P (a ∷ l) m h = let rest = All-split P l m h.1 in ((h.0, rest.0), rest.1)

own_operators-All :
    (P : Text → Type 0) (team : TeamEntry) → All P (own_operators team) → All P (operators team)
unfolding own_operators
own_operators-All P team h =
    (distinct_onto-All_back P [] (operators team) (sorted-All_back text_ltb P _ h)).1

-- No two teams have one id or share an operator, and each team has an operator.
unfoldable pub IsAttributed : List TeamEntry → Type 0
IsAttributed [] = Unit
IsAttributed (team ∷ teams) =
    (operators team ≢ [])
    × All
        (λ (other : TeamEntry).
          (other.team_id ≢ team.team_id)
          × All (λ operator. All (λ claimed. claimed ≢ operator) (operators team))
              (operators other))
        teams
    × IsAttributed teams

-- The team has another id than those seen, and no operator of another owner.
IsNew : List Text → Owners → TeamEntry → Type 0
IsNew ids seen team =
    (contains ids team.team_id ≡ false) × All (IsFree seen team.team_id) (operators team)

lacks_operator-none : (team : TeamEntry) → lacks_operator team ≡ false → operators team ≢ []
unfolding lacks_operator operators
lacks_operator-none team h = go team.v1_operators team.v2_operator h
  where
    go :
        (ops : List Text) (op : Option Text)
        → (is_empty ops && not (is_some op)) ≡ false
        → ops ++ listed op ≢ []
    go [] none h e = absurd (ground (arith, h))
    go [] (some o) h e = absurd (ground (arith, e))
    go (o ∷ ops) op h e = absurd (ground (arith, e))

Clean : List Text → Owners → TeamEntry → List TeamEntry → Type 0
Clean ids seen team teams =
    let claimed = claim_operators team.team_id (own_operators team) seen in
    (contains ids team.team_id ≡ false)
    × (lacks_operator team ≡ false)
    × (claimed.0 ≡ [])
    × (check_teams (team.team_id ∷ ids) claimed.1 teams ≡ [])

check_teams-Clean :
    (ids : List Text) (seen : Owners) (team : TeamEntry) (teams : List TeamEntry)
    → check_teams ids seen (team ∷ teams) ≡ []
    → Clean ids seen team teams
unfolding check_teams Clean
check_teams-Clean ids seen team teams h =
    let claimed = claim_operators team.team_id (own_operators team) seen in
    let later = check_teams (team.team_id ∷ ids) claimed.1 teams in
    let panels = check_panels team.team_id [] team.panels in
    let parts =
      append-empty (report (contains ids team.team_id) (duplicate_team team.team_id)) _ h in
    let lacks =
      append-empty (report (lacks_operator team) (no_source_operator team.team_id))
        (claimed.0 ++ (panels ++ later)) parts.1 in
    let rest = append-empty claimed.0 (panels ++ later) lacks.1 in
    (ground (arith, parts.0), ground (arith, lacks.0), rest.0, (append-empty panels later rest.1).1)

-- A team that claimed its operators without a problem shares none with one that is new behind it.
IsNew-apart :
    (ids : List Text) (later : Owners) (team other : TeamEntry)
    → All (λ operator. owner_of later operator ≡ some team.team_id) (operators team)
    → IsNew (team.team_id ∷ ids) later other
    → (other.team_id ≢ team.team_id)
      × All (λ operator. All (λ claimed. claimed ≢ operator) (operators team)) (operators other)
unfolding IsNew
IsNew-apart ids later team other owned new =
    let differs : other.team_id ≢ team.team_id =
      λ e. absurd (ground (arith, new.0, (text_beq_iff other.team_id team.team_id).1 e)) in
    (
      differs,
      All-map (operators other)
          (λ operator free.
            All-map (operators team)
              (λ claimed owner same.
                differs (sym (free team.team_id (ap (owner_of later) (sym same) ∙ owner))))
              owned)
          new.1,
    )

IsNew-before :
    (ids : List Text) (seen later : Owners) (team other : TeamEntry)
    → Keeps seen later
    → IsNew (team.team_id ∷ ids) later other
    → IsNew ids seen other
unfolding IsNew
IsNew-before ids seen later team other kept new = (
  ground (arith, new.0),
  All-map (operators other) (λ operator free owner found. free owner (kept operator owner found))
      new.1,
)

check_teams-IsAttributed :
    (ids : List Text) (seen : Owners) (teams : List TeamEntry)
    → check_teams ids seen teams ≡ []
    → All (IsNew ids seen) teams × IsAttributed teams
unfolding IsAttributed Clean IsNew
check_teams-IsAttributed ids seen [] h = (tt, tt)
check_teams-IsAttributed ids seen (team ∷ teams) h =
    let clean = check_teams-Clean ids seen team teams h in
    let claimed = claim_operators team.team_id (own_operators team) seen in
    let own = claim_operators-kept team.team_id (own_operators team) seen clean.2 in
    let rest = check_teams-IsAttributed (team.team_id ∷ ids) claimed.1 teams clean.3 in
    let owned = own_operators-All _ team own.2 in
    (
      (
        (clean.0, own_operators-All _ team own.1),
        All-map teams (λ other. IsNew-before ids seen claimed.1 team other own.0) rest.0,
      ),
      (
        lacks_operator-none team clean.1,
        All-map teams (λ other. IsNew-apart ids claimed.1 team other owned) rest.0,
        rest.1,
      ),
    )

-- A registry that is accepted is returned as it is, and each operator in it is of one team: no two
-- entries have the same team id or an operator in common, be it of either schema, and each has an
-- operator.
pub validate_registry-IsAttributed :
    (teams accepted : List TeamEntry)
    → validate_registry teams ≡ ok accepted
    → (accepted ≡ teams) × IsAttributed teams
unfolding validate_registry
validate_registry-IsAttributed teams accepted h =
    elim (Bool-cases (is_empty (check_teams [] [] teams))) [
      | inl e ↦ (
        ground (arith, h, e),
        (check_teams-IsAttributed [] [] teams (is_empty-nil (check_teams [] [] teams) e)).1,
      )
      | inr e ↦ absurd (ground (arith, h, e))
    ]
  where
    is_empty-nil : (ps : List Problem) → is_empty ps ≡ true → ps ≡ []
    is_empty-nil [] e = refl
    is_empty-nil (p ∷ ps) e = absurd (ground (arith, e))
