-- ===== src/Registry.antt =====
-- src/registry.py: the entries of the teams and the rules across them (validate_registry behind the
-- JSON schema, which is another library's), and the choice of a team. A dictionary is a list of
-- pairs, the latest first; a message is a constructor with the values that it shows. The planning
-- override and the raw entry of a team are left out, which no rule reads.
pub mod Owners
pub mod Attributed
use alerts_bi.Common.{
  Text, codes, Option, none, some, Bool, true, false, not, List, [], ◌∷◌, ◌++◌, map, ◌==◌, text_eq,
  ◌&&◌, ◌||◌, contains, if◌then◌else◌, is_some, is_empty, keep, text_ltb,
}
use alerts_bi.Common.Result.{Result, ok, err}
use alerts_bi.Common.Sorting.{sorted}
use alerts_bi.Domain.Metrics.{distinct_onto}
use alerts_bi.Domain.Record.{Schema, v1, v2}
use alerts_bi.Suppression.Variables.{PanelVariable, Panel}

pub record TeamEntry : Type 0 where
  pub team_id : Text
  pub display_name : Text
  pub v1_operators : List Text
  pub v2_operator : Option Text
  pub panels : List Panel
  pub weekly_review : Bool

abbrev same_schema : Schema → Schema → Bool
same_schema v1 v1 = true
same_schema v1 v2 = false
same_schema v2 v1 = false
same_schema v2 v2 = true

unfoldable pub panels_for : TeamEntry → Schema → List Panel
panels_for team schema = keep (λ (p : Panel). same_schema p.schema schema) team.panels

pub data Problem : Type 0 where
  duplicate_team : Text → Problem
  no_source_operator : Text → Problem
  -- The operator, its owner and the team that claims it too.
  claimed_by_both : Text → Text → Text → Problem
  -- The team and the panel.
  duplicate_panel : Text → Text → Problem
  -- The team, the panel and the variable.
  defined_twice : Text → Text → Text → Problem
  has_no_value has_no_values : Text → Text → Text → Problem

abbrev pub Owners : Type 0
Owners = List (Text × Text)

-- `seen_operators.get`.
unfoldable pub owner_of : Owners → Text → Option Text
owner_of [] operator = none
owner_of (entry ∷ seen) operator =
    let rest = owner_of seen operator in if entry.0 == operator then some entry.1 else rest

-- The owner of an operator, where it is another team.
unfoldable pub other_owner : Owners → Text → Text → Option Text
unfolding owner_of
other_owner seen team operator = elim (owner_of seen operator) [
  | none ↦ none
  | some owner ↦ if owner == team then none else some owner
]

abbrev pub listed : Option Text → List Text
listed none = []
listed (some t) = t ∷ []

-- The operators of both schemas.
unfoldable pub operators : TeamEntry → List Text
operators team = team.v1_operators ++ listed team.v2_operator

-- `sorted(own)`.
unfoldable pub own_operators : TeamEntry → List Text
unfolding operators distinct_onto
own_operators team = sorted text_ltb (distinct_onto [] (operators team))

-- The loop over the operators of a team: the problems and the owners behind it.
unfoldable pub claim_operators : Text → List Text → Owners → List Problem × Owners
claim_operators team [] seen = ([], seen)
claim_operators team (operator ∷ rest) seen = elim (other_owner seen team operator) [
  | none ↦ claim_operators team rest ((operator, team) ∷ seen)
  | some owner ↦
      let later = claim_operators team rest seen in
      (claimed_by_both operator owner team ∷ later.0, later.1)
]

abbrev pub report : Bool → Problem → List Problem
report found problem = if found then problem ∷ [] else []

unfoldable pub variable_problems : Text → Text → PanelVariable → List Problem
variable_problems team panel v =
    report ((v.type == codes "constant" || v.type == codes "interval") && not (is_some v.value))
      (has_no_value team panel v.name)
    ++ report (v.type == codes "custom" && not (is_some v.values)) (has_no_values team panel v.name)

unfoldable pub check_variables : Text → Text → List Text → List PanelVariable → List Problem
unfolding variable_problems
check_variables team panel names [] = []
check_variables team panel names (v ∷ vs) =
    report (contains names v.name) (defined_twice team panel v.name)
    ++ (variable_problems team panel v ++ check_variables team panel (v.name ∷ names) vs)

unfoldable pub check_panels : Text → List Text → List Panel → List Problem
unfolding check_variables
check_panels team ids [] = []
check_panels team ids (p ∷ ps) =
    report (contains ids p.panel_id) (duplicate_panel team p.panel_id)
    ++ (check_variables team p.panel_id [] p.variables ++ check_panels team (p.panel_id ∷ ids) ps)

unfoldable pub lacks_operator : TeamEntry → Bool
lacks_operator team = is_empty team.v1_operators && not (is_some team.v2_operator)

-- The loop over the teams, from the team ids and the owners seen.
unfoldable pub check_teams : List Text → Owners → List TeamEntry → List Problem
check_teams ids seen [] = []
check_teams ids seen (team ∷ teams) =
    let claimed = claim_operators team.team_id (own_operators team) seen in
    report (contains ids team.team_id) (duplicate_team team.team_id)
    ++ (report (lacks_operator team) (no_source_operator team.team_id)
        ++ (claimed.0
            ++ (check_panels team.team_id [] team.panels
                ++ check_teams (team.team_id ∷ ids) claimed.1 teams)))

-- RegistryError, with its details.
unfoldable pub validate_registry : List TeamEntry → Result (List Problem) (List TeamEntry)
validate_registry teams =
    let problems = check_teams [] [] teams in if is_empty problems then ok teams else err problems

unfoldable pub select_team : List TeamEntry → Text → Option TeamEntry
select_team [] team_id = none
select_team (team ∷ teams) team_id =
    let rest = select_team teams team_id in if team.team_id == team_id then some team else rest
