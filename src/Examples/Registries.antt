-- ===== src/Examples/Registries.antt =====
-- A registry of two teams, and one whose teams claim one operator.
use alerts_bi.Common.{codes, ◌≡◌, refl, some, true, false, List, [], ◌∷◌}
use alerts_bi.Common.Result.{ok, err}
use alerts_bi.Common.Sorting.{sorted}
use alerts_bi.Domain.Metrics.{distinct_onto}
use alerts_bi.Registry.{
  TeamEntry, claimed_by_both, validate_registry, check_teams, own_operators, operators,
  claim_operators, other_owner, owner_of, check_panels, lacks_operator,
}
use alerts_bi.Registry.Attributed.{IsAttributed, validate_registry-IsAttributed}

abbrev payments : TeamEntry
payments = record {
  team_id = codes "payments";
  display_name = codes "Payments";
  v1_operators = codes "pay" ∷ codes "billing" ∷ [];
  v2_operator = some (codes "pay");
  panels = [];
  weekly_review = true;
}

abbrev network : TeamEntry
network = record {
  team_id = codes "network";
  display_name = codes "Network";
  v1_operators = [];
  v2_operator = some (codes "net");
  panels = [];
  weekly_review = false;
}

rejected :
    validate_registry (payments ∷ record network { v1_operators = codes "billing" ∷ [] } ∷ [])
    ≡ err (claimed_by_both (codes "billing") (codes "payments") (codes "network") ∷ [])
unfolding validate_registry check_teams own_operators operators claim_operators other_owner owner_of
    check_panels lacks_operator distinct_onto sorted
rejected = refl

abbrev teams : List TeamEntry
teams = payments ∷ network ∷ []

accepted : validate_registry teams ≡ ok teams
unfolding validate_registry check_teams own_operators operators claim_operators other_owner owner_of
    check_panels lacks_operator distinct_onto sorted
accepted = refl

validate_registry-IsAttributed_example : (teams ≡ teams) × IsAttributed teams
validate_registry-IsAttributed_example = validate_registry-IsAttributed teams teams accepted
