-- ===== src/Rules/Phase.antt =====
-- src/rules/phase.py: the migration phase of a team.
use alerts_bi.Common.{ℕ, ◌*◌, Option, none, some, Bool, false, not, ◌&&◌, ltb, leb, if◌then◌else◌}

pub data Phase : Type 0 where
  no_data phase_0 phase_1 phase_2 done : Phase

-- The percentage is the exact fraction (ready, all), times 100.
unfoldable pub is_complete : Option (ℕ × ℕ) → Bool
is_complete none = false
is_complete (some pct) = leb (100 * pct.1) (pct.0 * 100)

unfoldable pub derive_phase : ℕ → ℕ → Option (ℕ × ℕ) → Phase
unfolding is_complete
derive_phase v1_identity_count v2_identity_count phase2_readiness_pct =
    let has_v1 = ltb 0 v1_identity_count in
    let has_v2 = ltb 0 v2_identity_count in
    if not has_v1 && not has_v2
    then no_data
    else if has_v1 && not has_v2
    then phase_0
    else if has_v1 && has_v2
    then phase_1
    else if is_complete phase2_readiness_pct
    then done
    else phase_2
