-- ===== src/Rules/Engine/Attached.antt =====
-- Findings that come late reach their rows, and the identities follow.
use alerts_bi.Common.{
  ℕ, ◌≡◌, refl, ap, sym, ◌++◌, append-nil, Option, none, some, List, [], ◌∷◌, map, All,
}
use alerts_bi.Rules.Catalogs.{RuleSet, core, v2_readiness}
use alerts_bi.Rules.Core.{Finding}
use alerts_bi.Rules.Engine.{
  EvaluatedRow, EvaluatedIdentity, Evaluation, recompute, with_finding, put_found, put_finding,
  attach_row_findings,
}
use alerts_bi.Rules.Engine.Eligible.{IsConsistent, recompute-IsConsistent, changed-All}

-- The finding of a row, if any, in a list if it is of the set that is asked for.
abbrev among : RuleSet → Finding → RuleSet → List Finding
among core f core = f ∷ []
among v2_readiness f v2_readiness = f ∷ []
among _ f _ = []

unfoldable pub late : RuleSet → Option Finding → List Finding
late set none = []
late set (some f) = among set f f.set

-- A row and its findings, and what they are to be once the late ones are there.
abbrev pub Judged : Type 0
Judged = ℕ × (List Finding × List Finding)

unfoldable pub judgement : EvaluatedRow → Judged
judgement item = (item.id, (item.core_findings, item.readiness_findings))

unfoldable pub judged_late : (ℕ → Option Finding) → EvaluatedRow → Judged
unfolding late
judged_late findings item = (
  item.id,
  (
    item.core_findings ++ late core (findings item.id),
    item.readiness_findings ++ late v2_readiness (findings item.id),
  ),
)

put_finding-judgement :
    (set : RuleSet) (f : Finding) (item : EvaluatedRow)
    → judgement (put_finding set f item) ≡ (
      item.id,
      (item.core_findings ++ among core f set, item.readiness_findings ++ among v2_readiness f set),
    )
unfolding judgement
put_finding-judgement core f item =
    ap (λ l. (item.id, (item.core_findings ++ (f ∷ []), l)))
      (sym (append-nil item.readiness_findings))
put_finding-judgement v2_readiness f item =
    ap (λ l. (item.id, (l, item.readiness_findings ++ (f ∷ []))))
      (sym (append-nil item.core_findings))

put_found-judgement :
    (f : Option Finding) (item : EvaluatedRow)
    → judgement (put_found f item) ≡ (
      item.id,
      (item.core_findings ++ late core f, item.readiness_findings ++ late v2_readiness f),
    )
unfolding judgement late
put_found-judgement none item =
    rw (append-nil item.core_findings, append-nil item.readiness_findings) refl
put_found-judgement (some f) item = put_finding-judgement f.set f item

map-with_finding :
    (findings : ℕ → Option Finding) (items : List EvaluatedRow)
    → map judgement (map (with_finding findings) items) ≡ map (judged_late findings) items
unfolding judged_late
map-with_finding findings [] = refl
map-with_finding findings (item ∷ items) =
    rw (put_found-judgement (findings item.id) item, map-with_finding findings items) refl

put_finding-row :
    (set : RuleSet) (f : Finding) (item : EvaluatedRow) → (put_finding set f item).row ≡ item.row
put_finding-row core f item = refl
put_finding-row v2_readiness f item = refl

put_found-row : (f : Option Finding) (item : EvaluatedRow) → (put_found f item).row ≡ item.row
put_found-row none item = refl
put_found-row (some f) item = put_finding-row f.set f item

own :
    (i : EvaluatedIdentity)
    → IsConsistent i
    → All (λ (item : EvaluatedRow). item.row.identity ≡ i.identity) i.rows
unfolding IsConsistent
own i h = h.1

-- The late findings are put behind those of the row that each is kept for, by the row itself and in
-- the list of its set, in the list of all rows and in the identities; and the identities stay
-- consistent: the rows of each stay its own, and it is eligible for the model exactly if none of
-- them has a core finding, the late ones included.
pub attach_row_findings-IsConsistent :
    (findings : ℕ → Option Finding) (e : Evaluation)
    → All IsConsistent e.identities
    → (map judgement (attach_row_findings findings e).rows ≡ map (judged_late findings) e.rows)
      × (map
            (λ (i : EvaluatedIdentity). map judgement i.rows)
            (attach_row_findings findings e).identities
          ≡ map (λ (i : EvaluatedIdentity). map (judged_late findings) i.rows) e.identities)
      × All IsConsistent (attach_row_findings findings e).identities
unfolding attach_row_findings recompute
attach_row_findings-IsConsistent findings e h =
    (map-with_finding findings e.rows, each_judged e.identities, each e.identities h)
  where
    each_judged :
        (is : List EvaluatedIdentity)
        → map
            (λ (i : EvaluatedIdentity). map judgement i.rows)
            (map
              (λ (i : EvaluatedIdentity).
                recompute (record i { rows = map (with_finding findings) i.rows }))
              is)
          ≡ map (λ (i : EvaluatedIdentity). map (judged_late findings) i.rows) is
    each_judged [] = refl
    each_judged (i ∷ is) = rw (map-with_finding findings i.rows, each_judged is) refl

    each :
        (is : List EvaluatedIdentity)
        → All IsConsistent is
        → All IsConsistent (
            map
              (λ (i : EvaluatedIdentity).
                recompute (record i { rows = map (with_finding findings) i.rows }))
              is)
    each [] k = tt
    each (i ∷ is) k = (
      recompute-IsConsistent (record i { rows = map (with_finding findings) i.rows })
          (changed-All (with_finding findings) i.identity i.rows
            (λ item. put_found-row (findings item.id) item) (own i (k.0))),
      each is k.1,
    )
