-- ===== src/Llm/Assess/Coverage.antt =====
-- Every alert given to the assessment has an outcome in its result.
use mathlib.Core.Bool.{Bool-set}
use mathlib.Core.Logic.{∥∥₁_elim}
use mathlib.Core.List.{Permᴰ}
use mathlib.Core.List.Permᴰ
use alerts_bi.Common.{
  Text, ℕ, suc, ◌+◌, ◌≡◌, refl, ap, sym, ◌∙◌, Option, Bool, true, false, List, [], ◌∷◌, map, length,
  take, drop, Option-cases, inl, inr, ◌⊎◌, All, All-append, all, &&-true, text_eq,
}
use alerts_bi.Common.Result.{ok, err}
use alerts_bi.Common.Unicode.{Unicode}
use alerts_bi.Domain.Identity.{verdict_key}
use alerts_bi.Domain.Record.{AlertRecord}
use alerts_bi.Llm.Grouping.{
  Batch, Mapping, GroupKey, AlertGroup, partitions, batch_of, group_batches, batches_of,
  build_batches, group_alerts, cap_of, reverse_for_evaluation,
}
use alerts_bi.Llm.Grouping.Members.{batch_members, build_batches_lem}
use alerts_bi.Llm.Assess.{
  Environment, AssessmentResult, Outcomes, StoredVerdict, put, reuse_stored, reused_outcome,
  assess_alerts, requested, outside,
}
use alerts_bi.Llm.Assess.Entered.{
  IsMatched, Extends, has_outcome, put-own, put-Extends, Extends-refl, Extends-trans, Extends-at,
  Extends-has_outcome, assess_batches-covers, HasRaised,
}

all-Perm {ℓ} :
    {A : Type ℓ} (p : A → Bool) {xs ys : List A} → Permᴰ xs ys → all p xs ≡ true → all p ys ≡ true
all-Perm p Permᴰ.nil h = refl
all-Perm p (Permᴰ.cons e d) h =
    let (first, rest) = &&-true _ _ h in rw (sym (ap p e) ∙ first) (all-Perm p d rest)
all-Perm p (Permᴰ.swap e f) h =
    let (first, rest) = &&-true _ _ h in
    let (second, others) = &&-true _ _ rest in
    rw (sym (ap p f) ∙ second, sym (ap p e) ∙ first) others
all-Perm p (Permᴰ.trans d e) h = all-Perm p e (all-Perm p d h)

length-Perm {ℓ} : {A : Type ℓ} {xs ys : List A} → Permᴰ xs ys → length xs ≡ length ys
length-Perm Permᴰ.nil = refl
length-Perm (Permᴰ.cons e d) = ap suc (length-Perm d)
length-Perm (Permᴰ.swap e f) = refl
length-Perm (Permᴰ.trans d e) = length-Perm d ∙ length-Perm e

length-map {ℓ κ} :
    {A : Type ℓ} {B : Type κ} (f : A → B) (xs : List A) → length xs ≡ length (map f xs)
length-map f [] = refl
length-map f (x ∷ xs) = ap suc (length-map f xs)

module _ (sha256_of : Mapping → Text) (run_id prompt_version model_version : Text) where
  partitions-IsMatched :
      (key : GroupKey) (count index : ℕ) (left : List AlertRecord) (sizes : List ℕ)
      → All IsMatched
          (partitions sha256_of run_id prompt_version model_version key count index left sizes)
  unfolding partitions batch_of
  partitions-IsMatched key count index left [] = tt
  partitions-IsMatched key count index left (size ∷ sizes) = (
    length-map _ (take size left),
    partitions-IsMatched key count (index + 1) (drop size left) sizes,
  )

  batches_of-IsMatched :
      (cap : ℕ) (groups : List AlertGroup)
      → All IsMatched (batches_of sha256_of run_id prompt_version model_version cap groups)
  unfolding batches_of group_batches
  batches_of-IsMatched cap [] = tt
  batches_of-IsMatched cap (g ∷ gs) =
      All-append IsMatched _ _ (partitions-IsMatched g.key _ 0 g.alerts _)
        (batches_of-IsMatched cap gs)

  abbrev reversed : Batch → Batch
  reversed = reverse_for_evaluation sha256_of run_id prompt_version model_version

  reversed-IsMatched : (bs : List Batch) → All IsMatched bs → All IsMatched (map reversed bs)
  unfolding reverse_for_evaluation
  reversed-IsMatched [] h = tt
  reversed-IsMatched (b ∷ bs) h = (
    length-Perm (Permᴰ.reverse b.alerts) ∙ h.0 ∙ sym (length-Perm (Permᴰ.reverse b.alert_ids)),
    reversed-IsMatched bs h.1,
  )

  reversed-members : (bs : List Batch) → Permᴰ (batch_members (map reversed bs)) (batch_members bs)
  unfolding reverse_for_evaluation
  reversed-members [] = Permᴰ.nil
  reversed-members (b ∷ bs) =
      Permᴰ.trans (Permᴰ.append_right _ (Permᴰ.reverse b.alerts))
        (Permᴰ.append_left b.alerts (reversed-members bs))

  module _ ⦃u : Unicode⦄ where
    requested-IsMatched :
        (alerts : List AlertRecord) (limit : Option ℕ) (reverse_order : Bool)
        → All IsMatched
            (requested sha256_of run_id prompt_version model_version alerts limit reverse_order)
    unfolding requested build_batches
    requested-IsMatched alerts limit false =
        batches_of-IsMatched (cap_of limit) (group_alerts alerts)
    requested-IsMatched alerts limit true =
        reversed-IsMatched _ (batches_of-IsMatched (cap_of limit) (group_alerts alerts))

    build_batches-all :
        (p : AlertRecord → Bool) (alerts : List AlertRecord) (limit : Option ℕ)
        → all p (
            batch_members
              (build_batches sha256_of run_id prompt_version model_version alerts limit))
          ≡ true
        → all p alerts ≡ true
    build_batches-all p alerts limit h =
        let parts = build_batches_lem sha256_of run_id prompt_version model_version alerts limit in
        ∥∥₁_elim parts.0 (Bool-set _ _) (λ d. all-Perm p d h)

    requested-all :
        (p : AlertRecord → Bool) (alerts : List AlertRecord) (limit : Option ℕ)
        (reverse_order : Bool)
        → all p (
            batch_members
              (requested sha256_of run_id prompt_version model_version alerts limit reverse_order))
          ≡ true
        → all p alerts ≡ true
    unfolding requested
    requested-all p alerts limit false h = build_batches-all p alerts limit h
    requested-all p alerts limit true h =
        let batches = build_batches sha256_of run_id prompt_version model_version alerts limit in
        build_batches-all p alerts limit (all-Perm p (reversed-members batches) h)

-- Where what is left of the alerts has outcomes, in a result that keeps those of the stored
-- verdicts, all alerts have.
reuse_stored-covers :
    (existing : Text → Option StoredVerdict) (alerts : List AlertRecord) (result : AssessmentResult)
    → Extends result.outcomes (reuse_stored existing alerts result).0.outcomes
      × ((os : Outcomes)
          → Extends (reuse_stored existing alerts result).0.outcomes os
          → all (has_outcome os) (reuse_stored existing alerts result).1 ≡ true
          → all (has_outcome os) alerts ≡ true)
unfolding reuse_stored
reuse_stored-covers existing [] result = (Extends-refl result.outcomes, λ os e h. refl)
reuse_stored-covers existing (a ∷ alerts) result =
    elim (Option-cases (existing (verdict_key a.application a.key_field))) [
      | inl e ↦
          let (extends, covers) = reuse_stored-covers existing alerts result in
          rw (reuse_stored, e)
            (
              extends,
              λ os more h.
                  let (first, rest) = &&-true (has_outcome os a) _ h in
                  rw first (covers os more rest),
            )
      | inr (v, e) ↦
          let next : AssessmentResult = record result {
            outcomes = put a.identity (reused_outcome v a) result.outcomes;
            reused_verdicts = result.reused_verdicts + 1;
          } in
          let (extends, covers) = reuse_stored-covers existing alerts next in
          let own = put-own a.identity (reused_outcome v a) result.outcomes in
          rw (reuse_stored, e)
            (
              Extends-trans _ _ _ (put-Extends a.identity (reused_outcome v a) result.outcomes)
                  extends,
              λ os more h.
                  let here : has_outcome os a ≡ true =
                    Extends-has_outcome _ os a more (Extends-at _ _ a.identity extends own) in
                  rw here (covers os more h),
            )
    ]

module _ ⦃u : Unicode⦄ (env : Environment) (sha256_of : Mapping → Text)
    (run_id prompt_version model_version : Text) where
  -- The assessment of any alerts returns, with an outcome for each of them, of its stored verdict or
  -- of its batch, in the order of the grouping or in the reverse one, whatever the client answers or
  -- fails with. The only exceptions that escape are what other calls raise than the transport errors
  -- of the client and the decode errors of its answers: where a request is built, the journal used,
  -- the client asked or an answer loaded.
  pub assess_alerts-covers :
      (alerts : List AlertRecord) (limit : Option ℕ) (existing : Text → Option StoredVerdict)
      (reverse_order : Bool)
      → ((result : AssessmentResult) × (assess_alerts env sha256_of run_id prompt_version
              model_version alerts limit existing reverse_order
            ≡ ok result)
          × (all (has_outcome result.outcomes) alerts ≡ true))
        ⊎ ((e : Text) × HasRaised env e
            × (assess_alerts env sha256_of run_id prompt_version model_version alerts limit existing
                  reverse_order
                ≡ err (outside e)))
  unfolding assess_alerts
  assess_alerts-covers alerts limit existing reverse_order =
      let none_yet : AssessmentResult = record {
        outcomes = [];
        batch_attempts = [];
        new_verdicts = [];
        requested_batches = 0;
        reused_verdicts = 0;
      } in
      let started = reuse_stored existing alerts none_yet in
      let batches =
        requested sha256_of run_id prompt_version model_version started.1 limit reverse_order in
      let matched =
        requested-IsMatched sha256_of run_id prompt_version model_version started.1 limit
          reverse_order in
      elim (assess_batches-covers env batches
        (record started.0 { requested_batches = length batches }) matched) [
          | inr escaped ↦ inr escaped
          | inl (after, e, extends, members) ↦
              let left =
                requested-all sha256_of run_id prompt_version model_version
                  (has_outcome after.outcomes) started.1 limit reverse_order members in
              inl (
                after,
                e,
                (reuse_stored-covers existing alerts none_yet).1 after.outcomes extends left,
              )
        ]
