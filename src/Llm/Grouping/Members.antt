-- ===== src/Llm/Grouping/Members.antt =====
-- The alerts of the groups, and of the batches that are cut from them.
use mathlib.Core.List.{perm_append_comm, Perm}
use mathlib.Core.List.Perm
use alerts_bi.Common.{
  Text, ℕ, zero, suc, ◌+◌, ◌-◌, ◌≤◌, ◌<◌, ◌≡◌, refl, sym, ap, ◌∙◌, subst, min, Option, none, some,
  true, List, [], ◌∷◌, ◌++◌, append-nil, arith, sum, length, All, All-append, Bool-cases, inl, inr,
  map, take, drop, text_beq_iff, text_eq, ◌==◌, &&-true,
}
use alerts_bi.Common.Unicode.{Unicode}
use alerts_bi.Common.Sorting.{
  sorted, sorted-perm, sorted-All, gather, sorted-gather, swapped, gather-append,
}
use alerts_bi.Domain.Record.{AlertRecord}
use alerts_bi.Llm.Grouping.{
  GroupKey, AlertGroup, Batch, Mapping, type_beq, key_beq, add_member, sort_members, group_ltb,
  member_ltb, key_of, group_onto, group_alerts, balanced_partition_sizes, partitions, group_batches,
  batches_of, cap_of, build_batches, batch_of,
}
use alerts_bi.Llm.Grouping.Sizes.{sizes_fit}

abbrev members : List AlertGroup → List AlertRecord
members gs = gather (λ g. g.alerts) gs

add_member-perm :
    (key : GroupKey) (alert : AlertRecord) (gs : List AlertGroup)
    → Perm (members (add_member key alert gs)) (alert ∷ members gs)
unfolding add_member
add_member-perm key alert [] = Perm.refl _
add_member-perm key alert (g ∷ gs) = elim (Bool-cases (key_beq g.key key)) [
  | inl e ↦ rw e (Perm.append (perm_append_comm g.alerts (alert ∷ [])) (Perm.refl (members gs)))
  | inr e ↦ rw e (
      Perm.trans (Perm.append (Perm.refl g.alerts) (add_member-perm key alert gs))
        (swapped g.alerts (alert ∷ []) (members gs)))
]

sort_members-perm : (gs : List AlertGroup) → Perm (members (map sort_members gs)) (members gs)
unfolding sort_members
sort_members-perm [] = Perm.refl _
sort_members-perm (g ∷ gs) = Perm.append (sorted-perm member_ltb g.alerts) (sort_members-perm gs)

key_beq_sound : (a b : GroupKey) → key_beq a b ≡ true → a ≡ b
key_beq_sound a b h =
    let both = &&-true (type_beq a.type b.type) (a.value == b.value) h in
    let t : a.type ≡ b.type = ground (arith, both.0) in
    let v : a.value ≡ b.value = (text_beq_iff a.value b.value).0 both.1 in cc (t, v)

module _ ⦃u : Unicode⦄ where
  -- Each group holds alerts of its key only.
  IsPure : AlertGroup → Type 0
  IsPure g = All (λ a. key_of a ≡ g.key) g.alerts

  add_member-IsPure :
      (alert : AlertRecord) (gs : List AlertGroup)
      → All IsPure gs
      → All IsPure (add_member (key_of alert) alert gs)
  unfolding add_member IsPure
  add_member-IsPure alert [] h = ((refl, tt), tt)
  add_member-IsPure alert (g ∷ gs) h = elim (Bool-cases (key_beq g.key (key_of alert))) [
    | inl e ↦ rw e (
      All-append (λ a. key_of a ≡ g.key) g.alerts (alert ∷ []) h.0
          (sym (key_beq_sound g.key (key_of alert) e), tt),
      h.1,
    )
    | inr e ↦ rw e (h.0, add_member-IsPure alert gs h.1)
  ]

  group_onto-lem :
      (gs : List AlertGroup) (alerts : List AlertRecord)
      → All IsPure gs
      → Perm (members (group_onto gs alerts)) (alerts ++ members gs)
        × All IsPure (group_onto gs alerts)
  unfolding group_onto
  group_onto-lem gs [] h = (Perm.refl _, h)
  group_onto-lem gs (a ∷ alerts) h =
      let rest = group_onto-lem (add_member (key_of a) a gs) alerts (add_member-IsPure a gs h) in
      (
        Perm.trans rest.0 (
            Perm.trans (Perm.append (Perm.refl alerts) (add_member-perm (key_of a) a gs))
              (swapped alerts (a ∷ []) (members gs))),
        rest.1,
      )

  sort_members-IsPure : (gs : List AlertGroup) → All IsPure gs → All IsPure (map sort_members gs)
  unfolding sort_members IsPure
  sort_members-IsPure [] h = tt
  sort_members-IsPure (g ∷ gs) h =
      (sorted-All member_ltb (λ a. key_of a ≡ g.key) g.alerts h.0, sort_members-IsPure gs h.1)

  group_alerts-lem :
      (alerts : List AlertRecord)
      → Perm (members (group_alerts alerts)) alerts × All IsPure (group_alerts alerts)
  unfolding group_alerts
  group_alerts-lem alerts =
      let grouped = group_onto-lem [] alerts tt in
      (
        Perm.trans (sort_members-perm (sorted group_ltb (group_onto [] alerts))) (
            Perm.trans (sorted-gather group_ltb (λ g. g.alerts) (group_onto [] alerts))
              (subst (λ l. Perm (members (group_onto [] alerts)) l) (append-nil alerts) grouped.0)),
        sort_members-IsPure (sorted group_ltb (group_onto [] alerts))
            (sorted-All group_ltb IsPure (group_onto [] alerts) grouped.1),
      )

take-drop {ℓ} : {A : Type ℓ} (n : ℕ) (xs : List A) → take n xs ++ drop n xs ≡ xs
take-drop zero xs = refl
take-drop (suc n) [] = refl
take-drop (suc n) (x ∷ xs) = ap (λ l. x ∷ l) (take-drop n xs)

length-take {ℓ} : {A : Type ℓ} (n : ℕ) (xs : List A) → length (take n xs) ≡ min n (length xs)
length-take zero xs = omega arith
length-take (suc n) [] = omega arith
length-take (suc n) (x ∷ xs) = omega (arith, length-take n xs)

length-drop {ℓ} : {A : Type ℓ} (n : ℕ) (xs : List A) → length (drop n xs) ≡ length xs - n
length-drop zero xs = omega arith
length-drop (suc n) [] = omega arith
length-drop (suc n) (x ∷ xs) = omega (arith, length-drop n xs)

All-take {ℓ κ} :
    {A : Type ℓ} (P : A → Type κ) (n : ℕ) (xs : List A)
    → All P xs
    → All P (take n xs) × All P (drop n xs)
All-take P zero xs h = (tt, h)
All-take P (suc n) [] h = (tt, tt)
All-take P (suc n) (x ∷ xs) h = ((h.0, (All-take P n xs h.1).0), (All-take P n xs h.1).1)

All-weaken {ℓ κ} : {A : Type ℓ} (P : A → Type κ) (xs : List A) → ((a : A) → P a) → All P xs
All-weaken P [] f = tt
All-weaken P (x ∷ xs) f = (f x, All-weaken P xs f)

-- A batch is not empty, is not above the cap and holds alerts of its group only.
unfoldable pub IsSound : ⦃u : Unicode⦄ → ℕ → Batch → Type 0
IsSound cap b =
    (0 < length b.alerts) × (length b.alerts ≤ cap) × All (λ a. key_of a ≡ b.group) b.alerts

abbrev pub batch_members : List Batch → List AlertRecord
batch_members bs = gather (λ b. b.alerts) bs

module _ ⦃u : Unicode⦄ (sha256_of : Mapping → Text) (run_id prompt_version model_version : Text)
    (cap : ℕ) where
  partitions-lem :
      (key : GroupKey) (n index : ℕ) (left : List AlertRecord) (sizes : List ℕ)
      → sum sizes ≡ length left
      → All (λ size. (0 < size) × (size ≤ cap)) sizes
      → All (λ a. key_of a ≡ key) left
      → (batch_members
            (partitions sha256_of run_id prompt_version model_version key n index left sizes)
          ≡ left)
        × All
            (IsSound cap)
            (partitions sha256_of run_id prompt_version model_version key n index left sizes)
  unfolding partitions batch_of IsSound
  partitions-lem key n index [] [] total bounds pure = (refl, tt)
  partitions-lem key n index (a ∷ left) [] total bounds pure = absurd (omega (arith, total))
  partitions-lem key n index left (size ∷ sizes) total bounds pure =
      let kept = All-take (λ a. key_of a ≡ key) size left pure in
      let len = length-take size left in
      let rest =
        partitions-lem key n (index + 1) (drop size left) sizes
          (omega (arith, total, length-drop size left)) bounds.1 kept.1 in
      (
        ap (λ l. take size left ++ l) rest.0 ∙ take-drop size left,
        ((omega (arith, len, total, bounds.0.0), omega (arith, len, bounds.0.1), kept.0), rest.1),
      )

  module _ (positive : 0 < cap) where
    group_batches-lem :
        (g : AlertGroup)
        → IsPure g
        → (batch_members (group_batches sha256_of run_id prompt_version model_version cap g)
            ≡ g.alerts)
          × All (IsSound cap) (group_batches sha256_of run_id prompt_version model_version cap g)
    unfolding group_batches IsPure
    group_batches-lem g pure =
        let fits = sizes_fit (length g.alerts) cap positive in
        partitions-lem g.key _ 0 g.alerts (balanced_partition_sizes (length g.alerts) cap) fits.0
          fits.1 pure

    batches_of-lem :
        (gs : List AlertGroup)
        → All IsPure gs
        → (batch_members (batches_of sha256_of run_id prompt_version model_version cap gs)
            ≡ members gs)
          × All (IsSound cap) (batches_of sha256_of run_id prompt_version model_version cap gs)
    unfolding batches_of
    batches_of-lem [] h = (refl, tt)
    batches_of-lem (g ∷ gs) h =
        let first = group_batches-lem g h.0 in
        let rest = batches_of-lem gs h.1 in
        (
          gather-append (λ x y. true) (λ b. b.alerts)
                (group_batches sha256_of run_id prompt_version model_version cap g) _
              ∙ ap
                  (λ l.
                    l
                    ++ batch_members
                        (batches_of sha256_of run_id prompt_version model_version cap gs))
                  first.0
              ∙ ap (λ l. g.alerts ++ l) rest.0,
          All-append (IsSound cap)
              (group_batches sha256_of run_id prompt_version model_version cap g) _ first.1 rest.1,
        )

-- `min(max_batch_size or MAX_BATCH_SIZE, MAX_BATCH_SIZE)` is between 1 and 200.
cap_of_bounds : (limit : Option ℕ) → (0 < cap_of limit) × (cap_of limit ≤ 200)
unfolding cap_of
cap_of_bounds none = omega arith
cap_of_bounds (some zero) = omega arith
cap_of_bounds (some (suc n)) = omega arith

-- The batches of a run hold every alert exactly once. None is empty, none is above the cap, which is
-- 200 at most, and the alerts of a batch are all of its group: those with its alert rule's URL, or
-- the alerts without a URL of its application.
pub build_batches_lem :
    ⦃u : Unicode⦄
    → (sha256_of : Mapping → Text) (run_id prompt_version model_version : Text)
      (alerts : List AlertRecord) (limit : Option ℕ)
    → Perm
        (batch_members (build_batches sha256_of run_id prompt_version model_version alerts limit))
        alerts
      × All
          (IsSound (cap_of limit))
          (build_batches sha256_of run_id prompt_version model_version alerts limit)
      × (cap_of limit ≤ 200)
unfolding build_batches
build_batches_lem sha256_of run_id prompt_version model_version alerts limit =
    let bounds = cap_of_bounds limit in
    let grouped = group_alerts-lem alerts in
    let batched =
      batches_of-lem sha256_of run_id prompt_version model_version (cap_of limit) bounds.0
        (group_alerts alerts) grouped.1 in
    (subst (λ l. Perm l alerts) (sym batched.0) grouped.0, batched.1, bounds.1)
