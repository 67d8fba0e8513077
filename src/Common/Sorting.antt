-- ===== src/Common/Sorting.antt =====
-- Python's sorted(xs, key=...): a stable insertion sort, the order given as the test "key of the
-- first is less than the key of the second".
use mathlib.Core.Bool.{Bool}
use mathlib.Core.Path.{◌≡◌, refl, ap, ◌∙◌, subst, sym}
use mathlib.Core.List.{
  List, [], ◌∷◌, map, ◌++◌, Perm, Permᴰ, perm_middle, perm_append_comm, append-nil, append_assoc,
}
use mathlib.Core.List.Perm
use alerts_bi.Common.Tests.{if◌then◌else◌, Bool-cases}
use mathlib.Core.Logic.{inl, inr}
use alerts_bi.Common.Lists.{All, length}
use Prim.Native.Nat.{suc, ◌+◌}
use native.Mathlib.Omega.{arith}

module _ {ℓ} {A : Type ℓ} (less : A → A → Bool) where
  -- Behind every element that is not greater.
  unfoldable pub insert_sorted : A → List A → List A
  insert_sorted x [] = x ∷ []
  insert_sorted x (y ∷ ys) =
      let rest = insert_sorted x ys in if less x y then x ∷ y ∷ ys else y ∷ rest

  unfoldable pub sort_onto : List A → List A → List A
  sort_onto acc [] = acc
  sort_onto acc (x ∷ xs) = sort_onto (insert_sorted x acc) xs

  unfoldable pub sorted : List A → List A
  unfolding sort_onto insert_sorted
  sorted xs = sort_onto [] xs

  module _ {κ} (P : A → Type κ) where
    insert_sorted-All : (x : A) (ys : List A) → P x → All P ys → All P (insert_sorted x ys)
    unfolding insert_sorted
    insert_sorted-All x [] px h = (px, tt)
    insert_sorted-All x (y ∷ ys) px h = elim (Bool-cases (less x y)) [
      | inl e ↦ rw e (px, h)
      | inr e ↦ rw e (h.0, insert_sorted-All x ys px h.1)
    ]

    sort_onto-All : (acc xs : List A) → All P acc → All P xs → All P (sort_onto acc xs)
    unfolding sort_onto
    sort_onto-All acc [] ha h = ha
    sort_onto-All acc (x ∷ xs) ha h =
        sort_onto-All (insert_sorted x acc) xs (insert_sorted-All x acc h.0 ha) h.1

    -- Sorting keeps what holds of each element.
    pub sorted-All : (xs : List A) → All P xs → All P (sorted xs)
    unfolding sorted
    sorted-All xs h = sort_onto-All [] xs tt h

    insert_sorted-All_back : (x : A) (ys : List A) → All P (insert_sorted x ys) → P x × All P ys
    unfolding insert_sorted
    insert_sorted-All_back x [] h = h
    insert_sorted-All_back x (y ∷ ys) h =
        let placed : Bool → List A = λ b. if b then x ∷ y ∷ ys else y ∷ insert_sorted x ys in
        elim (Bool-cases (less x y)) [
          | inl e ↦ subst (λ b. All P (placed b)) e h
          | inr e ↦
              let k : P y × All P (insert_sorted x ys) = subst (λ b. All P (placed b)) e h in
              let rest = insert_sorted-All_back x ys k.1 in (rest.0, (k.0, rest.1))
        ]

    sort_onto-All_back : (acc xs : List A) → All P (sort_onto acc xs) → All P acc × All P xs
    unfolding sort_onto
    sort_onto-All_back acc [] h = (h, tt)
    sort_onto-All_back acc (x ∷ xs) h =
        let rest = sort_onto-All_back (insert_sorted x acc) xs h in
        let placed = insert_sorted-All_back x acc rest.0 in (placed.1, (placed.0, rest.1))

    -- What holds of each element behind sorting held of it before.
    pub sorted-All_back : (xs : List A) → All P (sorted xs) → All P xs
    unfolding sorted
    sorted-All_back xs h = (sort_onto-All_back [] xs h).1

  insert_sorted-perm : (x : A) (ys : List A) → Perm (insert_sorted x ys) (x ∷ ys)
  unfolding insert_sorted
  insert_sorted-perm x [] = Perm.refl (x ∷ [])
  insert_sorted-perm x (y ∷ ys) = elim (Bool-cases (less x y)) [
    | inl e ↦ rw e (Perm.refl (x ∷ y ∷ ys))
    | inr e ↦ rw e (Perm.trans (Perm.cons y (insert_sorted-perm x ys)) (Perm.swap x y ys))
  ]

  sort_onto-perm : (acc xs : List A) → Perm (sort_onto acc xs) (xs ++ acc)
  unfolding sort_onto
  sort_onto-perm acc [] = Perm.refl acc
  sort_onto-perm acc (x ∷ xs) =
      Perm.trans (sort_onto-perm (insert_sorted x acc) xs)
        (Perm.trans (Perm.append (Perm.refl xs) (insert_sorted-perm x acc)) (perm_middle xs acc))

  -- Sorting loses and invents nothing.
  pub sorted-perm : (xs : List A) → Perm (sorted xs) xs
  unfolding sorted
  sorted-perm xs = subst (λ ys. Perm (sort_onto [] xs) ys) (append-nil xs) (sort_onto-perm [] xs)

-- The concatenation of what each element stands for.
abbrev pub gather {ℓ κ} : {A : Type ℓ} {B : Type κ} → (A → List B) → List A → List B
gather f [] = []
gather f (x ∷ xs) = f x ++ gather f xs

module _ {κ} {B : Type κ} where
  pub swapped : (a b c : List B) → Perm (a ++ (b ++ c)) (b ++ (a ++ c))
  swapped a b c =
      subst (λ l. Perm l (b ++ (a ++ c))) (append_assoc a b c)
        (subst (λ l. Perm ((a ++ b) ++ c) l) (append_assoc b a c)
          (Perm.append (perm_append_comm a b) (Perm.refl c)))

module _ {ℓ κ} {A : Type ℓ} {B : Type κ} (less : A → A → Bool) (f : A → List B) where
  insert_sorted-gather :
      (x : A) (ys : List A) → Perm (gather f (insert_sorted less x ys)) (f x ++ gather f ys)
  unfolding insert_sorted
  insert_sorted-gather x [] = Perm.refl _
  insert_sorted-gather x (y ∷ ys) = elim (Bool-cases (less x y)) [
    | inl e ↦ rw e (Perm.refl _)
    | inr e ↦ rw e (
        Perm.trans (Perm.append (Perm.refl (f y)) (insert_sorted-gather x ys))
          (swapped (f y) (f x) (gather f ys)))
  ]

  sort_onto-gather :
      (acc xs : List A) → Perm (gather f (sort_onto less acc xs)) (gather f xs ++ gather f acc)
  unfolding sort_onto
  sort_onto-gather acc [] = Perm.refl _
  sort_onto-gather acc (x ∷ xs) = Perm.trans (sort_onto-gather (insert_sorted less x acc) xs) (
      subst (λ l. Perm (gather f xs ++ gather f (insert_sorted less x acc)) l)
        (sym (append_assoc (f x) (gather f xs) (gather f acc)))
        (Perm.trans (Perm.append (Perm.refl (gather f xs)) (insert_sorted-gather x acc))
          (swapped (gather f xs) (f x) (gather f acc))))

  pub sorted-gather : (xs : List A) → Perm (gather f (sorted less xs)) (gather f xs)
  unfolding sorted
  sorted-gather xs =
      subst (λ l. Perm (gather f (sort_onto less [] xs)) l) (append-nil (gather f xs))
        (sort_onto-gather [] xs)

  pub gather-append : (xs ys : List A) → gather f (xs ++ ys) ≡ gather f xs ++ gather f ys
  gather-append [] ys = refl
  gather-append (x ∷ xs) ys =
      ap (λ l. f x ++ l) (gather-append xs ys)
      ∙ sym (append_assoc (f x) (gather f xs) (gather f ys))

-- A function that the order does not see through commutes with sorting.
module _ {ℓ κ} {A : Type ℓ} {B : Type κ} (less : A → A → Bool) (less' : B → B → Bool) (f : A → B)
    (same : (x y : A) → less' (f x) (f y) ≡ less x y) where
  insert_sorted-map :
      (x : A) (ys : List A) → map f (insert_sorted less x ys) ≡ insert_sorted less' (f x) (map f ys)
  unfolding insert_sorted
  insert_sorted-map x [] = refl
  insert_sorted-map x (y ∷ ys) = elim (Bool-cases (less x y)) [
    | inl e ↦ rw (same x y, e) refl
    | inr e ↦ rw (same x y, e) (ap (λ l. f y ∷ l) (insert_sorted-map x ys))
  ]

  sort_onto-map :
      (acc xs : List A) → map f (sort_onto less acc xs) ≡ sort_onto less' (map f acc) (map f xs)
  unfolding sort_onto
  sort_onto-map acc [] = refl
  sort_onto-map acc (x ∷ xs) =
      sort_onto-map (insert_sorted less x acc) xs
      ∙ ap (λ l. sort_onto less' l (map f xs)) (insert_sorted-map x acc)

  pub sorted-map : (xs : List A) → map f (sorted less xs) ≡ sorted less' (map f xs)
  unfolding sorted
  sorted-map xs = sort_onto-map [] xs

module _ {ℓ} {A : Type ℓ} (less : A → A → Bool) where
  insert_sorted-length : (x : A) (ys : List A) → length (insert_sorted less x ys) ≡ suc (length ys)
  unfolding insert_sorted
  insert_sorted-length x [] = refl
  insert_sorted-length x (y ∷ ys) = elim (Bool-cases (less x y)) [
    | inl e ↦ rw e refl
    | inr e ↦ rw e (ap suc (insert_sorted-length x ys))
  ]

  sort_onto-length : (acc xs : List A) → length (sort_onto less acc xs) ≡ length acc + length xs
  unfolding sort_onto
  sort_onto-length acc [] = omega arith
  sort_onto-length acc (x ∷ xs) =
      omega (arith, sort_onto-length (insert_sorted less x acc) xs, insert_sorted-length x acc)

  pub sorted-length : (xs : List A) → length (sorted less xs) ≡ length xs
  unfolding sorted
  sorted-length xs = omega (arith, sort_onto-length [] xs)

-- What holds of all items holds of them in any order.
pub All-Perm {ℓ κ} :
    {A : Type ℓ} (P : A → Type κ) {xs ys : List A} → Permᴰ xs ys → All P xs → All P ys
All-Perm P Permᴰ.nil h = tt
All-Perm P (Permᴰ.cons e d) h = (subst P e h.0, All-Perm P d h.1)
All-Perm P (Permᴰ.swap e f) h = (subst P f h.1.0, (subst P e h.0, h.1.1))
All-Perm P (Permᴰ.trans d e) h = All-Perm P e (All-Perm P d h)
