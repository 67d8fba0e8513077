-- ===== src/Suppression/Agreement/Masks.antt =====
-- Masks as tests on the leaves, and a panel's mask as the leaves of that panel.
use mathlib.Core.Path.{ap₂}
use alerts_bi.Common.{
  ℕ, ◌+◌, ◌<◌, ◌≤◌, ◌≡◌, ◌≢◌, refl, sym, ap, ◌∙◌, Bool, false, not, List, [], ◌∷◌, ◌++◌, map, arith,
  eqb, any, all, All, All-map, All-append, keep, ◌&&◌, ◌||◌, append_assoc,
}
use alerts_bi.Suppression.Leaves.{LeafOutcome, PanelInterpretation}
use alerts_bi.Suppression.Evaluate.{exceeds}
use alerts_bi.Suppression.Accumulate.{
  Bits, bit_and, is_set, is_suppression, owned, masks, active_bits,
}

abbrev pub Owned : Type 0
Owned = ℕ × LeafOutcome

pub bit_and-map {ℓ} :
    {A : Type ℓ} (f g : A → Bool) (xs : List A)
    → bit_and (map f xs) (map g xs) ≡ map (λ x. f x && g x) xs
bit_and-map f g [] = refl
bit_and-map f g (x ∷ xs) = ap (λ l. (f x && g x) ∷ l) (bit_and-map f g xs)

pub is_set-map {ℓ} : {A : Type ℓ} (f : A → Bool) (xs : List A) → is_set (map f xs) ≡ any f xs
is_set-map f [] = refl
is_set-map f (x ∷ xs) = ap (λ b. f x || b) (is_set-map f xs)

pub active_bits-map {ℓ} :
    {A : Type ℓ} (total : ℕ) (f : A → ℕ) (xs : List A)
    → active_bits total (map f xs) ≡ map (λ x. not (exceeds (f x) total)) xs
unfolding active_bits
active_bits-map total f [] = refl
active_bits-map total f (x ∷ xs) =
    ap (λ l. not (exceeds (f x) total) ∷ l) (active_bits-map total f xs)

any-append {ℓ} :
    {A : Type ℓ} (p : A → Bool) (xs ys : List A) → any p (xs ++ ys) ≡ (any p xs || any p ys)
any-append p [] ys = refl
any-append p (x ∷ xs) ys = ground (arith, any-append p xs ys)

-- The test of panel `k` on a leaf that another panel owns, and on its own leaves.
module _ (p : LeafOutcome → Bool) (k : ℕ) where
  abbrev pub of_panel : Owned → Bool
  of_panel x = p x.1 && eqb x.0 k

  any-others : (xs : List Owned) → All (λ (x : Owned). x.0 ≢ k) xs → any of_panel xs ≡ false
  any-others [] h = refl
  any-others ((j, leaf) ∷ xs) h = ground (arith, any-others xs h.1)

  any-own :
      (leaves : List LeafOutcome) → any of_panel (map (λ leaf. (k, leaf)) leaves) ≡ any p leaves
  any-own [] = refl
  any-own (leaf ∷ leaves) = ground (arith, any-own leaves)

map-owner :
    (k : ℕ) (leaves : List LeafOutcome) (P : ℕ → Type 0)
    → P k
    → All (λ (x : Owned). P x.0) (map (λ leaf. (k, leaf)) leaves)
map-owner k [] P h = tt
map-owner k (leaf ∷ leaves) P h = (h, map-owner k leaves P h)

owned-from : (k : ℕ) (ps : List PanelInterpretation) → All (λ (x : Owned). k ≤ x.0) (owned k ps)
unfolding owned
owned-from k [] = tt
owned-from k (p ∷ ps) =
    All-append _ (map (λ leaf. (k, leaf)) (keep is_suppression p.leaves)) (owned (k + 1) ps)
      (map-owner k (keep is_suppression p.leaves) (λ j. k ≤ j) (omega arith))
      (All-map (owned (k + 1) ps) (λ x h. omega arith) (owned-from (k + 1) ps))

any-three :
    (f h : LeafOutcome → Bool) (k : ℕ) (xs : List Owned)
    → any (λ (x : Owned). (f x.1 && eqb x.0 k) && h x.1) xs
      ≡ any (of_panel (λ leaf. f leaf && h leaf) k) xs
any-three f h k [] = refl
any-three f h k (x ∷ xs) = ground (arith, any-three f h k xs)

-- A panel's own leaves among all leaves.
any-panel :
    (p : LeafOutcome → Bool) (k : ℕ) (front : List Owned) (leaves : List LeafOutcome)
    (ps : List PanelInterpretation)
    → All (λ (x : Owned). x.0 < k) front
    → any (of_panel p k) (front ++ (map (λ leaf. (k, leaf)) leaves ++ owned (k + 1) ps))
      ≡ any p leaves
any-panel p k front leaves ps h =
    let own : List Owned = map (λ leaf. (k, leaf)) leaves in
    let rest = owned (k + 1) ps in
    let before = any-others p k front (All-map front (λ x lt e. omega arith) h) in
    let behind =
      any-others p k rest (All-map rest (λ x le e. omega arith) (owned-from (k + 1) ps)) in
    any-append (of_panel p k) front (own ++ rest)
    ∙ ground (arith, before, behind, any-append (of_panel p k) own rest, any-own p k leaves)

-- The conjunction over the masks of all panels; `front` holds the leaves of the panels ahead.
module _ (f h : LeafOutcome → Bool) (every : List Owned) where
  abbrev pub hit : Bits → Bool
  hit m =
      is_set
        (bit_and (bit_and (map (λ (x : Owned). f x.1) every) m) (map (λ (x : Owned). h x.1) every))

  hit-panel :
      (k : ℕ)
      → hit (map (λ (x : Owned). eqb x.0 k) every)
        ≡ any (of_panel (λ leaf. f leaf && h leaf) k) every
  hit-panel k =
      ap (λ b. is_set (bit_and b (map (λ (x : Owned). h x.1) every)))
        (bit_and-map (λ (x : Owned). f x.1) (λ (x : Owned). eqb x.0 k) every)
      ∙ ap is_set (bit_and-map (λ (x : Owned). f x.1 && eqb x.0 k) (λ (x : Owned). h x.1) every)
      ∙ is_set-map (λ (x : Owned). (f x.1 && eqb x.0 k) && h x.1) every
      ∙ any-three f h k every

  pub masks-panels :
      (k : ℕ) (ps : List PanelInterpretation) (front : List Owned)
      → every ≡ front ++ owned k ps
      → All (λ (x : Owned). x.0 < k) front
      → all hit (masks k ps every)
        ≡ all
            (λ (q : PanelInterpretation).
              any (λ leaf. f leaf && h leaf) (keep is_suppression q.leaves))
            ps
  unfolding masks owned
  masks-panels k [] front e lt = refl
  masks-panels k (q ∷ ps) front e lt =
      let leaves = keep is_suppression q.leaves in
      let own : List Owned = map (λ leaf. (k, leaf)) leaves in
      let p = λ (leaf : LeafOutcome). f leaf && h leaf in
      let head = hit-panel k ∙ ap (any (of_panel p k)) e ∙ any-panel p k front leaves ps lt in
      let front' : All (λ (x : Owned). x.0 < k + 1) (front ++ own) =
        All-append _ front own (All-map front (λ x l. omega arith) lt)
          (map-owner k leaves (λ j. j < k + 1) (omega arith)) in
      let tail =
        masks-panels (k + 1) ps (front ++ own) (e ∙ sym (append_assoc front own (owned (k + 1) ps)))
          front' in
      ap₂ ◌&&◌ head tail
