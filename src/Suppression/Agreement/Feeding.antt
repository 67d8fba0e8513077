-- ===== src/Suppression/Agreement/Feeding.antt =====
-- The accumulator behind any rows, in closed form.
use alerts_bi.Common.{
  ℕ, ◌+◌, ◌≡◌, refl, sym, ap, ◌∙◌, Bool, List, [], ◌∷◌, ◌++◌, map, inl, inr, arith, Bool-cases,
  if◌then◌else◌, length, length-append, count_if, append_assoc, append-nil,
}
use alerts_bi.Domain.Record.{AlertRecord}
use alerts_bi.Suppression.Leaves.{LeafOutcome, PanelInterpretation, leaf_excludes_row}
use alerts_bi.Suppression.Accumulate.{Accumulator, owned, create, mark, add, add_all}

abbrev pub matched_in : List AlertRecord → ℕ × LeafOutcome → ℕ
matched_in seen x = count_if (leaf_excludes_row x.1) seen

unfoldable pub fed : List PanelInterpretation → List AlertRecord → Accumulator
fed is seen = record (create is) {
  matches = map (matched_in seen) (owned 0 is);
  total = length seen;
}

count_if-snoc {ℓ} :
    {A : Type ℓ} (p : A → Bool) (xs : List A) (x : A)
    → count_if p (xs ++ x ∷ []) ≡ (if p x then count_if p xs + 1 else count_if p xs)
count_if-snoc p [] x = ground arith
count_if-snoc p (y ∷ xs) x = ground (arith, count_if-snoc p xs x)

mark-counts :
    (row : AlertRecord) (seen : List AlertRecord) (leaves : List (ℕ × LeafOutcome))
    → (mark row leaves (map (matched_in seen) leaves)).1
      ≡ map (matched_in (seen ++ row ∷ [])) leaves
unfolding mark
mark-counts row seen [] = refl
mark-counts row seen ((k, leaf) ∷ leaves) = elim (Bool-cases (leaf_excludes_row leaf row)) [
  | inl yes' ↦
      ground
        (arith, yes', count_if-snoc (leaf_excludes_row leaf) seen row, mark-counts row seen leaves)
  | inr no' ↦
      ground
        (arith, no', count_if-snoc (leaf_excludes_row leaf) seen row, mark-counts row seen leaves)
]

pub mark-bits :
    (row : AlertRecord) (f : ℕ × LeafOutcome → ℕ) (leaves : List (ℕ × LeafOutcome))
    → (mark row leaves (map f leaves)).0 ≡ map (λ x. leaf_excludes_row x.1 row) leaves
unfolding mark
mark-bits row f [] = refl
mark-bits row f ((k, leaf) ∷ leaves) = elim (Bool-cases (leaf_excludes_row leaf row)) [
  | inl yes' ↦ ground (arith, yes', mark-bits row f leaves)
  | inr no' ↦ ground (arith, no', mark-bits row f leaves)
]

add-fed :
    (is : List PanelInterpretation) (seen : List AlertRecord) (row : AlertRecord)
    → (add (fed is seen) row).0 ≡ fed is (seen ++ row ∷ [])
unfolding add fed create
add-fed is seen row = cc (mark-counts row seen (owned 0 is), length_snoc seen row)
  where
    length_snoc : (xs : List AlertRecord) (x : AlertRecord) → length (xs ++ x ∷ []) ≡ length xs + 1
    length_snoc xs x = length-append xs (x ∷ [])

add_all-fed :
    (rows : List AlertRecord) (is : List PanelInterpretation) (seen : List AlertRecord)
    → add_all (fed is seen) rows ≡ fed is (seen ++ rows)
unfolding add_all
add_all-fed [] is seen = ap (fed is) (sym (append-nil seen))
add_all-fed (row ∷ rows) is seen =
    ap (λ s. add_all s rows) (add-fed is seen row)
    ∙ add_all-fed rows is (seen ++ row ∷ [])
    ∙ ap (fed is) (append_assoc seen (row ∷ []) rows)

fed-create : (is : List PanelInterpretation) → create is ≡ fed is []
unfolding create fed
fed-create is = refl

-- The accumulator after all rows.
pub add_all-create :
    (is : List PanelInterpretation) (rows : List AlertRecord)
    → add_all (create is) rows ≡ fed is rows
add_all-create is rows = ap (λ s. add_all s rows) (fed-create is) ∙ add_all-fed rows is []
