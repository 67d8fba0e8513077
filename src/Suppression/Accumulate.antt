-- ===== src/Suppression/Accumulate.antt =====
-- SuppressionAccumulator of src/suppression/stream.py: the whole-schema guard with one mask for
-- each row and no row retained. An int that is used as a set of bits is the list of its bits, the
-- one of weight 1 first, and a leaf object is known by the number of the panel that it belongs to.
use alerts_bi.Common.{
  ℕ, ◌+◌, Text, none, some, Bool, true, false, not, List, [], ◌∷◌, ◌++◌, eqb, ◌&&◌, if◌then◌else◌,
  keep, map, any, all,
}
use alerts_bi.Domain.Record.{AlertRecord}
use alerts_bi.Suppression.Leaves.{
  suppression, unmeasured, identity, identity_unmeasured, LeafOutcome, PanelInterpretation,
  leaf_excludes_row, leaf_hides_row,
}
use alerts_bi.Suppression.Evaluate.{Note, panel_note, leaf_note, exceeds, kept_leaf, guarded_leaf}

abbrev pub Bits : Type 0
Bits = List Bool

abbrev pub bit_and : Bits → Bits → Bits
bit_and [] bs = []
bit_and (a ∷ as') [] = []
bit_and (a ∷ as') (b ∷ bs) = (a && b) ∷ bit_and as' bs

-- An int is true if a bit is set.
abbrev pub is_set : Bits → Bool
is_set = any (λ b. b)

abbrev pub is_suppression : LeafOutcome → Bool
is_suppression leaf = elim leaf.kind [ suppression ↦ true | _ ↦ false ]

abbrev pub is_identity : LeafOutcome → Bool
is_identity leaf = elim leaf.kind [ identity ↦ true | _ ↦ false ]

pub record Accumulator : Type 0 where
  pub interpretations : List PanelInterpretation
  -- Each leaf with the number of its panel.
  pub leaves : List (ℕ × LeafOutcome)
  pub matches : List ℕ
  pub panel_masks : List Bits
  pub identity_leaves : List (List LeafOutcome)
  pub total : ℕ
  pub active_mask : Bits

unfoldable pub owned : ℕ → List PanelInterpretation → List (ℕ × LeafOutcome)
owned k [] = []
owned k (p ∷ ps) = map (λ leaf. (k, leaf)) (keep is_suppression p.leaves) ++ owned (k + 1) ps

unfoldable pub masks : ℕ → List PanelInterpretation → List (ℕ × LeafOutcome) → List Bits
masks k [] leaves = []
masks k (p ∷ ps) leaves = map (λ (x : ℕ × LeafOutcome). eqb x.0 k) leaves ∷ masks (k + 1) ps leaves

-- `__init__`, behind the interpretation of the panels.
unfoldable pub create : List PanelInterpretation → Accumulator
unfolding owned masks
create interpretations =
    let leaves = owned 0 interpretations in
    record {
      interpretations = interpretations;
      leaves = leaves;
      matches = map (λ _. 0) leaves;
      panel_masks = masks 0 interpretations leaves;
      identity_leaves =
          map (λ (p : PanelInterpretation). keep is_identity p.leaves) interpretations;
      total = 0;
      active_mask = [];
    }

-- The loop of `add` over the leaves: the mask, and the counts of matches.
unfoldable pub mark : AlertRecord → List (ℕ × LeafOutcome) → List ℕ → Bits × List ℕ
unfolding leaf_excludes_row
mark row [] matches = ([], [])
mark row (x ∷ leaves) [] = ([], [])
mark row ((k, leaf) ∷ leaves) (n ∷ matches) =
    let (bits, counts) = mark row leaves matches in
    if leaf_excludes_row leaf row
    then (true ∷ bits, (n + 1) ∷ counts)
    else (false ∷ bits, n ∷ counts)

-- `bool(xs) and all(...)`.
abbrev pub all_of_some {ℓ} : {A : Type ℓ} → (A → Bool) → List A → Bool
all_of_some p [] = false
all_of_some p (x ∷ xs) = all p (x ∷ xs)

unfoldable pub add : Accumulator → AlertRecord → Accumulator × (Bits × Bool)
unfolding mark leaf_hides_row
add s row =
    let (mask, counts) = mark row s.leaves s.matches in
    let hidden =
      all_of_some (λ leaves. any (λ leaf. leaf_hides_row leaf row) leaves) s.identity_leaves in
    (record s { total = s.total + 1; matches = counts }, (mask, hidden))

unfoldable pub add_all : Accumulator → List AlertRecord → Accumulator
unfolding add
add_all s [] = s
add_all s (row ∷ rows) = add_all (add s row).0 rows

-- The first loop of `finish`: the bits of `active_mask`.
unfoldable pub active_bits : ℕ → List ℕ → Bits
unfolding exceeds
active_bits total [] = []
active_bits total (matched ∷ matches) = not (exceeds matched total) ∷ active_bits total matches

-- What that loop writes into the leaves of the panels, which are the leaves of the list: each
-- suppression leaf takes the next count.
unfoldable pub settle_leaf : ℕ → LeafOutcome → List ℕ → LeafOutcome × List ℕ
unfolding exceeds
settle_leaf total leaf [] = (leaf, [])
settle_leaf total leaf (matched ∷ matches) =
    if is_suppression leaf
    then (
      if exceeds matched total then guarded_leaf matched total leaf else kept_leaf matched leaf,
      matches,
    )
    else (leaf, matched ∷ matches)

unfoldable pub settle : ℕ → List LeafOutcome → List ℕ → List LeafOutcome × List ℕ
settle total [] matches = ([], matches)
settle total (leaf ∷ leaves) matches =
    let (leaf', rest) = settle_leaf total leaf matches in
    let (leaves', rest') = settle total leaves rest in (leaf' ∷ leaves', rest')

unfoldable pub settle_panels : ℕ → List PanelInterpretation → List ℕ → List PanelInterpretation
settle_panels total [] matches = []
settle_panels total (p ∷ ps) matches =
    let (leaves', rest) = settle total p.leaves matches in
    record p { leaves = leaves' } ∷ settle_panels total ps rest

pub record Counts : Type 0 where
  pub unmeasured : ℕ
  pub unseen_unmeasured : ℕ
  pub notes : List Note

-- The second loop of `finish`.
unfoldable pub count_leaf : Text → Counts → LeafOutcome → Counts
count_leaf id c leaf =
    let note = leaf_note id leaf.field leaf.reason in
    elim leaf.kind [
      | unmeasured ↦ record c { unmeasured = c.unmeasured + 1; notes = c.notes ++ note ∷ [] }
      | identity_unmeasured ↦ record c {
        unseen_unmeasured = c.unseen_unmeasured + 1;
        notes = c.notes ++ note ∷ [];
      }
      | _ ↦ c
    ]

unfoldable pub count_leaves : Text → Counts → List LeafOutcome → Counts
count_leaves id c [] = c
count_leaves id c (leaf ∷ leaves) = count_leaves id (count_leaf id c leaf) leaves

unfoldable pub count_panels : Counts → List PanelInterpretation → Counts
count_panels c [] = c
count_panels c (p ∷ ps) =
    let c' : Counts = elim p.unparseable [
      | none ↦ c
      | some problem ↦ record {
        unmeasured = c.unmeasured + 1;
        unseen_unmeasured = c.unseen_unmeasured + 1;
        notes = c.notes ++ panel_note p.panel_id problem ∷ [];
      }
    ] in
    count_panels (count_leaves p.panel_id c' p.leaves) ps

pub record SuppressionSummary : Type 0 where
  pub unmeasured_leaves : ℕ
  pub interpretations : List PanelInterpretation
  pub notes : List Note
  pub unseen_unmeasured : ℕ

abbrev pub no_counts : Counts
no_counts = record { unmeasured = 0; unseen_unmeasured = 0; notes = [] }

unfoldable pub finish : Accumulator → Accumulator × SuppressionSummary
unfolding active_bits settle_panels settle settle_leaf count_panels count_leaves count_leaf
finish s =
    let settled = settle_panels s.total s.interpretations s.matches in
    let c = count_panels no_counts settled in
    (
      record s { active_mask = active_bits s.total s.matches; interpretations = settled },
      record {
        unmeasured_leaves = c.unmeasured;
        interpretations = settled;
        notes = c.notes;
        unseen_unmeasured = c.unseen_unmeasured;
      },
    )

unfoldable pub suppressed : Accumulator → Bits → Bool
suppressed s mask =
    all_of_some (λ panel_mask. is_set (bit_and (bit_and mask panel_mask) s.active_mask))
      s.panel_masks
