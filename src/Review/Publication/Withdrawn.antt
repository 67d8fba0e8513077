-- ===== src/Review/Publication/Withdrawn.antt =====
-- What a withdrawal changes: one row.
use alerts_bi.Common.{
  Text, ℕ, ◌≡◌, ◌≢◌, refl, sym, ap, ◌∙◌, subst, Option, none, some, Bool, true, false, ◌&&◌, List,
  [], ◌∷◌, ◌++◌, map, arith, All, eqb, eqb_iff, text_eq, ◌==◌, find_first, Bool-cases, Option-cases,
  inl, inr, if◌then◌else◌,
}
use alerts_bi.Common.Unicode.{Unicode}
use alerts_bi.Common.Result.{ok, Result-cases}
use alerts_bi.Review.Publication.{
  Withdrawal, Publication, Database, is_current, unpublish_run, clean, reason_limit,
}

-- The key of the table: no two rows have one id.
unfoldable pub IsKeyed : List Publication → Type 0
IsKeyed [] = Unit
IsKeyed (q ∷ qs) = All (λ (x : Publication). x.publication_id ≢ q.publication_id) qs × IsKeyed qs

-- The row publishes the run and is not withdrawn.
abbrev pub publishes : Text → Publication → Bool
publishes run_id p = p.run_id == run_id && is_current p

-- The update of the rows with the id.
abbrev withdrawn : ℕ → Withdrawal → Publication → Publication
withdrawn id why q = if eqb q.publication_id id then record q { withdrawal = some why } else q

withdrawn-others :
    (id : ℕ) (why : Withdrawal) (qs : List Publication)
    → All (λ (x : Publication). x.publication_id ≢ id) qs
    → map (withdrawn id why) qs ≡ qs
withdrawn-others id why [] h = refl
withdrawn-others id why (q ∷ qs) h = elim (Bool-cases (eqb q.publication_id id)) [
  | inl e ↦ absurd (h.0 ((eqb_iff q.publication_id id).0 e))
  | inr e ↦ rw (e, withdrawn-others id why qs h.1) refl
]

found-All :
    (P : Publication → Type 0) (pred : Publication → Bool) (qs : List Publication) (p : Publication)
    → find_first pred qs ≡ some p
    → All P qs
    → P p
found-All P pred [] p h a = absurd (ground (arith, h))
found-All P pred (q ∷ qs) p h a = elim (Bool-cases (pred q)) [
  | inl e ↦ subst P (ground (arith, h, e)) a.0
  | inr e ↦ found-All P pred qs p (ground (arith, h, e)) a.1
]

-- The first row that publishes the run, where it stands among the rows, and the rows with it
-- withdrawn.
abbrev pub IsWithdrawn : Text → Withdrawal → List Publication → List Publication → Type 0
IsWithdrawn run_id why rows after =
    (front : List Publication) × (p : Publication) × (back : List Publication) × (rows
      ≡ front ++ (p ∷ back))
    × All (λ q. publishes run_id q ≡ false) front
    × (publishes run_id p ≡ true)
    × (after ≡ front ++ (record p { withdrawal = some why } ∷ back))

withdrawn-IsWithdrawn :
    (run_id : Text) (why : Withdrawal) (rows : List Publication) (p : Publication)
    → IsKeyed rows
    → find_first (publishes run_id) rows ≡ some p
    → IsWithdrawn run_id why rows (map (withdrawn p.publication_id why) rows)
unfolding IsKeyed
withdrawn-IsWithdrawn run_id why [] p k h = absurd (ground (arith, h))
withdrawn-IsWithdrawn run_id why (q ∷ qs) p k h = elim (Bool-cases (publishes run_id q)) [
  | inl e ↦
      let same : q ≡ p = ground (arith, h, e) in
      subst
        (λ (x : Publication).
          IsWithdrawn run_id why (q ∷ qs) (map (withdrawn x.publication_id why) (q ∷ qs)))
        same
        (
          [],
          q,
          qs,
          refl,
          tt,
          e,
          rw
              (
                (eqb_iff q.publication_id q.publication_id).1 refl,
                withdrawn-others q.publication_id why qs k.0,
              )
              refl,
        )
  | inr e ↦
      let found : find_first (publishes run_id) qs ≡ some p = ground (arith, h, e) in
      let other : p.publication_id ≢ q.publication_id =
        found-All (λ (x : Publication). x.publication_id ≢ q.publication_id) (publishes run_id) qs p
          found k.0 in
      let (front, x, back, split, before, is_it, after) =
        withdrawn-IsWithdrawn run_id why qs p k.1 found in
      let kept : withdrawn p.publication_id why q ≡ q =
        elim (Bool-cases (eqb q.publication_id p.publication_id)) [
          | inl f ↦ absurd (other (sym ((eqb_iff q.publication_id p.publication_id).0 f)))
          | inr f ↦ rw f refl
        ] in
      (
        q ∷ front,
        x,
        back,
        ap (λ l. q ∷ l) split,
        (e, before),
        is_it,
        ap (λ z. z ∷ map (withdrawn p.publication_id why) qs) kept ∙ ap (λ l. q ∷ l) after,
      )
]

module _ ⦃u : Unicode⦄ where
  -- A withdrawal that succeeds has an operator and a reason, cleaned and not blank, and changes one
  -- row of the publications: the first that publishes the run and is not withdrawn, which keeps
  -- its fields but for the withdrawal at that time. The other rows stay as they are, in their order,
  -- and so does the rest of the tables. The ids of the rows are a key.
  pub unpublish_run-IsWithdrawn :
      (run_id : Text) (by reason : Option Text) (at : ℕ) (db out : Database)
      → unpublish_run run_id by reason at db ≡ ok out
      → IsKeyed db.publications
      → (by' : Text) × (why : Text) × (clean by 128 ≡ ok (some by'))
        × (clean reason reason_limit ≡ ok (some why))
        × (out ≡ record db { publications = out.publications })
        × IsWithdrawn run_id
            (record { withdrawn_at = at; withdrawn_by = by'; withdrawn_reason = why })
            db.publications
            out.publications
  unfolding unpublish_run
  unpublish_run-IsWithdrawn run_id by reason at db out h k = elim (Result-cases (clean by 128)) [
    | inl (e, c) ↦ absurd (ground (arith, c, h))
    | inr (none, c) ↦ elim (Result-cases (clean reason reason_limit)) [
      | inl (e, d) ↦ absurd (ground (arith, c, d, h))
      | inr (why, d) ↦ absurd (ground (arith, c, d, h))
    ]
    | inr (some by', c) ↦ elim (Result-cases (clean reason reason_limit)) [
      | inl (e, d) ↦ absurd (ground (arith, c, d, h))
      | inr (none, d) ↦ absurd (ground (arith, c, d, h))
      | inr (some why, d) ↦ elim (Option-cases (find_first (publishes run_id) db.publications)) [
        | inl f ↦ absurd (ground (arith, c, d, f, h))
        | inr (p, f) ↦
            let w : Withdrawal = record {
              withdrawn_at = at;
              withdrawn_by = by';
              withdrawn_reason = why;
            } in
            let stored : record db {
              publications = map (withdrawn p.publication_id w) db.publications;
            }
                ≡ out =
              ground (arith, c, d, f, h) in
            (
              by',
              why,
              c,
              d,
              sym stored
                  ∙ ap (λ (o : Database). record db { publications = o.publications }) stored,
              subst (λ (o : Database). IsWithdrawn run_id w db.publications o.publications) stored
                  (withdrawn-IsWithdrawn run_id w db.publications p k f),
            )
      ]
    ]
  ]
