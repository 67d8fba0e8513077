-- ===== src/Rules/Firing/Order.antt =====
-- The order of the events that `sorted` leaves behind: by instant, and firing before clearing. The
-- document hash does not show in it.
use mathlib.Core.List.{map}
use alerts_bi.Common.{
  ℕ, ◌+◌, ◌*◌, ◌≤◌, ◌≡◌, refl, sym, inl, inr, true, false, List, [], ◌∷◌, ◌++◌, arith, ltb,
  if◌then◌else◌, Bool-cases, All, All-map, subst,
}
use alerts_bi.Common.Sorting.{insert_sorted}
use alerts_bi.Domain.Record.{AlertRecord}
use alerts_bi.Rules.Firing.Batch.{Event, event_of, row_ltb}

-- The pair (instant, clears) as one number.
abbrev pub rank : Event → ℕ
rank e = 2 * e.time + (if e.clear then 1 else 0)

pub rank-injective : (a b : Event) → rank a ≡ rank b → a ≡ b
rank-injective a b h = ground arith

-- An event goes behind those that are not greater.
unfoldable pub ins : Event → List Event → List Event
ins e [] = e ∷ []
ins e (x ∷ xs) = let rest = ins e xs in if ltb (rank e) (rank x) then e ∷ x ∷ xs else x ∷ rest

abbrev pub From : ℕ → List Event → Type 0
From n = All (λ x. n ≤ rank x)

abbrev pub IsSorted : List Event → Type 0
IsSorted [] = Unit
IsSorted (x ∷ xs) = From (rank x) xs × IsSorted xs

ins-least : (e : Event) (xs : List Event) → From (rank e) xs → ins e xs ≡ e ∷ xs
unfolding ins
ins-least e [] h = refl
ins-least e (x ∷ xs) h = elim (Bool-cases (ltb (rank e) (rank x))) [
  | inl less ↦ rw less
  | inr more ↦
      let same : e ≡ x = rank-injective e x (ground arith) in
      rw more (rw (ins-least e xs h.1) (cc same))
]

row_ltb-rank : (a b : AlertRecord) → row_ltb a b ≡ true → rank (event_of a) ≤ rank (event_of b)
unfolding row_ltb
row_ltb-rank a b h = ground arith

not-row_ltb-rank : (a b : AlertRecord) → row_ltb a b ≡ false → rank (event_of b) ≤ rank (event_of a)
unfolding row_ltb
not-row_ltb-rank a b h = ground arith

pub map-insert_sorted :
    (r : AlertRecord) (rows : List AlertRecord)
    → IsSorted (map event_of rows)
    → map event_of (insert_sorted row_ltb r rows) ≡ ins (event_of r) (map event_of rows)
unfolding insert_sorted ins
map-insert_sorted r [] s = refl
map-insert_sorted r (y ∷ rows) s = elim (Bool-cases (row_ltb r y)) [
  | inr more ↦ rw more (ground (arith, not-row_ltb-rank r y more, map-insert_sorted r rows s.1))
  | inl less ↦ rw less (elim (Bool-cases (ltb (rank (event_of r)) (rank (event_of y)))) [
    | inl before ↦ rw before
    | inr tie ↦
        let same : event_of r ≡ event_of y =
          rank-injective (event_of r) (event_of y) (ground (arith, row_ltb-rank r y less)) in
        let below : From (rank (event_of r)) (map event_of rows) =
          subst (λ z. From (rank z) (map event_of rows)) (sym same) s.0 in
        rw tie (rw (ins-least (event_of r) (map event_of rows) below) (cc same))
  ])
]

From-ins : (n : ℕ) (e : Event) (xs : List Event) → n ≤ rank e → From n xs → From n (ins e xs)
unfolding ins
From-ins n e [] h k = (h, tt)
From-ins n e (x ∷ xs) h k = ground (arith, From-ins n e xs h k.1)

pub ins-IsSorted : (e : Event) (xs : List Event) → IsSorted xs → IsSorted (ins e xs)
unfolding ins
ins-IsSorted e [] s = (tt, tt)
ins-IsSorted e (x ∷ xs) s = elim (Bool-cases (ltb (rank e) (rank x))) [
  | inl less ↦
      let le : rank e ≤ rank x = ground arith in
      rw less ((le, All-map xs (λ y h. omega arith) s.0), s)
  | inr more ↦ rw more (From-ins (rank x) e xs (ground arith) s.0, ins-IsSorted e xs s.1)
]

-- What is not greater is passed over.
pub ins-skip :
    (e : Event) (xs ys : List Event)
    → All (λ x. rank x ≤ rank e) xs
    → ins e (xs ++ ys) ≡ xs ++ ins e ys
unfolding ins
ins-skip e [] ys h = refl
ins-skip e (x ∷ xs) ys h = ground (arith, ins-skip e xs ys h.1)
