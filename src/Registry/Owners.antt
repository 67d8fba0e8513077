-- ===== src/Registry/Owners.antt =====
-- The operators that a team claims without a problem are its own, and those of the teams in front of
-- it stay theirs.
use alerts_bi.Common.{
  Text, subst, ◌≡◌, refl, sym, ap, ◌∙◌, none, some, Option-cases, Bool-cases, List, [], ◌∷◌, ◌==◌,
  text_eq, text_beq_iff, inl, inr, All, All-map, arith,
}
use alerts_bi.Registry.{Owners, Problem, owner_of, other_owner, claim_operators}

-- Who owns an operator, if anyone, is the team.
abbrev pub IsFree : Owners → Text → Text → Type 0
IsFree seen team operator = (owner : Text) → owner_of seen operator ≡ some owner → owner ≡ team

abbrev pub Keeps : Owners → Owners → Type 0
Keeps seen later =
    (operator owner : Text)
    → owner_of seen operator ≡ some owner
    → owner_of later operator ≡ some owner

other_owner-none :
    (seen : Owners) (team operator : Text)
    → other_owner seen team operator ≡ none
    → IsFree seen team operator
unfolding other_owner
other_owner-none seen team operator h owner found = elim (Bool-cases (owner == team)) [
  | inl e ↦ (text_beq_iff owner team).0 e
  | inr e ↦ absurd (ground (arith, h, found, e))
]

owner_of-claimed :
    (seen : Owners) (team operator : Text) → owner_of ((operator, team) ∷ seen) operator ≡ some team
unfolding owner_of
owner_of-claimed seen team operator = rw ((text_beq_iff operator operator).1 refl) refl

owner_of-kept :
    (seen : Owners) (team operator : Text)
    → IsFree seen team operator
    → Keeps seen ((operator, team) ∷ seen)
unfolding owner_of
owner_of-kept seen team operator free other owner found = elim (Bool-cases (operator == other)) [
  | inl e ↦
      let same : operator ≡ other = (text_beq_iff operator other).0 e in
      rw (e) (ap some (sym (free owner (ap (owner_of seen) same ∙ found))))
  | inr e ↦ rw (e) found
]

claim_operators-none :
    (team operator : Text) (rest : List Text) (seen : Owners)
    → other_owner seen team operator ≡ none
    → claim_operators team (operator ∷ rest) seen
      ≡ claim_operators team rest ((operator, team) ∷ seen)
unfolding claim_operators
claim_operators-none team operator rest seen h = ground (arith, h)

pub claim_operators-kept :
    (team : Text) (operators : List Text) (seen : Owners)
    → (claim_operators team operators seen).0 ≡ []
    → Keeps seen (claim_operators team operators seen).1
      × All (IsFree seen team) operators
      × All
          (λ operator. owner_of (claim_operators team operators seen).1 operator ≡ some team)
          operators
unfolding claim_operators
claim_operators-kept team [] seen h = ((λ operator owner found. found), tt, tt)
claim_operators-kept team (operator ∷ rest) seen h =
    elim (Option-cases (other_owner seen team operator)) [
      | inr (owner, e) ↦ absurd (ground (arith, h, e))
      | inl e ↦
          let next : Owners = (operator, team) ∷ seen in
          let free = other_owner-none seen team operator e in
          let kept = owner_of-kept seen team operator free in
          let clean : (claim_operators team rest next).0 ≡ [] =
            ap (λ (r : List Problem × Owners). r.0)
              (sym (claim_operators-none team operator rest seen e))
            ∙ h in
          let later = claim_operators-kept team rest next clean in
          subst
            (λ (r : List Problem × Owners).
              Keeps seen r.1
              × All (IsFree seen team) (operator ∷ rest)
              × All (λ o. owner_of r.1 o ≡ some team) (operator ∷ rest))
            (sym (claim_operators-none team operator rest seen e))
            (
              (λ other owner found. later.0 other owner (kept other owner found)),
              (
                free,
                All-map rest (λ other f owner found. f owner (kept other owner found)) later.1,
              ),
              (later.0 operator team (owner_of-claimed seen team operator), later.2),
            )
    ]
