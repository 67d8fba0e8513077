-- ===== src/Rules/Counts/Direct.antt =====
-- The counts of the dicts are those of the findings on each date.
use alerts_bi.Common.{
  Text, ℕ, suc, ◌+◌, ◌≡◌, refl, ap, sym, ◌∙◌, Option, none, some, true, false, ◌&&◌, List, [], ◌∷◌,
  map, eqb, eqb_iff, length, text_eq, find_first, arith, Bool-cases, inl, inr, &&-true, keep,
}
use alerts_bi.Common.Sorting.{gather}
use alerts_bi.Rules.Catalogs.{RuleId}
use alerts_bi.Rules.Engine.{EvaluatedRow, compare_rule_ids, all_rule_ids}
use alerts_bi.Rules.Counts.{
  RuleBucketCount, Tally, Match, is_key, bump, insert_text, matches_of, tally, bucket_at, bucket_of,
  compute_daily_rule_counts,
}

-- The identities of the matches of a rule on a date, one for each match.
abbrev pub hits : ℕ → ℕ → List Match → List Text
hits date rule ms =
    map (λ (m : Match). m.identity) (keep (λ (m : Match). eqb m.date date && eqb m.rule rule) ms)

-- Texts without their repetitions, behind those seen.
abbrev pub distinct_onto : List Text → List Text → List Text
distinct_onto seen [] = seen
distinct_onto seen (t ∷ ts) = distinct_onto (insert_text seen t) ts

-- The bucket of a date and a rule: none without a match.
abbrev pub direct_entry : ℕ → RuleId → List Text → List RuleBucketCount
direct_entry date id [] = []
direct_entry date id (t ∷ ts) =
    record {
      snapshot_date = date;
      rule_id = id;
      match_count = length (t ∷ ts);
      distinct_count = length (distinct_onto [] (t ∷ ts));
    }
    ∷ []

unfoldable pub direct_bucket : List Match → ℕ → RuleId → List RuleBucketCount
direct_bucket ms date id = direct_entry date id (hits date (compare_rule_ids id) ms)

-- A tally with more identities counted.
abbrev grown : ℕ → ℕ → Option Tally → List Text → Option Tally
grown date rule o [] = o
grown date rule none (t ∷ ts) =
    grown date rule (some (record { date = date; rule = rule; count = 1; identities = t ∷ [] })) ts
grown date rule (some k) (t ∷ ts) =
    grown date rule
      (some (record k { count = k.count + 1; identities = insert_text k.identities t })) ts

same_key :
    (a b c d e f : ℕ) → (eqb a c && eqb b d) ≡ true → (eqb a e && eqb b f) ≡ (eqb c e && eqb d f)
same_key a b c d e f h =
    let (p, q) = &&-true (eqb a c) (eqb b d) h in
    let first : a ≡ c = (eqb_iff a c).0 p in
    let second : b ≡ d = (eqb_iff b d).0 q in rw (first, second) refl

-- A bump grows the tally of its key, and no other.
find-bump-own :
    (date rule : ℕ) (id : Text) (ts : List Tally)
    → find_first (is_key date rule) (bump date rule id ts)
      ≡ grown date rule (find_first (is_key date rule) ts) (id ∷ [])
unfolding bump
find-bump-own date rule id [] =
    let own : (eqb date date && eqb rule rule) ≡ true = ground arith in rw own refl
find-bump-own date rule id (t ∷ ts) = elim (Bool-cases (is_key date rule t)) [
  | inl e ↦ rw (e, e) refl
  | inr e ↦ rw (e, e) (find-bump-own date rule id ts)
]

find-bump-other :
    (date rule d r : ℕ) (id : Text) (ts : List Tally)
    → (eqb d date && eqb r rule) ≡ false
    → find_first (is_key date rule) (bump d r id ts) ≡ find_first (is_key date rule) ts
unfolding bump
find-bump-other date rule d r id [] h = rw h refl
find-bump-other date rule d r id (t ∷ ts) h = elim (Bool-cases (is_key d r t)) [
  | inl e ↦
      let differs : is_key date rule t ≡ false = same_key t.date t.rule d r date rule e ∙ h in
      rw (e, differs) refl
  | inr e ↦ elim (Bool-cases (is_key date rule t)) [
    | inl f ↦ rw (e, f) refl
    | inr f ↦ rw (e, f) (find-bump-other date rule d r id ts h)
  ]
]

bump-at :
    (date rule d r : ℕ) (id : Text) (ts : List Tally)
    → d ≡ date
    → r ≡ rule
    → find_first (is_key date rule) (bump d r id ts)
      ≡ grown date rule (find_first (is_key date rule) ts) (id ∷ [])
bump-at date rule d r id ts h k = rw (h, k) (find-bump-own date rule id ts)

grown-cons :
    (date rule : ℕ) (o : Option Tally) (id : Text) (ids : List Text)
    → grown date rule o (id ∷ ids) ≡ grown date rule (grown date rule o (id ∷ [])) ids
grown-cons date rule none id ids = refl
grown-cons date rule (some t) id ids = refl

find-tally :
    (date rule : ℕ) (ts : List Tally) (ms : List Match)
    → find_first (is_key date rule) (tally ts ms)
      ≡ grown date rule (find_first (is_key date rule) ts) (hits date rule ms)
unfolding tally
find-tally date rule ts [] = refl
find-tally date rule ts (m ∷ ms) =
    let next = bump m.date m.rule m.identity ts in
    let rest = find-tally date rule next ms in
    elim (Bool-cases (eqb m.date date && eqb m.rule rule)) [
      | inl e ↦
          let (p, q) = &&-true (eqb m.date date) (eqb m.rule rule) e in
          let day : m.date ≡ date = (eqb_iff m.date date).0 p in
          let number : m.rule ≡ rule = (eqb_iff m.rule rule).0 q in
          let own = bump-at date rule m.date m.rule m.identity ts day number in
          rw e (
            rest
            ∙ ap (λ o. grown date rule o (hits date rule ms)) own
            ∙ sym (
                grown-cons date rule (find_first (is_key date rule) ts) m.identity
                  (hits date rule ms)))
      | inr e ↦ rw e (
          rest
          ∙ ap (λ o. grown date rule o (hits date rule ms))
              (find-bump-other date rule m.date m.rule m.identity ts e))
    ]

-- What a tally has grown to is the number of what it has counted and of the distinct ones.
grown-some :
    (date rule : ℕ) (id : RuleId) (t : Tally) (ids : List Text)
    → bucket_at date id (grown date rule (some t) ids)
      ≡ record {
        snapshot_date = date;
        rule_id = id;
        match_count = t.count + length ids;
        distinct_count = length (distinct_onto t.identities ids);
      }
        ∷ []
grown-some date rule id t [] = let whole : t.count + 0 ≡ t.count = omega arith in rw whole refl
grown-some date rule id t (i ∷ ids) =
    let whole : t.count + suc (length ids) ≡ t.count + 1 + length ids = omega arith in
    rw whole (
      grown-some date rule id
        (record t { count = t.count + 1; identities = insert_text t.identities i }) ids)

direct_entry-grown :
    (date rule : ℕ) (id : RuleId) (found : List Text)
    → bucket_at date id (grown date rule none found) ≡ direct_entry date id found
direct_entry-grown date rule id [] = refl
direct_entry-grown date rule id (t ∷ ts) =
    let grows =
      grown-some date rule id (record { date = date; rule = rule; count = 1; identities = t ∷ [] })
        ts in
    let whole : 1 + length ts ≡ suc (length ts) = omega arith in
    grows
    ∙ ap
        (λ n.
          record {
            snapshot_date = date;
            rule_id = id;
            match_count = n;
            distinct_count = length (distinct_onto (t ∷ []) ts);
          }
          ∷ [])
        whole

bucket_of-direct :
    (ms : List Match) (date : ℕ) (id : RuleId)
    → bucket_of (tally [] ms) date id ≡ direct_bucket ms date id
unfolding bucket_of direct_bucket
bucket_of-direct ms date id =
    let rule = compare_rule_ids id in
    ap (bucket_at date id) (find-tally date rule [] ms)
    ∙ direct_entry-grown date rule id (hits date rule ms)

gather-same {ℓ κ} :
    {A : Type ℓ} {B : Type κ} (f g : A → List B) (xs : List A)
    → ((x : A) → f x ≡ g x)
    → gather f xs ≡ gather g xs
gather-same f g [] h = refl
gather-same f g (x ∷ xs) h = rw (h x, gather-same f g xs h) refl

-- The daily counts have a bucket, by date and then by rule, for each rule with a finding on a row of
-- that date: with the number of such findings, and of the identities that have one.
pub compute_daily_rule_counts-direct :
    (rows : List EvaluatedRow) (dates : List ℕ)
    → compute_daily_rule_counts rows dates
      ≡ gather (λ date. gather (direct_bucket (gather matches_of rows) date) all_rule_ids) dates
unfolding compute_daily_rule_counts
compute_daily_rule_counts-direct rows dates =
    let ms = gather matches_of rows in
    gather-same _ _ dates (λ date.
      gather-same (bucket_of (tally [] ms) date) (direct_bucket ms date) all_rule_ids
        (bucket_of-direct ms date))
