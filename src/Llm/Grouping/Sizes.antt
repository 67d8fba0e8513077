-- ===== src/Llm/Grouping/Sizes.antt =====
-- The sizes of a balanced partition.
use native.Mathlib.Nat.{
  mul-le-mul_left, mul-le-mul_right, div-add-mod, mod-lt, mul_comm, mul-suc, mul-zero,
}
use alerts_bi.Common.{
  ℕ, zero, suc, ◌+◌, ◌-◌, ◌*◌, ◌/◌, ◌%◌, ◌≤◌, ◌<◌, ◌≡◌, refl, min, false, ltb, eqb, arith, sum,
  length, All, All-map, leb, leb→le, ltb→lt, Bool-cases, inl, inr,
}
use alerts_bi.Llm.Grouping.{sizes_from, balanced_partition_sizes}

sizes_from-sum :
    (base remainder i left : ℕ)
    → sum (sizes_from base remainder i left)
      ≡ left * base + (min remainder (i + left) - min remainder i)
unfolding sizes_from
sizes_from-sum base remainder i zero = omega arith
sizes_from-sum base remainder i (suc left) =
    ground (arith, sizes_from-sum base remainder (i + 1) left)

sizes_from-length : (base remainder i left : ℕ) → length (sizes_from base remainder i left) ≡ left
unfolding sizes_from
sizes_from-length base remainder i zero = refl
sizes_from-length base remainder i (suc left) =
    omega (arith, sizes_from-length base remainder (i + 1) left)

sizes_from-All :
    (base remainder i left : ℕ)
    → All
        (λ s. (base ≤ s) × (s ≤ base + 1) × (remainder ≡ 0 → s ≡ base))
        (sizes_from base remainder i left)
unfolding sizes_from
sizes_from-All base remainder i zero = tt
sizes_from-All base remainder i (suc left) =
    (ground arith, sizes_from-All base remainder (i + 1) left)

-- `base` and `remainder` stay within the maximum: with a remainder, the base is less.
base_bound :
    (n maximum count base remainder : ℕ)
    → count * base + remainder ≡ n
    → n ≤ maximum * count
    → 0 < count
    → (base ≤ maximum) × (0 < remainder → base < maximum)
base_bound n maximum count base remainder split enough positive = (below, λ h. below_all h)
  where
    comm : maximum * count ≡ count * maximum
    comm = mul_comm maximum count

    below : base ≤ maximum
    below = elim (Bool-cases (leb base maximum)) [
      | inl e ↦ leb→le base maximum e
      | inr e ↦
          let above : suc maximum ≤ base = ground arith in
          let scaled : count * suc maximum ≤ count * base = mul-le-mul_left count above in
          let spread : count * suc maximum ≡ count * maximum + count = mul-suc count maximum in
          omega (arith, scaled, spread, comm)
    ]

    below_all : 0 < remainder → base < maximum
    below_all h = elim (Bool-cases (ltb base maximum)) [
      | inl e ↦ ltb→lt base maximum e
      | inr e ↦
          let above : maximum ≤ base = ground arith in
          let scaled : count * maximum ≤ count * base = mul-le-mul_left count above in
          omega (arith, scaled, comm)
    ]

factor_positive : (maximum count n : ℕ) → n ≤ maximum * count → 0 < n → 0 < count
factor_positive maximum zero n le h = omega (arith, mul-zero maximum)
factor_positive maximum (suc count) n le h = omega arith

count_le :
    (maximum count n : ℕ) → 0 < maximum → 0 < count → maximum * count < n + maximum → count ≤ n
count_le maximum zero n positive nonempty less = omega arith
count_le maximum (suc count) n positive nonempty less =
    let scaled : 1 * count ≤ maximum * count = mul-le-mul_right count positive in
    omega (arith, scaled, mul-suc maximum count)

size_bound :
    (base remainder maximum s : ℕ)
    → s ≤ base + 1
    → (remainder ≡ 0 → s ≡ base)
    → (base ≤ maximum) × (0 < remainder → base < maximum)
    → s ≤ maximum
size_bound base remainder maximum s le same bound = ground arith

-- A base of at least one.
base_positive :
    (n count base remainder : ℕ)
    → count * base + remainder ≡ n
    → remainder < count
    → count ≤ n
    → 0 < base
base_positive n count zero remainder split rest le = omega (arith, mul-zero count)
base_positive n count (suc base) remainder split rest le = omega arith

-- The number of partitions is the quotient rounded up.
count_lem :
    (n maximum count : ℕ)
    → 0 < maximum
    → count ≡ (n + maximum - 1) / maximum
    → 0 < n
    → (n ≤ maximum * count) × (maximum * count < n + maximum) × (0 < count)
count_lem n maximum count positive c h =
    let d = div-add-mod (n + maximum - 1) maximum in
    let m = mod-lt (n + maximum - 1) positive in
    let d' : maximum * count + (n + maximum - 1) % maximum ≡ n + maximum - 1 = rw c d in
    let enough : n ≤ maximum * count = omega (arith, d', m) in
    (enough, omega (arith, d', m), factor_positive maximum count n enough h)

-- The sizes into which a positive number of alerts is split, for a positive maximum: they add up to
-- it, none is greater than the maximum, any two differ by one at most, and there are no more of
-- them than it takes.
pub balanced_partition_sizes_lem :
    (n maximum : ℕ)
    → 0 < maximum
    → 0 < n
    → (sum (balanced_partition_sizes n maximum) ≡ n)
      × (maximum * length (balanced_partition_sizes n maximum) < n + maximum)
      × ((base : ℕ) × All
            (λ size. (base ≤ size) × (size ≤ base + 1) × (0 < size) × (size ≤ maximum))
            (balanced_partition_sizes n maximum))
unfolding balanced_partition_sizes
balanced_partition_sizes_lem n maximum positive h =
    let nonzero : eqb n 0 ≡ false = ground arith in
    let count = (n + maximum - 1) / maximum in
    let c = count_lem n maximum count positive refl h in
    let split = div-add-mod n count in
    let rest = mod-lt n c.2 in
    let total = sizes_from-sum (n / count) (n % count) 0 count in
    let len = sizes_from-length (n / count) (n % count) 0 count in
    let bound = base_bound n maximum count (n / count) (n % count) split c.0 c.2 in
    let some_left =
      base_positive n count (n / count) (n % count) split rest
        (count_le maximum count n positive c.2 c.1) in
    rw nonzero (
      omega (arith, total, split, rest),
      rw len c.1,
      (
        n / count,
        All-map _
            (λ s b. (
              b.0,
              b.1,
              omega (arith, b.0, some_left),
              size_bound (n / count) (n % count) maximum s b.1 b.2 bound,
            ))
            (sizes_from-All (n / count) (n % count) 0 count),
      ),
    )

-- The same for no alerts at all, which are split into nothing.
pub sizes_fit :
    (n maximum : ℕ)
    → 0 < maximum
    → (sum (balanced_partition_sizes n maximum) ≡ n)
      × All (λ size. (0 < size) × (size ≤ maximum)) (balanced_partition_sizes n maximum)
unfolding balanced_partition_sizes
sizes_fit n maximum positive = elim (Bool-cases (eqb n 0)) [
  | inl e ↦ rw e (ground arith, tt)
  | inr e ↦
      let fits = balanced_partition_sizes_lem n maximum positive (ground arith) in
      (fits.0, All-map _ (λ s b. (b.2, b.3)) fits.2.1)
]
