-- ===== src/Rules/Firing/Arrival.antt =====
-- The accumulator against the sorted list of what has arrived: an invariant of `add`.
use alerts_bi.Common.{
  ℕ, zero, suc, ◌+◌, ◌*◌, ◌≤◌, ◌<◌, ◌≡◌, ◌≢◌, refl, sym, ap, true, false, List, [], ◌∷◌, ◌++◌,
  Option, none, some, arith, length, replicate, All, All-map, All-append, append_assoc, append-nil,
  count_if, ◌∙◌,
}
use alerts_bi.Domain.Record.{AlertRecord}
use alerts_bi.Rules.Firing.Batch.{Event}
use alerts_bi.Rules.Firing.Stream.{Accumulator}
use alerts_bi.Rules.Firing.Order.{rank, ins, ins-skip}
use alerts_bi.Rules.Firing.Machine.{run, start, core, fires, clears, pending}

-- Rows in the order of a stream: no row before the instant of the one ahead of it.
abbrev pub ChronologicalFrom : ℕ → List AlertRecord → Type 0
ChronologicalFrom t [] = Unit
ChronologicalFrom t (r ∷ rows) = (t ≤ r.timestamp) × ChronologicalFrom r.timestamp rows

abbrev pub head_time : List Event → Option ℕ
head_time [] = none
head_time (e ∷ es) = some e.time

abbrev pub clears_in : List Event → ℕ
clears_in = count_if (λ (e : Event). e.clear)

-- `events`, sorted, is what has gone through the machine and what is pending at the instant `at`.
pub record Holds (events : List Event) (s : Accumulator) : Type 0 where
  pub done : List Event
  pub at : ℕ
  pub split : events ≡ done ++ pending s at
  pub before : All (λ e. e.time < at) done
  pub waiting : 0 < s.pending_fires + s.pending_clears
  pub instant : s.pending_at ≡ some at
  pub ran : core s ≡ run start done
  pub counted : s.count ≡ length events
  pub cleared : s.clear_count ≡ clears_in events
  pub opened : s.first ≡ head_time events

replicate-snoc {ℓ} : {A : Type ℓ} (n : ℕ) (a : A) → replicate n a ++ a ∷ [] ≡ a ∷ replicate n a
replicate-snoc zero a = refl
replicate-snoc (suc n) a = ap (λ l. a ∷ l) (replicate-snoc n a)

pub All-replicate {ℓ κ} :
    {A : Type ℓ} (P : A → Type κ) (n : ℕ) (a : A) → P a → All P (replicate n a)
All-replicate P zero a h = tt
All-replicate P (suc n) a h = (h, All-replicate P n a h)

pub ins-nil : (e : Event) → ins e [] ≡ e ∷ []
unfolding ins
ins-nil e = refl

clears_in-append : (xs ys : List Event) → clears_in (xs ++ ys) ≡ clears_in xs + clears_in ys
clears_in-append [] ys = omega arith
clears_in-append (x ∷ xs) ys = omega (arith, clears_in-append xs ys)

-- A firing row goes before the clears of its instant.
ins-clears :
    (m t : ℕ)
    → ins (record { time = t; clear = false }) (clears m t)
      ≡ record { time = t; clear = false } ∷ clears m t
unfolding ins
ins-clears zero t = refl
ins-clears (suc m) t = ground arith

pub length-ins : (e : Event) (xs : List Event) → length (ins e xs) ≡ length xs + 1
unfolding ins
length-ins e [] = refl
length-ins e (x ∷ xs) = ground (arith, length-ins e xs)

pub clears_in-ins : (e : Event) (xs : List Event) → clears_in (ins e xs) ≡ clears_in (e ∷ xs)
unfolding ins
clears_in-ins e [] = refl
clears_in-ins e (x ∷ xs) = ground (arith, clears_in-ins e xs)

-- What lies before the instant `t`, or at it and firing, goes before an event of `t` or later.
pub past :
    (e : Event) (t : ℕ) (xs : List Event)
    → t ≤ e.time
    → All (λ x. x.time < t) xs
    → All (λ x. rank x ≤ rank e) xs
past e t xs le h = All-map xs (λ x lt. ground arith) h

module _ (done : List Event) (t k m : ℕ) (before : All (λ x. x.time < t) done) where
  pub ins-fire :
      ins (record { time = t; clear = false }) (done ++ (fires k t ++ clears m t))
      ≡ done ++ (fires (suc k) t ++ clears m t)
  ins-fire =
      let e : Event = record { time = t; clear = false } in
      ins-skip e done (fires k t ++ clears m t) (past e t done (omega arith) before)
      ∙ ap (λ l. done ++ l)
          (ins-skip e (fires k t) (clears m t) (All-replicate _ k e (omega arith))
            ∙ ap (λ l. fires k t ++ l) (ins-clears m t)
            ∙ sym (append_assoc (fires k t) (e ∷ []) (clears m t))
            ∙ ap (λ l. l ++ clears m t) (replicate-snoc k e))

  -- An event that is not before the instant, and clears if it is at it, goes to the end.
  pub ins-last :
      (e : Event)
      → t * 2 + 1 ≤ rank e
      → ins e (done ++ (fires k t ++ clears m t)) ≡ (done ++ (fires k t ++ clears m t)) ++ e ∷ []
  ins-last e le =
      let whole = done ++ (fires k t ++ clears m t) in
      let small : All (λ x. rank x ≤ rank e) whole =
        All-append _ done (fires k t ++ clears m t) (past e t done (ground arith) before) (
          All-append _ (fires k t) (clears m t) (All-replicate _ k _ (omega arith))
            (All-replicate _ m _ (omega arith))) in
      ap (ins e) (sym (append-nil whole))
      ∙ ins-skip e whole [] small
      ∙ ap (λ l. whole ++ l) (ins-nil e)

  pub ins-clear :
      ins (record { time = t; clear = true }) (done ++ (fires k t ++ clears m t))
      ≡ done ++ (fires k t ++ clears (suc m) t)
  ins-clear =
      let e : Event = record { time = t; clear = true } in
      ins-last e (omega arith)
      ∙ append_assoc done (fires k t ++ clears m t) (e ∷ [])
      ∙ ap (λ l. done ++ l)
          (append_assoc (fires k t) (clears m t) (e ∷ [])
            ∙ ap (λ l. fires k t ++ l) (replicate-snoc m e))

-- The first event keeps its instant.
head_time-ins :
    (e x : Event) (xs : List Event) → x.time ≤ e.time → head_time (ins e (x ∷ xs)) ≡ some x.time
unfolding ins
head_time-ins e x xs h = ground arith

head_time-ins_of :
    (e : Event) (xs : List Event) (x : Event) (ys : List Event)
    → xs ≡ x ∷ ys
    → x.time ≤ e.time
    → head_time (ins e xs) ≡ head_time xs
head_time-ins_of e xs x ys split le = rw split (head_time-ins e x ys le)

earliest :
    (done : List Event) (t k m : ℕ)
    → All (λ x. x.time < t) done
    → 0 < k + m
    → (x : Event) × (ys : List Event) × (done ++ (fires k t ++ clears m t) ≡ x ∷ ys) × (x.time ≤ t)
earliest (x ∷ xs) t k m h w = (x, xs ++ (fires k t ++ clears m t), refl, omega arith)
earliest [] t (suc k) m h w =
    (record { time = t; clear = false }, fires k t ++ clears m t, refl, omega arith)
earliest [] t zero (suc m) h w = (record { time = t; clear = true }, clears m t, refl, omega arith)
earliest [] t zero zero h w = absurd (omega arith)

pub Holds-head_time :
    {events : List Event} {s : Accumulator} (h : Holds events s) (e : Event)
    → h.at ≤ e.time
    → (head_time (ins e events) ≡ head_time events) × (head_time events ≢ none)
Holds-head_time {events} {s} h e le =
    let (x, ys, split, early) =
      earliest h.done h.at s.pending_fires s.pending_clears h.before h.waiting in
    let whole : events ≡ x ∷ ys = h.split ∙ split in
    (head_time-ins_of e events x ys whole (omega arith), λ bad. cc (ap head_time whole, bad))
