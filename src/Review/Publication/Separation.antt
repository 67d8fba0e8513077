-- ===== src/Review/Publication/Separation.antt =====
-- What it is for published weeks to be kept apart.
use alerts_bi.Common.{◌+◌, ◌≤◌, ◌≡◌, ◌⊎◌, true, List, [], ◌∷◌, arith, All, text_eq, map}
use alerts_bi.Domain.Time.{week}
use alerts_bi.Review.Publication.{Publication, is_current}

-- A current publication is of a week exactly.
unfoldable pub IsOneWeek : Publication → Type 0
IsOneWeek p = is_current p ≡ true → p.window_end ≡ p.window_start + week

-- Two current publications of a team are of weeks that do not overlap.
unfoldable pub Apart : Publication → Publication → Type 0
Apart p q =
    p.team_id ≡ q.team_id
    → is_current p ≡ true
    → is_current q ≡ true
    → (p.window_end ≤ q.window_start) ⊎ (q.window_end ≤ p.window_start)

unfoldable pub IsSeparated : List Publication → Type 0
IsSeparated [] = Unit
IsSeparated (p ∷ ps) = IsOneWeek p × All (Apart p) ps × IsSeparated ps

-- What an update of the withdrawal may do to a row.
unfoldable pub IsNarrowed : (Publication → Publication) → Type 0
IsNarrowed f =
    (p : Publication)
    → ((f p).team_id ≡ p.team_id)
      × ((f p).window_start ≡ p.window_start)
      × ((f p).window_end ≡ p.window_end)
      × (is_current (f p) ≡ true → is_current p ≡ true)

Apart-map :
    (f : Publication → Publication) (p : Publication) (ps : List Publication)
    → IsNarrowed f
    → All (Apart p) ps
    → All (Apart (f p)) (map f ps)
unfolding Apart IsNarrowed
Apart-map f p [] h all = tt
Apart-map f p (q ∷ ps) h all = (Apart_narrowed, Apart-map f p ps h all.1)
  where
    Apart_narrowed : Apart (f p) (f q)
    Apart_narrowed same cp cq =
        let hp = h p in
        let hq = h q in
        let a = all.0 (cc (hp.0, hq.0, same)) (hp.3 cp) (hq.3 cq) in
        ground (arith, hp.1, hp.2, hq.1, hq.2, a)

pub IsSeparated-map :
    (f : Publication → Publication) (ps : List Publication)
    → IsNarrowed f
    → IsSeparated ps
    → IsSeparated (map f ps)
unfolding IsSeparated IsOneWeek IsNarrowed
IsSeparated-map f [] h s = tt
IsSeparated-map f (p ∷ ps) h s = (
  (λ c. let hp = h p in omega (arith, s.0 (hp.3 c), hp.1, hp.2)),
  Apart-map f p ps h s.1,
  IsSeparated-map f ps h s.2,
)
