-- ===== src/Domain/Metrics.antt =====
-- src/domain/metrics.py: the daily volume of one schema's rows and its sums over the window. A set is
-- a list without repetitions; a quotient is the pair of its numbers, the hours of a bucket its
-- microseconds. A date is the number of its day.
pub mod Volume
use alerts_bi.Common.{
  Text, ℕ, zero, suc, ◌+◌, ◌++◌, Option, none, some, Bool, true, false, not, List, [], ◌∷◌, map,
  keep, all, sum, contains, eqb, nat_eq, length, text_eq, ◌==◌, if◌then◌else◌,
}
use alerts_bi.Common.Result.{Result, ok, err}
use alerts_bi.Common.Unicode.{Unicode, strip}
use alerts_bi.Domain.Identity.{prefixed}
use alerts_bi.Domain.Record.{AlertRecord}
use alerts_bi.Domain.Window.{DailyBucket, RunWindow}

abbrev pub window_days : ℕ
window_days = 7

abbrev pub window_hours : ℕ
window_hours = 168

abbrev or_empty : Option Text → Text
or_empty none = []
or_empty (some t) = t

-- `_tuple_key` of an application and a component.
unfoldable pub scope_key : AlertRecord → Text
unfolding prefixed
scope_key row = prefixed row.application ++ (b'|' ∷ prefixed (or_empty row.component))

-- `_tuple_key` with the node name too.
unfoldable pub node_key : AlertRecord → Text
unfolding scope_key prefixed
node_key row = scope_key row ++ (b'|' ∷ prefixed (or_empty row.node_name))

unfoldable pub has_node_name : ⦃u : Unicode⦄ → AlertRecord → Bool
has_node_name row = elim row.node_name [ none ↦ false | some n ↦ not (strip n == []) ]

-- What a set holds that the texts were added to.
unfoldable pub distinct_onto : List Text → List Text → List Text
distinct_onto seen [] = seen
distinct_onto seen (t ∷ ts) = distinct_onto (if contains seen t then seen else seen ++ (t ∷ [])) ts

unfoldable pub count_distinct : List Text → ℕ
unfolding distinct_onto
count_distinct ts = length (distinct_onto [] ts)

-- `ratio_or_none`.
unfoldable pub ratio_or_none : ℕ → ℕ → Option (ℕ × ℕ)
ratio_or_none numerator denominator =
    if eqb denominator 0 then none else some (numerator, denominator)

pub record DailyVolume : Type 0 where
  pub bucket : DailyBucket
  pub alerts : ℕ
  pub distinct_alerts : ℕ
  pub alerts_per_hour : ℕ × ℕ
  pub node_name_numerator : ℕ
  pub node_name_denominator : ℕ
  pub node_name_ratio : Option (ℕ × ℕ)
  pub key_inflation_numerator : ℕ
  pub key_inflation_denominator : ℕ
  pub key_inflation_ratio : Option (ℕ × ℕ)

pub record VolumeRollup : Type 0 where
  pub alerts : ℕ
  pub alerts_per_hour : ℕ × ℕ
  pub distinct_alerts_per_day : ℕ × ℕ
  pub node_name_numerator : ℕ
  pub node_name_denominator : ℕ
  pub node_name_ratio : Option (ℕ × ℕ)
  pub key_inflation_numerator : ℕ
  pub key_inflation_denominator : ℕ
  pub key_inflation_ratio : Option (ℕ × ℕ)

-- ValueError: a row that falls outside the window's buckets.
pub data Outside : Type 0 where
  outside : ℕ → Outside

abbrev pub dates_of : List DailyBucket → List ℕ
dates_of bs = map (λ (b : DailyBucket). b.snapshot_date) bs

-- The loop that puts the rows into the lists of their dates: it raises at the first row without one.
unfoldable pub check_dates : List ℕ → List AlertRecord → Result Outside (Unit {0})
check_dates dates [] = ok tt
check_dates dates (row ∷ rows) =
    let rest = check_dates dates rows in
    if contains dates row.snapshot_date then rest else err (outside row.timestamp)

-- `by_date[date]`.
unfoldable pub rows_on : ℕ → List AlertRecord → List AlertRecord
rows_on date rows = keep (λ (row : AlertRecord). eqb row.snapshot_date date) rows

module _ ⦃u : Unicode⦄ where
  unfoldable pub volume_of : DailyBucket → List AlertRecord → DailyVolume
  unfolding count_distinct scope_key node_key has_node_name ratio_or_none
  volume_of bucket rows =
      let with_node = keep has_node_name rows in
      let identities = count_distinct (map (λ (row : AlertRecord). row.identity) rows) in
      let scopes = count_distinct (map scope_key rows) in
      let nodes = count_distinct (map node_key with_node) in
      let node_scopes = count_distinct (map scope_key with_node) in
      record {
        bucket = bucket;
        alerts = length rows;
        distinct_alerts = identities;
        alerts_per_hour = (length rows, bucket.covered);
        node_name_numerator = nodes;
        node_name_denominator = node_scopes;
        node_name_ratio = ratio_or_none nodes node_scopes;
        key_inflation_numerator = identities;
        key_inflation_denominator = scopes;
        key_inflation_ratio = ratio_or_none identities scopes;
      }

  unfoldable pub compute_daily_volume :
      List AlertRecord → RunWindow → Result Outside (List DailyVolume)
  unfolding check_dates rows_on volume_of
  compute_daily_volume rows window = elim (check_dates (dates_of window.buckets) rows) [
    | err e ↦ err e
    | ok t ↦
        ok (map (λ (b : DailyBucket). volume_of b (rows_on b.snapshot_date rows)) window.buckets)
  ]

unfoldable pub rollup_volume : List DailyVolume → VolumeRollup
unfolding ratio_or_none
rollup_volume daily =
    let alerts = sum (map (λ (d : DailyVolume). d.alerts) daily) in
    let distinct_sum = sum (map (λ (d : DailyVolume). d.distinct_alerts) daily) in
    let nodes = sum (map (λ (d : DailyVolume). d.node_name_numerator) daily) in
    let node_scopes = sum (map (λ (d : DailyVolume). d.node_name_denominator) daily) in
    let key_count = sum (map (λ (d : DailyVolume). d.key_inflation_numerator) daily) in
    let scopes = sum (map (λ (d : DailyVolume). d.key_inflation_denominator) daily) in
    record {
      alerts = alerts;
      alerts_per_hour = (alerts, window_hours);
      distinct_alerts_per_day = (distinct_sum, window_days);
      node_name_numerator = nodes;
      node_name_denominator = node_scopes;
      node_name_ratio = ratio_or_none nodes node_scopes;
      key_inflation_numerator = key_count;
      key_inflation_denominator = scopes;
      key_inflation_ratio = ratio_or_none key_count scopes;
    }
