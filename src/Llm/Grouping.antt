-- ===== src/Llm/Grouping.antt =====
-- src/llm/grouping.py: groups of alerts and their partition into batches. The hash of a mapping
-- (src/hashing.py) is an argument.
pub mod Sizes
pub mod Members
use alerts_bi.Common.{
  Text, ℕ, zero, suc, codes, ◌+◌, ◌-◌, ◌*◌, ◌/◌, ◌%◌, min, Option, none, some, Bool, true, false,
  not, ◌||◌, ◌&&◌, List, [], ◌∷◌, ◌++◌, if◌then◌else◌, ltb, eqb, text_eq, text_ltb, ◌==◌, length,
  map, take, drop,
}
use mathlib.Core.List.{reverse}
use alerts_bi.Common.Unicode.{Unicode, strip}
use alerts_bi.Common.Sorting.{sorted}
use alerts_bi.Domain.Record.{AlertRecord, Schema, v1, v2}

abbrev pub max_batch_size : ℕ
max_batch_size = 200

-- `"alert_rule_url"` or `"application"`, in that order as texts.
pub data GroupType : Type 0 where
  alert_rule_url application : GroupType

pub record GroupKey : Type 0 where
  pub type : GroupType
  pub value : Text

abbrev pub type_beq : GroupType → GroupType → Bool
type_beq alert_rule_url alert_rule_url = true
type_beq application application = true
type_beq _ _ = false

abbrev pub key_beq : GroupKey → GroupKey → Bool
key_beq a b = type_beq a.type b.type && a.value == b.value

-- The order of the pairs of texts.
unfoldable pub key_ltb : GroupKey → GroupKey → Bool
key_ltb a b = elim a.type [
  | alert_rule_url ↦ elim b.type [ alert_rule_url ↦ text_ltb a.value b.value | application ↦ true ]
  | application ↦ elim b.type [ alert_rule_url ↦ false | application ↦ text_ltb a.value b.value ]
]

pub record AlertGroup : Type 0 where
  pub key : GroupKey
  pub alerts : List AlertRecord

-- `grouped.setdefault(key, []).append(alert)`, a new key behind the others.
unfoldable pub add_member : GroupKey → AlertRecord → List AlertGroup → List AlertGroup
add_member key alert [] = record { key = key; alerts = alert ∷ [] } ∷ []
add_member key alert (g ∷ gs) =
    let rest = add_member key alert gs in
    if key_beq g.key key then record g { alerts = g.alerts ++ (alert ∷ []) } ∷ gs else g ∷ rest

abbrev pub group_ltb : AlertGroup → AlertGroup → Bool
group_ltb g h = key_ltb g.key h.key

-- The order of the pairs (key_field, application).
unfoldable pub member_ltb : AlertRecord → AlertRecord → Bool
member_ltb a b =
    text_ltb a.key_field b.key_field
    || (a.key_field == b.key_field && text_ltb a.application b.application)

unfoldable pub sort_members : AlertGroup → AlertGroup
unfolding member_ltb
sort_members g = record g { alerts = sorted member_ltb g.alerts }

module _ ⦃u : Unicode⦄ where
  unfoldable pub key_of : AlertRecord → GroupKey
  key_of alert = elim alert.alert_rule_url [
    | none ↦ record { type = application; value = alert.application }
    | some url ↦
        if strip url == []
        then record { type = application; value = alert.application }
        else record { type = alert_rule_url; value = url }
  ]

  unfoldable pub group_onto : List AlertGroup → List AlertRecord → List AlertGroup
  unfolding add_member key_of
  group_onto groups [] = groups
  group_onto groups (alert ∷ alerts) = group_onto (add_member (key_of alert) alert groups) alerts

  unfoldable pub group_alerts : List AlertRecord → List AlertGroup
  unfolding group_onto sort_members key_ltb
  group_alerts alerts = map sort_members (sorted group_ltb (group_onto [] alerts))

-- `[base + 1 if i < remainder else base for i in range(count)]`, from `i` on.
unfoldable pub sizes_from : ℕ → ℕ → ℕ → ℕ → List ℕ
sizes_from base remainder i zero = []
sizes_from base remainder i (suc left) =
    (if ltb i remainder then base + 1 else base) ∷ sizes_from base remainder (i + 1) left

-- `maximum` is at least 1: with 0 the division raises.
unfoldable pub balanced_partition_sizes : ℕ → ℕ → List ℕ
unfolding sizes_from
balanced_partition_sizes n maximum =
    let count = (n + maximum - 1) / maximum in
    if eqb n 0 then [] else sizes_from (n / count) (n % count) 0 count

-- `min(max_batch_size or MAX_BATCH_SIZE, MAX_BATCH_SIZE)`.
unfoldable pub cap_of : Option ℕ → ℕ
cap_of none = max_batch_size
cap_of (some zero) = max_batch_size
cap_of (some n) = min n max_batch_size

-- What sha256_of is given: a mapping of names to texts, numbers and lists of texts.
pub data Entry : Type 0 where
  word : Text → Entry
  number : ℕ → Entry
  words : List Text → Entry

abbrev pub Mapping : Type 0
Mapping = List (Text × Entry)

pub record Batch : Type 0 where
  pub batch_id : Text
  pub group : GroupKey
  pub partition_index : ℕ
  pub partition_count : ℕ
  pub alerts : List AlertRecord
  pub alert_ids : List Text

abbrev schema_text : Schema → Text
schema_text v1 = codes "v1"
schema_text v2 = codes "v2"

abbrev type_text : GroupType → Text
type_text alert_rule_url = codes "alert_rule_url"
type_text application = codes "application"

module _ (sha256_of : Mapping → Text) where
  unfoldable pub alert_transport_id : AlertRecord → Text
  alert_transport_id alert = sha256_of (
      (codes "schema", word (schema_text alert.schema))
      ∷ (codes "application", word alert.application)
      ∷ (codes "key_field", word alert.key_field)
      ∷ [])

  unfoldable pub batch_id_of : Text → GroupKey → ℕ → List Text → Text → Text → Text
  batch_id_of run_id key partition_index alert_ids prompt_version model_version = sha256_of (
      (codes "run_id", word run_id)
      ∷ (codes "group_type", word (type_text key.type))
      ∷ (codes "group_value", word key.value)
      ∷ (codes "partition_index", number partition_index)
      ∷ (codes "alert_ids", words alert_ids)
      ∷ (codes "prompt_version", word prompt_version)
      ∷ (codes "model_version", word model_version)
      ∷ [])

  module _ (run_id prompt_version model_version : Text) where
    unfoldable pub batch_of : GroupKey → ℕ → ℕ → List AlertRecord → Batch
    unfolding alert_transport_id batch_id_of
    batch_of key partition_index partition_count members =
        let alert_ids = map alert_transport_id members in
        record {
          batch_id = batch_id_of run_id key partition_index alert_ids prompt_version model_version;
          group = key;
          partition_index = partition_index;
          partition_count = partition_count;
          alerts = members;
          alert_ids = alert_ids;
        }

    -- The loop over `enumerate(sizes)`; `left` are the alerts from `offset` on.
    unfoldable pub partitions : GroupKey → ℕ → ℕ → List AlertRecord → List ℕ → List Batch
    unfolding batch_of
    partitions key partition_count index left [] = []
    partitions key partition_count index left (size ∷ sizes) =
        batch_of key index partition_count (take size left)
        ∷ partitions key partition_count (index + 1) (drop size left) sizes

    unfoldable pub group_batches : ℕ → AlertGroup → List Batch
    unfolding partitions balanced_partition_sizes
    group_batches cap group =
        let sizes = balanced_partition_sizes (length group.alerts) cap in
        partitions group.key (length sizes) 0 group.alerts sizes

    unfoldable pub batches_of : ℕ → List AlertGroup → List Batch
    unfolding group_batches
    batches_of cap [] = []
    batches_of cap (group ∷ groups) = group_batches cap group ++ batches_of cap groups

    unfoldable pub build_batches : ⦃u : Unicode⦄ → List AlertRecord → Option ℕ → List Batch
    unfolding batches_of cap_of group_alerts
    build_batches alerts limit = batches_of (cap_of limit) (group_alerts alerts)

    unfoldable pub reverse_for_evaluation : Batch → Batch
    unfolding batch_id_of
    reverse_for_evaluation batch =
        let ids = reverse batch.alert_ids in
        record batch {
          alerts = reverse batch.alerts;
          alert_ids = ids;
          batch_id =
              batch_id_of run_id batch.group batch.partition_index ids prompt_version model_version;
        }
