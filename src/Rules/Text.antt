-- ===== src/Rules/Text.antt =====
-- src/rules/text.py: the two normalisations that the rules share. A value that is not a string is
-- none here.
use mathlib.Core.List.{reverse}
use mathlib.Core.Option
use alerts_bi.Common.{
  Text, Option, none, some, Bool, true, false, [], ◌∷◌, if◌then◌else◌, ◌==◌, text_eq,
}
use alerts_bi.Common.Unicode.{Unicode, strip, lower}
use alerts_bi.Domain.Record.{Value, absent, text, other}

-- `value if isinstance(value, str)`.
abbrev pub text_of : Value → Option Text
text_of absent = none
text_of (text t) = some t
text_of (other name) = none

module _ ⦃u : Unicode⦄ where
  -- `_WHITESPACE.sub(" ", s)`; the first argument tells whether a run of white space was begun.
  unfoldable pub collapse_from : Bool → Text → Text
  collapse_from in_run [] = []
  collapse_from in_run (c ∷ s) =
      let spaced = collapse_from true s in
      let rest = collapse_from false s in
      if u.is_space c then (if in_run then spaced else b' ' ∷ spaced) else c ∷ rest

  unfoldable pub normalize_field_text : Text → Text
  unfolding collapse_from
  normalize_field_text value = collapse_from false (lower (strip value))

  unfoldable pub normalize_field_value : Option Text → Option Text
  unfolding normalize_field_text
  normalize_field_value value = Option.map normalize_field_text value

  -- The loop on `start`; on the reversed rest, the loop on `end`.
  unfoldable pub drop_punctuation : Text → Text
  drop_punctuation [] = []
  drop_punctuation (c ∷ s) =
      let rest = drop_punctuation s in if u.is_punctuation c then rest else c ∷ s

  unfoldable pub trim_punctuation : Text → Text
  unfolding drop_punctuation
  trim_punctuation s = reverse (drop_punctuation (reverse (drop_punctuation s)))

  unfoldable pub normalize_message : Option Text → Option Text
  unfolding normalize_field_value trim_punctuation
  normalize_message value =
      Option.map (λ s. strip (trim_punctuation s)) (normalize_field_value value)

  unfoldable pub is_blank : Option Text → Bool
  is_blank none = true
  is_blank (some value) = strip value == []
