-- ===== src/Suppression/Like.antt =====
-- like_to_regex of src/suppression/evaluate.py, with the search that its callers make.
use alerts_bi.Common.{Text, Bool, true, false, [], ◌∷◌, eqb, ◌&&◌, ◌||◌, if◌then◌else◌}

-- `$` matches at the end, and also just before a line feed that ends the text.
unfoldable pub at_end : Text → Bool
at_end [] = true
at_end (c ∷ []) = eqb c 10
at_end _ = false

-- `re.compile("^...$").search(text) is not None`: `%` stands for any run of characters, `_` for any
-- one character, and every other character for itself.
unfoldable pub like_matches : Text → Text → Bool
unfolding at_end
like_matches [] s = at_end s
like_matches (p ∷ ps) [] = eqb p b'%' && like_matches ps []
like_matches (p ∷ ps) (c ∷ s) =
    let none_here = like_matches ps (c ∷ s) in
    let one_more = like_matches (p ∷ ps) s in
    let stepped = like_matches ps s in
    if eqb p b'%' then none_here || one_more else (eqb p b'_' || eqb p c) && stepped
