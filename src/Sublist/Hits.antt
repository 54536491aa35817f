-- ===== src/Sublist/Hits.antt =====
-- What `matchLevel` finds, by number: the result of a walk is what it began with and, for each
-- subscription, the number of times that the walk meets it.
use gnatsd.Prelude.{ℕ, ◌+◌, Bool, true, false, ◌&&◌, List, [], ◌∷◌, Bytes, ◌≡◌, bytes_eq, arith}
use gnatsd.Sublist.Subject.{Kind, partial, full, literal, kind}
use gnatsd.Sublist.Trie.{
  Level, nil_level, level, next, lookup_node, match_level, SublistResult, add_node_to_results,
}
use gnatsd.Sublist.Occurs.{occurs_result, occurs_node, occurs_result-add_node}

-- One token `t`, of the given kind, against the token `u`; `rest` is the answer for what follows.
abbrev pub token_matches : Kind → Bytes → Bytes → Bool → Bool
token_matches partial t u rest = rest
token_matches full t u rest = true
token_matches literal t u rest = bytes_eq t u && rest

-- The pattern of a subscription, by its tokens, covers the tokens of a published subject: `*` one
-- token, `>` all that is left and at least one, another token itself.
unfoldable pub matches : List Bytes → List Bytes → Bool
matches [] [] = true
matches [] (u ∷ us) = false
matches (t ∷ ts) [] = false
matches (t ∷ ts) (u ∷ us) = token_matches (kind t) t u (matches ts us)

unfoldable pub hits : ℕ → Level → List Bytes → ℕ
hits i l [] = 0
hits i nil_level (t ∷ toks) = 0
hits i (level ns p f) (t ∷ []) =
    occurs_node i f + occurs_node i (lookup_node t ns) + occurs_node i p
hits i (level ns p f) (t ∷ u ∷ toks) =
    occurs_node i f + hits i (next p) (u ∷ toks) + hits i (next (lookup_node t ns)) (u ∷ toks)

pub occurs_result-match_level :
    (i : ℕ) (l : Level) (toks : List Bytes) (r : SublistResult)
    → occurs_result i (match_level l toks r) ≡ occurs_result i r + hits i l toks
unfolding match_level hits
occurs_result-match_level i l [] r = omega arith
occurs_result-match_level i nil_level (t ∷ toks) r = omega arith
occurs_result-match_level i (level ns p f) (t ∷ []) r = omega (arith, occurs_result-add_node)
occurs_result-match_level i (level ns p f) (t ∷ u ∷ toks) r = omega (
  arith,
  occurs_result-add_node i f r,
  occurs_result-match_level i (next p) (u ∷ toks) (add_node_to_results f r),
  occurs_result-match_level i (next (lookup_node t ns)) (u ∷ toks)
      (match_level (next p) (u ∷ toks) (add_node_to_results f r)),
)
