-- ===== src/Sublist/Child.antt =====
-- A level and one of its children: what a walk over the level owes to that child, and how it
-- changes when the child is replaced.
use gnatsd.Prelude.{
  ℕ, ◌+◌, List, [], ◌∷◌, Bytes, ◌≡◌, refl, bytes_eq, arith, if◌then◌else◌, bytes_eq_iff,
  bytes_eq→eq, Bool-cases, inl, inr,
}
use gnatsd.Sublist.Subject.{Kind, partial, full, literal}
use gnatsd.Sublist.Trie.{
  Level, nil_level, level, Nodes, end, entry, Node, next, lookup_node, set_node, child_of,
  set_child_of,
}
use gnatsd.Sublist.Occurs.{occurs_node}
use gnatsd.Sublist.Hits.{hits}

abbrev pub IsLevel : Level → Type 0
IsLevel nil_level = ⊥
IsLevel (level _ _ _) = Unit

-- What a node adds to a walk in which the tokens `us` are left.
unfoldable pub share : ℕ → Node → List Bytes → ℕ
unfolding hits
share i n [] = occurs_node i n
share i n (u ∷ us) = hits i (next n) (u ∷ us)

-- The same of the child for token `t` of kind `k`, in a walk over `u ∷ us`.
unfoldable pub child_share : Kind → ℕ → Bytes → Node → Bytes → List Bytes → ℕ
child_share partial i t n u us = share i n us
child_share full i t n u us = occurs_node i n
child_share literal i t n u us = if bytes_eq t u then share i n us else 0

pub hits-level :
    (i : ℕ) (ns : Nodes) (p f : Node) (u : Bytes) (us : List Bytes)
    → hits i (level ns p f) (u ∷ us)
      ≡ occurs_node i f + share i p us + share i (lookup_node u ns) us
unfolding hits share
hits-level i ns p f u [] = omega arith
hits-level i ns p f u (v ∷ us) = omega arith

pub lookup_node-set_node :
    (t u : Bytes) (n : Node) (ns : Nodes)
    → lookup_node u (set_node t n ns) ≡ (if bytes_eq t u then n else lookup_node u ns)
unfolding lookup_node set_node
lookup_node-set_node t u n end = refl
lookup_node-set_node t u n (entry k m ns) =
    ground
      (arith, bytes_eq_iff k t, bytes_eq_iff k u, bytes_eq_iff t u, lookup_node-set_node t u n ns)

pub hits-set_child :
    (k : Kind) (i : ℕ) (t : Bytes) (n : Node) (l : Level) (u : Bytes) (us : List Bytes)
    → IsLevel l
    → hits i (set_child_of k t n l) (u ∷ us) + child_share k i t (child_of k t l) u us
      ≡ hits i l (u ∷ us) + child_share k i t n u us
unfolding set_child_of child_of child_share
hits-set_child k i t n nil_level u us h = absurd h
hits-set_child partial i t n (level ns p f) u us h = omega (arith, hits-level)
hits-set_child full i t n (level ns p f) u us h = omega (arith, hits-level)
hits-set_child literal i t n (level ns p f) u us h = elim (Bool-cases (bytes_eq t u)) [
  | inl same ↦ ground (
    arith,
    hits-level i ns p f u us,
    hits-level i (set_node t n ns) p f u us,
    lookup_node-set_node t u n ns,
    bytes_eq→eq t u same,
  )
  | inr other ↦ ground (
    arith,
    hits-level i ns p f u us,
    hits-level i (set_node t n ns) p f u us,
    lookup_node-set_node t u n ns,
  )
]
