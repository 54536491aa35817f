-- ===== src/Sublist/Prune.antt =====
-- Pruning: a node taken out of its level because it is empty had no share in any walk.
use gnatsd.Prelude.{
  ℕ, ◌+◌, true, List, [], ◌∷◌, Bytes, ◌≡◌, refl, bytes_eq, arith, if◌then◌else◌, Bool-cases, inl,
  inr, bytes_eq_iff, bytes_eq→eq,
}
use gnatsd.Sublist.Subject.{Kind, partial, full, literal, kind}
use gnatsd.Sublist.Trie.{
  Subs, Groups, Level, nil_level, level, Nodes, end, entry, Node, nil_node, node, lookup_node,
  child_of,
}
use gnatsd.Sublist.Removal.{
  delete_node, nodes_length, num_nodes, node_is_empty, prune_node, put_or_prune,
}
use gnatsd.Sublist.Occurs.{occurs, occurs_groups, occurs_node}
use gnatsd.Sublist.Hits.{hits}
use gnatsd.Sublist.Child.{IsLevel, share, child_share, hits-set_child, hits-level}

lookup_node-delete_node :
    (t u : Bytes) (ns : Nodes)
    → lookup_node u (delete_node t ns) ≡ (if bytes_eq t u then nil_node else lookup_node u ns)
unfolding lookup_node delete_node
lookup_node-delete_node t u end = ground arith
lookup_node-delete_node t u (entry k m ns) =
    ground
      (arith, bytes_eq_iff k t, bytes_eq_iff k u, bytes_eq_iff t u, lookup_node-delete_node t u ns)

share-nil_node : (i : ℕ) (us : List Bytes) → share i nil_node us ≡ 0
unfolding share hits
share-nil_node i [] = refl
share-nil_node i (u ∷ us) = refl

hits-prune_node :
    (k : Kind) (i : ℕ) (t : Bytes) (l : Level) (u : Bytes) (us : List Bytes)
    → IsLevel l
    → hits i (prune_node k t l) (u ∷ us) + child_share k i t (child_of k t l) u us
      ≡ hits i l (u ∷ us)
unfolding prune_node child_of child_share
hits-prune_node k i t nil_level u us h = absurd h
hits-prune_node partial i t (level ns p f) u us h = omega (arith, hits-level, share-nil_node)
hits-prune_node full i t (level ns p f) u us h = omega (arith, hits-level)
hits-prune_node literal i t (level ns p f) u us h = elim (Bool-cases (bytes_eq t u)) [
  | inl same ↦ ground (
    arith,
    hits-level i ns p f u us,
    hits-level i (delete_node t ns) p f u us,
    lookup_node-delete_node t u ns,
    bytes_eq→eq t u same,
    share-nil_node i us,
  )
  | inr other ↦ ground (
    arith,
    hits-level i ns p f u us,
    hits-level i (delete_node t ns) p f u us,
    lookup_node-delete_node t u ns,
  )
]

hits-no_nodes : (i : ℕ) (l : Level) (us : List Bytes) → num_nodes l ≡ 0 → hits i l us ≡ 0
unfolding hits num_nodes nodes_length lookup_node
hits-no_nodes i l [] h = refl
hits-no_nodes i nil_level (u ∷ us) h = refl
hits-no_nodes i (level (entry k n ns) p f) (u ∷ us) h = absurd (omega arith)
hits-no_nodes i (level end (node _ _ _) f) (u ∷ us) h = absurd (omega arith)
hits-no_nodes i (level end nil_node (node _ _ _)) (u ∷ us) h = absurd (omega arith)
hits-no_nodes i (level end nil_node nil_node) (u ∷ []) h = omega arith
hits-no_nodes i (level end nil_node nil_node) (u ∷ v ∷ us) h = omega arith

occurs_node-empty : (i : ℕ) (n : Node) → node_is_empty n ≡ true → occurs_node i n ≡ 0
unfolding node_is_empty occurs occurs_groups
occurs_node-empty i nil_node h = refl
occurs_node-empty i (node l [] []) h = refl
occurs_node-empty i (node l (p ∷ ps) qs) h = ground arith
occurs_node-empty i (node l [] (q ∷ qs)) h = ground arith

num_nodes-empty :
    (l : Level) (ps : Subs) (qs : Groups) → node_is_empty (node l ps qs) ≡ true → num_nodes l ≡ 0
unfolding node_is_empty
num_nodes-empty l ps qs h = ground arith

share-empty : (i : ℕ) (n : Node) (us : List Bytes) → node_is_empty n ≡ true → share i n us ≡ 0
unfolding share hits
share-empty i n [] h = occurs_node-empty i n h
share-empty i nil_node (u ∷ us) h = refl
share-empty i (node l ps qs) (u ∷ us) h = hits-no_nodes i l (u ∷ us) (num_nodes-empty l ps qs h)

child_share-empty :
    (k : Kind) (i : ℕ) (t : Bytes) (n : Node) (u : Bytes) (us : List Bytes)
    → node_is_empty n ≡ true
    → child_share k i t n u us ≡ 0
unfolding child_share
child_share-empty partial i t n u us h = share-empty i n us h
child_share-empty full i t n u us h = occurs_node-empty i n h
child_share-empty literal i t n u us h = ground (arith, share-empty i n us h)

-- Whether the changed node is put back or pruned, only its own share changes.
pub hits-put_or_prune :
    (i : ℕ) (t : Bytes) (n : Node) (l : Level) (u : Bytes) (us : List Bytes)
    → IsLevel l
    → hits i (put_or_prune t n l) (u ∷ us) + child_share (kind t) i t (child_of (kind t) t l) u us
      ≡ hits i l (u ∷ us) + child_share (kind t) i t n u us
unfolding put_or_prune
hits-put_or_prune i t n l u us h = ground (
  arith,
  child_share-empty (kind t) i t n u us,
  hits-prune_node (kind t) i t l u us h,
  hits-set_child (kind t) i t n l u us h,
)
