-- ===== src/Sublist/Removal.antt =====
-- `Remove` of server/sublist.go, with its helpers `removeFromNode`, `removeSubFromList`, `isEmpty`
-- and `pruneNode`. A slice is its elements: `shrinkAsNeeded` changes a capacity only.
use gnatsd.Prelude.{
  ℕ, suc, ◌+◌, Bool, true, false, ◌&&◌, List, [], ◌∷◌, Option, none, some, Bytes, ◌==◌,
  if◌then◌else◌, bytes_eq, length, get_or, set, swap_remove,
}
use gnatsd.Sublist.Subject.{Kind, partial, full, literal, kind, is_full, is_empty}
use gnatsd.Sublist.Trie.{
  Subscription, Subs, Groups, Level, nil_level, level, Nodes, end, entry, Node, nil_node, node,
  next, get_child, set_child, with_next, find_q_slice_for_sub,
}

-- `none` where the loop of `removeSubFromList` ends without a match.
unfoldable pub index_of : Subscription → Subs → Option ℕ
index_of sub [] = none
index_of sub (s ∷ sl) =
    let rest = index_of sub sl in
    if s.id == sub.id then some 0 else elim rest [ none ↦ none | some i ↦ some (suc i) ]

unfoldable pub remove_sub_from_list : Subscription → Subs → Subs × Bool
unfolding index_of swap_remove
remove_sub_from_list sub sl = elim (index_of sub sl) [
  | none ↦ (sl, false)
  | some i ↦ (swap_remove sl i sub, true)
]

unfoldable pub delete_node : Bytes → Nodes → Nodes
delete_node t end = end
delete_node t (entry k m ns) =
    let rest = delete_node t ns in if bytes_eq k t then rest else entry k m rest

-- The queue branch of `removeFromNode`, at the group that `findQSliceForSub` gives: a group left
-- empty goes, the last group taking its place.
unfoldable pub remove_from_group : Subscription → Option ℕ → Groups → Groups × Bool
unfolding remove_sub_from_list
remove_from_group sub none qs = (qs, false)
remove_from_group sub (some i) qs =
    let (g, found) = remove_sub_from_list sub (get_or qs i []) in
    let qs' = set qs i g in (if length g == 0 then swap_remove qs' i [] else qs', found)

unfoldable pub remove_from_node : Subscription → Node → Node × Bool
unfolding remove_from_group find_q_slice_for_sub
remove_from_node sub nil_node = (nil_node, false)
remove_from_node sub (node l ps qs) =
    let plain = remove_sub_from_list sub ps in
    let queued = remove_from_group sub (find_q_slice_for_sub sub qs) qs in
    elim sub.queue [ none ↦ (node l plain.0 qs, plain.1) | some _ ↦ (node l ps queued.0, queued.1) ]

abbrev node_count : Node → ℕ
node_count nil_node = 0
node_count (node _ _ _) = 1

unfoldable pub nodes_length : Nodes → ℕ
nodes_length end = 0
nodes_length (entry _ _ ns) = suc (nodes_length ns)

unfoldable pub num_nodes : Level → ℕ
unfolding nodes_length
num_nodes nil_level = 0
num_nodes (level ns p f) = nodes_length ns + node_count p + node_count f

-- `isEmpty`; the method is called on a node that is there.
unfoldable pub node_is_empty : Node → Bool
unfolding num_nodes
node_is_empty nil_node = true
node_is_empty (node l ps qs) = length ps == 0 && length qs == 0 && num_nodes l == 0

-- `pruneNode`. It compares pointers; since no node stands in two places, the slot where `n` is
-- found is the one that its token selects.
unfoldable pub prune_node : Kind → Bytes → Level → Level
unfolding delete_node
prune_node k t nil_level = nil_level
prune_node partial t (level ns p f) = level ns nil_node f
prune_node full t (level ns p f) = level ns p nil_node
prune_node literal t (level ns p f) = level (delete_node t ns) p f

-- One turn of the pruning loop: the changed node goes back, or is pruned.
unfoldable pub put_or_prune : Bytes → Node → Level → Level
unfolding node_is_empty prune_node
put_or_prune t n l = if node_is_empty n then prune_node (kind t) t l else set_child t n l

pub data Outcome : Type 0 where
  removed invalid_subject not_found : Outcome

abbrev pub is_removed : Outcome → Bool
is_removed removed = true
is_removed invalid_subject = false
is_removed not_found = false

-- What follows the loops of `Remove` for one level, once the part below has its outcome.
unfoldable pub close_level : Bytes → Node → Level → Outcome → Level × Outcome
unfolding put_or_prune
close_level t n l removed = (put_or_prune t n l, removed)
close_level t n l invalid_subject = (l, invalid_subject)
close_level t n l not_found = (l, not_found)

abbrev pub is_nil : Level → Bool
is_nil nil_level = true
is_nil (level _ _ _) = false

-- `Remove` over the tokens `t ∷ ts` from level `l`: the walk down, the removal, the pruning loop
-- on the way up.
unfoldable pub remove_level : Subscription → Bytes → List Bytes → Bool → Level → Level × Outcome
unfolding close_level remove_from_node
remove_level sub t [] sfwc l =
    let n = remove_from_node sub (get_child t l) in
    if is_empty t
    then (l, invalid_subject)
    else if sfwc
    then (l, invalid_subject)
    else if is_nil l
    then (l, not_found)
    else close_level t n.0 l (if n.1 then removed else not_found)
remove_level sub t (t' ∷ ts) sfwc l =
    let n = get_child t l in
    let below = remove_level sub t' ts (is_full t) (next n) in
    if is_empty t
    then (l, invalid_subject)
    else if sfwc
    then (l, invalid_subject)
    else if is_nil l
    then (l, not_found)
    else close_level t (with_next n below.0) l below.1
