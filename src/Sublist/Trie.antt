-- ===== src/Sublist/Trie.antt =====
-- The trie of server/sublist.go. `Level` and `Node` are the pointers `*level` and `*node`, with
-- their nil; the trie has no sharing, so writing a node is putting it back into its level.
use gnatsd.Prelude.{
  ℕ, suc, Bool, true, false, List, [], ◌∷◌, ◌++◌, Option, none, some, Bytes, if◌then◌else◌,
  bytes_eq, get_or, set,
}
use gnatsd.Sublist.Subject.{Kind, partial, full, literal, kind, is_full, is_empty}

-- `subscription`; `id` stands for the pointer, which is what `==` compares.
pub record Subscription : Type 0 where
  pub id : ℕ
  pub subject : Bytes
  pub queue : Option Bytes

abbrev pub Subs : Type 0
Subs = List Subscription

abbrev pub Groups : Type 0
Groups = List Subs

mutual
  pub data Level : Type 0 where
    nil_level : Level
    level : Nodes → Node → Node → Level

  -- `map[string]*node`
  pub data Nodes : Type 0 where
    end : Nodes
    entry : Bytes → Node → Nodes → Nodes

  pub data Node : Type 0 where
    nil_node : Node
    node : Level → Subs → Groups → Node

pub record SublistResult : Type 0 where
  pub psubs : Subs
  pub qsubs : Groups

abbrev pub new_level : Level
new_level = level end nil_node nil_node

abbrev pub empty_result : SublistResult
empty_result = record { psubs = []; qsubs = [] }

abbrev pub next : Node → Level
next nil_node = nil_level
next (node l _ _) = l

-- `l.nodes[t]`, nil where the key is missing
unfoldable pub lookup_node : Bytes → Nodes → Node
lookup_node t end = nil_node
lookup_node t (entry k n ns) = if bytes_eq k t then n else lookup_node t ns

unfoldable pub set_node : Bytes → Node → Nodes → Nodes
set_node t n end = entry t n end
set_node t n (entry k m ns) = if bytes_eq k t then entry k n ns else entry k m (set_node t n ns)

unfoldable pub delete_node : Bytes → Nodes → Nodes
delete_node t end = end
delete_node t (entry k m ns) =
    let rest = delete_node t ns in if bytes_eq k t then rest else entry k m rest

-- The child that the first `switch` of `Insert` and of `Remove` selects, by the token's kind.
unfoldable pub child_of : Kind → Bytes → Level → Node
unfolding lookup_node
child_of k t nil_level = nil_node
child_of partial t (level ns p f) = p
child_of full t (level ns p f) = f
child_of literal t (level ns p f) = lookup_node t ns

abbrev pub get_child : Bytes → Level → Node
get_child t l = child_of (kind t) t l

unfoldable pub set_child_of : Kind → Bytes → Node → Level → Level
unfolding set_node
set_child_of k t n nil_level = nil_level
set_child_of partial t n (level ns p f) = level ns n f
set_child_of full t n (level ns p f) = level ns p n
set_child_of literal t n (level ns p f) = level (set_node t n ns) p f

abbrev pub set_child : Bytes → Node → Level → Level
set_child t n l = set_child_of (kind t) t n l

-- Group `i` of which the queue is `q`: the loop of `findQSliceForSub`.
abbrev pub queue_bytes : Subscription → Bytes
queue_bytes s = elim s.queue [ none ↦ [] | some q ↦ q ]

heads : Bytes → Subs → Bool
heads q [] = false
heads q (s ∷ _) = bytes_eq q (queue_bytes s)

unfoldable pub find_queue : Bytes → Groups → Option ℕ
unfolding heads
find_queue q [] = none
find_queue q (qr ∷ qsl) =
    let rest = find_queue q qsl in
    if heads q qr then some 0 else elim rest [ none ↦ none | some i ↦ some (suc i) ]

-- `none` is the index -1.
unfoldable pub find_q_slice_for_sub : Subscription → Groups → Option ℕ
unfolding find_queue
find_q_slice_for_sub sub qsl = elim sub.queue [ none ↦ none | some q ↦ find_queue q qsl ]

-- `qsubs[i] = append(qsubs[i], subs...)` or, where there is no such group, a new one.
unfoldable pub append_group : Option ℕ → Subs → Groups → Groups
append_group none subs qsl = qsl ++ subs ∷ []
append_group (some i) subs qsl = set qsl i (get_or qsl i [] ++ subs)

-- The end of `Insert`, and of each turn of the loop of `addToCache`.
unfoldable pub add_sub : Subscription → Subs → Groups → Subs × Groups
unfolding find_q_slice_for_sub append_group
add_sub sub ps qs = elim sub.queue [
  | none ↦ (ps ++ sub ∷ [], qs)
  | some _ ↦ (ps, append_group (find_q_slice_for_sub sub qs) (sub ∷ []) qs)
]

unfoldable pub add_to_node : Subscription → Node → Node
unfolding add_sub
add_to_node sub nil_node = nil_node
add_to_node sub (node l ps qs) = let (ps', qs') = add_sub sub ps qs in node l ps' qs'

-- `if n == nil { n = newNode() … }; if n.next == nil { n.next = newLevel() }`
unfoldable pub ensure : Node → Node
ensure nil_node = node new_level [] []
ensure (node nil_level ps qs) = node new_level ps qs
ensure (node l ps qs) = node l ps qs

unfoldable pub with_next : Node → Level → Node
with_next nil_node l = nil_node
with_next (node _ ps qs) l = node l ps qs

-- The loop of `Insert` over the tokens `t ∷ ts`, from level `l`: the level afterwards, and whether
-- the subscription was added. The nodes made before an invalid token stay.
unfoldable pub insert_level : Subscription → Bytes → List Bytes → Bool → Level → Level × Bool
unfolding child_of set_child_of kind add_to_node ensure with_next is_full is_empty
insert_level sub t [] sfwc l =
    if is_empty t
    then (l, false)
    else if sfwc
    then (l, false)
    else (set_child t (add_to_node sub (ensure (get_child t l))) l, true)
insert_level sub t (t' ∷ ts) sfwc l =
    let n = ensure (get_child t l) in
    let below = insert_level sub t' ts (is_full t) (next n) in
    if is_empty t
    then (l, false)
    else if sfwc
    then (l, false)
    else (set_child t (with_next n below.0) l, below.1)

-- The loop of `addNodeToResults` over the groups of the node.
unfoldable pub merge_groups : Groups → Groups → Groups
unfolding find_q_slice_for_sub append_group
merge_groups [] out = out
merge_groups ([] ∷ qs) out = merge_groups qs out
merge_groups ((s ∷ qr) ∷ qs) out =
    merge_groups qs (append_group (find_q_slice_for_sub s out) (s ∷ qr) out)

unfoldable pub add_node_to_results : Node → SublistResult → SublistResult
unfolding merge_groups
add_node_to_results nil_node r = r
add_node_to_results (node _ ps qs) r = record {
  psubs = r.psubs ++ ps;
  qsubs = merge_groups qs r.qsubs;
}

unfoldable pub match_level : Level → List Bytes → SublistResult → SublistResult
unfolding lookup_node add_node_to_results
match_level l [] r = r
match_level nil_level (t ∷ toks) r = r
match_level (level ns p f) (t ∷ []) r =
    add_node_to_results p
      (add_node_to_results (lookup_node t ns) (match_level (next p) [] (add_node_to_results f r)))
match_level (level ns p f) (t ∷ u ∷ toks) r =
    match_level (next (lookup_node t ns)) (u ∷ toks)
      (match_level (next p) (u ∷ toks) (add_node_to_results f r))
