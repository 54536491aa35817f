-- ===== src/Sublist/Occurs.antt =====
-- How often a subscription stands in lists, in queue groups and in results, and what the
-- operations on groups do to these numbers.
use gnatsd.Prelude.{
  ℕ, zero, suc, ◌+◌, ◌<◌, [], ◌∷◌, ◌++◌, some, Bytes, ◌≡◌, ◌==◌, if◌then◌else◌, length, get_or, set,
  arith, inl, inr, Option-cases,
}
use gnatsd.Sublist.Trie.{
  Subscription, Subs, Groups, Node, node, nil_node, SublistResult, find_queue, find_q_slice_for_sub,
  append_group, add_sub, merge_groups, add_node_to_results,
}

-- 1 for the subscription `i`, else 0
abbrev pub is_it : ℕ → Subscription → ℕ
is_it i s = if i == s.id then 1 else 0

unfoldable pub occurs : ℕ → Subs → ℕ
occurs i [] = 0
occurs i (s ∷ ss) = is_it i s + occurs i ss

unfoldable pub occurs_groups : ℕ → Groups → ℕ
occurs_groups i [] = 0
occurs_groups i (g ∷ gs) = occurs i g + occurs_groups i gs

abbrev pub occurs_result : ℕ → SublistResult → ℕ
occurs_result i r = occurs i r.psubs + occurs_groups i r.qsubs

abbrev pub occurs_node : ℕ → Node → ℕ
occurs_node i nil_node = 0
occurs_node i (node _ ps qs) = occurs i ps + occurs_groups i qs

pub occurs-append : (i : ℕ) (xs ys : Subs) → occurs i (xs ++ ys) ≡ occurs i xs + occurs i ys
unfolding occurs
occurs-append i [] ys = omega arith
occurs-append i (x ∷ xs) ys = omega (arith, occurs-append i xs ys)

pub occurs_groups-append :
    (i : ℕ) (xs ys : Groups) → occurs_groups i (xs ++ ys) ≡ occurs_groups i xs + occurs_groups i ys
unfolding occurs_groups
occurs_groups-append i [] ys = omega arith
occurs_groups-append i (x ∷ xs) ys = omega (arith, occurs_groups-append i xs ys)

occurs_groups-set :
    (i : ℕ) (gs : Groups) (j : ℕ) (g : Subs)
    → j < length gs
    → occurs_groups i (set gs j g) + occurs i (get_or gs j []) ≡ occurs_groups i gs + occurs i g
unfolding occurs_groups
occurs_groups-set i [] j g h = absurd (omega arith)
occurs_groups-set i (x ∷ gs) zero g h = omega arith
occurs_groups-set i (x ∷ gs) (suc j) g h = omega (arith, occurs_groups-set i gs j g (omega arith))

pub find_queue-lt : (q : Bytes) (gs : Groups) {j : ℕ} → find_queue q gs ≡ some j → j < length gs
unfolding find_queue
find_queue-lt q [] h = cc
find_queue-lt q (g ∷ gs) h = elim (Option-cases (find_queue q gs)) [
  | inl e ↦ ground arith
  | inr (k, e) ↦ ground (arith, find_queue-lt q gs e)
]

pub find_q_slice_for_sub-lt :
    (s : Subscription) (gs : Groups) {j : ℕ} → find_q_slice_for_sub s gs ≡ some j → j < length gs
unfolding find_q_slice_for_sub
find_q_slice_for_sub-lt s gs {j} h = elim (Option-cases s.queue) [
  | inl e ↦ ground arith
  | inr (q, e) ↦ ground (arith, find_queue-lt q gs {j = j})
]

pub occurs_groups-append_group :
    (i : ℕ) (s : Subscription) (ss : Subs) (gs : Groups)
    → occurs_groups i (append_group (find_q_slice_for_sub s gs) ss gs)
      ≡ occurs_groups i gs + occurs i ss
unfolding append_group occurs_groups
occurs_groups-append_group i s ss gs = elim (Option-cases (find_q_slice_for_sub s gs)) [
  | inl e ↦ rw e (omega (arith, occurs_groups-append i gs (ss ∷ [])))
  | inr (j, e) ↦ rw e (
      omega (
        arith,
        occurs_groups-set i gs j (get_or gs j [] ++ ss) (find_q_slice_for_sub-lt s gs e),
        occurs-append i (get_or gs j []) ss,
      ))
]

-- A subscription is added to the plain list or to its group, and nothing else changes.
pub occurs-add_sub :
    (i : ℕ) (s : Subscription) (ps : Subs) (gs : Groups)
    → occurs i (add_sub s ps gs).0 + occurs_groups i (add_sub s ps gs).1
      ≡ occurs i ps + occurs_groups i gs + is_it i s
unfolding add_sub occurs
occurs-add_sub i s ps gs =
    ground (arith, occurs-append i ps (s ∷ []), occurs_groups-append_group i s (s ∷ []) gs)

pub occurs_groups-merge_groups :
    (i : ℕ) (gs out : Groups)
    → occurs_groups i (merge_groups gs out) ≡ occurs_groups i out + occurs_groups i gs
unfolding merge_groups occurs_groups occurs
occurs_groups-merge_groups i [] out = omega arith
occurs_groups-merge_groups i ([] ∷ gs) out = omega (arith, occurs_groups-merge_groups i gs out)
occurs_groups-merge_groups i ((s ∷ g) ∷ gs) out = omega (
  arith,
  occurs_groups-merge_groups i gs (append_group (find_q_slice_for_sub s out) (s ∷ g) out),
  occurs_groups-append_group i s (s ∷ g) out,
)

pub occurs_result-add_node :
    (i : ℕ) (n : Node) (r : SublistResult)
    → occurs_result i (add_node_to_results n r) ≡ occurs_result i r + occurs_node i n
unfolding add_node_to_results
occurs_result-add_node i nil_node r = omega arith
occurs_result-add_node i (node l ps qs) r =
    omega (arith, occurs-append i r.psubs ps, occurs_groups-merge_groups i qs r.qsubs)
