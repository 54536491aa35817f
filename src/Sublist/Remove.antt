-- ===== src/Sublist/Remove.antt =====
-- `Remove`: what it takes from the results of every later walk.
use gnatsd.Prelude.{
  ℕ, ◌+◌, ◌<◌, Bool, true, false, ◌&&◌, List, [], ◌∷◌, Bytes, ◌≡◌, refl, bytes_eq, arith,
  if◌then◌else◌, Bool-cases, inl, inr, length, get_or, set, swap_remove, total, total-set,
  total-swap_remove, some, none, Option-cases, ◌==◌, length-set, get_or-set_self,
}
use gnatsd.Sublist.Subject.{Kind, partial, full, literal, kind, is_full, is_empty}
use gnatsd.Sublist.Trie.{
  Subscription, Subs, Groups, Level, nil_level, level, Node, nil_node, node, next, child_of,
  with_next, find_q_slice_for_sub,
}
use gnatsd.Sublist.Removal.{
  index_of, remove_sub_from_list, remove_from_group, remove_from_node, node_is_empty, prune_node,
  put_or_prune, Outcome, removed, invalid_subject, not_found, is_removed, is_nil, close_level,
  remove_level,
}
use gnatsd.Sublist.Occurs.{is_it, occurs, occurs_groups, occurs_node, find_q_slice_for_sub-lt}
use gnatsd.Sublist.Hits.{matches, token_matches, hits}
use gnatsd.Sublist.Child.{IsLevel, share, child_share}
use gnatsd.Sublist.Insert.{set_child-IsLevel}
use gnatsd.Sublist.Prune.{hits-put_or_prune}

occurs-total : (i : ℕ) (xs : Subs) → occurs i xs ≡ total (is_it i) xs
unfolding occurs
occurs-total i [] = refl
occurs-total i (x ∷ xs) = omega (arith, occurs-total i xs)

occurs_groups-total : (i : ℕ) (xs : Groups) → occurs_groups i xs ≡ total (occurs i) xs
unfolding occurs_groups
occurs_groups-total i [] = refl
occurs_groups-total i (x ∷ xs) = omega (arith, occurs_groups-total i xs)

index_of_found :
    (s : Subscription) (xs : Subs) {j : ℕ}
    → index_of s xs ≡ some j
    → (j < length xs) × ((get_or xs j s).id ≡ s.id)
unfolding index_of
index_of_found s [] h = cc
index_of_found s (x ∷ xs) {j} h = elim (Option-cases (index_of s xs)) [
  | inl e ↦ ground arith
  | inr (k, e) ↦ ground (arith, index_of_found s xs {j = k})
]

-- A subscription is taken out once where it is found, and else nothing is.
occurs-remove_sub_from_list :
    (i : ℕ) (s : Subscription) (xs : Subs)
    → occurs i (remove_sub_from_list s xs).0
        + (if (remove_sub_from_list s xs).1 then is_it i s else 0)
      ≡ occurs i xs
unfolding remove_sub_from_list
occurs-remove_sub_from_list i s xs = elim (Option-cases (index_of s xs)) [
  | inl e ↦ rw (e, remove_sub_from_list) (omega arith)
  | inr (k, e) ↦
      let found = index_of_found s xs e in
      ground (
        arith,
        occurs-total i xs,
        occurs-total i (swap_remove xs k s),
        total-swap_remove (is_it i) xs k s,
        found,
      )
]

occurs-none : (i : ℕ) (g : Subs) → (length g == 0) ≡ true → occurs i g ≡ 0
unfolding occurs
occurs-none i [] h = refl
occurs-none i (x ∷ g) h = ground arith

-- The same of a group; one that becomes empty leaves the list.
occurs_groups-remove_from_group :
    (i k : ℕ) (s : Subscription) (qs : Groups)
    → k < length qs
    → occurs_groups i (remove_from_group s (some k) qs).0
        + (if (remove_from_group s (some k) qs).1 then is_it i s else 0)
      ≡ occurs_groups i qs
unfolding remove_from_group
occurs_groups-remove_from_group i k s qs h =
    let g = remove_sub_from_list s (get_or qs k []) in
    let shrunk = set qs k g.0 in
    ground (
      arith,
      occurs-remove_sub_from_list i s (get_or qs k []),
      occurs-none i g.0,
      occurs_groups-total i qs,
      occurs_groups-total i shrunk,
      occurs_groups-total i (swap_remove shrunk k []),
      total-set (occurs i) qs k g.0 [] h,
      total-swap_remove (occurs i) shrunk k [],
      length-set qs k g.0,
      get_or-set_self qs k g.0 [] h,
    )

remove_from_group-none :
    (s : Subscription) (qs : Groups) → remove_from_group s none qs ≡ (qs, false)
unfolding remove_from_group
remove_from_group-none s qs = refl

occurs_node-remove_from_node :
    (i : ℕ) (s : Subscription) (n : Node)
    → occurs_node i (remove_from_node s n).0 + (if (remove_from_node s n).1 then is_it i s else 0)
      ≡ occurs_node i n
unfolding remove_from_node
occurs_node-remove_from_node i s nil_node = omega arith
occurs_node-remove_from_node i s (node l ps qs) = elim (Option-cases (find_q_slice_for_sub s qs)) [
  | inl e ↦ ground (arith, occurs-remove_sub_from_list i s ps, remove_from_group-none s qs)
  | inr (k, e) ↦ ground (
    arith,
    occurs-remove_sub_from_list i s ps,
    occurs_groups-remove_from_group i k s qs (find_q_slice_for_sub-lt s qs e),
  )
]

next-remove_from_node : (s : Subscription) (n : Node) → next (remove_from_node s n).0 ≡ next n
unfolding remove_from_node
next-remove_from_node s nil_node = refl
next-remove_from_node s (node l ps qs) = ground arith

-- The last token: its child loses the subscription.
child_share-removed :
    (k : Kind) (i : ℕ) (t : Bytes) (s : Subscription) (n : Node) (u : Bytes) (us : List Bytes)
    → child_share k i t (remove_from_node s n).0 u us
        + (if (remove_from_node s n).1 && token_matches k t u (matches [] us) then is_it i s else 0)
      ≡ child_share k i t n u us
unfolding child_share share matches
child_share-removed partial i t s n u [] = ground (arith, occurs_node-remove_from_node i s n)
child_share-removed partial i t s n u (v ∷ us) = rw next-remove_from_node (ground arith)
child_share-removed full i t s n u us = ground (arith, occurs_node-remove_from_node i s n)
child_share-removed literal i t s n u [] = ground (arith, occurs_node-remove_from_node i s n)
child_share-removed literal i t s n u (v ∷ us) = rw next-remove_from_node (ground arith)

occurs_node-with_next :
    (i : ℕ) (n : Node) (l : Level) → occurs_node i (with_next n l) ≡ occurs_node i n
unfolding with_next
occurs_node-with_next i nil_node l = refl
occurs_node-with_next i (node _ ps qs) l = refl

module _ (i : ℕ) (t t' : Bytes) (ts : List Bytes) (l : Level) (gone : Bool) (d : ℕ) where
  share-with_next :
      (n : Node) (us : List Bytes)
      → ((v : Bytes) (vs : List Bytes)
          → hits i l (v ∷ vs) + (if gone && matches (t' ∷ ts) (v ∷ vs) then d else 0)
            ≡ hits i (next n) (v ∷ vs))
      → share i (with_next n l) us + (if gone && matches (t' ∷ ts) us then d else 0) ≡ share i n us
  unfolding share matches with_next hits
  share-with_next n [] below = rw occurs_node-with_next (ground arith)
  share-with_next nil_node (v ∷ us) below = omega (arith, below v us)
  share-with_next (node _ ps qs) (v ∷ us) below = below v us

  child_share-with_next :
      (k : Kind) (n : Node) (u : Bytes) (us : List Bytes)
      → ((v : Bytes) (vs : List Bytes)
          → hits i l (v ∷ vs) + (if gone && matches (t' ∷ ts) (v ∷ vs) then d else 0)
            ≡ hits i (next n) (v ∷ vs))
      → (k ≡ full → gone ≡ false)
      → child_share k i t (with_next n l) u us
          + (if gone && token_matches k t u (matches (t' ∷ ts) us) then d else 0)
        ≡ child_share k i t n u us
  unfolding child_share
  child_share-with_next partial n u us below h = share-with_next n us below
  child_share-with_next full n u us below h = rw (h refl, occurs_node-with_next) (omega arith)
  child_share-with_next literal n u us below h = elim (Bool-cases (bytes_eq t u)) [
    | inl same ↦ rw same (share-with_next n us below)
    | inr other ↦ rw other (ground arith)
  ]

-- Nothing is removed past a `>`.
remove_level-after_full :
    (s : Subscription) (t : Bytes) (ts : List Bytes) (l : Level)
    → is_removed (remove_level s t ts true l).1 ≡ false
unfolding remove_level
remove_level-after_full s t [] l = ground arith
remove_level-after_full s t (t' ∷ ts) l = ground arith

is_full-true : (t : Bytes) → kind t ≡ full → is_full t ≡ true
unfolding is_full
is_full-true t e = rw (e, is_full)

-- A walk over any tokens `u ∷ us` meets the removed subscription once less if `Remove` found it
-- and its pattern covers them, and all else as often as before; an error changes no walk.
pub hits-remove_level :
    (i : ℕ) (s : Subscription) (t : Bytes) (ts : List Bytes) (sfwc : Bool) (l : Level) (u : Bytes)
    (us : List Bytes)
    → hits i (remove_level s t ts sfwc l).0 (u ∷ us)
        + (if is_removed (remove_level s t ts sfwc l).1 && matches (t ∷ ts) (u ∷ us)
            then is_it i s
            else 0)
      ≡ hits i l (u ∷ us)
unfolding remove_level close_level matches
hits-remove_level i s t [] sfwc nil_level u us = ground arith
hits-remove_level i s t (t' ∷ ts) sfwc nil_level u us = ground arith
hits-remove_level i s t [] sfwc (level ns p f) u us =
    let k = kind t in
    let c = child_of k t (level ns p f) in
    ground (
      arith,
      child_share-removed k i t s c u us,
      hits-put_or_prune i t (remove_from_node s c).0 (level ns p f) u us tt,
    )
hits-remove_level i s t (t' ∷ ts) sfwc (level ns p f) u us =
    let k = kind t in
    let c = child_of k t (level ns p f) in
    let b = remove_level s t' ts (is_full t) (next c) in
    ground (
      arith,
      child_share-with_next i t t' ts b.0 (is_removed b.1) (is_it i s) k c u us
          (λ v vs. hits-remove_level i s t' ts (is_full t) (next c) v vs) (λ e. full_false e),
      hits-put_or_prune i t (with_next c b.0) (level ns p f) u us tt,
    )
  where
    full_false :
        kind t ≡ full
        → is_removed
            (remove_level s t' ts (is_full t) (next (child_of (kind t) t (level ns p f)))).1
          ≡ false
    full_false e = rw (is_full-true t e, remove_level-after_full)

prune_node-IsLevel : (k : Kind) (t : Bytes) (l : Level) → IsLevel l → IsLevel (prune_node k t l)
unfolding prune_node
prune_node-IsLevel k t nil_level h = h
prune_node-IsLevel partial t (level ns p f) h = tt
prune_node-IsLevel full t (level ns p f) h = tt
prune_node-IsLevel literal t (level ns p f) h = tt

close_level-IsLevel :
    (t : Bytes) (n : Node) (l : Level) (o : Outcome) → IsLevel l → IsLevel (close_level t n l o).0
unfolding close_level put_or_prune
close_level-IsLevel t n l removed h = elim (Bool-cases (node_is_empty n)) [
  | inl e ↦ rw e (prune_node-IsLevel (kind t) t l h)
  | inr e ↦ rw e (set_child-IsLevel (kind t) t n l h)
]
close_level-IsLevel t n l invalid_subject h = h
close_level-IsLevel t n l not_found h = h

if-IsLevel :
    (b : Bool) (x y : Level × Outcome) → IsLevel x.0 → IsLevel y.0 → IsLevel (if b then x else y).0
if-IsLevel true x y h k = h
if-IsLevel false x y h k = k

pub remove_level-IsLevel :
    (s : Subscription) (t : Bytes) (ts : List Bytes) (sfwc : Bool) (l : Level)
    → IsLevel l
    → IsLevel (remove_level s t ts sfwc l).0
unfolding remove_level
remove_level-IsLevel s t [] sfwc l h =
    let n = remove_from_node s (child_of (kind t) t l) in
    if-IsLevel (is_empty t) _ _ h (
      if-IsLevel sfwc _ _ h (
        if-IsLevel (is_nil l) _ _ h
          (close_level-IsLevel t n.0 l (if n.1 then removed else not_found) h)))
remove_level-IsLevel s t (t' ∷ ts) sfwc l h =
    let n = child_of (kind t) t l in
    let b = remove_level s t' ts (is_full t) (next n) in
    if-IsLevel (is_empty t) _ _ h (
      if-IsLevel sfwc _ _ h
        (if-IsLevel (is_nil l) _ _ h (close_level-IsLevel t (with_next n b.0) l b.1 h)))
