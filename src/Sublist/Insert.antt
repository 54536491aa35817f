-- ===== src/Sublist/Insert.antt =====
-- `Insert`: what it adds to the results of every later walk.
use gnatsd.Prelude.{
  ℕ, ◌+◌, Bool, true, false, ◌&&◌, List, [], ◌∷◌, Bytes, ◌≡◌, refl, bytes_eq, arith, if◌then◌else◌,
  Bool-cases, inl, inr,
}
use gnatsd.Sublist.Subject.{Kind, partial, full, literal, kind, is_full, is_empty}
use gnatsd.Sublist.Trie.{
  Subscription, Level, nil_level, level, Node, nil_node, node, next, new_level, lookup_node,
  child_of, set_child_of, add_to_node, ensure, with_next, insert_level,
}
use gnatsd.Sublist.Occurs.{is_it, occurs, occurs_groups, occurs_node, occurs-add_sub}
use gnatsd.Sublist.Hits.{matches, token_matches, hits}
use gnatsd.Sublist.Child.{IsLevel, share, child_share, hits-set_child}

pub hits-new_level : (i : ℕ) (us : List Bytes) → hits i new_level us ≡ 0
unfolding hits lookup_node
hits-new_level i [] = refl
hits-new_level i (u ∷ []) = omega arith
hits-new_level i (u ∷ v ∷ us) = omega arith

ensure-IsLevel : (n : Node) → IsLevel (next (ensure n))
unfolding ensure
ensure-IsLevel nil_node = tt
ensure-IsLevel (node nil_level ps qs) = tt
ensure-IsLevel (node (level ns p f) ps qs) = tt

occurs_node-ensure : (i : ℕ) (n : Node) → occurs_node i (ensure n) ≡ occurs_node i n
unfolding ensure occurs occurs_groups
occurs_node-ensure i nil_node = refl
occurs_node-ensure i (node nil_level ps qs) = refl
occurs_node-ensure i (node (level ns p f) ps qs) = refl

hits-ensure :
    (i : ℕ) (n : Node) (u : Bytes) (us : List Bytes)
    → hits i (next (ensure n)) (u ∷ us) ≡ hits i (next n) (u ∷ us)
unfolding ensure hits
hits-ensure i nil_node u us = hits-new_level i (u ∷ us)
hits-ensure i (node nil_level ps qs) u us = hits-new_level i (u ∷ us)
hits-ensure i (node (level ns p f) ps qs) u us = refl

next-add_to_node : (s : Subscription) (n : Node) → next (add_to_node s n) ≡ next n
unfolding add_to_node
next-add_to_node s nil_node = refl
next-add_to_node s (node l ps qs) = refl

occurs_node-add_ensured :
    (i : ℕ) (s : Subscription) (n : Node)
    → occurs_node i (add_to_node s (ensure n)) ≡ occurs_node i n + is_it i s
unfolding add_to_node ensure occurs occurs_groups
occurs_node-add_ensured i s nil_node = omega (arith, occurs-add_sub i s [] [])
occurs_node-add_ensured i s (node nil_level ps qs) = occurs-add_sub i s ps qs
occurs_node-add_ensured i s (node (level ns p f) ps qs) = occurs-add_sub i s ps qs

-- The last token: its child gains the subscription.
share-added :
    (k : Kind) (i : ℕ) (t : Bytes) (s : Subscription) (n : Node) (u : Bytes) (us : List Bytes)
    → child_share k i t (add_to_node s (ensure n)) u us
      ≡ child_share k i t n u us + (if token_matches k t u (matches [] us) then is_it i s else 0)
unfolding child_share share matches
share-added partial i t s n u [] = omega (arith, occurs_node-add_ensured i s n)
share-added partial i t s n u (v ∷ us) = rw (next-add_to_node, hits-ensure) (omega arith)
share-added full i t s n u us = omega (arith, occurs_node-add_ensured i s n)
share-added literal i t s n u [] = ground (arith, occurs_node-add_ensured i s n)
share-added literal i t s n u (v ∷ us) = rw (next-add_to_node, hits-ensure) (ground arith)

occurs_node-with_next :
    (i : ℕ) (n : Node) (l : Level) → occurs_node i (with_next (ensure n) l) ≡ occurs_node i n
unfolding ensure with_next occurs occurs_groups
occurs_node-with_next i nil_node l = refl
occurs_node-with_next i (node nil_level ps qs) l = refl
occurs_node-with_next i (node (level ns p f) ps qs) l = refl

next-with_next : (n : Node) (l : Level) → next (with_next (ensure n) l) ≡ l
unfolding ensure with_next
next-with_next nil_node l = refl
next-with_next (node nil_level ps qs) l = refl
next-with_next (node (level ns p f) ps qs) l = refl

module _ (i : ℕ) (t t' : Bytes) (ts : List Bytes) (n : Node) (l : Level) (added : Bool) (d : ℕ)
    (below : (v : Bytes) (us : List Bytes)
      → hits i l (v ∷ us)
        ≡ hits i (next (ensure n)) (v ∷ us)
          + (if added && matches (t' ∷ ts) (v ∷ us) then d else 0)) where
  share-with_next :
      (us : List Bytes)
      → share i (with_next (ensure n) l) us
        ≡ share i n us + (if added && matches (t' ∷ ts) us then d else 0)
  unfolding share matches
  share-with_next [] = rw occurs_node-with_next (ground arith)
  share-with_next (v ∷ us) = rw (next-with_next, below v us, hits-ensure)

  -- A token before the last: its child's level has changed as `below` says.
  child_share-with_next :
      (k : Kind) (u : Bytes) (us : List Bytes)
      → (k ≡ full → added ≡ false)
      → child_share k i t (with_next (ensure n) l) u us
        ≡ child_share k i t n u us
          + (if added && token_matches k t u (matches (t' ∷ ts) us) then d else 0)
  unfolding child_share
  child_share-with_next partial u us h = share-with_next us
  child_share-with_next full u us h = rw (h refl, occurs_node-with_next) (omega arith)
  child_share-with_next literal u us h = elim (Bool-cases (bytes_eq t u)) [
    | inl same ↦ rw same (share-with_next us)
    | inr other ↦ rw other (ground arith)
  ]

-- No token follows a `>`.
pub insert_level-after_full :
    (s : Subscription) (t : Bytes) (ts : List Bytes) (l : Level)
    → insert_level s t ts true l ≡ (l, false)
unfolding insert_level
insert_level-after_full s t [] l = ground arith
insert_level-after_full s t (t' ∷ ts) l = ground arith

is_full-true : (t : Bytes) → kind t ≡ full → is_full t ≡ true
unfolding is_full
is_full-true t e = rw (e, is_full)

-- A walk over any tokens `u ∷ us` meets the new subscription once more if `Insert` accepted it and
-- its pattern covers them, and all else as often as before; after a refused subject nothing changes
-- for any walk, though nodes may stay behind.
pub hits-insert_level :
    (i : ℕ) (s : Subscription) (t : Bytes) (ts : List Bytes) (sfwc : Bool) (l : Level) (u : Bytes)
    (us : List Bytes)
    → IsLevel l
    → hits i (insert_level s t ts sfwc l).0 (u ∷ us)
      ≡ hits i l (u ∷ us)
        + (if (insert_level s t ts sfwc l).1 && matches (t ∷ ts) (u ∷ us) then is_it i s else 0)
unfolding insert_level matches
hits-insert_level i s t [] sfwc l u us h =
    let k = kind t in
    let c = child_of k t l in
    ground
      (arith, share-added k i t s c u us, hits-set_child k i t (add_to_node s (ensure c)) l u us h)
hits-insert_level i s t (t' ∷ ts) sfwc l u us h =
    let k = kind t in
    let c = child_of k t l in
    let b = insert_level s t' ts (is_full t) (next (ensure c)) in
    ground (
      arith,
      child_share-with_next i t t' ts c b.0 b.1 (is_it i s)
          (λ v vs.
            hits-insert_level i s t' ts (is_full t) (next (ensure c)) v vs (ensure-IsLevel c))
          k u us (λ e. full_false e),
      hits-set_child k i t (with_next (ensure c) b.0) l u us h,
    )
  where
    full_false :
        kind t ≡ full
        → (insert_level s t' ts (is_full t) (next (ensure (child_of (kind t) t l)))).1 ≡ false
    full_false e = rw (is_full-true t e, insert_level-after_full)

if-IsLevel :
    (b : Bool) (x y : Level × Bool) → IsLevel x.0 → IsLevel y.0 → IsLevel (if b then x else y).0
if-IsLevel true x y h k = h
if-IsLevel false x y h k = k

pub set_child-IsLevel :
    (k : Kind) (t : Bytes) (n : Node) (l : Level) → IsLevel l → IsLevel (set_child_of k t n l)
unfolding set_child_of
set_child-IsLevel k t n nil_level h = h
set_child-IsLevel partial t n (level ns p f) h = tt
set_child-IsLevel full t n (level ns p f) h = tt
set_child-IsLevel literal t n (level ns p f) h = tt

pub insert_level-IsLevel :
    (s : Subscription) (t : Bytes) (ts : List Bytes) (sfwc : Bool) (l : Level)
    → IsLevel l
    → IsLevel (insert_level s t ts sfwc l).0
unfolding insert_level
insert_level-IsLevel s t [] sfwc l h =
    if-IsLevel (is_empty t) _ _ h (if-IsLevel sfwc _ _ h (set_child-IsLevel (kind t) t _ l h))
insert_level-IsLevel s t (t' ∷ ts) sfwc l h =
    if-IsLevel (is_empty t) _ _ h (if-IsLevel sfwc _ _ h (set_child-IsLevel (kind t) t _ l h))
