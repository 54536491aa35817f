-- ===== src/Swp/Retree.antt =====
-- swp/retree.go: trees of slots, on the red-black trees of the library rbtree.
pub mod Sorted
pub mod Model
use gnatsd.Prelude.{ℕ, Bool, List, [], ◌∷◌, ltb, ◌==◌, ◌||◌, ◌&&◌, if◌then◌else◌, ◌≡◌, drop, true}

-- What a slot is sorted by: a pair of numbers for each slot, which is known by its index.
abbrev pub Key : Type 0
Key = ℕ → ℕ × ℕ

-- A comparison of two slots is negative. It is zero where neither comes before the other.
abbrev pub before : Key → ℕ → ℕ → Bool
before k i j = ltb (k i).0 (k j).0 || ((k i).0 == (k j).0 && ltb (k i).1 (k j).1)

-- A list into which an element is put by its order, unless one of the same order is there.
unfoldable pub put : Key → ℕ → List ℕ → List ℕ
put k x [] = x ∷ []
put k x (y ∷ ys) =
    let rest = put k x ys in
    if before k x y then x ∷ y ∷ ys else if before k y x then y ∷ rest else y ∷ ys

-- A list from which the element of the same order as `x` is cut.
unfoldable pub cut : Key → ℕ → List ℕ → List ℕ
cut k x [] = []
cut k x (y ∷ ys) =
    let rest = cut k x ys in if before k x y then y ∷ ys else if before k y x then y ∷ rest else ys

-- `x` comes before all of a list.
abbrev pub Least : Key → ℕ → List ℕ → Type 0
Least k x [] = Unit
Least k x (y ∷ ys) = (before k x y ≡ true) × Least k x ys

abbrev pub IsSorted : Key → List ℕ → Type 0
IsSorted k [] = Unit
IsSorted k (x ∷ xs) = Least k x xs × IsSorted k xs

-- The library rbtree: `Insert`, `DeleteWithKey`, `DeleteWithIterator` at `Min`, and an iteration from
-- `Min`. Its comparison reads the slots as they are when it is called.
pub record Rbtree : Type 1 where
  pub Tree : Type 0
  pub empty : Tree
  pub insert : Key → ℕ → Tree → Tree
  pub delete : Key → ℕ → Tree → Tree
  pub delete_min : Tree → Tree
  pub items : Tree → List ℕ

-- What it promises: a tree that is sorted is an ordered set.
pub record IsRbtree (t : Rbtree) : Type 0 where
  pub items-empty : t.items t.empty ≡ []
  pub items-insert :
      (k : Key) (x : ℕ) (a : t.Tree)
      → IsSorted k (t.items a)
      → t.items (t.insert k x a) ≡ put k x (t.items a)
  pub items-delete :
      (k : Key) (x : ℕ) (a : t.Tree)
      → IsSorted k (t.items a)
      → t.items (t.delete k x a) ≡ cut k x (t.items a)
  pub items-delete_min : (a : t.Tree) → t.items (t.delete_min a) ≡ drop 1 (t.items a)

-- The loops of `deleteThroughDeadline` and `deleteThroughSeqNum`, from the minimum on: the slots that
-- go, in order, and the tree without them.
unfoldable pub delete_through : (t : Rbtree) → (ℕ → Bool) → List ℕ → t.Tree → List ℕ × t.Tree
delete_through t goes [] a = ([], a)
delete_through t goes (x ∷ xs) a =
    let rest = delete_through t goes xs (t.delete_min a) in
    if goes x then (x ∷ rest.0, rest.1) else ([], a)
