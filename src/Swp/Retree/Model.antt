-- ===== src/Swp/Retree/Model.antt =====
-- Sorted lists behave as the trees of swp/retree.go: a model for runs at concrete inputs.
use gnatsd.Prelude.{ℕ, List, [], drop, refl}
use gnatsd.Swp.Retree.{Rbtree, IsRbtree, put, cut}

abbrev pub list_tree : Rbtree
list_tree = record {
  Tree = List ℕ;
  empty = [];
  insert = put;
  delete = cut;
  delete_min = drop 1;
  items = λ xs. xs;
}

pub list_tree-IsRbtree : IsRbtree list_tree
list_tree-IsRbtree = record {
  items-empty = refl;
  items-insert = λ k x a h. refl;
  items-delete = λ k x a h. refl;
  items-delete_min = λ a. refl;
}
