-- ===== src/Merkle/Tests.antt =====
-- Runs of the tree of four levels, and the theorems at them.
use hinkal_go.Prelude.{ℕ, ◌+◌, ◌*◌, ◌≡◌, ◌⊎◌, refl, arith, some, [], ◌∷◌, ok, true, nat_eq}
use hinkal_go.Prelude.Dict
use hinkal_go.Prelude.Dict.{lookup, insert}
use hinkal_go.Merkle.{
  MerkleTree, done, new_tree, insert_leaf, get_root_hash, last_leaves, get_sibling_hashes,
  get_sibling_sides, logarithm2, climb, contains, value_at, root_scan,
}
use hinkal_go.Merkle.Sound.{IsSound, Returns}
use hinkal_go.Merkle.Steps.{Built, empty, inserted, Built-IsSound}
use hinkal_go.Merkle.Paths.{height, path_hashes, path_sides, proved_root, path_proves_root}
use hinkal_go.Merkle.Reverse.{
  Grown, sprout, grow, IsReversed, Grown-IsReversed, overwritten-contains,
}

abbrev toy_hash : ℕ → ℕ → ℕ
toy_hash a b = 1 + 2 * a + 3 * b

abbrev none_yet : MerkleTree
none_yet = new_tree 0 4

abbrev one_leaf : MerkleTree
one_leaf = record {
  levels = 4;
  default_value = 0;
  tree = (8, 5) ∷ [];
  reverse_tree = (5, 8) ∷ [];
  count = 1;
  index = 9;
}

abbrev two_leaves : MerkleTree
two_leaves = record {
  levels = 4;
  default_value = 0;
  tree = (8, 5) ∷ (9, 7) ∷ (4, 32) ∷ [];
  reverse_tree = (5, 8) ∷ (7, 9) ∷ [];
  count = 2;
  index = 10;
}

abbrev three_leaves : MerkleTree
three_leaves = record {
  levels = 4;
  default_value = 0;
  tree = (8, 5) ∷ (9, 7) ∷ (4, 32) ∷ (10, 6) ∷ (5, 13) ∷ (2, 104) ∷ [];
  reverse_tree = (5, 8) ∷ (7, 9) ∷ (6, 10) ∷ [];
  count = 3;
  index = 11;
}

first : insert_leaf toy_hash 5 8 none_yet ≡ done one_leaf
unfolding insert_leaf new_tree logarithm2 climb Dict.contains insert
first = refl

second : insert_leaf toy_hash 7 9 one_leaf ≡ done two_leaves
unfolding insert_leaf logarithm2 climb Dict.contains insert value_at
second = refl

third : insert_leaf toy_hash 6 10 two_leaves ≡ done three_leaves
unfolding insert_leaf logarithm2 climb Dict.contains insert value_at
third = refl

root : get_root_hash three_leaves ≡ ok 104
unfolding get_root_hash root_scan
root = refl

newest_first : last_leaves 2 three_leaves ≡ 6 ∷ 7 ∷ []
unfolding last_leaves
newest_first = refl

grown : Grown toy_hash 0 4 three_leaves
unfolding new_tree
grown = grow 6 (grow 7 (grow 5 sprout (omega arith) first) (omega arith) second) (omega arith) third

built : Built toy_hash 0 4 three_leaves
unfolding new_tree
built =
    inserted 6 10
      (inserted 7 9 (inserted 5 8 empty (omega arith) (omega arith) (omega arith) first)
        (omega arith) (omega arith) (omega arith) second)
      (omega arith) (omega arith) (omega arith) third

Built-IsSound_example : IsSound toy_hash three_leaves
Built-IsSound_example = Built-IsSound toy_hash built

three_leaves-height : height three_leaves ≡ 2
unfolding logarithm2
three_leaves-height = refl

path_proves_root_example :
    (get_sibling_hashes 7 three_leaves ≡ ok (path_hashes 9 three_leaves))
    × (get_sibling_sides 7 three_leaves ≡ ok (path_sides 9))
    × ((get_root_hash three_leaves
          ≡ ok (proved_root toy_hash 7 (height three_leaves) 9 three_leaves))
        ⊎ (proved_root toy_hash 7 (height three_leaves) 9 three_leaves ≡ 0))
unfolding lookup
path_proves_root_example =
    path_proves_root toy_hash 7 9 three_leaves (Built-IsSound toy_hash built) (omega arith) refl
      refl (omega (arith, three_leaves-height))

Grown-IsReversed_example : IsReversed toy_hash three_leaves
Grown-IsReversed_example = Grown-IsReversed toy_hash grown

overwritten-contains_example : Returns (insert_leaf toy_hash 9 9 three_leaves) (λ m'.
    (contains 7 m' ≡ true) × (lookup 7 m'.reverse_tree ≡ some 9) × (lookup 9 m'.tree ≡ some 9))
unfolding lookup
overwritten-contains_example =
    overwritten-contains toy_hash 7 9 9 three_leaves (Built-IsSound toy_hash built) (omega arith)
      (omega arith) (omega arith) (omega arith) refl
