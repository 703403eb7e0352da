-- ===== src/Merkle.antt =====
-- The incremental Merkle tree of internal/data-structures/merkletree/impl.go.
-- Node 1 is the root of the full tree, node `i` has the children `2 * i` and `2 * i + 1`, and the
-- leaves begin at `start_index`. The two Go maps are keyed by decimal strings of big integers;
-- the models are keyed by the integers, which are natural numbers (commitments are `uint256`).
-- The hash function is a parameter, as it is in the source.
pub mod Log
pub mod Climb
pub mod Refresh
pub mod Sound
pub mod Steps
pub mod Paths
pub mod Reverse
mod Tests
use hinkal_go.Prelude.{
  ℕ, zero, suc, ◌+◌, ◌-◌, ◌*◌, ◌/◌, ◌%◌, ◌^◌, Bool, true, false, ◌&&◌, not, Option, none, some,
  List, [], ◌∷◌, length, take, replicate, ltb, leb, ◌==◌, nat_eq, if◌then◌else◌, Result, ok, err,
}
use hinkal_go.Prelude.Dict
use hinkal_go.Prelude.Dict.{lookup, insert}

abbrev pub NodeMap : Type 0
NodeMap = List (ℕ × ℕ)

pub record MerkleTree : Type 0 where
  pub levels : ℕ
  pub default_value : ℕ
  pub tree : NodeMap
  pub reverse_tree : NodeMap
  pub count : ℕ
  pub index : ℕ

-- A call that mutates the tree returns, or panics and leaves the tree as it stands then.
pub data Outcome : Type 0 where
  done : MerkleTree → Outcome
  panicked : MerkleTree → Outcome

pub data MerkleError : Type 0 where
  incomplete : MerkleError

abbrev pub merkle_levels : ℕ
merkle_levels = 200

abbrev pub circom_merkle_length : ℕ
circom_merkle_length = 25

abbrev pub start_idx : ℕ → ℕ
start_idx levels = 2 ^ (levels - 1)

abbrev pub get_start_index : MerkleTree → ℕ
get_start_index m = start_idx m.levels

unfoldable pub new_tree : ℕ → ℕ → MerkleTree
new_tree default_value levels =
    let l = if levels == 0 then merkle_levels else levels in
    record {
      levels = l;
      default_value = default_value;
      tree = [];
      reverse_tree = [];
      count = 0;
      index = start_idx l;
    }

-- `n.BitLen()`: the number of halvings that bring `n` to zero. `n` rounds are enough.
unfoldable pub bit_len_fuel : ℕ → ℕ → ℕ
bit_len_fuel zero n = 0
bit_len_fuel (suc f) n = let rest = suc (bit_len_fuel f (n / 2)) in if n == 0 then 0 else rest

-- `n` is `index - start`, which is negative only for a tree read from a file; `-` gives 0 there.
unfoldable pub logarithm2 : ℕ → ℕ
unfolding bit_len_fuel
logarithm2 n = if n == 0 then 0 else bit_len_fuel (n - 1) (n - 1)

-- `v := m.tree[i]; if v == nil { v = m.defaultValue }`
unfoldable pub value_at : ℕ → NodeMap → ℕ → ℕ
unfolding lookup
value_at default m i = elim (lookup i m) [ none ↦ default | some v ↦ v ]

module _ (hash_fn : ℕ → ℕ → ℕ) (default : ℕ) where
  -- The loop of `forceInsert`, on the rounds that are left.
  unfoldable pub climb : ℕ → ℕ → NodeMap → NodeMap
  climb zero cur m = m
  climb (suc rounds) cur m =
      let up = cur / 2 in
      climb rounds up
        (insert up (hash_fn (value_at default m (2 * up)) (value_at default m (2 * up + 1))) m)

module _ (hash_fn : ℕ → ℕ → ℕ) where
  unfoldable pub force_insert : ℕ → ℕ → MerkleTree → Outcome
  force_insert value node_index m =
      let si = get_start_index m in
      if ltb node_index si
      then panicked m
      else done (record m {
        tree =
            climb hash_fn m.default_value (logarithm2 (m.index - si)) node_index
              (insert node_index value m.tree);
        reverse_tree = insert value node_index m.reverse_tree;
      })

  -- `Insert`
  unfoldable pub insert_leaf : ℕ → ℕ → MerkleTree → Outcome
  unfolding force_insert
  insert_leaf value node_index m = force_insert value node_index (record m {
    count = if Dict.contains node_index m.tree then m.count else m.count + 1;
    index = if ltb m.index (node_index + 1) then node_index + 1 else m.index;
  })

  -- `Remove`
  unfoldable pub remove : ℕ → MerkleTree → Outcome
  unfolding force_insert
  remove node_index m = force_insert m.default_value node_index m

-- `Contains`
unfoldable pub contains : ℕ → MerkleTree → Bool
contains value m = Dict.contains value m.reverse_tree

-- `GetValue`
abbrev pub get_value : ℕ → MerkleTree → Option ℕ
get_value i m = lookup i m.tree

-- `m.count` against `m.index - start`, with the subtraction moved over.
unfoldable pub completeness_check : MerkleTree → Bool
completeness_check m = (m.count + get_start_index m) == m.index

-- The loop of `GetRootHash`: `i` is 1, 2, 4, … below `2 ^ levels`.
unfoldable pub root_scan : ℕ → ℕ → ℕ → NodeMap → ℕ
unfolding lookup
root_scan zero i default m = default
root_scan (suc rounds) i default m =
    let rest = root_scan rounds (2 * i) default m in
    elim (lookup i m) [ none ↦ rest | some v ↦ if v == 0 then rest else v ]

unfoldable pub get_root_hash : MerkleTree → Result MerkleError ℕ
unfolding completeness_check
get_root_hash m =
    if completeness_check m
    then ok (root_scan m.levels 1 m.default_value m.tree)
    else err incomplete

unfoldable pub get_sibling_index : ℕ → ℕ
get_sibling_index index = if index == 1 then 1 else if index % 2 == 1 then index - 1 else index + 1

-- The loops of the two path methods halve the index until it is zero: `index` rounds are enough.
unfoldable pub sibling_walk : ℕ → ℕ → ℕ → NodeMap → List ℕ
unfolding get_sibling_index value_at
sibling_walk zero index default m = []
sibling_walk (suc f) index default m =
    let rest =
      value_at default m (get_sibling_index index) ∷ sibling_walk f (index / 2) default m in
    if index == 0 then [] else rest

unfoldable pub side_walk : ℕ → ℕ → List ℕ
side_walk zero index = []
side_walk (suc f) index =
    let rest = (if index % 2 == 0 then 0 else 1) ∷ side_walk f (index / 2) in
    if index == 0 then [] else rest

unfoldable pub get_sibling_hashes : ℕ → MerkleTree → Result MerkleError (List ℕ)
unfolding completeness_check lookup sibling_walk
get_sibling_hashes item m =
    if completeness_check m
    then elim (lookup item m.reverse_tree) [
      | none ↦ ok (replicate circom_merkle_length 0)
      | some idx ↦ ok (take circom_merkle_length (sibling_walk idx idx m.default_value m.tree))
    ]
    else err incomplete

unfoldable pub get_sibling_sides : ℕ → MerkleTree → Result MerkleError (List ℕ)
unfolding completeness_check lookup side_walk
get_sibling_sides item m =
    if completeness_check m
    then elim (lookup item m.reverse_tree) [
      | none ↦ ok (replicate circom_merkle_length 0)
      | some idx ↦ ok (take circom_merkle_length (side_walk idx idx))
    ]
    else err incomplete

-- The loop of `LastLeaves`, on the rounds left and the round `i`. `count - i` is the number of
-- the leaf plus one, and is positive in the loop.
unfoldable pub last_leaves_from : ℕ → ℕ → MerkleTree → List ℕ
unfolding lookup
last_leaves_from zero i m = []
last_leaves_from (suc rounds) i m =
    let rest = last_leaves_from rounds (i + 1) m in
    let found : List ℕ = elim (get_value (get_start_index m + m.count - (1 + i)) m) [
      | none ↦ rest
      | some v ↦ if v == 0 then rest else v ∷ rest
    ] in
    if ltb i m.count then found else []

-- `LastLeaves`, for a `limit` that is not negative.
unfoldable pub last_leaves : ℕ → MerkleTree → List ℕ
unfolding last_leaves_from
last_leaves limit m = if m.count == 0 then [] else last_leaves_from limit 0 m

-- The loop of `buildReverseTree`: `count` rounds from the first leaf on.
unfoldable pub reverse_from : ℕ → ℕ → NodeMap → NodeMap → NodeMap
unfolding lookup insert
reverse_from zero i tree acc = acc
reverse_from (suc rounds) i tree acc =
    reverse_from rounds (i + 1) tree (elim (lookup i tree) [ none ↦ acc | some v ↦ insert v i acc ])

unfoldable pub build_reverse_tree : MerkleTree → NodeMap
unfolding reverse_from
build_reverse_tree m = reverse_from m.count (get_start_index m) m.tree []
