-- ===== src/Merkle/Reverse.antt =====
-- The reverse map from values to leaves.
use hinkal_go.Prelude.{
  ℕ, zero, suc, ◌+◌, ◌*◌, ◌≤◌, ◌<◌, ◌≡◌, ◌≢◌, refl, ◌∙◌, arith, none, some, nat_eq, ap, ◌==◌,
  if◌then◌else◌, [], true,
}
use native.Mathlib.Decide.{ℕ_discrete}
use hinkal_go.Prelude.Dict
use hinkal_go.Prelude.Dict.{lookup, insert, lookup-insert}
use hinkal_go.Merkle.{
  NodeMap, MerkleTree, done, get_start_index, insert_leaf, new_tree, contains, reverse_from,
  build_reverse_tree,
}
use hinkal_go.Merkle.Climb.{climb_above}
use hinkal_go.Merkle.Sound.{IsSound, Returns}
use hinkal_go.Merkle.Steps.{
  Built, empty, inserted, Built-IsSound, insert_leaf_new, insert_leaf_old, appended,
}

-- One round of `buildReverseTree`.
reverse_round : ℕ → NodeMap → NodeMap → NodeMap
reverse_round i tree acc = elim (lookup i tree) [ none ↦ acc | some v ↦ insert v i acc ]

reverse_round-some :
    (i v : ℕ) (tree acc : NodeMap)
    → lookup i tree ≡ some v
    → reverse_round i tree acc ≡ insert v i acc
unfolding reverse_round
reverse_round-some i v tree acc e = ground arith

contains-some : (v i : ℕ) (m : MerkleTree) → lookup v m.reverse_tree ≡ some i → contains v m ≡ true
unfolding contains Dict.contains
contains-some v i m e = ground arith

-- The last round, taken off at the end.
reverse_from_last :
    (n i : ℕ) (tree acc : NodeMap)
    → reverse_from (suc n) i tree acc ≡ reverse_round (i + n) tree (reverse_from n i tree acc)
unfolding reverse_from reverse_round
reverse_from_last zero i tree acc = ap (λ (j : ℕ). reverse_round j tree acc) (omega arith)
reverse_from_last (suc n) i tree acc =
    reverse_from_last n (i + 1) tree (reverse_round i tree acc)
    ∙ ap (λ (j : ℕ). reverse_round j tree (reverse_from (suc n) i tree acc)) (omega arith)

-- The loop reads the leaves alone.
reverse_from_same :
    (n i : ℕ) (tree tree' acc : NodeMap)
    → ((j : ℕ) → i ≤ j → j < i + n → lookup j tree ≡ lookup j tree')
    → reverse_from n i tree acc ≡ reverse_from n i tree' acc
unfolding reverse_from
reverse_from_same zero i tree tree' acc h = refl
reverse_from_same (suc n) i tree tree' acc h =
    rw (h i (omega arith) (omega arith))
      (reverse_from_same n (i + 1) tree tree' _ (λ j lo hi. h j (omega arith) (omega arith)))

module _ (hash_fn : ℕ → ℕ → ℕ) where
  -- The trees that are filled by inserting at `GetIndex()` alone.
  pub data Grown (default levels : ℕ) : MerkleTree → Type 0 where
    sprout : Grown default levels (new_tree default levels)
    grow :
        {m m' : MerkleTree} (v : ℕ)
        → Grown default levels m
        → m.index < 2 * get_start_index m
        → insert_leaf hash_fn v m.index m ≡ done m'
        → Grown default levels m'

  start-le-index : (m : MerkleTree) → IsSound hash_fn m → get_start_index m ≤ m.index
  start-le-index m (h, k, s) = omega (arith, s.counted)

  pub Grown-Built :
      {default levels : ℕ} {m : MerkleTree}
      → Grown default levels m
      → Built hash_fn default levels m
  Grown-Built sprout = empty
  Grown-Built (grow {m} v g room e) =
      inserted v m.index (Grown-Built g) (start-le-index m (Built-IsSound hash_fn (Grown-Built g)))
        (omega arith) room e

  -- The reverse map is what `buildReverseTree` makes, and finds each value at a leaf that holds it.
  pub record IsReversed (m : MerkleTree) : Type 0 where
    pub rebuilt : build_reverse_tree m ≡ m.reverse_tree
    pub found :
        (v i : ℕ)
        → lookup v m.reverse_tree ≡ some i
        → (get_start_index m ≤ i) × (i < m.index) × (lookup i m.tree ≡ some v)

  appended-leaf :
      (v i : ℕ) (reverse : NodeMap) (m : MerkleTree) (room : m.index < 2 * get_start_index m)
      → get_start_index m ≤ i
      → lookup i (appended hash_fn v reverse m room).tree
        ≡ (if m.index == i then some v else lookup i m.tree)
  appended-leaf v i reverse m room le =
      climb_above hash_fn m.default_value _ m.index i (insert m.index v m.tree) (omega arith)
      ∙ lookup-insert m.index i v m.tree

  new_leaf :
      (v : ℕ) (m : MerkleTree) (room : m.index < 2 * get_start_index m)
      → get_start_index m ≤ m.index
      → lookup m.index (appended hash_fn v (insert v m.index m.reverse_tree) m room).tree ≡ some v
  new_leaf v m room le =
      appended-leaf v m.index (insert v m.index m.reverse_tree) m room le ∙ ground arith

  old_leaf :
      (v i : ℕ) (m : MerkleTree) (room : m.index < 2 * get_start_index m)
      → get_start_index m ≤ i
      → i < m.index
      → lookup i (appended hash_fn v (insert v m.index m.reverse_tree) m room).tree
        ≡ lookup i m.tree
  old_leaf v i m room le lt =
      appended-leaf v i (insert v m.index m.reverse_tree) m room le ∙ ground arith

  appended_rebuilt :
      (v : ℕ) (m : MerkleTree) (room : m.index < 2 * get_start_index m)
      → m.index ≡ m.count + get_start_index m
      → build_reverse_tree m ≡ m.reverse_tree
      → build_reverse_tree (appended hash_fn v (insert v m.index m.reverse_tree) m room)
        ≡ insert v m.index m.reverse_tree
  unfolding build_reverse_tree
  appended_rebuilt v m room counted rebuilt =
      let si : ℕ = get_start_index m in
      let m' = appended hash_fn v (insert v m.index m.reverse_tree) m room in
      let next : m.count + 1 ≡ suc m.count = omega arith in
      let last : si + m.count ≡ m.index = omega (arith, counted) in
      let before : reverse_from m.count si m'.tree [] ≡ m.reverse_tree =
        reverse_from_same m.count si m'.tree m.tree []
          (λ j lo hi. old_leaf v j m room lo (omega (arith, counted)))
        ∙ rebuilt in
      let leaf : lookup m.index m'.tree ≡ some v = new_leaf v m room (omega (arith, counted)) in
      rw next (
        reverse_from_last m.count si m'.tree []
        ∙ ap (reverse_round (si + m.count) m'.tree) before
        ∙ ap (λ (j : ℕ). reverse_round j m'.tree m.reverse_tree) last
        ∙ reverse_round-some m.index v m'.tree m.reverse_tree leaf)

  appended_found :
      (v : ℕ) (m : MerkleTree) (room : m.index < 2 * get_start_index m)
      → IsReversed m
      → get_start_index m ≤ m.index
      → (w i : ℕ) → lookup w (insert v m.index m.reverse_tree) ≡ some i
      → (get_start_index m ≤ i)
        × (i < m.index + 1)
        × (lookup i (appended hash_fn v (insert v m.index m.reverse_tree) m room).tree ≡ some w)
  appended_found v m room s le w i e = elim (ℕ_discrete v w) [
    | yes same ↦
        let at_end : m.index ≡ i = ground (arith, lookup-insert v w m.index m.reverse_tree) in
        (omega arith, omega arith, rw (← at_end, ← same) (new_leaf v m room le))
    | no other ↦
        let (lo, hi, held) =
          s.found w i (ground (arith, lookup-insert v w m.index m.reverse_tree)) in
        (lo, omega arith, old_leaf v i m room lo hi ∙ held)
  ]

  appended-IsReversed :
      (v : ℕ) (m : MerkleTree) (room : m.index < 2 * get_start_index m)
      → m.index ≡ m.count + get_start_index m
      → IsReversed m
      → IsReversed (appended hash_fn v (insert v m.index m.reverse_tree) m room)
  appended-IsReversed v m room counted s = record {
    rebuilt = appended_rebuilt v m room counted s.rebuilt;
    found = λ w i e. appended_found v m room s (omega (arith, counted)) w i e;
  }

  grown-IsReversed :
      (v : ℕ) (m : MerkleTree)
      → IsSound hash_fn m
      → m.index < 2 * get_start_index m
      → IsReversed m
      → Returns (insert_leaf hash_fn v m.index m) IsReversed
  grown-IsReversed v m (h, k, s) room r =
      let le : get_start_index m ≤ m.index = omega (arith, s.counted) in
      rw (insert_leaf_new hash_fn v m.index m le refl (s.fresh m.index le (omega arith)))
        (appended-IsReversed v m room s.counted r)

  -- In a tree that New makes and that is filled by inserting at GetIndex() alone, within its
  -- capacity, the reverse map is what buildReverseTree makes and finds each value at a leaf in use
  -- that holds it.
  pub Grown-IsReversed :
      {default levels : ℕ} {m : MerkleTree} → Grown default levels m → IsReversed m
  unfolding new_tree build_reverse_tree lookup
  Grown-IsReversed sprout = record { rebuilt = refl; found = λ v i e. cc }
  Grown-IsReversed (grow {m} {m'} v g room e) =
      rw e at
        (grown-IsReversed v m (Built-IsSound hash_fn (Grown-Built g)) room (Grown-IsReversed g))

  -- In a sound tree, writing another value over a leaf in use, within the capacity, leaves the old
  -- value that the reverse map finds there in the reverse map, so Contains still finds it.
  pub overwritten-contains :
      (v w idx : ℕ) (m : MerkleTree)
      → IsSound hash_fn m
      → get_start_index m ≤ idx
      → idx < m.index
      → idx < 2 * get_start_index m
      → v ≢ w
      → lookup v m.reverse_tree ≡ some idx
      → Returns (insert_leaf hash_fn w idx m) (λ m'.
        (contains v m' ≡ true)
        × (lookup v m'.reverse_tree ≡ some idx)
        × (lookup idx m'.tree ≡ some w))
  overwritten-contains v w idx m (h, k, s) lo hi room other e =
      let kept : lookup v (insert w idx m.reverse_tree) ≡ some idx =
        ground (arith, lookup-insert w v idx m.reverse_tree) in
      rw (insert_leaf_old hash_fn w idx m lo hi (s.filled idx lo hi)) (
        contains-some v idx _ kept,
        kept,
        climb_above hash_fn m.default_value _ idx idx (insert idx w m.tree) (omega arith)
            ∙ lookup-insert idx idx w m.tree
            ∙ ground arith,
      )
