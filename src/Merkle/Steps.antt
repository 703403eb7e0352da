-- ===== src/Merkle/Steps.antt =====
-- `Insert` and `Remove` keep the invariant, for leaves written in order.
use hinkal_go.Prelude.{
  ℕ, zero, suc, ◌+◌, ◌-◌, ◌*◌, ◌^◌, ◌≤◌, ◌<◌, ◌≡◌, ◌≢◌, ◌⊎◌, inl, inr, refl, ◌∙◌, arith, none,
  nat_eq, ap,
}
use native.Mathlib.Decide.{ℕ_discrete, dec_le}
use hinkal_go.Prelude.Dict
use hinkal_go.Prelude.Dict.{lookup, insert, lookup-insert}
use hinkal_go.Prelude.Pow.{pow-double, pow-pos}
use hinkal_go.Merkle.{
  NodeMap, MerkleTree, done, get_start_index, insert_leaf, remove, logarithm2, new_tree,
}
use hinkal_go.Merkle.Sound.{
  IsSoundAt, IsSound, Returns, written, written-IsSoundAt, start_split, Growth, same, higher,
  growth, new_tree-IsSound,
}
use hinkal_go.Merkle.Climb.{ancestor, IsHashed, Pending, Pending-ancestor, ancestor_range}

module _ (hash_fn : ℕ → ℕ → ℕ) where
  pub insert_leaf_old :
      (v idx : ℕ) (m : MerkleTree)
      → get_start_index m ≤ idx
      → idx < m.index
      → lookup idx m.tree ≢ none
      → insert_leaf hash_fn v idx m
        ≡ done (
            written hash_fn m
              (logarithm2 (m.index - get_start_index m))
              idx
              v
              m.count
              m.index
              (insert v idx m.reverse_tree))
  unfolding insert_leaf Dict.contains
  insert_leaf_old v idx m lo lt present = ground arith

  pub insert_leaf_new :
      (v idx : ℕ) (m : MerkleTree)
      → get_start_index m ≤ idx
      → idx ≡ m.index
      → lookup idx m.tree ≡ none
      → insert_leaf hash_fn v idx m
        ≡ done (
            written hash_fn m
              (logarithm2 (idx + 1 - get_start_index m))
              idx
              v
              (m.count + 1)
              (idx + 1)
              (insert v idx m.reverse_tree))
  unfolding insert_leaf Dict.contains
  insert_leaf_new v idx m lo at_end absent = ground arith

  remove_old :
      (idx : ℕ) (m : MerkleTree)
      → get_start_index m ≤ idx
      → remove hash_fn idx m
        ≡ done (
            written hash_fn m
              (logarithm2 (m.index - get_start_index m))
              idx
              m.default_value
              m.count
              m.index
              (insert m.default_value idx m.reverse_tree))
  unfolding remove
  remove_old idx m lo = ground arith

  -- Writing a leaf that is in use keeps the height.
  rewrite-IsSound :
      (idx v : ℕ) (reverse : NodeMap) (m : MerkleTree)
      → IsSound hash_fn m
      → get_start_index m ≤ idx
      → idx < m.index
      → IsSound hash_fn (
          written hash_fn m
            (logarithm2 (m.index - get_start_index m))
            idx
            v
            m.count
            m.index
            reverse)
  rewrite-IsSound idx v reverse m (h, k, s) lo lt =
      let l : ℕ = logarithm2 (m.index - get_start_index m) in
      (
        l,
        k,
        written-IsSoundAt hash_fn m l k idx v m.count m.index reverse refl
            (omega (arith, s.high, s.split)) s.rooted s.counted lo lt
            (λ i le other below. s.filled i le below) s.fresh s.capped
            (λ i le inner. inl (s.hashed i le inner)),
      )

  module _ (v : ℕ) (reverse : NodeMap) (m : MerkleTree)
      (room : m.index < 2 * get_start_index m) where
    abbrev pub appended : MerkleTree
    appended =
        written hash_fn m (logarithm2 (m.index + 1 - get_start_index m)) m.index v (m.count + 1)
          (m.index + 1) reverse

    append_same :
        (h k : ℕ)
        → IsSoundAt hash_fn m h k
        → logarithm2 (m.index + 1 - get_start_index m) ≡ h
        → IsSoundAt hash_fn appended (logarithm2 (m.index + 1 - get_start_index m)) k
    append_same h k s high =
        written-IsSoundAt hash_fn m (logarithm2 (m.index + 1 - get_start_index m)) k m.index v
          (m.count + 1) (m.index + 1) reverse refl (omega (arith, high, s.split)) s.rooted
          (omega (arith, s.counted)) (omega (arith, s.counted)) (omega arith)
          (λ i le other below. s.filled i le (omega arith))
          (λ i le beyond. s.fresh i le (omega arith)) s.capped
          (λ i le inner. inl (s.hashed i le inner))

    top_above :
        (h k : ℕ)
        → IsSoundAt hash_fn m h (suc k)
        → m.index ≡ get_start_index m + 2 ^ h
        → ancestor (suc h) m.index ≡ 2 ^ k
    top_above h k s full =
        let e : get_start_index m ≡ 2 * 2 ^ k * 2 ^ h =
          start_split hash_fn m h (suc k) s.split ∙ ap (λ t. t * 2 ^ h) (pow-double k) in
        ancestor_range (suc h) m.index (2 ^ k) (rw (pow-double h) (omega arith))
          (rw (pow-double h) (omega (arith, pow-pos h)))

    -- Under a new top, every node is old, on the way up, or absent with its children.
    raised-IsHashed :
        (h k i : ℕ)
        → IsSoundAt hash_fn m h (suc k)
        → m.index ≡ get_start_index m + 2 ^ h
        → 2 ^ k ≤ i
        → i < get_start_index m
        → IsHashed hash_fn m.default_value m.tree i
          ⊎ Pending hash_fn m.default_value (suc h) m.index i
    raised-IsHashed h k i s full le inner = elim (ℕ_discrete i (2 ^ k)) [
      | yes top ↦
          inr
            (rw (top, ← top_above h k s full) (Pending-ancestor hash_fn m.default_value h m.index))
      | no other ↦ elim (dec_le (2 ^ suc k) i) [
        | yes old ↦ inl (s.hashed i old inner)
        | no low ↦ inl (
            inl (
              s.capped i (omega (arith, pow-double k)) (omega arith),
              s.capped (2 * i) (omega (arith, pow-double k)) (omega (arith, pow-double k)),
              s.capped (2 * i + 1) (omega (arith, pow-double k)) (omega (arith, pow-double k)),
            ))
      ]
    ]

    append_higher :
        (h k : ℕ)
        → IsSoundAt hash_fn m h k
        → logarithm2 (m.index + 1 - get_start_index m) ≡ suc h
        → m.index ≡ get_start_index m + 2 ^ h
        → IsSound hash_fn appended
    append_higher h zero s high full = absurd (omega (arith, start_split hash_fn m h 0 s.split))
    append_higher h (suc k) s high full =
        let l : ℕ = logarithm2 (m.index + 1 - get_start_index m) in
        (
          l,
          k,
          written-IsSoundAt hash_fn m l k m.index v (m.count + 1) (m.index + 1) reverse refl
              (omega (arith, high, s.split)) s.rooted (omega (arith, s.counted))
              (omega (arith, s.counted)) (omega arith)
              (λ i le other below. s.filled i le (omega arith))
              (λ i le beyond. s.fresh i le (omega arith))
              (λ i below other.
                s.capped i (omega (arith, pow-double k)) (omega (arith, pow-double k)))
              (λ i le inner. rw high (raised-IsHashed h k i s full le inner)),
        )

    append-IsSound : IsSound hash_fn m → IsSound hash_fn appended
    append-IsSound (h, k, s) = by_growth h k s (rw s.high at (growth (m.index - get_start_index m)))
      where
        next : m.index + 1 - get_start_index m ≡ m.index - get_start_index m + 1
        next = omega (arith, s.counted)

        by_growth :
            (h k : ℕ)
            → IsSoundAt hash_fn m h k
            → Growth (m.index - get_start_index m) h
            → IsSound hash_fn appended
        by_growth h k s (same high fits) =
            (logarithm2 (m.index + 1 - get_start_index m), k, append_same h k s (rw next high))
        by_growth h k s (higher high full) =
            append_higher h k s (rw next high) (omega (arith, s.counted, full))

  -- Writing a leaf in use, or the next one while there is room, does not panic and keeps the tree
  -- sound.
  pub insert_leaf-IsSound :
      (v idx : ℕ) (m : MerkleTree)
      → IsSound hash_fn m
      → get_start_index m ≤ idx
      → idx ≤ m.index
      → idx < 2 * get_start_index m
      → Returns (insert_leaf hash_fn v idx m) (IsSound hash_fn)
  insert_leaf-IsSound v idx m (h, k, s) lo hi room = elim (dec_le (suc idx) m.index) [
    | yes old ↦
        rw (insert_leaf_old v idx m lo old (s.filled idx lo old))
          (rewrite-IsSound idx v (insert v idx m.reverse_tree) m (h, k, s) lo old)
    | no beyond ↦
        let at_end : idx ≡ m.index = omega arith in
        rw (insert_leaf_new v idx m lo at_end (s.fresh idx lo (omega arith)))
          (rw at_end (append-IsSound v (insert v m.index m.reverse_tree) m (omega arith) (h, k, s)))
  ]

  pub remove-IsSound :
      (idx : ℕ) (m : MerkleTree)
      → IsSound hash_fn m
      → get_start_index m ≤ idx
      → idx < m.index
      → Returns (remove hash_fn idx m) (IsSound hash_fn)
  remove-IsSound idx m s lo hi =
      rw (remove_old idx m lo)
        (rewrite-IsSound idx m.default_value (insert m.default_value idx m.reverse_tree) m s lo hi)

  -- The trees that a run of inserts and removes can reach.
  pub data Built (default levels : ℕ) : MerkleTree → Type 0 where
    empty : Built default levels (new_tree default levels)
    inserted :
        {m m' : MerkleTree} (v idx : ℕ)
        → Built default levels m
        → get_start_index m ≤ idx
        → idx ≤ m.index
        → idx < 2 * get_start_index m
        → insert_leaf hash_fn v idx m ≡ done m'
        → Built default levels m'
    removed :
        {m m' : MerkleTree} (idx : ℕ)
        → Built default levels m
        → get_start_index m ≤ idx
        → idx < m.index
        → remove hash_fn idx m ≡ done m'
        → Built default levels m'

  -- Every tree that New makes, and every tree that Insert and Remove make of it, has each node
  -- hashed from its children, its leaves exactly those from the start index to the index, and a
  -- height that fits its count, where each Insert is at the next index or over a leaf in use and
  -- within the tree's capacity, and each Remove is of a leaf in use.
  pub Built-IsSound :
      {default levels : ℕ} {m : MerkleTree} → Built default levels m → IsSound hash_fn m
  Built-IsSound {default} {levels} empty = new_tree-IsSound hash_fn default levels
  Built-IsSound (inserted {m} v idx b lo hi room e) =
      rw e at (insert_leaf-IsSound v idx m (Built-IsSound b) lo hi room)
  Built-IsSound (removed {m} idx b lo hi e) = rw e at (remove-IsSound idx m (Built-IsSound b) lo hi)
