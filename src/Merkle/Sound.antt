-- ===== src/Merkle/Sound.antt =====
-- The invariant of a tree that was filled without gaps, and its preservation by `Insert`, `Remove`.
use hinkal_go.Prelude.{
  ℕ, suc, ◌+◌, ◌-◌, ◌*◌, ◌^◌, ◌≤◌, ◌<◌, ◌≡◌, ◌≢◌, ◌⊎◌, refl, ◌∙◌, arith, none, some, nat_eq, ◌==◌,
  if◌then◌else◌,
}
use native.Mathlib.Decide.{dec_le}
use hinkal_go.Prelude.Dict.{lookup, insert, lookup-insert}
use hinkal_go.Prelude.Pow.{pow-double, pow-pos, pow-add, pow_mono}
use hinkal_go.Merkle.{
  NodeMap, MerkleTree, Outcome, done, panicked, start_idx, get_start_index, climb, logarithm2,
  new_tree,
}
use hinkal_go.Merkle.Log.{le-pow-logarithm2, logarithm2-le}
use hinkal_go.Merkle.Climb.{IsHashed, Pending, climb_above}
use hinkal_go.Merkle.Refresh.{IsCapped, refreshed-IsCapped, refreshed-IsHashed}

-- The call returns, and its tree has the property.
abbrev pub Returns : Outcome → (MerkleTree → Type 0) → Type 0
Returns (done m) P = P m
Returns (panicked m) P = ⊥

-- The height after one more leaf.
pub data Growth (n h : ℕ) : Type 0 where
  same : logarithm2 (n + 1) ≡ h → n + 1 ≤ 2 ^ h → Growth n h
  higher : logarithm2 (n + 1) ≡ suc h → n ≡ 2 ^ h → Growth n h

le-logarithm2-add_one : (n : ℕ) → logarithm2 n ≤ logarithm2 (n + 1)
le-logarithm2-add_one n =
    logarithm2-le n (logarithm2 (n + 1)) (omega (arith, le-pow-logarithm2 (n + 1)))

lt-logarithm2 : (n h : ℕ) → 2 ^ h < n → h < logarithm2 n
lt-logarithm2 n h lt = elim (dec_le (logarithm2 n) h) [
  | yes le ↦ absurd (omega (arith, le-pow-logarithm2 n, pow_mono (logarithm2 n) h le))
  | no gt ↦ omega arith
]

pub growth : (n : ℕ) → Growth n (logarithm2 n)
growth n =
    let h : ℕ = logarithm2 n in
    elim (dec_le (n + 1) (2 ^ h)) as (λ _. Growth n h) [
      | yes fits ↦ same (omega (arith, logarithm2-le (n + 1) h fits, le-logarithm2-add_one n)) fits
      | no full ↦
          higher
            (omega (
              arith,
              lt-logarithm2 (n + 1) h,
              logarithm2-le (n + 1) (suc h),
              pow-double h,
              le-pow-logarithm2 n,
              pow-pos h,
            ))
            (omega (arith, le-pow-logarithm2 n))
    ]

module _ (hash_fn : ℕ → ℕ → ℕ) where
  -- `h` is the height of the part in use, whose top is the node `2 ^ k`.
  pub record IsSoundAt (m : MerkleTree) (h k : ℕ) : Type 0 where
    pub high : logarithm2 (m.index - get_start_index m) ≡ h
    pub split : m.levels - 1 ≡ k + h
    pub rooted : 1 ≤ m.levels
    pub counted : m.index ≡ m.count + get_start_index m
    pub filled : (i : ℕ) → get_start_index m ≤ i → i < m.index → lookup i m.tree ≢ none
    pub fresh : (i : ℕ) → get_start_index m ≤ i → m.index ≤ i → lookup i m.tree ≡ none
    pub capped : IsCapped k m.tree
    pub hashed :
        (i : ℕ) → 2 ^ k ≤ i → i < get_start_index m → IsHashed hash_fn m.default_value m.tree i

  abbrev pub IsSound : MerkleTree → Type 0
  IsSound m = (h : ℕ) × (k : ℕ) × IsSoundAt m h k

  pub new_tree-IsSound : (default levels : ℕ) → IsSound (new_tree default levels)
  unfolding new_tree lookup
  new_tree-IsSound default levels =
      let l = (new_tree default levels).levels in
      (
        0,
        l - 1,
        record {
          high = omega (arith, logarithm2-le (start_idx l - start_idx l) 0);
          split = omega arith;
          rooted = ground arith;
          counted = omega arith;
          filled = λ i lo hi. absurd (omega arith);
          fresh = λ i lo hi. refl;
          capped = λ i lo hi. refl;
          hashed = λ i lo hi. absurd (omega arith);
        },
      )

  -- The tree after a write to the leaf `idx`, with new counters.
  abbrev pub written : MerkleTree → (h idx v count index : ℕ) → NodeMap → MerkleTree
  written m h idx v count index reverse = record m {
    tree = climb hash_fn m.default_value h idx (insert idx v m.tree);
    reverse_tree = reverse;
    count = count;
    index = index;
  }

  pub start_split :
      (m : MerkleTree) (h k : ℕ) → m.levels - 1 ≡ k + h → get_start_index m ≡ 2 ^ k * 2 ^ h
  start_split m h k split = rw (split, pow-add k h)

  module _ (m : MerkleTree) (h k idx v count index : ℕ) (reverse : NodeMap)
      (high : logarithm2 (index - get_start_index m) ≡ h) (split : m.levels - 1 ≡ k + h)
      (rooted : 1 ≤ m.levels) (counted : index ≡ count + get_start_index m)
      (le : get_start_index m ≤ idx) (lt : idx < index) where
    start : get_start_index m ≡ 2 ^ k * 2 ^ h
    start = start_split m h k split

    width : index - get_start_index m ≤ 2 ^ h
    width = rw high at (le-pow-logarithm2 (index - get_start_index m))

    idx-lt : idx < (2 ^ k + 1) * 2 ^ h
    idx-lt = omega (arith, start, width)

    leaf :
        (i : ℕ)
        → get_start_index m ≤ i
        → lookup i (climb hash_fn m.default_value h idx (insert idx v m.tree))
          ≡ (if idx == i then some v else lookup i m.tree)
    leaf i lo =
        climb_above hash_fn m.default_value h idx i (insert idx v m.tree)
          (omega (arith, start, width, pow-add k h, pow_mono h (k + h)))
        ∙ lookup-insert idx i v m.tree

    pub written-IsSoundAt :
        ((i : ℕ) → get_start_index m ≤ i → i ≢ idx → i < index → lookup i m.tree ≢ none)
        → ((i : ℕ) → get_start_index m ≤ i → index ≤ i → lookup i m.tree ≡ none)
        → IsCapped k m.tree
        → ((i : ℕ)
            → 2 ^ k ≤ i
            → i < get_start_index m
            → IsHashed hash_fn m.default_value m.tree i ⊎ Pending hash_fn m.default_value h idx i)
        → IsSoundAt (written m h idx v count index reverse) h k
    written-IsSoundAt filled fresh capped hashed = record {
      high = high;
      split = split;
      rooted = rooted;
      counted = counted;
      filled = λ i lo hi. grind (arith, leaf i lo, filled i lo);
      fresh = λ i lo hi. ground (arith, leaf i lo, fresh i lo hi);
      capped =
          refreshed-IsCapped hash_fn m.default_value h k idx v m.tree (omega (arith, start)) idx-lt
            capped;
      hashed = λ i lo hi.
          refreshed-IsHashed hash_fn m.default_value h k idx v m.tree (omega (arith, start)) idx-lt
            i lo (omega (arith, start)) (hashed i lo hi);
    }
