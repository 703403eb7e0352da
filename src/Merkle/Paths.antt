-- ===== src/Merkle/Paths.antt =====
-- The sibling hashes and sides of a leaf lead to the root hash.
use hinkal_go.Prelude.{
  ℕ, zero, suc, ◌+◌, ◌-◌, ◌*◌, ◌/◌, ◌%◌, ◌^◌, ◌≤◌, ◌<◌, ◌≡◌, ◌≢◌, ◌⊎◌, inl, inr, refl, ◌∙◌, arith,
  some, nat_eq, ap, ◌==◌, if◌then◌else◌, List, [], ◌∷◌, true, Bool-cases, take, ok,
}
use native.Mathlib.Decide.{ℕ_discrete, dec_le}
use hinkal_go.Prelude.Dict.{lookup}
use hinkal_go.Prelude.Pow.{pow-double, pow-pos, pow-add, pow_mono}
use hinkal_go.Merkle.{
  NodeMap, MerkleTree, get_start_index, root_scan, get_root_hash, get_sibling_index, sibling_walk,
  side_walk, get_sibling_hashes, get_sibling_sides, value_at, logarithm2, circom_merkle_length,
}
use hinkal_go.Merkle.Log.{le-pow-logarithm2}
use hinkal_go.Merkle.Climb.{ancestor, ancestor-le, ancestor_range, IsHashed}
use hinkal_go.Merkle.Refresh.{IsCapped}
use hinkal_go.Merkle.Sound.{IsSoundAt, IsSound, start_split}

-- The levels of the tree that are in use.
abbrev pub height : MerkleTree → ℕ
height m = logarithm2 (m.index - get_start_index m)

take-take {ℓ} : {A : Type ℓ} (h n : ℕ) (xs : List A) → h ≤ n → take h (take n xs) ≡ take h xs
take-take zero n xs le = refl
take-take (suc h) zero xs le = absurd (omega arith)
take-take (suc h) (suc n) [] le = refl
take-take (suc h) (suc n) (x ∷ xs) le = ap (◌∷◌ x) (take-take h n xs (omega arith))

-- The scan for the root skips the absent nodes above the top, and stops at the top.
scan_finds_top :
    (d j k rounds default : ℕ) {v : ℕ} (m : NodeMap)
    → d < rounds
    → j + d ≡ k
    → IsCapped k m
    → lookup (2 ^ k) m ≡ some v
    → v ≢ 0
    → root_scan rounds (2 ^ j) default m ≡ v
unfolding root_scan
scan_finds_top d j k zero default m lt sum capped e nonzero = absurd (omega arith)
scan_finds_top zero j k (suc rounds) default m lt sum capped e nonzero =
    let top : lookup (2 ^ j) m ≡ some _ = ap (λ (t : ℕ). lookup (2 ^ t) m) (omega arith) ∙ e in
    rw (top, root_scan) (ground arith)
scan_finds_top (suc d) j k (suc rounds) default m lt sum capped e nonzero =
    let below : 2 ^ j < 2 ^ k = omega (arith, pow-double j, pow_mono (suc j) k, pow-pos j) in
    rw (capped (2 ^ j) (omega arith) (omega arith), root_scan)
      (rw (← pow-double j)
        (scan_finds_top d (suc j) k rounds default m (omega arith) (omega arith) capped e nonzero))

value_at-some :
    (default i : ℕ) {x : ℕ} (m : NodeMap) → lookup i m ≡ some x → value_at default m i ≡ x
unfolding value_at
value_at-some default i m e = rw (e, value_at)

sibling_walk_step :
    (f i default : ℕ) (m : NodeMap)
    → 1 ≤ i
    → sibling_walk (suc f) i default m
      ≡ value_at default m (get_sibling_index i) ∷ sibling_walk f (i / 2) default m
unfolding sibling_walk
sibling_walk_step f i default m h = ground arith

side_walk_step :
    (f i : ℕ) → 1 ≤ i → side_walk (suc f) i ≡ (if i % 2 == 0 then 0 else 1) ∷ side_walk f (i / 2)
unfolding side_walk
side_walk_step f i h = ground arith

-- The hashes and sides that the two path methods return for an item.
abbrev pub path_hashes : ℕ → MerkleTree → List ℕ
path_hashes idx m = take circom_merkle_length (sibling_walk idx idx m.default_value m.tree)

abbrev pub path_sides : ℕ → List ℕ
path_sides idx = take circom_merkle_length (side_walk idx idx)

module _ (hash_fn : ℕ → ℕ → ℕ) where
  leaf-in-use :
      (m : MerkleTree) (h k : ℕ)
      → IsSoundAt hash_fn m h k
      → (idx : ℕ) → get_start_index m ≤ idx
      → {v : ℕ} → lookup idx m.tree ≡ some v
      → idx < m.index
  leaf-in-use m h k s idx le here = elim (dec_le (suc idx) m.index) [
    | yes lt ↦ lt
    | no beyond ↦ cc (here, s.fresh idx le (omega arith))
  ]

  -- The hash that a path proves: the item is hashed with each sibling, which stands on the right
  -- where the side is 0 and on the left where it is 1.
  abbrev pub path_root : ℕ → List ℕ → List ℕ → ℕ
  path_root x [] sides = x
  path_root x (s ∷ siblings) [] = x
  path_root x (s ∷ siblings) (side ∷ sides) =
      path_root (if side == 0 then hash_fn x s else hash_fn s x) siblings sides

  -- One level up.
  path_step :
      (default i x : ℕ) (m : NodeMap)
      → 2 ≤ i
      → lookup i m ≡ some x
      → IsHashed hash_fn default m (i / 2)
      → let sibling = value_at default m (get_sibling_index i) in
        lookup (i / 2) m ≡ some (if i % 2 == 0 then hash_fn x sibling else hash_fn sibling x)
  path_step default i x m le e hashed =
      let here : value_at default m i ≡ x = value_at-some default i m e in
      elim (Bool-cases (i % 2 == 0)) [
        | inl even ↦
            let left : 2 * (i / 2) ≡ i = ground arith in
            let right : 2 * (i / 2) + 1 ≡ get_sibling_index i =
              unfold get_sibling_index in ground arith in
            rw even (elim hashed [ inl (_, absent, _) ↦ cc | inr hash ↦ cc ])
        | inr odd ↦
            let right : 2 * (i / 2) + 1 ≡ i = ground arith in
            let left : 2 * (i / 2) ≡ get_sibling_index i =
              unfold get_sibling_index in ground arith in
            rw odd (elim hashed [ inl (_, _, absent) ↦ cc | inr hash ↦ cc ])
      ]

  -- The path of a node, taken up to an ancestor, proves the ancestor's hash.
  path_reaches :
      (r f i x default : ℕ) (m : NodeMap)
      → 1 ≤ ancestor r i
      → i ≤ f
      → lookup i m ≡ some x
      → ((j : ℕ) → ancestor r i ≤ j → 2 * j ≤ i → IsHashed hash_fn default m j)
      → lookup (ancestor r i) m
        ≡ some (path_root x (take r (sibling_walk f i default m)) (take r (side_walk f i)))
  path_reaches zero f i x default m pos fuel e hashed = e
  path_reaches (suc r) zero i x default m pos fuel e hashed =
      absurd (omega (arith, ancestor-le r (i / 2)))
  path_reaches (suc r) (suc f) i x default m pos fuel e hashed =
      let inner : 2 ≤ i = omega (arith, ancestor-le r (i / 2)) in
      let up =
        path_step default i x m inner e (hashed (i / 2) (ancestor-le r (i / 2)) (omega arith)) in
      path_reaches r f (i / 2) _ default m pos (omega arith) up
        (λ j le lt. hashed j le (omega arith))
      ∙ rw (sibling_walk_step f i default m (omega arith), side_walk_step f i (omega arith))
          (elim (Bool-cases (i % 2 == 0)) [ inl even ↦ rw even | inr odd ↦ rw odd ])

  -- What the path of the leaf `idx` proves over `h` levels.
  abbrev pub proved_root : ℕ → (h idx : ℕ) → MerkleTree → ℕ
  proved_root item h idx m = path_root item (take h (path_hashes idx m)) (take h (path_sides idx))

  top-holds-root :
      (item idx : ℕ) (m : MerkleTree) (h k : ℕ)
      → IsSoundAt hash_fn m h k
      → get_start_index m ≤ idx
      → lookup idx m.tree ≡ some item
      → h ≤ circom_merkle_length
      → lookup (2 ^ k) m.tree ≡ some (proved_root item h idx m)
  top-holds-root item idx m h k s le here fits =
      let start = start_split hash_fn m h k s.split in
      let used : idx < m.index = leaf-in-use m h k s idx le here in
      let width : m.index - get_start_index m ≤ 2 ^ h =
        rw s.high at (le-pow-logarithm2 (m.index - get_start_index m)) in
      let top : ancestor h idx ≡ 2 ^ k =
        ancestor_range h idx (2 ^ k) (omega (arith, start)) (omega (arith, start, width)) in
      simp take-take (
        rw (← top) (
          path_reaches h idx idx item m.default_value m.tree (rw top (pow-pos k)) (omega arith) here
            (λ j lo hi.
              s.hashed j (rw top at lo)
                (omega (arith, start, width, pow_mono h (k + h), pow-add k h)))))

  -- In a sound tree of height at most 25, for an item that stands at the leaf where the reverse map
  -- finds it, both path methods return, and their sibling hashes and sides, as many as the tree is
  -- high, hash up from the item to the value of GetRootHash, unless that value is zero.
  pub path_proves_root :
      (item idx : ℕ) (m : MerkleTree)
      → IsSound hash_fn m
      → get_start_index m ≤ idx
      → lookup item m.reverse_tree ≡ some idx
      → lookup idx m.tree ≡ some item
      → height m ≤ circom_merkle_length
      → let root = proved_root item (height m) idx m in
        (get_sibling_hashes item m ≡ ok (path_hashes idx m))
        × (get_sibling_sides item m ≡ ok (path_sides idx))
        × ((get_root_hash m ≡ ok root) ⊎ (root ≡ 0))
  unfolding get_sibling_hashes get_sibling_sides get_root_hash
  path_proves_root item idx m (h, k, s) le back here fits =
      let complete : ((m.count + get_start_index m) == m.index) ≡ true =
        ground (arith, s.counted) in
      let reached = top-holds-root item idx m h k s le here (rw s.high at fits) in
      (
        rw (complete, back),
        rw (complete, back),
        rw (complete, s.high)
            (elim (ℕ_discrete (proved_root item h idx m) 0) [
              | yes zero_root ↦ inr zero_root
              | no nonzero ↦ inl (
                  ap ok (
                    scan_finds_top k 0 k m.levels m.default_value m.tree
                      (omega (arith, s.split, s.rooted)) (omega arith) s.capped reached nonzero))
            ]),
      )
