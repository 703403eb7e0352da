-- ===== src/Merkle/Refresh.antt =====
-- A leaf is written and the way up from it is hashed again. `2 ^ k` is the top of the part of the
-- tree in use, `h` levels above the leaves.
use hinkal_go.Prelude.{
  ℕ, zero, suc, ◌+◌, ◌*◌, ◌/◌, ◌^◌, ◌≤◌, ◌<◌, ◌≡◌, ◌≢◌, ◌⊎◌, inl, inr, ◌∙◌, arith, none, nat_eq,
}
use native.Mathlib.Decide.{ℕ_discrete}
use hinkal_go.Prelude.Dict.{lookup, insert, lookup-insert}
use hinkal_go.Prelude.Pow.{pow-pos}
use hinkal_go.Merkle.{NodeMap, climb}
use hinkal_go.Merkle.Climb.{
  ancestor, ancestor_range, IsHashed, IsHashed-insert, Pending, climb_below, climb-IsHashed,
}

-- No node stands above the top, nor beside it.
abbrev pub IsCapped : ℕ → NodeMap → Type 0
IsCapped k m = (i : ℕ) → i < 2 * 2 ^ k → i ≢ 2 ^ k → lookup i m ≡ none

ancestor_double : (r i : ℕ) → 2 * ancestor (suc r) i ≤ i
ancestor_double zero i = omega arith
ancestor_double (suc r) i = omega (arith, ancestor_double r (i / 2))

beside_leaf_lem : (h idx top i : ℕ) → ancestor h idx ≡ top → i < 2 * top → i ≢ top → i ≢ idx
beside_leaf_lem zero idx top i e below other = omega arith
beside_leaf_lem (suc h) idx top i e below other = omega (arith, ancestor_double h idx)

module _ (hash_fn : ℕ → ℕ → ℕ) (default : ℕ) where
  leaf-IsHashed :
      (h idx v i top : ℕ) (m : NodeMap)
      → top * 2 ^ h ≤ idx
      → top ≤ i
      → i < top * 2 ^ h
      → IsHashed hash_fn default m i
      → IsHashed hash_fn default (insert idx v m) i ⊎ Pending hash_fn default h idx i
  leaf-IsHashed zero idx v i top m lo le inner hashed = absurd (omega arith)
  leaf-IsHashed (suc h) idx v i top m lo le inner hashed = elim (ℕ_discrete i (idx / 2)) [
    | yes same ↦ inr (inl same)
    | no other ↦ inl (IsHashed-insert hash_fn default idx v i m (omega arith) other hashed)
  ]

module _ (hash_fn : ℕ → ℕ → ℕ) (default h k idx v : ℕ) (m : NodeMap) (lo : 2 ^ k * 2 ^ h ≤ idx)
    (hi : idx < (2 ^ k + 1) * 2 ^ h) where
  abbrev pub refreshed : NodeMap
  refreshed = climb hash_fn default h idx (insert idx v m)

  pub refreshed_top : ancestor h idx ≡ 2 ^ k
  refreshed_top = ancestor_range h idx (2 ^ k) lo hi

  beside_leaf : (i : ℕ) → i < 2 * 2 ^ k → i ≢ 2 ^ k → i ≢ idx
  beside_leaf i = beside_leaf_lem h idx (2 ^ k) i refreshed_top

  pub refreshed-IsCapped : IsCapped k m → IsCapped k refreshed
  refreshed-IsCapped capped i below other =
      climb_below hash_fn default h idx i (insert idx v m) (rw refreshed_top below)
        (rw refreshed_top other)
      ∙ lookup-insert idx i v m
      ∙ ground (arith, capped i below other, beside_leaf i below other)

  pub refreshed-IsHashed :
      (i : ℕ)
      → 2 ^ k ≤ i
      → i < 2 ^ k * 2 ^ h
      → IsHashed hash_fn default m i ⊎ Pending hash_fn default h idx i
      → IsHashed hash_fn default refreshed i
  refreshed-IsHashed i le inner before =
      climb-IsHashed hash_fn default h idx i (insert idx v m) (rw refreshed_top (pow-pos k))
        (rw refreshed_top le)
        (elim before [
          | inl hashed ↦ leaf-IsHashed hash_fn default h idx v i (2 ^ k) m lo le inner hashed
          | inr pending ↦ inr pending
        ])
