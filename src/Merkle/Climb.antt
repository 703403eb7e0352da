-- ===== src/Merkle/Climb.antt =====
-- What the loop of `forceInsert` does to the nodes: those on the way up from the new leaf are
-- hashed again, from the bottom, and no other node changes.
use hinkal_go.Prelude.{
  ℕ, zero, suc, ◌+◌, ◌*◌, ◌/◌, ◌^◌, ◌≤◌, ◌<◌, ◌≡◌, ◌≢◌, ◌⊎◌, inl, inr, refl, ◌∙◌, arith, none, some,
  nat_eq,
}
use native.Mathlib.Decide.{ℕ_discrete}
use hinkal_go.Prelude.Dict.{lookup, insert, lookup-insert}
use hinkal_go.Prelude.Pow.{pow-double}
use hinkal_go.Merkle.{NodeMap, value_at, climb}

-- The ancestor that is `r` levels up.
abbrev pub ancestor : ℕ → ℕ → ℕ
ancestor zero i = i
ancestor (suc r) i = ancestor r (i / 2)

pub ancestor-le : (r i : ℕ) → ancestor r i ≤ i
ancestor-le zero i = omega arith
ancestor-le (suc r) i = omega (arith, ancestor-le r (i / 2))

-- A node in the subtree of `top`, `r` levels below it, has `top` as its ancestor.
pub ancestor_range : (r i top : ℕ) → top * 2 ^ r ≤ i → i < (top + 1) * 2 ^ r → ancestor r i ≡ top
ancestor_range zero i top lo hi = omega arith
ancestor_range (suc r) i top lo hi =
    let lo' : top * (2 * 2 ^ r) ≤ i = rw (pow-double r) at lo in
    let hi' : i < (top + 1) * (2 * 2 ^ r) = rw (pow-double r) at hi in
    ancestor_range r (i / 2) top (omega arith) (omega arith)

module _ (hash_fn : ℕ → ℕ → ℕ) (default : ℕ) where
  -- Node `i` is the hash of its children, or it and they are absent.
  abbrev pub IsHashed : NodeMap → ℕ → Type 0
  IsHashed m i =
      ((lookup i m ≡ none) × (lookup (2 * i) m ≡ none) × (lookup (2 * i + 1) m ≡ none))
      ⊎ (lookup i m ≡ some (hash_fn (value_at default m (2 * i)) (value_at default m (2 * i + 1))))

  -- The node that the loop writes, and its children, which it does not.
  pub IsHashed-write :
      (up : ℕ) (m : NodeMap)
      → 1 ≤ up
      → IsHashed
          (insert up (hash_fn (value_at default m (2 * up)) (value_at default m (2 * up + 1))) m)
          up
  unfolding value_at
  IsHashed-write up m h =
      let x = hash_fn (value_at default m (2 * up)) (value_at default m (2 * up + 1)) in
      ground (
        arith,
        lookup-insert up up x m,
        lookup-insert up (2 * up) x m,
        lookup-insert up (2 * up + 1) x m,
      )

  -- A write to `k` keeps every other node hashed but the parent of `k`.
  pub IsHashed-insert :
      (k v i : ℕ) (m : NodeMap) → k ≢ i → i ≢ k / 2 → IsHashed m i → IsHashed (insert k v m) i
  unfolding value_at
  IsHashed-insert k v i m ne nparent h =
      ground
        (arith, lookup-insert k i v m, lookup-insert k (2 * i) v m, lookup-insert k (2 * i + 1) v m)

  -- The nodes that the loop has still to write.
  abbrev pub Pending : ℕ → ℕ → ℕ → Type 0
  Pending zero cur i = ⊥
  Pending (suc r) cur i = (i ≡ cur / 2) ⊎ Pending r (cur / 2) i

  pub Pending-ancestor : (r cur : ℕ) → Pending (suc r) cur (ancestor (suc r) cur)
  Pending-ancestor zero cur = inl refl
  Pending-ancestor (suc r) cur = inr (Pending-ancestor r (cur / 2))

  -- Above the first node that is written nothing changes.
  pub climb_above :
      (r cur i : ℕ) (m : NodeMap)
      → cur / 2 < i
      → lookup i (climb hash_fn default r cur m) ≡ lookup i m
  unfolding climb
  climb_above zero cur i m h = refl
  climb_above (suc r) cur i m h =
      climb_above r (cur / 2) i _ (omega arith) ∙ lookup-insert (cur / 2) i _ m ∙ ground (arith)

  -- Below twice the last node that is written only that node changes.
  pub climb_below :
      (r cur i : ℕ) (m : NodeMap)
      → i < 2 * ancestor r cur
      → i ≢ ancestor r cur
      → lookup i (climb hash_fn default r cur m) ≡ lookup i m
  unfolding climb
  climb_below zero cur i m h ne = refl
  climb_below (suc zero) cur i m h ne = lookup-insert (cur / 2) i _ m ∙ ground arith
  climb_below (suc (suc r)) cur i m h ne =
      climb_below (suc r) (cur / 2) i _ h ne
      ∙ lookup-insert (cur / 2) i _ m
      ∙ ground (arith, ancestor-le r (cur / 2 / 2))

  -- A hashed node that is not written now stays hashed, or is written in the next round.
  climb_unwritten :
      (r cur i : ℕ) (m : NodeMap)
      → 1 ≤ ancestor (suc r) cur
      → ancestor (suc r) cur ≤ i
      → i ≢ cur / 2
      → IsHashed m i
      → let up = cur / 2 in
        let x = hash_fn (value_at default m (2 * up)) (value_at default m (2 * up + 1)) in
        IsHashed (insert up x m) i ⊎ Pending r up i
  climb_unwritten zero cur i m pos le other hashed =
      inl (IsHashed-insert (cur / 2) _ i m (omega arith) (omega arith) hashed)
  climb_unwritten (suc r) cur i m pos le other hashed = elim (ℕ_discrete i (cur / 2 / 2)) [
    | yes same ↦ inr (inl same)
    | no apart ↦ inl (IsHashed-insert (cur / 2) _ i m (omega arith) apart hashed)
  ]

  climb_round :
      (r cur i : ℕ) (m : NodeMap)
      → 1 ≤ ancestor (suc r) cur
      → ancestor (suc r) cur ≤ i
      → IsHashed m i ⊎ Pending (suc r) cur i
      → let up = cur / 2 in
        let x = hash_fn (value_at default m (2 * up)) (value_at default m (2 * up + 1)) in
        IsHashed (insert up x m) i ⊎ Pending r up i
  climb_round r cur i m pos le h = elim (ℕ_discrete i (cur / 2)) [
    | yes same ↦ inl (rw same (IsHashed-write (cur / 2) m (omega (arith, ancestor-le r (cur / 2)))))
    | no other ↦ elim h [
      | inl hashed ↦ climb_unwritten r cur i m pos le other hashed
      | inr (inl same) ↦ absurd (other same)
      | inr (inr later) ↦ inr later
    ]
  ]

  -- If every node from `top` up is hashed but those that the loop writes, all are hashed after it.
  pub climb-IsHashed :
      (r cur i : ℕ) (m : NodeMap)
      → 1 ≤ ancestor r cur
      → ancestor r cur ≤ i
      → IsHashed m i ⊎ Pending r cur i
      → IsHashed (climb hash_fn default r cur m) i
  unfolding climb
  climb-IsHashed zero cur i m pos le (inl h) = h
  climb-IsHashed zero cur i m pos le (inr h) = absurd h
  climb-IsHashed (suc r) cur i m pos le h =
      climb-IsHashed r (cur / 2) i _ pos le (climb_round r cur i m pos le h)
