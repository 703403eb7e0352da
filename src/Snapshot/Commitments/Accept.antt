-- ===== src/Snapshot/Commitments/Accept.antt =====
-- What `AcceptEvent` does to the tree and to the map of the outputs.
use mathlib.Core.Path.{subst}
use native.Mathlib.Decide.{ℕ_discrete, dec_le}
use hinkal_go.Prelude.{
  ℕ, ◌+◌, ◌-◌, ◌*◌, ◌/◌, ◌≤◌, ◌<◌, ◌≡◌, ◌⊎◌, inl, inr, refl, sym, ap, ◌∙◌, arith, Bool, true, false,
  Option, none, some, Text, text_eq, nat_eq, ◌==◌, ltb, if◌then◌else◌, ok, Bool-cases, ok-injective,
  eq_refl,
}
use hinkal_go.Prelude.Int.{abs_ℕ}
use hinkal_go.Prelude.Pow.{pow-pos}
use hinkal_go.Prelude.Dict
use hinkal_go.Prelude.Dict.{lookup, insert, lookup-insert}
use hinkal_go.Merkle.{
  MerkleTree, Outcome, done, panicked, insert_leaf, get_value, force_insert, get_start_index, climb,
  logarithm2,
}
use hinkal_go.Merkle.Climb.{climb_above}
use hinkal_go.Snapshot.Commitments.{
  CommitmentEvent, Commitments, forget_output, forget, remember, is_known, replace,
  accept_commitment,
}

done-injective : {m m' : MerkleTree} → done m ≡ done m' → m ≡ m'
done-injective e = cc

done-panicked : {m m' : MerkleTree} → done m ≡ panicked m' → ⊥
done-panicked e = cc

module _ (hash_fn : ℕ → ℕ → ℕ) (v idx : ℕ) (m : MerkleTree) where
  insert_leaf_in :
      get_start_index m ≤ idx
      → (rounds : ℕ) × (m' : MerkleTree) × (insert_leaf hash_fn v idx m ≡ done m')
        × (m'.tree ≡ climb hash_fn m.default_value rounds idx (insert idx v m.tree))
  unfolding insert_leaf force_insert
  insert_leaf_in le =
      let inside : ltb idx (get_start_index m) ≡ false = ground arith in
      let index : ℕ = if ltb m.index (idx + 1) then idx + 1 else m.index in
      let rounds : ℕ = logarithm2 (index - get_start_index m) in
      (
        rounds,
        record m {
          tree = climb hash_fn m.default_value rounds idx (insert idx v m.tree);
          reverse_tree = insert v idx m.reverse_tree;
          count = if Dict.contains idx m.tree then m.count else m.count + 1;
          index = index;
        },
        rw inside refl,
        refl,
      )

  insert_leaf_out :
      idx < get_start_index m → (m' : MerkleTree) × (insert_leaf hash_fn v idx m ≡ panicked m')
  unfolding insert_leaf force_insert
  insert_leaf_out lt =
      let outside : ltb idx (get_start_index m) ≡ true = ground arith in
      (
        record m {
          count = if Dict.contains idx m.tree then m.count else m.count + 1;
          index = if ltb m.index (idx + 1) then idx + 1 else m.index;
        },
        rw outside refl,
      )

  -- `Insert` writes no node from the leaf on but the leaf.
  pub insert_leaf-at :
      (i : ℕ) (m' : MerkleTree)
      → insert_leaf hash_fn v idx m ≡ done m'
      → idx / 2 < i
      → lookup i m'.tree ≡ (if idx == i then some v else lookup i m.tree)
  insert_leaf-at i m' e above = elim (dec_le (get_start_index m) idx) [
    | yes le ↦
        let (rounds, m2, run, tree) = insert_leaf_in le in
        let same : m2 ≡ m' = done-injective (sym run ∙ e) in
        subst (λ (n : MerkleTree). lookup i n.tree ≡ (if idx == i then some v else lookup i m.tree))
          same
          (ap (lookup i) tree
            ∙ climb_above hash_fn m.default_value rounds idx i (insert idx v m.tree) above
            ∙ lookup-insert idx i v m.tree)
    | no lt ↦ let (m2, run) = insert_leaf_out (omega arith) in absurd (done-panicked (sym e ∙ run))
  ]

  pub insert_leaf-positive : (m' : MerkleTree) → insert_leaf hash_fn v idx m ≡ done m' → 1 ≤ idx
  insert_leaf-positive m' e = elim (dec_le (get_start_index m) idx) [
    | yes le ↦ omega (arith, pow-pos (m.levels - 1))
    | no lt ↦ let (m2, run) = insert_leaf_out (omega arith) in absurd (done-panicked (sym e ∙ run))
  ]

replace_ok :
    (e : CommitmentEvent) (b : Bool) (existing : Option ℕ) (s : Commitments) (o : Outcome)
    (r : Commitments × Bool)
    → replace e b existing s o ≡ ok r
    → (m : MerkleTree) × (o ≡ done m)
      × ((remember e b (forget existing (record s { merkle_tree = m })), true) ≡ r)
unfolding replace
replace_ok e b existing s (panicked m) r h = cc
replace_ok e b existing s (done m) r h = (m, refl, ok-injective h)

-- A call that returns has found the commitment at its leaf, or has written it.
pub accept_commitment_ok :
    (hash_fn : ℕ → ℕ → ℕ) (e : CommitmentEvent) (b : Bool) (s : Commitments)
    (r : Commitments × Bool)
    → accept_commitment hash_fn e b s ≡ ok r
    → let existing = get_value (abs_ℕ e.index) s.merkle_tree in
      ((is_known e existing ≡ true) × ((s, false) ≡ r))
      ⊎ ((m : MerkleTree) × (insert_leaf hash_fn e.commitment (abs_ℕ e.index) s.merkle_tree
            ≡ done m)
          × ((remember e b (forget existing (record s { merkle_tree = m })), true) ≡ r))
unfolding accept_commitment
accept_commitment_ok hash_fn e b s r h =
    let existing = get_value (abs_ℕ e.index) s.merkle_tree in
    let o = insert_leaf hash_fn e.commitment (abs_ℕ e.index) s.merkle_tree in
    elim (Bool-cases (is_known e existing)) [
      | inl known ↦ inl (known, ok-injective (rw known at h))
      | inr new ↦ inr (replace_ok e b existing s o r (rw new at h))
    ]

forget_output-tree :
    (old : ℕ) (o : Option Text) (s : Commitments)
    → (forget_output old o s).merkle_tree ≡ s.merkle_tree
unfolding forget_output
forget_output-tree old none s = refl
forget_output-tree old (some out) s = refl

pub forget-tree : (o : Option ℕ) (s : Commitments) → (forget o s).merkle_tree ≡ s.merkle_tree
unfolding forget
forget-tree none s = refl
forget-tree (some old) s = forget_output-tree old (lookup old s.by_commitment) s

pub known-value : (e : CommitmentEvent) (o : Option ℕ) → is_known e o ≡ true → o ≡ some e.commitment
unfolding is_known
known-value e none h = cc
known-value e (some old) h = ground arith

pub value-known : (e : CommitmentEvent) (o : Option ℕ) → o ≡ some e.commitment → is_known e o ≡ true
unfolding is_known
value-known e o h = rw h (eq_refl e.commitment)

held_already :
    (idx i v : ℕ) (m : MerkleTree)
    → get_value idx m ≡ some v
    → lookup i m.tree ≡ (if idx == i then some v else lookup i m.tree)
held_already idx i v m e = elim (ℕ_discrete idx i) [
  | yes same ↦ rw (← same, eq_refl idx) e
  | no other ↦ let differ : (idx == i) ≡ false = ground arith in rw differ refl
]

-- The leaves that a call leaves, and the one that it writes.
pub accepted-tree :
    (hash_fn : ℕ → ℕ → ℕ) (e : CommitmentEvent) (b : Bool) (s : Commitments)
    (r : Commitments × Bool) (i : ℕ)
    → accept_commitment hash_fn e b s ≡ ok r
    → abs_ℕ e.index < 2 * i
    → lookup i r.0.merkle_tree.tree
      ≡ (if abs_ℕ e.index == i then some e.commitment else lookup i s.merkle_tree.tree)
unfolding remember
accepted-tree hash_fn e b s r i h above =
    let idx = abs_ℕ e.index in
    elim (accept_commitment_ok hash_fn e b s r h) [
      | inl (known, same) ↦
          subst
            (λ (q : Commitments × Bool).
              lookup i q.0.merkle_tree.tree
              ≡ (if idx == i then some e.commitment else lookup i s.merkle_tree.tree))
            same
            (held_already idx i e.commitment s.merkle_tree
              (known-value e (get_value idx s.merkle_tree) known))
      | inr (m, run, same) ↦
          subst
            (λ (q : Commitments × Bool).
              lookup i q.0.merkle_tree.tree
              ≡ (if idx == i then some e.commitment else lookup i s.merkle_tree.tree))
            same
            (ap (λ (t : MerkleTree). lookup i t.tree)
                (forget-tree (get_value idx s.merkle_tree) (record s { merkle_tree = m }))
              ∙ insert_leaf-at hash_fn e.commitment idx s.merkle_tree i m run (omega arith))
    ]
