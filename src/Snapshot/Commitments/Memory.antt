-- ===== src/Snapshot/Commitments/Memory.antt =====
-- The commitments that were taken are known at their leaves.
use mathlib.Core.Path.{subst}
use hinkal_go.Prelude.{
  ℕ, ◌*◌, ◌<◌, ◌≡◌, ◌≢◌, inl, inr, refl, ◌∙◌, arith, Bool, false, some, nat_eq, ◌==◌, ok, eq_refl,
}
use hinkal_go.Prelude.Int.{abs_ℕ}
use hinkal_go.Merkle.{get_value}
use hinkal_go.Snapshot.Replay.{Remembers}
use hinkal_go.Snapshot.Commitments.{CommitmentEvent, Commitments, accept_commitment}
use hinkal_go.Snapshot.Commitments.Accept.{
  accept_commitment_ok, accepted-tree, known-value, value-known, insert_leaf-positive,
}

-- The leaf of the event holds its commitment.
abbrev pub IsTaken : CommitmentEvent → Commitments → Type 0
IsTaken e s = get_value (abs_ℕ e.index) s.merkle_tree ≡ some e.commitment

-- Two leaves of one level of the tree.
abbrev pub AreApart : CommitmentEvent → CommitmentEvent → Type 0
AreApart e e' = (abs_ℕ e.index ≢ abs_ℕ e'.index) × (abs_ℕ e'.index < 2 * abs_ℕ e.index)

module _ (hash_fn : ℕ → ℕ → ℕ) where
  pub accepted-IsTaken :
      (e : CommitmentEvent) (b : Bool) (s : Commitments) (r : Commitments × Bool)
      → accept_commitment hash_fn e b s ≡ ok r
      → IsTaken e r.0
  accepted-IsTaken e b s r h =
      let idx = abs_ℕ e.index in
      elim (accept_commitment_ok hash_fn e b s r h) [
        | inl (known, same) ↦
            subst (λ (q : Commitments × Bool). IsTaken e q.0) same
              (known-value e (get_value idx s.merkle_tree) known)
        | inr (m, run, same) ↦
            let positive = insert_leaf-positive hash_fn e.commitment idx s.merkle_tree m run in
            accepted-tree hash_fn e b s r idx h (omega arith) ∙ rw (eq_refl idx) refl
      ]

  pub refused-IsTaken :
      (e : CommitmentEvent) (b : Bool) (s : Commitments)
      → IsTaken e s
      → accept_commitment hash_fn e b s ≡ ok (s, false)
  unfolding accept_commitment
  refused-IsTaken e b s taken =
      rw (value-known e (get_value (abs_ℕ e.index) s.merkle_tree) taken) refl

  pub kept-IsTaken :
      (e e' : CommitmentEvent) (b : Bool) (s : Commitments) (r : Commitments × Bool)
      → AreApart e e'
      → IsTaken e s
      → accept_commitment hash_fn e' b s ≡ ok r
      → IsTaken e r.0
  kept-IsTaken e e' b s r (differ, near) taken h =
      let other : (abs_ℕ e'.index == abs_ℕ e.index) ≡ false = ground arith in
      accepted-tree hash_fn e' b s r (abs_ℕ e.index) h near ∙ rw other taken

  -- Commitments at different leaves are remembered, so that a page can be read again.
  abbrev pub commitment_memory : Remembers (accept_commitment hash_fn)
  commitment_memory = record {
    Seen = IsTaken;
    Compatible = AreApart;
    accepted = accepted-IsTaken;
    refused = refused-IsTaken;
    kept = kept-IsTaken;
  }
