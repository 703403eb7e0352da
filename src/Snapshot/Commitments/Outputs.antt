-- ===== src/Snapshot/Commitments/Outputs.antt =====
-- The list of the encrypted outputs.
use mathlib.Core.Path.{subst}
use hinkal_go.Prelude.{
  ℕ, ◌≡◌, ◌⊎◌, inl, inr, refl, sym, ◌∙◌, arith, Bool, true, false, ◌||◌, Option, none, some, List,
  [], ◌∷◌, ◌++◌, Text, text_eq, text_beq_iff, nat_eq, ◌==◌, ok, eq_refl, Bool-cases,
}
use hinkal_go.Prelude.Int.{abs_ℕ, pos, leb_ℤ}
use hinkal_go.Prelude.Dict.{lookup, lookup-insert}
use hinkal_go.Merkle.{get_value}
use hinkal_go.Snapshot.Commitments.{
  CommitmentEvent, EncryptedOutputWithSign, Commitments, remove_output, has_output, forget_output,
  forget, remember, accept_commitment,
}
use hinkal_go.Snapshot.Commitments.Accept.{accept_commitment_ok}
use hinkal_go.Snapshot.Commitments.Memory.{IsTaken, accepted-IsTaken}

-- No two outputs have the same value.
abbrev pub IsDistinct : List EncryptedOutputWithSign → Type 0
IsDistinct [] = Unit
IsDistinct (out ∷ outs) = (has_output out.value outs ≡ false) × IsDistinct outs

remove_output-has :
    (v w : Text) (outs : List EncryptedOutputWithSign)
    → has_output v outs ≡ false
    → has_output v (remove_output w outs) ≡ false
unfolding has_output remove_output
remove_output-has v w [] h = h
remove_output-has v w (out ∷ outs) h = elim (Bool-cases (out.value == w)) [
  | inl here ↦ rw here (ground (arith, h))
  | inr later ↦ rw later (ground (arith, h, remove_output-has v w outs))
]

remove_output-IsDistinct :
    (w : Text) (outs : List EncryptedOutputWithSign)
    → IsDistinct outs
    → IsDistinct (remove_output w outs)
unfolding remove_output
remove_output-IsDistinct w [] d = tt
remove_output-IsDistinct w (out ∷ outs) (new, d) = elim (Bool-cases (out.value == w)) [
  | inl here ↦ rw here d
  | inr later ↦ rw later (remove_output-has out.value w outs new, remove_output-IsDistinct w outs d)
]

has_output-append :
    (v : Text) (outs : List EncryptedOutputWithSign) (out : EncryptedOutputWithSign)
    → has_output v (outs ++ (out ∷ [])) ≡ (has_output v outs || (out.value == v))
unfolding has_output
has_output-append v [] out = ground arith
has_output-append v (o ∷ outs) out = ground (arith, has_output-append v outs out)

later : (a b : Bool) → (a || b) ≡ false → b ≡ false
later a b h = ground arith

append-IsDistinct :
    (outs : List EncryptedOutputWithSign) (out : EncryptedOutputWithSign)
    → has_output out.value outs ≡ false
    → IsDistinct outs
    → IsDistinct (outs ++ (out ∷ []))
unfolding has_output
append-IsDistinct [] out h d = (refl, tt)
append-IsDistinct (o ∷ outs) out h (new, d) =
    let new_at_end : (has_output o.value outs || (out.value == o.value)) ≡ false =
      ground (arith, new, h, text_beq_iff o.value out.value, text_beq_iff out.value o.value) in
    (
      has_output-append o.value outs out ∙ new_at_end,
      append-IsDistinct outs out (later (o.value == out.value) (has_output out.value outs) h) d,
    )

forget_output-IsDistinct :
    (old : ℕ) (o : Option Text) (s : Commitments)
    → IsDistinct s.enc_outputs
    → IsDistinct (forget_output old o s).enc_outputs
unfolding forget_output
forget_output-IsDistinct old none s d = d
forget_output-IsDistinct old (some out) s d = remove_output-IsDistinct out s.enc_outputs d

forget-IsDistinct :
    (o : Option ℕ) (s : Commitments)
    → IsDistinct s.enc_outputs
    → IsDistinct (forget o s).enc_outputs
unfolding forget
forget-IsDistinct none s d = d
forget-IsDistinct (some old) s d = forget_output-IsDistinct old (lookup old s.by_commitment) s d

remember-IsDistinct :
    (e : CommitmentEvent) (b : Bool) (s : Commitments)
    → IsDistinct s.enc_outputs
    → IsDistinct (remember e b s).enc_outputs
unfolding remember
remember-IsDistinct e b s d = elim (Bool-cases (has_output e.encrypted_output s.enc_outputs)) [
  | inl present ↦ rw present d
  | inr new ↦ rw new (
      append-IsDistinct s.enc_outputs
        (record { value = e.encrypted_output; is_positive = leb_ℤ (pos 0) e.index; is_blocked = b })
        new d)
]

remember-has :
    (e : CommitmentEvent) (b : Bool) (s : Commitments)
    → (has_output e.encrypted_output (remember e b s).enc_outputs ≡ true)
      × (lookup e.commitment (remember e b s).by_commitment ≡ some e.encrypted_output)
unfolding remember
remember-has e b s = (
  elim (Bool-cases (has_output e.encrypted_output s.enc_outputs)) [
    | inl present ↦ rw present present
    | inr new ↦
        rw
          (
            new,
            has_output-append e.encrypted_output s.enc_outputs _,
            new,
            eq_refl e.encrypted_output,
          )
          refl
  ],
  lookup-insert e.commitment e.commitment e.encrypted_output s.by_commitment
      ∙ rw (eq_refl e.commitment) refl,
)

-- Where the encrypted outputs are distinct, they still are after an AcceptEvent that does not
-- panic, also where a reorganisation replaces a leaf.
pub accept_commitment-IsDistinct :
    (hash_fn : ℕ → ℕ → ℕ) (e : CommitmentEvent) (b : Bool) (s : Commitments)
    (r : Commitments × Bool)
    → accept_commitment hash_fn e b s ≡ ok r
    → IsDistinct s.enc_outputs
    → IsDistinct r.0.enc_outputs
accept_commitment-IsDistinct hash_fn e b s r h d = elim (accept_commitment_ok hash_fn e b s r h) [
  | inl (known, same) ↦ subst (λ (q : Commitments × Bool). IsDistinct q.0.enc_outputs) same d
  | inr (m, run, same) ↦
      let existing = get_value (abs_ℕ e.index) s.merkle_tree in
      let s' = record s { merkle_tree = m } in
      subst (λ (q : Commitments × Bool). IsDistinct q.0.enc_outputs) same
        (remember-IsDistinct e b (forget existing s') (forget-IsDistinct existing s' d))
]

-- Where a call of `AcceptEvent` takes the event, the commitment has its output, the list has it, and
-- the commitment is at its leaf; where it does not, the commitment was at its leaf already.
pub accept_commitment-holds :
    (hash_fn : ℕ → ℕ → ℕ) (e : CommitmentEvent) (b : Bool) (s : Commitments)
    (r : Commitments × Bool)
    → accept_commitment hash_fn e b s ≡ ok r
    → IsTaken e r.0
      × ((r ≡ (s, false))
          ⊎ ((r.1 ≡ true)
              × (has_output e.encrypted_output r.0.enc_outputs ≡ true)
              × (lookup e.commitment r.0.by_commitment ≡ some e.encrypted_output)))
accept_commitment-holds hash_fn e b s r h = (
  accepted-IsTaken hash_fn e b s r h,
  elim (accept_commitment_ok hash_fn e b s r h) [
    | inl (known, same) ↦ inl (sym same)
    | inr (m, run, same) ↦
        let existing = get_value (abs_ℕ e.index) s.merkle_tree in
        let (held, mapped) = remember-has e b (forget existing (record s { merkle_tree = m })) in
        inr (
          subst
            (λ (q : Commitments × Bool).
              (q.1 ≡ true)
              × (has_output e.encrypted_output q.0.enc_outputs ≡ true)
              × (lookup e.commitment q.0.by_commitment ≡ some e.encrypted_output))
            same (refl, held, mapped))
  ],
)
