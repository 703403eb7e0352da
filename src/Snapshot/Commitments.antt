-- ===== src/Snapshot/Commitments.antt =====
-- The commitments, internal/data-structures/snapshot/commitments.go: the Merkle tree, the encrypted
-- outputs in the order of their arrival, and the output of each commitment. Commitments are field
-- elements, so natural numbers; the map is keyed by them instead of by their decimal strings.
-- `MapEvent` reads JSON and is left to the service. The field `EncryptedBlob` of the events and the
-- outputs is only used for Solana, and is left out.
pub mod Accept
pub mod Memory
pub mod Outputs
use hinkal_go.Prelude.{
  ℕ, ◌≡◌, Bool, true, false, ◌||◌, Option, none, some, List, [], ◌∷◌, ◌++◌, Text, text_eq, nat_eq,
  ◌==◌, if◌then◌else◌, Result, ok, err,
}
use hinkal_go.Prelude.Int.{ℤ, abs_ℕ, pos, leb_ℤ}
use hinkal_go.Prelude.Dict.{lookup, insert, erase}
use hinkal_go.Merkle.{MerkleTree, Outcome, done, panicked, insert_leaf, get_value}
use hinkal_go.Snapshot.{Panic, crashed}

pub record CommitmentEvent : Type 0 where
  pub commitment : ℕ
  pub index : ℤ
  pub encrypted_output : Text

pub record EncryptedOutputWithSign : Type 0 where
  pub value : Text
  pub is_positive : Bool
  pub is_blocked : Bool

pub record Commitments : Type 0 where
  pub merkle_tree : MerkleTree
  pub enc_outputs : List EncryptedOutputWithSign
  pub by_commitment : List (ℕ × Text)

-- The loop that takes the first output with a value out of the slice.
unfoldable pub remove_output : Text → List EncryptedOutputWithSign → List EncryptedOutputWithSign
remove_output v [] = []
remove_output v (out ∷ outs) =
    let rest = remove_output v outs in if out.value == v then outs else out ∷ rest

unfoldable pub has_output : Text → List EncryptedOutputWithSign → Bool
has_output v [] = false
has_output v (out ∷ outs) = (out.value == v) || has_output v outs

unfoldable pub forget_output : ℕ → Option Text → Commitments → Commitments
unfolding remove_output
forget_output old none s = s
forget_output old (some out) s = record s {
  enc_outputs = remove_output out s.enc_outputs;
  by_commitment = erase old s.by_commitment;
}

-- What is forgotten of the commitment that the leaf held.
unfoldable pub forget : Option ℕ → Commitments → Commitments
unfolding forget_output
forget none s = s
forget (some old) s = forget_output old (lookup old s.by_commitment) s

-- What is kept of the new one.
unfoldable pub remember : CommitmentEvent → Bool → Commitments → Commitments
unfolding has_output
remember e is_blocked s = record s {
  by_commitment = insert e.commitment e.encrypted_output s.by_commitment;
  enc_outputs =
      if has_output e.encrypted_output s.enc_outputs
      then s.enc_outputs
      else (s.enc_outputs
          ++ (record {
            value = e.encrypted_output;
            is_positive = leb_ℤ (pos 0) e.index;
            is_blocked = is_blocked;
          }
              ∷ []));
}

unfoldable pub is_known : CommitmentEvent → Option ℕ → Bool
is_known e none = false
is_known e (some old) = old == e.commitment

-- After `Insert`.
unfoldable pub replace :
    CommitmentEvent → Bool → Option ℕ → Commitments → Outcome → Result Panic (Commitments × Bool)
unfolding forget remember
replace e is_blocked existing s (panicked m) = err crashed
replace e is_blocked existing s (done m) =
    ok (remember e is_blocked (forget existing (record s { merkle_tree = m })), true)

-- `AcceptEvent`
unfoldable pub accept_commitment :
    (ℕ → ℕ → ℕ) → CommitmentEvent → Bool → Commitments → Result Panic (Commitments × Bool)
unfolding is_known replace
accept_commitment hash_fn e is_blocked s =
    let node_index = abs_ℕ e.index in
    let existing = get_value node_index s.merkle_tree in
    if is_known e existing
    then ok (s, false)
    else replace e is_blocked existing s (insert_leaf hash_fn e.commitment node_index s.merkle_tree)
