-- ===== src/Snapshot/Tests.antt =====
-- Runs of the snapshots, and the theorems at them. An event's argument is its mapped event here.
use hinkal_go.Prelude.{
  ℕ, ◌+◌, ◌*◌, ◌≡◌, ◌⊎◌, refl, arith, Bool, true, false, ◌||◌, Option, none, some, List, [], ◌∷◌,
  Text, ok, length, text_eq, nat_eq,
}
use hinkal_go.Prelude.Int.{ℤ, pos, negsuc}
use hinkal_go.Prelude.Dict
use hinkal_go.Prelude.Dict.{lookup, insert, erase}
use hinkal_go.Merkle.{insert_leaf, force_insert, logarithm2, climb, value_at, bit_len_fuel}
use hinkal_go.Snapshot.{
  BlockchainEvent, Snapshot, accept_page, mapped, accept_mapped, is_blocked_tx, process_events_page,
  after_events_accepted, save_snapshot,
}
use hinkal_go.Snapshot.Replay.{IsCompatible, accept_page-replay}
use hinkal_go.Snapshot.Nullifiers.{
  Nullifiers, accept_nullifier, serialize_nullifiers, deserialize_nullifiers, nullifier_delegate,
}
use hinkal_go.Snapshot.Nullifiers.Contents.{deserialize-serialize}
use hinkal_go.Snapshot.Nullifiers.Pages.{is_nullified, accept_page-nullifies}
use hinkal_go.Snapshot.Commitments.{
  CommitmentEvent, Commitments, accept_commitment, has_output, is_known, replace, forget,
  forget_output, remember, remove_output,
}
use hinkal_go.Snapshot.Commitments.Memory.{IsTaken, commitment_memory}
use hinkal_go.Snapshot.Commitments.Outputs.{
  IsDistinct, accept_commitment-IsDistinct, accept_commitment-holds,
}

abbrev toy_hash : ℕ → ℕ → ℕ
toy_hash a b = 1 + 2 * a + 3 * b

abbrev new_commitment : Text
new_commitment = 78 ∷ []

abbrev on_chain : {Args : Type 0} → Args → BlockchainEvent Args
on_chain args = record {
  event_name = new_commitment;
  transaction_hash = 48 ∷ [];
  block_number = 3;
  args = args;
}

abbrev read_args : {Args : Type 0} → BlockchainEvent Args → Option Args
read_args ev = some ev.args

abbrev commitment_of : ℕ → ℤ → Text → CommitmentEvent
commitment_of c i out = record { commitment = c; index = i; encrypted_output = out }

abbrev nothing : Commitments
nothing = record {
  merkle_tree = record {
    levels = 4;
    default_value = 0;
    tree = [];
    reverse_tree = [];
    count = 0;
    index = 8;
  };
  enc_outputs = [];
  by_commitment = [];
}

abbrev after_one : Commitments
after_one = record {
  merkle_tree = record {
    levels = 4;
    default_value = 0;
    tree = (8, 5) ∷ [];
    reverse_tree = (5, 8) ∷ [];
    count = 1;
    index = 9;
  };
  enc_outputs = record { value = 97 ∷ []; is_positive = true; is_blocked = false } ∷ [];
  by_commitment = (5, 97 ∷ []) ∷ [];
}

-- A reorganisation puts another commitment at the leaf: the old output goes.
abbrev replaced : Commitments
replaced = record {
  merkle_tree = record {
    levels = 4;
    default_value = 0;
    tree = (8, 6) ∷ [];
    reverse_tree = (5, 8) ∷ (6, 8) ∷ [];
    count = 1;
    index = 9;
  };
  enc_outputs = record { value = 98 ∷ []; is_positive = false; is_blocked = true } ∷ [];
  by_commitment = (6, 98 ∷ []) ∷ [];
}

abbrev replaced_result : Commitments × Bool
replaced_result = (replaced, true)

abbrev none_blocked : Text → Bool
none_blocked hash = false

takes_one :
    accept_commitment toy_hash (commitment_of 5 (pos 8) (97 ∷ [])) false nothing
    ≡ ok (after_one, true)
unfolding accept_commitment is_known replace forget remember has_output insert_leaf force_insert
    logarithm2 bit_len_fuel climb insert lookup Dict.contains
takes_one = refl

replaces_one :
    accept_commitment toy_hash (commitment_of 6 (negsuc 7) (98 ∷ [])) true after_one
    ≡ ok (replaced, true)
unfolding accept_commitment is_known replace forget forget_output remove_output remember has_output
    insert_leaf force_insert logarithm2 bit_len_fuel climb insert erase lookup Dict.contains
replaces_one = refl

accept_commitment-IsDistinct_example : IsDistinct replaced.enc_outputs
unfolding has_output
accept_commitment-IsDistinct_example =
    accept_commitment-IsDistinct toy_hash (commitment_of 6 (negsuc 7) (98 ∷ [])) true after_one
      (replaced, true) replaces_one (refl, tt)

accept_commitment-holds_example :
    IsTaken (commitment_of 6 (negsuc 7) (98 ∷ [])) replaced
    × ((replaced_result ≡ (after_one, false))
        ⊎ ((true ≡ true)
            × (has_output (98 ∷ []) replaced.enc_outputs ≡ true)
            × (lookup 6 replaced.by_commitment ≡ some (98 ∷ []))))
accept_commitment-holds_example =
    accept_commitment-holds toy_hash (commitment_of 6 (negsuc 7) (98 ∷ [])) true after_one
      (replaced, true) replaces_one

abbrev page : List (BlockchainEvent CommitmentEvent)
page =
    on_chain (commitment_of 5 (pos 8) (97 ∷ [])) ∷ on_chain (commitment_of 7 (pos 9) (99 ∷ [])) ∷ []

abbrev after_page : Commitments
after_page = record {
  merkle_tree = record {
    levels = 4;
    default_value = 0;
    tree = (8, 5) ∷ (9, 7) ∷ (4, 32) ∷ [];
    reverse_tree = (5, 8) ∷ (7, 9) ∷ [];
    count = 2;
    index = 10;
  };
  enc_outputs =
      record { value = 97 ∷ []; is_positive = true; is_blocked = false }
      ∷ record { value = 99 ∷ []; is_positive = true; is_blocked = false }
      ∷ [];
  by_commitment = (5, 97 ∷ []) ∷ (7, 99 ∷ []) ∷ [];
}

page_run :
    accept_page
      (accept_commitment toy_hash)
      read_args
      new_commitment
      (is_blocked_tx page)
      page
      nothing
    ≡ ok (after_page, 2)
unfolding accept_page mapped accept_mapped is_blocked_tx accept_commitment is_known replace forget
    remember has_output insert_leaf force_insert logarithm2 bit_len_fuel climb value_at insert
    lookup Dict.contains
page_run = refl

page-IsCompatible :
    IsCompatible
      (accept_commitment toy_hash)
      read_args
      (commitment_memory toy_hash)
      new_commitment
      page
unfolding mapped
page-IsCompatible = (((omega arith, omega arith), tt), (tt, tt))

accept_page-replay_example :
    accept_page (accept_commitment toy_hash) read_args new_commitment none_blocked page after_page
    ≡ ok (after_page, 0)
accept_page-replay_example =
    accept_page-replay (accept_commitment toy_hash) read_args (commitment_memory toy_hash)
      new_commitment (is_blocked_tx page) none_blocked page nothing (after_page, 2)
      page-IsCompatible page_run

abbrev two_nullifiers : List (BlockchainEvent Text)
two_nullifiers = on_chain (49 ∷ []) ∷ on_chain (50 ∷ []) ∷ []

accept_page-nullifies_example :
    (ns : Nullifiers) × (n : ℕ) × (accept_page accept_nullifier read_args new_commitment
        none_blocked two_nullifiers
        ((50 ∷ [], tt) ∷ [])
      ≡ ok (ns, n))
    × (length ns ≡ n + 1)
    × ((k : Text)
        → Dict.contains k ns ≡ (
            is_nullified read_args new_commitment two_nullifiers k
            || Dict.contains k ((50 ∷ [], tt {0}) ∷ [])))
accept_page-nullifies_example =
    accept_page-nullifies read_args new_commitment none_blocked two_nullifiers ((50 ∷ [], tt) ∷ [])

saves_a_page :
    process_events_page
      (nullifier_delegate read_args (λ xs. xs))
      new_commitment
      (some 10)
      7
      true
      two_nullifiers
      (record { state = []; saved_latest_block = 2; persisted = [] })
    ≡ ok (
      record {
        state = (49 ∷ [], tt) ∷ (50 ∷ [], tt) ∷ [];
        saved_latest_block = 7;
        persisted =
            record { latest_block_number = some 7; nullifiers = (49 ∷ []) ∷ (50 ∷ []) ∷ [] } ∷ [];
      },
      2,
      none,
    )
unfolding process_events_page accept_page mapped accept_mapped is_blocked_tx accept_nullifier
    nullifier_delegate after_events_accepted save_snapshot serialize_nullifiers insert lookup
    Dict.contains
saves_a_page = refl

abbrev saved : Snapshot Nullifiers
saved = record { latest_block_number = 7; payload = (49 ∷ [], tt) ∷ [] }

deserialize-serialize_example :
    (snap' : Snapshot Nullifiers) × (deserialize_nullifiers (serialize_nullifiers (λ xs. xs) saved)
      ≡ some snap')
    × (snap'.latest_block_number ≡ 7)
    × ((k : Text) → Dict.contains k snap'.payload ≡ Dict.contains k ((49 ∷ [], tt {0}) ∷ []))
deserialize-serialize_example = deserialize-serialize (λ xs. xs) saved (λ k xs. refl)
