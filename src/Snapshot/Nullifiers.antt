-- ===== src/Snapshot/Nullifiers.antt =====
-- The nullifiers, internal/data-structures/snapshot/nullifiers.go: a set of hexadecimal strings.
-- `map_event` is `MapEvent`, which reads JSON; `order` is the order in which Go goes through a map.
pub mod Contents
pub mod Pages
use hinkal_go.Prelude.{
  ℕ, ◌+◌, ◌≡◌, Bool, true, false, ◌||◌, Option, none, some, List, [], ◌∷◌, Text, text_eq, map, ◌==◌,
  if◌then◌else◌, Result, ok, err,
}
use hinkal_go.Prelude.Dict
use hinkal_go.Prelude.Dict.{insert}
use hinkal_go.Snapshot.{BlockchainEvent, Snapshot, SnapshotDelegate, Panic}

abbrev pub Nullifiers : Type 0
Nullifiers = List (Text × Unit {0})

pub record NullifierSerializedSnapshot : Type 0 where
  pub latest_block_number : Option ℕ
  pub nullifiers : List Text

-- `AcceptEvent`
unfoldable pub accept_nullifier : Text → Bool → Nullifiers → Result Panic (Nullifiers × Bool)
accept_nullifier n is_blocked ns =
    if Dict.contains n ns then ok (ns, false) else ok (insert n tt ns, true)

-- `SerializeSnapshot`
unfoldable pub serialize_nullifiers :
    (List Text → List Text) → Snapshot Nullifiers → NullifierSerializedSnapshot
serialize_nullifiers order snap = record {
  latest_block_number = some snap.latest_block_number;
  nullifiers = order (map (λ p. p.0) snap.payload);
}

unfoldable pub set_of : List Text → Nullifiers → Nullifiers
set_of [] ns = ns
set_of (n ∷ rest) ns = set_of rest (insert n tt ns)

abbrev pub or_none : Option ℕ → ℕ
or_none none = 0
or_none (some n) = n

-- `DeserializeSnapshot`
unfoldable pub deserialize_nullifiers : NullifierSerializedSnapshot → Option (Snapshot Nullifiers)
unfolding set_of
deserialize_nullifiers serialized = some (record {
  latest_block_number = or_none serialized.latest_block_number;
  payload = set_of serialized.nullifiers [];
})

unfoldable pub nullifier_delegate :
    {Args : Type 0}
    → (BlockchainEvent Args → Option Text)
    → (List Text → List Text)
    → SnapshotDelegate Args Text Nullifiers NullifierSerializedSnapshot Nullifiers
nullifier_delegate map_event order = record {
  accept_event = accept_nullifier;
  map_event = map_event;
  get_snapshot_payload = λ ns. ns;
  populate_snapshot = λ snap ns. snap.payload;
  serialize_snapshot = serialize_nullifiers order;
  deserialize_snapshot = deserialize_nullifiers;
}
