-- ===== src/Snapshot/Nullifiers/Contents.antt =====
-- What the set of nullifiers holds after pages of events, and after it is saved and loaded.
use hinkal_go.Prelude.{
  ◌+◌, ◌≡◌, inl, inr, refl, ◌∙◌, arith, Bool, false, ◌||◌, some, List, [], ◌∷◌, Text, text_eq, map,
  length, ◌==◌, Bool-cases,
}
use hinkal_go.Prelude.Dict
use hinkal_go.Prelude.Dict.{lookup, insert, lookup-insert}
use hinkal_go.Snapshot.{Snapshot}
use hinkal_go.Snapshot.Nullifiers.{Nullifiers, serialize_nullifiers, set_of, deserialize_nullifiers}

pub contains-insert :
    (n k : Text) (ns : Nullifiers)
    → Dict.contains k (insert n tt ns) ≡ ((n == k) || Dict.contains k ns)
unfolding Dict.contains
contains-insert n k ns = ground (arith, lookup-insert n k tt ns)

-- A list of strings has a string.
abbrev pub has : Text → List Text → Bool
has k [] = false
has k (n ∷ ns) = (n == k) || has k ns

has-keys : (k : Text) (ns : Nullifiers) → has k (map (λ p. p.0) ns) ≡ Dict.contains k ns
unfolding Dict.contains lookup
has-keys k [] = refl
has-keys k ((n, u) ∷ ns) = ground (arith, has-keys k ns)

set_of-contains :
    (k : Text) (xs : List Text) (ns : Nullifiers)
    → Dict.contains k (set_of xs ns) ≡ (has k xs || Dict.contains k ns)
unfolding set_of
set_of-contains k [] ns = refl
set_of-contains k (x ∷ xs) ns =
    set_of-contains k xs (insert x tt ns) ∙ ground (arith, contains-insert x k ns)

abbrev no_nullifiers : Nullifiers
no_nullifiers = []

contains-empty : (k : Text) → Dict.contains k no_nullifiers ≡ false
unfolding Dict.contains lookup
contains-empty k = refl

saved-contains :
    (xs : List Text) (ns : Nullifiers) (k : Text)
    → has k xs ≡ has k (map (λ p. p.0) ns)
    → Dict.contains k (set_of xs []) ≡ Dict.contains k ns
saved-contains xs ns k e =
    set_of-contains k xs [] ∙ ground (arith, e, has-keys k ns, contains-empty k)

-- Where the iteration over the map goes through its keys, in any order, a nullifier snapshot that
-- is serialized and deserialized has the same block and the same set.
pub deserialize-serialize :
    (order : List Text → List Text) (snap : Snapshot Nullifiers)
    → ((k : Text) (xs : List Text) → has k (order xs) ≡ has k xs)
    → (snap' : Snapshot Nullifiers) × (deserialize_nullifiers (serialize_nullifiers order snap)
        ≡ some snap')
      × (snap'.latest_block_number ≡ snap.latest_block_number)
      × ((k : Text) → Dict.contains k snap'.payload ≡ Dict.contains k snap.payload)
unfolding deserialize_nullifiers serialize_nullifiers
deserialize-serialize order snap visits =
    let keys = map (λ p. p.0) snap.payload in
    (
      record { latest_block_number = snap.latest_block_number; payload = set_of (order keys) [] },
      refl,
      refl,
      λ k. saved-contains (order keys) snap.payload k (visits k keys),
    )

pub insert-length :
    (n : Text) (ns : Nullifiers)
    → Dict.contains n ns ≡ false
    → length (insert n tt ns) ≡ length ns + 1
unfolding Dict.contains lookup insert
insert-length n [] e = omega arith
insert-length n ((m, u) ∷ ns) e = elim (Bool-cases (m == n)) [
  | inl same ↦ ground (arith, same)
  | inr other ↦ ground (arith, insert-length n ns)
]
