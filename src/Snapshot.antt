-- ===== src/Snapshot.antt =====
-- The snapshot service of internal/data-structures/eventservice/snapshot.go and its two delegates,
-- internal/data-structures/snapshot/nullifiers.go and commitments.go.
-- The service is generic in its delegate, the record `SnapshotDelegate` of the operations that the
-- Go interface names; `serialize_snapshot` has no error, as in both delegates. What an event carries
-- is JSON, which the model leaves to `map_event`.
pub mod Replay
pub mod Nullifiers
pub mod Commitments
mod Tests
use hinkal_go.Prelude.{
  ℕ, ◌+◌, Bool, true, false, ◌||◌, not, Option, none, some, List, [], ◌∷◌, Text, text_eq, ltb, ◌==◌,
  nat_eq, if◌then◌else◌, Result, ok, err, ◌>>=◌,
}
use hinkal_go.Events.{wrap}

pub record BlockchainEvent (Args : Type 0) : Type 0 where
  pub event_name : Text
  pub transaction_hash : Text
  pub block_number : ℕ
  pub args : Args

pub record Snapshot (P : Type 0) : Type 0 where
  pub latest_block_number : ℕ
  pub payload : P

-- A panic in a goroutine: the program ends.
pub data Panic : Type 0 where
  crashed : Panic

pub data SnapshotError : Type 0 where
  fetch_failed : SnapshotError
  deserialize_failed : SnapshotError
  no_save_depth : SnapshotError
  persist_failed : SnapshotError

-- `SnapshotDelegate[E, P, S]` over the delegate's own state `State`.
pub record SnapshotDelegate (Args E P S State : Type 0) : Type 0 where
  pub accept_event : E → Bool → State → Result Panic (State × Bool)
  pub map_event : BlockchainEvent Args → Option E
  pub get_snapshot_payload : State → P
  pub populate_snapshot : Snapshot P → State → State
  pub serialize_snapshot : Snapshot P → S
  pub deserialize_snapshot : S → Option (Snapshot P)

-- The service: its delegate's state, the block of the last save, and what was handed to
-- `PersistSnapshot`, the last one first.
pub record SnapshotService (S State : Type 0) : Type 0 where
  pub state : State
  pub saved_latest_block : ℕ
  pub persisted : List S

-- "BlockedUtxosCreated"
abbrev pub blocked_utxos_created : Text
blocked_utxos_created =
    66 ∷ 108 ∷ 111 ∷ 99 ∷ 107 ∷ 101 ∷ 100 ∷ 85 ∷ 116 ∷ 120 ∷ 111 ∷ 115 ∷ 67 ∷ 114 ∷ 101 ∷ 97 ∷ 116
    ∷ 101 ∷ 100 ∷ []

-- `blockedTxHashes[hash]`, the map as the search that fills it.
unfoldable pub is_blocked_tx : {Args : Type 0} → List (BlockchainEvent Args) → Text → Bool
is_blocked_tx [] hash = false
is_blocked_tx (ev ∷ events) hash =
    let rest = is_blocked_tx events hash in
    if ev.event_name == blocked_utxos_created then (ev.transaction_hash == hash) || rest else rest

abbrev pub count_up : Bool → ℕ → ℕ
count_up took n = if took then n + 1 else n

-- `AcceptEvent` and `MapEvent` of the delegate, and the name of the service's events.
module _ {Args E State : Type 0} (accept_event : E → Bool → State → Result Panic (State × Bool))
    (map_event : BlockchainEvent Args → Option E) (event_name : Text) where
  -- The event that the delegate sees, where it sees one.
  unfoldable pub mapped : BlockchainEvent Args → Option E
  mapped ev = if ev.event_name == event_name then map_event ev else none

  unfoldable pub accept_mapped : Option E → Bool → State → Result Panic (State × Bool)
  accept_mapped none is_blocked s = ok (s, false)
  accept_mapped (some e) is_blocked s = accept_event e is_blocked s

  -- The loop of `processEventsPage`.
  unfoldable pub accept_page :
      (Text → Bool) → List (BlockchainEvent Args) → State → Result Panic (State × ℕ)
  unfolding mapped accept_mapped
  accept_page blocked [] s = ok (s, 0)
  accept_page blocked (ev ∷ events) s =
      accept_mapped (mapped ev) (blocked ev.transaction_hash) s >>= λ r.
      accept_page blocked events r.0 >>= λ t. ok (t.0, count_up r.1 t.1)

module _ {Args E P S State : Type 0} (delegate : SnapshotDelegate Args E P S State)
    (event_name : Text) where
  -- `SaveSnapshot`, with the emitter's latest block; `persist_ok` is the answer of the store.
  unfoldable pub save_snapshot :
      ℕ → Bool → SnapshotService S State → SnapshotService S State × Option SnapshotError
  save_snapshot latest persist_ok svc =
      let snap : Snapshot P = record {
        latest_block_number = latest;
        payload = delegate.get_snapshot_payload svc.state;
      } in
      (
        record svc {
          saved_latest_block = latest;
          persisted = delegate.serialize_snapshot snap ∷ svc.persisted;
        },
        if persist_ok then none else some persist_failed,
      )

  -- `afterEventsAccepted`; `save_depth` is `constants.GetSaveDepth` of the chain.
  unfoldable pub after_events_accepted :
      Option ℕ
      → ℕ
      → Bool
      → ℕ
      → SnapshotService S State
      → SnapshotService S State × Option SnapshotError
  unfolding save_snapshot
  after_events_accepted none latest persist_ok count svc = (svc, some no_save_depth)
  after_events_accepted (some depth) latest persist_ok count svc =
      if ltb 0 count || ltb (wrap (svc.saved_latest_block + depth)) latest
      then save_snapshot latest persist_ok svc
      else (svc, none)

  -- `processEventsPage`: the service, the number of accepted events, and the error.
  unfoldable pub process_events_page :
      Option ℕ
      → ℕ
      → Bool
      → List (BlockchainEvent Args)
      → SnapshotService S State
      → Result Panic (SnapshotService S State × ℕ × Option SnapshotError)
  unfolding accept_page is_blocked_tx after_events_accepted
  process_events_page save_depth latest persist_ok events svc =
      accept_page delegate.accept_event delegate.map_event event_name (is_blocked_tx events) events
        svc.state
      >>= λ t.
          (let (svc', failure) =
              after_events_accepted save_depth latest persist_ok t.1 (record svc { state = t.0 }) in
            ok (svc', t.1, failure))

  -- `loadSnapshot`, with the answer of `FetchSnapshot`. The emitter is then synchronised from the
  -- block that is returned.
  unfoldable pub load_snapshot :
      Option S → SnapshotService S State → Result SnapshotError (SnapshotService S State × ℕ)
  load_snapshot none svc = err fetch_failed
  load_snapshot (some serialized) svc = elim (delegate.deserialize_snapshot serialized) [
    | none ↦ err deserialize_failed
    | some snap ↦ ok (
      record svc {
        state = delegate.populate_snapshot snap svc.state;
        saved_latest_block = snap.latest_block_number;
      },
      snap.latest_block_number,
    )
  ]
