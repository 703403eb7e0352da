-- ===== src/Events/Emitter.antt =====
-- The emitter of internal/data-structures/eventservice/emitter.go: its calls, one at a time, as the
-- mutex `eventsFetchingMutex` orders them. What the node answers to one call is an argument:
-- `block_number` is the answer of `client.BlockNumber`, and `filter_logs` that of `FilterLogs`.
-- A processor is a closure over its own state, so it is that state here and `process` runs it: it
-- has a new state whatever it returns, a count or an error. The listener that `Init` starts is not
-- modelled; it calls `RetrieveEvents` (polling.go), and `IntervalClear` stops it.
pub mod Progress
pub mod Delivery
use hinkal_go.Prelude.{
  ℕ, suc, ◌+◌, ◌^◌, Bool, true, false, ◌&&◌, not, Option, none, some, List, [], ◌∷◌, ◌++◌, ltb, leb,
  if◌then◌else◌, Result, ok, err,
}
use hinkal_go.Events.{u64, wrap, safe_reorg_block, get_events_in_range}

pub data EmitterError : Type 0 where
  last_block_unknown : EmitterError
  reorg_depth_unknown : EmitterError
  events_unknown : EmitterError
  processing_failed : EmitterError
  already_initialized : EmitterError

-- `reorg_depth` is `constants.GetReorgDepth(e.chainID)`, `addresses` the contract and the hook of
-- the chain; `on_events_processed` says that `OnEventsProcessed` is not nil, and `reported` has the
-- counts that it was called with, the last one first.
pub record Emitter (Address Proc : Type 0) : Type 0 where
  pub latest_block_number : ℕ
  pub max_page_size : Option ℕ
  pub is_server : Bool
  pub is_ready : Bool
  pub in_progress : Bool
  pub reorg_depth : Option ℕ
  pub addresses : List Address
  pub event_processors : List Proc
  pub on_events_processed : Bool
  pub reported : List ℕ

module _ {Address Log Event Proc : Type 0} (filter_logs : Address → ℕ → ℕ → Option (List Log))
    (decode : Log → Option Event) (process : Proc → List Event → ℕ → Proc × Option ℕ) where
  unfoldable pub add_count : Option ℕ → Option ℕ → Option ℕ
  add_count none total = none
  add_count (some n) none = none
  add_count (some n) (some total) = some (n + total)

  -- The goroutines of `processEvents`: each processor runs, also where another one fails.
  unfoldable pub run_processors : List Event → ℕ → List Proc → List Proc × Option ℕ
  unfolding add_count
  run_processors events block [] = ([], some 0)
  run_processors events block (p ∷ ps) =
      let (p', n) = process p events block in
      let (ps', total) = run_processors events block ps in (p' ∷ ps', add_count n total)

  unfoldable pub report :
      List Proc → Option ℕ → Emitter Address Proc → Emitter Address Proc × Option EmitterError
  report ps none e = (record e { event_processors = ps }, some processing_failed)
  report ps (some n) e = (
    record e {
      event_processors = ps;
      reported = if e.on_events_processed then n ∷ e.reported else e.reported;
    },
    none,
  )

  -- `processEvents`
  unfoldable pub process_events :
      List Event → ℕ → Emitter Address Proc → Emitter Address Proc × Option EmitterError
  unfolding run_processors report
  process_events events block e =
      let (ps, total) = run_processors events block e.event_processors in report ps total e

  -- `AdvanceLatestBlockNumber`, while no other call runs.
  unfoldable pub advance_latest_block_number : ℕ → Emitter Address Proc → Emitter Address Proc
  advance_latest_block_number v e =
      if leb v e.latest_block_number then e else record e { latest_block_number = v }

  -- `ProcessExternalEvents`
  unfoldable pub process_external_events :
      List Event → ℕ → Emitter Address Proc → Emitter Address Proc × Option EmitterError
  unfolding process_events advance_latest_block_number
  process_external_events events latest e =
      let (e', failure) = process_events events latest e in
      elim failure [ some x ↦ (e', some x) | none ↦ (advance_latest_block_number latest e', none) ]

  -- `GetLastBlockNumberForEventRequest`
  unfoldable pub get_last_block_number_for_event_request :
      Option ℕ → Emitter Address Proc → Result EmitterError ℕ
  unfolding safe_reorg_block
  get_last_block_number_for_event_request block_number e = elim block_number [
    | none ↦ err last_block_unknown
    | some latest ↦ if not e.is_server then ok latest else elim e.reorg_depth [
      | none ↦ err reorg_depth_unknown
      | some depth ↦
          let safe = safe_reorg_block latest depth in
          if ltb safe e.latest_block_number then ok e.latest_block_number else ok safe
    ]
  ]

  -- `RetrieveEvents` after `processEvents`.
  unfoldable pub commit :
      ℕ → Emitter Address Proc × Option EmitterError → Emitter Address Proc × Option EmitterError
  commit last (e, some x) = (e, some x)
  commit last (e, none) = (record e { latest_block_number = last }, none)

  unfoldable pub take_events :
      ℕ → Option (List Event) → Emitter Address Proc → Emitter Address Proc × Option EmitterError
  unfolding process_events commit
  take_events last none e = (e, some events_unknown)
  take_events last (some events) e = commit last (process_events events last e)

  -- `RetrieveEvents` after the last block is known.
  unfoldable pub retrieve_to :
      ℕ
      → ℕ
      → Result EmitterError ℕ
      → Emitter Address Proc
      → Emitter Address Proc × Option EmitterError
  unfolding take_events
  retrieve_to fuel from (err x) e = (e, some x)
  retrieve_to fuel from (ok last) e =
      if ltb last from
      then (e, none)
      else take_events last
          (get_events_in_range filter_logs decode fuel e.max_page_size e.addresses from last) e

  -- The deferred reset.
  unfoldable pub leave :
      Emitter Address Proc × Option EmitterError → Emitter Address Proc × Option EmitterError
  leave (e, failure) = (record e { in_progress = false }, failure)

  -- `RetrieveEvents`, with fuel for the pages.
  unfoldable pub retrieve_events :
      ℕ → Option ℕ → ℕ → Bool → Emitter Address Proc → Emitter Address Proc × Option EmitterError
  unfolding get_last_block_number_for_event_request retrieve_to leave
  retrieve_events fuel block_number from force e =
      if e.in_progress && not force
      then (e, none)
      else let e' = record e { in_progress = true } in
        leave (retrieve_to fuel from (get_last_block_number_for_event_request block_number e') e')

  -- `Init`, without the listener.
  unfoldable pub init :
      ℕ → Option ℕ → Emitter Address Proc → Emitter Address Proc × Option EmitterError
  unfolding retrieve_events
  init fuel block_number e =
      if e.is_ready
      then (e, some already_initialized)
      else retrieve_events fuel block_number (wrap (e.latest_block_number + 1)) false
          (record e { is_ready = true })

-- `New`, for the addresses and the reorganisation depth of the chain.
unfoldable pub new_emitter :
    {Address Proc : Type 0} → List Address → Option ℕ → ℕ → Bool → Option ℕ → Emitter Address Proc
new_emitter addresses reorg_depth initial_block_number is_server max_page_size = record {
  latest_block_number = initial_block_number;
  max_page_size = max_page_size;
  is_server = is_server;
  is_ready = false;
  in_progress = false;
  reorg_depth = reorg_depth;
  addresses = addresses;
  event_processors = [];
  on_events_processed = false;
  reported = [];
}

-- `AddEventProcessorFunction`; `none` is its panic.
unfoldable pub add_event_processor_function :
    {Address Proc : Type 0} → Proc → Emitter Address Proc → Option (Emitter Address Proc)
add_event_processor_function p e =
    if e.is_ready
    then none
    else some (record e { event_processors = e.event_processors ++ (p ∷ []) })

-- `IntervalClear`
unfoldable pub interval_clear :
    {Address Proc : Type 0} → Emitter Address Proc → Emitter Address Proc
interval_clear e = record e { is_ready = false; event_processors = [] }
