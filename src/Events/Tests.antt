-- ===== src/Events/Tests.antt =====
-- Runs of the reading of logs, and the theorems at them. A log is its block's number here; the node
-- refuses a range of more than 151 blocks.
use mathlib.Core.List.{Perm}
use hinkal_go.Prelude.{
  ℕ, ◌+◌, ◌-◌, ◌≡◌, refl, arith, true, false, Option, none, some, List, [], ◌∷◌, map, leb,
  if◌then◌else◌, All, length,
}
use native.Mathlib.Decide.{dec_le}
use hinkal_go.Events.{
  u64, safe_reorg_block, build_pages, pages_from, events_for_single_contract, events_with_retries,
  get_events_in_range, decode_all, both,
}
use hinkal_go.Events.Pages.{Tiles, build_pages-Tiles, build_pages_overflow}
use hinkal_go.Events.Bisect.{
  between, IsFaithful, IsResponsive, events_between, events_for_single_contract_complete,
}
use hinkal_go.Events.Coverage.{events_of_all, get_events_in_range_complete}
use hinkal_go.Events.Watermark.{
  loading, swapping, returned, advance_step, advance_at, advance_all, sync_all,
}
use hinkal_go.Events.Watermark.Highest.{IsReturned, highest, advance_all-highest}
use hinkal_go.Events.Watermark.Returns.{in_turn, in_turn-IsReturned}
use hinkal_go.Events.Watermark.Synced.{IsLowest, sync_all-IsLowest}
use hinkal_go.Events.Emitter.{Emitter, retrieve_events}
use hinkal_go.Events.Emitter.Progress.{IsKept, retrieve_events-IsKept}

abbrev toy_chain : ℕ → List ℕ
toy_chain addr = 5 ∷ 300 ∷ []

abbrev toy_block : ℕ → ℕ
toy_block l = l

abbrev toy_node : ℕ → ℕ → ℕ → Option (List ℕ)
toy_node addr from to =
    if leb to (from + 150) then some (between toy_block from to (toy_chain addr)) else none

abbrev toy_decode : ℕ → Option ℕ
toy_decode l = some l

toy-IsFaithful : IsFaithful toy_node toy_decode toy_block toy_chain
toy-IsFaithful = (
  (λ addr from to logs e. elim (dec_le to (from + 150)) [
    | yes le ↦ ground arith
    | no gt ↦ ground arith
  ]),
  λ addr. ((omega arith, tt), (tt, tt)),
)

toy-IsResponsive : IsResponsive toy_node toy_decode toy_block toy_chain
toy-IsResponsive addr from to le near refused = ground arith

halved_twice : events_for_single_contract toy_node toy_decode 1 0 400 ≡ some (5 ∷ 300 ∷ [])
unfolding events_for_single_contract events_with_retries decode_all both
halved_twice = refl

two_pages : build_pages 10 0 7 (some 5) ≡ some ((0, 4) ∷ (5, 7) ∷ [])
unfolding build_pages pages_from
two_pages = refl

young_chain : safe_reorg_block 3 10 ≡ 0
unfolding safe_reorg_block
young_chain = refl

build_pages-Tiles_example :
    (pages : List (ℕ × ℕ)) × (build_pages 10 0 7 (some 5) ≡ some pages) × Tiles 5 0 7 pages
build_pages-Tiles_example =
    build_pages-Tiles 0 7 5 10 (omega arith) (omega arith) (omega arith) (omega arith)

build_pages_overflow_example : build_pages 1000 7 (u64 - 1) (some 5) ≡ none
build_pages_overflow_example = build_pages_overflow 7 5 1000 (omega arith) (omega arith)

events_for_single_contract_complete_example :
    events_for_single_contract toy_node toy_decode 1 0 400
    ≡ some (events_between toy_node toy_decode toy_block toy_chain 1 0 400)
events_for_single_contract_complete_example =
    events_for_single_contract_complete toy_node toy_decode toy_block toy_chain 1 0 400
      toy-IsFaithful toy-IsResponsive (omega arith) (omega arith) (omega arith)

get_events_in_range_complete_example :
    (events : List ℕ) × (get_events_in_range toy_node toy_decode 500 none (1 ∷ 2 ∷ []) 0 400
      ≡ some events)
    × Perm events (events_of_all toy_node toy_decode toy_block toy_chain (1 ∷ 2 ∷ []) 0 400)
get_events_in_range_complete_example =
    get_events_in_range_complete toy_node toy_decode toy_block toy_chain toy-IsFaithful
      toy-IsResponsive (1 ∷ 2 ∷ []) 0 400 none 500 (omega arith) (omega arith) (omega arith)
      (omega arith)

-- The second call swaps between the load and the swap of the first.
abbrev contended : List ℕ
contended = 0 ∷ 1 ∷ 1 ∷ 0 ∷ 0 ∷ 0 ∷ []

contended_run :
    advance_all contended 3 (loading 9 ∷ loading 7 ∷ []) ≡ (9, returned 9 ∷ returned 7 ∷ [])
unfolding advance_all advance_at advance_step
contended_run = refl

contended-IsReturned : All IsReturned (advance_all contended 3 (map loading (9 ∷ 7 ∷ []))).1
unfolding advance_all advance_at advance_step
contended-IsReturned = (tt, (tt, tt))

advance_all-highest_example :
    (advance_all contended 3 (map loading (9 ∷ 7 ∷ []))).0 ≡ highest 3 (9 ∷ 7 ∷ [])
advance_all-highest_example = advance_all-highest 3 (9 ∷ 7 ∷ []) contended contended-IsReturned

in_turn-IsReturned_example :
    All IsReturned (advance_all (in_turn 2) 3 (swapping 9 2 ∷ loading 7 ∷ [])).1
in_turn-IsReturned_example = in_turn-IsReturned 3 (swapping 9 2 ∷ loading 7 ∷ [])

sync_all-IsLowest_example :
    IsLowest
      (sync_all (8 ∷ 5 ∷ 6 ∷ []) (record { value = 2; synced = false })).value
      (8 ∷ 5 ∷ 6 ∷ [])
sync_all-IsLowest_example = sync_all-IsLowest 8 (5 ∷ 6 ∷ []) 2

-- A processor that keeps the events.
abbrev toy_process : List ℕ → List ℕ → ℕ → List ℕ × Option ℕ
toy_process seen events block = (events, some (length events))

abbrev toy_emitter : Emitter ℕ (List ℕ)
toy_emitter = record {
  latest_block_number = 3;
  max_page_size = none;
  is_server = false;
  is_ready = true;
  in_progress = false;
  reorg_depth = none;
  addresses = 1 ∷ [];
  event_processors = [] ∷ [];
  on_events_processed = true;
  reported = [];
}

retrieve_events-IsKept_example :
    IsKept toy_node toy_decode toy_process 3 3
      (retrieve_events toy_node toy_decode toy_process 500 (some 400) 3 false toy_emitter)
retrieve_events-IsKept_example =
    retrieve_events-IsKept toy_node toy_decode toy_process 500 3 (some 400) false toy_emitter
