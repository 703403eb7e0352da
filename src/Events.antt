-- ===== src/Events.antt =====
-- Reading the contract's logs: internal/data-structures/eventservice/emitter.go, and the watermark
-- and reorganisation bound of shared.go there. Block numbers are `uint64` and wrap at `2 ^ 64`.
pub mod Emitter
pub mod Pages
pub mod Bisect
pub mod Coverage
pub mod Watermark
mod Tests
use hinkal_go.Prelude.{
  ℕ, zero, suc, ◌+◌, ◌-◌, ◌*◌, ◌/◌, ◌%◌, ◌^◌, Bool, true, false, ◌&&◌, Option, none, some, List, [],
  ◌∷◌, ◌++◌, ltb, leb, ◌==◌, nat_eq, if◌then◌else◌,
}

abbrev pub u64 : ℕ
u64 = 2 ^ 64

abbrev pub wrap : ℕ → ℕ
wrap n = n % u64

-- `a - b`
abbrev pub sub64 : ℕ → ℕ → ℕ
sub64 a b = wrap (a + u64 - b)

abbrev pub retry_min_page_size : ℕ
retry_min_page_size = 100

abbrev pub max_retries : ℕ
max_retries = 20

-- `safeReorgBlock`
unfoldable pub safe_reorg_block : ℕ → ℕ → ℕ
safe_reorg_block latest reorg_depth =
    if leb (wrap (latest + 1)) reorg_depth then 0 else sub64 (wrap (latest + 1)) reorg_depth

abbrev pub min64 : ℕ → ℕ → ℕ
min64 a b = if ltb b a then b else a

-- The loop of `buildPages`, on fuel; `none` is a loop that has not ended.
unfoldable pub pages_from : ℕ → ℕ → ℕ → ℕ → Option (List (ℕ × ℕ))
pages_from zero cur to max_page = none
pages_from (suc fuel) cur to max_page =
    let rest = pages_from fuel (wrap (cur + max_page)) to max_page in
    let page : ℕ × ℕ = (cur, min64 (sub64 (wrap (cur + max_page)) 1) to) in
    if leb cur to then elim rest [ none ↦ none | some pages ↦ some (page ∷ pages) ] else some []

-- `buildPages`; a nil `maxPage` is `none`.
unfoldable pub build_pages : ℕ → ℕ → ℕ → Option ℕ → Option (List (ℕ × ℕ))
unfolding pages_from
build_pages fuel from to none = some ((from, to) ∷ [])
build_pages fuel from to (some max_page) =
    if max_page == 0 then some ((from, to) ∷ []) else pages_from fuel from to max_page

-- `filter_logs` is the node's answer, the logs of an address from one block to another or an error.
-- `decode` is `blockchainevent.NewFromLog`, which hands the log to the ABI library and fails where
-- the contract's interface does not describe it.
module _ {Address Log Event : Type 0} (filter_logs : Address → ℕ → ℕ → Option (List Log))
    (decode : Log → Option Event) where
  unfoldable pub decode_all : List Log → List Event
  decode_all [] = []
  decode_all (l ∷ logs) =
      let rest = decode_all logs in elim (decode l) [ none ↦ rest | some e ↦ e ∷ rest ]

  -- Both halves, or the first error.
  unfoldable pub both : Option (List Event) → Option (List Event) → Option (List Event)
  both none second = none
  both (some a) none = none
  both (some a) (some b) = some (a ++ b)

  -- `getEventsForSingleContract`, on the retries that are left, `maxRetries - retry`.
  unfoldable pub events_with_retries : ℕ → Address → ℕ → ℕ → Option (List Event)
  unfolding decode_all
  events_with_retries zero addr from to = elim (filter_logs addr from to) [
    | some logs ↦ some (decode_all logs)
    | none ↦ none
  ]
  events_with_retries (suc retries) addr from to =
      let mid = wrap (from + to) / 2 in
      let first = events_with_retries retries addr from mid in
      let second = events_with_retries retries addr (wrap (mid + 1)) to in
      let split = both first second in
      elim (filter_logs addr from to) [
        | some logs ↦ some (decode_all logs)
        | none ↦ if ltb retry_min_page_size (sub64 to from) then split else none
      ]

  unfoldable pub events_for_single_contract : Address → ℕ → ℕ → Option (List Event)
  unfolding events_with_retries
  events_for_single_contract = events_with_retries max_retries

  -- The inner loop of `GetEventsInRange`, over the addresses.
  unfoldable pub events_of_page : List Address → ℕ → ℕ → Option (List Event)
  unfolding both
  events_of_page [] from to = some []
  events_of_page (addr ∷ addrs) from to =
      both (events_for_single_contract addr from to) (events_of_page addrs from to)

  -- The outer loop, over the pages.
  unfoldable pub events_of_pages : List Address → List (ℕ × ℕ) → Option (List Event)
  unfolding both events_of_page
  events_of_pages addrs [] = some []
  events_of_pages addrs ((from, to) ∷ pages) =
      both (events_of_page addrs from to) (events_of_pages addrs pages)

  -- `GetEventsInRange`; the addresses are the contract's and, where the chain has one, the hook's.
  unfoldable pub get_events_in_range : ℕ → Option ℕ → List Address → ℕ → ℕ → Option (List Event)
  unfolding events_of_pages build_pages
  get_events_in_range fuel max_page addrs from to = elim (build_pages fuel from to max_page) [
    | none ↦ none
    | some pages ↦ events_of_pages addrs pages
  ]
