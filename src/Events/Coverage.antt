-- ===== src/Events/Coverage.antt =====
-- A range of blocks, read page by page and address by address.
use mathlib.Core.List.{Perm, append_assoc, perm_append_comm}
use mathlib.Core.List.Perm
use hinkal_go.Prelude.{
  ℕ, zero, suc, ◌+◌, ◌*◌, ◌^◌, ◌≤◌, ◌<◌, ◌≡◌, refl, ◌∙◌, arith, Option, none, some, List, [], ◌∷◌,
  ◌++◌,
}
use hinkal_go.Events.{
  u64, decode_all, events_of_page, events_of_pages, build_pages, get_events_in_range,
}
use hinkal_go.Events.Pages.{Tiles, build_pages-Tiles}
use hinkal_go.Events.Bisect.{
  between, IsOrdered, IsFaithful, IsResponsive, events_between, events_between-split,
  events_for_single_contract_complete,
}

perm_interleave {ℓ} :
    {A : Type ℓ} (a b c d : List A) → Perm ((a ++ b) ++ (c ++ d)) ((a ++ c) ++ (b ++ d))
perm_interleave a b c d =
    rw
      (
        append_assoc a b (c ++ d),
        append_assoc a c (b ++ d),
        ← append_assoc b c d,
        ← append_assoc c b d,
      )
      (Perm.append_left a (Perm.append_right d (perm_append_comm b c)))

between_empty :
    {Log : Type 0} (block : Log → ℕ) (from to : ℕ) (logs : List Log)
    → to < from
    → between block from to logs ≡ []
between_empty block from to [] lt = refl
between_empty block from to (l ∷ logs) lt = ground (arith, between_empty block from to logs lt)

-- Where the pages are short enough for the retries: a page size that is at most 104857600, or, where
-- the range is one page, a range of at most 104857600 blocks.
abbrev pub HasShortPages : Option ℕ → ℕ → ℕ → Type 0
HasShortPages none from to = to < from + 100 * 2 ^ 20
HasShortPages (some zero) from to = to < from + 100 * 2 ^ 20
HasShortPages (some (suc n)) from to = suc n ≤ 100 * 2 ^ 20

-- Every page size makes pages that follow each other and are short.
short_pages :
    (max_page : Option ℕ) (from to fuel : ℕ)
    → HasShortPages max_page from to
    → to + to < u64
    → from ≤ to
    → to + 2 ≤ from + fuel
    → (n : ℕ) × (n ≤ 100 * 2 ^ 20)
      × ((pages : List (ℕ × ℕ)) × (build_pages fuel from to max_page ≡ some pages)
          × Tiles n from to pages)
unfolding build_pages
short_pages none from to fuel short small le enough =
    (100 * 2 ^ 20, omega arith, ((from, to) ∷ [], refl, (refl, le, short, omega arith, refl)))
short_pages (some zero) from to fuel short small le enough =
    (100 * 2 ^ 20, omega arith, ((from, to) ∷ [], refl, (refl, le, short, omega arith, refl)))
short_pages (some (suc n)) from to fuel short small le enough =
    (suc n, short, build_pages-Tiles from to (suc n) fuel (omega arith) (omega arith) le enough)

module _ {Address Log Event : Type 0} (filter_logs : Address → ℕ → ℕ → Option (List Log))
    (decode : Log → Option Event) (block : Log → ℕ) (chain : Address → List Log) where
  -- The events of a range, one address after the other.
  abbrev pub events_of_all : List Address → ℕ → ℕ → List Event
  events_of_all [] from to = []
  events_of_all (addr ∷ addrs) from to =
      events_between filter_logs decode block chain addr from to ++ events_of_all addrs from to

  events_of_all-split :
      (addrs : List Address) (from mid to : ℕ)
      → ((addr : Address) → IsOrdered block (chain addr))
      → from ≤ mid + 1
      → mid ≤ to
      → Perm
          (events_of_all addrs from mid ++ events_of_all addrs (mid + 1) to)
          (events_of_all addrs from to)
  events_of_all-split [] from mid to ordered lo hi = Perm.refl []
  events_of_all-split (addr ∷ addrs) from mid to ordered lo hi =
      Perm.trans
        (perm_interleave (events_between filter_logs decode block chain addr from mid)
          (events_of_all addrs from mid)
          (events_between filter_logs decode block chain addr (mid + 1) to)
          (events_of_all addrs (mid + 1) to))
        (rw
          (events_between-split filter_logs decode block chain addr from mid to (ordered addr) lo
            hi)
          (Perm.append_left _ (events_of_all-split addrs from mid to ordered lo hi)))

  events_of_all-empty : (addrs : List Address) (to : ℕ) → events_of_all addrs (to + 1) to ≡ []
  unfolding decode_all
  events_of_all-empty [] to = refl
  events_of_all-empty (addr ∷ addrs) to =
      rw (between_empty block (to + 1) to (chain addr) (omega arith)) (events_of_all-empty addrs to)

  read_pages :
      (fuel : ℕ) (max_page : Option ℕ) (addrs : List Address) (from to : ℕ) {pages : List (ℕ × ℕ)}
      → build_pages fuel from to max_page ≡ some pages
      → get_events_in_range filter_logs decode fuel max_page addrs from to
        ≡ events_of_pages filter_logs decode addrs pages
  unfolding get_events_in_range
  read_pages fuel max_page addrs from to e = rw (e, get_events_in_range) refl

  module _ (faithful : IsFaithful filter_logs decode block chain)
      (responsive : IsResponsive filter_logs decode block chain) where
    page_complete :
        (addrs : List Address) (from to : ℕ)
        → from ≤ to
        → to + to < u64
        → to ≤ from + 100 * 2 ^ 20
        → events_of_page filter_logs decode addrs from to ≡ some (events_of_all addrs from to)
    unfolding events_of_page
    page_complete [] from to le small range = refl
    page_complete (addr ∷ addrs) from to le small range =
        rw
          (
            events_for_single_contract_complete filter_logs decode block chain addr from to faithful
                responsive le small range,
            page_complete addrs from to le small range,
          )
          refl

    pages_complete :
        (addrs : List Address) (max_page cur to : ℕ) (pages : List (ℕ × ℕ))
        → max_page ≤ 100 * 2 ^ 20
        → to + to < u64
        → Tiles max_page cur to pages
        → (events : List Event) × (events_of_pages filter_logs decode addrs pages ≡ some events)
          × Perm events (events_of_all addrs cur to)
    unfolding events_of_pages
    pages_complete addrs max_page cur to [] short small tiles =
        ([], refl, rw (tiles, events_of_all-empty addrs to) (Perm.refl []))
    pages_complete addrs max_page cur to ((a, b) ∷ pages) short small
          (start, le, long, inside, tiles) =
        let (events, run, perm) =
          pages_complete addrs max_page (b + 1) to pages short small tiles in
        let page = page_complete addrs a b le (omega arith) (omega arith) in
        (
          events_of_all addrs a b ++ events,
          rw (page, run) refl,
          rw (← start) (
              Perm.trans (Perm.append_left (events_of_all addrs a b) perm)
                (events_of_all-split addrs a b to faithful.1 (omega arith) inside)),
        )

    -- With a node that is faithful and answers for ranges of at most 101 blocks, a range whose end
    -- is below half of `2 ^ 64` is read, each event as often as the chain has it, in an order that
    -- goes page by page: where the range is one page, no page size or zero, if it has at most
    -- 104857600 blocks, else if the page size is at most 104857600.
    pub get_events_in_range_complete :
        (addrs : List Address) (from to : ℕ) (max_page : Option ℕ) (fuel : ℕ)
        → HasShortPages max_page from to
        → to + to < u64
        → from ≤ to
        → to + 2 ≤ from + fuel
        → (events : List Event) × (get_events_in_range filter_logs decode fuel max_page addrs from
              to
            ≡ some events)
          × Perm events (events_of_all addrs from to)
    get_events_in_range_complete addrs from to max_page fuel short small le enough =
        let (n, bound, (pages, paged, tiles)) =
          short_pages max_page from to fuel short small le enough in
        let (events, run, perm) = pages_complete addrs n from to pages bound small tiles in
        (events, read_pages fuel max_page addrs from to paged ∙ run, perm)
