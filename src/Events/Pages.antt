-- ===== src/Events/Pages.antt =====
-- The pages of a range of blocks.
use hinkal_go.Prelude.{
  ℕ, zero, suc, ◌+◌, ◌-◌, ◌≤◌, ◌<◌, ◌≡◌, refl, ap, arith, none, some, List, [], ◌∷◌, nat_eq,
}
use native.Mathlib.Decide.{dec_le}
use hinkal_go.Events.{u64, wrap, sub64, min64, pages_from, build_pages}

-- The pages follow each other from `cur` to `to`, and none is longer than `max_page`.
abbrev pub Tiles : ℕ → ℕ → ℕ → List (ℕ × ℕ) → Type 0
Tiles max_page cur to [] = cur ≡ to + 1
Tiles max_page cur to ((a, b) ∷ pages) =
    (a ≡ cur) × (a ≤ b) × (b < a + max_page) × (b ≤ to) × Tiles max_page (b + 1) to pages

endless : (fuel cur max_page : ℕ) → cur < u64 → pages_from fuel cur (u64 - 1) max_page ≡ none
unfolding pages_from
endless zero cur max_page small = refl
endless (suc fuel) cur max_page small =
    rw (endless fuel (wrap (cur + max_page)) max_page (omega arith), pages_from) (ground arith)

past_end :
    (fuel cur to max_page : ℕ) → 1 ≤ fuel → to < cur → pages_from fuel cur to max_page ≡ some []
unfolding pages_from
past_end zero cur to max_page some_fuel over = absurd (omega arith)
past_end (suc fuel) cur to max_page some_fuel over = ground arith

round :
    (fuel cur to max_page b next : ℕ) {pages : List (ℕ × ℕ)}
    → cur ≤ to
    → min64 (sub64 (wrap (cur + max_page)) 1) to ≡ b
    → wrap (cur + max_page) ≡ next
    → pages_from fuel next to max_page ≡ some pages
    → pages_from (suc fuel) cur to max_page ≡ some ((cur, b) ∷ pages)
unfolding pages_from
round fuel cur to max_page b next le end step later =
    rw (step, later, pages_from) (ground (arith, ap (λ (t : ℕ). min64 (sub64 t 1) to) step))

tile :
    (fuel cur to max_page : ℕ)
    → 1 ≤ max_page
    → to + max_page < u64
    → cur ≤ to
    → to + 1 < cur + fuel
    → (pages : List (ℕ × ℕ)) × (pages_from fuel cur to max_page ≡ some pages)
      × Tiles max_page cur to pages
tile zero cur to max_page one room le enough = absurd (omega arith)
tile (suc fuel) cur to max_page one room le enough =
    let next : wrap (cur + max_page) ≡ cur + max_page = omega arith in
    elim (dec_le (cur + max_page) to) [
      | yes more ↦
          let (pages, run, tiles) =
            tile fuel (cur + max_page) to max_page one room more (omega arith) in
          let b : ℕ = cur + max_page - 1 in
          let after : b + 1 ≡ cur + max_page = omega arith in
          (
            (cur, b) ∷ pages,
            round fuel cur to max_page b (cur + max_page) le (ground arith) next run,
            (refl, omega arith, omega arith, omega arith, rw after tiles),
          )
      | no last ↦ (
        (cur, to) ∷ [],
        round fuel cur to max_page to (cur + max_page) le (ground arith) next
            (past_end fuel (cur + max_page) to max_page (omega arith) (omega arith)),
        (refl, le, omega arith, omega arith, refl),
      )
    ]

-- With a positive page size, a range that is not empty and no overflow of to + maxPage, the loop of
-- buildPages ends within to - from + 2 rounds, and the pages follow each other from the start of
-- the range to its end, none longer than the page size.
pub build_pages-Tiles :
    (from to max_page fuel : ℕ)
    → 1 ≤ max_page
    → to + max_page < u64
    → from ≤ to
    → to + 2 ≤ from + fuel
    → (pages : List (ℕ × ℕ)) × (build_pages fuel from to (some max_page) ≡ some pages)
      × Tiles max_page from to pages
unfolding build_pages
build_pages-Tiles from to max_page fuel one room le enough =
    let (pages, run, tiles) = tile fuel from to max_page one room le (omega arith) in
    (pages, ground arith, tiles)

-- For a range up to the last block number and a positive page size the loop of buildPages does not
-- end, however many rounds it is given.
pub build_pages_overflow :
    (from max_page fuel : ℕ)
    → from < u64
    → 1 ≤ max_page
    → build_pages fuel from (u64 - 1) (some max_page) ≡ none
unfolding build_pages
build_pages_overflow from max_page fuel small one = ground (arith, endless fuel from max_page small)
