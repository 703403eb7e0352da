-- ===== src/Events/Watermark.antt =====
-- The watermark of internal/data-structures/eventservice/shared.go: goroutines that advance one
-- atomic number by compare-and-swap, and the synchronisation of several snapshots.
-- A call of `advance` is what it does next; a schedule is the list of the calls that take one atomic
-- step each, so every interleaving is a schedule. `store`, `load` and `advance` are sequentially
-- consistent in Go.
pub mod Highest
pub mod Returns
pub mod Synced
use hinkal_go.Prelude.{
  ℕ, zero, suc, ◌+◌, ◌≤◌, ◌<◌, ◌≡◌, refl, arith, Bool, true, false, List, [], ◌∷◌, ltb, leb, ◌==◌,
  nat_eq, if◌then◌else◌,
}

-- Where a call of `advance` stands: before the load, between the load of a number and the
-- compare-and-swap, or after the return.
pub data Call : Type 0 where
  loading : ℕ → Call
  swapping : ℕ → ℕ → Call
  returned : ℕ → Call

-- One atomic step of `advance` on the value.
unfoldable pub advance_step : ℕ → Call → ℕ × Call
advance_step value (loading v) =
    if leb v value then (value, returned v) else (value, swapping v value)
advance_step value (swapping v cur) = if value == cur then (v, returned v) else (value, loading v)
advance_step value (returned v) = (value, returned v)

-- A step of the call at a place.
unfoldable pub advance_at : ℕ → ℕ → List Call → ℕ × List Call
unfolding advance_step
advance_at value place [] = (value, [])
advance_at value zero (c ∷ calls) = let (value', c') = advance_step value c in (value', c' ∷ calls)
advance_at value (suc place) (c ∷ calls) =
    let (value', calls') = advance_at value place calls in (value', c ∷ calls')

unfoldable pub advance_all : List ℕ → ℕ → List Call → ℕ × List Call
unfolding advance_at
advance_all [] value calls = (value, calls)
advance_all (place ∷ schedule) value calls =
    let (value', calls') = advance_at value place calls in advance_all schedule value' calls'

pub record Watermark : Type 0 where
  pub value : ℕ
  pub synced : Bool

-- `syncFromAtMost`, by one goroutine: the first call stores, a later one lowers.
unfoldable pub sync_from_at_most : ℕ → Watermark → Watermark
sync_from_at_most v w =
    if w.synced
    then (if leb w.value v then w else record { value = v; synced = true })
    else record { value = v; synced = true }

-- The calls of several snapshots that are loaded one after the other.
unfoldable pub sync_all : List ℕ → Watermark → Watermark
unfolding sync_from_at_most
sync_all [] w = w
sync_all (v ∷ vs) w = sync_all vs (sync_from_at_most v w)
