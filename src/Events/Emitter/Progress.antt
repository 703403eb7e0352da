-- ===== src/Events/Emitter/Progress.antt =====
-- What a retrieval does to the watermark and to the processors.
use hinkal_go.Prelude.{
  ℕ, ◌≤◌, ◌≡◌, ◌⊎◌, inl, inr, refl, arith, Bool, true, false, ◌&&◌, not, Option, none, some, List,
  ltb, Bool-cases, Result, ok, err,
}
use native.Mathlib.Decide.{dec_le}
use hinkal_go.Events.{get_events_in_range}
use hinkal_go.Events.Emitter.{
  Emitter, EmitterError, run_processors, process_events, report, commit, take_events, leave,
  retrieve_to, retrieve_events, get_last_block_number_for_event_request,
}

module _ {Address Log Event Proc : Type 0} (filter_logs : Address → ℕ → ℕ → Option (List Log))
    (decode : Log → Option Event) (process : Proc → List Event → ℕ → Proc × Option ℕ) where
  -- The watermark stays, or there is no error and it is a block that is not before `from`.
  abbrev pub IsKept : ℕ → ℕ → Emitter Address Proc × Option EmitterError → Type 0
  IsKept latest from r =
      (r.0.latest_block_number ≡ latest) ⊎ ((r.1 ≡ none) × (from ≤ r.0.latest_block_number))

  report-latest :
      (ps : List Proc) (total : Option ℕ) (e : Emitter Address Proc)
      → (report filter_logs decode process ps total e).0.latest_block_number ≡ e.latest_block_number
  unfolding report
  report-latest ps none e = refl
  report-latest ps (some n) e = refl

  commit-IsKept :
      (last from latest : ℕ) (r : Emitter Address Proc × Option EmitterError)
      → from ≤ last
      → r.0.latest_block_number ≡ latest
      → IsKept latest from (commit filter_logs decode process last r)
  unfolding commit
  commit-IsKept last from latest (e, some x) le same = inl same
  commit-IsKept last from latest (e, none) le same = inr (refl, le)

  take_events-IsKept :
      (last from : ℕ) (events : Option (List Event)) (e : Emitter Address Proc)
      → from ≤ last
      → IsKept e.latest_block_number from (take_events filter_logs decode process last events e)
  unfolding take_events process_events
  take_events-IsKept last from none e le = inl refl
  take_events-IsKept last from (some events) e le =
      let (ps, total) = run_processors filter_logs decode process events last e.event_processors in
      commit-IsKept last from e.latest_block_number (report filter_logs decode process ps total e)
        le (report-latest ps total e)

  retrieve_to-IsKept :
      (fuel from : ℕ) (last : Result EmitterError ℕ) (e : Emitter Address Proc)
      → IsKept e.latest_block_number from (retrieve_to filter_logs decode process fuel from last e)
  unfolding retrieve_to
  retrieve_to-IsKept fuel from (err x) e = inl refl
  retrieve_to-IsKept fuel from (ok last) e =
      let events =
        get_events_in_range filter_logs decode fuel e.max_page_size e.addresses from last in
      elim (dec_le from last) [
        | yes le ↦
            let go : ltb last from ≡ false = ground arith in
            rw go (take_events-IsKept last from events e le)
        | no gt ↦ let stop : ltb last from ≡ true = ground arith in rw stop (inl refl)
      ]

  leave-IsKept :
      (latest from : ℕ) (r : Emitter Address Proc × Option EmitterError)
      → IsKept latest from r
      → IsKept latest from (leave filter_logs decode process r)
  unfolding leave
  leave-IsKept latest from (e, failure) kept = kept

  -- On every branch of `RetrieveEvents` the watermark stays, or the call has no error and the
  -- watermark is at `from` or behind it. So an error keeps the range to be read again, and the
  -- calls from the watermark or the block after it never lower it.
  pub retrieve_events-IsKept :
      (fuel from : ℕ) (block_number : Option ℕ) (force : Bool) (e : Emitter Address Proc)
      → IsKept e.latest_block_number from
          (retrieve_events filter_logs decode process fuel block_number from force e)
  unfolding retrieve_events
  retrieve_events-IsKept fuel from block_number force e =
      let e' = record e { in_progress = true } in
      let last =
        get_last_block_number_for_event_request filter_logs decode process block_number e' in
      let r = retrieve_to filter_logs decode process fuel from last e' in
      elim (Bool-cases (e.in_progress && not force)) [
        | inl busy ↦ rw busy (inl refl)
        | inr free ↦
            rw free
              (leave-IsKept e.latest_block_number from r (retrieve_to-IsKept fuel from last e'))
      ]
