-- ===== src/Events/Emitter/Delivery.antt =====
-- A retrieval delivers the events of its range to every processor.
use hinkal_go.Prelude.{ℕ, Option, List, map}
use hinkal_go.Events.Emitter.{Emitter}

module _ {Address Log Event Proc : Type 0} (filter_logs : Address → ℕ → ℕ → Option (List Log))
    (decode : Log → Option Event) (process : Proc → List Event → ℕ → Proc × Option ℕ) where
  -- Every processor has run on the events.
  abbrev pub processed : List Event → ℕ → List Proc → List Proc
  processed events last = map (λ p. (process p events last).0)
