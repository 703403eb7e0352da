-- ===== src/Handshake.antt =====
-- The handshake with the enclave: internal/functions/enclave/handshake_service.go.
-- `GetPublicKey` runs concurrently: each call is a number, and a step is what a call does between two
-- of its waits, which the mutex makes atomic. The call object that a caller makes has its number. A
-- fetch's answer is given with its step: a key, or `none` for an error.
pub mod Serving
pub mod SingleFlight
pub mod Waiters
mod Tests
use hinkal_go.Prelude.{
  ℕ, zero, suc, ◌-◌, Bool, not, ◌&&◌, Option, none, some, List, [], ◌∷◌, Text, text_eq, nat_eq, ltb,
  ◌==◌, if◌then◌else◌,
}
use hinkal_go.Prelude.Int.{ℤ, pos, negsuc}

-- Where a call of `GetPublicKey` stands.
pub data Phase : Type 0 where
  idle : Phase
  fetching : Phase
  publishing : Option Text → Phase
  waiting : ℕ → Phase
  returned : Option Text → Phase

-- `EnclaveHandshakeService`, with the calls' phases and the results of their call objects.
pub record Handshake : Type 0 where
  pub cached_public_key : Text
  pub cached_at : ℕ
  pub in_flight : Option ℕ
  pub phase : ℕ → Phase
  pub result : ℕ → Option (Option Text)

-- `defaultHandshakeTTL`, five minutes in nanoseconds.
abbrev pub default_handshake_ttl : ℕ
default_handshake_ttl = 300000000000

-- The time to live that `NewEnclaveHandshakeService` gives the service: the default for a duration
-- that is not positive. The steps of the service take it as their first argument.
unfoldable pub service_ttl : ℤ → ℕ
service_ttl (pos zero) = default_handshake_ttl
service_ttl (pos (suc n)) = suc n
service_ttl (negsuc n) = default_handshake_ttl

-- The rest of `NewEnclaveHandshakeService`.
abbrev pub new_service : Handshake
new_service = record {
  cached_public_key = [];
  cached_at = 0;
  in_flight = none;
  phase = λ c. idle;
  result = λ c. none;
}

-- What the schedule lets happen: the start of a call at a time, the end of its fetch, the end of its
-- critical section, the end of a wait, and `Invalidate`.
pub data Event : Type 0 where
  enter : ℕ → ℕ → Event
  finish : ℕ → Option Text → ℕ → Event
  publish : ℕ → Event
  wake : ℕ → Event
  invalidate : Event

-- A function with another value at a number.
abbrev pub set : {A : Type 0} → ℕ → A → (ℕ → A) → ℕ → A
set c a f d = if d == c then a else f d

abbrev pub go_to : ℕ → Phase → Handshake → Handshake
go_to c p s = record s { phase = set c p s.phase }

-- Without a fresh key: wait for the call in flight, or fetch.
unfoldable pub join : ℕ → Option ℕ → Handshake → Handshake
join c (some owner) s = go_to c (waiting owner) s
join c none s = record (go_to c fetching s) { in_flight = some c }

unfoldable pub enter_at : ℕ → ℕ → ℕ → Phase → Handshake → Handshake
unfolding join
enter_at ttl c now idle s =
    if not (s.cached_public_key == []) && ltb (now - s.cached_at) ttl
    then go_to c (returned (some s.cached_public_key)) s
    else join c s.in_flight s
enter_at ttl c now fetching s = s
enter_at ttl c now (publishing r) s = s
enter_at ttl c now (waiting d) s = s
enter_at ttl c now (returned r) s = s

-- A key is cached; an error changes nothing.
unfoldable pub store : Option Text → ℕ → Handshake → Handshake
store none now s = s
store (some pk) now s = record s { cached_public_key = pk; cached_at = now }

unfoldable pub finish_at : ℕ → Option Text → ℕ → Phase → Handshake → Handshake
unfolding store
finish_at c r now fetching s = record (go_to c (publishing r) (store r now s)) { in_flight = none }
finish_at c r now idle s = s
finish_at c r now (publishing q) s = s
finish_at c r now (waiting d) s = s
finish_at c r now (returned q) s = s

unfoldable pub publish_at : ℕ → Phase → Handshake → Handshake
publish_at c (publishing r) s = record (go_to c (returned r) s) { result = set c (some r) s.result }
publish_at c idle s = s
publish_at c fetching s = s
publish_at c (waiting d) s = s
publish_at c (returned r) s = s

unfoldable pub wake_with : ℕ → Option (Option Text) → Handshake → Handshake
wake_with d none s = s
wake_with d (some r) s = go_to d (returned r) s

unfoldable pub wake_at : ℕ → Phase → Handshake → Handshake
unfolding wake_with
wake_at d (waiting c) s = wake_with d (s.result c) s
wake_at d idle s = s
wake_at d fetching s = s
wake_at d (publishing r) s = s
wake_at d (returned r) s = s

-- One step; a step that a call cannot take changes nothing.
unfoldable pub step : ℕ → Event → Handshake → Handshake
unfolding enter_at finish_at publish_at wake_at
step ttl (enter c now) s = enter_at ttl c now (s.phase c) s
step ttl (finish c r now) s = finish_at c r now (s.phase c) s
step ttl (publish c) s = publish_at c (s.phase c) s
step ttl (wake d) s = wake_at d (s.phase d) s
step ttl invalidate s = record s { cached_public_key = []; cached_at = 0 }

-- A schedule.
unfoldable pub run : ℕ → List Event → Handshake → Handshake
unfolding step
run ttl [] s = s
run ttl (e ∷ events) s = run ttl events (step ttl e s)
