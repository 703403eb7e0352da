-- ===== src/Handshake/Tests.antt =====
-- A schedule of two calls, and the properties applied to it.
use hinkal_go.Prelude.{ℕ, ◌≡◌, refl, Option, none, some, List, [], ◌∷◌, Text, nat_eq, text_eq}
use hinkal_go.Prelude.Int.{negsuc}
use hinkal_go.Handshake.{
  fetching, waiting, returned, default_handshake_ttl, service_ttl, new_service, Event, enter,
  finish, publish, wake, join, enter_at, finish_at, store, step, run,
}
use hinkal_go.Handshake.SingleFlight.{run_single_flight}
use hinkal_go.Handshake.Waiters.{run_waiter_returns}

-- The first call fetches, and the second waits for it.
abbrev two_calls : List Event
two_calls = enter 3 0 ∷ enter 4 1 ∷ []

first_fetches : (run 300 two_calls new_service).phase 3 ≡ fetching
unfolding run step enter_at join
first_fetches = refl

second_waits : (run 300 two_calls new_service).phase 4 ≡ waiting 3
unfolding run step enter_at join
second_waits = refl

-- A third call after the fetch finds the key.
third_returns :
    (run 300 (finish 3 (some (107 ∷ [])) 2 ∷ enter 5 3 ∷ []) (run 300 two_calls new_service)).phase
      5
    ≡ returned (some (107 ∷ []))
unfolding run step enter_at join finish_at store
third_returns = refl

abbrev three : ℕ
three = 3

run_single_flight_example : three ≡ three
run_single_flight_example = run_single_flight 300 two_calls three three first_fetches first_fetches

run_waiter_returns_example :
    (q : Option Text) × ((run 300
          (finish 3 none 2 ∷ publish 3 ∷ wake 4 ∷ [])
          (run 300 two_calls new_service)).phase
        4
      ≡ returned q)
run_waiter_returns_example = run_waiter_returns 300 2 two_calls 3 4 none second_waits

-- A duration that is not positive gives the default.
no_ttl : service_ttl (negsuc 4) ≡ default_handshake_ttl
unfolding service_ttl
no_ttl = refl
