-- ===== src/Snapshot/Replay.antt =====
-- A page of events that is read again, as every poll does with the last block, is not accepted again.
use mathlib.Core.Path.{subst}
use hinkal_go.Prelude.{
  ok-injective, bind_ok, ℕ, ◌≡◌, refl, ap, Bool, false, Option, none, some, List, [], ◌∷◌, Text,
  Result, ok, ◌>>=◌, All,
}
use hinkal_go.Snapshot.{BlockchainEvent, Panic, mapped, accept_mapped, count_up, accept_page}

-- What a delegate keeps of the events that it took: an event that is `Seen` is refused without a
-- change, and is still seen after the events that are `Compatible` with it.
pub record Remembers {E State : Type 0}
    (accept_event : E → Bool → State → Result Panic (State × Bool)) : Type 1 where
  pub Seen : E → State → Type 0
  pub Compatible : E → E → Type 0
  pub accepted :
      (e : E) (b : Bool) (s : State) (r : State × Bool) → accept_event e b s ≡ ok r → Seen e r.0
  pub refused : (e : E) (b : Bool) (s : State) → Seen e s → accept_event e b s ≡ ok (s, false)
  pub kept :
      (e e' : E) (b : Bool) (s : State) (r : State × Bool)
      → Compatible e e'
      → Seen e s
      → accept_event e' b s ≡ ok r
      → Seen e r.0

module _ {Args E State : Type 0} (accept_event : E → Bool → State → Result Panic (State × Bool))
    (map_event : BlockchainEvent Args → Option E) (memory : Remembers accept_event)
    (event_name : Text) where
  abbrev SeenIf : Option E → State → Type 0
  SeenIf none s = Unit
  SeenIf (some e) s = memory.Seen e s

  abbrev CompatibleIf : Option E → Option E → Type 0
  CompatibleIf none o = Unit
  CompatibleIf (some e) none = Unit
  CompatibleIf (some e) (some e') = memory.Compatible e e'

  abbrev MappedSeen : State → BlockchainEvent Args → Type 0
  MappedSeen s ev = SeenIf (mapped accept_event map_event event_name ev) s

  -- The events of a page are compatible with the later ones.
  abbrev pub IsCompatible : List (BlockchainEvent Args) → Type 0
  IsCompatible [] = Unit
  IsCompatible (ev ∷ events) =
      All
        (λ ev'.
          CompatibleIf (mapped accept_event map_event event_name ev)
            (mapped accept_event map_event event_name ev'))
        events
      × IsCompatible events

  accepted-SeenIf :
      (o : Option E) (b : Bool) (s : State) (r : State × Bool)
      → accept_mapped accept_event map_event event_name o b s ≡ ok r
      → SeenIf o r.0
  unfolding accept_mapped
  accepted-SeenIf none b s r e = tt
  accepted-SeenIf (some x) b s r e = memory.accepted x b s r e

  kept-SeenIf :
      (o o' : Option E) (b : Bool) (s : State) (r : State × Bool)
      → CompatibleIf o o'
      → SeenIf o s
      → accept_mapped accept_event map_event event_name o' b s ≡ ok r
      → SeenIf o r.0
  unfolding accept_mapped
  kept-SeenIf none o' b s r compatible seen e = tt
  kept-SeenIf (some x) none b s r compatible seen e =
      subst (λ (s' : State). memory.Seen x s') (ap (λ (q : State × Bool). q.0) (ok-injective e))
        seen
  kept-SeenIf (some x) (some y) b s r compatible seen e = memory.kept x y b s r compatible seen e

  refused-SeenIf :
      (o : Option E) (b : Bool) (s : State)
      → SeenIf o s
      → accept_mapped accept_event map_event event_name o b s ≡ ok (s, false)
  unfolding accept_mapped
  refused-SeenIf none b s seen = refl
  refused-SeenIf (some x) b s seen = memory.refused x b s seen

  -- The first event of a page, and the rest.
  page_step :
      (blocked : Text → Bool) (ev : BlockchainEvent Args) (events : List (BlockchainEvent Args))
      (s : State) (t : State × ℕ)
      → accept_page accept_event map_event event_name blocked (ev ∷ events) s ≡ ok t
      → (r : State × Bool) × (u : State × ℕ) × (accept_mapped accept_event map_event event_name
            (mapped accept_event map_event event_name ev)
            (blocked ev.transaction_hash)
            s
          ≡ ok r)
        × (accept_page accept_event map_event event_name blocked events r.0 ≡ ok u)
        × (u.0 ≡ t.0)
  unfolding accept_page
  page_step blocked ev events s t e =
      let (r, first, later) =
        bind_ok
          (accept_mapped accept_event map_event event_name
            (mapped accept_event map_event event_name ev) (blocked ev.transaction_hash) s)
          (λ q. accept_page accept_event map_event event_name blocked events q.0 >>= λ w.
            ok (w.0, count_up q.1 w.1))
          e in
      let (u, rest, last) =
        bind_ok (accept_page accept_event map_event event_name blocked events r.0)
          (λ w. ok (w.0, count_up r.1 w.1)) later in
      (r, u, first, rest, ap (λ (q : State × ℕ). q.0) (ok-injective last))

  seen_after_page :
      (o : Option E) (blocked : Text → Bool) (events : List (BlockchainEvent Args)) (s : State)
      (t : State × ℕ)
      → All (λ ev. CompatibleIf o (mapped accept_event map_event event_name ev)) events
      → SeenIf o s
      → accept_page accept_event map_event event_name blocked events s ≡ ok t
      → SeenIf o t.0
  unfolding accept_page
  seen_after_page o blocked [] s t compatible seen e =
      subst (λ (s' : State). SeenIf o s') (ap (λ (q : State × ℕ). q.0) (ok-injective e)) seen
  seen_after_page o blocked (ev ∷ events) s t (c, compatible) seen e =
      let (r, u, first, rest, last) = page_step blocked ev events s t e in
      let now =
        kept-SeenIf o (mapped accept_event map_event event_name ev) (blocked ev.transaction_hash) s
          r c seen first in
      subst (λ (s' : State). SeenIf o s') last
        (seen_after_page o blocked events r.0 u compatible now rest)

  accept_page-MappedSeen :
      (blocked : Text → Bool) (events : List (BlockchainEvent Args)) (s : State) (t : State × ℕ)
      → IsCompatible events
      → accept_page accept_event map_event event_name blocked events s ≡ ok t
      → All (MappedSeen t.0) events
  accept_page-MappedSeen blocked [] s t compatible e = tt
  accept_page-MappedSeen blocked (ev ∷ events) s t (c, compatible) e =
      let (r, u, first, rest, last) = page_step blocked ev events s t e in
      let o = mapped accept_event map_event event_name ev in
      let now = accepted-SeenIf o (blocked ev.transaction_hash) s r first in
      subst (λ (s' : State). All (MappedSeen s') (ev ∷ events)) last
        (
          seen_after_page o blocked events r.0 u c now rest,
          accept_page-MappedSeen blocked events r.0 u compatible rest,
        )

  none_accepted :
      (blocked : Text → Bool) (events : List (BlockchainEvent Args)) (s : State)
      → All (MappedSeen s) events
      → accept_page accept_event map_event event_name blocked events s ≡ ok (s, 0)
  unfolding accept_page
  none_accepted blocked [] s seen = refl
  none_accepted blocked (ev ∷ events) s (now, seen) =
      rw
        (
          refused-SeenIf (mapped accept_event map_event event_name ev) (blocked ev.transaction_hash)
              s now,
          none_accepted blocked events s seen,
        )
        refl

  -- Take a delegate that refuses every event it has seen, without a change, and a page of which no
  -- event makes it forget an earlier one of the page. If the page is processed without a panic,
  -- then processing it again leaves the state and accepts nothing, whatever is blocked.
  pub accept_page-replay :
      (blocked blocked' : Text → Bool) (events : List (BlockchainEvent Args)) (s : State)
      (t : State × ℕ)
      → IsCompatible events
      → accept_page accept_event map_event event_name blocked events s ≡ ok t
      → accept_page accept_event map_event event_name blocked' events t.0 ≡ ok (t.0, 0)
  accept_page-replay blocked blocked' events s t compatible e =
      none_accepted blocked' events t.0 (accept_page-MappedSeen blocked events s t compatible e)
