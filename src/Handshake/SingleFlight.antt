-- ===== src/Handshake/SingleFlight.antt =====
-- At most one call fetches at a time, however the calls interleave.
use mathlib.Core.Path.{subst}
use hinkal_go.Prelude.{
  ℕ, ◌≡◌, inl, inr, refl, sym, ap, ◌∙◌, Bool, true, false, not, ◌&&◌, Option, none, some, List, [],
  ◌∷◌, Text, text_eq, nat_eq, nat_beq_iff, ltb, ◌==◌, ◌-◌, Bool-cases, some-injective,
}
use hinkal_go.Handshake.{
  Phase, idle, fetching, publishing, waiting, returned, Handshake, new_service, Event, enter,
  finish, publish, wake, invalidate, set, join, enter_at, store, finish_at, publish_at, wake_with,
  wake_at, step, run,
}
use hinkal_go.Handshake.Serving.{
  IsServed, IsFlying, new_service-IsFlying, equal, set-here, set-other, IsServed-kept,
  go_to-IsFlying,
}

waiting-injective : {a b : ℕ} → waiting a ≡ waiting b → a ≡ b
waiting-injective e = cc

nothing : {a : ℕ} → Path (Option ℕ) none (some a) → ⊥
nothing e = cc

not_waiting : {a : ℕ} → fetching ≡ waiting a → ⊥
not_waiting e = cc

returned_waits : {r : Option Text} {a : ℕ} → returned r ≡ waiting a → ⊥
returned_waits e = cc

not_publishing : {r : Option Text} → publishing r ≡ fetching → ⊥
not_publishing e = cc

publisher_waits : {r : Option Text} {a : ℕ} → publishing r ≡ waiting a → ⊥
publisher_waits e = cc

clash : Path Bool true false → ⊥
clash e = cc

other_call : (c d : ℕ) → c ≡ d → (d == c) ≡ false → ⊥
other_call c d e apart = clash (sym ((nat_beq_iff d c).1 (sym e)) ∙ apart)

join-IsFlying :
    (s : Handshake) (c : ℕ) (o : Option ℕ)
    → IsFlying s
    → s.in_flight ≡ o
    → s.phase c ≡ idle
    → IsFlying (join c o s)
unfolding join
join-IsFlying s c (some owner) k e at_idle =
    go_to-IsFlying s c (waiting owner) k (λ f. cc) (λ r q. cc) (λ f. cc)
      (λ o w. subst (IsServed s) (waiting-injective w) (inl (k.owner_fetches owner e)))
join-IsFlying s c none k e at_idle =
    let t = join c none s in
    let others = λ (d : ℕ) (apart : (d == c) ≡ false). set-other c d fetching s.phase apart in
    let now_fetching : t.phase c ≡ fetching = set-here c fetching s.phase in
    record {
      owner_fetches = λ d owns. ap t.phase (sym (some-injective owns)) ∙ now_fetching;
      fetching_owns = λ d f. elim (Bool-cases (d == c)) [
        | inl same ↦ ap some (sym (equal d c same))
        | inr apart ↦ absurd (nothing (sym e ∙ k.fetching_owns d (sym (others d apart) ∙ f)))
      ];
      waiters_served = λ d o w. elim (Bool-cases (d == c)) [
        | inl same ↦ absurd (not_waiting (sym now_fetching ∙ ap t.phase (sym (equal d c same)) ∙ w))
        | inr apart ↦
            IsServed-kept s t c o others (λ q r h. (r, h)) (inl (inl now_fetching))
              (k.waiters_served d o (sym (others d apart) ∙ w))
      ];
    }

enter_at-IsFlying :
    (ttl now : ℕ) (s : Handshake) (c : ℕ) (p : Phase)
    → IsFlying s
    → s.phase c ≡ p
    → IsFlying (enter_at ttl c now p s)
unfolding enter_at
enter_at-IsFlying ttl now s c idle k e =
    elim (Bool-cases (not (s.cached_public_key == []) && ltb (now - s.cached_at) ttl)) [
      | inl fresh ↦ rw fresh (
          go_to-IsFlying s c (returned (some s.cached_public_key)) k (λ f. cc) (λ r q. cc) (λ f. cc)
            (λ o w. absurd (returned_waits w)))
      | inr stale ↦ rw stale (join-IsFlying s c s.in_flight k refl e)
    ]
enter_at-IsFlying ttl now s c fetching k e = k
enter_at-IsFlying ttl now s c (publishing r) k e = k
enter_at-IsFlying ttl now s c (waiting d) k e = k
enter_at-IsFlying ttl now s c (returned r) k e = k

-- The fetch ends: nothing is in flight, and its call publishes.
finished-IsFlying :
    (s t : Handshake) (c : ℕ) (r : Option Text)
    → IsFlying s
    → s.phase c ≡ fetching
    → t.in_flight ≡ none
    → t.phase ≡ set c (publishing r) s.phase
    → t.result ≡ s.result
    → IsFlying t
finished-IsFlying s t c r k e landed moved same_results =
    let others = λ (d : ℕ) (apart : (d == c) ≡ false).
      ap (λ (f : ℕ → Phase). f d) moved ∙ set-other c d (publishing r) s.phase apart in
    let publishes : t.phase c ≡ publishing r =
      ap (λ (f : ℕ → Phase). f c) moved ∙ set-here c (publishing r) s.phase in
    record {
      owner_fetches = λ d owns. absurd (nothing (sym landed ∙ owns));
      fetching_owns = λ d f. elim (Bool-cases (d == c)) [
        | inl same ↦ absurd (not_publishing (sym publishes ∙ ap t.phase (sym (equal d c same)) ∙ f))
        | inr apart ↦ absurd (
            other_call c d
              (some-injective
                (sym (k.fetching_owns c e) ∙ k.fetching_owns d (sym (others d apart) ∙ f)))
              apart)
      ];
      waiters_served = λ d o w. elim (Bool-cases (d == c)) [
        | inl same ↦
            absurd (publisher_waits (sym publishes ∙ ap t.phase (sym (equal d c same)) ∙ w))
        | inr apart ↦
            IsServed-kept s t c o others
              (λ q v h. (v, ap (λ (f : ℕ → Option (Option Text)). f q) same_results ∙ h))
              (inl (inr (inl (r, publishes)))) (k.waiters_served d o (sym (others d apart) ∙ w))
      ];
    }

finish_at-IsFlying :
    (now : ℕ) (s : Handshake) (c : ℕ) (r : Option Text) (p : Phase)
    → IsFlying s
    → s.phase c ≡ p
    → IsFlying (finish_at c r now p s)
unfolding finish_at store
finish_at-IsFlying now s c none fetching k e =
    finished-IsFlying s (finish_at c none now fetching s) c none k e refl refl refl
finish_at-IsFlying now s c (some pk) fetching k e =
    finished-IsFlying s (finish_at c (some pk) now fetching s) c (some pk) k e refl refl refl
finish_at-IsFlying now s c r idle k e = k
finish_at-IsFlying now s c r (publishing q) k e = k
finish_at-IsFlying now s c r (waiting d) k e = k
finish_at-IsFlying now s c r (returned q) k e = k

not_returned : {r : Option Text} → returned r ≡ fetching → ⊥
not_returned e = cc

-- A result that is there is still there when another is set.
set_keeps :
    (c : ℕ) (r : Option Text) (f : ℕ → Option (Option Text)) (d : ℕ) (v : Option Text)
    → f d ≡ some v
    → (q : Option Text) × (set c (some r) f d ≡ some q)
set_keeps c r f d v h = elim (Bool-cases (d == c)) [
  | inl same ↦ (r, rw same refl)
  | inr apart ↦ (v, rw apart h)
]

wake_with-IsFlying :
    (s : Handshake) (d c : ℕ) (o : Option (Option Text))
    → IsFlying s
    → s.phase d ≡ waiting c
    → IsFlying (wake_with d o s)
unfolding wake_with
wake_with-IsFlying s d c none k e = k
wake_with-IsFlying s d c (some r) k e =
    go_to-IsFlying s d (returned r) k (λ f. not_waiting (sym f ∙ e))
      (λ q p. publisher_waits (sym p ∙ e)) not_returned (λ o w. absurd (returned_waits w))

publish_at-IsFlying :
    (s : Handshake) (c : ℕ) (p : Phase) → IsFlying s → s.phase c ≡ p → IsFlying (publish_at c p s)
unfolding publish_at
publish_at-IsFlying s c (publishing r) k e =
    let t = publish_at c (publishing r) s in
    let others = λ (d : ℕ) (apart : (d == c) ≡ false). set-other c d (returned r) s.phase apart in
    let done : t.phase c ≡ returned r = set-here c (returned r) s.phase in
    let published : t.result c ≡ some r = set-here c (some r) s.result in
    record {
      owner_fetches = λ d owns. elim (Bool-cases (d == c)) [
        | inl same ↦
            absurd
              (not_publishing (sym e ∙ ap s.phase (sym (equal d c same)) ∙ k.owner_fetches d owns))
        | inr apart ↦ others d apart ∙ k.owner_fetches d owns
      ];
      fetching_owns = λ d f. elim (Bool-cases (d == c)) [
        | inl same ↦ absurd (not_returned (sym done ∙ ap t.phase (sym (equal d c same)) ∙ f))
        | inr apart ↦ k.fetching_owns d (sym (others d apart) ∙ f)
      ];
      waiters_served = λ d o w. elim (Bool-cases (d == c)) [
        | inl same ↦ absurd (returned_waits (sym done ∙ ap t.phase (sym (equal d c same)) ∙ w))
        | inr apart ↦
            IsServed-kept s t c o others (λ q v h. set_keeps c r s.result q v h)
              (inl (inr (inr (r, published)))) (k.waiters_served d o (sym (others d apart) ∙ w))
      ];
    }
publish_at-IsFlying s c idle k e = k
publish_at-IsFlying s c fetching k e = k
publish_at-IsFlying s c (waiting d) k e = k
publish_at-IsFlying s c (returned r) k e = k

wake_at-IsFlying :
    (s : Handshake) (d : ℕ) (p : Phase) → IsFlying s → s.phase d ≡ p → IsFlying (wake_at d p s)
unfolding wake_at
wake_at-IsFlying s d (waiting c) k e = wake_with-IsFlying s d c (s.result c) k e
wake_at-IsFlying s d idle k e = k
wake_at-IsFlying s d fetching k e = k
wake_at-IsFlying s d (publishing r) k e = k
wake_at-IsFlying s d (returned r) k e = k

step-IsFlying : (ttl : ℕ) (e : Event) (s : Handshake) → IsFlying s → IsFlying (step ttl e s)
unfolding step
step-IsFlying ttl (enter c now) s k = enter_at-IsFlying ttl now s c (s.phase c) k refl
step-IsFlying ttl (finish c r now) s k = finish_at-IsFlying now s c r (s.phase c) k refl
step-IsFlying ttl (publish c) s k = publish_at-IsFlying s c (s.phase c) k refl
step-IsFlying ttl (wake d) s k = wake_at-IsFlying s d (s.phase d) k refl
step-IsFlying ttl invalidate s k = record {
  owner_fetches = k.owner_fetches;
  fetching_owns = k.fetching_owns;
  waiters_served = k.waiters_served;
}

run-IsFlying :
    (ttl : ℕ) (events : List Event) (s : Handshake) → IsFlying s → IsFlying (run ttl events s)
unfolding run
run-IsFlying ttl [] s k = k
run-IsFlying ttl (e ∷ events) s k = run-IsFlying ttl events (step ttl e s) (step-IsFlying ttl e s k)

-- However the calls of GetPublicKey interleave, two calls that fetch are the same call.
pub run_single_flight :
    (ttl : ℕ) (events : List Event) (c d : ℕ)
    → (run ttl events new_service).phase c ≡ fetching
    → (run ttl events new_service).phase d ≡ fetching
    → c ≡ d
run_single_flight ttl events c d fc fd =
    let k = run-IsFlying ttl events new_service new_service-IsFlying in
    some-injective (sym (k.fetching_owns c fc) ∙ k.fetching_owns d fd)

-- Every call that waits is served, however the calls interleave.
pub run_waiters-IsServed :
    (ttl : ℕ) (events : List Event) (d c : ℕ)
    → (run ttl events new_service).phase d ≡ waiting c
    → IsServed (run ttl events new_service) c
run_waiters-IsServed ttl events =
    (run-IsFlying ttl events new_service new_service-IsFlying).waiters_served
