-- ===== src/Handshake/Waiters.antt =====
-- A call that waits returns once the call that it waits for goes on.
use hinkal_go.Prelude.{
  ℕ, ◌≡◌, ◌⊎◌, inl, inr, refl, sym, ap, ◌∙◌, false, Option, none, some, List, [], ◌∷◌, Text, nat_eq,
  nat_beq_iff, ◌==◌, Bool-cases,
}
use hinkal_go.Handshake.{
  Phase, idle, fetching, publishing, waiting, returned, Handshake, new_service, Event, finish,
  publish, wake, store, finish_at, publish_at, wake_with, wake_at, step, run,
}
use hinkal_go.Handshake.Serving.{IsServed, set-here, set-other}
use hinkal_go.Handshake.SingleFlight.{run_waiters-IsServed}

-- What is left of the service when nothing is in flight for the call object.
abbrev IsDone : Handshake → ℕ → Type 0
IsDone s c = (r : Option Text) × (s.result c ≡ some r)

abbrev IsLanded : Handshake → ℕ → Type 0
IsLanded s c = ((r : Option Text) × (s.phase c ≡ publishing r)) ⊎ IsDone s c

apart :
    (s : Handshake) (c d : ℕ)
    → (s.phase c ≡ waiting c → ⊥)
    → s.phase d ≡ waiting c
    → (d == c) ≡ false
apart s c d differ w = elim (Bool-cases (d == c)) [
  | inl same ↦ absurd (differ (ap s.phase (sym ((nat_beq_iff d c).0 same)) ∙ w))
  | inr other ↦ other
]

-- A call whose phase is not one of the two has its result.
result_there :
    (s : Handshake) (c : ℕ)
    → (s.phase c ≡ fetching → ⊥)
    → ((r : Option Text) → s.phase c ≡ publishing r → ⊥)
    → IsServed s c
    → IsDone s c
result_there s c not_f not_p served = elim served [
  | inl f ↦ absurd (not_f f)
  | inr rest ↦ elim rest [ inl (r, p) ↦ absurd (not_p r p) | inr done ↦ done ]
]

finish_at-IsLanded :
    (now : ℕ) (s : Handshake) (c d : ℕ) (r : Option Text) (p : Phase)
    → s.phase c ≡ p
    → s.phase d ≡ waiting c
    → IsServed s c
    → ((finish_at c r now p s).phase d ≡ waiting c) × IsLanded (finish_at c r now p s) c
unfolding finish_at store
finish_at-IsLanded now s c d none fetching e w served =
    let other = apart s c d (λ h. (let bad : fetching ≡ waiting c = sym e ∙ h in cc)) w in
    (
      set-other c d (publishing none) s.phase other ∙ w,
      inl (none, set-here c (publishing none) s.phase),
    )
finish_at-IsLanded now s c d (some pk) fetching e w served =
    let other = apart s c d (λ h. (let bad : fetching ≡ waiting c = sym e ∙ h in cc)) w in
    (
      set-other c d (publishing (some pk)) s.phase other ∙ w,
      inl (some pk, set-here c (publishing (some pk)) s.phase),
    )
finish_at-IsLanded now s c d r (publishing q) e w served = (w, inl (q, e))
finish_at-IsLanded now s c d r idle e w served = (
  w,
  inr (
      result_there s c (λ f. (let bad : idle ≡ fetching = sym e ∙ f in cc))
        (λ q p. (let bad : idle ≡ publishing q = sym e ∙ p in cc)) served),
)
finish_at-IsLanded now s c d r (waiting o) e w served = (
  w,
  inr (
      result_there s c (λ f. (let bad : waiting o ≡ fetching = sym e ∙ f in cc))
        (λ q p. (let bad : waiting o ≡ publishing q = sym e ∙ p in cc)) served),
)
finish_at-IsLanded now s c d r (returned o) e w served = (
  w,
  inr (
      result_there s c (λ f. (let bad : returned o ≡ fetching = sym e ∙ f in cc))
        (λ q p. (let bad : returned o ≡ publishing q = sym e ∙ p in cc)) served),
)

publish_at-IsDone :
    (s : Handshake) (c d : ℕ) (p : Phase)
    → s.phase c ≡ p
    → s.phase d ≡ waiting c
    → IsLanded s c
    → ((publish_at c p s).phase d ≡ waiting c) × IsDone (publish_at c p s) c
unfolding publish_at
publish_at-IsDone s c d (publishing q) e w landed =
    let other = apart s c d (λ h. (let bad : publishing q ≡ waiting c = sym e ∙ h in cc)) w in
    (set-other c d (returned q) s.phase other ∙ w, (q, set-here c (some q) s.result))
publish_at-IsDone s c d idle e w (inr done) = (w, done)
publish_at-IsDone s c d idle e w (inl (q, p)) =
    absurd (let bad : idle ≡ publishing q = sym e ∙ p in cc)
publish_at-IsDone s c d fetching e w (inr done) = (w, done)
publish_at-IsDone s c d fetching e w (inl (q, p)) =
    absurd (let bad : fetching ≡ publishing q = sym e ∙ p in cc)
publish_at-IsDone s c d (waiting o) e w (inr done) = (w, done)
publish_at-IsDone s c d (waiting o) e w (inl (q, p)) =
    absurd (let bad : waiting o ≡ publishing q = sym e ∙ p in cc)
publish_at-IsDone s c d (returned o) e w (inr done) = (w, done)
publish_at-IsDone s c d (returned o) e w (inl (q, p)) =
    absurd (let bad : returned o ≡ publishing q = sym e ∙ p in cc)

wake_at-returns :
    (s : Handshake) (c d : ℕ) (r : Option Text)
    → s.phase d ≡ waiting c
    → s.result c ≡ some r
    → (wake_at d (s.phase d) s).phase d ≡ returned r
unfolding wake_at wake_with
wake_at-returns s c d r w done = rw (w, done) (set-here d (returned r) s.phase)

-- However the calls of GetPublicKey interleave, a call that waits for another returns once that
-- call's fetch ends, the result is published, and the waiting call is woken, whatever of this has
-- happened before.
pub run_waiter_returns :
    (ttl now : ℕ) (events : List Event) (c d : ℕ) (r : Option Text)
    → (run ttl events new_service).phase d ≡ waiting c
    → (q : Option Text) × ((run ttl
            (finish c r now ∷ publish c ∷ wake d ∷ [])
            (run ttl events new_service)).phase
          d
        ≡ returned q)
unfolding run step
run_waiter_returns ttl now events c d r w =
    let s = run ttl events new_service in
    let served = run_waiters-IsServed ttl events d c w in
    let (w1, landed) = finish_at-IsLanded now s c d r (s.phase c) refl w served in
    let s1 = finish_at c r now (s.phase c) s in
    let (w2, (q, done)) = publish_at-IsDone s1 c d (s1.phase c) refl w1 landed in
    (q, wake_at-returns (publish_at c (s1.phase c) s1) c d q w2 done)
