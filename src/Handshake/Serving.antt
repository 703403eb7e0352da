-- ===== src/Handshake/Serving.antt =====
-- What every step of the calls keeps: the call in flight fetches, and each waiting call is served.
use mathlib.Core.Path.{subst}
use hinkal_go.Prelude.{
  ℕ, ◌≡◌, ◌⊎◌, inl, inr, refl, sym, ap, ◌∙◌, true, false, Option, some, Text, text_eq, nat_eq,
  nat_beq_iff, ◌==◌, Bool-cases, eq_refl,
}
use hinkal_go.Handshake.{Phase, fetching, publishing, waiting, Handshake, new_service, set, go_to}

-- A call object has a result, or will have one: its owner fetches or publishes.
abbrev pub IsServed : Handshake → ℕ → Type 0
IsServed s c =
    (s.phase c ≡ fetching)
    ⊎ ((r : Option Text) × (s.phase c ≡ publishing r))
    ⊎ ((r : Option Text) × (s.result c ≡ some r))

-- The call in flight is the one that fetches, and every call that waits is served.
pub record IsFlying (s : Handshake) : Type 0 where
  pub owner_fetches : (c : ℕ) → s.in_flight ≡ some c → s.phase c ≡ fetching
  pub fetching_owns : (c : ℕ) → s.phase c ≡ fetching → s.in_flight ≡ some c
  pub waiters_served : (d c : ℕ) → s.phase d ≡ waiting c → IsServed s c

pub new_service-IsFlying : IsFlying new_service
new_service-IsFlying = record {
  owner_fetches = λ c e. cc;
  fetching_owns = λ c e. cc;
  waiters_served = λ d c e. absurd (cc);
}

pub equal : (d c : ℕ) → (d == c) ≡ true → d ≡ c
equal d c e = (nat_beq_iff d c).0 e

pub set-here : {A : Type 0} (c : ℕ) (a : A) (f : ℕ → A) → set c a f c ≡ a
set-here c a f = rw (eq_refl c) refl

pub set-other : {A : Type 0} (c d : ℕ) (a : A) (f : ℕ → A) → (d == c) ≡ false → set c a f d ≡ f d
set-other c d a f e = rw e refl

-- A call that neither fetches nor publishes takes no service away when it goes on.
pub IsServed-kept :
    (s t : Handshake) (c o : ℕ)
    → ((d : ℕ) → (d == c) ≡ false → t.phase d ≡ s.phase d)
    → ((d : ℕ) (r : Option Text) → s.result d ≡ some r → (q : Option Text) × (t.result d ≡ some q))
    → IsServed t c
      ⊎ ((s.phase c ≡ fetching → ⊥) × ((r : Option Text) → s.phase c ≡ publishing r → ⊥))
    → IsServed s o
    → IsServed t o
IsServed-kept s t c o others kept here served = elim (Bool-cases (o == c)) [
  | inr apart ↦ elim served [
    | inl f ↦ inl (others o apart ∙ f)
    | inr rest ↦ elim rest [
      | inl (r, p) ↦ inr (inl (r, others o apart ∙ p))
      | inr (r, p) ↦ inr (inr (kept o r p))
    ]
  ]
  | inl same ↦ elim here [
    | inl already ↦ subst (IsServed t) (sym (equal o c same)) already
    | inr (not_f, not_p) ↦ elim served [
      | inl f ↦ absurd (not_f (ap s.phase (sym (equal o c same)) ∙ f))
      | inr rest ↦ elim rest [
        | inl (r, p) ↦ absurd (not_p r (ap s.phase (sym (equal o c same)) ∙ p))
        | inr (r, p) ↦ inr (inr (kept o r p))
      ]
    ]
  ]
]

-- Such a call may go to a phase that does not fetch, and wait for a call that is served.
pub go_to-IsFlying :
    (s : Handshake) (c : ℕ) (p : Phase)
    → IsFlying s
    → (s.phase c ≡ fetching → ⊥)
    → ((r : Option Text) → s.phase c ≡ publishing r → ⊥)
    → (p ≡ fetching → ⊥)
    → ((o : ℕ) → p ≡ waiting o → IsServed s o)
    → IsFlying (go_to c p s)
go_to-IsFlying s c p k not_f not_p new_f new_w =
    let others = λ (d : ℕ) (e : (d == c) ≡ false). set-other c d p s.phase e in
    let keep =
      λ (o : ℕ). IsServed-kept s (go_to c p s) c o others (λ d r h. (r, h)) (inr (not_f, not_p)) in
    record {
      owner_fetches = λ d e. elim (Bool-cases (d == c)) [
        | inl same ↦ absurd (not_f (ap s.phase (sym (equal d c same)) ∙ k.owner_fetches d e))
        | inr apart ↦ others d apart ∙ k.owner_fetches d e
      ];
      fetching_owns = λ d e. elim (Bool-cases (d == c)) [
        | inl same ↦
            absurd
              (new_f (sym (set-here c p s.phase) ∙ ap (set c p s.phase) (sym (equal d c same)) ∙ e))
        | inr apart ↦ k.fetching_owns d (sym (others d apart) ∙ e)
      ];
      waiters_served = λ d o e. elim (Bool-cases (d == c)) [
        | inl same ↦
            keep o (
              new_w o
                (sym (set-here c p s.phase) ∙ ap (set c p s.phase) (sym (equal d c same)) ∙ e))
        | inr apart ↦ keep o (k.waiters_served d o (sym (others d apart) ∙ e))
      ];
    }
