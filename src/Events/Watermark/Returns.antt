-- ===== src/Events/Watermark/Returns.antt =====
-- Every call returns: a call that takes its steps alone returns within three.
use hinkal_go.Prelude.{
  ℕ, zero, suc, ◌≡◌, refl, sym, arith, List, [], ◌∷◌, length, map, All, ◌==◌, nat_eq, true, false,
}
use mathlib.Core.Path.{subst}
use native.Mathlib.Decide.{ℕ_discrete, dec_le}
use hinkal_go.Events.Watermark.{
  Call, loading, swapping, returned, advance_step, advance_at, advance_all,
}
use hinkal_go.Events.Watermark.Highest.{IsReturned, leb-yes, leb-no}

abbrev step_of : ℕ × Call → ℕ × Call
step_of (value, c) = advance_step value c

loading_alone : (value v : ℕ) → IsReturned (step_of (step_of (value, loading v))).1
unfolding advance_step
loading_alone value v = elim (dec_le v value) [
  | yes le ↦ rw (leb-yes v value le) tt
  | no gt ↦
      let same : (value == value) ≡ true = ground arith in
      rw (leb-no v value (omega arith), same) tt
]

step_of-IsReturned : (s : ℕ × Call) → IsReturned s.1 → IsReturned (step_of s).1
unfolding advance_step
step_of-IsReturned (value, returned v) r = r
step_of-IsReturned (value, loading v) r = absurd r
step_of-IsReturned (value, swapping v cur) r = absurd r

alone : (value : ℕ) (c : Call) → IsReturned (step_of (step_of (step_of (value, c)))).1
unfolding advance_step
alone value (loading v) =
    step_of-IsReturned (step_of (step_of (value, loading v))) (loading_alone value v)
alone value (returned v) = tt
alone value (swapping v cur) = elim (ℕ_discrete value cur) [
  | yes e ↦ let same : (value == cur) ≡ true = ground arith in rw same tt
  | no other ↦
      let differ : (value == cur) ≡ false = ground arith in rw differ (loading_alone value v)
]

-- Each of `n` calls takes three steps, one call after the other.
abbrev pub in_turn : ℕ → List ℕ
in_turn zero = []
in_turn (suc n) = 0 ∷ 0 ∷ 0 ∷ map suc (in_turn n)

abbrev behind : Call → ℕ × List Call → ℕ × List Call
behind c (value, cs) = (value, c ∷ cs)

all-behind :
    (schedule : List ℕ) (value : ℕ) (c : Call) (cs : List Call)
    → advance_all (map suc schedule) value (c ∷ cs) ≡ behind c (advance_all schedule value cs)
unfolding advance_all advance_at
all-behind [] value c cs = refl
all-behind (place ∷ schedule) value c cs =
    all-behind schedule (advance_at value place cs).0 c (advance_at value place cs).1

-- From any state of the calls and any value, when each call takes three steps in turn, all of them
-- return.
pub in_turn-IsReturned :
    (value : ℕ) (cs : List Call) → All IsReturned (advance_all (in_turn (length cs)) value cs).1
unfolding advance_all advance_at
in_turn-IsReturned value [] = tt
in_turn-IsReturned value (c ∷ cs) =
    let (v1, c1) = step_of (step_of (step_of (value, c))) in
    subst (λ (s : ℕ × List Call). All IsReturned s.1)
      (sym (all-behind (in_turn (length cs)) v1 c1 cs)) (alone value c, in_turn-IsReturned v1 cs)
