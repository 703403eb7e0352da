-- ===== src/Events/Bisect.antt =====
-- Splitting a range that the node refuses loses no log and doubles none.
use hinkal_go.Prelude.{
  ℕ, zero, suc, ◌+◌, ◌*◌, ◌/◌, ◌^◌, ◌≤◌, ◌<◌, ◌≡◌, ◌≢◌, refl, ap, ◌∙◌, arith, Option, none, some,
  List, [], ◌∷◌, ◌++◌, All, select, ◌&&◌, leb, Bool, Option-cases, inl, inr, sym,
}
use native.Mathlib.Decide.{dec_le}
use hinkal_go.Prelude.Pow.{pow-double}
use hinkal_go.Events.{
  u64, wrap, retry_min_page_size, max_retries, decode_all, both, events_with_retries,
  events_for_single_contract,
}

module _ {Log : Type 0} (block : Log → ℕ) where
  abbrev pub is_between : ℕ → ℕ → Log → Bool
  is_between from to l = leb from (block l) && leb (block l) to

  -- The logs of the blocks from `from` to `to`.
  abbrev pub between : ℕ → ℕ → List Log → List Log
  between from to = select (is_between from to)

  -- In the order of the blocks.
  abbrev pub IsOrdered : List Log → Type 0
  IsOrdered [] = Unit
  IsOrdered (l ∷ logs) = All (λ l'. block l ≤ block l') logs × IsOrdered logs

  -- Behind the block `mid` the first part is empty, and the second is the whole.
  between_beyond :
      (from mid to : ℕ) (logs : List Log)
      → from ≤ mid + 1
      → All (λ l. mid < block l) logs
      → (between from mid logs ≡ []) × (between (mid + 1) to logs ≡ between from to logs)
  between_beyond from mid to [] le h = (refl, refl)
  between_beyond from mid to (l ∷ logs) le (h, hs) =
      let (empty, same) = between_beyond from mid to logs le hs in (ground arith, ground arith)

  All-beyond :
      (low mid : ℕ) (logs : List Log)
      → mid < low
      → All (λ l. low ≤ block l) logs
      → All (λ l. mid < block l) logs
  All-beyond low mid [] lt h = tt
  All-beyond low mid (l ∷ logs) lt (h, hs) = (omega arith, All-beyond low mid logs lt hs)

  pub between-split :
      (from mid to : ℕ) (logs : List Log)
      → IsOrdered logs
      → from ≤ mid + 1
      → mid ≤ to
      → between from mid logs ++ between (mid + 1) to logs ≡ between from to logs
  between-split from mid to [] ordered lo hi = refl
  between-split from mid to (l ∷ logs) (first, ordered) lo hi = elim (dec_le (block l) mid) [
    | yes early ↦ ground (arith, between-split from mid to logs ordered lo hi)
    | no late ↦
        let (empty, same) =
          between_beyond from mid to (l ∷ logs) lo
            (omega arith, All-beyond (block l) mid logs (omega arith) first) in
        rw (empty, same) refl
  ]

module _ {Address Log Event : Type 0} (filter_logs : Address → ℕ → ℕ → Option (List Log))
    (decode : Log → Option Event) (block : Log → ℕ) (chain : Address → List Log) where
  -- An answer of the node holds the logs of the range, in the order of the chain.
  abbrev pub IsFaithful : Type 0
  IsFaithful =
      ((addr : Address) (from to : ℕ) (logs : List Log)
        → filter_logs addr from to ≡ some logs
        → logs ≡ between block from to (chain addr))
      × ((addr : Address) → IsOrdered block (chain addr))

  -- The node answers for ranges of at most 101 blocks.
  abbrev pub IsResponsive : Type 0
  IsResponsive =
      (addr : Address) (from to : ℕ)
      → from ≤ to
      → to ≤ from + retry_min_page_size
      → filter_logs addr from to ≢ none

  abbrev pub events_between : Address → ℕ → ℕ → List Event
  events_between addr from to = decode_all filter_logs decode (between block from to (chain addr))

  decode_all-append :
      (xs ys : List Log)
      → decode_all filter_logs decode (xs ++ ys)
        ≡ decode_all filter_logs decode xs ++ decode_all filter_logs decode ys
  unfolding decode_all
  decode_all-append [] ys = refl
  decode_all-append (x ∷ xs) ys = ground (arith, decode_all-append xs ys)

  pub events_between-split :
      (addr : Address) (from mid to : ℕ)
      → IsOrdered block (chain addr)
      → from ≤ mid + 1
      → mid ≤ to
      → events_between addr from mid ++ events_between addr (mid + 1) to
        ≡ events_between addr from to
  events_between-split addr from mid to ordered lo hi =
      sym (
        decode_all-append (between block from mid (chain addr))
          (between block (mid + 1) to (chain addr)))
      ∙ ap (decode_all filter_logs decode)
          (between-split block from mid to (chain addr) ordered lo hi)

  answered :
      (n : ℕ) (addr : Address) (from to : ℕ) (logs : List Log)
      → filter_logs addr from to ≡ some logs
      → events_with_retries filter_logs decode n addr from to
        ≡ some (decode_all filter_logs decode logs)
  unfolding events_with_retries
  answered zero addr from to logs e = rw (e, events_with_retries) refl
  answered (suc n) addr from to logs e = rw (e, events_with_retries) refl

  -- A refused range of more than 101 blocks is split in the middle.
  halved :
      (n : ℕ) (addr : Address) (from to : ℕ)
      → filter_logs addr from to ≡ none
      → from + retry_min_page_size < to
      → to + to < u64
      → events_with_retries filter_logs decode (suc n) addr from to
        ≡ both filter_logs decode
            (events_with_retries filter_logs decode n addr from ((from + to) / 2))
            (events_with_retries filter_logs decode n addr ((from + to) / 2 + 1) to)
  unfolding events_with_retries
  halved n addr from to e wide small =
      let sum : wrap (from + to) ≡ from + to = omega arith in
      let next : wrap ((from + to) / 2 + 1) ≡ (from + to) / 2 + 1 = omega arith in
      rw (e, sum, next, events_with_retries) (ground arith)

  join :
      (n : ℕ) (addr : Address) (from mid to : ℕ)
      → IsOrdered block (chain addr)
      → from ≤ mid + 1
      → mid ≤ to
      → {a b : Option (List Event)} → a ≡ some (events_between addr from mid)
      → b ≡ some (events_between addr (mid + 1) to)
      → both filter_logs decode a b ≡ some (events_between addr from to)
  unfolding both
  join n addr from mid to ordered lo hi e f =
      rw (e, f) (ap some (events_between-split addr from mid to ordered lo hi))

  -- With a faithful node that answers small ranges, `n` retries are enough for `100 * 2 ^ n` blocks
  -- and more, and the events are those of the range, each once and in order.
  retries_suffice :
      (n : ℕ) (addr : Address) (from to : ℕ)
      → IsFaithful
      → IsResponsive
      → from ≤ to
      → to + to < u64
      → to ≤ from + 100 * 2 ^ n
      → events_with_retries filter_logs decode n addr from to ≡ some (events_between addr from to)
  retries_suffice zero addr from to faithful responsive le small range =
      elim (Option-cases (filter_logs addr from to)) [
        | inl refused ↦ absurd (responsive addr from to le range refused)
        | inr (logs, e) ↦
            answered 0 addr from to logs e
            ∙ ap (λ l. some (decode_all filter_logs decode l)) (faithful.0 addr from to logs e)
      ]
  retries_suffice (suc n) addr from to faithful responsive le small range =
      elim (Option-cases (filter_logs addr from to)) [
        | inl refused ↦ elim (dec_le to (from + retry_min_page_size)) [
          | yes narrow ↦ absurd (responsive addr from to le narrow refused)
          | no wide ↦
              let mid : ℕ = (from + to) / 2 in
              halved n addr from to refused (omega arith) small
              ∙ join n addr from mid to (faithful.1 addr) (omega arith) (omega arith)
                  (retries_suffice n addr from mid faithful responsive (omega arith) (omega arith)
                    (omega (arith, pow-double n)))
                  (retries_suffice n addr (mid + 1) to faithful responsive (omega arith) small
                    (omega (arith, pow-double n)))
        ]
        | inr (logs, e) ↦
            answered (suc n) addr from to logs e
            ∙ ap (λ l. some (decode_all filter_logs decode l)) (faithful.0 addr from to logs e)
      ]

  -- With a faithful node that answers for ranges of at most 101 blocks, and a range of at most
  -- 104857601 blocks whose end is below half of 2^64, getEventsForSingleContract returns exactly
  -- the events of the range in the chain's order: halving the ranges that the node refuses loses
  -- and doubles none, and twenty retries are enough.
  pub events_for_single_contract_complete :
      (addr : Address) (from to : ℕ)
      → IsFaithful
      → IsResponsive
      → from ≤ to
      → to + to < u64
      → to ≤ from + 100 * 2 ^ 20
      → events_for_single_contract filter_logs decode addr from to
        ≡ some (events_between addr from to)
  unfolding events_for_single_contract
  events_for_single_contract_complete = retries_suffice max_retries
