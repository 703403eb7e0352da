-- ===== src/Balance/Totals.antt =====
-- The balances are the totals of the UTXOs, and the UTXOs are those of the other filters.
use hinkal_go.Prelude.{
  ◌≡◌, inl, inr, refl, sym, ap, ◌∙◌, Bool, true, false, ◌&&◌, not, Option, none, some, List, [],
  ◌∷◌, ◌++◌, select, Text, text_eq, text_beq_iff, ◌==◌, if◌then◌else◌, Bool-cases,
}
use hinkal_go.Prelude.Int.{ℤ, pos, ◌+ℤ◌, int_laws}
use hinkal_go.Prelude.Dict.{lookup, lookup-insert}
use mathlib.Core.List.{append_assoc, append-nil}
use hinkal_go.PreTransaction.{Utxo}
use hinkal_go.Snapshot.Nullifiers.{Nullifiers}
use hinkal_go.Snapshot.Commitments.{EncryptedOutputWithSign}
use hinkal_go.Balance.{
  Balances, balance_or_zero, decoded, is_unspent, credit, count_in, compute_from, compute,
  decode_outputs, filter_spent_utxos,
}

add_assoc : (a b c : ℤ) → a +ℤ (b +ℤ c) ≡ (a +ℤ b) +ℤ c
add_assoc a b c = omega int_laws

add_comm : (a b : ℤ) → a +ℤ b ≡ b +ℤ a
add_comm a b = omega int_laws

if_append :
    (b : Bool) (us : List Utxo) (u : Utxo)
    → (if b then us ++ (u ∷ []) else us) ≡ us ++ (if b then u ∷ [] else [])
if_append true us u = refl
if_append false us u = sym (append-nil us)

select_twice :
    (p q r : Utxo → Bool) (us : List Utxo)
    → select (λ u. (p u && q u) && r u) us ≡ select (λ u. q u && r u) (select p us)
select_twice p q r [] = refl
select_twice p q r (u ∷ us) = elim (Bool-cases (p u)) [
  | inl yes_p ↦ rw (yes_p, select_twice p q r us) refl
  | inr no_p ↦ rw (no_p, select_twice p q r us) refl
]

module _ (decode_output : EncryptedOutputWithSign → Option Utxo)
    (get_nullifier : Utxo → Option Text) (token_key : Utxo → Option Text) where
  -- What a UTXO with a key adds to a token.
  abbrev pub share_of : Text → Option Text → ℤ → ℤ
  share_of token none amount = pos 0
  share_of token (some t) amount = if t == token then amount else pos 0

  -- The total of a token.
  abbrev pub total_of : Text → List Utxo → ℤ
  total_of token [] = pos 0
  total_of token (u ∷ us) = share_of token (token_key u) u.amount +ℤ total_of token us

  -- The balances are the totals.
  abbrev pub IsTotalled : Balances → Type 0
  IsTotalled res =
      (token : Text) → balance_or_zero (lookup token res.balances) ≡ total_of token res.utxos

  total_of-snoc :
      (token : Text) (us : List Utxo) (u : Utxo)
      → total_of token (us ++ (u ∷ [])) ≡ total_of token us +ℤ share_of token (token_key u) u.amount
  total_of-snoc token [] u = add_comm (share_of token (token_key u) u.amount) (pos 0)
  total_of-snoc token (v ∷ us) u =
      let own = share_of token (token_key v) v.amount in
      ap (λ (b : ℤ). own +ℤ b) (total_of-snoc token us u)
      ∙ add_assoc own (total_of token us) (share_of token (token_key u) u.amount)

  credit-balance :
      (token t : Text) (u : Utxo) (res : Balances)
      → balance_or_zero
          (lookup token (credit decode_output get_nullifier token_key u (some t) res).balances)
        ≡ balance_or_zero (lookup token res.balances) +ℤ share_of token (some t) u.amount
  unfolding credit
  credit-balance token t u res =
      let old = balance_or_zero (lookup t res.balances) in
      let written = lookup-insert t token (old +ℤ u.amount) res.balances in
      elim (Bool-cases (t == token)) [
        | inl same ↦
            let e = (text_beq_iff t token).0 same in
            rw (written, same)
              (ap (λ (k : Text). balance_or_zero (lookup k res.balances) +ℤ u.amount) e)
        | inr other ↦ rw (written, other) (omega int_laws)
      ]

  credit-IsTotalled :
      (u : Utxo) (key : Option Text) (res : Balances)
      → token_key u ≡ key
      → IsTotalled res
      → IsTotalled (credit decode_output get_nullifier token_key u key res)
  unfolding credit
  credit-IsTotalled u none res keyed h token = h token
  credit-IsTotalled u (some t) res keyed h token =
      credit-balance token t u res
      ∙ ap (λ (b : ℤ). b +ℤ share_of token (some t) u.amount) (h token)
      ∙ ap (λ (k : Option Text). total_of token res.utxos +ℤ share_of token k u.amount) (sym keyed)
      ∙ sym (total_of-snoc token res.utxos u)

  count_in-IsTotalled :
      (nullifiers : Nullifiers) (o : Option Utxo) (res : Balances)
      → IsTotalled res
      → IsTotalled (count_in decode_output get_nullifier token_key nullifiers o res)
  unfolding count_in
  count_in-IsTotalled nullifiers none res h = h
  count_in-IsTotalled nullifiers (some u) res h =
      elim (Bool-cases
        (is_unspent decode_output get_nullifier token_key nullifiers u && not u.is_blocked)) [
          | inl counted ↦ rw counted (credit-IsTotalled u (token_key u) res refl h)
          | inr left_out ↦ rw left_out h
        ]

  compute_from-IsTotalled :
      (outs : List EncryptedOutputWithSign) (nullifiers : Nullifiers) (res : Balances)
      → IsTotalled res
      → IsTotalled (compute_from decode_output get_nullifier token_key outs nullifiers res)
  unfolding compute_from
  compute_from-IsTotalled [] nullifiers res h = h
  compute_from-IsTotalled (out ∷ outs) nullifiers res h =
      compute_from-IsTotalled outs nullifiers
        (count_in decode_output get_nullifier token_key nullifiers
          (decoded decode_output get_nullifier token_key out) res)
        (count_in-IsTotalled nullifiers (decoded decode_output get_nullifier token_key out) res h)

  -- For every token the balance is the total of the UTXOs of that token that `Compute` returns.
  pub compute-balance :
      (outs : List EncryptedOutputWithSign) (nullifiers : Nullifiers) (token : Text)
      → let res = compute decode_output get_nullifier token_key outs nullifiers in
        balance_or_zero (lookup token res.balances) ≡ total_of token res.utxos
  unfolding compute lookup
  compute-balance outs nullifiers token =
      compute_from-IsTotalled outs nullifiers (record { balances = []; utxos = [] }) (λ t. refl)
        token

  -- The UTXOs that count: neither spent nor blocked, and with a token.
  abbrev pub is_keyed : Option Text → Bool
  is_keyed none = false
  is_keyed (some t) = true

  abbrev pub counts : Nullifiers → Utxo → Bool
  counts nullifiers u =
      (is_unspent decode_output get_nullifier token_key nullifiers u && not u.is_blocked)
      && is_keyed (token_key u)

  credited :
      (u : Utxo) (key : Option Text) (res : Balances)
      → (credit decode_output get_nullifier token_key u key res).utxos
        ≡ (if is_keyed key then res.utxos ++ (u ∷ []) else res.utxos)
  unfolding credit
  credited u none res = refl
  credited u (some t) res = refl

  -- What is counted of a decoded output.
  abbrev pub counted_of : Nullifiers → Option Utxo → List Utxo
  counted_of nullifiers none = []
  counted_of nullifiers (some u) = if counts nullifiers u then u ∷ [] else []

  count_in-utxos :
      (nullifiers : Nullifiers) (o : Option Utxo) (res : Balances)
      → (count_in decode_output get_nullifier token_key nullifiers o res).utxos
        ≡ res.utxos ++ counted_of nullifiers o
  unfolding count_in
  count_in-utxos nullifiers none res = sym (append-nil res.utxos)
  count_in-utxos nullifiers (some u) res =
      elim (Bool-cases
        (is_unspent decode_output get_nullifier token_key nullifiers u && not u.is_blocked)) [
          | inl usable ↦
              rw usable
                (credited u (token_key u) res ∙ if_append (is_keyed (token_key u)) res.utxos u)
          | inr left_out ↦ rw left_out (sym (append-nil res.utxos))
        ]

  select-decoded :
      (nullifiers : Nullifiers) (o : Option Utxo) (rest : List Utxo)
      → select (counts nullifiers) (elim o [ none ↦ rest | some u ↦ u ∷ rest ])
        ≡ counted_of nullifiers o ++ select (counts nullifiers) rest
  select-decoded nullifiers none rest = refl
  select-decoded nullifiers (some u) rest = elim (Bool-cases (counts nullifiers u)) [
    | inl taken ↦ rw taken refl
    | inr skipped ↦ rw skipped refl
  ]

  compute_from-utxos :
      (outs : List EncryptedOutputWithSign) (nullifiers : Nullifiers) (res : Balances)
      → (compute_from decode_output get_nullifier token_key outs nullifiers res).utxos
        ≡ res.utxos
          ++ select (counts nullifiers) (decode_outputs decode_output get_nullifier token_key outs)
  unfolding compute_from decode_outputs
  compute_from-utxos [] nullifiers res = sym (append-nil res.utxos)
  compute_from-utxos (out ∷ outs) nullifiers res =
      let o = decoded decode_output get_nullifier token_key out in
      let rest = decode_outputs decode_output get_nullifier token_key outs in
      compute_from-utxos outs nullifiers
        (count_in decode_output get_nullifier token_key nullifiers o res)
      ∙ ap (λ (us : List Utxo). us ++ select (counts nullifiers) rest)
          (count_in-utxos nullifiers o res)
      ∙ append_assoc res.utxos (counted_of nullifiers o) (select (counts nullifiers) rest)
      ∙ ap (λ (us : List Utxo). res.utxos ++ us) (sym (select-decoded nullifiers o rest))

  -- `Compute` returns, in their order, the UTXOs that `DecodeOutputs` gives and `filterSpentUtxos`
  -- leaves, without those that are blocked or have no token's key.
  pub compute-utxos :
      (outs : List EncryptedOutputWithSign) (nullifiers : Nullifiers)
      → (compute decode_output get_nullifier token_key outs nullifiers).utxos
        ≡ select
            (λ u. not u.is_blocked && is_keyed (token_key u))
            (filter_spent_utxos decode_output get_nullifier token_key
              (decode_outputs decode_output get_nullifier token_key outs)
              nullifiers)
  unfolding compute filter_spent_utxos
  compute-utxos outs nullifiers =
      compute_from-utxos outs nullifiers (record { balances = []; utxos = [] })
      ∙ select_twice (is_unspent decode_output get_nullifier token_key nullifiers)
          (λ u. not u.is_blocked) (λ u. is_keyed (token_key u))
          (decode_outputs decode_output get_nullifier token_key outs)
