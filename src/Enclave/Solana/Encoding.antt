-- ===== src/Enclave/Solana/Encoding.antt =====
-- The bytes that a Solana message is hashed from determine its fields.
use native.Mathlib.Nat.{div-add-mod', pow-succ'}
use hinkal_go.Prelude.{
  ℕ, zero, suc, ◌+◌, ◌*◌, ◌/◌, ◌%◌, ◌^◌, ◌<◌, ◌≡◌, refl, sym, ap, ◌∙◌, arith, List, [], ◌∷◌, ◌++◌,
  length, Result, ok, err, bind_ok, ok-injective, leb, leb→lt, map, Bool-cases, inl, inr,
  length-append,
}
use hinkal_go.Prelude.Int.{ℤ, pos, abs_ℕ}
use hinkal_go.Enclave.{EnclaveError, too_wide, Bytes}
use hinkal_go.Enclave.CallData.{set_bytes}
use hinkal_go.Enclave.Solana.{
  big_endian, fill_bytes, bytes32_all, length_prefixed, ◌then_append◌, SolanaMessage,
  solana_preimage,
}

length-big_endian : (width n : ℕ) → length (big_endian width n) ≡ width
unfolding big_endian
length-big_endian zero n = refl
length-big_endian (suc width) n = omega (
  arith,
  length-append (big_endian width (n / 256)) (n % 256 ∷ []),
  length-big_endian width (n / 256),
)

set_bytes-append :
    (acc b : ℕ) (bytes : Bytes) → set_bytes acc (bytes ++ b ∷ []) ≡ set_bytes acc bytes * 256 + b
unfolding set_bytes
set_bytes-append acc b [] = refl
set_bytes-append acc b (c ∷ bytes) = set_bytes-append (acc * 256 + c) b bytes

-- The number of the bytes of a number that fits is the number.
set_bytes-big_endian : (width n : ℕ) → n < 256 ^ width → set_bytes 0 (big_endian width n) ≡ n
unfolding set_bytes big_endian
set_bytes-big_endian zero n h = omega arith
set_bytes-big_endian (suc width) n h =
    let smaller : n / 256 < 256 ^ width = omega (arith, pow-succ' 256 width) in
    set_bytes-append 0 (n % 256) (big_endian width (n / 256))
    ∙ ap (λ (m : ℕ). m * 256 + n % 256) (set_bytes-big_endian width (n / 256) smaller)
    ∙ div-add-mod' n 256

refused : {A : Type 0} {a : A} (x : EnclaveError) → Path (Result EnclaveError A) (err x) (ok a) → ⊥
refused x e = cc

-- What a field of a width appends, and that it determines the number up to its sign.
fill_bytes-lem :
    (width : ℕ) (value : ℤ) (bytes : Bytes)
    → fill_bytes width value ≡ ok bytes
    → (length bytes ≡ width) × (set_bytes 0 bytes ≡ abs_ℕ value)
unfolding fill_bytes
fill_bytes-lem width value bytes e = elim (Bool-cases (leb (256 ^ width) (abs_ℕ value))) [
  | inl wide ↦ absurd (refused too_wide (rw (fill_bytes, wide) at e))
  | inr fits ↦
      let is : big_endian width (abs_ℕ value) ≡ bytes = ok-injective (rw (fill_bytes, fits) at e) in
      let small : abs_ℕ value < 256 ^ width = leb→lt (256 ^ width) (abs_ℕ value) fits in
      (
        ap length (sym is) ∙ length-big_endian width (abs_ℕ value),
        ap (set_bytes 0) (sym is) ∙ set_bytes-big_endian width (abs_ℕ value) small,
      )
]

append_inj :
    (xs xs' ys ys' : Bytes)
    → length xs ≡ length xs'
    → xs ++ ys ≡ xs' ++ ys'
    → (xs ≡ xs') × (ys ≡ ys')
append_inj [] [] ys ys' size e = (refl, e)
append_inj [] (x ∷ xs') ys ys' size e = absurd (omega arith)
append_inj (x ∷ xs) [] ys ys' size e = absurd (omega arith)
append_inj (x ∷ xs) (x' ∷ xs') ys ys' size e =
    let head : x ≡ x' = cc in
    let tail : xs ++ ys ≡ xs' ++ ys' = cc in
    let (same, rest) = append_inj xs xs' ys ys' (omega arith) tail in (cc, rest)

append_assoc : (xs ys zs : Bytes) → (xs ++ ys) ++ zs ≡ xs ++ (ys ++ zs)
append_assoc [] ys zs = refl
append_assoc (x ∷ xs) ys zs = ap (◌∷◌ x) (append_assoc xs ys zs)

-- Where two writers give bytes that go on in some way to the same bytes, what they wrote agrees and
-- the bytes go on in the same way.
abbrev Agrees : Result EnclaveError Bytes → Result EnclaveError Bytes → Type 0 → Type 0
Agrees m m' P = (b b' r r' : Bytes) → m ≡ ok b → m' ≡ ok b' → b ++ r ≡ b' ++ r' → P × (r ≡ r')

Agrees-then :
    {P Q : Type 0} (m m' k k' : Result EnclaveError Bytes)
    → Agrees m m' P
    → (P → Agrees k k' Q)
    → Agrees (m then_append k) (m' then_append k') (P × Q)
unfolding ◌then_append◌
Agrees-then m m' k k' first rest b b' r r' e e' same =
    let (x, mx, later) = bind_ok m _ e in
    let (y, ky, made) = bind_ok k _ later in
    let (x', mx', later') = bind_ok m' _ e' in
    let (y', ky', made') = bind_ok k' _ later' in
    let split : x ++ (y ++ r) ≡ x' ++ (y' ++ r') =
      sym (append_assoc x y r)
      ∙ ap (λ (z : Bytes). z ++ r) (ok-injective made)
      ∙ same
      ∙ ap (λ (z : Bytes). z ++ r') (sym (ok-injective made'))
      ∙ append_assoc x' y' r' in
    let (p, after) = first x x' (y ++ r) (y' ++ r') mx mx' split in
    let (q, end) = rest p y y' r r' ky ky' after in ((p, q), end)

infixr 30 ◌and_then◌
◌and_then◌ :
    {P Q : Type 0} {m m' k k' : Result EnclaveError Bytes}
    → Agrees m m' P
    → Agrees k k' Q
    → Agrees (m then_append k) (m' then_append k') (P × Q)
◌and_then◌ {m} {m'} {k} {k'} first rest = Agrees-then m m' k k' first (λ _. rest)

fill_bytes-Agrees :
    (width : ℕ) (v v' : ℤ) → Agrees (fill_bytes width v) (fill_bytes width v') (abs_ℕ v ≡ abs_ℕ v')
fill_bytes-Agrees width v v' b b' r r' e e' same =
    let (size, value) = fill_bytes-lem width v b e in
    let (size', value') = fill_bytes-lem width v' b' e' in
    let (bytes, rest) = append_inj b b' r r' (size ∙ sym size') same in
    (sym value ∙ ap (set_bytes 0) bytes ∙ value', rest)

bytes32_all-Agrees :
    (vs vs' : List ℤ)
    → length vs ≡ length vs'
    → Agrees (bytes32_all vs) (bytes32_all vs') (map abs_ℕ vs ≡ map abs_ℕ vs')
unfolding bytes32_all ◌then_append◌
bytes32_all-Agrees [] [] size b b' r r' e e' same = (
  refl,
  ap (λ (z : Bytes). z ++ r) (ok-injective e)
      ∙ same
      ∙ ap (λ (z : Bytes). z ++ r') (sym (ok-injective e')),
)
bytes32_all-Agrees [] (v' ∷ vs') size b b' r r' e e' same = absurd (omega arith)
bytes32_all-Agrees (v ∷ vs) [] size b b' r r' e e' same = absurd (omega arith)
bytes32_all-Agrees (v ∷ vs) (v' ∷ vs') size b b' r r' e e' same =
    let ((head, tail), rest) =
      Agrees-then (fill_bytes 32 v) (fill_bytes 32 v') (bytes32_all vs) (bytes32_all vs')
        (fill_bytes-Agrees 32 v v') (λ _. bytes32_all-Agrees vs vs' (omega arith)) b b' r r' e e'
        same in
    (cc, rest)

length_prefixed-Agrees :
    (vs vs' : List ℤ)
    → Agrees (length_prefixed vs) (length_prefixed vs') (map abs_ℕ vs ≡ map abs_ℕ vs')
unfolding length_prefixed
length_prefixed-Agrees vs vs' b b' r r' e e' same =
    let ((size, values), rest) =
      Agrees-then (fill_bytes 8 (pos (length vs))) (fill_bytes 8 (pos (length vs')))
        (bytes32_all vs) (bytes32_all vs')
        (fill_bytes-Agrees 8 (pos (length vs)) (pos (length vs')))
        (λ sizes. bytes32_all-Agrees vs vs' (omega arith)) b b' r r' e e' same in
    (values, rest)

-- Two messages with the same fields, up to the signs of numbers.
pub record IsSameMessage (m m' : SolanaMessage) : Type 0 where
  pub root_hash_hinkal_same : abs_ℕ m.root_hash_hinkal ≡ abs_ℕ m'.root_hash_hinkal
  pub mint_account_part1_same : map abs_ℕ m.mint_account_part1 ≡ map abs_ℕ m'.mint_account_part1
  pub mint_account_part2_same : map abs_ℕ m.mint_account_part2 ≡ map abs_ℕ m'.mint_account_part2
  pub amount_changes_same : map abs_ℕ m.amount_changes ≡ map abs_ℕ m'.amount_changes
  pub out_time_stamp_same : abs_ℕ m.out_time_stamp ≡ abs_ℕ m'.out_time_stamp
  pub in_nullifiers_same : map abs_ℕ m.in_nullifiers ≡ map abs_ℕ m'.in_nullifiers
  pub out_commitments_same : map abs_ℕ m.out_commitments ≡ map abs_ℕ m'.out_commitments
  pub calldata_hash_same : abs_ℕ m.calldata_hash ≡ abs_ℕ m'.calldata_hash
  pub message_same : abs_ℕ m.message ≡ abs_ℕ m'.message
  pub seed_same : abs_ℕ m.swapper_account_additional_seed ≡ abs_ℕ m'.swapper_account_additional_seed
  pub out_h1_ay_same : abs_ℕ m.out_h1_ay ≡ abs_ℕ m'.out_h1_ay
  pub h0_ax_same : abs_ℕ m.h0_ax ≡ abs_ℕ m'.h0_ax
  pub h0_ay_same : abs_ℕ m.h0_ay ≡ abs_ℕ m'.h0_ay

-- Two Solana messages that are hashed from the same bytes have the same fields, up to the signs of
-- the numbers.
pub solana_preimage-injective :
    (m m' : SolanaMessage) (bytes : Bytes)
    → solana_preimage m ≡ ok bytes
    → solana_preimage m' ≡ ok bytes
    → IsSameMessage m m'
unfolding solana_preimage
solana_preimage-injective m m' bytes e e' =
    let fields =
      (fill_bytes-Agrees 32 m.root_hash_hinkal m'.root_hash_hinkal
          and_then length_prefixed-Agrees m.mint_account_part1 m'.mint_account_part1
          and_then length_prefixed-Agrees m.mint_account_part2 m'.mint_account_part2
          and_then length_prefixed-Agrees m.amount_changes m'.amount_changes
          and_then fill_bytes-Agrees 32 m.out_time_stamp m'.out_time_stamp
          and_then length_prefixed-Agrees m.in_nullifiers m'.in_nullifiers
          and_then length_prefixed-Agrees m.out_commitments m'.out_commitments
          and_then fill_bytes-Agrees 32 m.calldata_hash m'.calldata_hash
          and_then fill_bytes-Agrees 32 m.message m'.message
          and_then fill_bytes-Agrees 32 m.swapper_account_additional_seed
              m'.swapper_account_additional_seed
          and_then fill_bytes-Agrees 32 m.out_h1_ay m'.out_h1_ay
          and_then fill_bytes-Agrees 32 m.h0_ax m'.h0_ax
          and_then fill_bytes-Agrees 32 m.h0_ay m'.h0_ay)
        bytes bytes [] [] e e' refl in
    let (root, (part1, (part2, (changes, (time, (nulls, (comms, rest))))))) = fields.0 in
    let (calldata, (message, (seed, (h1, (ax, ay))))) = rest in
    record {
      root_hash_hinkal_same = root;
      mint_account_part1_same = part1;
      mint_account_part2_same = part2;
      amount_changes_same = changes;
      out_time_stamp_same = time;
      in_nullifiers_same = nulls;
      out_commitments_same = comms;
      calldata_hash_same = calldata;
      message_same = message;
      seed_same = seed;
      out_h1_ay_same = h1;
      h0_ax_same = ax;
      h0_ay_same = ay;
    }
