-- ===== src/Enclave/Accepted.antt =====
-- What the check of an EVM or Tron answer accepts.
pub mod Keeps
use mathlib.Core.Path.{subst}
use hinkal_go.Prelude.{
  ℕ, ◌≡◌, ◌↔◌, ◌≢◌, Bool-cases, inl, inr, refl, sym, ap, ◌∙◌, arith, Bool, true, false, not, Option,
  none, some, List, [], ◌∷◌, get_elem?, Text, text_eq, if◌then◌else◌, Result, ok, err, ◌>>=◌, ◌>>◌,
  fail_if, bind_ok, fail_if_ok, ok-injective,
}
use hinkal_go.Prelude.Sets.{is_member, IsDistinct}
use hinkal_go.Prelude.Int.{ℤ, beq_ℤ}
use hinkal_go.Numbers.{int_text}
use hinkal_go.Enclave.{
  EnclaveError, hash_mismatch, Library, big_int, strings_to_big_ints, flat_to_big_ints, is_zero,
}
use hinkal_go.Enclave.Compare.{beq_ℤ-eq, beq_ℤ-refl, beq_ℤ-differ, big_int-int_text}
use hinkal_go.Enclave.Inputs.{spend, compute_in_nullifiers}
use hinkal_go.Enclave.Outputs.{self_slot_count, compute_out_commitments}
use hinkal_go.Enclave.Amounts.{assert_amounts_conserve, compute_amount_changes_signed}
use hinkal_go.Enclave.CallData.{SignedMessage}
use hinkal_go.Enclave.Request.{PrepareTxRequest, Preimage, PrepareTxResponse}
use hinkal_go.Enclave.Response.{
  Recomputed, assert_stealth_pair_owned, compute_calldata_hash_and_message, recompute_hash,
  assert_signed_message_hash_matches, authorised_commitments, verify_prepare_tx_response,
}
use hinkal_go.Enclave.Spent.{IsSlot}
use hinkal_go.Enclave.Spent.Authorised.{compute_in_nullifiers-authorised}
use hinkal_go.Enclave.Conserved.{TokenBalance, assert_amounts_conserve-balanced}

-- The hash is the one of the message that is made of the given data.
pub record IsHashOf (lib : Library) (chain_id : ℕ) (hinkal_address : Text) (p : Preimage)
    (tokens : List Text) (in_nullifiers out_commitments : List (List Text)) (r : Recomputed)
    (hash : ℤ) : Type 0 where
  pub root_hash_hinkal : ℤ
  pub out_time_stamp : ℤ
  pub nullifiers_flat : List ℤ
  pub commitments_flat : List ℤ
  pub root_is : big_int p.root_hash_hinkal ≡ ok root_hash_hinkal
  pub time_is : big_int p.out_time_stamp ≡ ok out_time_stamp
  pub nullifiers_are : flat_to_big_ints in_nullifiers ≡ ok nullifiers_flat
  pub commitments_are : flat_to_big_ints out_commitments ≡ ok commitments_flat
  pub recomputed_is :
      recompute_hash lib chain_id hinkal_address p (record {
        root_hash_hinkal = root_hash_hinkal;
        erc20_token_addresses = tokens;
        amount_changes = r.amount_changes;
        out_time_stamp = out_time_stamp;
        in_nullifiers_flat = nullifiers_flat;
        out_commitments_flat = commitments_flat;
        calldata_hash = r.calldata_hash;
        message = r.message;
      })
      ≡ ok hash

-- What an answer has to satisfy: each of its parts, and the hash that is made of all of them.
pub record IsPrepared (lib : Library) (chain_id : ℕ) (payload : PrepareTxRequest)
    (response : PrepareTxResponse) (hash : ℤ) : Type 0 where
  pub authorised : Option (List Text)
  pub in_nullifiers : List (List Text)
  pub out_commitments : List (List Text)
  pub recomputed : Recomputed
  pub authorised_is : authorised_commitments lib payload ≡ ok authorised
  pub nullifiers_are :
      compute_in_nullifiers lib payload.erc20_addresses response.preimage.in_amounts
        response.preimage.in_h0_ax response.preimage.in_h0_ay response.preimage.in_time_stamps
        payload.nullifying_key payload.spending_public_key authorised
      ≡ ok in_nullifiers
  pub commitments_are :
      compute_out_commitments lib payload.erc20_addresses payload.self_output_amounts
        response.preimage.out_amounts response.preimage.out_note_h0_ax
        response.preimage.out_note_h0_ay response.preimage.out_time_stamp payload.nullifying_key
        payload.spending_public_key payload.recipient_address payload.recipient_amounts
      ≡ ok out_commitments
  pub conserved :
      assert_amounts_conserve payload.erc20_addresses response.preimage.in_amounts
        response.preimage.out_amounts payload.self_output_amounts payload.amount_changes
      ≡ ok tt
  pub pair_owned :
      assert_stealth_pair_owned lib payload.on_chain_creation response.preimage.h0_ax
        response.preimage.h0_ay response.preimage.out_h1_ax response.preimage.out_h1_ay
        payload.nullifying_key
      ≡ ok tt
  pub recomputed_is :
      compute_calldata_hash_and_message lib chain_id payload response.preimage in_nullifiers
        out_commitments
      ≡ ok recomputed
  pub hash_is :
      IsHashOf lib chain_id payload.hinkal_address response.preimage
        response.request_erc20_addresses in_nullifiers out_commitments recomputed hash

-- The answer with another text as its hash.
abbrev pub with_hash : Text → PrepareTxResponse → PrepareTxResponse
with_hash text response = record response {
  preimage = record response.preimage { signed_message_hash = text };
}

module _ (lib : Library) where
  -- The comparison of the hash, of data that has one.
  assert_signed_message_hash_matches-IsHashOf :
      (chain_id : ℕ) (hinkal_address : Text) (p : Preimage) (tokens : List Text)
      (ns cs : List (List Text)) (r : Recomputed) (hash : ℤ)
      → IsHashOf lib chain_id hinkal_address p tokens ns cs r hash
      → assert_signed_message_hash_matches lib chain_id hinkal_address p tokens ns cs r ≡ (
          big_int p.signed_message_hash >>= λ expected.
          fail_if (not (beq_ℤ hash expected)) hash_mismatch)
  unfolding assert_signed_message_hash_matches
  assert_signed_message_hash_matches-IsHashOf chain_id hinkal_address p tokens ns cs r hash s =
      rw (s.root_is, s.time_is, s.nullifiers_are, s.commitments_are, s.recomputed_is) refl

  assert_signed_message_hash_matches-hash :
      (chain_id : ℕ) (hinkal_address : Text) (p : Preimage) (tokens : List Text)
      (ns cs : List (List Text)) (r : Recomputed)
      → assert_signed_message_hash_matches lib chain_id hinkal_address p tokens ns cs r ≡ ok tt
      → (hash : ℤ) × IsHashOf lib chain_id hinkal_address p tokens ns cs r hash
        × (big_int p.signed_message_hash ≡ ok hash)
  unfolding assert_signed_message_hash_matches
  assert_signed_message_hash_matches-hash chain_id hinkal_address p tokens ns cs r e =
      let (root, root_is, later) = bind_ok (big_int p.root_hash_hinkal) _ e in
      let (time, time_is, after_time) = bind_ok (big_int p.out_time_stamp) _ later in
      let (nf, nullifiers_are, after_n) = bind_ok (flat_to_big_ints ns) _ after_time in
      let (cf, commitments_are, after_c) = bind_ok (flat_to_big_ints cs) _ after_n in
      let (hash, recomputed_is, after_hash) =
        bind_ok
          (recompute_hash lib chain_id hinkal_address p (record {
            root_hash_hinkal = root;
            erc20_token_addresses = tokens;
            amount_changes = r.amount_changes;
            out_time_stamp = time;
            in_nullifiers_flat = nf;
            out_commitments_flat = cf;
            calldata_hash = r.calldata_hash;
            message = r.message;
          }))
          _ after_c in
      let (expected, parsed, compared) = bind_ok (big_int p.signed_message_hash) _ after_hash in
      let same = beq_ℤ-eq hash expected (fail_if_ok _ hash_mismatch compared) in
      (
        hash,
        record {
          root_hash_hinkal = root;
          out_time_stamp = time;
          nullifiers_flat = nf;
          commitments_flat = cf;
          root_is = root_is;
          time_is = time_is;
          nullifiers_are = nullifiers_are;
          commitments_are = commitments_are;
          recomputed_is = recomputed_is;
        },
        parsed ∙ ap ok (sym same),
      )

  -- The check of a prepared answer is the comparison of its hash.
  verify_prepare_tx_response-IsPrepared :
      (chain_id : ℕ) (payload : PrepareTxRequest) (response : PrepareTxResponse) (hash : ℤ)
      → IsPrepared lib chain_id payload response hash
      → verify_prepare_tx_response lib chain_id payload response ≡ (
          big_int response.preimage.signed_message_hash >>= λ expected.
          fail_if (not (beq_ℤ hash expected)) hash_mismatch)
  unfolding verify_prepare_tx_response
  verify_prepare_tx_response-IsPrepared chain_id payload response hash a =
      rw
        (
          a.authorised_is, a.nullifiers_are, a.commitments_are, a.conserved, a.pair_owned,
          a.recomputed_is,
        )
        (assert_signed_message_hash_matches-IsHashOf chain_id payload.hinkal_address
          response.preimage response.request_erc20_addresses a.in_nullifiers a.out_commitments
          a.recomputed hash a.hash_is)

  -- No part of an answer but the comparison reads its hash.
  rehashed :
      (chain_id : ℕ) (payload : PrepareTxRequest) (response : PrepareTxResponse) (hash : ℤ)
      (text : Text)
      → IsPrepared lib chain_id payload response hash
      → IsPrepared lib chain_id payload (with_hash text response) hash
  unfolding compute_calldata_hash_and_message recompute_hash
  rehashed chain_id payload response hash text a = record {
    authorised = a.authorised;
    in_nullifiers = a.in_nullifiers;
    out_commitments = a.out_commitments;
    recomputed = a.recomputed;
    authorised_is = a.authorised_is;
    nullifiers_are = a.nullifiers_are;
    commitments_are = a.commitments_are;
    conserved = a.conserved;
    pair_owned = a.pair_owned;
    recomputed_is = a.recomputed_is;
    hash_is = record {
      root_hash_hinkal = a.hash_is.root_hash_hinkal;
      out_time_stamp = a.hash_is.out_time_stamp;
      nullifiers_flat = a.hash_is.nullifiers_flat;
      commitments_flat = a.hash_is.commitments_flat;
      root_is = a.hash_is.root_is;
      time_is = a.hash_is.time_is;
      nullifiers_are = a.hash_is.nullifiers_are;
      commitments_are = a.hash_is.commitments_are;
      recomputed_is = a.hash_is.recomputed_is;
    };
  }

  pub verify_prepare_tx_response_gives :
      (chain_id : ℕ) (payload : PrepareTxRequest) (response : PrepareTxResponse)
      → verify_prepare_tx_response lib chain_id payload response ≡ ok tt
      → (hash : ℤ) × IsPrepared lib chain_id payload response hash
        × (big_int response.preimage.signed_message_hash ≡ ok hash)
  unfolding verify_prepare_tx_response
  verify_prepare_tx_response_gives chain_id payload response e =
      let p = response.preimage in
      let (authorised, authorised_is, later1) = bind_ok (authorised_commitments lib payload) _ e in
      let (ns, nullifiers_are, later2) =
        bind_ok
          (compute_in_nullifiers lib payload.erc20_addresses p.in_amounts p.in_h0_ax p.in_h0_ay
            p.in_time_stamps payload.nullifying_key payload.spending_public_key authorised)
          _ later1 in
      let (cs, commitments_are, later3) =
        bind_ok
          (compute_out_commitments lib payload.erc20_addresses payload.self_output_amounts
            p.out_amounts p.out_note_h0_ax p.out_note_h0_ay p.out_time_stamp payload.nullifying_key
            payload.spending_public_key payload.recipient_address payload.recipient_amounts)
          _ later2 in
      let (t1, conserved, later4) =
        bind_ok
          (assert_amounts_conserve payload.erc20_addresses p.in_amounts p.out_amounts
            payload.self_output_amounts payload.amount_changes)
          _ later3 in
      let (t2, pair_owned, later5) =
        bind_ok
          (assert_stealth_pair_owned lib payload.on_chain_creation p.h0_ax p.h0_ay p.out_h1_ax
            p.out_h1_ay payload.nullifying_key)
          _ later4 in
      let (recomputed, recomputed_is, later6) =
        bind_ok (compute_calldata_hash_and_message lib chain_id payload p ns cs) _ later5 in
      let (hash, hash_is, signed) =
        assert_signed_message_hash_matches-hash chain_id payload.hinkal_address p
          response.request_erc20_addresses ns cs recomputed later6 in
      (
        hash,
        record {
          authorised = authorised;
          in_nullifiers = ns;
          out_commitments = cs;
          recomputed = recomputed;
          authorised_is = authorised_is;
          nullifiers_are = nullifiers_are;
          commitments_are = commitments_are;
          conserved = conserved;
          pair_owned = pair_owned;
          recomputed_is = recomputed_is;
          hash_is = hash_is;
        },
        signed,
      )

  -- Take an accepted answer, whose hash reads as a number, and put another text in place of the hash,
  -- which reads as `other`. The answer is then accepted where `other` is that number, and refused with
  -- the error of the hash where it is not.
  pub verify_prepare_tx_response-rehashed :
      (chain_id : ℕ) (payload : PrepareTxRequest) (response : PrepareTxResponse) (hash other : ℤ)
      (text : Text)
      → verify_prepare_tx_response lib chain_id payload response ≡ ok tt
      → big_int response.preimage.signed_message_hash ≡ ok hash
      → big_int text ≡ ok other
      → verify_prepare_tx_response lib chain_id payload (with_hash text response)
        ≡ (if beq_ℤ hash other then ok tt else err hash_mismatch)
  verify_prepare_tx_response-rehashed chain_id payload response hash other text accepted read
        given =
      let (made, prepared, signed) =
        verify_prepare_tx_response_gives chain_id payload response accepted in
      let same : made ≡ hash = ok-injective (sym signed ∙ read) in
      verify_prepare_tx_response-IsPrepared chain_id payload (with_hash text response) made
        (rehashed chain_id payload response made text prepared)
      ∙ rw (given, same)
          (elim (Bool-cases (beq_ℤ hash other)) [ inl e ↦ rw e refl | inr e ↦ rw e refl ])
