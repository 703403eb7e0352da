-- ===== src/Enclave/Request.antt =====
-- The requests and the enclave's answers: internal/types/remote_tx_build_types.go, with the fields
-- that the check reads.
use hinkal_go.Prelude.{Bool, Option, List, Text}
use hinkal_go.Enclave.Inputs.{SpeculativeUtxo}

-- `types.FeeStructureJSON`
pub record FeeStructureJson : Type 0 where
  pub fee_token : Text
  pub flat_fee : Text
  pub variable_rate : Text

-- `types.PrepareTxRequestType`; a nil slice or pointer that the code tells from an empty one is `none`.
pub record PrepareTxRequest : Type 0 where
  pub hinkal_address : Text
  pub erc20_addresses : List Text
  pub amount_changes : List Text
  pub external_address : Text
  pub original_sender : Text
  pub fee_structure : Option FeeStructureJson
  pub external_action_id : Text
  pub external_action_metadata : Text
  pub on_chain_creation : List Bool
  pub recipient_address : List Text
  pub recipient_amounts : List (List Text)
  pub self_output_amounts : Option (List Text)
  pub input_commitments : Option (List Text)
  pub create_blocked_utxos : Bool
  pub force_empty_utxos : Bool
  pub speculative : Option (List (List SpeculativeUtxo))
  pub slippage_values : Option (List Text)
  pub nullifying_key : Text
  pub spending_public_key : Text × Text

-- `types.EnclaveWitnessPreimage`, with the hash of `types.PreparedJobType`.
pub record Preimage : Type 0 where
  pub signed_message_hash : Text
  pub root_hash_hinkal : Text
  pub out_time_stamp : Text
  pub out_h1_ax : Text
  pub out_h1_ay : Text
  pub h0_ax : Text
  pub h0_ay : Text
  pub out_amounts : List (List Text)
  pub out_note_h0_ax : List (List Text)
  pub out_note_h0_ay : List (List Text)
  pub message_seed : Text
  pub encrypted_outputs : List (List Text)
  pub on_chain_encrypted_output : Text
  pub in_amounts : List (List Text)
  pub in_h0_ax : List (List Text)
  pub in_h0_ay : List (List Text)
  pub in_time_stamps : List (List Text)
  pub relay : Text

-- `types.PrepareTxResponseType`, of whose echoed request the check reads the tokens.
pub record PrepareTxResponse : Type 0 where
  pub preimage : Preimage
  pub request_erc20_addresses : List Text
