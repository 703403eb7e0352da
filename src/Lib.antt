-- ===== src/Lib.antt =====
-- A verification of hinkal-go, the Go client of the Hinkal protocol: a shielded pool whose deposits
-- are commitments in a Merkle tree and whose spending publishes nullifiers. The client follows the
-- contract's logs, keeps the tree and the set of nullifiers, computes fees, and builds transactions.
-- Modelled are the parts on which the client's view of the pool rests.
--
-- Parts and files
--   Merkle (internal/data-structures/merkletree/impl.go): `merkleTreeImpl` is the record
--     `MerkleTree`; `New`, `Insert`, `Remove`, `GetRootHash`, `LastLeaves`, `GetSiblingHashes...`,
--     `GetSiblingSides` and `buildReverseTree` are `new_tree`, `insert_leaf`, `remove`,
--     `get_root_hash`, `last_leaves`, `get_sibling_hashes`, `get_sibling_sides`,
--     `build_reverse_tree`. The hash is a parameter. Its children: Log (the height), Climb and
--     Refresh (the loop of `forceInsert`), Sound and Steps (the invariant), Paths (the proofs of
--     membership), Reverse (the map from values to leaves).
--   Fees (internal/functions/fees/fees.go, internal/functions/transactions/fee_structure.go): the
--     arithmetic of fees on integers, with the names of the source. Its children: Gross,
--     Withdrawal, Deposits, Batch.
--   Events (internal/data-structures/eventservice/emitter.go, shared.go): `get_events_in_range` and
--     `events_with_retries` are `GetEventsInRange` and `getEventsForSingleContract`; Emitter has the
--     record `Emitter` and its calls; Watermark has the atomic number with its concurrent `advance`.
--     Its children: Pages, Bisect, Coverage, Emitter, Watermark.
--   Snapshot (internal/data-structures/eventservice/snapshot.go and
--     internal/data-structures/snapshot/nullifiers.go, commitments.go): `process_events_page` is
--     `processEventsPage`, generic in a delegate; `accept_nullifier` and `accept_commitment` are the
--     two `AcceptEvent`. Its children: Replay, Nullifiers, Commitments.
--   PreTransaction (internal/functions/pre-transaction/output_utxo_processing.go and
--     ensure_amount_changes.go, `CalcAmountChanges` of internal/functions/snarkjs/common.go,
--     `NewUtxo` of internal/data-structures/utxo/utxo.go): the outputs of each token, and the check
--     that they and the inputs differ by the amounts. Its child: Conserves.
--   Balance (internal/functions/balance/balance.go and part of input_utxos.go): `compute` is
--     `Compute`. Its child: Totals.
--   Chains (internal/constants/chains.go): the tables of the chains. Its child: Covers.
--   Enclave (internal/functions/enclave/construct_tx_enclave_verify.go, with the notes of
--     internal/data-structures/utxo/utxo.go, the requests of internal/types/remote_tx_build_types.go
--     and internal/functions/solana/solana.go): what the client checks of the enclave's answers
--     before it signs. `verifyPrepareTxResponse`, `verifyStuckWithdrawJobSignedMessageHash`,
--     `verifyPrepareSolanaTxResponse` and `verifySolanaStuckWithdrawJobSignedMessageHash` are
--     `verify_prepare_tx_response`, `verify_stuck_withdraw_job`, `verify_prepare_solana_tx_response`
--     and `verify_solana_stuck_withdraw_job`; the other functions have the source's names without
--     the first word. Its children with code: Notes, Inputs, Outputs, Amounts, CallData, Request,
--     Response, Stuck, Solana with Check and Jobs; with proofs: Compare, Spent, Recipients,
--     Conserved (with Rows and Exact), Accepted, Jobs, and Encoding and Accepted under Solana.
--   Handshake (internal/functions/enclave/handshake_service.go): `GetPublicKey` and `Invalidate`, as
--     the steps of concurrent calls. Its children: Serving, SingleFlight, Waiters.
--   Numbers (`ToBeHex` of internal/functions/utils/bigint.go, and the printing of `big.Int`): its
--     child RoundTrip.
--   Prelude: Boolean tests, lists, integers, maps, results, powers, ASCII strings.
-- The emitter hands each page of events to the snapshots, whose commitments go into the tree.
-- A transaction's amounts and notes go to the enclave, whose answer the checks of Enclave compare
-- with the request.
--
-- Conventions
--   Numbers are natural; `uint64` wraps at `2 ^ 64`; `big.Int` is ℤ where it can be negative. Go maps
--   are association lists read by `lookup`. A panic is a value (`panicked`, `none`, `crashed`).
--   Loops on fuel: `logarithm2` halves `n` at most `n` times; the walks to the root halve the index at
--   most that often; `build_pages` ends within `to - from + 2` rounds where nothing overflows, and
--   `build_pages-Tiles` says so; `events_with_retries` recurses on the retries that are left.
--   The curve, the hashes, the ABI encoder, base58 and the reading of addresses are libraries: the
--   record `Library` of Enclave has what they give, and every theorem holds for all of them. The
--   digits of a number are printed on fuel, the number itself, which is never used up.
--   The goroutines of `advance` and of `GetPublicKey` are schedules of atomic steps, one list entry for
--   each step.
--
-- Not modelled: the JSON forms of the tree and of the commitments, the Solana emitter and snapshots,
--   the inputs of a transaction, the rest of the preparation of transactions, the circuit data, the
--   derivation of keys, HTTP, wallets and providers, which the theorems do not need; of the enclave
--   the sealing and the signatures of its answers and the comparison of the echoed request; timers
--   and contexts.
pub mod Prelude
pub mod Merkle
pub mod Fees
pub mod Events
pub mod Snapshot
pub mod Balance
pub mod Chains
pub mod Enclave
pub mod Handshake
pub mod Numbers
pub mod PreTransaction
