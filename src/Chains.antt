-- ===== src/Chains.antt =====
-- The chains of internal/constants/chains.go: the identifiers, the registry, and the depths.
-- The names and the URLs of the registry are left out; a page size that is not set is zero.
pub mod Covers
mod Tests
use hinkal_go.Prelude.{
  ℕ, if◌then◌else◌, Bool, true, false, ◌&&◌, ◌||◌, not, Option, none, some, List, [], ◌∷◌, ◌++◌,
  select, ◌==◌, nat_eq,
}
use hinkal_go.Prelude.Dict.{lookup}

abbrev pub polygon : ℕ
polygon = 137

abbrev pub arb_mainnet : ℕ
arb_mainnet = 42161

abbrev pub eth_mainnet : ℕ
eth_mainnet = 1

abbrev pub optimism : ℕ
optimism = 10

abbrev pub base : ℕ
base = 8453

abbrev pub localhost : ℕ
localhost = 31337

abbrev pub arc_mainnet : ℕ
arc_mainnet = 5042

abbrev pub arc_testnet : ℕ
arc_testnet = 5042002

abbrev pub sepolia_testnet : ℕ
sepolia_testnet = 11155111

abbrev pub solana_mainnet : ℕ
solana_mainnet = 501

abbrev pub solana_localnet : ℕ
solana_localnet = 102

abbrev pub solana_devnet : ℕ
solana_devnet = 502

abbrev pub tron_nile : ℕ
tron_nile = 3448148188

abbrev pub tron_localnet : ℕ
tron_localnet = 103

abbrev pub tron_mainnet : ℕ
tron_mainnet = 728126428

abbrev pub tempo : ℕ
tempo = 4217

abbrev pub robinhood : ℕ
robinhood = 4663

abbrev pub bnb_mainnet : ℕ
bnb_mainnet = 56

abbrev pub avalanche : ℕ
avalanche = 43114

abbrev pub cronos : ℕ
cronos = 25

abbrev pub monad : ℕ
monad = 143

abbrev pub plasma : ℕ
plasma = 9745

abbrev pub ink : ℕ
ink = 57073

abbrev pub hyper_evm : ℕ
hyper_evm = 999

abbrev pub hyper_core : ℕ
hyper_core = 1337

-- `types.EthereumNetwork`
pub record EthereumNetwork : Type 0 where
  pub chain_id : ℕ
  pub supported : Bool
  pub priority : ℕ
  pub max_page_size : ℕ

abbrev pub network : ℕ → Bool → ℕ → ℕ → ℕ × EthereumNetwork
network id is_supported order page =
    (id, record { chain_id = id; supported = is_supported; priority = order; max_page_size = page })

abbrev pub ethereum_network_registry : List (ℕ × EthereumNetwork)
ethereum_network_registry =
    network eth_mainnet true 1 900000
    ∷ network arb_mainnet true 2 500000
    ∷ network optimism true 3 900000
    ∷ network polygon true 4 900000
    ∷ network base true 7 500000
    ∷ network arc_mainnet true 8 9999
    ∷ network arc_testnet true 8 9999
    ∷ network solana_mainnet true 8 0
    ∷ network solana_localnet true 9 0
    ∷ network solana_devnet true 9 0
    ∷ network tron_nile true 9 500000
    ∷ network tron_mainnet true 10 500000
    ∷ network sepolia_testnet true 11 900000
    ∷ network tempo true 12 9999
    ∷ network bnb_mainnet true 13 900000
    ∷ network robinhood true 14 500000
    ∷ network avalanche false 14 0
    ∷ network cronos false 15 0
    ∷ network monad false 16 0
    ∷ network plasma false 17 0
    ∷ network ink false 18 0
    ∷ network hyper_evm false 19 0
    ∷ network hyper_core false 20 0
    ∷ []

abbrev pub tron_chain_ids : List ℕ
tron_chain_ids = tron_nile ∷ tron_mainnet ∷ tron_localnet ∷ []

abbrev pub solana_chain_ids : List ℕ
solana_chain_ids = solana_mainnet ∷ solana_localnet ∷ solana_devnet ∷ []

abbrev pub hinkal_supported_chains : List ℕ
hinkal_supported_chains =
    eth_mainnet ∷ optimism ∷ base ∷ polygon ∷ arb_mainnet ∷ bnb_mainnet ∷ arc_mainnet ∷ arc_testnet
    ∷ solana_mainnet ∷ sepolia_testnet ∷ tron_mainnet ∷ tron_nile ∷ tempo ∷ robinhood ∷ []

abbrev pub bridge_destination_only_chains : List ℕ
bridge_destination_only_chains =
    avalanche ∷ cronos ∷ monad ∷ plasma ∷ ink ∷ hyper_evm ∷ hyper_core ∷ []

abbrev pub save_depths : List (ℕ × ℕ)
save_depths =
    (eth_mainnet, 1000)
    ∷ (bnb_mainnet, 1000)
    ∷ (polygon, 4000)
    ∷ (arb_mainnet, 8000)
    ∷ (optimism, 6000)
    ∷ (base, 6000)
    ∷ (arc_mainnet, 8000)
    ∷ (arc_testnet, 8000)
    ∷ (sepolia_testnet, 1000)
    ∷ (tempo, 4000)
    ∷ (robinhood, 20000)
    ∷ (localhost, 1)
    ∷ (solana_mainnet, 1000)
    ∷ (solana_localnet, 100)
    ∷ (solana_devnet, 1000)
    ∷ (tron_nile, 1000)
    ∷ (tron_mainnet, 1000)
    ∷ (tron_localnet, 100)
    ∷ []

abbrev pub block_reorg_depths : List (ℕ × ℕ)
block_reorg_depths =
    (eth_mainnet, 300)
    ∷ (bnb_mainnet, 1000)
    ∷ (polygon, 1000)
    ∷ (arb_mainnet, 1000)
    ∷ (optimism, 1000)
    ∷ (base, 1000)
    ∷ (arc_mainnet, 30)
    ∷ (arc_testnet, 30)
    ∷ (sepolia_testnet, 300)
    ∷ (tempo, 1000)
    ∷ (robinhood, 2500)
    ∷ (tron_nile, 19)
    ∷ (tron_mainnet, 19)
    ∷ (tron_localnet, 1)
    ∷ (localhost, 1)
    ∷ []

-- `contains`
unfoldable pub contains : List ℕ → ℕ → Bool
contains [] val = false
contains (v ∷ slice) val = (v == val) || contains slice val

-- `IsSolanaLike`
unfoldable pub is_solana_like : ℕ → Bool
unfolding contains
is_solana_like = contains solana_chain_ids

-- `IsTronLike`
unfoldable pub is_tron_like : ℕ → Bool
unfolding contains
is_tron_like = contains tron_chain_ids

-- `EVMChainIDs`
unfoldable pub evm_chain_ids : List ℕ
unfolding is_solana_like is_tron_like
evm_chain_ids =
    select (λ id. not (is_solana_like id) && not (is_tron_like id)) hinkal_supported_chains

-- `IsEvmChain`
unfoldable pub is_evm_chain : ℕ → Bool
unfolding evm_chain_ids
is_evm_chain = contains evm_chain_ids

-- `IsHinkalSupportedChain`
unfoldable pub is_hinkal_supported_chain : ℕ → Bool
unfolding contains
is_hinkal_supported_chain = contains hinkal_supported_chains

-- `BridgeSupportedChains`
unfoldable pub bridge_supported_chains : List ℕ
unfolding is_tron_like
bridge_supported_chains =
    select
      (λ id.
        (not (id == arc_testnet) && not (id == sepolia_testnet))
        && (not (is_tron_like id) || (id == tron_mainnet)))
      hinkal_supported_chains

-- `BridgeDestinationChains`
unfoldable pub bridge_destination_chains : List ℕ
unfolding bridge_supported_chains
bridge_destination_chains = bridge_supported_chains ++ bridge_destination_only_chains

-- `IsBridgeSupportedChain`
unfoldable pub is_bridge_supported_chain : ℕ → Bool
unfolding bridge_supported_chains
is_bridge_supported_chain = contains bridge_supported_chains

-- `IsBridgeDestinationChain`
unfoldable pub is_bridge_destination_chain : ℕ → Bool
unfolding bridge_destination_chains
is_bridge_destination_chain = contains bridge_destination_chains

-- `GetSaveDepth`; `none` is the error.
unfoldable pub get_save_depth : ℕ → Option ℕ
unfolding lookup
get_save_depth chain_id = lookup chain_id save_depths

-- `GetReorgDepth`
unfoldable pub get_reorg_depth : ℕ → Option ℕ
unfolding lookup
get_reorg_depth chain_id = lookup chain_id block_reorg_depths

-- `IsLocalNetwork`
unfoldable pub is_local_network : ℕ → Bool
is_local_network chain_id =
    ((chain_id == localhost) || (chain_id == tron_localnet)) || (chain_id == solana_localnet)

-- `LocalhostNetwork`
abbrev pub localhost_network : ℕ
localhost_network = eth_mainnet

-- `GetNonLocalhostChainID`
unfoldable pub get_non_localhost_chain_id : ℕ → ℕ
unfolding is_local_network
get_non_localhost_chain_id chain_id =
    if chain_id == 0
    then localhost_network
    else if is_local_network chain_id
    then localhost_network
    else chain_id

-- `IsOptimismLike`
abbrev pub is_optimism_like : ℕ → Bool
is_optimism_like chain_id = (chain_id == optimism) || (chain_id == base)

-- `IsEnclaveTxChain`
unfoldable pub is_enclave_tx_chain : ℕ → Bool
unfolding is_solana_like
is_enclave_tx_chain chain_id = not (is_solana_like chain_id)

-- `UsesNearIntentsBridge`
unfoldable pub uses_near_intents_bridge : ℕ → Bool
unfolding is_solana_like is_tron_like
uses_near_intents_bridge chain_id = is_solana_like chain_id || is_tron_like chain_id

-- `IsNearIntentsBridgeSource`
unfoldable pub is_near_intents_bridge_source : ℕ → Bool
unfolding is_solana_like
is_near_intents_bridge_source chain_id = is_solana_like chain_id || (chain_id == tron_mainnet)

-- `IsSepoliaTestnet`
abbrev pub is_sepolia_testnet : ℕ → Bool
is_sepolia_testnet chain_id = chain_id == sepolia_testnet

-- `IsTempo`
abbrev pub is_tempo : ℕ → Bool
is_tempo chain_id = chain_id == tempo

-- `IsArcMainnet`
abbrev pub is_arc_mainnet : ℕ → Bool
is_arc_mainnet chain_id = chain_id == arc_mainnet

-- `IsArcTestnet`
abbrev pub is_arc_testnet : ℕ → Bool
is_arc_testnet chain_id = chain_id == arc_testnet

-- `WalletSupportedChains`
unfoldable pub wallet_supported_chains : List ℕ
unfolding is_tron_like
wallet_supported_chains =
    select
      (λ id.
        (not (is_tron_like id) && not (is_sepolia_testnet id))
        && (not (is_tempo id) && not (is_arc_testnet id)))
      hinkal_supported_chains

-- `IsBridgeDestinationOnlyChain`
unfoldable pub is_bridge_destination_only_chain : ℕ → Bool
unfolding contains
is_bridge_destination_only_chain = contains bridge_destination_only_chains
