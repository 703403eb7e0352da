-- ===== src/Chains/Tests.antt =====
-- Lookups in the tables, and the theorem at a chain.
use hinkal_go.Prelude.{◌≡◌, refl, true, false, some}
use hinkal_go.Prelude.Dict.{lookup}
use hinkal_go.Chains.{
  base, hyper_core, localhost, contains, is_tron_like, is_hinkal_supported_chain,
  bridge_supported_chains, bridge_destination_chains, is_bridge_destination_chain, get_reorg_depth,
}
use hinkal_go.Chains.Covers.{IsConfigured, is_hinkal_supported_chain-IsConfigured}

base_depth : get_reorg_depth base ≡ some 1000
unfolding get_reorg_depth lookup
base_depth = refl

bridge_only : is_bridge_destination_chain hyper_core ≡ true
unfolding is_bridge_destination_chain bridge_destination_chains bridge_supported_chains is_tron_like
    contains
bridge_only = refl

local_is_unsupported : is_hinkal_supported_chain localhost ≡ false
unfolding is_hinkal_supported_chain contains
local_is_unsupported = refl

base_is_supported : is_hinkal_supported_chain base ≡ true
unfolding is_hinkal_supported_chain contains
base_is_supported = refl

is_hinkal_supported_chain-IsConfigured_example : IsConfigured base
is_hinkal_supported_chain-IsConfigured_example =
    is_hinkal_supported_chain-IsConfigured base base_is_supported
