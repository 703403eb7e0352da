-- ===== src/Chains/Covers.antt =====
-- The tables cover the supported chains.
use mathlib.Core.Path.{subst}
use hinkal_go.Prelude.{
  ℕ, ◌*◌, ◌^◌, ◌≤◌, ◌≡◌, ◌≢◌, ◌⊎◌, inl, inr, refl, arith, true, none, some, List, [], ◌∷◌, All,
  ◌==◌, nat_eq, nat_beq_iff, Bool-cases,
}
use hinkal_go.Prelude.Dict.{lookup}
use hinkal_go.Chains.{
  EthereumNetwork, ethereum_network_registry, hinkal_supported_chains, contains, is_solana_like,
  network, eth_mainnet, optimism, base, polygon, arb_mainnet, bnb_mainnet, arc_mainnet, arc_testnet,
  sepolia_testnet, tron_mainnet, tron_nile, tempo, robinhood, is_hinkal_supported_chain,
  get_save_depth, get_reorg_depth,
}

-- What holds of every chain of a list holds of a chain that the list contains.
All-contains : (P : ℕ → Type 0) (ids : List ℕ) (id : ℕ) → All P ids → contains ids id ≡ true → P id
unfolding contains
All-contains P [] id h e = absurd cc
All-contains P (v ∷ ids) id (h, hs) e = elim (Bool-cases (v == id)) [
  | inl same ↦ subst P ((nat_beq_iff v id).0 same) h
  | inr other ↦ All-contains P ids id hs (rw other at e)
]

-- The depths and the registry have the chain, and its pages have a size that the reading of events
-- allows, or it is a Solana chain.
abbrev pub IsConfigured : ℕ → Type 0
IsConfigured id =
    (get_save_depth id ≢ none)
    × ((is_solana_like id ≡ true)
        ⊎ ((get_reorg_depth id ≢ none)
            × ((n : EthereumNetwork) × (lookup id ethereum_network_registry ≡ some n)
                × (1 ≤ n.max_page_size)
                × (n.max_page_size ≤ 100 * 2 ^ 20))))

hinkal_supported_chains-IsConfigured : All IsConfigured hinkal_supported_chains
unfolding get_save_depth get_reorg_depth is_solana_like lookup contains
hinkal_supported_chains-IsConfigured = (
  (
    (λ e. cc),
    inr ((λ e. cc), ((network eth_mainnet true 1 900000).1, refl, omega arith, omega arith)),
  ),
  (
    (
      (λ e. cc),
      inr ((λ e. cc), ((network optimism true 3 900000).1, refl, omega arith, omega arith)),
    ),
    (
      (
        (λ e. cc),
        inr ((λ e. cc), ((network base true 7 500000).1, refl, omega arith, omega arith)),
      ),
      (
        (
          (λ e. cc),
          inr ((λ e. cc), ((network polygon true 4 900000).1, refl, omega arith, omega arith)),
        ),
        (
          (
            (λ e. cc),
            inr (
              (λ e. cc),
              ((network arb_mainnet true 2 500000).1, refl, omega arith, omega arith),
            ),
          ),
          (
            (
              (λ e. cc),
              inr (
                (λ e. cc),
                ((network bnb_mainnet true 13 900000).1, refl, omega arith, omega arith),
              ),
            ),
            (
              (
                (λ e. cc),
                inr (
                  (λ e. cc),
                  ((network arc_mainnet true 8 9999).1, refl, omega arith, omega arith),
                ),
              ),
              (
                (
                  (λ e. cc),
                  inr (
                    (λ e. cc),
                    ((network arc_testnet true 8 9999).1, refl, omega arith, omega arith),
                  ),
                ),
                (
                  ((λ e. cc), inl refl),
                  (
                    (
                      (λ e. cc),
                      inr (
                        (λ e. cc),
                        (
                          (network sepolia_testnet true 11 900000).1,
                          refl,
                          omega arith,
                          omega arith,
                        ),
                      ),
                    ),
                    (
                      (
                        (λ e. cc),
                        inr (
                          (λ e. cc),
                          ((network tron_mainnet true 10 500000).1, refl, omega arith, omega arith),
                        ),
                      ),
                      (
                        (
                          (λ e. cc),
                          inr (
                            (λ e. cc),
                            ((network tron_nile true 9 500000).1, refl, omega arith, omega arith),
                          ),
                        ),
                        (
                          (
                            (λ e. cc),
                            inr (
                              (λ e. cc),
                              ((network tempo true 12 9999).1, refl, omega arith, omega arith),
                            ),
                          ),
                          (
                            (
                              (λ e. cc),
                              inr (
                                (λ e. cc),
                                (
                                  (network robinhood true 14 500000).1,
                                  refl,
                                  omega arith,
                                  omega arith,
                                ),
                              ),
                            ),
                            tt,
                          ),
                        ),
                      ),
                    ),
                  ),
                ),
              ),
            ),
          ),
        ),
      ),
    ),
  ),
)

-- Every chain that Hinkal supports has a save depth, and it is a Solana chain or has a reorganisation
-- depth and a page size between 1 and 104857600, the bounds under which a range is read completely.
pub is_hinkal_supported_chain-IsConfigured :
    (id : ℕ) → is_hinkal_supported_chain id ≡ true → IsConfigured id
unfolding is_hinkal_supported_chain
is_hinkal_supported_chain-IsConfigured id e =
    All-contains IsConfigured hinkal_supported_chains id hinkal_supported_chains-IsConfigured e
