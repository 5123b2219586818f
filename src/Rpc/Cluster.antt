-- ===== src/Rpc/Cluster.antt =====
-- `GetClusterFromGenesisHash` of pkg/rpc/client.go.
use solana_exporter.Base.{Text, codes, text_eqb, if◌then◌else◌}
use solana_exporter.Rpc.Types.{Result, ok, err, errorf}

abbrev pub devnet_genesis_hash : Text
devnet_genesis_hash = codes "EtWTRABZaYq6iMfeYKouRu166VU2xqa1wcaWoxPkrZBG"

abbrev pub testnet_genesis_hash : Text
testnet_genesis_hash = codes "4uhcVJyU9pJkvQyS88uRDiswHXSCkY3zQawwpjk2NsNY"

abbrev pub mainnet_genesis_hash : Text
mainnet_genesis_hash = codes "5eykt4UsFv8P8NJdTREpY1vzqKqZKvdpKuc147dw2N9d"

unfoldable pub get_cluster_from_genesis_hash : Text → Result Text
get_cluster_from_genesis_hash hash =
    if text_eqb hash devnet_genesis_hash
    then ok (codes "devnet")
    else if text_eqb hash testnet_genesis_hash
    then ok (codes "testnet")
    else if text_eqb hash mainnet_genesis_hash
    then ok (codes "mainnet-beta")
    else err (errorf (codes "unknown genesis hash"))
