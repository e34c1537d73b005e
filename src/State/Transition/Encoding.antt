-- ===== src/State/Transition/Encoding.antt =====
-- The RLP encodings of test/state/state.cpp.
use zvmone.Prelude.{ℕ, Option, none, some, List, [], ◌∷◌, if◌then◌else◌}
use zvmone.Prelude.Int.{pos_part}
use zvmone.Zvmc.{is_success, Address, Bytes32}
use zvmone.Platform.{Intx}
use zvmone.State.Rlp.{encode_bytes, encode_uint64, encode_uint256, encode_tuple, encode_container}
use zvmone.State.Host.{Log}
use zvmone.State.Transition.{Transaction, TransactionReceipt}

unfoldable pub rlp_encode_log : Log → List ℕ
rlp_encode_log log = encode_tuple (
    encode_bytes log.addr
    ∷ encode_container encode_bytes log.topics
    ∷ encode_bytes log.log_bytes
    ∷ [])

abbrev encode_access : Address × List Bytes32 → List ℕ
encode_access (a, keys) = encode_tuple (encode_bytes a ∷ encode_container encode_bytes keys ∷ [])

abbrev to_bytes : Option Address → List ℕ
to_bytes none = []
to_bytes (some a) = a

-- The gas limit is not negative.
unfoldable pub rlp_encode_transaction : Intx → Transaction → List ℕ
rlp_encode_transaction intx tx =
    0x02
    ∷ encode_tuple (
        encode_uint64 intx tx.tx_chain_id
        ∷ encode_uint64 intx tx.tx_nonce
        ∷ encode_uint256 intx tx.max_priority_gas_price
        ∷ encode_uint256 intx tx.max_gas_price
        ∷ encode_uint64 intx (pos_part tx.gas_limit)
        ∷ encode_bytes (to_bytes tx.to)
        ∷ encode_uint256 intx tx.tx_value
        ∷ encode_bytes tx.tx_input
        ∷ encode_container encode_access tx.access_list
        ∷ encode_bytes tx.public_key
        ∷ encode_bytes tx.signature
        ∷ [])

-- The gas used is not negative. The one kind is that of EIP-1559.
unfoldable pub rlp_encode_receipt : Intx → TransactionReceipt → List ℕ
rlp_encode_receipt intx receipt =
    0x02
    ∷ encode_tuple (
        encode_uint64 intx (if is_success receipt.receipt_status then 1 else 0)
        ∷ encode_uint64 intx (pos_part receipt.gas_used)
        ∷ encode_bytes receipt.logs_bloom_filter
        ∷ encode_container rlp_encode_log receipt.receipt_logs
        ∷ [])
