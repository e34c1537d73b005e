-- ===== src/Instructions/Environment.antt =====
-- ADDRESS to GASLIMIT, CHAINID, SELFBALANCE and BASEFEE: what an instruction asks of the message,
-- the transaction context and the host, but for the copies into memory.
use zvmone.Prelude.{ℕ, ◌+◌, ◌-◌, ◌%◌, ◌^◌, ◌&&◌, ◌++◌, length, replicate, min, ltb, if◌then◌else◌}
use zvmone.Prelude.Int.{ℤ, pos, negsuc, ◌-ℤ◌, leb_ℤ}
use zvmone.Uint256.{of_uint64}
use zvmone.Zvmc.{Bytes32}
use zvmone.Platform.{Platform}
use zvmone.Exec.{
  Exec, Context, ◌>>=◌, ◌>>◌, push_item, item, set_item, get_state, tx_context, get_host,
  access_account, read_buffer,
}

-- (uint64_t)x and (int64_t)x
abbrev pub to_uint64 : ℤ → ℕ
to_uint64 (pos n) = n % 2 ^ 64
to_uint64 (negsuc n) = 2 ^ 64 - 1 - n % 2 ^ 64

abbrev pub to_int64 : ℕ → ℤ
to_int64 n = if ltb n (2 ^ 63) then pos n else negsuc (2 ^ 64 - 1 - n)

-- `a - b` of size_t
abbrev pub sub_size : ℕ → ℕ → ℕ
sub_size a b = (a + 2 ^ 64 - b) % 2 ^ 64

abbrev pub max_ℤ : ℤ → ℤ → ℤ
max_ℤ a b = if leb_ℤ a b then b else a

module _ {H : Type 0} (p : Platform H) (ctx : Context) where
  open p use {intx, host}
  open ctx use {msg, original_code}

  unfoldable pub address : Exec H (Unit {0})
  address = push_item (intx.be_load msg.recipient)

  unfoldable pub balance : Exec H (Unit {0})
  balance = do
    x ← item 0
    let addr = intx.be_trunc x
    access_account p addr
    h ← get_host
    set_item 0 (intx.be_load (host.get_balance h addr))

  unfoldable pub origin : Exec H (Unit {0})
  origin = do tx ← tx_context p; push_item (intx.be_load tx.tx_origin)

  unfoldable pub caller : Exec H (Unit {0})
  caller = push_item (intx.be_load msg.sender)

  unfoldable pub callvalue : Exec H (Unit {0})
  callvalue = push_item (intx.be_load msg.value)

  unfoldable pub calldataload : Exec H (Unit {0})
  calldataload = do
    index ← item 0
    let input_size = length msg.input
    let begin = index.w0
    let end = min ((begin + 32) % 2 ^ 64) input_size
    let n = sub_size end begin
    if intx.ult (of_uint64 input_size) index then set_item 0 (of_uint64 0) else do
      bytes ← read_buffer msg.input begin n
      set_item 0 (intx.be_load (bytes ++ replicate (32 - n) 0))

  unfoldable pub calldatasize : Exec H (Unit {0})
  calldatasize = push_item (of_uint64 (length msg.input))

  unfoldable pub codesize : Exec H (Unit {0})
  codesize = push_item (of_uint64 (length original_code))

  unfoldable pub gasprice : Exec H (Unit {0})
  gasprice = do tx ← tx_context p; push_item (intx.be_load tx.tx_gas_price)

  unfoldable pub basefee : Exec H (Unit {0})
  basefee = do tx ← tx_context p; push_item (intx.be_load tx.block_base_fee)

  unfoldable pub extcodesize : Exec H (Unit {0})
  extcodesize = do
    x ← item 0
    let addr = intx.be_trunc x
    access_account p addr
    h ← get_host
    set_item 0 (of_uint64 (host.get_code_size h addr))

  unfoldable pub returndatasize : Exec H (Unit {0})
  returndatasize = do state ← get_state; push_item (of_uint64 (length state.return_data))

  unfoldable pub extcodehash : Exec H (Unit {0})
  extcodehash = do
    x ← item 0
    let addr = intx.be_trunc x
    access_account p addr
    h ← get_host
    set_item 0 (intx.be_load (host.get_code_hash h addr))

  unfoldable pub blockhash : Exec H (Unit {0})
  blockhash = do
    number ← item 0
    tx ← tx_context p
    h ← get_host
    let upper_bound = tx.block_number
    let lower_bound = max_ℤ (upper_bound -ℤ pos 256) (pos 0)
    let n = to_int64 number.w0
    let header : Bytes32 =
        if intx.ult number (intx.of_int64 upper_bound) && leb_ℤ lower_bound n
        then host.get_block_hash h n
        else replicate 32 0
    set_item 0 (intx.be_load header)

  unfoldable pub coinbase : Exec H (Unit {0})
  coinbase = do tx ← tx_context p; push_item (intx.be_load tx.block_coinbase)

  unfoldable pub timestamp : Exec H (Unit {0})
  timestamp = do tx ← tx_context p; push_item (of_uint64 (to_uint64 tx.block_timestamp))

  unfoldable pub number : Exec H (Unit {0})
  number = do tx ← tx_context p; push_item (of_uint64 (to_uint64 tx.block_number))

  unfoldable pub prevrandao : Exec H (Unit {0})
  prevrandao = do tx ← tx_context p; push_item (intx.be_load tx.block_prev_randao)

  unfoldable pub gaslimit : Exec H (Unit {0})
  gaslimit = do tx ← tx_context p; push_item (of_uint64 (to_uint64 tx.block_gas_limit))

  unfoldable pub chainid : Exec H (Unit {0})
  chainid = do tx ← tx_context p; push_item (intx.be_load tx.chain_id)

  unfoldable pub selfbalance : Exec H (Unit {0})
  selfbalance = do h ← get_host; push_item (intx.be_load (host.get_balance h msg.recipient))
