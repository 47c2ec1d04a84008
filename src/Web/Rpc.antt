-- ===== src/Web/Rpc.antt =====
-- The requests of `namespace RPC` (include/web3cpp/RPC.h, src/RPC.cpp): the checks of this file, and
-- the requests without arguments. A handler returns its json value and the error object it was
-- given; an exception of a check or of the json library leaves through it.
pub mod State
pub mod Blocks
pub mod Objects
pub mod Filters
pub mod Work
pub mod Calls
pub mod Replies
pub mod Refusals
pub mod Numbers
pub mod Returns
use mathlib.Core.Logic.{ite}
use web3cpp.Common.{
  ℕ, zero, suc, ◌+◌, ◌/◌, Bool, true, false, not, ◌&&◌, ◌||◌, List, [], ◌∷◌, ◌++◌, ltb, leb, ◌==◌,
  if◌then◌else◌, length, drop, Outcome, ok, throws, ◌>>=◌,
}
use web3cpp.Common.Bytes.{codes}
use web3cpp.Web.Errors.{ErrorState, set_code, get_code}
use web3cpp.Web.Platform.{Platform}
use web3cpp.Web.Texts.{same, has_prefix}
use web3cpp.Web.Utils.{is_hex, is_hex_strict, without_prefix}
use web3cpp.Web.Utils.Addresses.{is_address}

-- `_checkHexData`; its second argument is true by default.
unfoldable pub check_hex_data : List ℕ → Bool → Bool
check_hex_data hex strict = if strict then is_hex_strict hex else is_hex hex

-- `_checkHexLength`, in bytes
unfoldable pub check_hex_length : List ℕ → ℕ → Bool
check_hex_length hex hex_length =
    length (drop (if has_prefix hex then 2 else 0) hex) / 2 == hex_length

unfoldable pub check_default_block : List ℕ → Bool
check_default_block block =
    same block (codes "latest")
    || same block (codes "earliest")
    || same block (codes "pending")
    || is_hex_strict block

module _ (p : Platform) where
  unfoldable pub check_address : List ℕ → Outcome Bool
  check_address add = is_address p add

  unfoldable pub pair_of : List ℕ → p.Json → p.Json
  pair_of key value = p.braces (p.text key ∷ value ∷ [])

  unfoldable pub build_json : List ℕ → p.Json → p.Json
  build_json method params = p.braces (
      pair_of (codes "jsonrpc") (p.text (codes "2.0"))
      ∷ pair_of (codes "method") (p.text method)
      ∷ pair_of (codes "params") params
      ∷ pair_of (codes "id") (p.number 1)
      ∷ [])

  -- `err.setCode(errCode)`, and the request unless the error object now holds an error.
  unfoldable pub reply : ErrorState → ℕ → p.Json → p.Json × ErrorState
  reply err code request =
      let err' = set_code err code in (if get_code err' == 0 then request else p.empty_object, err')

  unfoldable pub web3_client_version : p.Json
  web3_client_version = build_json (codes "web3_clientVersion") p.empty_array

  unfoldable pub net_version : p.Json
  net_version = build_json (codes "net_version") p.empty_array

  unfoldable pub net_listening : p.Json
  net_listening = build_json (codes "net_listening") p.empty_array

  unfoldable pub net_peer_count : p.Json
  net_peer_count = build_json (codes "net_peerCount") p.empty_array

  unfoldable pub eth_protocol_version : p.Json
  eth_protocol_version = build_json (codes "eth_protocolVersion") p.empty_array

  unfoldable pub eth_syncing : p.Json
  eth_syncing = build_json (codes "eth_syncing") p.empty_array

  unfoldable pub eth_coinbase : p.Json
  eth_coinbase = build_json (codes "eth_coinbase") p.empty_array

  unfoldable pub eth_mining : p.Json
  eth_mining = build_json (codes "eth_mining") p.empty_array

  unfoldable pub eth_hashrate : p.Json
  eth_hashrate = build_json (codes "eth_hashrate") p.empty_array

  unfoldable pub eth_gas_price : p.Json
  eth_gas_price = build_json (codes "eth_gasPrice") p.empty_array

  unfoldable pub eth_accounts : p.Json
  eth_accounts = build_json (codes "eth_accounts") p.empty_array

  unfoldable pub eth_block_number : p.Json
  eth_block_number = build_json (codes "eth_blockNumber") p.empty_array

  unfoldable pub eth_get_compilers : p.Json
  eth_get_compilers = build_json (codes "eth_getCompilers") p.empty_array

  unfoldable pub eth_new_block_filter : p.Json
  eth_new_block_filter = build_json (codes "eth_newBlockFilter") p.empty_array

  unfoldable pub eth_new_pending_transaction_filter : p.Json
  eth_new_pending_transaction_filter =
      build_json (codes "eth_newPendingTransactionFilter") p.empty_array

  unfoldable pub eth_get_work : p.Json
  eth_get_work = build_json (codes "eth_getWork") p.empty_array
