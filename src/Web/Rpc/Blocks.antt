-- ===== src/Web/Rpc/Blocks.antt =====
-- Requests about blocks, transactions and uncles by hash or number, about filters by id, and the
-- upload of raw data, of src/RPC.cpp. `_number` is the overload that takes a `BigNumber`.
use web3cpp.Common.{ℕ, Bool, true, not, ◌||◌, List, [], ◌∷◌, if◌then◌else◌, Outcome, ok}
use web3cpp.Common.Bytes.{codes}
use web3cpp.Web.Errors.{ErrorState}
use web3cpp.Web.Platform.{Platform}
use web3cpp.Web.Rpc.{check_hex_data, check_hex_length, build_json, reply}

-- Code 4 unless the text is hex.
unfoldable pub data_code : List ℕ → ℕ
data_code s = if not (check_hex_data s true) then 4 else 0

unfoldable pub hash_code : List ℕ → ℕ
hash_code hash =
    if not (check_hex_data hash true) then 4 else if not (check_hex_length hash 32) then 6 else 0

unfoldable pub hash_index_code : List ℕ → List ℕ → ℕ
hash_index_code hash index =
    if not (check_hex_data hash true) || not (check_hex_data index true)
    then 4
    else if not (check_hex_length hash 32)
    then 6
    else 0

unfoldable pub number_index_code : List ℕ → List ℕ → ℕ
number_index_code number index =
    if not (check_hex_data number true) || not (check_hex_data index true) then 4 else 0

module _ (p : Platform) where
  unfoldable pub web3_sha3 : List ℕ → ErrorState → Outcome (p.Json × ErrorState)
  web3_sha3 data_ err = ok (
      reply p err (data_code data_)
        (build_json p (codes "web3_sha3") (p.braces (p.text data_ ∷ []))))

  unfoldable pub eth_get_block_transaction_count_by_hash :
      List ℕ → ErrorState → Outcome (p.Json × ErrorState)
  eth_get_block_transaction_count_by_hash hash err = ok (
      reply p err (hash_code hash)
        (build_json p (codes "eth_getBlockTransactionCountByHash") (p.braces (p.text hash ∷ []))))

  unfoldable pub eth_get_uncle_count_by_block_hash :
      List ℕ → ErrorState → Outcome (p.Json × ErrorState)
  eth_get_uncle_count_by_block_hash hash err = ok (
      reply p err (hash_code hash)
        (build_json p (codes "eth_getUncleCountByBlockHash") (p.braces (p.text hash ∷ []))))

  unfoldable pub eth_get_transaction_by_hash : List ℕ → ErrorState → Outcome (p.Json × ErrorState)
  eth_get_transaction_by_hash hash err = ok (
      reply p err (hash_code hash)
        (build_json p (codes "eth_getTransactionByHash") (p.braces (p.text hash ∷ []))))

  unfoldable pub eth_get_transaction_receipt : List ℕ → ErrorState → Outcome (p.Json × ErrorState)
  eth_get_transaction_receipt hash err = ok (
      reply p err (hash_code hash)
        (build_json p (codes "eth_getTransactionReceipt") (p.braces (p.text hash ∷ []))))

  unfoldable pub eth_get_block_transaction_count_by_number :
      List ℕ → ErrorState → Outcome (p.Json × ErrorState)
  eth_get_block_transaction_count_by_number number err = ok (
      reply p err (data_code number) (
        build_json p (codes "eth_getBlockTransactionCountByNumber")
          (p.braces (p.text number ∷ []))))

  unfoldable pub eth_get_block_transaction_count_by_number_number :
      ℕ → ErrorState → Outcome (p.Json × ErrorState)
  eth_get_block_transaction_count_by_number_number number err =
      eth_get_block_transaction_count_by_number (p.print_dec number) err

  unfoldable pub eth_get_uncle_count_by_block_number :
      List ℕ → ErrorState → Outcome (p.Json × ErrorState)
  eth_get_uncle_count_by_block_number number err = ok (
      reply p err (data_code number)
        (build_json p (codes "eth_getUncleCountByBlockNumber") (p.braces (p.text number ∷ []))))

  unfoldable pub eth_get_uncle_count_by_block_number_number :
      ℕ → ErrorState → Outcome (p.Json × ErrorState)
  eth_get_uncle_count_by_block_number_number number err =
      eth_get_uncle_count_by_block_number (p.print_dec number) err

  unfoldable pub eth_send_raw_transaction : List ℕ → ErrorState → Outcome (p.Json × ErrorState)
  eth_send_raw_transaction signed_tx_data err = ok (
      reply p err (data_code signed_tx_data)
        (build_json p (codes "eth_sendRawTransaction") (p.braces (p.text signed_tx_data ∷ []))))

  unfoldable pub eth_uninstall_filter : List ℕ → ErrorState → Outcome (p.Json × ErrorState)
  eth_uninstall_filter filter_id err = ok (
      reply p err (data_code filter_id)
        (build_json p (codes "eth_uninstallFilter") (p.braces (p.text filter_id ∷ []))))

  unfoldable pub eth_get_filter_changes : List ℕ → ErrorState → Outcome (p.Json × ErrorState)
  eth_get_filter_changes filter_id err = ok (
      reply p err (data_code filter_id)
        (build_json p (codes "eth_getFilterChanges") (p.braces (p.text filter_id ∷ []))))

  unfoldable pub eth_get_filter_logs : List ℕ → ErrorState → Outcome (p.Json × ErrorState)
  eth_get_filter_logs filter_id err = ok (
      reply p err (data_code filter_id)
        (build_json p (codes "eth_getFilterLogs") (p.braces (p.text filter_id ∷ []))))

  unfoldable pub eth_get_block_by_hash : List ℕ → Bool → ErrorState → Outcome (p.Json × ErrorState)
  eth_get_block_by_hash hash whole err = ok (
      reply p err (hash_code hash)
        (build_json p (codes "eth_getBlockByHash") (p.braces (p.text hash ∷ p.boolean whole ∷ []))))

  unfoldable pub eth_get_block_by_number :
      List ℕ → Bool → ErrorState → Outcome (p.Json × ErrorState)
  eth_get_block_by_number number whole err = ok (
      reply p err (data_code number) (
        build_json p (codes "eth_getBlockByNumber")
          (p.braces (p.text number ∷ p.boolean whole ∷ []))))

  unfoldable pub eth_get_block_by_number_number :
      ℕ → Bool → ErrorState → Outcome (p.Json × ErrorState)
  eth_get_block_by_number_number number whole err =
      eth_get_block_by_number (p.print_dec number) whole err

  unfoldable pub eth_get_transaction_by_block_hash_and_index :
      List ℕ → List ℕ → ErrorState → Outcome (p.Json × ErrorState)
  eth_get_transaction_by_block_hash_and_index hash index err = ok (
      reply p err (hash_index_code hash index) (
        build_json p (codes "eth_getTransactionByBlockHashAndIndex")
          (p.braces (p.text hash ∷ p.text index ∷ []))))

  unfoldable pub eth_get_uncle_by_block_hash_and_index :
      List ℕ → List ℕ → ErrorState → Outcome (p.Json × ErrorState)
  eth_get_uncle_by_block_hash_and_index hash index err = ok (
      reply p err (hash_index_code hash index) (
        build_json p (codes "eth_getUncleByBlockHashAndIndex")
          (p.braces (p.text hash ∷ p.text index ∷ []))))

  unfoldable pub eth_get_transaction_by_block_number_and_index :
      List ℕ → List ℕ → ErrorState → Outcome (p.Json × ErrorState)
  eth_get_transaction_by_block_number_and_index number index err = ok (
      reply p err (number_index_code number index) (
        build_json p (codes "eth_getTransactionByBlockNumberAndIndex")
          (p.braces (p.text number ∷ p.text index ∷ []))))

  unfoldable pub eth_get_transaction_by_block_number_and_index_number :
      ℕ → List ℕ → ErrorState → Outcome (p.Json × ErrorState)
  eth_get_transaction_by_block_number_and_index_number number index err =
      eth_get_transaction_by_block_number_and_index (p.print_dec number) index err

  unfoldable pub eth_get_uncle_by_block_number_and_index :
      List ℕ → List ℕ → ErrorState → Outcome (p.Json × ErrorState)
  eth_get_uncle_by_block_number_and_index number index err = ok (
      reply p err (number_index_code number index) (
        build_json p (codes "eth_getUncleByBlockNumberAndIndex")
          (p.braces (p.text number ∷ p.text index ∷ []))))

  unfoldable pub eth_get_uncle_by_block_number_and_index_number :
      ℕ → List ℕ → ErrorState → Outcome (p.Json × ErrorState)
  eth_get_uncle_by_block_number_and_index_number number index err =
      eth_get_uncle_by_block_number_and_index (p.print_dec number) index err
