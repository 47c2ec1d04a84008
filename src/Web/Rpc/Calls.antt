-- ===== src/Web/Rpc/Calls.antt =====
-- The requests with arguments as one type, and what they answer on a fresh error object. The two
-- that take filter options are in Filters.
use web3cpp.Common.{ℕ, ◌≡◌, refl, sym, ◌∙◌, Bool, List, [], ◌∷◌, Outcome, ok, ◌>>=◌}
use web3cpp.Common.Bytes.{codes}
use web3cpp.Web.Errors.{ErrorState, fresh}
use web3cpp.Web.Platform.{Platform}
use web3cpp.Web.Rpc.{build_json, reply}
use web3cpp.Web.Rpc.State.{
  eth_get_balance, eth_get_transaction_count, eth_get_code, eth_get_storage_at, eth_sign,
  account_code, storage_code, sign_code,
}
use web3cpp.Web.Rpc.Blocks.{
  web3_sha3, eth_get_block_transaction_count_by_hash, eth_get_uncle_count_by_block_hash,
  eth_get_transaction_by_hash, eth_get_transaction_receipt,
  eth_get_block_transaction_count_by_number, eth_get_uncle_count_by_block_number,
  eth_send_raw_transaction, eth_uninstall_filter, eth_get_filter_changes, eth_get_filter_logs,
  eth_get_block_by_hash, eth_get_block_by_number, eth_get_transaction_by_block_hash_and_index,
  eth_get_uncle_by_block_hash_and_index, eth_get_transaction_by_block_number_and_index,
  eth_get_uncle_by_block_number_and_index, data_code, hash_code, hash_index_code, number_index_code,
}
use web3cpp.Web.Rpc.Objects.{
  eth_sign_transaction, eth_send_transaction, eth_call, eth_estimate_gas, transaction_code,
  estimate_code, call_code,
}
use web3cpp.Web.Rpc.Work.{eth_submit_work, eth_submit_hashrate, work_code, hashrate_code}
use web3cpp.Web.Rpc.Replies.{
  Answers, IsCheck, checked-Answers, account_code-IsCheck, storage_code-IsCheck, sign_code-IsCheck,
  transaction_code-IsCheck, estimate_code-IsCheck, call_code-IsCheck, data_code-IsCheck,
  hash_code-IsCheck, hash_index_code-IsCheck, number_index_code-IsCheck, work_code-IsCheck,
  hashrate_code-IsCheck,
}

ok-IsCheck : (code c : ℕ) → IsCheck code → ok code ≡ ok c → IsCheck c
ok-IsCheck code c good h = let same_code : code ≡ c = cc in rw (sym same_code) good

pub data Call (p : Platform) : Type 0 where
  get_balance : List ℕ → List ℕ → Call p
  get_transaction_count : List ℕ → List ℕ → Call p
  get_code_at : List ℕ → List ℕ → Call p
  get_storage_at : List ℕ → List ℕ → List ℕ → Call p
  sign_data : List ℕ → List ℕ → Call p
  sha3_call : List ℕ → Call p
  get_block_transaction_count_by_hash : List ℕ → Call p
  get_uncle_count_by_block_hash : List ℕ → Call p
  get_transaction_by_hash : List ℕ → Call p
  get_transaction_receipt : List ℕ → Call p
  get_block_transaction_count_by_number : List ℕ → Call p
  get_uncle_count_by_block_number : List ℕ → Call p
  send_raw_transaction : List ℕ → Call p
  uninstall_filter : List ℕ → Call p
  get_filter_changes : List ℕ → Call p
  get_filter_logs : List ℕ → Call p
  get_block_by_hash : List ℕ → Bool → Call p
  get_block_by_number : List ℕ → Bool → Call p
  get_transaction_by_block_hash_and_index : List ℕ → List ℕ → Call p
  get_uncle_by_block_hash_and_index : List ℕ → List ℕ → Call p
  get_transaction_by_block_number_and_index : List ℕ → List ℕ → Call p
  get_uncle_by_block_number_and_index : List ℕ → List ℕ → Call p
  submit_work : List ℕ → List ℕ → List ℕ → Call p
  submit_hashrate : List ℕ → List ℕ → Call p
  sign_transaction : p.Json → Call p
  send_transaction : p.Json → Call p
  call_contract : p.Json → List ℕ → Call p
  estimate_gas : p.Json → Call p

-- The checks of a request, without its reply.
unfoldable pub checks : (p : Platform) → Call p → Outcome ℕ
checks p (get_balance address block) = account_code p address block
checks p (get_transaction_count address block) = account_code p address block
checks p (get_code_at address block) = account_code p address block
checks p (get_storage_at address position block) = storage_code p address position block
checks p (sign_data address data_) = sign_code p address data_
checks p (sha3_call data_) = ok (data_code data_)
checks p (get_block_transaction_count_by_hash hash) = ok (hash_code hash)
checks p (get_uncle_count_by_block_hash hash) = ok (hash_code hash)
checks p (get_transaction_by_hash hash) = ok (hash_code hash)
checks p (get_transaction_receipt hash) = ok (hash_code hash)
checks p (get_block_transaction_count_by_number number) = ok (data_code number)
checks p (get_uncle_count_by_block_number number) = ok (data_code number)
checks p (send_raw_transaction signed_tx_data) = ok (data_code signed_tx_data)
checks p (uninstall_filter filter_id) = ok (data_code filter_id)
checks p (get_filter_changes filter_id) = ok (data_code filter_id)
checks p (get_filter_logs filter_id) = ok (data_code filter_id)
checks p (get_block_by_hash hash whole) = ok (hash_code hash)
checks p (get_block_by_number number whole) = ok (data_code number)
checks p (get_transaction_by_block_hash_and_index hash index) = ok (hash_index_code hash index)
checks p (get_uncle_by_block_hash_and_index hash index) = ok (hash_index_code hash index)
checks p (get_transaction_by_block_number_and_index number index) =
    ok (number_index_code number index)
checks p (get_uncle_by_block_number_and_index number index) = ok (number_index_code number index)
checks p (submit_work nonce pow_hash digest) = ok (work_code nonce pow_hash digest)
checks p (submit_hashrate hashrate id) = ok (hashrate_code hashrate id)
checks p (sign_transaction tx) = transaction_code p tx
checks p (send_transaction tx) = transaction_code p tx
checks p (call_contract o block) = call_code p o block
checks p (estimate_gas o) = estimate_code p o

-- The body that a request has when its checks pass.
unfoldable pub request_of : (p : Platform) → Call p → p.Json
request_of p (get_balance address block) =
    build_json p (codes "eth_getBalance") (p.braces (p.text address ∷ p.text block ∷ []))
request_of p (get_transaction_count address block) =
    build_json p (codes "eth_getTransactionCount") (p.braces (p.text address ∷ p.text block ∷ []))
request_of p (get_code_at address block) =
    build_json p (codes "eth_getCode") (p.braces (p.text address ∷ p.text block ∷ []))
request_of p (get_storage_at address position block) =
    build_json p (codes "eth_getStorageAt")
      (p.braces (p.text address ∷ p.text position ∷ p.text block ∷ []))
request_of p (sign_data address data_) =
    build_json p (codes "eth_sign") (p.braces (p.text data_ ∷ []))
request_of p (sha3_call data_) = build_json p (codes "web3_sha3") (p.braces (p.text data_ ∷ []))
request_of p (get_block_transaction_count_by_hash hash) =
    build_json p (codes "eth_getBlockTransactionCountByHash") (p.braces (p.text hash ∷ []))
request_of p (get_uncle_count_by_block_hash hash) =
    build_json p (codes "eth_getUncleCountByBlockHash") (p.braces (p.text hash ∷ []))
request_of p (get_transaction_by_hash hash) =
    build_json p (codes "eth_getTransactionByHash") (p.braces (p.text hash ∷ []))
request_of p (get_transaction_receipt hash) =
    build_json p (codes "eth_getTransactionReceipt") (p.braces (p.text hash ∷ []))
request_of p (get_block_transaction_count_by_number number) =
    build_json p (codes "eth_getBlockTransactionCountByNumber") (p.braces (p.text number ∷ []))
request_of p (get_uncle_count_by_block_number number) =
    build_json p (codes "eth_getUncleCountByBlockNumber") (p.braces (p.text number ∷ []))
request_of p (send_raw_transaction signed_tx_data) =
    build_json p (codes "eth_sendRawTransaction") (p.braces (p.text signed_tx_data ∷ []))
request_of p (uninstall_filter filter_id) =
    build_json p (codes "eth_uninstallFilter") (p.braces (p.text filter_id ∷ []))
request_of p (get_filter_changes filter_id) =
    build_json p (codes "eth_getFilterChanges") (p.braces (p.text filter_id ∷ []))
request_of p (get_filter_logs filter_id) =
    build_json p (codes "eth_getFilterLogs") (p.braces (p.text filter_id ∷ []))
request_of p (get_block_by_hash hash whole) =
    build_json p (codes "eth_getBlockByHash") (p.braces (p.text hash ∷ p.boolean whole ∷ []))
request_of p (get_block_by_number number whole) =
    build_json p (codes "eth_getBlockByNumber") (p.braces (p.text number ∷ p.boolean whole ∷ []))
request_of p (get_transaction_by_block_hash_and_index hash index) =
    build_json p (codes "eth_getTransactionByBlockHashAndIndex")
      (p.braces (p.text hash ∷ p.text index ∷ []))
request_of p (get_uncle_by_block_hash_and_index hash index) =
    build_json p (codes "eth_getUncleByBlockHashAndIndex")
      (p.braces (p.text hash ∷ p.text index ∷ []))
request_of p (get_transaction_by_block_number_and_index number index) =
    build_json p (codes "eth_getTransactionByBlockNumberAndIndex")
      (p.braces (p.text number ∷ p.text index ∷ []))
request_of p (get_uncle_by_block_number_and_index number index) =
    build_json p (codes "eth_getUncleByBlockNumberAndIndex")
      (p.braces (p.text number ∷ p.text index ∷ []))
request_of p (submit_work nonce pow_hash digest) =
    build_json p (codes "eth_submitWork")
      (p.braces (p.text nonce ∷ p.text pow_hash ∷ p.text digest ∷ []))
request_of p (submit_hashrate hashrate id) =
    build_json p (codes "eth_submitHashrate") (p.braces (p.text hashrate ∷ p.text id ∷ []))
request_of p (sign_transaction tx) = build_json p (codes "eth_signTransaction") (p.braces (tx ∷ []))
request_of p (send_transaction tx) = build_json p (codes "eth_sendTransaction") (p.braces (tx ∷ []))
request_of p (call_contract o block) =
    build_json p (codes "eth_call") (p.braces (o ∷ p.text block ∷ []))
request_of p (estimate_gas o) = build_json p (codes "eth_estimateGas") (p.braces (o ∷ []))

unfoldable pub handle : (p : Platform) → Call p → ErrorState → Outcome (p.Json × ErrorState)
handle p (get_balance address block) err = eth_get_balance p address block err
handle p (get_transaction_count address block) err = eth_get_transaction_count p address block err
handle p (get_code_at address block) err = eth_get_code p address block err
handle p (get_storage_at address position block) err =
    eth_get_storage_at p address position block err
handle p (sign_data address data_) err = eth_sign p address data_ err
handle p (sha3_call data_) err = web3_sha3 p data_ err
handle p (get_block_transaction_count_by_hash hash) err =
    eth_get_block_transaction_count_by_hash p hash err
handle p (get_uncle_count_by_block_hash hash) err = eth_get_uncle_count_by_block_hash p hash err
handle p (get_transaction_by_hash hash) err = eth_get_transaction_by_hash p hash err
handle p (get_transaction_receipt hash) err = eth_get_transaction_receipt p hash err
handle p (get_block_transaction_count_by_number number) err =
    eth_get_block_transaction_count_by_number p number err
handle p (get_uncle_count_by_block_number number) err =
    eth_get_uncle_count_by_block_number p number err
handle p (send_raw_transaction signed_tx_data) err = eth_send_raw_transaction p signed_tx_data err
handle p (uninstall_filter filter_id) err = eth_uninstall_filter p filter_id err
handle p (get_filter_changes filter_id) err = eth_get_filter_changes p filter_id err
handle p (get_filter_logs filter_id) err = eth_get_filter_logs p filter_id err
handle p (get_block_by_hash hash whole) err = eth_get_block_by_hash p hash whole err
handle p (get_block_by_number number whole) err = eth_get_block_by_number p number whole err
handle p (get_transaction_by_block_hash_and_index hash index) err =
    eth_get_transaction_by_block_hash_and_index p hash index err
handle p (get_uncle_by_block_hash_and_index hash index) err =
    eth_get_uncle_by_block_hash_and_index p hash index err
handle p (get_transaction_by_block_number_and_index number index) err =
    eth_get_transaction_by_block_number_and_index p number index err
handle p (get_uncle_by_block_number_and_index number index) err =
    eth_get_uncle_by_block_number_and_index p number index err
handle p (submit_work nonce pow_hash digest) err = eth_submit_work p nonce pow_hash digest err
handle p (submit_hashrate hashrate id) err = eth_submit_hashrate p hashrate id err
handle p (sign_transaction tx) err = eth_sign_transaction p tx err
handle p (send_transaction tx) err = eth_send_transaction p tx err
handle p (call_contract o block) err = eth_call p o block err
handle p (estimate_gas o) err = eth_estimate_gas p o err

checks-IsCheck : (p : Platform) (call : Call p) (c : ℕ) → checks p call ≡ ok c → IsCheck c
unfolding checks
checks-IsCheck p (get_balance address block) c h = account_code-IsCheck p address block c h
checks-IsCheck p (get_transaction_count address block) c h =
    account_code-IsCheck p address block c h
checks-IsCheck p (get_code_at address block) c h = account_code-IsCheck p address block c h
checks-IsCheck p (get_storage_at address position block) c h =
    storage_code-IsCheck p address position block c h
checks-IsCheck p (sign_data address data_) c h = sign_code-IsCheck p address data_ c h
checks-IsCheck p (sha3_call data_) c h = ok-IsCheck (data_code data_) c (data_code-IsCheck data_) h
checks-IsCheck p (get_block_transaction_count_by_hash hash) c h =
    ok-IsCheck (hash_code hash) c (hash_code-IsCheck hash) h
checks-IsCheck p (get_uncle_count_by_block_hash hash) c h =
    ok-IsCheck (hash_code hash) c (hash_code-IsCheck hash) h
checks-IsCheck p (get_transaction_by_hash hash) c h =
    ok-IsCheck (hash_code hash) c (hash_code-IsCheck hash) h
checks-IsCheck p (get_transaction_receipt hash) c h =
    ok-IsCheck (hash_code hash) c (hash_code-IsCheck hash) h
checks-IsCheck p (get_block_transaction_count_by_number number) c h =
    ok-IsCheck (data_code number) c (data_code-IsCheck number) h
checks-IsCheck p (get_uncle_count_by_block_number number) c h =
    ok-IsCheck (data_code number) c (data_code-IsCheck number) h
checks-IsCheck p (send_raw_transaction signed_tx_data) c h =
    ok-IsCheck (data_code signed_tx_data) c (data_code-IsCheck signed_tx_data) h
checks-IsCheck p (uninstall_filter filter_id) c h =
    ok-IsCheck (data_code filter_id) c (data_code-IsCheck filter_id) h
checks-IsCheck p (get_filter_changes filter_id) c h =
    ok-IsCheck (data_code filter_id) c (data_code-IsCheck filter_id) h
checks-IsCheck p (get_filter_logs filter_id) c h =
    ok-IsCheck (data_code filter_id) c (data_code-IsCheck filter_id) h
checks-IsCheck p (get_block_by_hash hash whole) c h =
    ok-IsCheck (hash_code hash) c (hash_code-IsCheck hash) h
checks-IsCheck p (get_block_by_number number whole) c h =
    ok-IsCheck (data_code number) c (data_code-IsCheck number) h
checks-IsCheck p (get_transaction_by_block_hash_and_index hash index) c h =
    ok-IsCheck (hash_index_code hash index) c (hash_index_code-IsCheck hash index) h
checks-IsCheck p (get_uncle_by_block_hash_and_index hash index) c h =
    ok-IsCheck (hash_index_code hash index) c (hash_index_code-IsCheck hash index) h
checks-IsCheck p (get_transaction_by_block_number_and_index number index) c h =
    ok-IsCheck (number_index_code number index) c (number_index_code-IsCheck number index) h
checks-IsCheck p (get_uncle_by_block_number_and_index number index) c h =
    ok-IsCheck (number_index_code number index) c (number_index_code-IsCheck number index) h
checks-IsCheck p (submit_work nonce pow_hash digest) c h =
    ok-IsCheck (work_code nonce pow_hash digest) c (work_code-IsCheck nonce pow_hash digest) h
checks-IsCheck p (submit_hashrate hashrate id) c h =
    ok-IsCheck (hashrate_code hashrate id) c (hashrate_code-IsCheck hashrate id) h
checks-IsCheck p (sign_transaction tx) c h = transaction_code-IsCheck p tx c h
checks-IsCheck p (send_transaction tx) c h = transaction_code-IsCheck p tx c h
checks-IsCheck p (call_contract o block) c h = call_code-IsCheck p o block c h
checks-IsCheck p (estimate_gas o) c h = estimate_code-IsCheck p o c h

-- A handler is its checks and then the reply with its body.
pub handle-checks :
    (p : Platform) (call : Call p) (err : ErrorState)
    → handle p call err ≡ (checks p call >>= λ code. ok (reply p err code (request_of p call)))
unfolding checks handle request_of eth_get_balance eth_get_transaction_count eth_get_code
    eth_get_storage_at eth_sign web3_sha3 eth_get_block_transaction_count_by_hash
    eth_get_uncle_count_by_block_hash eth_get_transaction_by_hash eth_get_transaction_receipt
    eth_get_block_transaction_count_by_number eth_get_uncle_count_by_block_number
    eth_send_raw_transaction eth_uninstall_filter eth_get_filter_changes eth_get_filter_logs
    eth_get_block_by_hash eth_get_block_by_number eth_get_transaction_by_block_hash_and_index
    eth_get_uncle_by_block_hash_and_index eth_get_transaction_by_block_number_and_index
    eth_get_uncle_by_block_number_and_index eth_submit_work eth_submit_hashrate eth_sign_transaction
    eth_send_transaction eth_call eth_estimate_gas
handle-checks p (get_balance address block) err = refl
handle-checks p (get_transaction_count address block) err = refl
handle-checks p (get_code_at address block) err = refl
handle-checks p (get_storage_at address position block) err = refl
handle-checks p (sign_data address data_) err = refl
handle-checks p (sha3_call data_) err = refl
handle-checks p (get_block_transaction_count_by_hash hash) err = refl
handle-checks p (get_uncle_count_by_block_hash hash) err = refl
handle-checks p (get_transaction_by_hash hash) err = refl
handle-checks p (get_transaction_receipt hash) err = refl
handle-checks p (get_block_transaction_count_by_number number) err = refl
handle-checks p (get_uncle_count_by_block_number number) err = refl
handle-checks p (send_raw_transaction signed_tx_data) err = refl
handle-checks p (uninstall_filter filter_id) err = refl
handle-checks p (get_filter_changes filter_id) err = refl
handle-checks p (get_filter_logs filter_id) err = refl
handle-checks p (get_block_by_hash hash whole) err = refl
handle-checks p (get_block_by_number number whole) err = refl
handle-checks p (get_transaction_by_block_hash_and_index hash index) err = refl
handle-checks p (get_uncle_by_block_hash_and_index hash index) err = refl
handle-checks p (get_transaction_by_block_number_and_index number index) err = refl
handle-checks p (get_uncle_by_block_number_and_index number index) err = refl
handle-checks p (submit_work nonce pow_hash digest) err = refl
handle-checks p (submit_hashrate hashrate id) err = refl
handle-checks p (sign_transaction tx) err = refl
handle-checks p (send_transaction tx) err = refl
handle-checks p (call_contract o block) err = refl
handle-checks p (estimate_gas o) err = refl

-- A handler that returns on a fresh error object either leaves no error and returns the request, or
-- sets the error 4, 5, 6 or 9 and returns the empty object.
pub handle-Answers :
    (p : Platform) (call : Call p) (j : p.Json) (e : ErrorState)
    → handle p call fresh ≡ ok (j, e)
    → Answers p (request_of p call) j e
handle-Answers p call j e h =
    checked-Answers p (checks p call) (request_of p call) (checks-IsCheck p call)
      (sym (handle-checks p call fresh) ∙ h)
