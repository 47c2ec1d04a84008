-- ===== src/Web/Rpc/Returns.antt =====
-- The requests whose arguments are texts return on all of them: neither the checks of their
-- addresses nor anything else throws.
use web3cpp.Common.{
  ℕ, ◌≡◌, refl, ap, ◌∙◌, Bool, true, false, not, if◌then◌else◌, List, Outcome, ok, ◌>>=◌,
}
use web3cpp.Web.Errors.{ErrorState, fresh, get_code}
use web3cpp.Web.Platform.{Platform, KeccakLaws, DecimalLaws}
use web3cpp.Web.Utils.Addresses.Checksum.{is_address-returns}
use web3cpp.Web.Rpc.{check_address, check_hex_data, check_default_block, reply}
use web3cpp.Web.Rpc.State.{account_code, storage_code, sign_code}
use web3cpp.Web.Rpc.Blocks.{data_code, hash_code, hash_index_code, number_index_code}
use web3cpp.Web.Rpc.Work.{work_code, hashrate_code}
use web3cpp.Web.Rpc.Replies.{Answers, IsRefusal}
use web3cpp.Web.Rpc.Calls.{
  Call, checks, request_of, handle, handle-checks, handle-Answers, get_balance,
  get_transaction_count, get_code_at, get_storage_at, sign_data, sha3_call,
  get_block_transaction_count_by_hash, get_uncle_count_by_block_hash, get_transaction_by_hash,
  get_transaction_receipt, get_block_transaction_count_by_number, get_uncle_count_by_block_number,
  send_raw_transaction, uninstall_filter, get_filter_changes, get_filter_logs, get_block_by_hash,
  get_block_by_number, get_transaction_by_block_hash_and_index, get_uncle_by_block_hash_and_index,
  get_transaction_by_block_number_and_index, get_uncle_by_block_number_and_index, submit_work,
  submit_hashrate, sign_transaction, send_transaction, call_contract, estimate_gas,
}
use web3cpp.Web.Rpc.Numbers.{
  NumberCall, as_call, handle_number, handle_number-as_call, handle_number-refused,
}

-- No argument is a json value.
unfoldable pub takes_text : (p : Platform) → Call p → Bool
takes_text p (get_balance address block) = true
takes_text p (get_transaction_count address block) = true
takes_text p (get_code_at address block) = true
takes_text p (get_storage_at address position block) = true
takes_text p (sign_data address data_) = true
takes_text p (sha3_call data_) = true
takes_text p (get_block_transaction_count_by_hash hash) = true
takes_text p (get_uncle_count_by_block_hash hash) = true
takes_text p (get_transaction_by_hash hash) = true
takes_text p (get_transaction_receipt hash) = true
takes_text p (get_block_transaction_count_by_number number) = true
takes_text p (get_uncle_count_by_block_number number) = true
takes_text p (send_raw_transaction signed_tx_data) = true
takes_text p (uninstall_filter filter_id) = true
takes_text p (get_filter_changes filter_id) = true
takes_text p (get_filter_logs filter_id) = true
takes_text p (get_block_by_hash hash whole) = true
takes_text p (get_block_by_number number whole) = true
takes_text p (get_transaction_by_block_hash_and_index hash index) = true
takes_text p (get_uncle_by_block_hash_and_index hash index) = true
takes_text p (get_transaction_by_block_number_and_index number index) = true
takes_text p (get_uncle_by_block_number_and_index number index) = true
takes_text p (submit_work nonce pow_hash digest) = true
takes_text p (submit_hashrate hashrate id) = true
takes_text p (sign_transaction tx) = false
takes_text p (send_transaction tx) = false
takes_text p (call_contract o block) = false
takes_text p (estimate_gas o) = false

abbrev Returns : Outcome ℕ → Type 0
Returns m = (c : ℕ) × (m ≡ ok c)

branch : (b : Bool) (x y : Outcome ℕ) → Returns x → Returns y → Returns (if b then x else y)
branch true x y hx hy = hx
branch false x y hx hy = hy

account_code-Returns : (p : Platform) (a b : List ℕ) → KeccakLaws p → Returns (account_code p a b)
unfolding account_code check_address
account_code-Returns p a b laws =
    let (good, e) = is_address-returns p a laws in
    rw e (
      branch (not good) _ _ (5, refl)
        (branch (not (check_default_block b)) _ _ (9, refl) (0, refl)))

storage_code-Returns :
    (p : Platform) (a s b : List ℕ) → KeccakLaws p → Returns (storage_code p a s b)
unfolding storage_code check_address
storage_code-Returns p a s b laws =
    let (good, e) = is_address-returns p a laws in
    rw e (
      branch (not good) _ _ (5, refl)
        (branch (not (check_hex_data s true)) _ _ (4, refl)
          (branch (not (check_default_block b)) _ _ (9, refl) (0, refl))))

sign_code-Returns : (p : Platform) (a d : List ℕ) → KeccakLaws p → Returns (sign_code p a d)
unfolding sign_code check_address
sign_code-Returns p a d laws =
    let (good, e) = is_address-returns p a laws in
    rw e (
      branch (not good) _ _ (5, refl)
        (branch (not (check_hex_data d true)) _ _ (4, refl) (0, refl)))

checks-Returns :
    (p : Platform) (call : Call p)
    → KeccakLaws p
    → takes_text p call ≡ true
    → Returns (checks p call)
unfolding checks takes_text
checks-Returns p (get_balance address block) laws h = account_code-Returns p address block laws
checks-Returns p (get_transaction_count address block) laws h =
    account_code-Returns p address block laws
checks-Returns p (get_code_at address block) laws h = account_code-Returns p address block laws
checks-Returns p (get_storage_at address position block) laws h =
    storage_code-Returns p address position block laws
checks-Returns p (sign_data address data_) laws h = sign_code-Returns p address data_ laws
checks-Returns p (sha3_call data_) laws h = ((data_code data_), refl)
checks-Returns p (get_block_transaction_count_by_hash hash) laws h = ((hash_code hash), refl)
checks-Returns p (get_uncle_count_by_block_hash hash) laws h = ((hash_code hash), refl)
checks-Returns p (get_transaction_by_hash hash) laws h = ((hash_code hash), refl)
checks-Returns p (get_transaction_receipt hash) laws h = ((hash_code hash), refl)
checks-Returns p (get_block_transaction_count_by_number number) laws h = ((data_code number), refl)
checks-Returns p (get_uncle_count_by_block_number number) laws h = ((data_code number), refl)
checks-Returns p (send_raw_transaction signed_tx_data) laws h = ((data_code signed_tx_data), refl)
checks-Returns p (uninstall_filter filter_id) laws h = ((data_code filter_id), refl)
checks-Returns p (get_filter_changes filter_id) laws h = ((data_code filter_id), refl)
checks-Returns p (get_filter_logs filter_id) laws h = ((data_code filter_id), refl)
checks-Returns p (get_block_by_hash hash whole) laws h = ((hash_code hash), refl)
checks-Returns p (get_block_by_number number whole) laws h = ((data_code number), refl)
checks-Returns p (get_transaction_by_block_hash_and_index hash index) laws h =
    ((hash_index_code hash index), refl)
checks-Returns p (get_uncle_by_block_hash_and_index hash index) laws h =
    ((hash_index_code hash index), refl)
checks-Returns p (get_transaction_by_block_number_and_index number index) laws h =
    ((number_index_code number index), refl)
checks-Returns p (get_uncle_by_block_number_and_index number index) laws h =
    ((number_index_code number index), refl)
checks-Returns p (submit_work nonce pow_hash digest) laws h =
    ((work_code nonce pow_hash digest), refl)
checks-Returns p (submit_hashrate hashrate id) laws h = ((hashrate_code hashrate id), refl)
checks-Returns p (sign_transaction tx) laws h = cc
checks-Returns p (send_transaction tx) laws h = cc
checks-Returns p (call_contract o block) laws h = cc
checks-Returns p (estimate_gas o) laws h = cc

handle_returns :
    (p : Platform) (call : Call p)
    → KeccakLaws p
    → takes_text p call ≡ true
    → (j : p.Json) × (e : ErrorState) × (handle p call fresh ≡ ok (j, e))
handle_returns p call laws text =
    let (c, passed) = checks-Returns p call laws text in
    let answer = reply p fresh c (request_of p call) in
    (
      answer.0,
      answer.1,
      handle-checks p call fresh
          ∙ ap (λ m. m >>= λ code. ok (reply p fresh code (request_of p call))) passed,
    )

-- A request whose arguments are texts returns on a fresh error object, if a digest has 32 bytes: it
-- leaves no error and returns the request, or sets the error 4, 5, 6 or 9 and returns the empty
-- object.
pub handle-answered :
    (p : Platform) (call : Call p)
    → KeccakLaws p
    → takes_text p call ≡ true
    → (j : p.Json) × (e : ErrorState) × (handle p call fresh ≡ ok (j, e))
      × Answers p (request_of p call) j e
handle-answered p call laws text =
    let (j, e, run) = handle_returns p call laws text in (j, e, run, handle-Answers p call j e run)

-- An overload that takes a number, and else only texts, returns on a fresh error object, if a digest
-- has 32 bytes and decimal output has digits only: it sets the error 4, 5, 6 or 9 and returns the
-- empty object, whatever the number is.
pub handle_number-refuses :
    (p : Platform) (call : NumberCall p)
    → KeccakLaws p
    → DecimalLaws p
    → takes_text p (as_call p call) ≡ true
    → (j : p.Json) × (e : ErrorState) × (handle_number p call fresh ≡ ok (j, e))
      × (j ≡ p.empty_object)
      × IsRefusal (get_code e)
handle_number-refuses p call laws decimal text =
    let (j, e, run) = handle_returns p (as_call p call) laws text in
    let run' = handle_number-as_call p call fresh ∙ run in
    let (empty, refused) = handle_number-refused p call j e decimal run' in
    (j, e, run', empty, refused)
