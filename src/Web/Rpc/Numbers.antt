-- ===== src/Web/Rpc/Numbers.antt =====
-- The overloads of src/RPC.cpp that take a `BigNumber` write it in decimal, and the check behind them
-- wants hex with a prefix.
use web3cpp.Common.{ℕ, ◌≡◌, refl, sym, ◌∙◌, Bool, List, Outcome, ok, arith}
use web3cpp.Web.Errors.{ErrorState, fresh, get_code}
use web3cpp.Web.Platform.{Platform, DecimalLaws}
use web3cpp.Web.Rpc.{check_hex_data}
use web3cpp.Web.Rpc.State.{
  eth_get_balance_number, eth_get_transaction_count_number, eth_get_code_number,
  eth_get_storage_at_number, account_code, storage_code,
}
use web3cpp.Web.Rpc.Objects.{eth_call_number, call_code}
use web3cpp.Web.Rpc.Blocks.{
  eth_get_block_transaction_count_by_number_number, eth_get_uncle_count_by_block_number_number,
  eth_get_block_by_number_number, eth_get_transaction_by_block_number_and_index_number,
  eth_get_uncle_by_block_number_and_index_number, data_code, number_index_code,
}
use web3cpp.Web.Rpc.Calls.{
  Call, get_balance, get_transaction_count, get_code_at, get_storage_at, call_contract,
  get_block_transaction_count_by_number, get_uncle_count_by_block_number, get_block_by_number,
  get_transaction_by_block_number_and_index, get_uncle_by_block_number_and_index, checks,
  request_of, handle, handle-checks,
}
use web3cpp.Web.Rpc.Refusals.{block_decimal, strict_decimal}
use web3cpp.Web.Rpc.Replies.{IsRefusal, checked-refused}

pub data NumberCall (p : Platform) : Type 0 where
  number_of_balance : List ℕ → ℕ → NumberCall p
  number_of_transaction_count : List ℕ → ℕ → NumberCall p
  number_of_code : List ℕ → ℕ → NumberCall p
  number_of_storage_at : List ℕ → List ℕ → ℕ → NumberCall p
  number_of_call : p.Json → ℕ → NumberCall p
  number_of_block_transaction_count_by_number : ℕ → NumberCall p
  number_of_uncle_count_by_block_number : ℕ → NumberCall p
  number_of_block_by_number : ℕ → Bool → NumberCall p
  number_of_transaction_by_block_number_and_index : ℕ → List ℕ → NumberCall p
  number_of_uncle_by_block_number_and_index : ℕ → List ℕ → NumberCall p

unfoldable pub handle_number :
    (p : Platform) → NumberCall p → ErrorState → Outcome (p.Json × ErrorState)
handle_number p (number_of_balance address n) err = eth_get_balance_number p address n err
handle_number p (number_of_transaction_count address n) err =
    eth_get_transaction_count_number p address n err
handle_number p (number_of_code address n) err = eth_get_code_number p address n err
handle_number p (number_of_storage_at address position n) err =
    eth_get_storage_at_number p address position n err
handle_number p (number_of_call o n) err = eth_call_number p o n err
handle_number p (number_of_block_transaction_count_by_number n) err =
    eth_get_block_transaction_count_by_number_number p n err
handle_number p (number_of_uncle_count_by_block_number n) err =
    eth_get_uncle_count_by_block_number_number p n err
handle_number p (number_of_block_by_number n whole) err =
    eth_get_block_by_number_number p n whole err
handle_number p (number_of_transaction_by_block_number_and_index n index) err =
    eth_get_transaction_by_block_number_and_index_number p n index err
handle_number p (number_of_uncle_by_block_number_and_index n index) err =
    eth_get_uncle_by_block_number_and_index_number p n index err

-- The request with the number as the text that is sent on.
unfoldable pub as_call : (p : Platform) → NumberCall p → Call p
as_call p (number_of_balance address n) = get_balance address (p.print_dec n)
as_call p (number_of_transaction_count address n) = get_transaction_count address (p.print_dec n)
as_call p (number_of_code address n) = get_code_at address (p.print_dec n)
as_call p (number_of_storage_at address position n) =
    get_storage_at address position (p.print_dec n)
as_call p (number_of_call o n) = call_contract o (p.print_dec n)
as_call p (number_of_block_transaction_count_by_number n) =
    get_block_transaction_count_by_number (p.print_dec n)
as_call p (number_of_uncle_count_by_block_number n) =
    get_uncle_count_by_block_number (p.print_dec n)
as_call p (number_of_block_by_number n whole) = get_block_by_number (p.print_dec n) whole
as_call p (number_of_transaction_by_block_number_and_index n index) =
    get_transaction_by_block_number_and_index (p.print_dec n) index
as_call p (number_of_uncle_by_block_number_and_index n index) =
    get_uncle_by_block_number_and_index (p.print_dec n) index

pub handle_number-as_call :
    (p : Platform) (call : NumberCall p) (err : ErrorState)
    → handle_number p call err ≡ handle p (as_call p call) err
unfolding handle_number as_call handle eth_get_balance_number eth_get_transaction_count_number
    eth_get_code_number eth_get_storage_at_number eth_call_number
    eth_get_block_transaction_count_by_number_number eth_get_uncle_count_by_block_number_number
    eth_get_block_by_number_number eth_get_transaction_by_block_number_and_index_number
    eth_get_uncle_by_block_number_and_index_number
handle_number-as_call p (number_of_balance address n) err = refl
handle_number-as_call p (number_of_transaction_count address n) err = refl
handle_number-as_call p (number_of_code address n) err = refl
handle_number-as_call p (number_of_storage_at address position n) err = refl
handle_number-as_call p (number_of_call o n) err = refl
handle_number-as_call p (number_of_block_transaction_count_by_number n) err = refl
handle_number-as_call p (number_of_uncle_count_by_block_number n) err = refl
handle_number-as_call p (number_of_block_by_number n whole) err = refl
handle_number-as_call p (number_of_transaction_by_block_number_and_index n index) err = refl
handle_number-as_call p (number_of_uncle_by_block_number_and_index n index) err = refl

decimal_refused :
    (p : Platform) (call : NumberCall p) (c : ℕ)
    → DecimalLaws p
    → checks p (as_call p call) ≡ ok c
    → IsRefusal c
unfolding checks as_call account_code storage_code call_code data_code number_index_code
    check_hex_data
decimal_refused p (number_of_balance address n) c laws h =
    ground (arith, h, block_decimal (p.print_dec n) (laws.digits_only n))
decimal_refused p (number_of_transaction_count address n) c laws h =
    ground (arith, h, block_decimal (p.print_dec n) (laws.digits_only n))
decimal_refused p (number_of_code address n) c laws h =
    ground (arith, h, block_decimal (p.print_dec n) (laws.digits_only n))
decimal_refused p (number_of_storage_at address position n) c laws h =
    ground (arith, h, block_decimal (p.print_dec n) (laws.digits_only n))
decimal_refused p (number_of_call o n) c laws h =
    ground (arith, h, block_decimal (p.print_dec n) (laws.digits_only n))
decimal_refused p (number_of_block_transaction_count_by_number n) c laws h =
    ground (arith, h, strict_decimal (p.print_dec n) (laws.digits_only n))
decimal_refused p (number_of_uncle_count_by_block_number n) c laws h =
    ground (arith, h, strict_decimal (p.print_dec n) (laws.digits_only n))
decimal_refused p (number_of_block_by_number n whole) c laws h =
    ground (arith, h, strict_decimal (p.print_dec n) (laws.digits_only n))
decimal_refused p (number_of_transaction_by_block_number_and_index n index) c laws h =
    ground (arith, h, strict_decimal (p.print_dec n) (laws.digits_only n))
decimal_refused p (number_of_uncle_by_block_number_and_index n index) c laws h =
    ground (arith, h, strict_decimal (p.print_dec n) (laws.digits_only n))

-- An overload that returns on a fresh error object has refused its number: it sets one of the errors
-- 4, 5, 6 and 9 and returns the empty object, whatever the number is.
pub handle_number-refused :
    (p : Platform) (call : NumberCall p) (j : p.Json) (e : ErrorState)
    → DecimalLaws p
    → handle_number p call fresh ≡ ok (j, e)
    → (j ≡ p.empty_object) × IsRefusal (get_code e)
handle_number-refused p call j e laws h =
    let steps =
      sym (handle_number-as_call p call fresh ∙ handle-checks p (as_call p call) fresh) ∙ h in
    checked-refused p (checks p (as_call p call)) (request_of p (as_call p call))
      (λ c. decimal_refused p call c laws) steps
