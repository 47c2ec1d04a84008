-- ===== src/Web/Rpc/State.antt =====
-- Requests about an account: `eth_getBalance`, `eth_getStorageAt`, `eth_getTransactionCount`,
-- `eth_getCode` and `eth_sign` of src/RPC.cpp. `_number` is the overload that takes the block as a
-- `BigNumber`.
use web3cpp.Common.{ℕ, true, not, List, [], ◌∷◌, if◌then◌else◌, Outcome, ok, ◌>>=◌}
use web3cpp.Common.Bytes.{codes}
use web3cpp.Web.Errors.{ErrorState}
use web3cpp.Web.Platform.{Platform}
use web3cpp.Web.Rpc.{check_hex_data, check_default_block, check_address, build_json, reply}

module _ (p : Platform) where
  -- The check of an address, then of a block.
  unfoldable pub account_code : List ℕ → List ℕ → Outcome ℕ
  account_code address block = check_address p address >>= λ good.
      if not good then ok 5 else if not (check_default_block block) then ok 9 else ok 0

  unfoldable pub storage_code : List ℕ → List ℕ → List ℕ → Outcome ℕ
  storage_code address position block = check_address p address >>= λ good.
      if not good
      then ok 5
      else if not (check_hex_data position true)
      then ok 4
      else if not (check_default_block block)
      then ok 9
      else ok 0

  unfoldable pub sign_code : List ℕ → List ℕ → Outcome ℕ
  sign_code address data_ = check_address p address >>= λ good.
      if not good then ok 5 else if not (check_hex_data data_ true) then ok 4 else ok 0

  unfoldable pub eth_get_balance : List ℕ → List ℕ → ErrorState → Outcome (p.Json × ErrorState)
  eth_get_balance address block err = account_code address block >>= λ code. ok (
      reply p err code
        (build_json p (codes "eth_getBalance") (p.braces (p.text address ∷ p.text block ∷ []))))

  unfoldable pub eth_get_balance_number : List ℕ → ℕ → ErrorState → Outcome (p.Json × ErrorState)
  eth_get_balance_number address block err = eth_get_balance address (p.print_dec block) err

  unfoldable pub eth_get_transaction_count :
      List ℕ → List ℕ → ErrorState → Outcome (p.Json × ErrorState)
  eth_get_transaction_count address block err = account_code address block >>= λ code. ok (
      reply p err code (
        build_json p (codes "eth_getTransactionCount")
          (p.braces (p.text address ∷ p.text block ∷ []))))

  unfoldable pub eth_get_transaction_count_number :
      List ℕ → ℕ → ErrorState → Outcome (p.Json × ErrorState)
  eth_get_transaction_count_number address block err =
      eth_get_transaction_count address (p.print_dec block) err

  unfoldable pub eth_get_code : List ℕ → List ℕ → ErrorState → Outcome (p.Json × ErrorState)
  eth_get_code address block err = account_code address block >>= λ code. ok (
      reply p err code
        (build_json p (codes "eth_getCode") (p.braces (p.text address ∷ p.text block ∷ []))))

  unfoldable pub eth_get_code_number : List ℕ → ℕ → ErrorState → Outcome (p.Json × ErrorState)
  eth_get_code_number address block err = eth_get_code address (p.print_dec block) err

  unfoldable pub eth_get_storage_at :
      List ℕ → List ℕ → List ℕ → ErrorState → Outcome (p.Json × ErrorState)
  eth_get_storage_at address position block err = storage_code address position block >>= λ code.
      ok (
        reply p err code (
          build_json p (codes "eth_getStorageAt")
            (p.braces (p.text address ∷ p.text position ∷ p.text block ∷ []))))

  unfoldable pub eth_get_storage_at_number :
      List ℕ → List ℕ → ℕ → ErrorState → Outcome (p.Json × ErrorState)
  eth_get_storage_at_number address position block err =
      eth_get_storage_at address position (p.print_dec block) err

  -- The request holds the data, and not the address.
  unfoldable pub eth_sign : List ℕ → List ℕ → ErrorState → Outcome (p.Json × ErrorState)
  eth_sign address data_ err = sign_code address data_ >>= λ code.
      ok (reply p err code (build_json p (codes "eth_sign") (p.braces (p.text data_ ∷ []))))
