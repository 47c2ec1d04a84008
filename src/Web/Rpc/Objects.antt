-- ===== src/Web/Rpc/Objects.antt =====
-- Requests that take a json object: `eth_signTransaction`, `eth_sendTransaction`, `eth_call` and
-- `eth_estimateGas` of src/RPC.cpp.
use web3cpp.Common.{ℕ, Bool, true, false, not, List, [], ◌∷◌, if◌then◌else◌, Outcome, ok, ◌>>=◌}
use web3cpp.Common.Bytes.{codes}
use web3cpp.Web.Errors.{ErrorState}
use web3cpp.Web.Platform.{Platform}
use web3cpp.Web.Rpc.{check_hex_data, check_default_block, check_address, build_json, reply}

module _ (p : Platform) where
  -- `_checkAddress(o[key])` and `_checkHexData(o[key])`, with the conversion to a string.
  unfoldable pub address_at : p.Json → List ℕ → Outcome Bool
  address_at o key = do v ← p.at o key; s ← p.get_string v; check_address p s

  unfoldable pub hex_at : p.Json → List ℕ → Outcome Bool
  hex_at o key = do v ← p.at o key; s ← p.get_string v; ok (check_hex_data s true)

  -- `o.count(key) && !check`, as the check that an absent key passes.
  unfoldable pub address_if_any : p.Json → List ℕ → Outcome Bool
  address_if_any o key = if p.contains o key then address_at o key else ok true

  -- The keys in turn, up to the first that fails.
  unfoldable pub hex_if_any : p.Json → List (List ℕ) → Outcome Bool
  hex_if_any o [] = ok true
  hex_if_any o (key ∷ keys) =
      let rest = hex_if_any o keys in
      if p.contains o key then (hex_at o key >>= λ good. if good then rest else ok false) else rest

  -- `!_checkAddress(o["from"]) || (o.count("to") && !_checkAddress(o["to"]))`, negated
  unfoldable pub addresses_pass : p.Json → Outcome Bool
  addresses_pass o = address_at o (codes "from") >>= λ good.
      if good then address_if_any o (codes "to") else ok false

  unfoldable pub transaction_code : p.Json → Outcome ℕ
  transaction_code tx = do
    addresses ← addresses_pass tx
    if not addresses then ok 5 else (do
      fields ←
          hex_if_any tx
            (codes "data" ∷ codes "gas" ∷ codes "gasPrice" ∷ codes "value" ∷ codes "nonce" ∷ [])
      if not fields then ok 4 else ok 0)

  -- `!_checkHexData(o["data"]) || ...`, negated: the data must be there.
  unfoldable pub call_fields_pass : p.Json → Outcome Bool
  call_fields_pass o = hex_at o (codes "data") >>= λ good.
      if good then hex_if_any o (codes "gas" ∷ codes "gasPrice" ∷ codes "value" ∷ []) else ok false

  unfoldable pub estimate_code : p.Json → Outcome ℕ
  estimate_code o = do
    addresses ← addresses_pass o
    if not addresses
        then ok 5
        else (do fields ← call_fields_pass o; if not fields then ok 4 else ok 0)

  unfoldable pub call_code : p.Json → List ℕ → Outcome ℕ
  call_code o block = do
    addresses ← addresses_pass o
    if not addresses then ok 5 else (do
      fields ← call_fields_pass o
      if not fields then ok 4 else if not (check_default_block block) then ok 9 else ok 0)

  unfoldable pub eth_sign_transaction : p.Json → ErrorState → Outcome (p.Json × ErrorState)
  eth_sign_transaction tx err = transaction_code tx >>= λ code.
      ok (reply p err code (build_json p (codes "eth_signTransaction") (p.braces (tx ∷ []))))

  unfoldable pub eth_send_transaction : p.Json → ErrorState → Outcome (p.Json × ErrorState)
  eth_send_transaction tx err = transaction_code tx >>= λ code.
      ok (reply p err code (build_json p (codes "eth_sendTransaction") (p.braces (tx ∷ []))))

  unfoldable pub eth_call : p.Json → List ℕ → ErrorState → Outcome (p.Json × ErrorState)
  eth_call o block err = call_code o block >>= λ code.
      ok (reply p err code (build_json p (codes "eth_call") (p.braces (o ∷ p.text block ∷ []))))

  unfoldable pub eth_call_number : p.Json → ℕ → ErrorState → Outcome (p.Json × ErrorState)
  eth_call_number o block err = eth_call o (p.print_dec block) err

  unfoldable pub eth_estimate_gas : p.Json → ErrorState → Outcome (p.Json × ErrorState)
  eth_estimate_gas o err = estimate_code o >>= λ code.
      ok (reply p err code (build_json p (codes "eth_estimateGas") (p.braces (o ∷ []))))
