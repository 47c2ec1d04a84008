-- ===== src/EthCore/Transaction/Parse.antt =====
-- The constructor of `TransactionBase` that reads RLP. `rlp[i]` changes the fields of `RLP` that
-- remember the last item.
use web3cpp.Common.{
  ℕ, ◌+◌, ◌-◌, ◌*◌, ◌/◌, ◌%◌, ◌^◌, Bool, true, false, not, ◌&&◌, Option, none, some, List, ltb,
  ◌==◌, if◌then◌else◌, Outcome, ok, throws, ◌>>=◌, ◌>>◌, throw_if, invalid_transaction_format,
  invalid_signature,
}
use web3cpp.EthCore.Curve.{Curve, Signature, is_valid}
use web3cpp.EthCore.Transaction.{
  contract_creation, message_call, Transaction, zero_address, zero_hash, is_zero_signature,
}
use web3cpp.EthCore.Transaction.Sender.{sender_of}
use web3cpp.Rlp.Index.{Cache, no_cache, index}
use web3cpp.Rlp.View.{
  is_list, is_data, is_empty, to_int, to_hash, to_bytes, items, construct, strict, very_strict,
  laissez_faire,
}

pub data CheckTransaction : Type 0 where
  check_none cheap everything : CheckTransaction

-- The fields that the first six items give.
pub record Body : Type 0 where
  pub nonce : ℕ
  pub gas_price : ℕ
  pub gas : ℕ
  pub recipient : Option (List ℕ)
  pub value : ℕ
  pub payload : List ℕ

-- `rlp[i].toInt<u256>()`
unfoldable pub int_at : List ℕ → Cache → ℕ → Outcome (Cache × ℕ)
int_at d c i = index d c i >>= λ (c', item). to_int 256 32 item strict >>= λ n. ok (c', n)

-- The recipient: the item is read three times, or twice if it is empty.
unfoldable pub recipient_at : List ℕ → Cache → Outcome (Cache × Option (List ℕ))
recipient_at d c = index d c 3 >>= λ (c1, item1).
    if not (is_data item1)
    then throws invalid_transaction_format
    else (index d c1 3 >>= λ (c2, item2). index d c2 3 >>= λ (c3, item3).
        if is_empty item3
        then ok (c3, none)
        else (index d c3 3 >>= λ (c4, item4).
            to_hash 20 item4 very_strict >>= λ a. ok (c4, some a)))

unfoldable pub payload_at : List ℕ → Cache → Outcome (Cache × List ℕ)
payload_at d c = index d c 5 >>= λ (c1, item1).
    if not (is_data item1)
    then throws invalid_transaction_format
    else (index d c1 5 >>= λ (c2, item2). to_bytes item2 laissez_faire >>= λ bs. ok (c2, bs))

unfoldable pub body_at : List ℕ → Cache → Outcome (Cache × Body)
body_at d c = int_at d c 0 >>= λ (c0, nonce). int_at d c0 1 >>= λ (c1, gas_price).
    int_at d c1 2 >>= λ (c2, gas). recipient_at d c2 >>= λ (c3, recipient).
    int_at d c3 4 >>= λ (c4, value). payload_at d c4 >>= λ (c5, payload). ok (
      c5,
      record {
        nonce = nonce;
        gas_price = gas_price;
        gas = gas;
        recipient = recipient;
        value = value;
        payload = payload;
      },
    )

-- `v`, `r` and `s`.
unfoldable pub signature_at : List ℕ → Cache → Outcome (Cache × Signature)
signature_at d c = int_at d c 6 >>= λ (c6, v). int_at d c6 7 >>= λ (c7, r).
    int_at d c7 8 >>= λ (c8, s). ok (c8, record { r = r; s = s; v = v })

-- The chain that `v` tells, if the signature is not zero.
unfoldable pub chain_from : ℕ → Outcome (Option ℕ)
chain_from v =
    if ltb 36 v
    then (if ltb (2 ^ 64 - 1) ((v - 35) / 2)
        then throws invalid_signature
        else ok (some ((v - 35) / 2)))
    else if not (v == 27) && not (v == 28)
    then throws invalid_signature
    else ok none

-- `byte{v - (u256{*m_chainId} * 2 + 35)}` and `byte{v - 27}`
unfoldable pub recovery_id : Option ℕ → ℕ → ℕ
recovery_id none v = (v - 27) % 256
recovery_id (some c) v = (v - (c * 2 + 35)) % 256

abbrev pub is_checked : CheckTransaction → Bool
is_checked check_none = false
is_checked cheap = true
is_checked everything = true

-- The chain and the signature from what the last three items give.
unfoldable pub decode_signature : CheckTransaction → Signature → Outcome (Option ℕ × Signature)
decode_signature check raw =
    if is_zero_signature raw.r raw.s
    then ok (some (raw.v % 2 ^ 64), record raw { v = 0 })
    else (chain_from raw.v >>= λ chain.
        let sig : Signature = record raw { v = recovery_id chain raw.v } in
        throw_if (is_checked check && not (is_valid sig)) invalid_signature >> ok (chain, sig))

unfoldable pub assemble : Body → Option ℕ → Signature → Transaction
assemble b chain sig = record {
  kind = elim b.recipient [ none ↦ contract_creation | some a ↦ message_call ];
  nonce = b.nonce;
  value = b.value;
  receive_address = elim b.recipient [ none ↦ zero_address | some a ↦ a ];
  gas_price = b.gas_price;
  gas = b.gas;
  payload = b.payload;
  vrs = some sig;
  chain_id = chain;
  hash_with = zero_hash;
  sender = none;
}

-- `if (_checkSig == CheckTransaction::Everything) m_sender = sender();`
unfoldable pub check_sender : Curve → CheckTransaction → Transaction → Outcome Transaction
check_sender curve check_none tx = ok tx
check_sender curve cheap tx = ok tx
check_sender curve everything tx = sender_of curve tx >>= λ (tx', a). ok tx'

-- `TransactionBase(bytesConstRef, CheckTransaction)`
unfoldable pub parse : Curve → List ℕ → CheckTransaction → Outcome Transaction
parse curve data_ check = construct data_ very_strict >>= λ d.
    if not (is_list d)
    then throws invalid_transaction_format
    else (body_at d no_cache >>= λ (c, body). signature_at d c >>= λ (c', raw).
        decode_signature check raw >>= λ (chain, sig).
        check_sender curve check (assemble body chain sig) >>= λ tx.
        items d >>= λ n. if ltb 9 n then throws invalid_transaction_format else ok tx)
