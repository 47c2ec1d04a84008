-- ===== src/EthCore/Transaction/Sender.antt =====
-- The hash and the sender of a transaction, its signing, and the checks on its signature.
use web3cpp.Common.{
  ℕ, ◌/◌, ◌==◌, Bool, true, false, not, ◌&&◌, Option, none, some, List, ltb, if◌then◌else◌, drop,
  all, replicate, Outcome, ok, throws, undefined, stuck, ◌>>=◌, throw_if, transaction_is_unsigned,
  invalid_signature,
}
use web3cpp.EthCore.Curve.{Curve, Signature, no_signature, curve_order, is_valid, sign, recover}
use web3cpp.EthCore.Transaction.{
  contract_creation, message_call, Transaction, zero_address, zero_hash, has_zero_signature,
  stream_rlp,
}
use web3cpp.Rlp.Stream.{empty, finished}

abbrev pub is_some {ℓ} : {A : Type ℓ} → Option A → Bool
is_some none = false
is_some (some a) = true

-- `m_hashWith` as a condition: a byte is not zero.
abbrev pub is_set : List ℕ → Bool
is_set h = not (all (λ b. b == 0) h)

abbrev pub max_address : List ℕ
max_address = replicate 20 0xff

module _ (curve : Curve) where
  -- `sha3(_sig)`, which remembers the hash with the signature.
  unfoldable pub hash_of : Transaction → Bool → Outcome (Transaction × List ℕ)
  hash_of tx with_signature =
      if with_signature && is_set tx.hash_with
      then ok (tx, tx.hash_with)
      else (stream_rlp tx with_signature (is_some tx.chain_id && not with_signature) empty
          >>= finished
          >>= λ out.
              let ret = curve.keccak out in
              ok (if with_signature then record tx { hash_with = ret } else tx, ret))

  -- The sender from the signature, and what remembers it.
  unfoldable pub recover_sender : Transaction → Outcome (Transaction × List ℕ)
  recover_sender tx = elim tx.vrs [
    | none ↦ throws transaction_is_unsigned
    | some sig ↦
        (hash_of tx false >>= λ (tx', h). elim (recover curve sig h) [
          | none ↦ throws invalid_signature
          | some key ↦ let a = drop 12 (curve.keccak key) in ok (record tx' { sender = some a }, a)
        ])
  ]

  -- `sender()`
  unfoldable pub sender_of : Transaction → Outcome (Transaction × List ℕ)
  sender_of tx = elim tx.sender [
    | some a ↦ ok (tx, a)
    | none ↦
        if has_zero_signature tx
        then ok (record tx { sender = some max_address }, max_address)
        else recover_sender tx
  ]

  -- `safeSender()`: any exception gives the zero address.
  unfoldable pub safe_sender : Transaction → Outcome (Transaction × List ℕ)
  safe_sender tx = elim (sender_of tx) [
    | ok r ↦ ok r
    | throws e ↦ ok (tx, zero_address)
    | undefined ↦ undefined
    | stuck ↦ stuck
  ]

  -- `sign`
  unfoldable pub sign_with : Transaction → List ℕ → Outcome Transaction
  sign_with tx key = hash_of tx false >>= λ (tx', h).
      let sig = sign curve key h in ok (if is_valid sig then record tx' { vrs = some sig } else tx')

-- `signFromSigStruct`
unfoldable pub sign_from : Transaction → Signature → Transaction
sign_from tx sig = if is_valid sig then record tx { vrs = some sig } else tx

-- `checkLowS`
unfoldable pub check_low_s : Transaction → Outcome (Unit {0})
check_low_s tx = elim tx.vrs [
  | none ↦ throws transaction_is_unsigned
  | some sig ↦ throw_if (ltb (curve_order / 2) sig.s) invalid_signature
]

-- `checkChainId`
unfoldable pub check_chain_id : Transaction → ℕ → Outcome (Unit {0})
check_chain_id tx chain = elim tx.chain_id [
  | none ↦ ok tt
  | some c ↦ throw_if (not (c == chain)) invalid_signature
]

-- `setNonce`; `clearSignature` stores a signature of zeros.
unfoldable pub set_nonce : Transaction → ℕ → Transaction
set_nonce tx n = record tx { vrs = some no_signature; nonce = n }

-- `TransactionSkeleton`
pub record Skeleton : Type 0 where
  pub creation : Bool
  pub origin : List ℕ
  pub destination : List ℕ
  pub value : ℕ
  pub payload : List ℕ
  pub chain_id : ℕ
  pub nonce : ℕ
  pub gas : ℕ
  pub gas_price : ℕ

-- `TransactionBase(TransactionSkeleton, Secret)`: signed if the key is not zero.
unfoldable pub from_skeleton : Curve → Skeleton → List ℕ → Outcome Transaction
from_skeleton curve ts key =
    let tx : Transaction = record {
      kind = if ts.creation then contract_creation else message_call;
      nonce = ts.nonce;
      value = ts.value;
      receive_address = ts.destination;
      gas_price = ts.gas_price;
      gas = ts.gas;
      payload = ts.payload;
      vrs = none;
      chain_id = some ts.chain_id;
      hash_with = zero_hash;
      sender = some ts.origin;
    } in
    if is_set key then sign_with curve tx key else ok tx
