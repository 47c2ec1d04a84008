-- ===== src/EthCore/Transaction.antt =====
-- `TransactionBase` (include/web3cpp/ethcore/TransactionBase.h, src/ethcore/TransactionBase.cpp): its
-- fields, and the writing of its RLP. Reading and signing are in the children.
pub mod Parse
pub mod Sender
pub mod Wire
pub mod Fields
pub mod RoundTrip
pub mod Digest
pub mod Recovery
use web3cpp.Common.{
  ℕ, zero, suc, ◌+◌, ◌-◌, ◌*◌, ◌%◌, ◌^◌, ◌≡◌, Bool, true, false, not, ◌&&◌, ◌||◌, Option, none,
  some, List, [], ◌∷◌, ltb, leb, ◌==◌, if◌then◌else◌, replicate, Outcome, ok, throws, undefined,
  transaction_is_unsigned, ◌>>=◌,
}
use web3cpp.EthCore.Curve.{Signature, no_signature}
use web3cpp.Rlp.Stream.{RlpStream, empty, append_data, append_int, append_list, finished}

pub data Kind : Type 0 where
  null_transaction contract_creation message_call : Kind

-- Addresses and hashes are their bytes. A hash of zeros stands for none in `hash_with`.
pub record Transaction : Type 0 where
  pub kind : Kind
  pub nonce : ℕ
  pub value : ℕ
  pub receive_address : List ℕ
  pub gas_price : ℕ
  pub gas : ℕ
  pub payload : List ℕ
  pub vrs : Option Signature
  pub chain_id : Option ℕ
  pub hash_with : List ℕ
  pub sender : Option (List ℕ)

abbrev pub zero_address : List ℕ
zero_address = replicate 20 0

abbrev pub zero_hash : List ℕ
zero_hash = replicate 32 0

abbrev pub null : Transaction
null = record {
  kind = null_transaction;
  nonce = 0;
  value = 0;
  receive_address = zero_address;
  gas_price = 0;
  gas = 0;
  payload = [];
  vrs = none;
  chain_id = none;
  hash_with = zero_hash;
  sender = none;
}

abbrev pub is_zero_signature : ℕ → ℕ → Bool
is_zero_signature r s = r == 0 && s == 0

unfoldable pub has_zero_signature : Transaction → Bool
has_zero_signature tx = elim tx.vrs [ none ↦ false | some sig ↦ is_zero_signature sig.r sig.s ]

-- `*m_chainId`
unfoldable pub chain_of : Transaction → Outcome ℕ
chain_of tx = elim tx.chain_id [ none ↦ undefined | some c ↦ ok c ]

-- `m_vrs->v + vOffset` for `int const vOffset = w`, the low 32 bits `w` of an unsigned number: an
-- overflow of `int` is undefined, and a negative sum becomes a large `u256`.
unfoldable pub int_offset : ℕ → ℕ → Outcome ℕ
int_offset w v =
    if ltb w (2 ^ 31)
    then (if ltb (w + v) (2 ^ 31) then ok (w + v) else undefined)
    else if ltb (w + v) (2 ^ 32)
    then ok (2 ^ 256 - (2 ^ 32 - (w + v)))
    else ok (w + v - 2 ^ 32)

-- `rawV`
unfoldable pub raw_v : Transaction → Outcome ℕ
raw_v tx = elim tx.vrs [
  | none ↦ throws transaction_is_unsigned
  | some sig ↦ elim tx.chain_id [
    | none ↦ int_offset 27 sig.v
    | some c ↦ int_offset ((c * 2 + 35) % 2 ^ 64 % 2 ^ 32) sig.v
  ]
]

-- `_s << n` for a `uint64_t`, of which the overload for `unsigned` is taken.
unfoldable pub append_unsigned : ℕ → RlpStream → Outcome RlpStream
append_unsigned n s = append_int (n % 2 ^ 32) s

-- The recipient, or the empty string where a contract is created.
unfoldable pub append_recipient : Transaction → RlpStream → Outcome RlpStream
append_recipient tx s = elim tx.kind [
  | message_call ↦ append_data tx.receive_address false s
  | null_transaction ↦ append_data [] false s
  | contract_creation ↦ append_data [] false s
]

unfoldable pub append_v : Transaction → RlpStream → Outcome RlpStream
append_v tx s =
    if has_zero_signature tx
    then (chain_of tx >>= λ c. append_unsigned c s)
    else (raw_v tx >>= λ v. append_int v s)

unfoldable pub append_signature : Transaction → RlpStream → Outcome RlpStream
append_signature tx s = elim tx.vrs [
  | none ↦ throws transaction_is_unsigned
  | some sig ↦ append_v tx s >>= λ s1. append_int sig.r s1 >>= λ s2. append_int sig.s s2
]

unfoldable pub append_chain : Transaction → RlpStream → Outcome RlpStream
append_chain tx s = chain_of tx >>= λ c.
    append_unsigned c s >>= λ s1. append_unsigned 0 s1 >>= λ s2. append_unsigned 0 s2

unfoldable pub append_fields : Transaction → RlpStream → Outcome RlpStream
append_fields tx s = append_int tx.nonce s >>= λ s1. append_int tx.gas_price s1 >>= λ s2.
    append_int tx.gas s2 >>= λ s3. append_recipient tx s3 >>= λ s4.
    append_int tx.value s4 >>= λ s5. append_data tx.payload false s5

abbrev pub is_null_kind : Kind → Bool
is_null_kind null_transaction = true
is_null_kind contract_creation = false
is_null_kind message_call = false

-- `streamRLP(_s, _sig, _forEip155hash)`
unfoldable pub stream_rlp : Transaction → Bool → Bool → RlpStream → Outcome RlpStream
stream_rlp tx with_signature for_hash s =
    if is_null_kind tx.kind
    then ok s
    else (append_list (if with_signature || for_hash then 9 else 6) s >>= λ s1.
        append_fields tx s1 >>= λ s2.
        if with_signature
        then append_signature tx s2
        else if for_hash
        then append_chain tx s2
        else ok s2)

-- `rlp(_sig)`
unfoldable pub rlp : Transaction → Bool → Outcome (List ℕ)
rlp tx with_signature = stream_rlp tx with_signature true empty >>= finished
