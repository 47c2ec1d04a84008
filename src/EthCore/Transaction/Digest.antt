-- ===== src/EthCore/Transaction/Digest.antt =====
-- The digest that is signed (`TransactionBase::sha3` without the signature).
use web3cpp.Common.{
  ℕ, ◌<◌, ◌≡◌, ◌^◌, refl, Bool, true, false, ◌&&◌, Option, none, some, List, length, ok,
}
use web3cpp.EthCore.Curve.{Curve, Signature}
use web3cpp.EthCore.Transaction.{
  Transaction, stream_rlp, append_fields, append_chain, append_recipient, chain_of, is_null_kind,
}
use web3cpp.EthCore.Transaction.Sender.{is_some, hash_of}
use web3cpp.EthCore.Transaction.Wire.{
  HasWords, fields, chain_items, stream_rlp-plain, stream_rlp-replay_protected,
}
use web3cpp.Rlp.Item.{Items, nil, node, encode, stream_item}
use web3cpp.Rlp.Item.Refinement.{finished-stream_item}
use web3cpp.Rlp.Stream.{RlpStream, empty}

-- Six strings, or nine with the chain (EIP-155).
abbrev pub unsigned_items : Transaction → Option ℕ → Items
unsigned_items tx none = fields tx nil
unsigned_items tx (some c) = fields tx (chain_items c)

abbrev pub digest : Curve → Transaction → List ℕ
digest curve tx = curve.keccak (encode (node (unsigned_items tx tx.chain_id)))

stream_rlp_lem :
    (tx : Transaction) (chain : Option ℕ)
    → tx.chain_id ≡ chain
    → is_null_kind tx.kind ≡ false
    → HasWords tx
    → (s : RlpStream)
    → stream_rlp tx false (is_some chain && true) s ≡ stream_item (node (unsigned_items tx chain)) s
stream_rlp_lem tx none e kind words s = stream_rlp-plain tx s kind words
stream_rlp_lem tx (some c) e kind words s = stream_rlp-replay_protected tx c s kind words e

-- The signature and the remembered sender are not written.
stream_rlp_ignores :
    (tx : Transaction) (w : Option Signature) (a : Option (List ℕ)) (for_hash : Bool)
    (s : RlpStream)
    → stream_rlp (record tx { vrs = w; sender = a }) false for_hash s
      ≡ stream_rlp tx false for_hash s
unfolding stream_rlp append_fields append_chain append_recipient chain_of
stream_rlp_ignores tx w a for_hash s = refl

-- The digest that is signed is the hash of the canonical encoding of six strings, or, where the
-- transaction has a chain, of nine, with the chain modulo 2 ^ 32 and two zeros, whatever signature
-- and sender the transaction has; for a chain below 2 ^ 32 that is EIP-155. The transaction has a
-- kind, its numbers fit 256 bits and the list is shorter than 2 ^ 64 bytes encoded.
pub hash_of-unsigned :
    (curve : Curve) (tx : Transaction) (w : Option Signature) (a : Option (List ℕ))
    → is_null_kind tx.kind ≡ false
    → HasWords tx
    → length (encode (node (unsigned_items tx tx.chain_id))) < 2 ^ 64
    → hash_of curve (record tx { vrs = w; sender = a }) false
      ≡ ok (record tx { vrs = w; sender = a }, digest curve tx)
unfolding hash_of
hash_of-unsigned curve tx w a kind words fits =
    rw (stream_rlp_ignores tx w a (is_some tx.chain_id && true) empty) (
      rw (stream_rlp_lem tx tx.chain_id refl kind words empty)
        (rw (finished-stream_item (node (unsigned_items tx tx.chain_id)) fits) refl))
