-- ===== src/EthCore/Transaction/Recovery.antt =====
-- The sender that is recovered from a transaction is the owner of the key that signed it.
use web3cpp.Common.{
  ℕ, ◌-◌, ◌≤◌, ◌<◌, ◌≡◌, ◌/◌, ◌^◌, refl, ◌∙◌, true, false, none, some, List, drop, length, ltb,
  ◌==◌, ok, ◌>>=◌, arith, Bool-cases, inl, inr,
}
use web3cpp.EthCore.Curve.{Curve, Signature, curve_order, is_valid, flip, lower, sign, recover}
use web3cpp.EthCore.Transaction.{Transaction, has_zero_signature, is_null_kind}
use web3cpp.EthCore.Transaction.Digest.{unsigned_items, digest, hash_of-unsigned}
use web3cpp.EthCore.Transaction.Wire.{HasWords}
use web3cpp.Rlp.Item.{node, encode}
use web3cpp.EthCore.Transaction.Sender.{recover_sender, sender_of, sign_with}

-- What secp256k1 promises: a signature recovers the key it was made with, and so does its opposite.
pub record RecoveryLaws (curve : Curve) (public_of : List ℕ → List ℕ) : Type 0 where
  pub recovers :
      (key hash : List ℕ) (sig : Signature)
      → curve.sign_recoverable key hash ≡ some sig
      → curve.recover_key sig hash ≡ some (public_of key)
  pub opposite :
      (sig : Signature) (hash : List ℕ)
      → sig.s < curve_order
      → sig.v ≤ 3
      → curve.recover_key (record sig { s = curve_order - sig.s; v = flip sig.v }) hash
        ≡ curve.recover_key sig hash
  pub below :
      (key hash : List ℕ) (sig : Signature)
      → curve.sign_recoverable key hash ≡ some sig
      → (sig.s < curve_order) × (sig.v ≤ 3)

module _ (curve : Curve) (public_of : List ℕ → List ℕ) (laws : RecoveryLaws curve public_of) where
  recover_key-lower :
      (key hash : List ℕ) (sig : Signature)
      → curve.sign_recoverable key hash ≡ some sig
      → curve.recover_key (lower sig) hash ≡ some (public_of key)
  unfolding lower
  recover_key-lower key hash sig e =
      let found = laws.recovers key hash sig e in
      let (small, few) = laws.below key hash sig e in
      elim (Bool-cases (ltb (curve_order / 2) sig.s)) [
        | inl high ↦ rw high (laws.opposite sig hash small few ∙ found)
        | inr low ↦ rw low found
      ]

  valid_parts :
      (sig : Signature) → is_valid sig ≡ true → (ltb 3 sig.v ≡ false) × ((sig.r == 0) ≡ false)
  unfolding is_valid
  valid_parts sig h = (ground (arith, h), ground (arith, h))

  -- Where the library signs the digest of a transaction with a key, and the signature is valid in
  -- its lower form, sign and then sender give and remember the address of that key, under the laws
  -- of the curve library. The transaction remembers no sender before, as sign keeps one that is
  -- there; it has a kind, its numbers fit 256 bits, and what is hashed is shorter than 2 ^ 64
  -- bytes.
  pub sender_of-sign_with :
      (tx : Transaction) (key : List ℕ) (sig : Signature)
      → is_null_kind tx.kind ≡ false
      → HasWords tx
      → length (encode (node (unsigned_items tx tx.chain_id))) < 2 ^ 64
      → tx.sender ≡ none
      → curve.sign_recoverable key (digest curve tx) ≡ some sig
      → is_valid (lower sig) ≡ true
      → (sign_with curve tx key >>= sender_of curve)
        ≡ ok (
          record tx {
            vrs = some (lower sig);
            sender = some (drop 12 (curve.keccak (public_of key)));
          },
          drop 12 (curve.keccak (public_of key)),
        )
  unfolding sign_with sign sender_of has_zero_signature recover_sender recover
  sender_of-sign_with tx key sig kind words fits unset made valid =
      let (small, set) = valid_parts (lower sig) valid in
      let found = recover_key-lower key (digest curve tx) sig made in
      rw (hash_of-unsigned curve tx tx.vrs tx.sender kind words fits) (
        rw (sign, made)
          (rw valid (
            rw (sender_of, unset)
              (rw set (
                rw (hash_of-unsigned curve tx (some (lower sig)) tx.sender kind words fits)
                  (rw (recover, small) (rw found refl)))))))
