-- ===== src/EthCore/Curve.antt =====
-- Signatures (include/web3cpp/devcrypto/Common.h, src/devcrypto/Common.cpp). The curve itself is
-- the library secp256k1, and keccak that of ethash: parameters. `r` and `s` are the numbers that
-- their 32 bytes stand for.
pub mod LowS
use web3cpp.Common.{
  ℕ, ◌+◌, ◌-◌, ◌/◌, ◌%◌, ◌≤◌, ◌<◌, Bool, true, false, ◌&&◌, Option, none, some, List, ltb, leb,
  ◌==◌, if◌then◌else◌, length, ◌≡◌, all, not,
}

abbrev pub curve_order : ℕ
curve_order = 115792089237316195423570985008687907852837564279074904382605163141518161494337

pub record Signature : Type 0 where
  pub r : ℕ
  pub s : ℕ
  pub v : ℕ

abbrev pub no_signature : Signature
no_signature = record { r = 0; s = 0; v = 0 }

pub record Curve : Type 0 where
  pub keccak : List ℕ → List ℕ
  -- `secp256k1_ecdsa_sign_recoverable`, with the serialised result: a key and a digest.
  pub sign_recoverable : List ℕ → List ℕ → Option Signature
  -- `secp256k1_ecdsa_recover` with the parsing before and the 64 bytes that are serialised behind it.
  pub recover_key : Signature → List ℕ → Option (List ℕ)

-- The library signs with numbers below the order, as it documents.
pub record CurveLaws (curve : Curve) : Type 0 where
  pub s_below_order :
      (key hash : List ℕ) (sig : Signature)
      → curve.sign_recoverable key hash ≡ some sig
      → sig.s < curve_order

-- `SignatureStruct::isValid`
unfoldable pub is_valid : Signature → Bool
is_valid sig =
    leb sig.v 1
    && ltb 0 sig.r
    && ltb 0 sig.s
    && ltb sig.r 0xfffffffffffffffffffffffffffffffebaaedce6af48a03bbfd25e8cd0364141
    && ltb sig.s 0xfffffffffffffffffffffffffffffffebaaedce6af48a03bbfd25e8cd0364141

-- `v ^ 1` on a byte.
unfoldable pub flip : ℕ → ℕ
flip v = if v % 2 == 0 then v + 1 else v - 1

-- The smaller of the two values of `s`, with the other recovery id.
unfoldable pub lower : Signature → Signature
lower sig =
    if ltb (curve_order / 2) sig.s
    then record sig { s = curve_order - sig.s; v = flip sig.v }
    else sig

module _ (curve : Curve) where
  -- `dev::sign`; where the library fails, the signature is zero.
  unfoldable pub sign : List ℕ → List ℕ → Signature
  sign key hash = elim (curve.sign_recoverable key hash) [
    | none ↦ no_signature
    | some sig ↦ lower sig
  ]

  -- `dev::recover`; the public key is zero, here `none`, where it fails.
  unfoldable pub recover : Signature → List ℕ → Option (List ℕ)
  recover sig message = if ltb 3 sig.v then none else curve.recover_key sig message
