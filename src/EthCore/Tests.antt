-- ===== src/EthCore/Tests.antt =====
-- The transaction of EIP-155, and the theorems on it with a curve that knows one key.
use web3cpp.Common.{
  ℕ, ◌-◌, ◌/◌, ◌≤◌, ◌≡◌, refl, true, false, some, none, Option, ap, List, [], ◌∷◌, inr, ok, ◌>>=◌,
  replicate, drop, arith,
}
use web3cpp.Common.BigEndian.Digits.{digits}
use web3cpp.EthCore.Curve.{Curve, CurveLaws, Signature, curve_order, lower, flip, is_valid, sign}
use web3cpp.EthCore.Curve.LowS.{sign-low}
use web3cpp.EthCore.Transaction.{Transaction, message_call, zero_hash, rlp, stream_rlp}
use web3cpp.EthCore.Transaction.Digest.{hash_of-unsigned, unsigned_items, digest}
use web3cpp.EthCore.Transaction.Parse.{parse, cheap, check_sender}
use web3cpp.EthCore.Transaction.Recovery.{RecoveryLaws, sender_of-sign_with}
use web3cpp.EthCore.Transaction.RoundTrip.{as_read, IsWritable, parse-rlp}
use web3cpp.EthCore.Transaction.Sender.{hash_of, sender_of, sign_with}
use web3cpp.EthCore.Transaction.Wire.{
  HasWords, stream_rlp-signed, signed_items, fields, chain_items, wire_v, signature_items,
}
use web3cpp.Rlp.Item.{node, encode, stream_item, encode_str, header}
use web3cpp.Rlp.Stream.{empty}

abbrev key_of_public : List ℕ
key_of_public = replicate 64 7

abbrev toy_curve : Curve
toy_curve = record {
  keccak = λ bs. bs;
  sign_recoverable = λ key hash. some (record { r = 5; s = curve_order - 3; v = 0 });
  recover_key = λ sig hash. some key_of_public;
}

abbrev s_of : Option Signature → ℕ
s_of none = 0
s_of (some sig) = sig.s

abbrev v_of : Option Signature → ℕ
v_of none = 0
v_of (some sig) = sig.v

toy_laws : CurveLaws toy_curve
toy_laws = record { s_below_order = λ key hash sig e. omega (arith, ap s_of e) }

toy_recovery : RecoveryLaws toy_curve (λ key. key_of_public)
toy_recovery = record {
  recovers = λ key hash sig e. refl;
  opposite = λ sig hash h h'. refl;
  below = λ key hash sig e. (omega (arith, ap s_of e), omega (arith, ap v_of e));
}

-- The signature of the example in EIP-155.
abbrev eip_signature : Signature
eip_signature = record {
  r = 18515461264373351373200002665853028612451056578545711640558177905181847433846;
  s = 46948507304638947509940763649030358759909902576025900602547168820602576006531;
  v = 0;
}

abbrev eip_transaction : Transaction
eip_transaction = record {
  kind = message_call;
  nonce = 9;
  value = 1000000000000000000;
  receive_address = replicate 20 0x35;
  gas_price = 20000000000;
  gas = 21000;
  payload = [];
  vrs = some eip_signature;
  chain_id = some 1;
  hash_with = zero_hash;
  sender = none;
}

abbrev signing_data : List ℕ
signing_data =
    0xec ∷ 0x09 ∷ 0x85 ∷ 0x04 ∷ 0xa8 ∷ 0x17 ∷ 0xc8 ∷ 0x00 ∷ 0x82 ∷ 0x52 ∷ 0x08 ∷ 0x94 ∷ 0x35 ∷ 0x35
    ∷ 0x35 ∷ 0x35 ∷ 0x35 ∷ 0x35 ∷ 0x35 ∷ 0x35 ∷ 0x35 ∷ 0x35 ∷ 0x35 ∷ 0x35 ∷ 0x35 ∷ 0x35 ∷ 0x35
    ∷ 0x35 ∷ 0x35 ∷ 0x35 ∷ 0x35 ∷ 0x35 ∷ 0x88 ∷ 0x0d ∷ 0xe0 ∷ 0xb6 ∷ 0xb3 ∷ 0xa7 ∷ 0x64 ∷ 0x00
    ∷ 0x00 ∷ 0x80 ∷ 0x01 ∷ 0x80 ∷ 0x80 ∷ []

eip_words : HasWords eip_transaction
eip_words = record {
  nonce = omega arith;
  gas_price = omega arith;
  gas = omega arith;
  value = omega arith;
}

encode-eip : encode (node (unsigned_items eip_transaction (some 1))) ≡ signing_data
unfolding encode encode_str header fields chain_items digits
encode-eip = refl

sign-low_example : (sign toy_curve [] []).s ≤ curve_order / 2
sign-low_example = sign-low toy_curve [] [] toy_laws

hash_of-unsigned_example :
    hash_of toy_curve (record eip_transaction { vrs = none; sender = none }) false
    ≡ ok (record eip_transaction { vrs = none; sender = none }, digest toy_curve eip_transaction)
hash_of-unsigned_example =
    hash_of-unsigned toy_curve eip_transaction none none refl eip_words
      (rw encode-eip (omega arith))

eip-IsWritable : IsWritable eip_transaction eip_signature
unfolding encode encode_str header fields signature_items signed_items wire_v digits
eip-IsWritable = record {
  words = eip_words;
  to = refl;
  signed = refl;
  carries = inr (refl, omega arith, omega arith, omega arith);
  r_word = omega arith;
  s_word = omega arith;
  fits = omega arith;
}

stream_rlp-signed_example :
    stream_rlp eip_transaction true true empty
    ≡ stream_item (node (signed_items eip_transaction eip_signature)) empty
stream_rlp-signed_example =
    stream_rlp-signed eip_transaction eip_signature true empty refl eip_words refl
      (inr (refl, omega arith, omega arith, omega arith)) (omega arith) (omega arith)

parse-rlp_example :
    (rlp eip_transaction true >>= λ d. parse toy_curve d cheap) ≡ ok (as_read eip_transaction)
unfolding is_valid check_sender
parse-rlp_example = parse-rlp toy_curve eip_transaction eip_signature cheap eip-IsWritable refl

sender_of-sign_with_example :
    (sign_with toy_curve eip_transaction [] >>= sender_of toy_curve)
    ≡ ok (
      record eip_transaction {
        vrs = some (lower (record { r = 5; s = curve_order - 3; v = 0 }));
        sender = some (drop 12 key_of_public);
      },
      drop 12 key_of_public,
    )
unfolding is_valid lower flip
sender_of-sign_with_example =
    sender_of-sign_with toy_curve (λ key. key_of_public) toy_recovery eip_transaction []
      (record { r = 5; s = curve_order - 3; v = 0 }) refl eip_words (rw encode-eip (omega arith))
      refl refl refl
