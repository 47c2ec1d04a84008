-- ===== src/EthCore/Transaction/RoundTrip.antt =====
-- A transaction that `TransactionBase::rlp` writes with its signature is read back by the constructor.
use web3cpp.Common.{
  ℕ, ◌+◌, ◌-◌, ◌*◌, ◌/◌, ◌%◌, ◌^◌, ◌≤◌, ◌<◌, ◌≡◌, inl, inr, refl, sym, ap, ◌∙◌, Bool, true, false,
  not, ◌&&◌, ◌||◌, Option, none, some, List, [], ◌++◌, append-nil, length, ok, ◌>>=◌, throw_if,
  invalid_signature, arith,
}
use web3cpp.EthCore.Curve.{Curve, Signature, is_valid}
use web3cpp.EthCore.Transaction.{
  Kind, null_transaction, contract_creation, message_call, Transaction, zero_address, zero_hash,
  is_zero_signature, is_null_kind, rlp,
}
use web3cpp.EthCore.Transaction.Fields.{
  int_at-holds, recipient_at-address, recipient_at-none, payload_at-holds,
}
use web3cpp.EthCore.Transaction.Parse.{
  CheckTransaction, Body, is_checked, body_at, recipient_at, signature_at, chain_from, recovery_id,
  decode_signature, assemble, check_sender, parse,
}
use web3cpp.EthCore.Transaction.Wire.{
  Word, HasWords, Carries, recipient, fields, wire_v, wire_v-Word, signature_items, signed_items,
  stream_rlp-signed,
}
use web3cpp.Rlp.Index.{Cache, no_cache}
use web3cpp.Rlp.Index.Cached.{IsCache, item_at}
use web3cpp.Rlp.Index.Iteration.{very_strict_item}
use web3cpp.Rlp.Item.{Items, str, node, encode}
use web3cpp.Rlp.Item.Refinement.{bind-ok, finished-stream_item}
use web3cpp.Rlp.Stream.{empty}
use web3cpp.Rlp.View.{is_list, items}
use web3cpp.Rlp.View.Decode.{is_list-node, items-encode}
use web3cpp.Rlp.View.Frames.{Small}

-- A transaction that creates a contract or has a recipient of twenty bytes.
abbrev pub HasRecipient : Kind → List ℕ → Type 0
HasRecipient message_call a = length a ≡ 20
HasRecipient contract_creation a = Unit
HasRecipient null_transaction a = ⊥

-- The recipient that the reader finds.
abbrev to_of : Kind → List ℕ → Option (List ℕ)
to_of message_call a = some a
to_of contract_creation a = none
to_of null_transaction a = none

abbrev body_of : Transaction → Body
body_of tx = record {
  nonce = tx.nonce;
  gas_price = tx.gas_price;
  gas = tx.gas;
  recipient = to_of tx.kind tx.receive_address;
  value = tx.value;
  payload = tx.payload;
}

-- What the items of a list give, with one of them read as a string.
recipient_lem :
    (k : Kind) (a : List ℕ) (xs : Items) (c : Cache)
    → Small (length (encode (node xs)))
    → IsCache xs c
    → HasRecipient k a
    → item_at xs 3 ≡ encode (str (recipient k a))
    → (c' : Cache) × (recipient_at (encode (node xs) ++ []) c ≡ ok (c', to_of k a)) × IsCache xs c'
recipient_lem message_call a xs c fits valid to e = recipient_at-address xs fits c a valid e to
recipient_lem contract_creation a xs c fits valid to e = recipient_at-none xs fits c valid e
recipient_lem null_transaction a xs c fits valid to e = absurd to

module _ (tx : Transaction) (rest : Items)
    (fits : Small (length (encode (node (fields tx rest))))) where
  abbrev xs : Items
  xs = fields tx rest

  body_at-fields :
      HasWords tx
      → HasRecipient tx.kind tx.receive_address
      → (c' : Cache) × (body_at (encode (node xs) ++ []) no_cache ≡ ok (c', body_of tx))
        × IsCache xs c'
  unfolding body_at item_at fields
  body_at-fields words to =
      let (c0, e0, v0) =
        int_at-holds xs fits no_cache 0 tx.nonce (inl refl) (omega arith) refl words.nonce in
      let (c1, e1, v1) =
        int_at-holds xs fits c0 1 tx.gas_price v0 (omega arith) refl words.gas_price in
      let (c2, e2, v2) = int_at-holds xs fits c1 2 tx.gas v1 (omega arith) refl words.gas in
      let (c3, e3, v3) = recipient_lem tx.kind tx.receive_address xs c2 fits v2 to refl in
      let (c4, e4, v4) = int_at-holds xs fits c3 4 tx.value v3 (omega arith) refl words.value in
      let (c5, e5, v5) = payload_at-holds xs fits c4 tx.payload v4 refl in
      (c5, rw e0 (rw e1 (rw e2 (rw e3 (rw e4 (rw e5))))), v5)

module _ (tx : Transaction) (sig : Signature) (chain : Option ℕ) where
  abbrev nine : Items
  nine = fields tx (signature_items sig chain)

  signature_at-items :
      Small (length (encode (node nine)))
      → (c : Cache) → IsCache nine c
      → Carries sig chain
      → Word sig.r
      → Word sig.s
      → (c' : Cache) × (signature_at (encode (node nine) ++ []) c
          ≡ ok (c', record sig { v = wire_v sig chain }))
        × IsCache nine c'
  unfolding signature_at item_at fields signature_items
  signature_at-items fits c valid h hr hs =
      let (c6, e6, v6) =
        int_at-holds nine fits c 6 (wire_v sig chain) valid (omega arith) refl
          (wire_v-Word sig chain h) in
      let (c7, e7, v7) = int_at-holds nine fits c6 7 sig.r v6 (omega arith) refl hr in
      let (c8, e8, v8) = int_at-holds nine fits c7 8 sig.s v7 (omega arith) refl hs in
      (c8, rw e6 (rw e7 (rw e8)), v8)

zero_lem :
    (check : CheckTransaction) (sig : Signature) (c : ℕ)
    → is_zero_signature sig.r sig.s ≡ true
    → sig.v ≡ 0
    → c < 2 ^ 32
    → decode_signature check (record sig { v = c }) ≡ ok (some c, sig)
unfolding decode_signature
zero_lem check sig c z hv hc =
    let low : c % 2 ^ 64 ≡ c = omega arith in
    rw z (rw low (ap (λ v. ok (some c, record sig { v = v })) (sym hv)))

-- `v` tells the chain and the recovery id.
chain_from-wire_v :
    (v c : ℕ) → v ≤ 1 → 1 ≤ c → c * 2 + 36 < 2 ^ 31 → chain_from (c * 2 + 35 + v) ≡ ok (some c)
unfolding chain_from
chain_from-wire_v v c hv h1 hc =
    let half : (c * 2 + 35 + v - 35) / 2 ≡ c = omega arith in rw half (ground arith)

chain_from-none : (v : ℕ) → v ≤ 1 → chain_from (27 + v) ≡ ok none
unfolding chain_from
chain_from-none v hv = ground arith

checked_lem :
    (b b' : Bool) (r : Option ℕ × Signature)
    → (not b || b') ≡ true
    → (throw_if (b && not b') invalid_signature >>= λ u. ok r) ≡ ok r
checked_lem true true r h = refl
checked_lem true false r h = ground arith
checked_lem false b' r h = refl

nonzero_lem :
    (check : CheckTransaction) (sig : Signature) (chain : Option ℕ) (v : ℕ)
    → is_zero_signature sig.r sig.s ≡ false
    → (not (is_checked check) || is_valid sig) ≡ true
    → chain_from v ≡ ok chain
    → recovery_id chain v ≡ sig.v
    → decode_signature check (record sig { v = v }) ≡ ok (chain, sig)
unfolding decode_signature
nonzero_lem check sig chain v nz valid e e' =
    rw nz (rw e (rw e' (checked_lem (is_checked check) (is_valid sig) (chain, sig) valid)))

decode_signature_lem :
    (check : CheckTransaction) (sig : Signature) (chain : Option ℕ)
    → Carries sig chain
    → (is_zero_signature sig.r sig.s || not (is_checked check) || is_valid sig) ≡ true
    → decode_signature check (record sig { v = wire_v sig chain }) ≡ ok (chain, sig)
unfolding recovery_id wire_v
decode_signature_lem check sig none (nz, hv) valid =
    nonzero_lem check sig none (27 + sig.v) nz (ground (arith, nz, valid))
      (chain_from-none sig.v hv) (omega arith)
decode_signature_lem check sig (some c) (inl (z, hv, hc)) valid =
    rw z (zero_lem check sig c z hv hc)
decode_signature_lem check sig (some c) (inr (nz, hv, h1, hc)) valid = rw nz (
    nonzero_lem check sig (some c) (c * 2 + 35 + sig.v) nz (ground (arith, nz, valid))
      (chain_from-wire_v sig.v c hv h1 hc) (omega arith))

abbrev kept_address : Kind → List ℕ → List ℕ
kept_address message_call a = a
kept_address contract_creation a = zero_address
kept_address null_transaction a = zero_address

-- A transaction as the reader gives it: no hash and no sender is remembered, and the recipient is
-- zero where a contract is created.
unfoldable pub as_read : Transaction → Transaction
as_read tx = record tx {
  receive_address = kept_address tx.kind tx.receive_address;
  hash_with = zero_hash;
  sender = none;
}

read_kind :
    (k : Kind) (a : List ℕ)
    → is_null_kind k ≡ false
    → (elim (to_of k a) [ none ↦ contract_creation | some b ↦ message_call ]) ≡ k
read_kind message_call a h = refl
read_kind contract_creation a h = refl
read_kind null_transaction a h = ground arith

read_address :
    (k : Kind) (a : List ℕ)
    → (elim (to_of k a) [ none ↦ zero_address | some b ↦ b ]) ≡ kept_address k a
read_address message_call a = refl
read_address contract_creation a = refl
read_address null_transaction a = refl

assemble_lem :
    (tx : Transaction) (sig : Signature)
    → is_null_kind tx.kind ≡ false
    → tx.vrs ≡ some sig
    → assemble (body_of tx) tx.chain_id sig ≡ as_read tx
unfolding assemble as_read
assemble_lem tx sig kind e = rw (read_kind tx.kind tx.receive_address kind) (
    rw (read_address tx.kind tx.receive_address)
      (ap (λ w. record (as_read tx) { vrs = w }) (sym e)))

parse-encode :
    (curve : Curve) (tx : Transaction) (sig : Signature) (check : CheckTransaction)
    → is_null_kind tx.kind ≡ false
    → HasWords tx
    → HasRecipient tx.kind tx.receive_address
    → tx.vrs ≡ some sig
    → Carries sig tx.chain_id
    → Word sig.r
    → Word sig.s
    → (is_zero_signature sig.r sig.s || not (is_checked check) || is_valid sig) ≡ true
    → Small (length (encode (node (signed_items tx sig))))
    → parse curve (encode (node (signed_items tx sig))) check
      ≡ check_sender curve check (as_read tx)
unfolding parse signed_items fields signature_items
parse-encode curve tx sig check kind words to e h hr hs valid fits =
    let xs = signed_items tx sig in
    let plain : encode (node xs) ++ [] ≡ encode (node xs) = append-nil (encode (node xs)) in
    let (c, e1, v1) = body_at-fields tx (signature_items sig tx.chain_id) fits words to in
    let (c', e2, v2) = signature_at-items tx sig tx.chain_id fits c v1 h hr hs in
    let e1' = ap (λ d. body_at d no_cache) (sym plain) ∙ e1 in
    let e2' = ap (λ d. signature_at d c) (sym plain) ∙ e2 in
    let listed = ap is_list (sym plain) ∙ is_list-node xs [] in
    let nine : items (encode (node xs)) ≡ ok 9 = ap items (sym plain) ∙ items-encode xs [] fits in
    rw (very_strict_item (node xs) fits) (
      rw listed (
        rw e1' (
          rw e2' (
            rw (decode_signature_lem check sig tx.chain_id h valid) (
              rw (assemble_lem tx sig kind e)
                (rw nine (bind-ok (check_sender curve check (as_read tx)))))))))

-- What a transaction with the signature `sig` needs to be written and read.
pub record IsWritable (tx : Transaction) (sig : Signature) : Type 0 where
  pub words : HasWords tx
  pub to : HasRecipient tx.kind tx.receive_address
  pub signed : tx.vrs ≡ some sig
  pub carries : Carries sig tx.chain_id
  pub r_word : Word sig.r
  pub s_word : Word sig.s
  pub fits : Small (length (encode (node (signed_items tx sig))))

not_null : (k : Kind) (a : List ℕ) → HasRecipient k a → is_null_kind k ≡ false
not_null message_call a h = refl
not_null contract_creation a h = refl
not_null null_transaction a h = absurd h

-- A transaction that `rlp` writes with its signature is read back, up to the remembered hash and
-- sender and the recipient of a created contract, if its numbers fit 256 bits, its signature is zero
-- or valid or not checked, its chain is one that the encoding carries, and it is shorter than
-- 2 ^ 64 - 257 bytes encoded. `Everything` then recovers the sender.
pub parse-rlp :
    (curve : Curve) (tx : Transaction) (sig : Signature) (check : CheckTransaction)
    → IsWritable tx sig
    → (is_zero_signature sig.r sig.s || not (is_checked check) || is_valid sig) ≡ true
    → (rlp tx true >>= λ d. parse curve d check) ≡ check_sender curve check (as_read tx)
unfolding rlp
parse-rlp curve tx sig check w valid =
    let kind = not_null tx.kind tx.receive_address w.to in
    let xs = signed_items tx sig in
    rw (stream_rlp-signed tx sig true empty kind w.words w.signed w.carries w.r_word w.s_word) (
      rw (finished-stream_item (node xs) (omega (arith, w.fits))) (
        parse-encode curve tx sig check kind w.words w.to w.signed w.carries w.r_word w.s_word valid
          w.fits))
