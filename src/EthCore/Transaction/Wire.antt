-- ===== src/EthCore/Transaction/Wire.antt =====
-- What `streamRLP` writes: a list of six, or with a signature of nine, strings.
use web3cpp.Common.{
  ℕ, ◌+◌, ◌*◌, ◌%◌, ◌^◌, ◌≤◌, ◌<◌, ◌≡◌, ◌⊎◌, inl, inr, refl, sym, ap, ◌∙◌, Bool, true, false,
  Option, none, some, List, [], if◌then◌else◌, Outcome, ok, ◌>>=◌, bind-ext, bind_assoc, arith,
}
use web3cpp.Common.BigEndian.Digits.{digits}
use web3cpp.EthCore.Curve.{Signature}
use web3cpp.EthCore.Transaction.{
  Kind, null_transaction, contract_creation, message_call, Transaction, is_zero_signature,
  has_zero_signature, chain_of, int_offset, raw_v, append_unsigned, append_recipient, append_v,
  append_signature, append_fields, append_chain, stream_rlp, is_null_kind,
}
use web3cpp.Rlp.Item.{Item, Items, str, node, nil, cons, stream_item, stream_items}
use web3cpp.Rlp.Item.Refinement.{bind-ok}
use web3cpp.Rlp.Stream.{RlpStream, append_data, append_int, append_list}
use web3cpp.Rlp.View.Integers.{append_int-digits}

abbrev pub number : ℕ → Item
number n = str (digits n)

abbrev pub recipient : Kind → List ℕ → List ℕ
recipient message_call a = a
recipient null_transaction a = []
recipient contract_creation a = []

unfoldable pub fields : Transaction → Items → Items
fields tx rest = cons (number tx.nonce) (
    cons (number tx.gas_price) (
      cons (number tx.gas) (
        cons (str (recipient tx.kind tx.receive_address))
          (cons (number tx.value) (cons (str tx.payload) rest)))))

-- The number that stands for the recovery id and the chain.
unfoldable pub wire_v : Signature → Option ℕ → ℕ
wire_v sig none = 27 + sig.v
wire_v sig (some c) = if is_zero_signature sig.r sig.s then c else c * 2 + 35 + sig.v

unfoldable pub signature_items : Signature → Option ℕ → Items
signature_items sig chain =
    cons (number (wire_v sig chain)) (cons (number sig.r) (cons (number sig.s) nil))

abbrev pub Word : ℕ → Type 0
Word n = n < 2 ^ 256

-- Signatures and chains that the encoding can carry: a signature of zeros names a chain of 32 bits,
-- any other has one of two recovery ids, and twice its chain fits an `int`.
abbrev pub Carries : Signature → Option ℕ → Type 0
Carries sig none = (is_zero_signature sig.r sig.s ≡ false) × (sig.v ≤ 1)
Carries sig (some c) =
    ((is_zero_signature sig.r sig.s ≡ true) × (sig.v ≡ 0) × (c < 2 ^ 32))
    ⊎ ((is_zero_signature sig.r sig.s ≡ false) × (sig.v ≤ 1) × (1 ≤ c) × (c * 2 + 36 < 2 ^ 31))

then_number :
    (n : ℕ) (xs : Items) (s : RlpStream) (k : RlpStream → Outcome RlpStream)
    → Word n
    → ((s' : RlpStream) → k s' ≡ stream_items xs s')
    → (append_int n s >>= k) ≡ stream_items (cons (number n) xs) s
then_number n xs s k fits h =
    bind-ext (append_int n s) k (stream_items xs) h
    ∙ ap (λ m. m >>= stream_items xs) (append_int-digits n s fits)
    ∙ unfold stream_items in refl

then_data :
    (bs : List ℕ) (xs : Items) (s : RlpStream) (k : RlpStream → Outcome RlpStream)
    → ((s' : RlpStream) → k s' ≡ stream_items xs s')
    → (append_data bs false s >>= k) ≡ stream_items (cons (str bs) xs) s
then_data bs xs s k h =
    bind-ext (append_data bs false s) k (stream_items xs) h ∙ unfold stream_items in refl

recipient_lem :
    (tx : Transaction) (s : RlpStream)
    → append_recipient tx s ≡ append_data (recipient tx.kind tx.receive_address) false s
unfolding append_recipient
recipient_lem tx s = go tx.kind
  where
    go :
        (k : Kind)
        → (elim k [
          | message_call ↦ append_data tx.receive_address false s
          | null_transaction ↦ append_data [] false s
          | contract_creation ↦ append_data [] false s
        ])
          ≡ append_data (recipient k tx.receive_address) false s
    go message_call = refl
    go null_transaction = refl
    go contract_creation = refl

-- The numbers of a transaction fit 256 bits.
pub record HasWords (tx : Transaction) : Type 0 where
  pub nonce : Word tx.nonce
  pub gas_price : Word tx.gas_price
  pub gas : Word tx.gas
  pub value : Word tx.value

fields_lem :
    (tx : Transaction) (rest : Items) (s : RlpStream) (k : RlpStream → Outcome RlpStream)
    → HasWords tx
    → ((s' : RlpStream) → k s' ≡ stream_items rest s')
    → (append_fields tx s >>= k) ≡ stream_items (fields tx rest) s
unfolding append_fields fields
fields_lem tx rest s k words h =
    bind_assoc (append_int tx.nonce s) _ k
    ∙ then_number tx.nonce _ s _ words.nonce (λ s1.
      bind_assoc (append_int tx.gas_price s1) _ k
      ∙ then_number tx.gas_price _ s1 _ words.gas_price (λ s2.
        bind_assoc (append_int tx.gas s2) _ k
        ∙ then_number tx.gas _ s2 _ words.gas (λ s3.
          bind_assoc (append_recipient tx s3) _ k
          ∙ rw (recipient_lem tx s3) (
              then_data (recipient tx.kind tx.receive_address) _ s3 _ (λ s4.
                bind_assoc (append_int tx.value s4) _ k
                ∙ then_number tx.value _ s4 _ words.value
                    (λ s5. then_data tx.payload rest s5 k h))))))

zero_sum : (v : ℕ) → v ≤ 1 → int_offset 27 v ≡ ok (27 + v)
unfolding int_offset
zero_sum v h = ground arith

chain_sum :
    (c v : ℕ)
    → v ≤ 1
    → c * 2 + 36 < 2 ^ 31
    → int_offset ((c * 2 + 35) % 2 ^ 64 % 2 ^ 32) v ≡ ok (c * 2 + 35 + v)
chain_sum c v hv hc =
    let same : (c * 2 + 35) % 2 ^ 64 % 2 ^ 32 ≡ c * 2 + 35 = omega arith in
    rw same (unfold int_offset in ground arith)

-- What `append_v` writes is the number on the wire.
append_v_lem :
    (tx : Transaction) (sig : Signature) (chain : Option ℕ) (s : RlpStream)
    → tx.vrs ≡ some sig
    → tx.chain_id ≡ chain
    → Carries sig chain
    → append_v tx s ≡ append_int (wire_v sig chain) s
unfolding append_v has_zero_signature raw_v chain_of wire_v append_unsigned
append_v_lem tx sig none s e ec (nz, hv) =
    rw (append_v, has_zero_signature, e) (rw nz (rw (raw_v, ec) ((rw (zero_sum sig.v hv)))))
append_v_lem tx sig (some c) s e ec (inl (z, hv, hc)) =
    let low : c % 2 ^ 32 ≡ c = omega arith in
    rw (append_v, has_zero_signature, e) (rw z (rw (chain_of, ec) (rw low)))
append_v_lem tx sig (some c) s e ec (inr (nz, hv, h1, hc)) =
    rw (append_v, has_zero_signature, e) (rw nz (rw (raw_v, ec) ((rw (chain_sum c sig.v hv hc)))))

pub wire_v-Word : (sig : Signature) (chain : Option ℕ) → Carries sig chain → Word (wire_v sig chain)
unfolding wire_v
wire_v-Word sig none (nz, hv) = omega arith
wire_v-Word sig (some c) (inl (z, hv, hc)) = rw z (omega arith)
wire_v-Word sig (some c) (inr (nz, hv, h1, hc)) = rw nz (omega arith)

signature_lem :
    (tx : Transaction) (sig : Signature) (s : RlpStream)
    → tx.vrs ≡ some sig
    → Carries sig tx.chain_id
    → Word sig.r
    → Word sig.s
    → append_signature tx s ≡ stream_items (signature_items sig tx.chain_id) s
unfolding append_signature signature_items
signature_lem tx sig s e h hr hs =
    rw (append_signature, e)
      (rw (append_v_lem tx sig tx.chain_id s e refl h) (
        then_number (wire_v sig tx.chain_id) _ s _ (wire_v-Word sig tx.chain_id h) (λ s1.
          then_number sig.r _ s1 _ hr (λ s2.
            sym (bind-ok (append_int sig.s s2))
            ∙ then_number sig.s nil s2 ok hs (λ s3. unfold stream_items in refl)))))

-- The list that `streamRLP` writes with a signature.
unfoldable pub signed_items : Transaction → Signature → Items
signed_items tx sig = fields tx (signature_items sig tx.chain_id)

-- With its signature, a transaction that has a kind is written as the list of its nine strings, if its
-- numbers fit 256 bits and the encoding carries its chain.
pub stream_rlp-signed :
    (tx : Transaction) (sig : Signature) (for_hash : Bool) (s : RlpStream)
    → is_null_kind tx.kind ≡ false
    → HasWords tx
    → tx.vrs ≡ some sig
    → Carries sig tx.chain_id
    → Word sig.r
    → Word sig.s
    → stream_rlp tx true for_hash s ≡ stream_item (node (signed_items tx sig)) s
unfolding stream_rlp signed_items stream_item fields signature_items
stream_rlp-signed tx sig for_hash s kind words e h hr hs = rw kind (
    bind-ext (append_list 9 s) _ _ (λ s1.
      fields_lem tx (signature_items sig tx.chain_id) s1 _ words
        (λ s2. signature_lem tx sig s2 e h hr hs)))

-- For its hash, it is the list of its six strings; with a chain, that chain and two zeros follow.
pub stream_rlp-plain :
    (tx : Transaction) (s : RlpStream)
    → is_null_kind tx.kind ≡ false
    → HasWords tx
    → stream_rlp tx false false s ≡ stream_item (node (fields tx nil)) s
unfolding stream_rlp stream_item fields
stream_rlp-plain tx s kind words = rw kind (
    bind-ext (append_list 6 s) _ _
      (λ s1. fields_lem tx nil s1 ok words (λ s2. unfold stream_items in refl)))

unfoldable pub chain_items : ℕ → Items
chain_items c = cons (number (c % 2 ^ 32)) (cons (number 0) (cons (number 0) nil))

-- EIP-155: the bytes that are hashed for a transaction with a chain. Only 32 bits of the chain count.
pub stream_rlp-replay_protected :
    (tx : Transaction) (c : ℕ) (s : RlpStream)
    → is_null_kind tx.kind ≡ false
    → HasWords tx
    → tx.chain_id ≡ some c
    → stream_rlp tx false true s ≡ stream_item (node (fields tx (chain_items c))) s
unfolding stream_rlp stream_item fields chain_items append_chain append_unsigned chain_of
stream_rlp-replay_protected tx c s kind words e =
    let zero_low : 0 % 2 ^ 32 ≡ 0 = omega arith in
    rw kind (
      bind-ext (append_list 9 s) _ _ (λ s1.
        fields_lem tx (chain_items c) s1 (append_chain tx) words (λ s2.
          rw (append_chain, chain_of, e)
            (then_number (c % 2 ^ 32) (cons (number 0) (cons (number 0) nil)) s2 _ (omega arith)
              (λ s3. then_number 0 (cons (number 0) nil) s3 _ (omega arith) (λ s4.
                sym (bind-ok (append_int 0 s4))
                ∙ then_number 0 nil s4 ok (omega arith) (λ s5. unfold stream_items in refl)))))))
