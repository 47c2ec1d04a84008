-- ===== src/Rlp/Item/Refinement.antt =====
-- `RLPStream` writes the canonical encoding of every item, at any depth of open lists.
use web3cpp.Common.{
  ℕ, suc, ◌+◌, ◌-◌, ◌%◌, ◌^◌, ◌≤◌, ◌<◌, ◌≡◌, refl, sym, ap, ◌∙◌, List, [], ◌∷◌, ◌++◌, append-nil,
  append_assoc, ltb, leb, ◌==◌, if◌then◌else◌, length, length-append, set, set-append, arith,
  Outcome, ok, ◌>>=◌, Bool-cases, inl, inr, lt→ltb, ltb→lt, le→ltb, ltb→le, true, false,
}
use web3cpp.Common.BigEndian.{bytes_required}
use web3cpp.Common.BigEndian.Digits.{digits, bytes_required-digits, length-digits-le}
use web3cpp.Rlp.Stream.{
  RlpStream, close_list, note_appended, push_count, append_raw, append_list_raw, append_list,
  data_bytes, append_data, store_back, finished, empty,
}
use web3cpp.Rlp.Stream.Store.{store_back-digits, push_int-digits, open_gap_lem}
use web3cpp.Rlp.Item.{
  Item, Items, str, node, nil, cons, count, header, encode_str, encode, encode_items, stream_item,
  stream_items,
}

write_first :
    (pre gap items : List ℕ) (n v : ℕ)
    → length gap ≡ suc n
    → (rest : List ℕ) × (set (pre ++ (gap ++ items)) (length pre) v ≡ pre ++ v ∷ (rest ++ items))
      × (length rest ≡ n)
write_first pre [] items n v h = absurd (omega arith)
write_first pre (g ∷ rest) items n v h = (rest, set-append pre (rest ++ items) g v, omega arith)

length-zero {ℓ} : {A : Type ℓ} (xs : List A) → length xs ≡ 0 → xs ≡ []
length-zero [] h = refl
length-zero (x ∷ xs) h = absurd (omega arith)

close_short :
    (pre items : List ℕ)
    → length items < 56
    → close_list (pre ++ items) (length pre) ≡ ok (pre ++ (header 0xc0 (length items) ++ items))
unfolding header close_list
close_short pre items h =
    let size : length (pre ++ items) - length pre ≡ length items =
      omega (arith, length-append pre items) in
    let (gap, e, l) = open_gap_lem pre items 1 in
    let (rest, w, r) = write_first pre gap items 0 ((0xc0 + length items) % 256) l in
    rw size (
      rw (lt→ltb _ _ h)
        (rw e (rw w (rw (length-zero rest r) (ap (λ b. ok (pre ++ b ∷ items)) (omega arith))))))

store_size :
    (pre rest items : List ℕ) (v n b : ℕ)
    → length rest ≡ length (digits n)
    → b ≡ length pre + length (digits n)
    → store_back (pre ++ v ∷ (rest ++ items)) b n ≡ pre ++ v ∷ (digits n ++ items)
store_size pre rest items v n b l e =
    ap (λ t. store_back t b n) (sym (append_assoc pre (v ∷ []) (rest ++ items)))
    ∙ store_back-digits n b (pre ++ v ∷ []) rest items l
        (omega (arith, length-append (pre ++ v ∷ []) rest, length-append pre (v ∷ [])))
    ∙ append_assoc pre (v ∷ []) (digits n ++ items)

close_long :
    (pre items : List ℕ)
    → 56 ≤ length items
    → length items < 2 ^ 64
    → close_list (pre ++ items) (length pre) ≡ ok (pre ++ (header 0xc0 (length items) ++ items))
unfolding header close_list
close_long pre items h fits =
    let n = length items in
    let d = length (digits n) in
    let size : length (pre ++ items) - length pre ≡ n = omega (arith, length-append pre items) in
    let few : d ≤ 8 = length-digits-le 8 n fits in
    let (gap, e, l) = open_gap_lem pre items (1 + d) in
    let v = (0xf7 + d) % 256 in
    let (rest, w, r) = write_first pre gap items d v (l ∙ omega arith) in
    let room : leb (0xf7 + d) 0xff ≡ true = ground arith in
    let byte : v ≡ 0xf7 + d = omega arith in
    rw size (
      rw (le→ltb _ _ h, bytes_required-digits)
        (rw e (
          rw w (
            rw (store_size pre rest items v n (length pre + d) r refl)
              (rw room (ap (λ b. ok (pre ++ b ∷ (digits n ++ items))) byte))))))

-- Completing a list puts its header before its items.
close_list_lem :
    (pre items : List ℕ)
    → length items < 2 ^ 64
    → close_list (pre ++ items) (length pre) ≡ ok (pre ++ (header 0xc0 (length items) ++ items))
close_list_lem pre items fits = elim (Bool-cases (ltb (length items) 56)) [
  | inl e ↦ close_short pre items (ltb→lt _ _ e)
  | inr e ↦ close_long pre items (ltb→le _ _ e) fits
]

push_count_lem :
    (n base : ℕ) (out : List ℕ)
    → base ≤ 0xf7
    → n < 2 ^ 64
    → push_count n base out ≡ ok (out ++ (base + length (digits n)) ∷ digits n)
unfolding push_count
push_count_lem n base out hb fits =
    let br = bytes_required n in
    let size : br ≡ length (digits n) = bytes_required-digits n in
    let few : length (digits n) ≤ 8 = length-digits-le 8 n fits in
    let byte : (br + base) % 256 ≡ base + length (digits n) = omega arith in
    rw (le→ltb 0xff (br + base) (omega arith)) (
      ap ok (
        push_int-digits n (out ++ (br + base) % 256 ∷ [])
        ∙ append_assoc out ((br + base) % 256 ∷ []) (digits n)
        ∙ ap (λ b. out ++ b ∷ digits n) byte))

-- The header of `append(bytesConstRef)` and of `appendList(bytesConstRef)`.
counted_header :
    (n base : ℕ) (out : List ℕ)
    → base + 55 ≤ 0xf7
    → n < 2 ^ 64
    → (if ltb n 56 then ok (out ++ (n + base) % 256 ∷ []) else push_count n (base + 55) out)
      ≡ ok (out ++ header base n)
unfolding header
counted_header n base out hb fits = elim (Bool-cases (ltb n 56)) [
  | inl e ↦ rw e (ap (λ b. ok (out ++ b ∷ [])) (omega (arith, ltb→lt n 56 e)))
  | inr e ↦ rw e (push_count_lem n (base + 55) out hb fits)
]

data_bytes_lem :
    (bs out : List ℕ) → length bs < 2 ^ 64 → data_bytes bs out ≡ ok (out ++ encode_str bs)
unfolding data_bytes encode_str
data_bytes_lem [] out fits = unfold header in ap ok (append_assoc out (0x80 ∷ []) [])
data_bytes_lem (b ∷ []) out fits = elim (Bool-cases (ltb b 0x80)) [
  | inl e ↦ rw e
  | inr e ↦ rw e (ap ok (append_assoc out (0x81 ∷ []) (b ∷ [])))
]
data_bytes_lem (b ∷ c ∷ bs) out fits =
    let long : (length (b ∷ c ∷ bs) == 1) ≡ false = ground arith in
    rw (counted_header (length (b ∷ c ∷ bs)) 0x80 out (omega arith) fits)
      (rw long (ap ok (append_assoc out (header 0x80 (length (b ∷ c ∷ bs))) (b ∷ c ∷ bs))))

pub append_data_lem :
    (bs : List ℕ) (s : RlpStream)
    → length bs < 2 ^ 64
    → append_data bs false s ≡ note_appended 1 (record s { out = s.out ++ encode_str bs })
unfolding append_data
append_data_lem bs s fits = rw (data_bytes_lem bs s.out fits)

abbrev Fits : List ℕ → Type 0
Fits bs = length bs < 2 ^ 64

note_more :
    (out : List ℕ) (k p : ℕ) (stack : List (ℕ × ℕ))
    → note_appended 1 (record { out = out; list_stack = (suc (suc k), p) ∷ stack })
      ≡ ok (record { out = out; list_stack = (suc k, p) ∷ stack })
unfolding note_appended
note_more out k p stack = ground arith

note_last :
    (pre items : List ℕ) (stack : List (ℕ × ℕ))
    → Fits items
    → note_appended 1 (record { out = pre ++ items; list_stack = (1, length pre) ∷ stack })
      ≡ note_appended 1
          (record { out = pre ++ (header 0xc0 (length items) ++ items); list_stack = stack })
unfolding note_appended
note_last pre items stack fits = rw (close_list_lem pre items fits)

pub length-encode_str-le : (bs : List ℕ) → length bs ≤ length (encode_str bs)
unfolding encode_str
length-encode_str-le [] = omega arith
length-encode_str-le (b ∷ []) = ground arith
length-encode_str-le (b ∷ c ∷ bs) =
    omega (arith, length-append (header 0x80 (length (b ∷ c ∷ bs))) (b ∷ c ∷ bs))

pub bind-ok {ℓ} : {A : Type ℓ} (m : Outcome A) → (m >>= ok) ≡ m
bind-ok (ok a) = refl
bind-ok _ = refl

-- The last item of the innermost open list closes it.
abbrev Writes : (RlpStream → Outcome RlpStream) → List ℕ → Type 0
Writes f bs = (s : RlpStream) → f s ≡ note_appended 1 (record s { out = s.out ++ bs })

abbrev note_out : List ℕ → List (ℕ × ℕ) → Outcome RlpStream
note_out out stack = note_appended 1 (record { out = out; list_stack = stack })

-- An item was just written, with which the list that began behind `pre` holds `w`, and `xs` is
-- still to come.
abbrev Completes : Items → Type 0
Completes xs =
    (pre w : List ℕ) (stack : List (ℕ × ℕ))
    → Fits (w ++ encode_items xs)
    → (note_out (pre ++ w) ((suc (count xs), length pre) ∷ stack) >>= stream_items xs)
      ≡ note_out (pre ++ (header 0xc0 (length (w ++ encode_items xs)) ++ (w ++ encode_items xs)))
          stack

append_list-zero : Writes (append_list 0) (header 0xc0 0 ++ [])
unfolding append_list append_list_raw append_raw header
append_list-zero s = ap (λ o. note_out o s.list_stack) (append_assoc s.out (0xc0 ∷ []) [])

append_list-suc :
    (n : ℕ) (s : RlpStream)
    → append_list (suc n) s
      ≡ ok (record { out = s.out ++ []; list_stack = (suc n, length s.out) ∷ s.list_stack })
unfolding append_list
append_list-suc n s =
    let some_items : (suc n == 0) ≡ false = ground arith in
    rw some_items (
      ap (λ o. ok (record { out = o; list_stack = (suc n, length s.out) ∷ s.list_stack }))
        (sym (append-nil s.out)))

Fits-rest : (w x xs : List ℕ) → Fits (w ++ (x ++ xs)) → Fits x × Fits ((w ++ x) ++ xs)
Fits-rest w x xs h =
    (omega (arith, length-append w (x ++ xs), length-append x xs), rw (append_assoc w x xs) h)

mutual
  unfolding encode stream_item

  stream_item-Writes : (x : Item) → Fits (encode x) → Writes (stream_item x) (encode x)
  stream_item-Writes (str bs) fits s = append_data_lem bs s (omega (arith, length-encode_str-le bs))
  stream_item-Writes (node nil) fits s = bind-ok (append_list 0 s) ∙ append_list-zero s
  stream_item-Writes (node (cons x xs)) fits s =
      let e = encode_items (cons x xs) in
      let all : Fits e = omega (arith, length-append (header 0xc0 (length e)) e) in
      let (one, _) = Fits-rest [] (encode x) (encode_items xs) all in
      let s' : RlpStream = record {
        out = s.out ++ [];
        list_stack = (suc (count xs), length s.out) ∷ s.list_stack;
      } in
      rw (append_list-suc (count xs) s) (
        rw (stream_item-Writes x one s') (
          ap (λ o. note_out o s'.list_stack >>= stream_items xs) (append_assoc s.out [] (encode x))
          ∙ stream_items_complete xs s.out (encode x) s.list_stack all))

  stream_items_complete : (xs : Items) → Completes xs
  stream_items_complete nil pre w stack fits =
      bind-ok (note_out (pre ++ w) ((1, length pre) ∷ stack))
      ∙ ap (λ t. note_out (pre ++ t) ((1, length pre) ∷ stack)) (sym (append-nil w))
      ∙ note_last pre (w ++ []) stack fits
  stream_items_complete (cons x xs) pre w stack fits =
      let (one, all) = Fits-rest w (encode x) (encode_items xs) fits in
      let k = count xs in
      let s : RlpStream = record { out = pre ++ w; list_stack = (suc k, length pre) ∷ stack } in
      rw (note_more (pre ++ w) k (length pre) stack) (
        rw (stream_item-Writes x one s) (
          ap (λ o. note_out o s.list_stack >>= stream_items xs) (append_assoc pre w (encode x))
          ∙ stream_items_complete xs pre (w ++ encode x) stack all
          ∙ ap (λ t. note_out (pre ++ (header 0xc0 (length t) ++ t)) stack)
              (append_assoc w (encode x) (encode_items xs))))

-- Writing an item, at any depth of open lists, appends its canonical encoding and counts as one
-- item. The encoding must be shorter than 2 ^ 64 bytes.
pub stream_item-encode :
    (x : Item) (s : RlpStream)
    → length (encode x) < 2 ^ 64
    → stream_item x s ≡ note_appended 1 (record s { out = s.out ++ encode x })
stream_item-encode x s fits = stream_item-Writes x fits s

-- A fresh stream that an item was written to holds the encoding, and no list is open.
pub finished-stream_item :
    (x : Item) → length (encode x) < 2 ^ 64 → (stream_item x empty >>= finished) ≡ ok (encode x)
unfolding finished note_appended
finished-stream_item x fits = rw (stream_item-Writes x fits empty)
