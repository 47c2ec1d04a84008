-- ===== src/Rlp/Stream/Store.antt =====
-- The backward store loop of `pushInt` and `noteAppended` writes the big-endian digits.
use web3cpp.Common.{
  ℕ, zero, suc, ◌+◌, ◌-◌, ◌/◌, ◌%◌, ◌≤◌, ◌≡◌, ◌≢◌, refl, sym, ap, ◌∙◌, List, [], ◌∷◌, ◌++◌,
  append-nil, append_assoc, length, length-append, take, set, replicate, set-append,
  length-replicate, length-take, drop-append, arith,
}
use web3cpp.Common.BigEndian.{bytes_required}
use web3cpp.Common.BigEndian.Digits.{
  digits, digits-zero, digits_step, length-digits_step, bytes_required-digits,
}
use web3cpp.Common.BigEndian.Write.{unsnoc}
use web3cpp.Rlp.Stream.{store_loop, store_back, push_int, open_gap}

-- One round of the loop writes behind `pre ++ init`.
set_there :
    (pre init post : List ℕ) (last b d : ℕ)
    → b ≡ length (pre ++ init)
    → set (pre ++ ((init ++ last ∷ []) ++ post)) b d ≡ pre ++ (init ++ d ∷ post)
set_there pre init post last b d e =
    ap (λ xs. set xs b d)
      (ap (λ t. pre ++ t) (append_assoc init (last ∷ []) post)
        ∙ sym (append_assoc pre init (last ∷ post)))
    ∙ ap (λ k. set ((pre ++ init) ++ last ∷ post) k d) e
    ∙ set-append (pre ++ init) post last d
    ∙ append_assoc pre init (d ∷ post)

store_loop_round :
    (f v b : ℕ) (xs : List ℕ)
    → store_loop (suc f) xs b (suc v) ≡ store_loop f (set xs b (suc v % 256)) (b - 1) (suc v / 256)
unfolding store_loop
store_loop_round f v b xs = ground arith

store_loop-zero : (f b : ℕ) (xs : List ℕ) → store_loop f xs b 0 ≡ xs
unfolding store_loop
store_loop-zero zero b xs = refl
store_loop-zero (suc f) b xs = refl

store_loop-digits :
    (f v b : ℕ) (pre mid post : List ℕ)
    → v ≤ f
    → length mid ≡ length (digits v)
    → b ≡ length (pre ++ mid) - 1
    → store_loop f (pre ++ (mid ++ post)) b v ≡ pre ++ (digits v ++ post)
store_loop-digits f zero b pre [] post h l e = rw digits-zero (store_loop-zero f b (pre ++ post))
store_loop-digits f zero b pre (m ∷ ms) post h l e =
    absurd (omega (arith, ap (length {A = ℕ}) digits-zero))
store_loop-digits zero (suc v) b pre mid post h l e = absurd (omega arith)
store_loop-digits (suc f) (suc v) b pre mid post h l e =
    let nz : suc v ≢ 0 = λ z. absurd (omega arith) in
    let n = length (digits (suc v / 256)) in
    let len : length mid ≡ suc n = l ∙ length-digits_step (suc v) nz ∙ omega arith in
    let (init, last, split, size) = unsnoc mid n len in
    let place : b ≡ length (pre ++ init) =
      omega (arith, length-append pre mid, length-append pre init) in
    rw split (
      store_loop_round f v b (pre ++ ((init ++ last ∷ []) ++ post))
      ∙ rw (set_there pre init post last b (suc v % 256) place) (
          store_loop-digits f (suc v / 256) (b - 1) pre init (suc v % 256 ∷ post) (omega arith) size
            (omega arith)
          ∙ rw (digits_step (suc v) nz, append_assoc)))

pub store_back-digits :
    (v b : ℕ) (pre mid post : List ℕ)
    → length mid ≡ length (digits v)
    → b ≡ length (pre ++ mid) - 1
    → store_back (pre ++ (mid ++ post)) b v ≡ pre ++ (digits v ++ post)
unfolding store_back
store_back-digits v b pre mid post l e = store_loop-digits v v b pre mid post (omega arith) l e

-- `pushInt` with the size of the number appends its digits.
pub push_int-digits : (v : ℕ) (out : List ℕ) → push_int v (bytes_required v) out ≡ out ++ digits v
push_int-digits v out =
    let room : List ℕ = replicate (bytes_required v) 0 in
    let size : length room ≡ length (digits v) =
      length-replicate (bytes_required v) 0 ∙ bytes_required-digits v in
    unfold push_int in
    ap (λ t. store_back t (length (out ++ room) - 1) v) (ap (λ t. out ++ t) (sym (append-nil room)))
    ∙ store_back-digits v (length (out ++ room) - 1) out room [] size refl
    ∙ ap (λ t. out ++ t) (append-nil (digits v))

take-append_more : (pre xs : List ℕ) (e : ℕ) → take (length pre + e) (pre ++ xs) ≡ pre ++ take e xs
take-append_more [] xs e = ap (λ k. take k xs) {x = 0 + e} {y = e} (omega arith)
take-append_more (p ∷ ps) xs e =
    ap (λ k. take k (p ∷ (ps ++ xs))) {x = suc (length ps) + e} {y = suc (length ps + e)}
      (omega arith)
    ∙ ap (λ t. p ∷ t) (take-append_more ps xs e)

-- The gap is `e` bytes of no matter what content between the two parts of the buffer.
pub open_gap_lem :
    (pre items : List ℕ) (e : ℕ)
    → (gap : List ℕ) × (open_gap (pre ++ items) (length pre) e ≡ pre ++ (gap ++ items))
      × (length gap ≡ e)
unfolding open_gap
open_gap_lem pre items e = (
  take e (items ++ replicate e 0),
  rw (append_assoc pre items (replicate e 0), take-append_more, drop-append)
      (append_assoc pre (take e (items ++ replicate e 0)) items),
  length-take e (items ++ replicate e 0)
      (omega (arith, length-append items (replicate e 0), length-replicate e (zero))),
)
