-- ===== src/Common/BigEndian/Write.antt =====
-- `toBigEndian` into a collection that is large enough writes the digits, padded by zeros.
use Prim.Native.Nat.{ℕ, zero, suc, ◌+◌, ◌-◌, ◌/◌, ◌%◌, ◌≤◌, max}
use mathlib.Core.Path.{◌≡◌, refl, sym, ap, subst, ◌∙◌}
use mathlib.Core.Logic.{◌≢◌}
use mathlib.Core.List.{List, [], ◌∷◌, ◌++◌, append_assoc, append-nil}
use native.Mathlib.Omega.{arith}
use native.Mathlib.Numerals.{unary_clauses}
use web3cpp.Common.Lists.{length, set, set-append, replicate, length-replicate}
use web3cpp.Common.BigEndian.{
  bytes_required, to_big_endian_loop, to_big_endian, to_compact_big_endian,
}
use web3cpp.Common.BigEndian.Digits.{
  digits, digits-zero, digits_step, length-digits_step, bytes_required-digits,
}

-- A list with an element has a last one.
pub unsnoc {ℓ} :
    {A : Type ℓ} (xs : List A) (n : ℕ)
    → length xs ≡ suc n
    → (init : List A) × (last : A) × (xs ≡ init ++ last ∷ []) × (length init ≡ n)
unsnoc [] n h = absurd (omega arith)
unsnoc (x ∷ []) n h = ([], x, refl, omega arith)
unsnoc (x ∷ y ∷ ys) zero h = absurd (omega arith)
unsnoc (x ∷ y ∷ ys) (suc n) h =
    let (init, last, e, l) = unsnoc (y ∷ ys) n (omega arith) in
    (x ∷ init, last, ap (λ t. x ∷ t) e, ap suc l)

replicate-append {ℓ} :
    {A : Type ℓ} (n : ℕ) (a : A) (ys : List A) → replicate n a ++ a ∷ ys ≡ replicate (suc n) a ++ ys
replicate-append zero a ys = refl
replicate-append (suc n) a ys = ap (λ t. a ∷ t) (replicate-append n a ys)

-- A write at the last position of `pre`.
set_last :
    (pre post : List ℕ) (i d : ℕ)
    → length pre ≡ suc i
    → (init : List ℕ) × (set (pre ++ post) i d ≡ init ++ d ∷ post) × (length init ≡ i)
set_last pre post i d h =
    let (init, last, e, l) = unsnoc pre i h in
    (
      init,
      rw (e, append_assoc)
          (subst (λ k. set (init ++ last ∷ post) k d ≡ init ++ d ∷ post) l
            (set-append init post last d)),
      l,
    )

write_lem :
    (i v : ℕ) (pre post : List ℕ)
    → length pre ≡ i
    → length (digits v) ≤ i
    → to_big_endian_loop i v (pre ++ post)
      ≡ replicate (i - length (digits v)) 0 ++ (digits v ++ post)
unfolding to_big_endian_loop
write_lem zero zero [] post h fits = rw digits-zero
write_lem zero (suc v) [] post h fits =
    absurd (omega (arith, length-digits_step (suc v) (λ e. absurd (omega arith))))
write_lem zero v (x ∷ xs) post h fits = absurd (omega arith)
write_lem (suc i) zero pre post h fits =
    let (init, e, l) = set_last pre post i 0 h in
    rw e (
      write_lem i 0 init (0 ∷ post) l (rw digits-zero (omega arith))
      ∙ rw digits-zero (simp unary_clauses (replicate-append i 0 post)))
write_lem (suc i) (suc v) pre post h fits =
    let nz : suc v ≢ 0 = λ e. absurd (omega arith) in
    let (init, e, l) = set_last pre post i (suc v % 256) h in
    let len : length (digits (suc v)) ≡ length (digits (suc v / 256)) + 1 =
      length-digits_step (suc v) nz in
    rw e (
      write_lem i (suc v / 256) init (suc v % 256 ∷ post) l (omega arith)
      ∙ rw len (rw (digits_step (suc v) nz, append_assoc) (simp unary_clauses)))

-- `toBigEndian` keeps the size of the collection: zeros, then the digits.
pub to_big_endian-digits :
    (v : ℕ) (out : List ℕ)
    → length (digits v) ≤ length out
    → to_big_endian v out ≡ replicate (length out - length (digits v)) 0 ++ digits v
unfolding to_big_endian
to_big_endian-digits v out h =
    ap (to_big_endian_loop (length out) v) (sym (append-nil out))
    ∙ write_lem (length out) v out [] refl h
    ∙ ap (λ t. replicate (length out - length (digits v)) 0 ++ t) (append-nil (digits v))

-- With no minimum, `toCompactBigEndian` is the digits.
pub to_compact_big_endian-digits : (v : ℕ) → to_compact_big_endian v 0 ≡ digits v
unfolding to_compact_big_endian
to_compact_big_endian-digits v =
    let room : List ℕ = replicate (max 0 (bytes_required v)) 0 in
    let size : length room ≡ length (digits v) =
      length-replicate (max 0 (bytes_required v)) 0 ∙ omega (arith, bytes_required-digits v) in
    to_big_endian-digits v room (omega arith)
    ∙ ap (λ k. replicate (k - length (digits v)) 0 ++ digits v) size
    ∙ ap (λ k. replicate k 0 ++ digits v) {x = length (digits v) - length (digits v)} {y = 0}
        (omega arith)
