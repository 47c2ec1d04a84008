-- ===== src/Web/Solidity/Pack/Words.antt =====
-- Words of 64 digits, paddings, and the reading of a packed text.
use web3cpp.Common.{
  ℕ, zero, suc, ◌+◌, ◌-◌, ◌*◌, ◌/◌, ◌^◌, ◌≤◌, ◌<◌, ◌≡◌, refl, ap, ◌∙◌, true, false, List, [], ◌∷◌,
  ◌++◌, ltb, if◌then◌else◌, length, length-append, length-replicate, all, ok, arith, inl, inr,
  Bool-cases, ltb→lt, le→ltb, replicate,
}
use web3cpp.Web.Platform.{Platform, HexLaws}
use web3cpp.Web.Solidity.Pack.{padding_loop, padding_of, word}
use web3cpp.Web.Texts.{same, has_prefix, is_hex_digit}
use web3cpp.Web.Utils.{pad_left, pad_right, padding, without_prefix, to_hex_number}

-- Blocks of 64 digits, one at least.
abbrev pub blocks : ℕ → ℕ
blocks n = if ltb 64 n then (n + 63) / 64 else 1

last_round :
    (q n : ℕ)
    → 64 * (q + 1) < n
    → (if ltb (64 * (q + 1 + 1)) n then (n + 63) / 64 else q + 1 + 1) ≡ (n + 63) / 64
last_round q n over = ground arith

padding_loop_lem :
    (fuel q n : ℕ)
    → n ≤ 64 * q + 64 * fuel
    → 1 ≤ fuel
    → padding_loop fuel (64 * q) n
      ≡ ok (64 * (if ltb (64 * (q + 1)) n then (n + 63) / 64 else q + 1))
unfolding padding_loop
padding_loop_lem zero q n h h1 = absurd (omega arith)
padding_loop_lem (suc fuel) q n h h1 =
    let next : 64 * q + 64 ≡ 64 * (q + 1) = omega arith in
    rw next (elim (Bool-cases (ltb (64 * (q + 1)) n)) [
      | inl more ↦
          let over = ltb→lt (64 * (q + 1)) n more in
          rw more (
            padding_loop_lem fuel (q + 1) n (omega arith) (omega arith)
            ∙ ap (λ k. ok (64 * k)) (last_round q n over))
      | inr last ↦ rw last refl
    ])

-- The loop of a padding ends.
pub padding_of-blocks : (n : ℕ) → padding_of n ≡ ok (64 * blocks n)
unfolding padding_of
padding_of-blocks n = padding_loop_lem (suc n) 0 n (omega arith) (omega arith)

pub hex-no_prefix : (s : List ℕ) → all (λ c. is_hex_digit c) s ≡ true → has_prefix s ≡ false
unfolding has_prefix same all
hex-no_prefix [] h = refl
hex-no_prefix (a ∷ []) h = ground arith
hex-no_prefix (a ∷ b ∷ s) h = ground (arith, h)

pub pad_right_lem :
    (s : List ℕ) (n sign : ℕ) → has_prefix s ≡ false → pad_right s n sign ≡ s ++ padding n sign s
unfolding pad_right without_prefix
pad_right_lem s n sign h = rw h

pub pad_left_lem :
    (s : List ℕ) (n sign : ℕ) → has_prefix s ≡ false → pad_left s n sign ≡ padding n sign s ++ s
unfolding pad_left without_prefix
pad_left_lem s n sign h = rw h

pub length-padding :
    (n sign : ℕ) (s : List ℕ) → length s ≤ n → length (padding n sign s) ≡ n - length s
unfolding padding
length-padding n sign s h = elim (Bool-cases (ltb (length s) n)) [
  | inl low ↦ rw low (length-replicate (n - length s) sign)
  | inr high ↦ rw high (ground (arith, high, h))
]

pub padding_full : (n sign : ℕ) (s : List ℕ) → n ≤ length s → padding n sign s ≡ []
unfolding padding
padding_full n sign s h = rw (le→ltb (length s) n h)

all-append_hex :
    (s t : List ℕ)
    → all (λ c. is_hex_digit c) s ≡ true
    → all (λ c. is_hex_digit c) t ≡ true
    → all (λ c. is_hex_digit c) (s ++ t) ≡ true
unfolding all
all-append_hex [] t hs ht = ht
all-append_hex (c ∷ s) t hs ht = ground (arith, all-append_hex s t, hs)

all-replicate_zero : (n : ℕ) → all (λ c. is_hex_digit c) (replicate n b'0') ≡ true
unfolding all
all-replicate_zero zero = refl
all-replicate_zero (suc n) = all-replicate_zero n

-- Zeros behind hex digits leave them hex digits.
pub all_hex-padded :
    (n : ℕ) (s : List ℕ)
    → all (λ c. is_hex_digit c) s ≡ true
    → all (λ c. is_hex_digit c) (s ++ padding n b'0' s) ≡ true
unfolding padding
all_hex-padded n s h = elim (Bool-cases (ltb (length s) n)) [
  | inl low ↦
      rw low
        (all-append_hex s (replicate (n - length s) b'0') h (all-replicate_zero (n - length s)))
  | inr high ↦ rw high (all-append_hex s [] h (unfold all in refl))
]

module _ (p : Platform) (laws : HexLaws p) where
  word_shape : (n : ℕ) → word p n ≡ padding 64 b'0' (p.print_hex n) ++ p.print_hex n
  unfolding word to_hex_number
  word_shape n = pad_left_lem (p.print_hex n) 64 b'0' (hex-no_prefix _ (laws.hex_only n))

  pub length-word : (n : ℕ) → n < 2 ^ 256 → length (word p n) ≡ 64
  length-word n h = rw (word_shape n) (
      omega (
        arith,
        length-append (padding 64 b'0' (p.print_hex n)) (p.print_hex n),
        length-padding 64 b'0' (p.print_hex n) (laws.short n h),
        laws.short n h,
      ))

  pub read_hex-word : (n : ℕ) → n < 2 ^ 256 → p.read_hex (word p n) ≡ ok n
  unfolding padding
  read_hex-word n h = rw (word_shape n) (elim (Bool-cases (ltb (length (p.print_hex n)) 64)) [
    | inl low ↦ rw low (laws.value (64 - length (p.print_hex n)) n h)
    | inr full ↦ rw full (laws.value 0 n h)
  ])
