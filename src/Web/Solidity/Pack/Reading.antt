-- ===== src/Web/Solidity/Pack/Reading.antt =====
-- A reader of packed texts by the layout of the ABI, and what it finds in the packing of a text of
-- hex digits. Offsets and lengths count bytes, positions count digits.
use web3cpp.Common.{
  ℕ, ◌*◌, ◌/◌, ◌%◌, ◌^◌, ◌≤◌, ◌<◌, ◌≡◌, refl, sym, ap, ◌∙◌, true, List, [], ◌++◌, append_assoc,
  append-nil, length, length-append, take, drop, take-append, take-append_le, take_all, drop-append,
  all, Outcome, ok, ◌>>=◌, arith,
}
use web3cpp.Web.Platform.{Platform, HexLaws}
use web3cpp.Web.Solidity.Pack.{word, pack_digits}
use web3cpp.Web.Solidity.Pack.Words.{
  blocks, padding_of-blocks, hex-no_prefix, pad_right_lem, length-padding, length-word,
  read_hex-word,
}
use web3cpp.Web.Texts.{is_hex_digit}
use web3cpp.Web.Utils.{padding}

-- An even number of hex digits.
abbrev pub IsHexText : List ℕ → Type 0
IsHexText s = (all (λ c. is_hex_digit c) s ≡ true) × (length s % 2 ≡ 0)

pub take-length : (n : ℕ) (xs ys : List ℕ) → length xs ≡ n → take n (xs ++ ys) ≡ xs
take-length n xs ys e = ap (λ k. take k (xs ++ ys)) (sym e) ∙ take-append xs ys

pub drop-length : (n : ℕ) (xs ys : List ℕ) → length xs ≡ n → drop n (xs ++ ys) ≡ ys
drop-length n xs ys e = ap (λ k. drop k (xs ++ ys)) (sym e) ∙ drop-append xs ys

pub blocks-le : (n : ℕ) → n ≤ 64 * blocks n
blocks-le n = ground arith

-- The padded digits of a text.
unfoldable pub padded : List ℕ → List ℕ
padded s = s ++ padding (64 * blocks (length s)) b'0' s

pub length-padded : (s : List ℕ) → length (padded s) ≡ 64 * blocks (length s)
unfolding padded
length-padded s =
    let n = 64 * blocks (length s) in
    omega (
      arith,
      length-append s (padding n b'0' s),
      length-padding n b'0' s (blocks-le (length s)),
      blocks-le (length s),
    )

module _ (p : Platform) where
  -- The word at the front of a text.
  unfoldable pub read_word : List ℕ → Outcome ℕ
  read_word t = p.read_hex (take 64 t)

  -- A length, and that many bytes behind it.
  unfoldable pub read_sized : List ℕ → Outcome (List ℕ)
  read_sized t = read_word t >>= λ n. ok (take (2 * n) (drop 64 t))

  -- An offset at the front, and at the offset a length with its bytes.
  unfoldable pub read_bytes : List ℕ → Outcome (List ℕ)
  read_bytes t = read_word t >>= λ offset. read_sized (drop (2 * offset) t)

module _ (p : Platform) (laws : HexLaws p) where
  pub read_word-word : (n : ℕ) (rest : List ℕ) → n < 2 ^ 256 → read_word p (word p n ++ rest) ≡ ok n
  unfolding read_word
  read_word-word n rest h =
      ap p.read_hex (take-length 64 (word p n) rest (length-word p laws n h))
      ∙ read_hex-word p laws n h

  pub drop-word : (n : ℕ) (rest : List ℕ) → n < 2 ^ 256 → drop 64 (word p n ++ rest) ≡ rest
  drop-word n rest h = drop-length 64 (word p n) rest (length-word p laws n h)

  pub read_sized_whole :
      (s rest : List ℕ)
      → length s < 2 ^ 31
      → read_sized p (word p (length s / 2) ++ (padded s ++ rest))
        ≡ ok (take (2 * (length s / 2)) s)
  unfolding read_sized padded
  read_sized_whole s rest short =
      let small : length s / 2 < 2 ^ 256 = omega arith in
      let zeros = padding (64 * blocks (length s)) b'0' s in
      rw (read_word-word (length s / 2) (padded s ++ rest) small) (
        rw (drop-word (length s / 2) (padded s ++ rest) small) (
          ap ok (
            ap (take (2 * (length s / 2))) (append_assoc s zeros rest)
            ∙ take-append_le (2 * (length s / 2)) s (zeros ++ rest) (omega arith))))

  pub read_sized-padded :
      (s rest : List ℕ)
      → length s % 2 ≡ 0
      → length s < 2 ^ 31
      → read_sized p (word p (length s / 2) ++ (padded s ++ rest)) ≡ ok s
  read_sized-padded s rest even short =
      read_sized_whole s rest short ∙ ap ok (take_all (2 * (length s / 2)) s (omega arith))

  pub pack_digits_lem :
      (s : List ℕ)
      → all (λ c. is_hex_digit c) s ≡ true
      → pack_digits p s ≡ ok (word p 32 ++ word p (length s / 2) ++ padded s)
  unfolding pack_digits padded
  pack_digits_lem s hex =
      rw (padding_of-blocks (length s))
        (rw (pad_right_lem s (64 * blocks (length s)) b'0' (hex-no_prefix s hex)) refl)

  read_bytes-packed :
      (s : List ℕ)
      → length s < 2 ^ 31
      → read_bytes p (word p 32 ++ (word p (length s / 2) ++ padded s))
        ≡ ok (take (2 * (length s / 2)) s)
  unfolding read_bytes
  read_bytes-packed s short =
      let size = word p (length s / 2) in
      rw (read_word-word 32 (size ++ padded s) (omega arith)) (
        ap (read_sized p) (drop-word 32 (size ++ padded s) (omega arith))
        ∙ ap (λ t. read_sized p (size ++ t)) (sym (append-nil (padded s)))
        ∙ read_sized_whole s [] short)

  pub read_bytes-pack_digits :
      (s : List ℕ)
      → all (λ c. is_hex_digit c) s ≡ true
      → length s < 2 ^ 31
      → (pack_digits p s >>= read_bytes p) ≡ ok (take (2 * (length s / 2)) s)
  read_bytes-pack_digits s hex short = rw (pack_digits_lem s hex) (
      ap (read_bytes p) (append_assoc (word p 32) (word p (length s / 2)) (padded s))
      ∙ read_bytes-packed s short)
