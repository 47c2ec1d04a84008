-- ===== src/Web/Contract/Sizes.antt =====
-- The sizes, in words, of what a call appends for an array of bytes or of texts.
use web3cpp.Common.{
  ℕ, zero, suc, ◌*◌, ◌/◌, ◌%◌, ◌^◌, ◌≤◌, ◌<◌, ◌≡◌, refl, true, Option, none, some, List, [], ◌∷◌,
  ◌++◌, if◌then◌else◌, length, length-append, take, drop, All, all, Bool-cases, inl, inr, arith,
}
use web3cpp.Web.Contract.Arrays.{
  join_found, chunks_loop, chunks, pad_chunks, next_location, locations, elements_of, pack_parts,
}
use web3cpp.Web.Platform.{Platform, HexLaws}
use web3cpp.Web.Solidity.Pack.{word}
use web3cpp.Web.Solidity.Pack.Words.{hex-no_prefix, pad_right_lem, length-padding, length-word}
use web3cpp.Web.Texts.{is_hex_digit}
use web3cpp.Web.Utils.{is_hex, padding, pad_right}

-- Hex digits, not too many for the number of their bytes to take a word.
abbrev pub IsDigits : List ℕ → Type 0
IsDigits s = (all (λ c. is_hex_digit c) s ≡ true) × (length s < 2 ^ 64)

-- A text that is there has whole words.
abbrev pub HasWords : Option (List ℕ) → Type 0
HasWords none = Unit
HasWords (some t) = length t % 64 ≡ 0

pub length-pad_right :
    (s : List ℕ) (n : ℕ)
    → all (λ c. is_hex_digit c) s ≡ true
    → length s ≤ n
    → length (pad_right s n b'0') ≡ n
length-pad_right s n hex fits =
    rw (pad_right_lem s n b'0' (hex-no_prefix s hex))
      (omega (arith, length-append s (padding n b'0' s), length-padding n b'0' s fits))

join_found-HasWords : (a b : Option (List ℕ)) → HasWords a → HasWords b → HasWords (join_found a b)
join_found-HasWords none b ha hb = tt
join_found-HasWords (some s) none ha hb = tt
join_found-HasWords (some s) (some t) ha hb = omega (arith, length-append s t)

pub take-hex :
    (n : ℕ) (s : List ℕ)
    → all (λ c. is_hex_digit c) s ≡ true
    → (all (λ c. is_hex_digit c) (take n s) ≡ true) × (all (λ c. is_hex_digit c) (drop n s) ≡ true)
unfolding all
take-hex zero s h = (refl, h)
take-hex (suc n) [] h = (refl, refl)
take-hex (suc n) (c ∷ s) h =
    let rest : all (λ d. is_hex_digit d) s ≡ true = ground (arith, h) in
    let first : is_hex_digit c ≡ true = ground (arith, h) in
    let (taken, dropped) = take-hex n s rest in (rw first taken, dropped)

take-fits : (n : ℕ) (s : List ℕ) → length (take n s) ≤ n
take-fits zero s = omega arith
take-fits (suc n) [] = omega arith
take-fits (suc n) (c ∷ s) = omega (arith, take-fits n s)

padded_chunk-HasWords :
    (raw : List ℕ)
    → all (λ c. is_hex_digit c) raw ≡ true
    → length raw ≤ 64
    → HasWords (if is_hex raw then some (pad_right raw 64 b'0') else none)
padded_chunk-HasWords raw hex fits = elim (Bool-cases (is_hex raw)) [
  | inl passed ↦ rw passed (omega (arith, length-pad_right raw 64 hex fits))
  | inr refused ↦ rw refused tt
]

pad_chunks-HasWords :
    (fuel : ℕ) (s : List ℕ)
    → all (λ c. is_hex_digit c) s ≡ true
    → HasWords (pad_chunks (chunks_loop fuel s))
unfolding pad_chunks chunks_loop
pad_chunks-HasWords zero s h = omega arith
pad_chunks-HasWords (suc fuel) [] h = omega arith
pad_chunks-HasWords (suc fuel) (c ∷ cs) h =
    let (taken, dropped) = take-hex 64 (c ∷ cs) h in
    join_found-HasWords _ (pad_chunks (chunks_loop fuel (drop 64 (c ∷ cs))))
      (padded_chunk-HasWords (take 64 (c ∷ cs)) taken (take-fits 64 (c ∷ cs)))
      (pad_chunks-HasWords fuel (drop 64 (c ∷ cs)) dropped)

module _ (p : Platform) (laws : HexLaws p) where
  length-locations :
      (offset : ℕ) (ss : List (List ℕ)) → offset < 2 ^ 64 → length (locations p offset ss) % 64 ≡ 0
  unfolding locations next_location
  length-locations offset [] h = omega arith
  length-locations offset (s ∷ ss) h =
      let next = next_location offset (length s / 2) in
      let others = length-locations next ss (omega arith) in
      omega (
        arith,
        others,
        length-append (word p offset) (locations p next ss),
        length-word p laws offset (omega arith),
      )

  elements_of-HasWords : (ss : List (List ℕ)) → All IsDigits ss → HasWords (elements_of p ss)
  unfolding elements_of chunks
  elements_of-HasWords [] h = omega arith
  elements_of-HasWords (s ∷ ss) ((hex, fits), h) =
      join_found-HasWords (join_found (some (word p (length s / 2))) (pad_chunks (chunks s)))
        (elements_of p ss)
        (join_found-HasWords (some (word p (length s / 2))) (pad_chunks (chunks s))
          (omega (arith, length-word p laws (length s / 2) (omega arith)))
          (pad_chunks-HasWords (length s) s hex))
        (elements_of-HasWords ss h)

  -- What is appended for an array has whole words.
  pub pack_parts-HasWords :
      (ss : List (List ℕ)) → All IsDigits ss → length ss < 2 ^ 64 → HasWords (pack_parts p ss)
  unfolding pack_parts
  pack_parts-HasWords ss h fits =
      let start = 32 * length ss % 2 ^ 64 in
      join_found-HasWords (some (word p (length ss) ++ locations p start ss)) (elements_of p ss)
        (omega (
          arith,
          length-append (word p (length ss)) (locations p start ss),
          length-word p laws (length ss) (omega arith),
          length-locations start ss (omega arith),
        ))
        (elements_of-HasWords ss h)
