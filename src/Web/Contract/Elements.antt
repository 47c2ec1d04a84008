-- ===== src/Web/Contract/Elements.antt =====
-- A reader of the ABI in the arrays of bytes and of texts of a call (src/Contract.cpp): each offset leads to its
-- element.
use web3cpp.Common.{
  ℕ, zero, suc, ◌+◌, ◌-◌, ◌*◌, ◌/◌, ◌%◌, ◌^◌, ◌≤◌, ◌<◌, ◌≡◌, refl, sym, ap, ap₂, ◌∙◌, true, some,
  List, [], ◌∷◌, ◌++◌, append_assoc, append-nil, ltb, length, length-append, length-drop,
  length-take, length-replicate, take, drop, take_all, take-append_le, replicate, All, all, ok,
  arith, inl, inr, Bool-cases,
}
use web3cpp.Web.Contract.Arrays.{
  chunks_loop, chunks, pad_chunks, next_location, locations, elements_of, pack_parts,
}
use web3cpp.Web.Contract.Sizes.{take-hex}
use web3cpp.Web.Platform.{Platform, HexLaws}
use web3cpp.Web.Solidity.Multi.Layout.{behind}
use web3cpp.Web.Solidity.Multi.Abi.{Stands, byte_string, byte_strings, read_head, read_counted}
use web3cpp.Web.Solidity.Pack.{word}
use web3cpp.Web.Solidity.Pack.Arrays.{read_elements, read_step, split_body, content_at}
use web3cpp.Web.Solidity.Pack.Reading.{
  IsHexText, drop-length, read_word, read_sized, read_word-word, drop-word,
}
use web3cpp.Web.Solidity.Pack.Words.{hex-no_prefix, pad_right_lem, padding_full, length-word}
use web3cpp.Web.Texts.{is_hex_digit}
use web3cpp.Web.Utils.{is_hex, padding}

-- The zeros behind a text, to a whole number of words.
abbrev pub zeros : List ℕ → List ℕ
zeros s = replicate (64 * ((length s + 63) / 64) - length s) b'0'

pub padding-zeros : (s : List ℕ) → padding (64 * ((length s + 63) / 64)) b'0' s ≡ zeros s
unfolding padding
padding-zeros s = elim (Bool-cases (ltb (length s) (64 * ((length s + 63) / 64)))) [
  | inl low ↦ rw low refl
  | inr full ↦
      let none_left : 64 * ((length s + 63) / 64) - length s ≡ 0 = ground (arith, full) in
      rw full (rw none_left refl)
]

is_hex-hex : (s : List ℕ) → all (λ c. is_hex_digit c) s ≡ true → is_hex s ≡ true
unfolding is_hex
is_hex-hex s h = rw (hex-no_prefix s h) h

take-drop_whole : (n : ℕ) (s : List ℕ) → take n s ++ drop n s ≡ s
take-drop_whole zero s = refl
take-drop_whole (suc n) [] = refl
take-drop_whole (suc n) (c ∷ s) = ap (λ l. c ∷ l) (take-drop_whole n s)

drop_all : (n : ℕ) (s : List ℕ) → length s ≤ n → drop n s ≡ []
drop_all zero [] h = refl
drop_all zero (c ∷ s) h = absurd (omega arith)
drop_all (suc n) [] h = refl
drop_all (suc n) (c ∷ s) h = drop_all n s (omega arith)

-- A first chunk, padded, and the rest with its zeros.
chunk_and_rest :
    (s : List ℕ)
    → 0 < length s
    → (take 64 s ++ padding 64 b'0' (take 64 s)) ++ (drop 64 s ++ zeros (drop 64 s)) ≡ s ++ zeros s
chunk_and_rest s some_digit = elim (Bool-cases (ltb 64 (length s))) [
  | inr short ↦
      let few : length s ≤ 64 = ground (arith, short) in
      rw (take_all 64 s few) (
        rw (drop_all 64 s few) (
          append-nil (s ++ padding 64 b'0' s)
          ∙ ap (λ t. s ++ t)
              (ap (λ n. padding n b'0' s) {x = 64} {y = 64 * ((length s + 63) / 64)} (omega arith)
                ∙ padding-zeros s)))
  | inl long ↦
      let many : 64 < length s = ground (arith, long) in
      let whole : 64 ≤ length (take 64 s) = omega (arith, length-take 64 s (omega arith)) in
      let count : 64 * ((length (drop 64 s) + 63) / 64) - length (drop 64 s)
          ≡ 64 * ((length s + 63) / 64) - length s =
        omega (arith, length-drop 64 s) in
      rw (padding_full 64 b'0' (take 64 s) whole) (
        ap (λ t. t ++ (drop 64 s ++ zeros (drop 64 s))) (append-nil (take 64 s))
        ∙ sym (append_assoc (take 64 s) (drop 64 s) (zeros (drop 64 s)))
        ∙ ap₂ (λ x n. x ++ replicate n b'0') (take-drop_whole 64 s) count)
]

-- The chunks of a text, padded, are the text and its zeros.
pad_chunks-chunks :
    (fuel : ℕ) (s : List ℕ)
    → length s ≤ fuel
    → all (λ c. is_hex_digit c) s ≡ true
    → pad_chunks (chunks_loop fuel s) ≡ some (s ++ zeros s)
unfolding pad_chunks chunks_loop
pad_chunks-chunks zero [] enough h = refl
pad_chunks-chunks zero (c ∷ cs) enough h = absurd (omega arith)
pad_chunks-chunks (suc fuel) [] enough h = refl
pad_chunks-chunks (suc fuel) (c ∷ cs) enough h =
    let s = c ∷ cs in
    let (taken, dropped) = take-hex 64 s h in
    let rest = pad_chunks-chunks fuel (drop 64 s) (omega (arith, length-drop 64 s)) dropped in
    let raw = pad_right_lem (take 64 s) 64 b'0' (hex-no_prefix (take 64 s) taken) in
    rw (is_hex-hex (take 64 s) taken) (rw rest (rw raw (ap some (chunk_and_rest s (omega arith)))))

module _ (p : Platform) where
  -- The number of bytes, and the digits with their zeros.
  abbrev pub sized_text : List ℕ → List ℕ
  sized_text s = word p (length s / 2) ++ (s ++ zeros s)

  abbrev pub sized_texts : List (List ℕ) → List ℕ
  sized_texts [] = []
  sized_texts (s ∷ ss) = sized_text s ++ sized_texts ss

  elements_of_lem :
      (ss : List (List ℕ)) → All IsHexText ss → elements_of p ss ≡ some (sized_texts ss)
  unfolding elements_of chunks
  elements_of_lem [] h = refl
  elements_of_lem (s ∷ ss) ((hex, even), h) =
      rw (pad_chunks-chunks (length s) s (omega arith) hex) (rw (elements_of_lem ss h) refl)

  abbrev pub array_text : List (List ℕ) → List ℕ
  array_text ss = word p (length ss) ++ (locations p (32 * length ss % 2 ^ 64) ss ++ sized_texts ss)

  pub pack_parts-array_text :
      (ss : List (List ℕ)) → All IsHexText ss → pack_parts p ss ≡ some (array_text ss)
  unfolding pack_parts
  pack_parts-array_text ss h = rw (elements_of_lem ss h) (
      ap some (
        append_assoc (word p (length ss)) (locations p (32 * length ss % 2 ^ 64) ss)
          (sized_texts ss)))

module _ (p : Platform) (laws : HexLaws p) where
  length-sized_text :
      (s : List ℕ) → length s < 2 ^ 64 → length (sized_text p s) ≡ 64 + 64 * ((length s + 63) / 64)
  length-sized_text s fits = omega (
    arith,
    length-append (word p (length s / 2)) (s ++ zeros s),
    length-append s (zeros s),
    length-replicate {0} {A = ℕ} (64 * ((length s + 63) / 64) - length s) b'0',
    length-word p laws (length s / 2) (omega arith),
  )

  read_sized-sized_text :
      (s rest : List ℕ)
      → length s % 2 ≡ 0
      → length s < 2 ^ 64
      → read_sized p (sized_text p s ++ rest) ≡ ok s
  unfolding read_sized
  read_sized-sized_text s rest even fits =
      let n = length s / 2 in
      let small : n < 2 ^ 256 = omega arith in
      let tail = (s ++ zeros s) ++ rest in
      rw (append_assoc (word p n) (s ++ zeros s) rest) (
        rw (read_word-word p laws n tail small) (
          rw (drop-word p laws n tail small) (
            ap ok (
              ap (take (2 * n)) (append_assoc s (zeros s) rest)
              ∙ take-append_le (2 * n) s (zeros s ++ rest) (omega arith)
              ∙ take_all (2 * n) s (omega (arith, even))))))

  length-locations_of :
      (offset : ℕ) (ss : List (List ℕ))
      → offset < 2 ^ 64
      → length (locations p offset ss) ≡ 64 * length ss
  unfolding locations next_location
  length-locations_of offset [] h = omega arith
  length-locations_of offset (s ∷ ss) h =
      let next = next_location offset (length s / 2) in
      omega (
        arith,
        length-append (word p offset) (locations p next ss),
        length-word p laws offset (omega arith),
        length-locations_of next ss (omega arith),
      )

  next_place :
      (offset n : ℕ)
      → offset % 32 ≡ 0
      → offset + 64 + n < 2 ^ 64
      → n % 2 ≡ 0
      → next_location offset (n / 2) ≡ offset + 32 + 32 * ((n + 63) / 64)
  unfolding next_location
  next_place offset n aligned fits even = omega arith

  -- The reader finds the elements behind `front`, whose contents stand behind `middle`.
  read_elements-locations :
      (i offset : ℕ) (ss : List (List ℕ)) (front middle rest : List ℕ)
      → All IsHexText ss
      → offset % 32 ≡ 0
      → length front ≡ 64 * i
      → 2 * offset ≡ 64 * i + 64 * length ss + length middle
      → offset + 64 + length (sized_texts p ss) < 2 ^ 63
      → read_elements p
          (length ss)
          i
          (front ++ (locations p offset ss ++ (middle ++ (sized_texts p ss ++ rest))))
        ≡ ok ss
  unfolding locations read_elements
  read_elements-locations i offset [] front middle rest h aligned at place fits = refl
  read_elements-locations i offset (s ∷ ss) front middle rest ((hex, even), h) aligned at place
        fits =
      let o = word p offset in
      let e = sized_text p s in
      let later = sized_texts p ss in
      let c = later ++ rest in
      let next = next_location offset (length s / 2) in
      let sizes = length-append e later in
      let digits : length s < 2 ^ 63 = omega (
        arith,
        fits,
        sizes,
        length-append (word p (length s / 2)) (s ++ zeros s),
        length-append s (zeros s),
      ) in
      let size = length-sized_text s (omega (arith, digits)) in
      let small : offset < 2 ^ 64 = omega (arith, fits) in
      let head = length-word p laws offset (omega (arith, small)) in
      let step = next_place offset (length s) aligned (omega (arith, fits, sizes, size)) even in
      let others = locations p next ss in
      ap (read_elements p (suc (length ss)) i)
        (ap (λ t. front ++ ((o ++ others) ++ (middle ++ t))) (append_assoc e later rest))
      ∙ read_step p laws (length ss) i offset _ s ss
          (ap (read_word p)
              (drop-length (64 * i) front _ at ∙ append_assoc o others (middle ++ (e ++ c)))
            ∙ read_word-word p laws offset _ (omega (arith, small)))
          (ap (read_sized p) (
              content_at p laws front (o ++ others) middle (e ++ c) (2 * offset) (
                omega (
                  arith,
                  place,
                  at,
                  head,
                  length-append o others,
                  length-locations_of next ss (omega (arith, step, fits, sizes, size)),
                )))
            ∙ read_sized-sized_text s c even (omega (arith, digits)))
          (ap (read_elements p (length ss) (i + 1)) (split_body p laws front o others middle e c)
            ∙ read_elements-locations (i + 1) next ss (front ++ o) (middle ++ e) rest h
                (omega (arith, step, aligned)) (omega (arith, at, head, length-append front o))
                (omega (arith, place, step, size, length-append middle e))
                (omega (arith, fits, step, size, sizes)))

  read_counted-array_text :
      (ss : List (List ℕ)) (rest : List ℕ)
      → All IsHexText ss
      → 64 * length ss + length (sized_texts p ss) < 2 ^ 62
      → read_counted p (array_text p ss ++ rest) ≡ ok ss
  unfolding read_counted
  read_counted-array_text ss rest h fits =
      let n = length ss in
      let start = 32 * n % 2 ^ 64 in
      let few : n < 2 ^ 256 = omega (arith, fits) in
      let body = locations p start ss ++ ([] ++ (sized_texts p ss ++ rest)) in
      let whole : array_text p ss ++ rest ≡ word p n ++ body = simp append_assoc in
      rw whole (
        rw (read_word-word p laws n body few) (
          rw (drop-word p laws n body few) (
            read_elements-locations 0 start ss [] [] rest h (omega arith) (omega arith)
              (omega (arith, fits)) (omega (arith, fits)))))

  sized_texts-words :
      (ss : List (List ℕ)) → length (sized_texts p ss) < 2 ^ 62 → length (sized_texts p ss) % 64 ≡ 0
  sized_texts-words [] fits = omega arith
  sized_texts-words (s ∷ ss) fits =
      let sizes = length-append (sized_text p s) (sized_texts p ss) in
      let digits : length s < 2 ^ 63 = omega (
        arith,
        fits,
        sizes,
        length-append (word p (length s / 2)) (s ++ zeros s),
        length-append s (zeros s),
      ) in
      omega (
        arith,
        sizes,
        length-sized_text s (omega (arith, digits)),
        sized_texts-words ss (omega (arith, sizes, fits)),
      )

  pub text-Stands :
      (s : List ℕ)
      → length s % 2 ≡ 0
      → length s < 2 ^ 64
      → Stands p laws (byte_string s) (behind (sized_text p s))
  unfolding read_head
  text-Stands s even fits = (
    omega (arith, length-sized_text s fits),
    λ t body rest offset small at.
        rw (read_word-word p laws offset t small)
          (rw at (rw (read_sized-sized_text s rest even fits) refl)),
  )

  pub array-Stands :
      (ss : List (List ℕ))
      → All IsHexText ss
      → length (array_text p ss) < 2 ^ 62
      → Stands p laws (byte_strings ss) (behind (array_text p ss))
  unfolding read_head
  array-Stands ss h fits =
      let n = length ss in
      let start = 32 * n % 2 ^ 64 in
      let outer = length-append (word p n) (locations p start ss ++ sized_texts p ss) in
      let inner = length-append (locations p start ss) (sized_texts p ss) in
      let offsets = length-locations_of start ss (omega arith) in
      let few : 64 * n + length (sized_texts p ss) < 2 ^ 62 =
        omega (arith, fits, outer, inner, offsets) in
      (
        omega (
          arith,
          outer,
          inner,
          offsets,
          length-word p laws n (omega (arith, few)),
          sized_texts-words ss (omega (arith, few)),
        ),
        λ t body rest offset small at.
            rw (read_word-word p laws offset t small)
              (rw at (rw (read_counted-array_text ss rest h few) refl)),
      )
