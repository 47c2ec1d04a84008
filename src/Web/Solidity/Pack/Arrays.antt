-- ===== src/Web/Solidity/Pack/Arrays.antt =====
-- The packing of arrays of byte strings: each offset leads to its element.
use web3cpp.Common.{
  ℕ, zero, suc, ◌+◌, ◌*◌, ◌/◌, ◌%◌, ◌^◌, ◌≤◌, ◌<◌, ◌≡◌, refl, sym, ap, ◌∙◌, true, List, [], ◌∷◌,
  ◌++◌, append_assoc, append-nil, length, length-append, drop, All, all, Outcome, ok, ◌>>=◌, arith,
}
use web3cpp.Web.Platform.{Platform, HexLaws}
use web3cpp.Web.Solidity.Pack.{
  word, Element, join_offsets, join_contents, elements_loop, pack_elements,
}
use web3cpp.Web.Solidity.Pack.Words.{
  blocks, padding_of-blocks, hex-no_prefix, pad_right_lem, padding_full, all_hex-padded,
  length-word,
}
use web3cpp.Web.Solidity.Pack.Reading.{
  IsHexText, padded, length-padded, blocks-le, read_word, read_sized, read_word-word, drop-word,
  read_sized-padded, drop-length,
}
use web3cpp.Web.Texts.{is_hex_digit}
use web3cpp.Web.Utils.{pad_right}

-- The digits of the elements with their lengths and offsets.
abbrev pub packed_size : List (List ℕ) → ℕ
packed_size [] = 0
packed_size (s ∷ ss) = 128 + 64 * blocks (length s) + packed_size ss

pub packed_size-ge : (ss : List (List ℕ)) → 64 * length ss ≤ packed_size ss
packed_size-ge [] = omega arith
packed_size-ge (s ∷ ss) = omega (arith, packed_size-ge ss)

module _ (p : Platform) where
  -- The elements of an array, found by their offsets; `i` of them were read.
  unfoldable pub read_elements : ℕ → ℕ → List ℕ → Outcome (List (List ℕ))
  read_elements zero i body = ok []
  read_elements (suc left) i body = read_word p (drop (64 * i) body) >>= λ offset.
      read_sized p (drop (2 * offset) body) >>= λ s.
      read_elements left (i + 1) body >>= λ ss. ok (s ∷ ss)

  -- An array: its offset, the number of its elements, and behind it their offsets and contents.
  unfoldable pub read_array : List ℕ → Outcome (List (List ℕ))
  read_array t = read_word p t >>= λ offset.
      read_word p (drop (2 * offset) t) >>= λ n. read_elements n 0 (drop 64 (drop (2 * offset) t))

  -- What the loop collects.
  abbrev pub elements_of : ℕ → ℕ → ℕ → List (List ℕ) → List Element
  elements_of n i total [] = []
  elements_of n i total (s ∷ ss) =
      record {
        offset = word p (32 * n + 32 * i + 32 * total);
        size = word p (length s / 2);
        content = padded s;
      }
      ∷ elements_of n (i + 1) (total + blocks (length s)) ss

pub packed_size-words : (ss : List (List ℕ)) → packed_size ss % 64 ≡ 0
packed_size-words [] = refl
packed_size-words (s ∷ ss) = omega (arith, packed_size-words ss)

blocks_pos : (n : ℕ) → 1 ≤ blocks n
blocks_pos n = ground arith

pub All-hex :
    (ss : List (List ℕ)) → All IsHexText ss → All (λ s. all (λ c. is_hex_digit c) s ≡ true) ss
All-hex [] h = tt
All-hex (s ∷ ss) ((hex, even), h) = (hex, All-hex ss h)

-- A second padding to a word adds nothing.
padded_once :
    (s : List ℕ)
    → all (λ c. is_hex_digit c) s ≡ true
    → pad_right (pad_right s (64 * blocks (length s)) b'0') 64 b'0' ≡ padded s
unfolding padded
padded_once s hex =
    let n = 64 * blocks (length s) in
    let whole : 64 ≤ length (padded s) = omega (arith, length-padded s, blocks_pos (length s)) in
    rw (pad_right_lem s n b'0' (hex-no_prefix s hex)) (
      pad_right_lem (padded s) 64 b'0' (hex-no_prefix (padded s) (all_hex-padded n s hex))
      ∙ ap (λ t. padded s ++ t) (padding_full 64 b'0' (padded s) whole)
      ∙ append-nil (padded s))

module _ (p : Platform) (laws : HexLaws p) where
  pub elements_loop_lem :
      (n i total : ℕ) (ss : List (List ℕ))
      → All (λ s. all (λ c. is_hex_digit c) s ≡ true) ss
      → elements_loop p n i total ss ≡ ok (elements_of p n i total ss)
  unfolding elements_loop
  elements_loop_lem n i total [] h = refl
  elements_loop_lem n i total (s ∷ ss) (hex, h) =
      let part : 64 * blocks (length s) / 64 ≡ blocks (length s) = omega arith in
      rw (padding_of-blocks (length s)) (
        rw part (
          rw (elements_loop_lem n (i + 1) (total + blocks (length s)) ss h)
            (rw (padded_once s hex) refl)))

  pub length-join_offsets :
      (n i total : ℕ) (ss : List (List ℕ))
      → 64 * n + 64 * (i + total) + packed_size ss < 2 ^ 31
      → length (join_offsets (elements_of p n i total ss)) ≡ 64 * length ss
  unfolding join_offsets
  length-join_offsets n i total [] h = refl
  length-join_offsets n i total (s ∷ ss) h =
      let offset = word p (32 * n + 32 * i + 32 * total) in
      let others = join_offsets (elements_of p n (i + 1) (total + blocks (length s)) ss) in
      omega (
        arith,
        length-append offset others,
        length-word p laws (32 * n + 32 * i + 32 * total) (omega arith),
        length-join_offsets n (i + 1) (total + blocks (length s)) ss (omega arith),
      )

  -- The body with an element's offset `o`, its size and its content split off.
  pub split_body :
      (front o jo middle e jc : List ℕ)
      → front ++ ((o ++ jo) ++ (middle ++ (e ++ jc)))
        ≡ (front ++ o) ++ (jo ++ ((middle ++ e) ++ jc))
  split_body front o jo middle e jc = simp append_assoc

  pub content_at :
      (front a middle c : List ℕ) (k : ℕ)
      → length front + length a + length middle ≡ k
      → drop k (front ++ (a ++ (middle ++ c))) ≡ c
  content_at front a middle c k e =
      let shape : front ++ (a ++ (middle ++ c)) ≡ (front ++ (a ++ middle)) ++ c =
        simp append_assoc in
      ap (drop k) shape
      ∙ drop-length k (front ++ (a ++ middle)) c
          (omega (arith, e, length-append front (a ++ middle), length-append a middle))

  pub read_step :
      (left i offset : ℕ) (body s : List ℕ) (ss : List (List ℕ))
      → read_word p (drop (64 * i) body) ≡ ok offset
      → read_sized p (drop (2 * offset) body) ≡ ok s
      → read_elements p left (i + 1) body ≡ ok ss
      → read_elements p (suc left) i body ≡ ok (s ∷ ss)
  unfolding read_elements
  read_step left i offset body s ss e1 e2 e3 = rw e1 (rw e2 (rw e3 refl))

  -- The loop reads back the elements behind `front`, whose contents stand behind `middle`.
  pub read_elements_lem :
      (n i total : ℕ) (ss : List (List ℕ)) (front middle rest : List ℕ)
      → All IsHexText ss
      → i + length ss ≡ n
      → length front ≡ 64 * i
      → length middle ≡ 64 * (i + total)
      → 64 * n + 64 * (i + total) + packed_size ss < 2 ^ 31
      → read_elements p (length ss) i (
          front
          ++ (join_offsets (elements_of p n i total ss)
              ++ (middle ++ (join_contents (elements_of p n i total ss) ++ rest))))
        ≡ ok ss
  unfolding join_offsets join_contents read_elements
  read_elements_lem n i total [] front middle rest h count lf lm small = refl
  read_elements_lem n i total (s ∷ ss) front middle rest ((hex, even), h) count lf lm small =
      let offset = 32 * n + 32 * i + 32 * total in
      let o = word p offset in
      let es = elements_of p n (i + 1) (total + blocks (length s)) ss in
      let e = word p (length s / 2) ++ padded s in
      let later = join_contents es in
      let c = later ++ rest in
      let all_offsets = length-join_offsets n i total (s ∷ ss) small in
      let size : length e ≡ 64 + 64 * blocks (length s) = omega (
        arith,
        length-append (word p (length s / 2)) (padded s),
        length-padded s,
        length-word p laws (length s / 2) (omega (arith, blocks-le (length s))),
      ) in
      ap (read_elements p (suc (length ss)) i)
        (ap (λ t. front ++ ((o ++ join_offsets es) ++ (middle ++ t))) (append_assoc e later rest))
      ∙ read_step (length ss) i offset _ s ss
          (ap (read_word p) (
              drop-length (64 * i) front _ lf
              ∙ append_assoc o (join_offsets es) (middle ++ (e ++ c)))
            ∙ read_word-word p laws offset _ (omega arith))
          (ap (read_sized p) (
              content_at front (o ++ join_offsets es) middle (e ++ c) (2 * offset)
                (omega (arith, all_offsets))
              ∙ append_assoc (word p (length s / 2)) (padded s) c)
            ∙ read_sized-padded p laws s c even (omega (arith, blocks-le (length s))))
          (ap (read_elements p (length ss) (i + 1))
              (split_body front o (join_offsets es) middle e c)
            ∙ read_elements_lem n (i + 1) (total + blocks (length s)) ss (front ++ o) (middle ++ e)
                rest h (omega arith)
                (omega (arith, length-append front o, length-word p laws offset (omega arith)))
                (omega (arith, length-append middle e, size)) (omega arith))

  -- `packBytesArray` and `packStringArray` from the loop on: each element is found at its offset, with
  -- its length. The elements are of whole bytes in hex, and with their offsets and
  -- lengths they take less than 2 ^ 30 digits.
  pub read_array-pack_elements :
      (ss : List (List ℕ))
      → All IsHexText ss
      → packed_size ss < 2 ^ 30
      → (pack_elements p ss >>= read_array p) ≡ ok ss
  unfolding pack_elements read_array
  read_array-pack_elements ss h small =
      let n = length ss in
      let es = elements_of p n 0 0 ss in
      let body = join_offsets es ++ join_contents es in
      let shape : word p 32 ++ word p n ++ join_offsets es ++ join_contents es
          ≡ word p 32 ++ (word p n ++ body) =
        simp append_assoc in
      rw (elements_loop_lem n 0 0 ss (All-hex ss h)) (
        ap (read_array p) shape
        ∙ rw (read_word-word p laws 32 (word p n ++ body) (omega arith)) (
            let tail = drop-word p laws 32 (word p n ++ body) (omega arith) in
            rw tail (
              rw (read_word-word p laws n body (omega (arith, packed_size-ge ss))) (
                rw (drop-word p laws n body (omega (arith, packed_size-ge ss))) (
                  ap (read_elements p n 0)
                    (ap (λ t. join_offsets es ++ t) (sym (append-nil (join_contents es))))
                  ∙ read_elements_lem n 0 0 ss [] [] [] h (omega arith) (omega arith) (omega arith)
                      (omega (arith, packed_size-ge ss)))))))

  pub length-join_contents :
      (n i total : ℕ) (ss : List (List ℕ))
      → packed_size ss < 2 ^ 30
      → length (join_contents (elements_of p n i total ss)) + 64 * length ss ≡ packed_size ss
  unfolding join_contents
  length-join_contents n i total [] h = refl
  length-join_contents n i total (s ∷ ss) h =
      let size = word p (length s / 2) in
      let others = join_contents (elements_of p n (i + 1) (total + blocks (length s)) ss) in
      omega (
        arith,
        length-append (size ++ padded s) others,
        length-append size (padded s),
        length-word p laws (length s / 2) (omega (arith, blocks-le (length s))),
        length-padded s,
        length-join_contents n (i + 1) (total + blocks (length s)) ss (omega arith),
      )

  -- A packed array is a number of words.
  pub length-pack_elements :
      (ss : List (List ℕ)) {w : List ℕ}
      → All (λ s. all (λ c. is_hex_digit c) s ≡ true) ss
      → packed_size ss < 2 ^ 30
      → pack_elements p ss ≡ ok w
      → length w ≡ 128 + packed_size ss
  unfolding pack_elements
  length-pack_elements ss {w} h small e =
      let n = length ss in
      let es = elements_of p n 0 0 ss in
      let e' : ok (word p 32 ++ word p n ++ join_offsets es ++ join_contents es) ≡ ok w =
        rw (elements_loop_lem n 0 0 ss h) at e in
      let shape : w ≡ word p 32 ++ word p n ++ join_offsets es ++ join_contents es = cc e' in
      rw shape (
        omega (
          arith,
          length-append (word p 32 ++ word p n ++ join_offsets es) (join_contents es),
          length-append (word p 32 ++ word p n) (join_offsets es),
          length-append (word p 32) (word p n),
          length-word p laws 32 (omega arith),
          length-word p laws n (omega (arith, packed_size-ge ss)),
          length-join_offsets n 0 0 ss (omega (arith, packed_size-ge ss)),
          length-join_contents n 0 0 ss small,
        ))
