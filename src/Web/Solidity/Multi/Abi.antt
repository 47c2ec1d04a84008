-- ===== src/Web/Solidity/Multi/Abi.antt =====
-- A reader of the arguments of a call by the ABI: a head of 32 bytes for each, and where a head is an offset,
-- a length and the data at that offset. It stands beside the packing of src/Solidity.cpp.
use web3cpp.Common.{
  ℕ, ◌+◌, ◌*◌, ◌/◌, ◌%◌, ◌^◌, ◌<◌, ◌≡◌, refl, ap, ◌∙◌, Bool, true, false, List, [], ◌∷◌, ◌++◌,
  append_assoc, if◌then◌else◌, length, length-append, take, drop, replicate, All, Outcome, ok,
  undefined, ◌>>=◌, arith,
}
use web3cpp.Web.Platform.{Platform, HexLaws}
use web3cpp.Web.Solidity.Multi.Layout.{Part, inline, behind, tails, heads}
use web3cpp.Web.Solidity.Pack.{word, join_offsets, join_contents}
use web3cpp.Web.Solidity.Pack.Arrays.{
  packed_size, packed_size-ge, packed_size-words, length-join_offsets, length-join_contents,
  elements_of, read_elements, read_elements_lem, split_body, content_at,
}
use web3cpp.Web.Solidity.Pack.Reading.{
  IsHexText, take-length, drop-length, padded, length-padded, read_word, read_sized, read_word-word,
  drop-word, read_sized-padded,
}
use web3cpp.Web.Solidity.Pack.Words.{length-word}
use web3cpp.Web.Texts.{same}

-- The value of an argument: a number, the digits of an address, a boolean, the digits of bytes or of a text,
-- or those of each element of an array.
pub data Abi : Type 0 where
  uint : ℕ → Abi
  address : List ℕ → Abi
  boolean : Bool → Abi
  byte_string : List ℕ → Abi
  byte_strings : List (List ℕ) → Abi

-- What a reader knows of it, by its type.
pub data Shape : Type 0 where
  of_uint : Shape
  of_address : Shape
  of_boolean : Shape
  of_byte_string : Shape
  of_byte_strings : Shape

abbrev pub shape : Abi → Shape
shape (uint n) = of_uint
shape (address a) = of_address
shape (boolean b) = of_boolean
shape (byte_string s) = of_byte_string
shape (byte_strings ss) = of_byte_strings

abbrev pub shapes : List Abi → List Shape
shapes [] = []
shapes (a ∷ abis) = shape a ∷ shapes abis

-- The word of a boolean.
abbrev pub bit : Bool → List ℕ
bit b = replicate 63 b'0' ++ (if b then b'1' else b'0') ∷ []

abbrev pub WellSized : Abi → Type 0
WellSized (uint n) = n < 2 ^ 256
WellSized (address a) = length a ≡ 40
WellSized (boolean b) = Unit
WellSized (byte_string s) = IsHexText s × (length s < 2 ^ 31)
WellSized (byte_strings ss) = All IsHexText ss × (packed_size ss < 2 ^ 30)

module _ (p : Platform) where
  -- Zeros in front of 40 digits.
  abbrev read_address : List ℕ → Outcome Abi
  read_address head =
      if same (take 24 head) (replicate 24 b'0') then ok (address (drop 24 head)) else undefined

  abbrev read_boolean : List ℕ → Outcome Abi
  read_boolean head =
      if same head (bit true)
      then ok (boolean true)
      else if same head (bit false)
      then ok (boolean false)
      else undefined

  -- The number of elements, and behind it their offsets and contents.
  unfoldable pub read_counted : List ℕ → Outcome (List (List ℕ))
  read_counted t = read_word p t >>= λ n. read_elements p n 0 (drop 64 t)

  -- An argument, from the text at its head on and the whole body.
  unfoldable pub read_head : Shape → List ℕ → List ℕ → Outcome Abi
  read_head of_uint t body = read_word p t >>= λ n. ok (uint n)
  read_head of_address t body = read_address (take 64 t)
  read_head of_boolean t body = read_boolean (take 64 t)
  read_head of_byte_string t body =
      read_word p t >>= λ offset. read_sized p (drop (2 * offset) body) >>= λ s. ok (byte_string s)
  read_head of_byte_strings t body = read_word p t >>= λ offset.
      read_counted (drop (2 * offset) body) >>= λ ss. ok (byte_strings ss)

  -- The arguments from the one with the index `i` on.
  unfoldable pub read_arguments : List Shape → ℕ → List ℕ → Outcome (List Abi)
  read_arguments [] i body = ok []
  read_arguments (sh ∷ shs) i body = read_head sh (drop (64 * i) body) body >>= λ a.
      read_arguments shs (i + 1) body >>= λ abis. ok (a ∷ abis)

  abbrev counted_text : List (List ℕ) → List ℕ
  counted_text ss =
      let es = elements_of p (length ss) 0 0 ss in
      word p (length ss) ++ (join_offsets es ++ join_contents es)

  -- The part of the layout that stands for a value.
  abbrev pub part_for : Abi → Part
  part_for (uint n) = inline (word p n)
  part_for (address a) = inline (replicate 24 b'0' ++ a)
  part_for (boolean b) = inline (bit b)
  part_for (byte_string s) = behind (word p (length s / 2) ++ padded s)
  part_for (byte_strings ss) = behind (counted_text ss)

  abbrev pub parts_for : List Abi → List Part
  parts_for [] = []
  parts_for (a ∷ abis) = part_for a ∷ parts_for abis

module _ (p : Platform) (laws : HexLaws p) where
  read_uint :
      (n : ℕ) (t body : List ℕ)
      → n < 2 ^ 256
      → read_head p of_uint (word p n ++ t) body ≡ ok (uint n)
  unfolding read_head
  read_uint n t body h = rw (read_word-word p laws n t h) refl

  read_zeros : (a : List ℕ) → read_address p (replicate 24 b'0' ++ a) ≡ ok (address a)
  unfolding same
  read_zeros a = refl

  read_address_lem :
      (a t body : List ℕ)
      → length a ≡ 40
      → read_head p of_address ((replicate 24 b'0' ++ a) ++ t) body ≡ ok (address a)
  unfolding read_head
  read_address_lem a t body h =
      let zeros : List ℕ = replicate 24 b'0' in
      ap (read_address p) (take-length 64 (zeros ++ a) t (omega (arith, length-append zeros a)))
      ∙ read_zeros a

  read_boolean_lem :
      (b : Bool) (t body : List ℕ) → read_head p of_boolean (bit b ++ t) body ≡ ok (boolean b)
  unfolding read_head same
  read_boolean_lem true t body = refl
  read_boolean_lem false t body = refl

  read_counted_lem :
      (ss : List (List ℕ)) (rest : List ℕ)
      → All IsHexText ss
      → packed_size ss < 2 ^ 30
      → read_counted p (counted_text p ss ++ rest) ≡ ok ss
  unfolding read_counted
  read_counted_lem ss rest h small =
      let n = length ss in
      let es = elements_of p n 0 0 ss in
      let few : n < 2 ^ 256 = omega (arith, packed_size-ge ss) in
      let body = join_offsets es ++ ([] ++ (join_contents es ++ rest)) in
      let whole : counted_text p ss ++ rest ≡ word p n ++ body = simp append_assoc in
      rw whole (
        rw (read_word-word p laws n body few) (
          rw (drop-word p laws n body few) (
            read_elements_lem p laws n 0 0 ss [] [] rest h (omega arith) (omega arith) (omega arith)
              (omega (arith, packed_size-ge ss)))))

  read_byte_string :
      (s t body rest : List ℕ) (offset : ℕ)
      → offset < 2 ^ 256
      → IsHexText s
      → length s < 2 ^ 31
      → drop (2 * offset) body ≡ (word p (length s / 2) ++ padded s) ++ rest
      → read_head p of_byte_string (word p offset ++ t) body ≡ ok (byte_string s)
  unfolding read_head
  read_byte_string s t body rest offset fits (hex, even) short e =
      rw (read_word-word p laws offset t fits) (
        rw e (
          rw (append_assoc (word p (length s / 2)) (padded s) rest)
            (rw (read_sized-padded p laws s rest even short) refl)))

  read_byte_strings :
      (ss : List (List ℕ)) (t body rest : List ℕ) (offset : ℕ)
      → offset < 2 ^ 256
      → All IsHexText ss
      → packed_size ss < 2 ^ 30
      → drop (2 * offset) body ≡ counted_text p ss ++ rest
      → read_head p of_byte_strings (word p offset ++ t) body ≡ ok (byte_strings ss)
  unfolding read_head
  read_byte_strings ss t body rest offset fits h small e =
      rw (read_word-word p laws offset t fits) (rw e (rw (read_counted_lem ss rest h small) refl))

  -- A part that the reader takes for a value, wherever it stands.
  abbrev pub Stands : Abi → Part → Type 0
  Stands a (inline w) =
      (length w ≡ 64) × ((t body : List ℕ) → read_head p (shape a) (w ++ t) body ≡ ok a)
  Stands a (behind c) =
      (length c % 64 ≡ 0)
      × ((t body rest : List ℕ) (offset : ℕ)
          → offset < 2 ^ 256
          → drop (2 * offset) body ≡ c ++ rest
          → read_head p (shape a) (word p offset ++ t) body ≡ ok a)

  abbrev pub AllStand : List Abi → List Part → Type 0
  AllStand [] [] = Unit
  AllStand [] (part ∷ parts) = ⊥
  AllStand (a ∷ abis) [] = ⊥
  AllStand (a ∷ abis) (part ∷ parts) = Stands a part × AllStand abis parts

  counted-words :
      (ss : List (List ℕ)) → packed_size ss < 2 ^ 30 → length (counted_text p ss) % 64 ≡ 0
  counted-words ss small =
      let n = length ss in
      let es = elements_of p n 0 0 ss in
      let few = packed_size-ge ss in
      omega (
        arith,
        length-append (word p n) (join_offsets es ++ join_contents es),
        length-append (join_offsets es) (join_contents es),
        length-word p laws n (omega (arith, few)),
        length-join_offsets p laws n 0 0 ss (omega (arith, few)),
        length-join_contents p laws n 0 0 ss small,
        packed_size-words ss,
      )

  pub uint-Stands : (n : ℕ) → n < 2 ^ 256 → Stands (uint n) (inline (word p n))
  uint-Stands n h = (length-word p laws n h, λ t body. read_uint n t body h)

  pub address-Stands :
      (a : List ℕ) → length a ≡ 40 → Stands (address a) (inline (replicate 24 b'0' ++ a))
  address-Stands a h =
      let zeros : List ℕ = replicate 24 b'0' in
      (omega (arith, length-append zeros a), λ t body. read_address_lem a t body h)

  pub boolean-Stands : (b : Bool) → Stands (boolean b) (inline (bit b))
  boolean-Stands b = (refl, λ t body. read_boolean_lem b t body)

  -- The parts of `packMulti`.
  part_for-Stands : (a : Abi) → WellSized a → Stands a (part_for p a)
  part_for-Stands (uint n) h = uint-Stands n h
  part_for-Stands (address a) h = address-Stands a h
  part_for-Stands (boolean b) h = boolean-Stands b
  part_for-Stands (byte_string s) (hex, short) = (
    omega (
      arith,
      length-append (word p (length s / 2)) (padded s),
      length-word p laws (length s / 2) (omega arith),
      length-padded s,
    ),
    λ t body rest offset fits at. read_byte_string s t body rest offset fits hex short at,
  )
  part_for-Stands (byte_strings ss) (hex, small) = (
    counted-words ss small,
    λ t body rest offset fits at. read_byte_strings ss t body rest offset fits hex small at,
  )

  pub parts_for-AllStand : (abis : List Abi) → All WellSized abis → AllStand abis (parts_for p abis)
  parts_for-AllStand [] h = tt
  parts_for-AllStand (a ∷ abis) (ha, h) = (part_for-Stands a ha, parts_for-AllStand abis h)

  arguments_step :
      (sh : Shape) (shs : List Shape) (i : ℕ) (body : List ℕ) (a : Abi) (abis : List Abi)
      → read_head p sh (drop (64 * i) body) body ≡ ok a
      → read_arguments p shs (i + 1) body ≡ ok abis
      → read_arguments p (sh ∷ shs) i body ≡ ok (a ∷ abis)
  unfolding read_arguments
  arguments_step sh shs i body a abis e1 e2 = rw e1 (rw e2 refl)

  -- What is behind an offset is in reach of the next one.
  next_fits :
      (offset : ℕ) (c t : List ℕ)
      → length c % 64 ≡ 0
      → offset + length (c ++ t) / 2 < 2 ^ 64
      → offset + length c / 2 + length t / 2 < 2 ^ 64
  next_fits offset c t words fits = omega (arith, words, fits, length-append c t)

  length-heads :
      (abis : List Abi) (parts : List Part) (offset : ℕ)
      → AllStand abis parts
      → offset + length (tails parts) / 2 < 2 ^ 64
      → length (heads p offset parts) ≡ 64 * length abis
  unfolding heads tails
  length-heads [] [] offset h fits = omega arith
  length-heads [] (part ∷ parts) offset h fits = absurd h
  length-heads (a ∷ abis) [] offset h fits = absurd h
  length-heads (a ∷ abis) (inline w ∷ parts) offset ((size, _), h) fits =
      omega
        (arith, length-append w (heads p offset parts), size, length-heads abis parts offset h fits)
  length-heads (a ∷ abis) (behind c ∷ parts) offset ((words, _), h) fits =
      let next = offset + length c / 2 in
      omega (
        arith,
        length-append (word p offset) (heads p next parts),
        length-word p laws offset (omega (arith, fits)),
        length-heads abis parts next h (next_fits offset c (tails parts) words fits),
      )

  -- The reader finds the values whose parts are laid out; `front` and `middle` are the heads and contents of
  -- those before.
  pub read_arguments-heads :
      (abis : List Abi) (parts : List Part) (i offset : ℕ) (front middle : List ℕ)
      → AllStand abis parts
      → length front ≡ 64 * i
      → 2 * offset ≡ 64 * i + 64 * length abis + length middle
      → offset + length (tails parts) / 2 < 2 ^ 64
      → read_arguments p
          (shapes abis)
          i
          (front ++ (heads p offset parts ++ (middle ++ tails parts)))
        ≡ ok abis
  unfolding heads tails
  read_arguments-heads [] [] i offset front middle h at place fits = unfold read_arguments in refl
  read_arguments-heads [] (part ∷ parts) i offset front middle h at place fits = absurd h
  read_arguments-heads (a ∷ abis) [] i offset front middle h at place fits = absurd h
  read_arguments-heads (a ∷ abis) (inline w ∷ parts) i offset front middle ((size, read), h) at
        place fits =
      let hs = heads p offset parts in
      let m = middle ++ tails parts in
      let body = front ++ ((w ++ hs) ++ m) in
      let there : drop (64 * i) body ≡ w ++ (hs ++ m) =
        drop-length (64 * i) front ((w ++ hs) ++ m) at ∙ append_assoc w hs m in
      let again : body ≡ (front ++ w) ++ (hs ++ m) = simp append_assoc in
      arguments_step (shape a) (shapes abis) i body a abis
        (ap (λ t. read_head p (shape a) t body) there ∙ read (hs ++ m) body)
        (ap (read_arguments p (shapes abis) (i + 1)) again
          ∙ read_arguments-heads abis parts (i + 1) offset (front ++ w) middle h
              (omega (arith, length-append front w, size, at)) (omega (arith, place)) fits)
  read_arguments-heads (a ∷ abis) (behind c ∷ parts) i offset front middle ((words, read), h) at
        place fits =
      let next = offset + length c / 2 in
      let o = word p offset in
      let hs = heads p next parts in
      let t = tails parts in
      let small : offset < 2 ^ 256 = omega (arith, fits) in
      let further = next_fits offset c t words fits in
      let head = length-word p laws offset small in
      let body = front ++ ((o ++ hs) ++ (middle ++ (c ++ t))) in
      let there : drop (64 * i) body ≡ o ++ (hs ++ (middle ++ (c ++ t))) =
        drop-length (64 * i) front ((o ++ hs) ++ (middle ++ (c ++ t))) at
        ∙ append_assoc o hs (middle ++ (c ++ t)) in
      let found = content_at p laws front (o ++ hs) middle (c ++ t) (2 * offset) (
        omega
          (arith, place, at, head, length-append o hs, length-heads abis parts next h further)) in
      arguments_step (shape a) (shapes abis) i body a abis
        (ap (λ x. read_head p (shape a) x body) there
          ∙ read (hs ++ (middle ++ (c ++ t))) body t offset small found)
        (ap (read_arguments p (shapes abis) (i + 1)) (split_body p laws front o hs middle c t)
          ∙ read_arguments-heads abis parts (i + 1) next (front ++ o) (middle ++ c) h
              (omega (arith, at, length-append front o, head))
              (omega (arith, place, words, length-append middle c)) further)
