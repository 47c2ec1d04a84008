-- ===== src/DevCore/Nibbles/RoundTrip.antt =====
-- The hex prefix encoding of a part of a list of nibbles, and what `keyOf` and `isLeaf` read of it.
use web3cpp.Common.{
  ℕ, zero, suc, ◌+◌, ◌-◌, ◌*◌, ◌/◌, ◌%◌, ◌^◌, ◌≤◌, ◌<◌, ◌≡◌, refl, sym, ap, ap₂, ◌∙◌, Bool, true,
  false, not, ◌&&◌, List, [], ◌∷◌, ◌++◌, append-nil, append_assoc, ◌==◌, if◌then◌else◌, length,
  length-drop, length-take, get_or, take, drop, All, bit_or, bit_and, Outcome, ok, ◌>>=◌, arith,
  inl, inr, Bool-cases, lt→ltb, le→ltb,
}
use web3cpp.Common.Bits.{passes_under, passes_under→at}
use web3cpp.DevCore.Hex.{as_nibbles}
use web3cpp.DevCore.Nibbles.{read, key_of, has_leaf_flag}
use web3cpp.DevCore.Nibbles.HexPrefix.{flags, distance, hex_prefix_loop, end_of, hex_prefix_encode}
use web3cpp.DevCore.Nibbles.Slices.{read-get_or, drop-get_or, nibbles_of}

abbrev pub pack : List ℕ → List ℕ
pack [] = []
pack (n ∷ []) = []
pack (h ∷ l ∷ ns) = (h * 16 + l) % 256 ∷ pack ns

-- The encoding of a list of nibbles: an odd one begins in the byte of the flags.
abbrev pub hex_prefixed : Bool → Bool → List ℕ → List ℕ
hex_prefixed leaf false ns = flags leaf false ∷ pack ns
hex_prefixed leaf true [] = []
hex_prefixed leaf true (n ∷ ns) = bit_or (flags leaf true) n % 256 ∷ pack ns

-- The nibbles from `i` on, `n` of them.
abbrev pub part : List ℕ → ℕ → ℕ → List ℕ
part v i n = take n (drop i v)

pub part-suc :
    (v : List ℕ) (i n : ℕ) → i < length v → part v i (suc n) ≡ get_or v i 0 ∷ part v (suc i) n
part-suc v i n h = rw (drop-get_or v i h) refl

part_pair :
    (v : List ℕ) (i m : ℕ)
    → i + 1 < length v
    → part v i (2 * suc m) ≡ get_or v i 0 ∷ get_or v (i + 1) 0 ∷ part v (i + 2) (2 * m)
part_pair v i m h =
    let twice : 2 * suc m ≡ suc (suc (2 * m)) = omega arith in
    let one : i + 1 ≡ suc i = omega arith in
    let two : i + 2 ≡ suc (suc i) = omega arith in
    rw twice (
      part-suc v i (suc (2 * m)) (omega arith)
      ∙ rw one (rw two (ap (λ l. get_or v i 0 ∷ l) (part-suc v (suc i) (2 * m) (omega arith)))))

pairs_loop_lem :
    (fuel : ℕ) (v : List ℕ) (i m end_ : ℕ) (ret : List ℕ)
    → i + 2 * m ≡ end_
    → end_ ≤ length v
    → m ≤ fuel
    → hex_prefix_loop fuel v i end_ ret ≡ ok (ret ++ pack (part v i (2 * m)))
unfolding hex_prefix_loop
pairs_loop_lem zero v i zero end_ ret e h few =
    rw (le→ltb i end_ (omega arith)) (ap ok (sym (append-nil ret)))
pairs_loop_lem zero v i (suc m) end_ ret e h few = absurd (omega arith)
pairs_loop_lem (suc fuel) v i zero end_ ret e h few =
    rw (le→ltb i end_ (omega arith)) (ap ok (sym (append-nil ret)))
pairs_loop_lem (suc fuel) v i (suc m) end_ ret e h few =
    let pair = (get_or v i 0 * 16 + get_or v (i + 1) 0) % 256 in
    rw (lt→ltb i end_ (omega arith)) (
      rw (read-get_or v i (omega arith)) (
        rw (read-get_or v (i + 1) (omega arith)) (
          pairs_loop_lem fuel v (i + 2) m end_ (ret ++ pair ∷ []) (omega arith) h (omega arith)
          ∙ ap ok (
              append_assoc ret (pair ∷ []) (pack (part v (i + 2) (2 * m)))
              ∙ ap (λ l. ret ++ pack l) (sym (part_pair v i m (omega arith)))))))

-- `hexPrefixEncode` of a range within the nibbles.
hex_prefix_encode_lem :
    (v : List ℕ) (leaf : Bool) (begin n end_arg : ℕ)
    → end_of (length v) end_arg ≡ begin + n
    → begin + n ≤ length v
    → length v < 2 ^ 31
    → hex_prefix_encode v leaf begin end_arg ≡ ok (hex_prefixed leaf (n % 2 == 1) (part v begin n))
unfolding hex_prefix_encode distance
hex_prefix_encode_lem v leaf begin n end_arg e within small =
    let same : (begin + n + 2 ^ 32 - begin) % 2 ^ 32 ≡ n = omega arith in
    let half = n / 2 in
    rw e (
      rw same (elim (Bool-cases (n % 2 == 1)) [
        | inl odd ↦
            let one : n % 2 ≡ 1 = ground (arith, odd) in
            let shape : part v begin n ≡ get_or v begin 0 ∷ part v (begin + 1) (2 * half) =
              ap (part v begin) {x = n} {y = suc (2 * half)} (omega arith)
              ∙ part-suc v begin (2 * half) (omega arith)
              ∙ ap (λ i. get_or v begin 0 ∷ part v i (2 * half)) {x = suc begin} {y = begin + 1}
                  (omega arith) in
            rw odd (
              rw shape (
                rw (read-get_or v begin (omega arith)) (
                  pairs_loop_lem (begin + n) v (begin + 1) half (begin + n) _ (omega arith) within
                    (omega arith))))
        | inr even ↦
            let none : n % 2 ≡ 0 = ground (arith, even) in
            rw even (
              pairs_loop_lem (begin + n) v begin half (begin + n) _ (omega arith) within
                (omega arith)
              ∙ ap (λ k. ok (flags leaf false ∷ pack (part v begin k))) {x = 2 * half} {y = n}
                  (omega arith))
      ]))

as_nibbles-pack :
    (m : ℕ) (ns : List ℕ) → length ns ≡ 2 * m → All (λ n. n < 16) ns → as_nibbles (pack ns) ≡ ns
unfolding as_nibbles
as_nibbles-pack m [] e h = refl
as_nibbles-pack m (n ∷ []) e h = absurd (omega (arith, e))
as_nibbles-pack zero (a ∷ b ∷ ns) e h = absurd (omega (arith, e))
as_nibbles-pack (suc m) (a ∷ b ∷ ns) e (ha, (hb, h)) =
    let high : (a * 16 + b) % 256 / 16 ≡ a = omega arith in
    let low : (a * 16 + b) % 256 % 16 ≡ b = omega arith in
    rw high (rw low (ap (λ l. a ∷ b ∷ l) (as_nibbles-pack m ns (omega (arith, e)) h)))

-- The byte of the flags with a first nibble.
first_byte_test : Bool → ℕ → Bool
first_byte_test leaf n =
    let b = bit_or (flags leaf true) n % 256 in
    not (bit_and b 0x10 == 0)
    && (b % 16 == n)
    && (if leaf then not (bit_and b 0x20 == 0) else bit_and b 0x20 == 0)

first_byte_lem : (leaf : Bool) (n : ℕ) → n < 16 → first_byte_test leaf n ≡ true
first_byte_lem true n h =
    passes_under→at (first_byte_test true) 16 n h (unfold passes_under first_byte_test in refl)
first_byte_lem false n h =
    passes_under→at (first_byte_test false) 16 n h (unfold passes_under first_byte_test in refl)

-- What is read of an encoding: the flag, and the nibbles of the key.
abbrev pub decoded : List ℕ → Outcome (Bool × List ℕ)
decoded e = has_leaf_flag e >>= λ l. ok (l, nibbles_of (key_of e))

decoded-even :
    (leaf : Bool) (m : ℕ) (ns : List ℕ)
    → length ns ≡ 2 * m
    → All (λ n. n < 16) ns
    → decoded (hex_prefixed leaf false ns) ≡ ok (leaf, ns)
unfolding has_leaf_flag read key_of nibbles_of as_nibbles
decoded-even true m ns e h = ap (λ l. ok (true, l)) (as_nibbles-pack m ns e h)
decoded-even false m ns e h = ap (λ l. ok (false, l)) (as_nibbles-pack m ns e h)

decoded_byte :
    (leaf : Bool) (b n : ℕ) (ns : List ℕ)
    → (bit_and b 0x10 == 0) ≡ false
    → (bit_and b 0x20 == 0) ≡ not leaf
    → b % 16 ≡ n
    → as_nibbles (pack ns) ≡ ns
    → decoded (b ∷ pack ns) ≡ ok (leaf, n ∷ ns)
unfolding has_leaf_flag read key_of nibbles_of as_nibbles
decoded_byte true b n ns odd flag e h =
    rw (key_of, odd) (rw flag (ap₂ (λ d l. ok (true, d ∷ l)) e h))
decoded_byte false b n ns odd flag e h =
    rw (key_of, odd) (rw flag (ap₂ (λ d l. ok (false, d ∷ l)) e h))

first_byte_parts :
    (leaf : Bool) (n : ℕ)
    → n < 16
    → (bit_and (bit_or (flags leaf true) n % 256) 0x10 == 0) ≡ false
      × (bit_and (bit_or (flags leaf true) n % 256) 0x20 == 0) ≡ not leaf
      × (bit_or (flags leaf true) n % 256 % 16 ≡ n)
unfolding first_byte_test
first_byte_parts true n h =
    let t = first_byte_lem true n h in (ground (arith, t), ground (arith, t), ground (arith, t))
first_byte_parts false n h =
    let t = first_byte_lem false n h in (ground (arith, t), ground (arith, t), ground (arith, t))

decoded-odd :
    (leaf : Bool) (m n : ℕ) (ns : List ℕ)
    → length ns ≡ 2 * m
    → All (λ n. n < 16) (n ∷ ns)
    → decoded (hex_prefixed leaf true (n ∷ ns)) ≡ ok (leaf, n ∷ ns)
decoded-odd leaf m n ns e (hn, h) =
    let (odd, flag, low) = first_byte_parts leaf n hn in
    decoded_byte leaf _ n ns odd flag low (as_nibbles-pack m ns e h)

pub decoded-hex_prefixed :
    (leaf : Bool) (ns : List ℕ)
    → All (λ n. n < 16) ns
    → decoded (hex_prefixed leaf (length ns % 2 == 1) ns) ≡ ok (leaf, ns)
decoded-hex_prefixed leaf [] h = decoded-even leaf 0 [] (omega arith) h
decoded-hex_prefixed leaf (n ∷ ns) h = elim (Bool-cases (length (n ∷ ns) % 2 == 1)) [
  | inl odd ↦
      let one : length (n ∷ ns) % 2 ≡ 1 = ground (arith, odd) in
      rw odd (decoded-odd leaf (length ns / 2) n ns (omega (arith, one)) h)
  | inr even ↦
      let none : length (n ∷ ns) % 2 ≡ 0 = ground (arith, even) in
      rw even (decoded-even leaf (length (n ∷ ns) / 2) (n ∷ ns) (omega (arith, none)) h)
]

-- Of the hex prefix encoding of a range within a list of nibbles below 16, keyOf reads the nibbles
-- of the range and the flag of isLeaf is the one given. The list is shorter than 2 ^ 31.
pub decoded-hex_prefix_encode :
    (v : List ℕ) (leaf : Bool) (begin n end_arg : ℕ)
    → end_of (length v) end_arg ≡ begin + n
    → begin + n ≤ length v
    → length v < 2 ^ 31
    → All (λ d. d < 16) (take n (drop begin v))
    → (hex_prefix_encode v leaf begin end_arg >>= decoded) ≡ ok (leaf, take n (drop begin v))
decoded-hex_prefix_encode v leaf begin n end_arg e within small h =
    let size : length (part v begin n) ≡ n =
      length-take n (drop begin v) (omega (arith, length-drop begin v)) in
    rw (hex_prefix_encode_lem v leaf begin n end_arg e within small) (
      ap (λ k. decoded (hex_prefixed leaf (k % 2 == 1) (part v begin n))) (sym size)
      ∙ decoded-hex_prefixed leaf (part v begin n) h)
