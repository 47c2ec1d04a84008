-- ===== src/DevCore/Nibbles/Joined.antt =====
-- The overload of `hexPrefixEncode` for two parts encodes their nibbles one behind the other.
use web3cpp.Common.{
  ℕ, zero, suc, ◌+◌, ◌-◌, ◌*◌, ◌/◌, ◌%◌, ◌^◌, ◌≤◌, ◌<◌, ◌≡◌, refl, sym, ap, ap₂, ◌∙◌, Bool, true,
  false, List, [], ◌∷◌, ◌++◌, append-nil, append_assoc, ◌==◌, if◌then◌else◌, length, length-append,
  length-drop, get_or, take_all, drop, All, bit_or, ok, ◌>>=◌, arith, inl, inr, Bool-cases, lt→ltb,
  le→ltb, ==_iff,
}
use web3cpp.Common.Bits.{passes_under, passes_under→at}
use web3cpp.DevCore.Hex.{as_nibbles}
use web3cpp.DevCore.Nibbles.HexPrefix.{
  flags, distance, or_back, push_nibble, nibbles_loop, hex_prefix_encode_both,
}
use web3cpp.DevCore.Nibbles.RoundTrip.{
  pack, hex_prefixed, part, part-suc, decoded, decoded-hex_prefixed,
}
use web3cpp.DevCore.Nibbles.Slices.{nibble-as_nibbles, length-as_nibbles, read-get_or}

-- All nibbles of a list onto the bytes so far.
push_all : ℕ → List ℕ → List ℕ → List ℕ
push_all d [] ret = ret
push_all d (n ∷ ns) ret = push_all (d + 1) ns (push_nibble d n ret)

push_all-append :
    (d : ℕ) (xs ys ret : List ℕ)
    → push_all d (xs ++ ys) ret ≡ push_all (d + length xs) ys (push_all d xs ret)
unfolding push_all
push_all-append d [] ys ret = ap (λ k. push_all k ys ret) {x = d} {y = d + 0} (omega arith)
push_all-append d (x ∷ xs) ys ret =
    push_all-append (d + 1) xs ys (push_nibble d x ret)
    ∙ ap (λ k. push_all k ys (push_all (d + 1) xs (push_nibble d x ret))) {x = d + 1 + length xs}
        {y = d + suc (length xs)} (omega arith)

nibbles_loop_lem :
    (fuel : ℕ) (bs : List ℕ) (i n d : ℕ) (ret : List ℕ)
    → i + n ≤ length bs * 2
    → n ≤ fuel
    → nibbles_loop fuel bs i (i + n) d ret ≡ ok (d + n, push_all d (part (as_nibbles bs) i n) ret)
unfolding nibbles_loop push_all
nibbles_loop_lem zero bs i zero d ret h few =
    rw (le→ltb i (i + 0) (omega arith)) (ap (λ k. ok (k, ret)) {x = d} {y = d + 0} (omega arith))
nibbles_loop_lem zero bs i (suc n) d ret h few = absurd (omega arith)
nibbles_loop_lem (suc fuel) bs i zero d ret h few =
    rw (le→ltb i (i + 0) (omega arith)) (ap (λ k. ok (k, ret)) {x = d} {y = d + 0} (omega arith))
nibbles_loop_lem (suc fuel) bs i (suc n) d ret h few =
    let inside : i < length (as_nibbles bs) = rw (length-as_nibbles bs) (omega arith) in
    let next : i + suc n ≡ i + 1 + n = omega arith in
    let count : d + 1 + n ≡ d + suc n = omega arith in
    let one : i + 1 ≡ suc i = omega arith in
    rw (lt→ltb i (i + suc n) (omega arith)) (
      rw (nibble-as_nibbles bs i ∙ read-get_or (as_nibbles bs) i inside) (
        rw (part-suc (as_nibbles bs) i n inside) (
          rw next (
            nibbles_loop_lem fuel bs (i + 1) n (d + 1)
              (push_nibble d (get_or (as_nibbles bs) i 0) ret) (omega arith) (omega arith)
            ∙ ap₂
                (λ k j. ok (
                  k,
                  push_all (d + 1) (part (as_nibbles bs) j n)
                      (push_nibble d (get_or (as_nibbles bs) i 0) ret),
                ))
                count one))))

or_back-append : (ret : List ℕ) (b n : ℕ) → or_back (ret ++ b ∷ []) n ≡ ret ++ bit_or b n ∷ []
or_back-append [] b n = refl
or_back-append (c ∷ []) b n = refl
or_back-append (c ∷ d ∷ ret) b n = ap (λ l. c ∷ l) (or_back-append (d ∷ ret) b n)

or_test : ℕ → Bool
or_test k = bit_or (k / 16 * 16 % 256) (k % 16) == k

or_lem : (a b : ℕ) → a < 16 → b < 16 → bit_or (a * 16 % 256) b ≡ (a * 16 + b) % 256
unfolding or_test
or_lem a b ha hb =
    let k = a * 16 + b in
    let found : bit_or (k / 16 * 16 % 256) (k % 16) ≡ k =
      (==_iff (bit_or (k / 16 * 16 % 256) (k % 16)) k).0
        (passes_under→at or_test 256 k (omega arith) (unfold passes_under or_test in refl)) in
    let high : k / 16 ≡ a = omega arith in
    let low : k % 16 ≡ b = omega arith in
    let whole : k ≡ k % 256 = omega arith in
    ap₂ (λ x y. bit_or (x * 16 % 256) y) (sym high) (sym low) ∙ found ∙ whole

-- From an even count on, two nibbles make a byte.
push_all-pack :
    (m d : ℕ) (ns ret : List ℕ)
    → d % 2 ≡ 0
    → length ns ≡ 2 * m
    → All (λ n. n < 16) ns
    → push_all d ns ret ≡ ret ++ pack ns
unfolding push_all push_nibble
push_all-pack m d [] ret even e h = sym (append-nil ret)
push_all-pack m d (a ∷ []) ret even e h = absurd (omega (arith, e))
push_all-pack zero d (a ∷ b ∷ ns) ret even e h = absurd (omega (arith, e))
push_all-pack (suc m) d (a ∷ b ∷ ns) ret even e (ha, (hb, h)) =
    let first : (d % 2 == 1) ≡ false = ground (arith, even) in
    let odd : (d + 1) % 2 ≡ 1 = omega arith in
    let second : ((d + 1) % 2 == 1) ≡ true = ground (arith, odd) in
    rw first (
      rw second (
        rw (or_back-append ret (a * 16 % 256) b ∙ ap (λ c. ret ++ c ∷ []) (or_lem a b ha hb)) (
          push_all-pack m (d + 1 + 1) ns _ (omega arith) (omega (arith, e)) h
          ∙ append_assoc ret ((a * 16 + b) % 256 ∷ []) (pack ns))))

flags_test : Bool → ℕ → Bool
flags_test leaf n = bit_or (flags leaf true) n == bit_or (flags leaf true) n % 256

flags_lem :
    (leaf : Bool) (n : ℕ) → n < 16 → bit_or (flags leaf true) n ≡ bit_or (flags leaf true) n % 256
unfolding flags_test
flags_lem true n h =
    (==_iff (bit_or 48 n) (bit_or 48 n % 256)).0
      (passes_under→at (flags_test true) 16 n h (unfold passes_under in refl))
flags_lem false n h =
    (==_iff (bit_or 16 n) (bit_or 16 n % 256)).0
      (passes_under→at (flags_test false) 16 n h (unfold passes_under in refl))

push_all-hex_prefixed :
    (leaf : Bool) (ns : List ℕ)
    → All (λ n. n < 16) ns
    → push_all (if length ns % 2 == 1 then 1 else 2) ns (flags leaf (length ns % 2 == 1) ∷ [])
      ≡ hex_prefixed leaf (length ns % 2 == 1) ns
unfolding push_all push_nibble
push_all-hex_prefixed leaf [] h = refl
push_all-hex_prefixed leaf (n ∷ ns) (hn, h) = elim (Bool-cases (length (n ∷ ns) % 2 == 1)) [
  | inl odd ↦
      let one : length (n ∷ ns) % 2 ≡ 1 = ground (arith, odd) in
      rw odd (
        push_all-pack (length ns / 2) (1 + 1) ns (bit_or (flags leaf true) n ∷ []) (omega arith)
          (omega (arith, one)) h
        ∙ ap (λ c. c ∷ pack ns) (flags_lem leaf n hn))
  | inr even ↦
      let none : length (n ∷ ns) % 2 ≡ 0 = ground (arith, even) in
      rw even (
        push_all-pack (length (n ∷ ns) / 2) 2 (n ∷ ns) (flags leaf false ∷ []) (omega arith)
          (omega (arith, none)) (hn, h))
]

-- The nibbles of bytes.
All-as_nibbles : (bs : List ℕ) → All (λ b. b < 256) bs → All (λ n. n < 16) (as_nibbles bs)
unfolding as_nibbles
All-as_nibbles [] h = tt
All-as_nibbles (b ∷ bs) (hb, h) = (omega arith, (omega arith, All-as_nibbles bs h))

All-drop : (i : ℕ) (xs : List ℕ) → All (λ n. n < 16) xs → All (λ n. n < 16) (drop i xs)
All-drop zero xs h = h
All-drop (suc i) [] h = tt
All-drop (suc i) (x ∷ xs) (hx, h) = All-drop i xs h

All-append :
    (xs ys : List ℕ) → All (λ n. n < 16) xs → All (λ n. n < 16) ys → All (λ n. n < 16) (xs ++ ys)
All-append [] ys h k = k
All-append (x ∷ xs) ys (hx, h) k = (hx, All-append xs ys h k)

-- The loop over the rest of the nibbles of some bytes.
nibbles_loop_rest :
    (bs : List ℕ) (o d : ℕ) (ret : List ℕ)
    → o ≤ length bs * 2
    → length bs * 2 < 2 ^ 32
    → nibbles_loop (length bs * 2 % 2 ^ 32) bs o (length bs * 2 % 2 ^ 32) d ret
      ≡ ok (d + (length bs * 2 - o), push_all d (drop o (as_nibbles bs)) ret)
nibbles_loop_rest bs o d ret within small =
    let n = length bs * 2 - o in
    let size : length bs * 2 % 2 ^ 32 ≡ o + n = omega arith in
    let whole : part (as_nibbles bs) o n ≡ drop o (as_nibbles bs) =
      take_all n (drop o (as_nibbles bs))
        (omega (arith, length-drop o (as_nibbles bs), length-as_nibbles bs)) in
    rw size (
      nibbles_loop_lem (o + n) bs o n d ret (omega arith) (omega arith)
      ∙ ap (λ l. ok (d + n, push_all d l ret)) whole)

-- The two keys behind their offsets, one behind the other.
abbrev joined : List ℕ → ℕ → List ℕ → ℕ → List ℕ
joined d1 o1 d2 o2 = drop o1 (as_nibbles d1) ++ drop o2 (as_nibbles d2)

-- hexPrefixEncode of two byte strings, each from an offset within it on, is read back by keyOf and
-- isLeaf as the flag and the nibbles of the first part and of the second behind them. The strings
-- are shorter than 2 ^ 31 bytes.
pub decoded-hex_prefix_encode_both :
    (d1 : List ℕ) (o1 : ℕ) (d2 : List ℕ) (o2 : ℕ) (leaf : Bool)
    → All (λ b. b < 256) d1
    → All (λ b. b < 256) d2
    → o1 ≤ length d1 * 2
    → o2 ≤ length d2 * 2
    → length d1 < 2 ^ 31
    → length d2 < 2 ^ 31
    → (hex_prefix_encode_both d1 o1 d2 o2 leaf >>= decoded)
      ≡ ok (leaf, drop o1 (as_nibbles d1) ++ drop o2 (as_nibbles d2))
unfolding hex_prefix_encode_both distance
decoded-hex_prefix_encode_both d1 o1 d2 o2 leaf h1 h2 w1 w2 s1 s2 =
    let ns = joined d1 o1 d2 o2 in
    let size : length ns ≡ (length d1 * 2 - o1) + (length d2 * 2 - o2) = omega (
      arith,
      length-append (drop o1 (as_nibbles d1)) (drop o2 (as_nibbles d2)),
      length-drop o1 (as_nibbles d1),
      length-drop o2 (as_nibbles d2),
      length-as_nibbles d1,
      length-as_nibbles d2,
    ) in
    let odd = length ns % 2 == 1 in
    let d : ℕ = if odd then 1 else 2 in
    let small1 : length d1 * 2 < 2 ^ 32 = omega arith in
    let small2 : length d2 * 2 < 2 ^ 32 = omega arith in
    let n1 : ℕ = length d1 * 2 - o1 in
    let parity : ((length d1 * 2 % 2 ^ 32 + 2 ^ 32 - o1) % 2 ^ 32
            + (length d2 * 2 % 2 ^ 32 + 2 ^ 32 - o2) % 2 ^ 32)
          % 2
        ≡ length ns % 2 =
      omega (arith, size) in
    let nibbles =
      All-append (drop o1 (as_nibbles d1)) (drop o2 (as_nibbles d2))
        (All-drop o1 (as_nibbles d1) (All-as_nibbles d1 h1))
        (All-drop o2 (as_nibbles d2) (All-as_nibbles d2 h2)) in
    let first_size : length (drop o1 (as_nibbles d1)) ≡ n1 =
      omega (arith, length-drop o1 (as_nibbles d1), length-as_nibbles d1) in
    rw parity (
      rw (nibbles_loop_rest d1 o1 d (flags leaf odd ∷ []) w1 small1) (
        rw (nibbles_loop_rest d2 o2 (d + n1) _ w2 small2) (
          ap
            (λ k. decoded (
              push_all (d + k) (drop o2 (as_nibbles d2))
                (push_all d (drop o1 (as_nibbles d1)) (flags leaf odd ∷ []))))
            (sym first_size)
          ∙ ap decoded (
              sym (
                push_all-append d (drop o1 (as_nibbles d1)) (drop o2 (as_nibbles d2))
                  (flags leaf odd ∷ [])))
          ∙ ap decoded (push_all-hex_prefixed leaf ns nibbles)
          ∙ decoded-hex_prefixed leaf ns nibbles)))
