-- ===== src/DevCore/Nibbles/Slices.antt =====
-- A slice stands for its list of nibbles: what `sharedNibbles`, `isEarlierThan` and the comparisons
-- tell of the lists.
use web3cpp.Common.{
  ℕ, zero, suc, ◌+◌, ◌*◌, ◌/◌, ◌%◌, ◌^◌, ◌≤◌, ◌<◌, ◌≡◌, refl, sym, ap, ap₂, ◌∙◌, Bool, true, false,
  not, ◌&&◌, List, [], ◌∷◌, ltb, leb, ◌==◌, if◌then◌else◌, length, length-drop, get_or, drop,
  Outcome, ok, throws, undefined, stuck, ◌>>=◌, arith, inl, inr, Bool-cases, ltb→lt, ltb→le, ◌++◌,
  ◌↔◌, ==_iff,
}
use web3cpp.DevCore.Hex.{as_nibbles}
use web3cpp.DevCore.Nibbles.{
  read, nibble, shared_loop, shared_nibbles, NibbleSlice, size, nibble_at, shared, contains,
  earlier_loop, is_earlier_than,
}

pub nibble-as_nibbles : (bs : List ℕ) (i : ℕ) → nibble bs i ≡ read (as_nibbles bs) i
unfolding nibble read as_nibbles
nibble-as_nibbles [] i = refl
nibble-as_nibbles (b ∷ bs) zero = refl
nibble-as_nibbles (b ∷ bs) (suc zero) = refl
nibble-as_nibbles (b ∷ bs) (suc (suc i)) =
    let half : suc (suc i) / 2 ≡ suc (i / 2) = omega arith in
    let odd : suc (suc i) % 2 ≡ i % 2 = omega arith in rw half (rw odd (nibble-as_nibbles bs i))

pub length-as_nibbles : (bs : List ℕ) → length (as_nibbles bs) ≡ length bs * 2
unfolding as_nibbles
length-as_nibbles [] = omega arith
length-as_nibbles (b ∷ bs) = omega (arith, length-as_nibbles bs)

read-drop : (xs : List ℕ) (n i : ℕ) → read xs (n + i) ≡ read (drop n xs) i
unfolding read
read-drop xs zero i = ap (λ k. read xs k) {x = 0 + i} {y = i} (omega arith)
read-drop [] (suc n) i = refl
read-drop (x ∷ xs) (suc n) i =
    ap (λ k. read (x ∷ xs) k) {x = suc n + i} {y = suc (n + i)} (omega arith) ∙ read-drop xs n i

pub read-get_or : (xs : List ℕ) (i : ℕ) → i < length xs → read xs i ≡ ok (get_or xs i 0)
unfolding read
read-get_or [] i h = absurd (omega arith)
read-get_or (x ∷ xs) zero h = refl
read-get_or (x ∷ xs) (suc i) h = read-get_or xs i (omega arith)

pub drop-get_or :
    (xs : List ℕ) (i : ℕ) → i < length xs → drop i xs ≡ get_or xs i 0 ∷ drop (suc i) xs
drop-get_or [] i h = absurd (omega arith)
drop-get_or (x ∷ xs) zero h = refl
drop-get_or (x ∷ xs) (suc i) h = drop-get_or xs i (omega arith)

pub drop_all : (xs : List ℕ) (i : ℕ) → length xs ≤ i → drop i xs ≡ []
drop_all [] zero h = refl
drop_all [] (suc i) h = refl
drop_all (x ∷ xs) zero h = absurd (omega arith)
drop_all (x ∷ xs) (suc i) h = drop_all xs i (omega arith)

unfoldable pub nibbles_of : NibbleSlice → List ℕ
nibbles_of s = drop s.offset (as_nibbles s.bytes)

-- A slice that starts within its bytes, whose nibbles an `unsigned` counts.
pub record IsSlice (s : NibbleSlice) : Type 0 where
  pub start : s.offset ≤ length s.bytes * 2
  pub small : length s.bytes * 2 < 2 ^ 32

pub size-nibbles_of : (s : NibbleSlice) → IsSlice s → size s ≡ length (nibbles_of s)
unfolding size nibbles_of
size-nibbles_of s v =
    omega (
      arith,
      v.start,
      v.small,
      length-drop s.offset (as_nibbles s.bytes),
      length-as_nibbles s.bytes,
    )

nibble_at-nibbles_of : (s : NibbleSlice) (i : ℕ) → nibble_at s i ≡ read (nibbles_of s) i
unfolding nibble_at nibbles_of
nibble_at-nibbles_of s i =
    nibble-as_nibbles s.bytes (s.offset + i) ∙ read-drop (as_nibbles s.bytes) s.offset i

-- A full key is prior to a prefix.
unfoldable pub earlier : List ℕ → List ℕ → Bool
earlier xs [] = false
earlier [] (y ∷ ys) = true
earlier (x ∷ xs) (y ∷ ys) = if ltb x y then true else if ltb y x then false else earlier xs ys

ok_choice :
    (b b' : Bool) {rest : Outcome Bool} {r : Bool}
    → rest ≡ ok r
    → (if b then ok true else if b' then ok false else rest)
      ≡ ok (if b then true else if b' then false else r)
ok_choice true b' e = refl
ok_choice false true e = refl
ok_choice false false e = e

-- The length of the longest common prefix.
unfoldable pub common : List ℕ → List ℕ → ℕ
common [] ys = 0
common (x ∷ xs) [] = 0
common (x ∷ xs) (y ∷ ys) = if x == y then 1 + common xs ys else 0

common-nil : (xs : List ℕ) → common xs [] ≡ 0
unfolding common
common-nil [] = refl
common-nil (x ∷ xs) = refl

append-common : (ys rest : List ℕ) → common (ys ++ rest) ys ≡ length ys
unfolding common
append-common [] rest = common-nil rest
append-common (y ∷ ys) rest =
    let same : (y == y) ≡ true = ground arith in rw same (omega (arith, append-common ys rest))

common-append : (xs ys : List ℕ) → common xs ys ≡ length ys → (rest : List ℕ) × (xs ≡ ys ++ rest)
unfolding common
common-append xs [] h = (xs, refl)
common-append [] (y ∷ ys) h = absurd (omega (arith, h))
common-append (x ∷ xs) (y ∷ ys) h = elim (Bool-cases (x == y)) [
  | inl same ↦
      let step : common (x ∷ xs) (y ∷ ys) ≡ 1 + common xs ys = rw same refl in
      let all_but_one : common xs ys ≡ length ys = omega (arith, h, step) in
      let (rest, e) = common-append xs ys all_but_one in
      (rest, ap₂ (λ a l. a ∷ l) ((==_iff x y).0 same) e)
  | inr other ↦
      let step : common (x ∷ xs) (y ∷ ys) ≡ 0 = rw other refl in absurd (omega (arith, h, step))
]

value_of : Outcome Bool → Bool
value_of (ok b) = b
value_of (throws e) = false
value_of undefined = false
value_of stuck = false

ok_step :
    (b : Bool) (n m : ℕ) {rest : Outcome ℕ}
    → rest ≡ ok (n + 1 + m)
    → (if b then rest else ok n) ≡ ok (n + (if b then 1 + m else 0))
ok_step true n m e = e ∙ ap ok {x = n + 1 + m} {y = n + (1 + m)} (omega arith)
ok_step false n m e = ap ok {x = n} {y = n + 0} (omega arith)

module _ (d1 d2 : List ℕ) where
  abbrev as1 : List ℕ
  as1 = as_nibbles d1

  abbrev as2 : List ℕ
  as2 = as_nibbles d2

  shared_end :
      (b1 b2 ret : ℕ)
      → (ltb b1 (length d1 * 2) && ltb b2 (length d2 * 2)) ≡ false
      → ok ret ≡ ok (ret + common (drop b1 as1) (drop b2 as2))
  unfolding common
  shared_end b1 b2 ret h = elim (Bool-cases (ltb b1 (length d1 * 2))) [
    | inr stop ↦
        rw (drop_all as1 b1 (omega (arith, ltb→le _ _ stop, length-as_nibbles d1)))
          (ap ok {x = ret} {y = ret + 0} (omega arith))
    | inl go ↦
        let stop : ltb b2 (length d2 * 2) ≡ false = ground (arith, go, h) in
        rw (drop_all as2 b2 (omega (arith, ltb→le _ _ stop, length-as_nibbles d2)))
          (rw (common-nil (drop b1 as1)) (ap ok {x = ret} {y = ret + 0} (omega arith)))
  ]

  shared_round :
      (b1 b2 ret : ℕ) (rest : Outcome ℕ)
      → (ltb b1 (length d1 * 2) && ltb b2 (length d2 * 2)) ≡ true
      → rest ≡ ok (ret + 1 + common (drop (b1 + 1) as1) (drop (b2 + 1) as2))
      → (nibble d1 b1 >>= λ x. nibble d2 b2 >>= λ y. if x == y then rest else ok ret)
        ≡ ok (ret + common (drop b1 as1) (drop b2 as2))
  unfolding common
  shared_round b1 b2 ret rest h e =
      let l1 : b1 < length as1 = rw (length-as_nibbles d1) (ground (arith, h)) in
      let l2 : b2 < length as2 = rw (length-as_nibbles d2) (ground (arith, h)) in
      let next1 : b1 + 1 ≡ suc b1 = omega arith in
      let next2 : b2 + 1 ≡ suc b2 = omega arith in
      let e' = e ∙ ap₂ (λ m n. ok (ret + 1 + common (drop m as1) (drop n as2))) next1 next2 in
      rw (nibble-as_nibbles d1 b1) (
        rw (nibble-as_nibbles d2 b2) (
          rw (read-get_or as1 b1 l1) (
            rw (read-get_or as2 b2 l2) (
              rw (drop-get_or as1 b1 l1) (
                rw (drop-get_or as2 b2 l2)
                  (ok_step (get_or as1 b1 0 == get_or as2 b2 0) ret _ e'))))))

  shared_loop_lem :
      (fuel b1 b2 ret : ℕ)
      → length d1 * 2 ≤ b1 + fuel
      → shared_loop fuel d1 b1 (length d1 * 2) d2 b2 (length d2 * 2) ret
        ≡ ok (ret + common (drop b1 as1) (drop b2 as2))
  unfolding shared_loop
  shared_loop_lem zero b1 b2 ret h =
      let stop : (ltb b1 (length d1 * 2) && ltb b2 (length d2 * 2)) ≡ false = ground (arith, h) in
      rw stop (shared_end b1 b2 ret stop)
  shared_loop_lem (suc fuel) b1 b2 ret h =
      elim (Bool-cases (ltb b1 (length d1 * 2) && ltb b2 (length d2 * 2))) [
        | inl go ↦ rw go (
            shared_round b1 b2 ret _ go
              (shared_loop_lem fuel (b1 + 1) (b2 + 1) (ret + 1) (omega arith)))
        | inr stop ↦ rw stop (shared_end b1 b2 ret stop)
      ]

module _ (s k : NibbleSlice) (vs : IsSlice s) (vk : IsSlice k) where
  abbrev xs : List ℕ
  xs = nibbles_of s

  abbrev ys : List ℕ
  ys = nibbles_of k

  -- Behind the shorter of the two.
  earlier_end :
      (i : ℕ)
      → (ltb i (length ys) && ltb i (length xs)) ≡ false
      → not (leb (length ys) i) ≡ earlier (drop i xs) (drop i ys)
  unfolding earlier
  earlier_end i h = elim (Bool-cases (ltb i (length ys))) [
    | inr low ↦
        let over : not (leb (length ys) i) ≡ false = ground (arith, low) in
        over ∙ sym (ap (earlier (drop i xs)) (drop_all ys i (ltb→le _ _ low)))
    | inl low ↦
        let over : not (leb (length ys) i) ≡ true = ground (arith, low) in
        let short : ltb i (length xs) ≡ false = ground (arith, low, h) in
        over ∙ rw (drop_all xs i (ltb→le _ _ short)) (rw (drop-get_or ys i (ltb→lt _ _ low)) refl)
  ]

  -- One round, where both have a nibble left.
  earlier_round :
      (i : ℕ)
      → (ltb i (length ys) && ltb i (length xs)) ≡ true
      → (rest : Outcome Bool) → rest ≡ ok (earlier (drop (i + 1) xs) (drop (i + 1) ys))
      → (nibble_at s i >>= λ x.
          nibble_at k i >>= λ y. if ltb x y then ok true else if ltb y x then ok false else rest)
        ≡ ok (earlier (drop i xs) (drop i ys))
  unfolding earlier
  earlier_round i h rest e =
      let lx : i < length xs = ground (arith, h) in
      let ly : i < length ys = ground (arith, h) in
      let next : i + 1 ≡ suc i = omega arith in
      let x = get_or xs i 0 in
      let y = get_or ys i 0 in
      rw (nibble_at-nibbles_of s i) (
        rw (nibble_at-nibbles_of k i) (
          rw (read-get_or xs i lx) (
            rw (read-get_or ys i ly) (
              rw (drop-get_or xs i lx) (
                rw (drop-get_or ys i ly) (
                  ok_choice (ltb x y) (ltb y x)
                    (e ∙ ap (λ n. ok (earlier (drop n xs) (drop n ys))) next)))))))

  earlier_loop_lem :
      (fuel i : ℕ)
      → length xs ≤ i + fuel
      → earlier_loop fuel s k i ≡ ok (earlier (drop i xs) (drop i ys))
  unfolding earlier_loop
  earlier_loop_lem zero i h =
      let stop : (ltb i (length ys) && ltb i (length xs)) ≡ false = ground (arith, h) in
      rw (size-nibbles_of s vs) (rw (size-nibbles_of k vk) (rw stop (ap ok (earlier_end i stop))))
  earlier_loop_lem (suc fuel) i h = rw (size-nibbles_of s vs) (
      rw (size-nibbles_of k vk) (elim (Bool-cases (ltb i (length ys) && ltb i (length xs))) [
        | inl go ↦ rw go (earlier_round i go _ (earlier_loop_lem fuel (i + 1) (omega arith)))
        | inr stop ↦ rw stop (ap ok (earlier_end i stop))
      ]))

  -- isEarlierThan compares the nibbles of the two slices in the order of texts: the loop ends,
  -- reads nothing behind the end, and an equal prefix is not earlier. The slices start within
  -- their bytes, which are fewer than 2 ^ 31.
  pub is_earlier_than-earlier : is_earlier_than s k ≡ ok (earlier (nibbles_of s) (nibbles_of k))
  unfolding is_earlier_than
  is_earlier_than-earlier = earlier_loop_lem (size s) 0 (omega (arith, size-nibbles_of s vs))

  -- `shared` is the length of the longest common prefix of the nibbles of the two slices.
  pub shared-common : shared s k ≡ ok (common (nibbles_of s) (nibbles_of k))
  unfolding shared shared_nibbles nibbles_of size
  shared-common =
      let ends : (t : NibbleSlice) → IsSlice t → t.offset + size t ≡ length t.bytes * 2 =
        λ t v. omega (arith, v.start, v.small) in
      rw (ends s vs) (
        rw (ends k vk) (
          shared_loop_lem s.bytes k.bytes (length s.bytes * 2) s.offset k.offset 0 (omega arith)
          ∙ ap ok {x = 0 + common (nibbles_of s) (nibbles_of k)}
              {y = common (nibbles_of s) (nibbles_of k)} (omega arith)))

  -- contains tells whether the nibbles of the first slice begin with those of the second. The
  -- slices start within their bytes, which are fewer than 2 ^ 31.
  pub contains-Prefix :
      (contains s k ≡ ok true) ↔ ((rest : List ℕ) × (nibbles_of s ≡ nibbles_of k ++ rest))
  unfolding contains
  contains-Prefix =
      let test : (common xs ys == length ys) ≡ true → common xs ys ≡ length ys =
        λ h. ground (arith, h) in
      rw shared-common (
        rw (size-nibbles_of k vk) (
          λ h. common-append xs ys (test (unfold value_of in ap value_of h)),
          λ (rest, e). ap ok (rw e (rw (append-common ys rest) (ground arith))),
        ))
