-- ===== src/Web/Utils/Addresses/Checksum.antt =====
-- The checks of an address return: the digest has a digit for each of its characters.
use web3cpp.Common.{
  ℕ, zero, suc, ◌+◌, ◌*◌, ◌/◌, ◌%◌, ◌≤◌, ◌<◌, ◌≡◌, refl, Bool, true, false, ◌||◌, inl, inr, some,
  List, [], ◌∷◌, ltb, length, get_elem?, ok, arith, Bool-cases,
}
use web3cpp.DevCore.Hex.{hex_digit, to_hex}
use web3cpp.DevCore.Hex.RoundTrip.{digit_read, length-to_hex}
use web3cpp.Web.Platform.{Platform, KeccakLaws}
use web3cpp.Web.Texts.{is_digit, is_hex_digit}
use web3cpp.Web.Utils.{without_prefix, to_lowercase_address}
use web3cpp.Web.Utils.Addresses.{
  hash_nibble, wrong_case, checksum_holds, matches, check_address_checksum, is_address,
  is_low_digit, is_upp_digit,
}

digit_at :
    (bs : List ℕ) (i : ℕ)
    → i < 2 * length bs
    → (d : ℕ) × (d < 16) × (get_elem? (to_hex bs) i ≡ some (hex_digit d))
unfolding to_hex
digit_at [] i h = absurd (omega arith)
digit_at (b ∷ bs) zero h = (b / 16 % 16, omega arith, refl)
digit_at (b ∷ bs) (suc zero) h = (b % 16, omega arith, refl)
digit_at (b ∷ bs) (suc (suc i)) h = digit_at bs i (omega arith)

hash_nibble-to_hex :
    (bs : List ℕ) (i : ℕ) → i < 2 * length bs → (n : ℕ) × (hash_nibble (to_hex bs) i ≡ ok n)
unfolding hash_nibble
hash_nibble-to_hex bs i h =
    let (d, low, e) = digit_at bs i h in
    let within : ltb (length (to_hex bs)) i ≡ false = ground (arith, length-to_hex bs) in
    (d, rw within (rw e (rw (digit_read d low) refl)))

checksum_holds-to_hex :
    (bs : List ℕ) (i : ℕ) (cs : List ℕ)
    → i + length cs ≤ 2 * length bs
    → (b : Bool) × (checksum_holds (to_hex bs) i cs ≡ ok b)
unfolding checksum_holds
checksum_holds-to_hex bs i [] h = (true, refl)
checksum_holds-to_hex bs i (c ∷ cs) h =
    let (b, rest) = checksum_holds-to_hex bs (suc i) cs (omega arith) in
    let (n, e) = hash_nibble-to_hex bs i (omega arith) in
    elim (Bool-cases (is_digit c)) [
      | inl digit ↦ (b, rw digit rest)
      | inr letter ↦ elim (Bool-cases (wrong_case c n)) [
        | inl wrong ↦ (false, rw letter (rw e (rw wrong refl)))
        | inr right ↦ (b, rw letter (rw e (rw right rest)))
      ]
    ]

-- `isAddress` returns on every text, if a digest has 32 bytes.
pub is_address-returns :
    (p : Platform) (s : List ℕ) → KeccakLaws p → (b : Bool) × (is_address p s ≡ ok b)
unfolding is_address check_address_checksum
is_address-returns p s laws = elim (Bool-cases (matches (λ c. is_hex_digit c) s)) [
  | inr other ↦ (false, rw other refl)
  | inl fitting ↦
      let forty : length (without_prefix s) ≡ 40 = unfold matches in ground (arith, fitting) in
      let digest = p.keccak (without_prefix (to_lowercase_address (without_prefix s))) in
      let wide : length digest ≡ 32 = laws.length_digest _ in
      let (b, e) = checksum_holds-to_hex digest 0 (without_prefix s) (omega (arith, forty, wide)) in
      elim (Bool-cases (matches (λ c. is_low_digit c) s || matches (λ c. is_upp_digit c) s)) [
        | inl one_case ↦ (true, rw fitting (rw one_case refl))
        | inr mixed ↦ (b, rw fitting (rw mixed e))
      ]
]
