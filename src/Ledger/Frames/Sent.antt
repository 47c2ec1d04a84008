-- ===== src/Ledger/Frames/Sent.antt =====
-- What a device receives of the messages that `encodeSignEthMessage` and `encodePersonalSignMessage`
-- (src/ledger/encoding.cpp) frame.
use web3cpp.Common.{
  ℕ, zero, suc, ◌+◌, ◌-◌, ◌%◌, ◌^◌, ◌≤◌, ◌<◌, ◌≡◌, refl, ap, ap₂, ◌∙◌, Bool, true, false, not, List,
  [], ◌∷◌, ◌++◌, append_assoc, leb, length, length-append, length-drop, take, drop, All, ok, ◌>>=◌,
  arith,
}
use mathlib.Core.List.{flat_map}
use web3cpp.Ledger.Frames.{Payload, payloads_loop, frames, encode_sign, encode_personal}
use web3cpp.Ledger.Frames.Received.{IsFilled, payload_bytes, receive, receive-frames}
use web3cpp.Ledger.Frames.Filled.{
  header_of, round, fill_payload-round, round-IsFilled, payload_bytes-round, rest-round,
}
use web3cpp.Ledger.Path.{four_bytes}

-- The loop ends with payloads that are filled in order and hold the expected bytes.
abbrev Sent : ℕ → ℕ → List ℕ → ℕ → List ℕ → List ℕ → Type 0
Sent fuel n header index bytes expected =
    (ps : List Payload) × (payloads_loop fuel n header index bytes ≡ ok ps)
    × All IsFilled ps
    × (flat_map payload_bytes ps ≡ expected)

module _ (n : ℕ) (header : List ℕ) where
  nothing_left : (fuel index : ℕ) → Sent fuel n header index [] []
  unfolding payloads_loop flat_map
  nothing_left fuel index = ([], refl, tt, refl)

  one_round :
      (fuel index b : ℕ) (hid : Bool) (bytes expected : List ℕ)
      → not (leb 150 (index + n)) ≡ hid
      → length (header_of hid header) ≤ 52
      → let rest = drop (150 - length (header_of hid header)) (b ∷ bytes) in
        Sent fuel n header (index + (length (b ∷ bytes) - length rest)) rest expected
        → Sent (suc fuel) n header index (b ∷ bytes) (
            header_of hid header
            ++ (take (150 - length (header_of hid header)) (b ∷ bytes) ++ expected))
  unfolding payloads_loop flat_map
  one_round fuel index b hid bytes expected e fits (ps, run, filled, same) =
      let h = header_of hid header in
      let whole = b ∷ bytes in
      (
        round hid h whole ∷ ps,
        rw e (
            rw (fill_payload-round hid header bytes b fits)
              (rw (rest-round h whole fits) (rw run refl))),
        (round-IsFilled hid h whole fits, filled),
        ap₂ ◌++◌ (payload_bytes-round hid h whole fits) same
            ∙ append_assoc h (take (150 - length h) whole) expected,
      )

  expecting :
      (fuel index : ℕ) (bytes xs ys : List ℕ)
      → Sent fuel n header index bytes xs
      → xs ≡ ys
      → Sent fuel n header index bytes ys
  expecting fuel index bytes xs ys (ps, run, filled, same) e = (ps, run, filled, same ∙ e)

take-drop_whole : (n : ℕ) (xs : List ℕ) → take n xs ++ drop n xs ≡ xs
take-drop_whole zero xs = refl
take-drop_whole (suc n) [] = refl
take-drop_whole (suc n) (x ∷ xs) = ap (λ l. x ∷ l) (take-drop_whole n xs)

is_later : (n : ℕ) → 150 ≤ n → not (leb 150 n) ≡ false
is_later n h = ground arith

is_early : (n : ℕ) → n < 150 → not (leb 150 n) ≡ true
is_early n h = ground arith

-- Rounds without a header hold the rest of the message.
Sent-later :
    (n : ℕ) (header : List ℕ) (fuel index : ℕ) (bytes : List ℕ)
    → 150 ≤ index + n
    → length bytes ≤ fuel
    → Sent fuel n header index bytes bytes
Sent-later n header fuel index [] late enough = nothing_left n header fuel index
Sent-later n header zero index (b ∷ bytes) late enough = absurd (omega arith)
Sent-later n header (suc fuel) index (b ∷ bytes) late enough =
    let whole = b ∷ bytes in
    let rest = drop 150 whole in
    let shorter = length-drop 150 whole in
    let others =
      Sent-later n header fuel (index + (length whole - length rest)) rest (omega arith)
        (omega (arith, shorter)) in
    expecting n header (suc fuel) index whole (take 150 whole ++ rest) whole
      (one_round n header fuel index b false bytes rest (is_later (index + n) late) (omega arith)
        others)
      (take-drop_whole 150 whole)

-- The first round holds the header; the rest is sent as it says.
Sent-first :
    (n : ℕ) (header : List ℕ) (fuel index b : ℕ) (bytes expected : List ℕ)
    → index + n < 150
    → length header ≤ 52
    → let rest = drop (150 - length header) (b ∷ bytes) in
      Sent fuel n header (index + (length (b ∷ bytes) - length rest)) rest expected
      → Sent
          (suc fuel)
          n
          header
          index
          (b ∷ bytes)
          (header ++ (take (150 - length header) (b ∷ bytes) ++ expected))
Sent-first n header fuel index b bytes expected early fits others =
    one_round n header fuel index b true bytes expected (is_early (index + n) early) fits others

Sent-rest :
    (n : ℕ) (header : List ℕ) (fuel index : ℕ) (bytes : List ℕ)
    → (0 < length bytes → 150 ≤ index + n)
    → length bytes ≤ fuel
    → Sent fuel n header index bytes bytes
Sent-rest n header fuel index [] late enough = nothing_left n header fuel index
Sent-rest n header fuel index (b ∷ bytes) late enough =
    Sent-later n header fuel index (b ∷ bytes) (late (omega arith)) enough

-- What is received of the payloads that the loop ends with.
received :
    (ins fuel n : ℕ) (header : List ℕ) (index : ℕ) (bytes expected : List ℕ)
    → Sent fuel n header index bytes expected
    → ((payloads_loop fuel n header index bytes >>= λ ps. ok (frames ins ps)) >>= λ fs.
        ok (receive 0 fs))
      ≡ ok expected
received ins fuel n header index bytes expected (ps, run, filled, same) =
    rw run (ap ok (receive-frames 0 ins ps filled ∙ same))

-- The frames that encodeSignEthMessage makes of a path of at most 52 bytes and an encoded
-- transaction of one byte at least exist, and a device that collects their payloads receives the
-- path and then the whole transaction.
pub receive-encode_sign :
    (bip32 bytes : List ℕ)
    → length bip32 ≤ 52
    → 0 < length bytes
    → (encode_sign bip32 bytes >>= λ fs. ok (receive 0 fs)) ≡ ok (bip32 ++ bytes)
unfolding encode_sign
receive-encode_sign bip32 [] fits some_byte = absurd (omega arith)
receive-encode_sign bip32 (b ∷ bytes) fits some_byte =
    let n = length bip32 in
    let whole = b ∷ bytes in
    let rest = drop (150 - n) whole in
    let size = length-drop (150 - n) whole in
    received 4 (suc (length bytes)) n bip32 0 whole (bip32 ++ (take (150 - n) whole ++ rest)) (
      Sent-first n bip32 (length bytes) 0 b bytes rest (omega arith) fits (
        Sent-rest n bip32 (length bytes) (0 + (length whole - length rest)) rest
          (λ more. omega (arith, size, more)) (omega (arith, size))))
    ∙ ap (λ l. ok (bip32 ++ l)) (take-drop_whole (150 - n) whole)

-- What stands behind the first payload of `encodePersonalSignMessage`.
abbrev pub repeated : List ℕ → List ℕ → List ℕ
repeated header [] = []
repeated header (b ∷ bytes) = header ++ (b ∷ bytes)

-- The second round has a header again, as the size of the message is not counted.
Sent-second :
    (n : ℕ) (header : List ℕ) (fuel index : ℕ) (bytes : List ℕ)
    → length header ≡ n + 4
    → n ≤ 48
    → (0 < length bytes → index + n ≡ 146)
    → length bytes ≤ fuel
    → Sent fuel n header index bytes (repeated header bytes)
Sent-second n header fuel index [] size fits at enough = nothing_left n header fuel index
Sent-second n header zero index (b ∷ bytes) size fits at enough = absurd (omega arith)
Sent-second n header (suc fuel) index (b ∷ bytes) size fits at enough =
    let whole = b ∷ bytes in
    let m = 150 - length header in
    let rest = drop m whole in
    let shorter = length-drop m whole in
    let here : index + n ≡ 146 = at (omega arith) in
    expecting n header (suc fuel) index whole (header ++ (take m whole ++ rest)) (header ++ whole)
      (Sent-first n header fuel index b bytes rest (omega (arith, here)) (omega arith) (
        Sent-rest n header fuel (index + (length whole - length rest)) rest
          (λ more. omega (arith, shorter, more, size, here)) (omega (arith, shorter, size))))
      (ap (λ l. header ++ l) (take-drop_whole m whole))

abbrev pub personal_header : List ℕ → List ℕ → List ℕ
personal_header bip32 bytes = bip32 ++ four_bytes (length bytes % 2 ^ 32)

-- The frames that encodePersonalSignMessage makes of a path of at most 48 bytes and a message of
-- one byte at least exist. A device receives of them the path, the size and the message, if the
-- message has at most 146 bytes less the path; of a longer one it receives the path and the size a
-- second time behind those bytes, and then the rest.
pub receive-encode_personal :
    (bip32 bytes : List ℕ)
    → length bip32 ≤ 48
    → 0 < length bytes
    → (encode_personal bip32 bytes >>= λ fs. ok (receive 0 fs))
      ≡ ok (
          personal_header bip32 bytes
          ++ (take (146 - length bip32) bytes
              ++ repeated (personal_header bip32 bytes) (drop (146 - length bip32) bytes)))
unfolding encode_personal four_bytes
receive-encode_personal bip32 [] fits some_byte = absurd (omega arith)
receive-encode_personal bip32 (b ∷ bytes) fits some_byte =
    let n = length bip32 in
    let whole = b ∷ bytes in
    let header = personal_header bip32 whole in
    let k = 150 - length header in
    let rest = drop k whole in
    let shorter = length-drop k whole in
    let size : length header ≡ n + 4 = length-append bip32 (four_bytes (length whole % 2 ^ 32)) in
    received 8 (suc (length bytes)) n header 0 whole
      (header ++ (take k whole ++ repeated header rest))
      (Sent-first n header (length bytes) 0 b bytes (repeated header rest) (omega arith)
        (omega (arith, size))
        (Sent-second n header (length bytes) (0 + (length whole - length rest)) rest size fits
          (λ more. omega (arith, shorter, more, size)) (omega (arith, shorter, size))))
    ∙ ap (λ i. ok (header ++ (take i whole ++ repeated header (drop i whole)))) {x = k}
        {y = 146 - n} (omega (arith, size))
