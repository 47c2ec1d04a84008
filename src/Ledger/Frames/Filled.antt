-- ===== src/Ledger/Frames/Filled.antt =====
-- The payloads that the loop over a message fills, and the message that a device receives.
use web3cpp.Common.{
  ℕ, zero, suc, ◌+◌, ◌-◌, ◌≤◌, ◌<◌, ◌≡◌, refl, sym, ap, ◌∙◌, Bool, List, [], ◌∷◌, ◌++◌, append-nil,
  append_assoc, if◌then◌else◌, length, length-append, take, drop, arith,
}
use web3cpp.Ledger.Frames.{Payload, fill_array, fill_payload}
use web3cpp.Ledger.Frames.Received.{IsFilled, payload_bytes}

take-past :
    (n : ℕ) (xs ys : List ℕ) → length xs ≤ n → take n (xs ++ ys) ≡ xs ++ take (n - length xs) ys
take-past n [] ys h = ap (λ k. take k ys) {x = n} {y = n - 0} (omega arith)
take-past zero (x ∷ xs) ys h = absurd (omega arith)
take-past (suc n) (x ∷ xs) ys h =
    ap (λ l. x ∷ l)
      (take-past n xs ys (omega arith)
        ∙ ap (λ k. xs ++ take k ys) {x = n - length xs} {y = suc n - suc (length xs)} (omega arith))

take-none : (n : ℕ) → take {A = ℕ} n [] ≡ []
take-none zero = refl
take-none (suc n) = refl

drop-none : (n : ℕ) → drop {A = ℕ} n [] ≡ []
drop-none zero = refl
drop-none (suc n) = refl

take-fits : (n : ℕ) (xs : List ℕ) → length (take n xs) ≤ n
take-fits zero xs = omega arith
take-fits (suc n) [] = omega arith
take-fits (suc n) (x ∷ xs) = omega (arith, take-fits n xs)

-- Fewer items than asked for are taken only of a list that ends there.
take-short : (n : ℕ) (xs : List ℕ) → length (take n xs) < n → drop n xs ≡ []
take-short zero xs h = absurd (omega arith)
take-short (suc n) [] h = refl
take-short (suc n) (x ∷ xs) h = take-short n xs (omega arith)

take-drop : (m n : ℕ) (xs : List ℕ) → take m xs ++ take n (drop m xs) ≡ take (m + n) xs
take-drop zero n xs = ap (λ k. take k xs) {x = n} {y = 0 + n} (omega arith)
take-drop (suc m) n [] = take-none n ∙ sym (take-none (suc m + n))
take-drop (suc m) n (x ∷ xs) =
    ap (λ l. x ∷ l) (take-drop m n xs)
    ∙ ap (λ k. take k (x ∷ xs)) {x = suc (m + n)} {y = suc m + n} (omega arith)

drop-drop : (m n : ℕ) (xs : List ℕ) → drop n (drop m xs) ≡ drop (m + n) xs
drop-drop zero n xs = ap (λ k. drop k xs) {x = n} {y = 0 + n} (omega arith)
drop-drop (suc m) n [] = drop-none n ∙ sym (drop-none (suc m + n))
drop-drop (suc m) n (x ∷ xs) =
    drop-drop m n xs ∙ ap (λ k. drop k (x ∷ xs)) {x = suc (m + n)} {y = suc m + n} (omega arith)

-- A loop over an array without a header.
fill_data :
    (room : ℕ) (bytes out : List ℕ)
    → fill_array room [] bytes out ≡ (out ++ take room bytes, drop room bytes)
unfolding fill_array
fill_data zero bytes out = ap (λ l. (l, bytes)) (sym (append-nil out))
fill_data (suc room) [] out = ap (λ l. (l, [])) (sym (append-nil out))
fill_data (suc room) (b ∷ bytes) out =
    fill_data room bytes (out ++ b ∷ [])
    ∙ ap (λ l. (l, drop room bytes)) (append_assoc out (b ∷ []) (take room bytes))

-- A loop over an array, where the header fits and there is data behind it.
fill_lem :
    (room : ℕ) (header : List ℕ) (b : ℕ) (bytes out : List ℕ)
    → length header ≤ room
    → fill_array room header (b ∷ bytes) out ≡ (
      out ++ (header ++ take (room - length header) (b ∷ bytes)),
      drop (room - length header) (b ∷ bytes),
    )
unfolding fill_array
fill_lem room [] b bytes out h =
    fill_data room (b ∷ bytes) out
    ∙ ap (λ k. (out ++ take k (b ∷ bytes), drop k (b ∷ bytes))) {x = room} {y = room - 0}
        (omega arith)
fill_lem zero (x ∷ header) b bytes out h = absurd (omega arith)
fill_lem (suc room) (x ∷ header) b bytes out h =
    let k : ℕ = room - length header in
    fill_lem room header b bytes (out ++ x ∷ []) (omega arith)
    ∙ ap (λ l. (l, drop k (b ∷ bytes))) (append_assoc out (x ∷ []) (header ++ take k (b ∷ bytes)))
    ∙ ap (λ k'. (out ++ (x ∷ (header ++ take k' (b ∷ bytes))), drop k' (b ∷ bytes))) {x = k}
        {y = suc room - suc (length header)} (omega arith)

-- What one round fills, behind a header.
abbrev pub round : Bool → List ℕ → List ℕ → Payload
round hid header bytes =
    let rest = drop (52 - length header) bytes in
    record {
      is_hid_first = hid;
      first = header ++ take (52 - length header) bytes;
      second = take 59 rest;
      third = take 39 (drop 59 rest);
    }

abbrev pub header_of : Bool → List ℕ → List ℕ
header_of hid header = if hid then header else []

module _ (hid : Bool) (header bytes : List ℕ) (b : ℕ) where
  pub fill_payload-round :
      length (header_of hid header) ≤ 52
      → fill_payload hid header (b ∷ bytes) ≡ (
        round hid (header_of hid header) (b ∷ bytes),
        drop 39 (drop 59 (drop (52 - length (header_of hid header)) (b ∷ bytes))),
      )
  unfolding fill_payload
  fill_payload-round fits =
      let k = 52 - length (header_of hid header) in
      let rest = drop k (b ∷ bytes) in
      rw (fill_lem 52 (header_of hid header) b bytes [] fits)
        (rw (fill_data 59 rest []) (rw (fill_data 39 (drop 59 rest) []) refl))

pub round-IsFilled :
    (hid : Bool) (header bytes : List ℕ) → length header ≤ 52 → IsFilled (round hid header bytes)
round-IsFilled hid header bytes fits =
    let k = 52 - length header in
    let size = length-append header (take k bytes) in
    record {
      first_fits = omega (arith, size, take-fits k bytes);
      second_fits = take-fits 59 (drop k bytes);
      third_fits = take-fits 39 (drop 59 (drop k bytes));
      first_full = λ low. ap (take 59) (take-short k bytes (omega (arith, size)));
      second_full = λ low. ap (take 39) (take-short 59 (drop k bytes) low);
    }

pub payload_bytes-round :
    (hid : Bool) (header bytes : List ℕ)
    → length header ≤ 52
    → payload_bytes (round hid header bytes) ≡ header ++ take (150 - length header) bytes
payload_bytes-round hid header bytes fits =
    let k = 52 - length header in
    append_assoc header (take k bytes) _
    ∙ ap (λ l. header ++ l)
        (ap (λ l. take k bytes ++ l) (take-drop 59 39 (drop k bytes))
          ∙ take-drop k 98 bytes
          ∙ ap (λ n. take n bytes) {x = k + 98} {y = 150 - length header} (omega arith))

pub rest-round :
    (header bytes : List ℕ)
    → length header ≤ 52
    → drop 39 (drop 59 (drop (52 - length header) bytes)) ≡ drop (150 - length header) bytes
rest-round header bytes fits =
    let k = 52 - length header in
    drop-drop 59 39 (drop k bytes)
    ∙ drop-drop k 98 bytes
    ∙ ap (λ n. drop n bytes) {x = k + 98} {y = 150 - length header} (omega arith)
