-- ===== src/Ledger/Frames/Received.antt =====
-- What a device collects from the frames of a message.
use web3cpp.Common.{
  ℕ, zero, suc, ◌+◌, ◌-◌, ◌%◌, ◌≤◌, ◌<◌, ◌≡◌, refl, ap, ap₂, ◌∙◌, Bool, List, [], ◌∷◌, ◌++◌,
  append_assoc, ltb, ◌==◌, if◌then◌else◌, length, length-append, length-take, length-replicate,
  get_or, take, take_all, take-append_le, drop, replicate, All, arith, inl, inr, Bool-cases, ltb→lt,
  ltb→le,
}
use mathlib.Core.List.{flat_map}
use web3cpp.Ledger.Frames.{
  Payload, payload_size, to_frame, first_frame, next_frame, if_written, payload_frames, frames,
}

-- A frame with the index 0 starts a message: its length counts five bytes of the APDU, which stand in
-- front of the message. The frames with other indexes continue it, until it has the wanted length.
unfoldable pub receive : ℕ → List (List ℕ) → List ℕ
receive want [] = []
receive want (f ∷ fs) =
    if get_or f 5 0 == 0
    then take (get_or f 7 0 - 5) (drop 13 f) ++ receive (get_or f 7 0 - 5 - 52) fs
    else take want (drop 6 f) ++ receive (want - 59) fs

-- The arrays are filled in order.
pub record IsFilled (p : Payload) : Type 0 where
  pub first_fits : length p.first ≤ 52
  pub second_fits : length p.second ≤ 59
  pub third_fits : length p.third ≤ 39
  pub first_full : length p.first < 52 → p.second ≡ []
  pub second_full : length p.second < 59 → p.third ≡ []

abbrev pub payload_bytes : Payload → List ℕ
payload_bytes p = p.first ++ (p.second ++ p.third)

abbrev area : ℕ → ℕ → List ℕ → List ℕ
area size room bytes = take size (take room (bytes ++ replicate room 0) ++ replicate 65 0)

take-take : (n m : ℕ) (xs : List ℕ) → n ≤ m → take n (take m xs) ≡ take n xs
take-take zero m xs h = refl
take-take (suc n) zero xs h = absurd (omega arith)
take-take (suc n) (suc m) [] h = refl
take-take (suc n) (suc m) (x ∷ xs) h = ap (λ l. x ∷ l) (take-take n m xs (omega arith))

length-room : (room : ℕ) (bytes : List ℕ) → length (take room (bytes ++ replicate room 0)) ≡ room
length-room room bytes =
    length-take room (bytes ++ replicate room 0)
      (omega (arith, length-append bytes (replicate room 0), length-replicate {0} {A = ℕ} room 0))

-- The bytes of an area that are wanted, where the zeros behind them are not.
take-area :
    (size room n : ℕ) (bytes : List ℕ)
    → n ≡ length bytes
    → length bytes ≤ room
    → room ≤ size
    → take n (area size room bytes) ≡ bytes
take-area size room n bytes e h k =
    take-take n size (take room (bytes ++ replicate room 0) ++ replicate 65 0) (omega arith)
    ∙ take-append_le n (take room (bytes ++ replicate room 0)) (replicate 65 0)
        (omega (arith, length-room room bytes))
    ∙ take-take n room (bytes ++ replicate room 0) (omega arith)
    ∙ take-append_le n bytes (replicate room 0) (omega arith)
    ∙ take_all n bytes (omega arith)

-- The bytes of an area that is full.
take-full :
    (room n : ℕ) (bytes : List ℕ)
    → length bytes ≡ room
    → room ≤ n
    → take n (area room room bytes) ≡ bytes
take-full room n bytes e h =
    ap (take n) (
      take-append_le room (take room (bytes ++ replicate room 0)) (replicate 65 0)
        (omega (arith, length-room room bytes))
      ∙ take-take room room (bytes ++ replicate room 0) (omega arith)
      ∙ take-append_le room bytes (replicate room 0) (omega arith)
      ∙ take_all room bytes (omega arith))
    ∙ take_all n bytes (omega arith)

receive-first_frame :
    (w ins : ℕ) (p : Payload) (fs : List (List ℕ))
    → payload_size p ≤ 150
    → receive w (first_frame ins p ∷ fs)
      ≡ take (payload_size p) (area 52 52 p.first) ++ receive (payload_size p - 52) fs
unfolding receive first_frame to_frame
receive-first_frame w ins p fs h =
    let size : (5 + payload_size p) % 256 - 5 ≡ payload_size p = omega arith in rw size refl

receive-second_frame :
    (w : ℕ) (bytes : List ℕ) (fs : List (List ℕ))
    → receive w (next_frame 1 59 bytes ∷ fs) ≡ take w (area 59 59 bytes) ++ receive (w - 59) fs
unfolding receive next_frame to_frame
receive-second_frame w bytes fs = refl

receive-third_frame :
    (w : ℕ) (bytes : List ℕ) (fs : List (List ℕ))
    → receive w (next_frame 2 39 bytes ∷ fs) ≡ take w (area 59 39 bytes) ++ receive (w - 59) fs
unfolding receive next_frame to_frame
receive-third_frame w bytes fs = refl

-- The frames that are left of a payload, before those of the next.
module _ (fs : List (List ℕ)) (rest : List ℕ) (after : (v : ℕ) → receive v fs ≡ rest) where
  third_read :
      (w : ℕ) (c : List ℕ)
      → w ≡ length c
      → length c ≤ 39
      → receive w (if_written c (next_frame 2 39 c) ++ fs) ≡ c ++ rest
  third_read w [] e h = after w
  third_read w (x ∷ c) e h =
      receive-third_frame w (x ∷ c) fs
      ∙ ap₂ ◌++◌ (take-area 59 39 w (x ∷ c) e h (omega arith)) (after (w - 59))

  -- The wanted bytes of an array, and whether it is the last.
  array_read :
      (room w : ℕ) (b c : List ℕ)
      → length b ≤ room
      → (length b < room → c ≡ [])
      → w ≡ length b + length c
      → (take w (area room room b) ≡ b) × (w - room ≡ length c)
  array_read room w b c h full e = elim (Bool-cases (ltb (length b) room)) [
    | inl low ↦
        let nil : length c ≡ 0 = ap length (full (ltb→lt (length b) room low)) in
        let same : w ≡ length b = omega (arith, nil) in
        (
          take-area room room w b same h (omega arith),
          omega (arith, nil, ltb→lt (length b) room low),
        )
    | inr high ↦
        let size : length b ≡ room = omega (arith, ltb→le (length b) room high) in
        (take-full room w b size (omega arith), omega arith)
  ]

  second_read :
      (w : ℕ) (b c : List ℕ)
      → w ≡ length b + length c
      → length b ≤ 59
      → length c ≤ 39
      → (length b < 59 → c ≡ [])
      → receive w (if_written b (next_frame 1 59 b) ++ (if_written c (next_frame 2 39 c) ++ fs))
        ≡ b ++ (c ++ rest)
  second_read w [] c e hb hc full = third_read w c (omega arith) hc
  second_read w (x ∷ b) c e hb hc full =
      let (here, left) = array_read 59 w (x ∷ b) c hb full e in
      receive-second_frame w (x ∷ b) (if_written c (next_frame 2 39 c) ++ fs)
      ∙ ap₂ ◌++◌ here (third_read (w - 59) c left hc)

abbrev payload : Bool → List ℕ → List ℕ → List ℕ → Payload
payload hid a b c = record { is_hid_first = hid; first = a; second = b; third = c }

nothing_behind :
    (hid : Bool) (a b c : List ℕ) → IsFilled (payload hid a b c) → length a < 52 → b ++ c ≡ []
nothing_behind hid a b c filled low =
    let second : b ≡ [] = filled.first_full low in
    let none_left : length b ≡ 0 = ap length second in
    ap₂ ◌++◌ second (filled.second_full (omega (arith, none_left)))

first_read :
    (w ins : ℕ) (hid : Bool) (a b c : List ℕ) (fs : List (List ℕ)) (rest : List ℕ)
    → IsFilled (payload hid a b c)
    → ((v : ℕ) → receive v fs ≡ rest)
    → receive w (
        if_written a (first_frame ins (payload hid a b c))
        ++ (if_written b (next_frame 1 59 b) ++ (if_written c (next_frame 2 39 c) ++ fs)))
      ≡ a ++ (b ++ (c ++ rest))
unfolding payload_size
first_read w ins hid [] b c fs rest filled after =
    let no_second : b ≡ [] = filled.first_full (omega arith) in
    let empty_second : length b ≡ 0 = ap length no_second in
    let empty_third : length c ≡ 0 = ap length (filled.second_full (omega (arith, empty_second))) in
    rw no_second (rw (filled.second_full (omega (arith, empty_second))) (after w))
first_read w ins hid (x ∷ a) b c fs rest filled after =
    let p = payload hid (x ∷ a) b c in
    let others = if_written b (next_frame 1 59 b) ++ (if_written c (next_frame 2 39 c) ++ fs) in
    let (here, left) =
      array_read fs rest after 52 (payload_size p) (x ∷ a) (b ++ c) filled.first_fits
        (nothing_behind hid (x ∷ a) b c filled) (omega (arith, length-append b c)) in
    receive-first_frame w ins p others
      (omega (arith, filled.first_fits, filled.second_fits, filled.third_fits))
    ∙ ap₂ ◌++◌ here (
        second_read fs rest after (payload_size p - 52) b c (omega (arith, left, length-append b c))
          filled.second_fits filled.third_fits filled.second_full)

receive-payload_frames :
    (w ins : ℕ) (p : Payload) (fs : List (List ℕ)) (rest : List ℕ)
    → IsFilled p
    → ((v : ℕ) → receive v fs ≡ rest)
    → receive w (payload_frames ins p ++ fs) ≡ payload_bytes p ++ rest
unfolding payload_frames
receive-payload_frames w ins p fs rest filled after =
    simp append_assoc
      (first_read w ins p.is_hid_first p.first p.second p.third fs rest filled after)

-- The frames of payloads that are filled in order give their bytes, whatever came before.
pub receive-frames :
    (w ins : ℕ) (ps : List Payload)
    → All IsFilled ps
    → receive w (frames ins ps) ≡ flat_map payload_bytes ps
unfolding frames flat_map
receive-frames w ins [] h = unfold receive in refl
receive-frames w ins (p ∷ ps) (hp, h) =
    receive-payload_frames w ins p (frames ins ps) (flat_map payload_bytes ps) hp
      (λ v. receive-frames v ins ps h)
