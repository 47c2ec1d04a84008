-- ===== src/Web/Contract/Placed.antt =====
-- The layout of the data of a call, by parts, and the rounds of the loop over the arguments in the second
-- `operator()` of `class Contract` (src/Contract.cpp).
pub mod Whole
use web3cpp.Common.{
  ℕ, ◌+◌, ◌*◌, ◌/◌, ◌%◌, ◌^◌, ◌≤◌, ◌<◌, ◌≡◌, refl, sym, ap, ◌∙◌, Option, none, some, List, [], ◌∷◌,
  ◌++◌, length, length-append, All, Outcome, ok, throws, undefined, stuck, ◌>>=◌, arith, bind-eq-ok,
}
use web3cpp.Web.Contract.{
  Types, uint256, uint256_arr, address, address_arr, boolean, boolean_arr, bytes, bytes_arr, string,
  string_arr,
}
use web3cpp.Web.Contract.Arrays.{join_found, pack_parts}
use web3cpp.Web.Contract.Call.{
  JsonItems, items_text, uint_item, address_item, boolean_item, uint_text, address_text,
  boolean_text, digits_each, put_words, put_array, pack_digits_array, put_digits, put_inline,
  pack_value,
}
use web3cpp.Web.Contract.Sizes.{IsDigits, HasWords, length-pad_right, pack_parts-HasWords}
use web3cpp.Web.Platform.{Platform, HexLaws}
use web3cpp.Web.Solidity.Multi.{Packing, put_behind}
use web3cpp.Web.Solidity.Multi.Layout.{Part, inline, behind, put_part}
use web3cpp.Web.Solidity.Pack.{digits_of_bytes, digits_of_text, word}
use web3cpp.Web.Solidity.Pack.Words.{length-word}
use web3cpp.Web.Utils.{pad_right}

abbrev inline_found : ℕ → Option (List ℕ) → Option Part × ℕ
inline_found code none = (none, code)
inline_found code (some t) = (some (inline t), 0)

abbrev behind_found : ℕ → Option (List ℕ) → Option Part × ℕ
behind_found code none = (none, code)
behind_found code (some t) = (some (behind t), 0)

module _ (p : Platform) (j : JsonItems p) where
  -- A text with the number of its bytes in front, and zeros behind.
  abbrev pub sized : List ℕ → List ℕ
  sized s = word p (length s / 2) ++ pad_right s (64 * ((length s + 63) / 64)) b'0'

  -- The content of an array of bytes or of texts; an empty one has none.
  abbrev array_content : List (List ℕ) → Option (List ℕ)
  array_content [] = some []
  array_content (s ∷ ss) = pack_parts p (s ∷ ss)

  -- The number of items and the word of each.
  abbrev counted : List p.Json → Option (List ℕ) → Option (List ℕ)
  counted items found = join_found (some (word p (length items))) found

  -- The part of the layout that an argument is, or the code.
  unfoldable pub value_part : Types → p.Json → Outcome (Option Part × ℕ)
  value_part uint256 v = p.get_string v >>= uint_text p j >>= λ t. ok (inline_found 25 t)
  value_part address v = p.get_string v >>= address_text p j >>= λ t. ok (inline_found 26 t)
  value_part boolean v = p.get_string v >>= λ s. ok (inline_found 27 (boolean_text p j s))
  value_part bytes v = p.get_string v >>= λ s. ok (some (behind (sized (digits_of_bytes s))), 0)
  value_part string v = p.get_string v >>= λ s. ok (some (behind (sized (digits_of_text s))), 0)
  value_part uint256_arr v = items_text p j (uint_item p j) (p.elements v) >>= λ t.
      ok (behind_found 20 (counted (p.elements v) t))
  value_part address_arr v = items_text p j (address_item p j) (p.elements v) >>= λ t.
      ok (behind_found 21 (counted (p.elements v) t))
  value_part boolean_arr v = items_text p j (boolean_item p j) (p.elements v) >>= λ t.
      ok (behind_found 22 (counted (p.elements v) t))
  value_part bytes_arr v = digits_each p j digits_of_bytes (p.elements v) >>= λ ss.
      ok (behind_found 23 (array_content ss))
  value_part string_arr v = digits_each p j digits_of_text (p.elements v) >>= λ ss.
      ok (behind_found 24 (array_content ss))

  -- The items of an array take a word each.
  abbrev AreWords : (p.Json → Outcome (Option (List ℕ))) → List p.Json → Type 0
  AreWords f vs =
      (t : List ℕ)
      → items_text p j f vs ≡ ok (some t)
      → (length t ≡ 64 * length vs) × (length vs < 2 ^ 64)

  -- The texts of an array are hex digits, or have them.
  abbrev AreDigits : (List ℕ → List ℕ) → List p.Json → Type 0
  AreDigits f vs =
      (ss : List (List ℕ)) → digits_each p j f vs ≡ ok ss → All IsDigits ss × (length ss < 2 ^ 64)

  -- An argument whose texts are packed in whole words.
  abbrev pub IsPlaced : Types → p.Json → Type 0
  IsPlaced uint256 v = Unit
  IsPlaced address v = Unit
  IsPlaced boolean v = Unit
  IsPlaced bytes v = (s : List ℕ) → p.get_string v ≡ ok s → IsDigits (digits_of_bytes s)
  IsPlaced string v = (s : List ℕ) → p.get_string v ≡ ok s → IsDigits (digits_of_text s)
  IsPlaced uint256_arr v = AreWords (uint_item p j) (p.elements v)
  IsPlaced address_arr v = AreWords (address_item p j) (p.elements v)
  IsPlaced boolean_arr v = AreWords (boolean_item p j) (p.elements v)
  IsPlaced bytes_arr v = AreDigits digits_of_bytes (p.elements v)
  IsPlaced string_arr v = AreDigits digits_of_text (p.elements v)

  abbrev pub put : Packing → Option Part × ℕ → Option Packing × ℕ
  put st (none, code) = (none, code)
  put st (some part, code) = (some (put_part p part st), code)

  put_behind-put_part :
      (st : Packing) (t : List ℕ) (step : ℕ)
      → step ≡ length t / 2
      → put_behind p t step st ≡ put_part p (behind t) st
  unfolding put_behind put_part
  put_behind-put_part st t step e = rw e refl

  through :
      {A : Type 0} (m : Outcome A) (st : Packing) (g : A → Option Packing × ℕ)
      (h : A → Option Part × ℕ)
      → ((a : A) → m ≡ ok a → g a ≡ put st (h a))
      → (m >>= λ a. ok (g a)) ≡ ((m >>= λ a. ok (h a)) >>= λ f. ok (put st f))
  through (ok a) st g h same = ap ok (same a refl)
  through (throws e) st g h same = refl
  through undefined st g h same = refl
  through stuck st g h same = refl

  put_inline-put :
      (code : ℕ) (st : Packing) (t : Option (List ℕ))
      → put_inline p j code st t ≡ put st (inline_found code t)
  unfolding put_inline put_part
  put_inline-put code st none = refl
  put_inline-put code st (some t) = refl

  put_array-put :
      (code : ℕ) (st : Packing) (t : Option (List ℕ))
      → HasWords t
      → put_array p j code st t ≡ put st (behind_found code t)
  unfolding put_array
  put_array-put code st none h = refl
  put_array-put code st (some t) h =
      ap (λ x. (some x, 0)) (put_behind-put_part st t (32 * (length t / 64)) (omega (arith, h)))

  module _ (laws : HexLaws p) where
    put_words-put :
        (code : ℕ) (st : Packing) (vs : List p.Json) (t : Option (List ℕ))
        → ((s : List ℕ) → t ≡ some s → (length s ≡ 64 * length vs) × (length vs < 2 ^ 64))
        → put_words p j code (length vs) st t ≡ put st (behind_found code (counted vs t))
    unfolding put_words
    put_words-put code st vs none h = refl
    put_words-put code st vs (some s) h =
        let (size, fits) = h s refl in
        ap (λ x. (some x, 0))
          (put_behind-put_part st (word p (length vs) ++ s) (32 + 32 * length vs) (
            omega (
              arith,
              size,
              length-append (word p (length vs)) s,
              length-word p laws (length vs) (omega (arith, fits)),
            )))

    put_digits-put :
        (st : Packing) (s : List ℕ)
        → IsDigits s
        → put_digits p j s st ≡ put_part p (behind (sized s)) st
    unfolding put_digits
    put_digits-put st s (hex, fits) =
        let n = 64 * ((length s + 63) / 64) in
        put_behind-put_part st (sized s) (32 + 32 * ((length s + 63) / 64)) (
          omega (
            arith,
            length-append (word p (length s / 2)) (pad_right s n b'0'),
            length-word p laws (length s / 2) (omega arith),
            length-pad_right s n hex (omega arith),
          ))

    parts_case :
        (code : ℕ) (f : List ℕ → List ℕ) (v : p.Json) (vs : List p.Json) (st : Packing)
        → AreDigits f (v ∷ vs)
        → (ss : List (List ℕ)) → digits_each p j f (v ∷ vs) ≡ ok ss
        → put_array p j code st (pack_parts p ss) ≡ put st (behind_found code (array_content ss))
    unfolding digits_each
    parts_case code f v vs st h [] e =
        let (s, _, more) = bind-eq-ok (p.get_string v) _ e in
        let (rest, _, last) = bind-eq-ok (digits_each p j f vs) _ more in cc last
    parts_case code f v vs st h (s ∷ ss) e =
        let (digits, fits) = h (s ∷ ss) e in
        put_array-put code st (pack_parts p (s ∷ ss))
          (pack_parts-HasWords p laws (s ∷ ss) digits fits)

    pack_digits_array-put :
        (code : ℕ) (f : List ℕ → List ℕ) (vs : List p.Json) (st : Packing)
        → AreDigits f vs
        → pack_digits_array p j code f vs st ≡ (
            (digits_each p j f vs >>= λ ss. ok (behind_found code (array_content ss))) >>= λ found.
            ok (put st found))
    unfolding pack_digits_array
    pack_digits_array-put code f [] st h =
        unfold digits_each in ap (λ x. ok (some x, 0)) (put_behind-put_part st [] 0 (omega arith))
    pack_digits_array-put code f (v ∷ vs) st h =
        through (digits_each p j f (v ∷ vs)) st (λ ss. put_array p j code st (pack_parts p ss))
          (λ ss. behind_found code (array_content ss)) (parts_case code f v vs st h)

    words_case :
        (code : ℕ) (f : p.Json → Outcome (Option (List ℕ))) (vs : List p.Json) (st : Packing)
        → AreWords f vs
        → (items_text p j f vs >>= λ t. ok (put_words p j code (length vs) st t)) ≡ (
            (items_text p j f vs >>= λ t. ok (behind_found code (counted vs t))) >>= λ found.
            ok (put st found))
    words_case code f vs st h =
        through (items_text p j f vs) st (put_words p j code (length vs) st)
          (λ t. behind_found code (counted vs t))
          (λ t e. put_words-put code st vs t (λ s same_. h s (e ∙ ap ok same_)))

    -- A round adds the part of its argument.
    pub pack_value-part :
        (t : Types) (v : p.Json) (st : Packing)
        → IsPlaced t v
        → pack_value p j t v st ≡ (value_part t v >>= λ found. ok (put st found))
    unfolding pack_value value_part
    pack_value-part uint256 v st h =
        through (p.get_string v >>= uint_text p j) st (put_inline p j 25 st) (inline_found 25)
          (λ t e. put_inline-put 25 st t)
    pack_value-part address v st h =
        through (p.get_string v >>= address_text p j) st (put_inline p j 26 st) (inline_found 26)
          (λ t e. put_inline-put 26 st t)
    pack_value-part boolean v st h =
        through (p.get_string v) st (λ s. put_inline p j 27 st (boolean_text p j s))
          (λ s. inline_found 27 (boolean_text p j s))
          (λ s e. put_inline-put 27 st (boolean_text p j s))
    pack_value-part bytes v st h =
        through (p.get_string v) st (λ s. (some (put_digits p j (digits_of_bytes s) st), 0))
          (λ s. (some (behind (sized (digits_of_bytes s))), 0))
          (λ s e. ap (λ x. (some x, 0)) (put_digits-put st (digits_of_bytes s) (h s e)))
    pack_value-part string v st h =
        through (p.get_string v) st (λ s. (some (put_digits p j (digits_of_text s) st), 0))
          (λ s. (some (behind (sized (digits_of_text s))), 0))
          (λ s e. ap (λ x. (some x, 0)) (put_digits-put st (digits_of_text s) (h s e)))
    pack_value-part uint256_arr v st h = words_case 20 (uint_item p j) (p.elements v) st h
    pack_value-part address_arr v st h = words_case 21 (address_item p j) (p.elements v) st h
    pack_value-part boolean_arr v st h = words_case 22 (boolean_item p j) (p.elements v) st h
    pack_value-part bytes_arr v st h = pack_digits_array-put 23 digits_of_bytes (p.elements v) st h
    pack_value-part string_arr v st h = pack_digits_array-put 24 digits_of_text (p.elements v) st h
