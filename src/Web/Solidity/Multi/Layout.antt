-- ===== src/Web/Solidity/Multi/Layout.antt =====
-- The parts of the arguments of a call: heads, and behind them the tails that the heads lead to. What
-- `packMulti` does in one round is to add a part to them.
use web3cpp.Common.{
  ℕ, suc, ◌+◌, ◌*◌, ◌/◌, ◌%◌, ◌^◌, ◌<◌, ◌≡◌, refl, sym, ap, ap₂, ◌∙◌, Bool, true, false, ◌||◌, none,
  some, List, [], ◌∷◌, ◌++◌, map, ltb, ◌==◌, if◌then◌else◌, length, length-append, length-drop,
  drop, All, all, Outcome, ok, throws, undefined, stuck, ◌>>=◌, arith, inl, inr, Bool-cases,
  bind-eq-ok, ==_iff,
}
use mathlib.Core.Path.{subst}
use web3cpp.Common.Bytes.{codes}
use web3cpp.Web.Platform.{Platform, HexLaws}
use web3cpp.Web.Solidity.{each_passes, scalar_passes, code_if, scalar_code, array_code, type_code}
use web3cpp.Web.Solidity.Multi.{
  substr, Packing, array_type, get_each, get_strings, pack_array, pack_scalar, put_behind,
  is_dynamic,
}
use web3cpp.Web.Solidity.Pack.{word, digits_of_bytes, digits_of_text, pack_digits}
use web3cpp.Web.Solidity.Pack.Arrays.{packed_size}
use web3cpp.Web.Solidity.Pack.Reading.{padded, length-padded, pack_digits_lem}
use web3cpp.Web.Solidity.Pack.RoundTrip.{strip-hex, complete-IsHexText}
use web3cpp.Web.Solidity.Pack.Words.{length-word}
use web3cpp.Web.Texts.{same, is_hex_digit}
use web3cpp.Web.Utils.{is_hex, strip_hex_prefix}
use web3cpp.Web.Utils.Bytes.{utf8_to_hex}

-- An argument that stands in its place, or one whose content stands behind.
pub data Part : Type 0 where
  inline : List ℕ → Part
  behind : List ℕ → Part

-- The contents, one behind the other.
unfoldable pub tails : List Part → List ℕ
tails [] = []
tails (inline w ∷ parts) = tails parts
tails (behind c ∷ parts) = c ++ tails parts

module _ (p : Platform) where
  -- The heads, where the first content stands at a number of bytes.
  unfoldable pub heads : ℕ → List Part → List ℕ
  heads offset [] = []
  heads offset (inline w ∷ parts) = w ++ heads offset parts
  heads offset (behind c ∷ parts) = word p offset ++ heads (offset + length c / 2) parts

  unfoldable pub put_part : Part → Packing → Packing
  put_part (inline w) st = record st { ret = st.ret ++ w }
  put_part (behind c) st = record {
    ret = st.ret ++ word p st.next_offset;
    next_offset = (st.next_offset + length c / 2) % 2 ^ 64;
    arr_to_append = st.arr_to_append ++ c;
  }

  -- The part of an argument: a packing without its offset stands behind.
  unfoldable pub part_of : List ℕ → p.Json → Outcome Part
  part_of type value = elim (array_type type) [
    | some arr_type ↦
        (get_strings p value >>= pack_array p arr_type >>= λ whole.
        substr whole 64 >>= λ packed. ok (behind packed))
    | none ↦
        (p.get_string value >>= pack_scalar p type >>= λ whole.
        if is_dynamic p type
        then (substr whole 64 >>= λ packed. ok (behind packed))
        else ok (inline whole))
  ]

-- Arrays of numbers, addresses and booleans.
unfoldable pub is_static_array : List ℕ → Bool
is_static_array type =
    same type (codes "uint256[]") || same type (codes "address[]") || same type (codes "bool[]")

-- The texts of an argument pack into less than 2 ^ 31 digits.
pub record IsShort (p : Platform) (value : p.Json) : Type 0 where
  pub bytes : (it : List ℕ) → p.get_string value ≡ ok it → length (strip_hex_prefix it) < 2 ^ 31
  pub text : (it : List ℕ) → p.get_string value ≡ ok it → length (digits_of_text it) < 2 ^ 31
  pub bytes_array :
      (its : List (List ℕ))
      → get_strings p value ≡ ok its
      → packed_size (map digits_of_bytes its) < 2 ^ 30
  pub text_array :
      (its : List (List ℕ))
      → get_strings p value ≡ ok its
      → packed_size (map digits_of_text its) < 2 ^ 30

pub same→≡ : (s t : List ℕ) → same s t ≡ true → s ≡ t
unfolding same
same→≡ [] [] h = refl
same→≡ [] (b ∷ bs) h = cc
same→≡ (a ∷ as_) [] h = cc
same→≡ (a ∷ as_) (b ∷ bs) h =
    let both : (a == b ≡ true) × (same as_ bs ≡ true) = (ground (arith, h), ground (arith, h)) in
    ap₂ (λ x xs. x ∷ xs) ((==_iff a b).0 both.0) (same→≡ as_ bs both.1)

module _ (p : Platform) where
  -- A step that takes the whole packing without its first word.
  pub behind_step :
      (m : Outcome (List ℕ)) (st : Packing)
      → ((w : List ℕ) → m ≡ ok w → length w % 64 ≡ 0)
      → (m >>= λ whole.
          substr whole 64 >>= λ packed. ok (put_behind p packed (32 * (length packed / 64)) st))
        ≡ (m >>= λ whole. substr whole 64 >>= λ packed. ok (behind packed)) >>= λ part.
            ok (put_part p part st)
  unfolding substr put_behind put_part
  behind_step (ok w) st aligned = elim (Bool-cases (ltb (length w) 64)) [
    | inl short ↦ rw short refl
    | inr whole ↦
        let words : 32 * (length (drop 64 w) / 64) ≡ length (drop 64 w) / 2 =
          omega (arith, length-drop 64 w, aligned w refl) in
        rw whole (rw words refl)
  ]
  behind_step (throws e) st aligned = refl
  behind_step undefined st aligned = refl
  behind_step stuck st aligned = refl

  pub inline_step :
      (m : Outcome (List ℕ)) (st : Packing)
      → (m >>= λ whole. ok (record st { ret = st.ret ++ whole }))
        ≡ (m >>= λ whole. ok (inline whole)) >>= λ part. ok (put_part p part st)
  unfolding put_part
  inline_step (ok w) st = refl
  inline_step (throws e) st = refl
  inline_step undefined st = refl
  inline_step stuck st = refl

  pub pack_digits-words :
      (laws : HexLaws p) (s w : List ℕ)
      → all (λ c. is_hex_digit c) s ≡ true
      → length s < 2 ^ 31
      → pack_digits p s ≡ ok w
      → length w % 64 ≡ 0
  pack_digits-words laws s w hex short e =
      let e' : ok (word p 32 ++ word p (length s / 2) ++ padded s) ≡ ok w =
        sym (pack_digits_lem p laws s hex) ∙ e in
      let shape : w ≡ word p 32 ++ word p (length s / 2) ++ padded s = cc e' in
      rw shape (
        omega (
          arith,
          length-append (word p 32 ++ word p (length s / 2)) (padded s),
          length-append (word p 32) (word p (length s / 2)),
          length-word p laws 32 (omega arith),
          length-word p laws (length s / 2) (omega arith),
          length-padded s,
        ))

  -- What the check of an argument tells of its texts.
  code_if_passed : (m : Outcome Bool) (code : ℕ) → code_if p m (suc code) ≡ ok 0 → m ≡ ok true
  unfolding code_if
  code_if_passed (ok true) code h = refl
  code_if_passed (ok false) code h = cc
  code_if_passed (throws e) code h = cc
  code_if_passed undefined code h = cc
  code_if_passed stuck code h = cc

  scalar_passed :
      (type : List ℕ) (code : ℕ) (value : p.Json) (it : List ℕ)
      → scalar_code p type (suc code) value ≡ ok 0
      → p.get_string value ≡ ok it
      → scalar_passes p type it ≡ ok true
  unfolding scalar_code
  scalar_passed type code value it h e = code_if_passed (scalar_passes p type it) code (rw e at h)

  round_passed :
      (good : Bool) (rest : Outcome Bool)
      → (if good then rest else ok false) ≡ ok true
      → (good ≡ true) × (rest ≡ ok true)
  round_passed true rest h = (refl, h)
  round_passed false rest h = cc h

  get_each_passed :
      (type : List ℕ) (js : List p.Json) (its : List (List ℕ))
      → each_passes (λ item. p.get_string item >>= scalar_passes p type) js ≡ ok true
      → get_each p js ≡ ok its
      → All (λ it. scalar_passes p type it ≡ ok true) its
  unfolding each_passes get_each
  get_each_passed type [] [] h e = tt
  get_each_passed type [] (it ∷ its) h e = cc
  get_each_passed type (j ∷ js) its h e =
      let (it, found, rest) = bind-eq-ok (p.get_string j) _ e in
      let (its', founds, last) = bind-eq-ok (get_each p js) _ rest in
      let (good, passed, more) = bind-eq-ok (p.get_string j >>= scalar_passes p type) _ h in
      let (true_, behind_it) = round_passed good _ more in
      let here : scalar_passes p type it ≡ ok true = (rw found at passed) ∙ ap ok true_ in
      let others = get_each_passed type js its' behind_it founds in
      let shape : its ≡ it ∷ its' = cc last in
      subst (All (λ t. scalar_passes p type t ≡ ok true)) (sym shape) (here, others)

  pub checked_bytes :
      (value : p.Json) (it : List ℕ)
      → type_code p (codes "bytes") value ≡ ok 0
      → p.get_string value ≡ ok it
      → is_hex it ≡ true
  unfolding type_code same scalar_passes
  checked_bytes value it h e = cc (scalar_passed (codes "bytes") 27 value it h e)

  pub checked_text :
      (value : p.Json) (it : List ℕ)
      → type_code p (codes "string") value ≡ ok 0
      → p.get_string value ≡ ok it
      → is_hex (utf8_to_hex it) ≡ true
  unfolding type_code same scalar_passes
  checked_text value it h e = cc (scalar_passed (codes "string") 28 value it h e)

  pub get_strings_passed :
      (type : List ℕ) (code : ℕ) (value : p.Json) (its : List (List ℕ))
      → array_code p type (suc code) value ≡ ok 0
      → get_strings p value ≡ ok its
      → All (λ it. scalar_passes p type it ≡ ok true) its
  unfolding array_code get_strings
  get_strings_passed type code value its h e =
      let passed =
        code_if_passed
          (each_passes (λ item. p.get_string item >>= scalar_passes p type) (p.elements value)) code
          h in
      elim (Bool-cases (p.is_array value)) [
        | inl array ↦ get_each_passed type (p.elements value) its passed (rw array at e)
        | inr other ↦ cc (rw other at e)
      ]

  pub bytes-hex :
      (its : List (List ℕ))
      → All (λ it. scalar_passes p (codes "bytes") it ≡ ok true) its
      → All (λ s. all (λ c. is_hex_digit c) s ≡ true) (map digits_of_bytes its)
  unfolding scalar_passes same digits_of_bytes
  bytes-hex [] h = tt
  bytes-hex (it ∷ its) (passed, h) =
      ((complete-IsHexText (strip_hex_prefix it) (strip-hex it (cc passed))).0, bytes-hex its h)

  pub text-hex :
      (its : List (List ℕ))
      → All (λ it. scalar_passes p (codes "string") it ≡ ok true) its
      → All (λ s. all (λ c. is_hex_digit c) s ≡ true) (map digits_of_text its)
  unfolding scalar_passes same digits_of_text
  text-hex [] h = tt
  text-hex (it ∷ its) (passed, h) = (strip-hex (utf8_to_hex it) (cc passed), text-hex its h)
