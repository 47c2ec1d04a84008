-- ===== src/Web/Solidity/Multi/Rounds.antt =====
-- A round of the loop of `packMulti` adds the part of its argument.
use web3cpp.Common.{
  ℕ, ◌%◌, ◌^◌, ◌<◌, ◌≡◌, sym, true, false, List, map, length, All, all, ok, ◌>>=◌, arith, inl, inr,
  Bool-cases, bind-eq-ok,
}
use mathlib.Core.Path.{subst}
use web3cpp.Common.Bytes.{codes}
use web3cpp.Web.Platform.{Platform, HexLaws}
use web3cpp.Web.Solidity.{find_char, type_code}
use web3cpp.Web.Solidity.Multi.{
  Packing, array_type, get_strings, pack_array, pack_scalar, is_dynamic, pack_argument,
}
use web3cpp.Web.Solidity.Multi.Layout.{
  put_part, part_of, is_static_array, IsShort, same→≡, behind_step, inline_step, pack_digits-words,
  checked_bytes, checked_text, get_strings_passed, bytes-hex, text-hex,
}
use web3cpp.Web.Solidity.Pack.{
  digits_of_bytes, digits_of_text, pack_bytes, pack_string, pack_elements, pack_bytes_array,
  pack_string_array,
}
use web3cpp.Web.Solidity.Pack.Arrays.{packed_size, packed_size-words, length-pack_elements}
use web3cpp.Web.Solidity.Pack.RoundTrip.{strip-hex}
use web3cpp.Web.Texts.{same, is_hex_digit}
use web3cpp.Web.Utils.{strip_hex_prefix}
use web3cpp.Web.Utils.Bytes.{utf8_to_hex}

pub case_of :
    {A : Type 0} (type t : List ℕ) → (same type t ≡ true → A) → (same type t ≡ false → A) → A
case_of type t matches differs = elim (Bool-cases (same type t)) [
  | inl e ↦ matches e
  | inr n ↦ differs n
]

-- The check knows no other types.
no_other_type :
    (p : Platform) (type : List ℕ) (value : p.Json)
    → type_code p type value ≡ ok 0
    → is_static_array type ≡ false
    → same type (codes "bytes") ≡ false
    → same type (codes "string") ≡ false
    → same type (codes "bytes[]") ≡ false
    → same type (codes "string[]") ≡ false
    → same type (codes "uint256") ≡ false
    → same type (codes "address") ≡ false
    → same type (codes "bool") ≡ false
    → same type (codes "function") ≡ false
    → ⊥
unfolding type_code is_static_array
no_other_type p type value passed static n1 n2 n3 n4 n5 n6 n7 n8 = ground arith

module _ (p : Platform) (laws : HexLaws p) (size : ℕ) (value : p.Json) (st : Packing)
    (short : IsShort p value) where
  abbrev AddsPart : List ℕ → Type 0
  AddsPart type =
      pack_argument p size type value st ≡ part_of p type value >>= λ part. ok (put_part p part st)

  adds_bytes : type_code p (codes "bytes") value ≡ ok 0 → AddsPart (codes "bytes")
  unfolding pack_argument part_of array_type find_char pack_scalar is_dynamic same pack_bytes
  adds_bytes h = behind_step p (p.get_string value >>= pack_scalar p (codes "bytes")) st (λ w e.
      let (it, found, packed) = bind-eq-ok (p.get_string value) (pack_scalar p (codes "bytes")) e in
      pack_digits-words p laws (strip_hex_prefix it) w
        (strip-hex it (checked_bytes p value it h found)) (short.bytes it found) packed)

  adds_string : type_code p (codes "string") value ≡ ok 0 → AddsPart (codes "string")
  unfolding pack_argument part_of array_type find_char pack_scalar is_dynamic same pack_string
      digits_of_text
  adds_string h = behind_step p (p.get_string value >>= pack_scalar p (codes "string")) st (λ w e.
      let (it, found, packed) =
        bind-eq-ok (p.get_string value) (pack_scalar p (codes "string")) e in
      pack_digits-words p laws (digits_of_text it) w
        (strip-hex (utf8_to_hex it) (checked_text p value it h found)) (short.text it found) packed)

  words :
      (w : List ℕ) (ss : List (List ℕ))
      → All (λ s. all (λ c. is_hex_digit c) s ≡ true) ss
      → packed_size ss < 2 ^ 30
      → pack_elements p ss ≡ ok w
      → length w % 64 ≡ 0
  words w ss hex small e =
      omega (arith, length-pack_elements p laws ss hex small e, packed_size-words ss)

  adds_bytes_array : type_code p (codes "bytes[]") value ≡ ok 0 → AddsPart (codes "bytes[]")
  unfolding pack_argument part_of array_type find_char pack_array is_dynamic same type_code
      pack_bytes_array
  adds_bytes_array h =
      behind_step p (get_strings p value >>= pack_array p (codes "bytes")) st (λ w e.
        let (its, found, packed) =
          bind-eq-ok (get_strings p value) (pack_array p (codes "bytes")) e in
        words w (map digits_of_bytes its)
          (bytes-hex p its (get_strings_passed p (codes "bytes") 22 value its h found))
          (short.bytes_array its found) packed)

  adds_string_array : type_code p (codes "string[]") value ≡ ok 0 → AddsPart (codes "string[]")
  unfolding pack_argument part_of array_type find_char pack_array is_dynamic same type_code
      pack_string_array
  adds_string_array h =
      behind_step p (get_strings p value >>= pack_array p (codes "string")) st (λ w e.
        let (its, found, packed) =
          bind-eq-ok (get_strings p value) (pack_array p (codes "string")) e in
        words w (map digits_of_text its)
          (text-hex p its (get_strings_passed p (codes "string") 23 value its h found))
          (short.text_array its found) packed)

  adds_uint : AddsPart (codes "uint256")
  unfolding pack_argument part_of array_type find_char is_dynamic same
  adds_uint = inline_step p (p.get_string value >>= pack_scalar p (codes "uint256")) st

  adds_address : AddsPart (codes "address")
  unfolding pack_argument part_of array_type find_char is_dynamic same
  adds_address = inline_step p (p.get_string value >>= pack_scalar p (codes "address")) st

  adds_bool : AddsPart (codes "bool")
  unfolding pack_argument part_of array_type find_char is_dynamic same
  adds_bool = inline_step p (p.get_string value >>= pack_scalar p (codes "bool")) st

  adds_function : AddsPart (codes "function")
  unfolding pack_argument part_of array_type find_char is_dynamic same
  adds_function = inline_step p (p.get_string value >>= pack_scalar p (codes "function")) st

  by_type :
      (type t : List ℕ)
      → same type t ≡ true
      → (type_code p t value ≡ ok 0 → AddsPart t)
      → type_code p type value ≡ ok 0
      → AddsPart type
  by_type type t e adds passed =
      let eq : type ≡ t = same→≡ type t e in
      subst AddsPart (sym eq) (adds (subst (λ k. type_code p k value ≡ ok 0) eq passed))

  pub pack_argument-part_of :
      (type : List ℕ)
      → type_code p type value ≡ ok 0
      → is_static_array type ≡ false
      → pack_argument p size type value st
        ≡ part_of p type value >>= λ part. ok (put_part p part st)
  pack_argument-part_of type passed static =
      case_of type (codes "bytes") (λ e. by_type type (codes "bytes") e adds_bytes passed)
        λ n1.
          case_of type (codes "string") (λ e. by_type type (codes "string") e adds_string passed)
            λ n2.
              case_of type (codes "bytes[]")
                (λ e. by_type type (codes "bytes[]") e adds_bytes_array passed)
                λ n3.
                  case_of type (codes "string[]")
                    (λ e. by_type type (codes "string[]") e adds_string_array passed)
                    λ n4.
                      case_of type (codes "uint256")
                        (λ e. by_type type (codes "uint256") e (λ _. adds_uint) passed)
                        λ n5.
                          case_of type (codes "address")
                            (λ e. by_type type (codes "address") e (λ _. adds_address) passed)
                            λ n6.
                              case_of type (codes "bool")
                                (λ e. by_type type (codes "bool") e (λ _. adds_bool) passed)
                                λ n7.
                                  case_of type (codes "function")
                                    (λ e.
                                      by_type type (codes "function") e (λ _. adds_function) passed)
                                    λ n8. absurd (
                                      no_other_type p type value passed static n1 n2 n3 n4 n5 n6 n7
                                        n8)
