-- ===== src/Web/Solidity/Multi/Drift.antt =====
-- The offset behind an array of booleans counts the fields of the argument, not the elements of the array.
use web3cpp.Common.{
  ℕ, ◌+◌, ◌*◌, ◌%◌, ◌^◌, ◌<◌, ◌≡◌, refl, sym, true, false, List, [], ◌∷◌, ◌++◌, length,
  length-append, length-drop, drop, All, ok, arith, le→ltb,
}
use mathlib.Core.Path.{subst}
use web3cpp.Common.Bytes.{codes}
use web3cpp.Web.Platform.{Platform, HexLaws}
use web3cpp.Web.Solidity.{find_char, bool_passes}
use web3cpp.Web.Solidity.Multi.{
  substr, Packing, array_type, get_strings, pack_array, put_behind, is_dynamic, pack_argument,
}
use web3cpp.Web.Solidity.Multi.Layout.{same→≡}
use web3cpp.Web.Solidity.Multi.Rounds.{case_of}
use web3cpp.Web.Solidity.Pack.{word, pack_bool, join_each, pack_bool_array}
use web3cpp.Web.Solidity.Pack.Words.{length-word}
use web3cpp.Web.Texts.{same, has_prefix}
use web3cpp.Web.Utils.{pad_left, padding, without_prefix}

no_other_bool :
    (b : List ℕ)
    → bool_passes b ≡ true
    → same b (codes "0") ≡ false
    → same b (codes "1") ≡ false
    → same b (codes "true") ≡ false
    → same b (codes "false") ≡ false
    → ⊥
unfolding bool_passes
no_other_bool b h n1 n2 n3 n4 = ground arith

length-pack_bool : (b : List ℕ) → bool_passes b ≡ true → length (pack_bool b) ≡ 64
unfolding pack_bool pad_left padding without_prefix has_prefix same
length-pack_bool b h =
    let at : (t : List ℕ)
        → same b t ≡ true
        → length (pack_bool t) ≡ 64
        → length (pack_bool b) ≡ 64 =
      λ t e l. subst (λ k. length (pack_bool k) ≡ 64) (sym (same→≡ b t e)) l in
    case_of b (codes "0") (λ e. at (codes "0") e refl)
      λ n1.
        case_of b (codes "1") (λ e. at (codes "1") e refl)
          λ n2.
            case_of b (codes "true") (λ e. at (codes "true") e refl)
              λ n3.
                case_of b (codes "false") (λ e. at (codes "false") e refl)
                  λ n4. absurd (no_other_bool b h n1 n2 n3 n4)

joined_bools :
    (bs : List (List ℕ))
    → All (λ b. bool_passes b ≡ true) bs
    → (w : List ℕ) × (join_each (λ b. ok (pack_bool b)) bs ≡ ok w) × (length w ≡ 64 * length bs)
unfolding join_each
joined_bools [] h = ([], refl, refl)
joined_bools (b ∷ bs) (hb, h) =
    let (w, e, size) = joined_bools bs h in
    (
      pack_bool b ++ w,
      rw e refl,
      omega (arith, length-append (pack_bool b) w, length-pack_bool b hb, size),
    )

-- An array of booleans that packMulti puts behind the other arguments takes 64 digits for its
-- length and 64 for each element, which is 32 bytes each; and the offset of what follows grows by
-- 64 bytes for each field of the argument's object, however long the array is.
pub bool_array_drift :
    (p : Platform) (size : ℕ) (value : p.Json) (st : Packing) (bs : List (List ℕ))
    → HexLaws p
    → get_strings p value ≡ ok bs
    → All (λ b. bool_passes b ≡ true) bs
    → length bs < 2 ^ 256
    → (st' : Packing) × (pack_argument p size (codes "bool[]") value st ≡ ok st')
      × (st'.next_offset ≡ (st.next_offset + 64 * size) % 2 ^ 64)
      × (length st'.arr_to_append ≡ length st.arr_to_append + 64 * (length bs + 1))
unfolding pack_argument array_type find_char pack_array is_dynamic same pack_bool_array substr
    put_behind
bool_array_drift p size value st bs laws e h short =
    let (w, joined, width) = joined_bools bs h in
    let whole = word p 32 ++ word p (length bs) ++ w in
    let len : length whole ≡ 128 + 64 * length bs = omega (
      arith,
      length-append (word p 32 ++ word p (length bs)) w,
      length-append (word p 32) (word p (length bs)),
      length-word p laws 32 (omega arith),
      length-word p laws (length bs) short,
      width,
    ) in
    let packed = drop 64 whole in
    (
      put_behind p packed (64 * size) st,
      rw e (rw joined (rw (le→ltb (length whole) 64 (omega (arith, len))) refl)),
      refl,
      omega (arith, length-append st.arr_to_append packed, length-drop 64 whole, len),
    )
