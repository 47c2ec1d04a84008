-- ===== src/Web/Solidity/Multi/Whole.antt =====
-- The whole text of `packMulti`, for an array of arguments.
use web3cpp.Common.{
  ℕ, ◌+◌, ◌*◌, ◌/◌, ◌%◌, ◌^◌, ◌<◌, ◌≡◌, refl, sym, ap, ap₂, ◌∙◌, true, Option, none, some, List, [],
  ◌∷◌, ◌++◌, append_assoc, append-nil, length, length-append, All, Outcome, ok, ◌>>=◌, arith,
  bind_assoc, bind-cong,
}
use web3cpp.Web.Errors.{ErrorState}
use web3cpp.Web.Platform.{Platform, HexLaws}
use web3cpp.Web.Solidity.Multi.{
  Packing, pack_head, finish, pack_body, answer, pack_behind, pack_multi,
}
use web3cpp.Web.Solidity.Multi.Encoding.{
  parts_of, put_parts, put_found, IsLaidOut, arguments_loop-parts_of,
}
use web3cpp.Web.Solidity.Multi.Layout.{Part, inline, behind, tails, heads, put_part}
use web3cpp.Web.Solidity.Pack.{word}

module _ (p : Platform) where
  -- The heads and the tails behind a text.
  abbrev pub laid_out : ℕ → List ℕ → Option (List Part) × ℕ → Outcome (Option (List ℕ) × ℕ)
  laid_out offset ret (none, code) = ok (none, code)
  laid_out offset ret (some parts, code) =
      ok (some (ret ++ heads p offset parts ++ tails parts), code)

  pub put_parts_lem :
      (parts : List Part) (st : Packing)
      → st.next_offset + length (tails parts) / 2 < 2 ^ 64
      → ((put_parts p parts st).ret ≡ st.ret ++ heads p st.next_offset parts)
        × ((put_parts p parts st).arr_to_append ≡ st.arr_to_append ++ tails parts)
  unfolding put_parts put_part heads tails
  put_parts_lem [] st h = (sym (append-nil st.ret), sym (append-nil st.arr_to_append))
  put_parts_lem (inline w ∷ parts) st h =
      let (r, a) = put_parts_lem parts (record st { ret = st.ret ++ w }) h in
      (r ∙ append_assoc st.ret w (heads p st.next_offset parts), a)
  put_parts_lem (behind c ∷ parts) st h =
      let size = length-append c (tails parts) in
      let next : (st.next_offset + length c / 2) % 2 ^ 64 ≡ st.next_offset + length c / 2 =
        omega (arith, size) in
      let (r, a) = put_parts_lem parts (put_part p (behind c) st) (omega (arith, size, next)) in
      (
        r
            ∙ append_assoc st.ret (word p st.next_offset) _
            ∙ ap (λ k. st.ret ++ (word p st.next_offset ++ heads p k parts)) next,
        a ∙ append_assoc st.arr_to_append c (tails parts),
      )

-- An array of arguments that are laid out by parts, in less than 2 ^ 64 bytes.
pub record IsLayout (p : Platform) (args : p.Json) : Type 0 where
  pub array : p.is_array args ≡ true
  pub laid_out_each : All (IsLaidOut p) (p.elements args)
  pub fits :
      (parts : List Part) (code : ℕ)
      → parts_of p (p.elements args) ≡ ok (some parts, code)
      → 32 * length (p.elements args) + length (tails parts) / 2 < 2 ^ 64

module _ (p : Platform) (laws : HexLaws p) (args : p.Json) (layout : IsLayout p args) where
  abbrev start : List ℕ → Packing
  start ret = record { ret = ret; next_offset = 32 * length (p.elements args); arr_to_append = [] }

  finish-put_found :
      (ret : List ℕ) (found : Option (List Part) × ℕ)
      → parts_of p (p.elements args) ≡ ok found
      → (put_found p (start ret) found >>= finish p)
        ≡ laid_out p (32 * length (p.elements args)) ret found
  unfolding finish
  finish-put_found ret (none, code) e = refl
  finish-put_found ret (some parts, code) e =
      let (r, a) = put_parts_lem p parts (start ret) (layout.fits parts code e) in
      ap₂ (λ x y. ok (some (x ++ y), code)) r a

  pack_body-laid_out :
      (ret : List ℕ)
      → pack_body p args ret
        ≡ (parts_of p (p.elements args) >>= laid_out p (32 * length (p.elements args)) ret)
  unfolding pack_body
  pack_body-laid_out ret =
      let m = parts_of p (p.elements args) in
      rw layout.array (
        rw (arguments_loop-parts_of p laws (p.elements args) (start ret) layout.laid_out_each) (
          bind_assoc m (put_found p (start ret)) (finish p)
          ∙ bind-cong m (λ found. put_found p (start ret) found >>= finish p)
              (laid_out p (32 * length (p.elements args)) ret) (finish-put_found ret)))

  -- The text that packMulti returns for an array of arguments, by the parts that it makes of them.
  pub pack_multi-laid_out :
      (err : ErrorState) (func ret : List ℕ)
      → pack_head p func ≡ ok (some ret, 0)
      → pack_multi p args err func ≡ (
          parts_of p (p.elements args)
          >>= laid_out p (32 * length (p.elements args)) ret
          >>= answer p err)
  unfolding pack_multi pack_behind
  pack_multi-laid_out err func ret e = rw e (rw (pack_body-laid_out ret) refl)
