-- ===== src/Web/Contract/Placed/Whole.antt =====
-- The whole text of the second `operator()` of `class Contract` (src/Contract.cpp).
use web3cpp.Common.{
  ℕ, ◌+◌, ◌*◌, ◌/◌, ◌%◌, ◌^◌, ◌<◌, ◌≡◌, refl, sym, ap, ap₂, ◌∙◌, true, Option, none, some, List, [],
  ◌∷◌, ◌++◌, length, Outcome, ok, ◌>>=◌, arith, bind_assoc, bind-cong, bind-ext, ==_iff,
}
use web3cpp.Common.Bytes.{codes}
use web3cpp.Web.Contract.{Contract, Types, find_name}
use web3cpp.Web.Contract.Call.{
  JsonItems, next_value, values_loop, answer_call, functor_or_empty, checked_types, values_of, call,
}
use web3cpp.Web.Contract.Placed.{value_part, IsPlaced, put, pack_value-part}
use web3cpp.Web.Errors.{ErrorState, set_code}
use web3cpp.Web.Platform.{Platform, HexLaws}
use web3cpp.Web.Solidity.Multi.{Packing}
use web3cpp.Web.Solidity.Multi.Encoding.{put_parts, put_found, and_part, put_found-and_part}
use web3cpp.Web.Solidity.Multi.Layout.{Part, tails, heads, put_part}
use web3cpp.Web.Solidity.Multi.Whole.{put_parts_lem}

module _ (p : Platform) (j : JsonItems p) where
  unfoldable pub part_before :
      Outcome (Option (List Part) × ℕ) → Option Part × ℕ → Outcome (Option (List Part) × ℕ)
  part_before rest (none, code) = ok (none, code)
  part_before rest (some part, code) = rest >>= and_part part

  -- The parts of the arguments, or the code of the first that is refused.
  unfoldable pub parts_of_values : List Types → List p.Json → Outcome (Option (List Part) × ℕ)
  parts_of_values [] vs = ok (some [], 0)
  parts_of_values (t ∷ ts) [] = ok (some [], 0)
  parts_of_values (t ∷ ts) (v ∷ vs) = value_part p j t v >>= part_before (parts_of_values ts vs)

  -- Each argument is packed in whole words.
  abbrev pub ArePlaced : List Types → List p.Json → Type 0
  ArePlaced [] vs = Unit
  ArePlaced (t ∷ ts) [] = Unit
  ArePlaced (t ∷ ts) (v ∷ vs) = IsPlaced p j t v × ArePlaced ts vs

  next_value-part_before :
      (rest : Packing → Outcome (Option Packing × ℕ)) (parts : Outcome (Option (List Part) × ℕ))
      (st : Packing) (found : Option Part × ℕ)
      → ((s : Packing) → rest s ≡ (parts >>= put_found p s))
      → next_value p j rest (put p j st found) ≡ (part_before parts found >>= put_found p st)
  unfolding next_value part_before
  next_value-part_before rest parts st (none, code) ih = refl
  next_value-part_before rest parts st (some part, code) ih =
      ih (put_part p part st)
      ∙ bind-ext parts (put_found p (put_part p part st))
          (λ found. and_part part found >>= put_found p st) (put_found-and_part p part st)
      ∙ sym (bind_assoc parts (and_part part) (put_found p st))

  -- The loop puts the parts of the arguments, one after the other.
  values_loop-parts :
      (laws : HexLaws p) (ts : List Types) (vs : List p.Json) (st : Packing)
      → ArePlaced ts vs
      → values_loop p j ts vs st ≡ (parts_of_values ts vs >>= put_found p st)
  unfolding values_loop parts_of_values put_parts
  values_loop-parts laws [] vs st h = refl
  values_loop-parts laws (t ∷ ts) [] st h = refl
  values_loop-parts laws (t ∷ ts) (v ∷ vs) st (ht, h) =
      let m = value_part p j t v in
      ap (λ x. x >>= next_value p j (values_loop p j ts vs)) (pack_value-part p j laws t v st ht)
      ∙ bind_assoc m (λ found. ok (put p j st found)) (next_value p j (values_loop p j ts vs))
      ∙ bind-ext m (λ found. next_value p j (values_loop p j ts vs) (put p j st found))
          (λ found. part_before (parts_of_values ts vs) found >>= put_found p st)
          (λ found.
            next_value-part_before (values_loop p j ts vs) (parts_of_values ts vs) st found
              (λ s. values_loop-parts laws ts vs s h))
      ∙ sym (bind_assoc m (part_before (parts_of_values ts vs)) (put_found p st))

  -- The heads and the tails behind a text, or the code of an error.
  abbrev pub laid : ErrorState → List ℕ → ℕ → Option (List Part) × ℕ → List ℕ × ErrorState
  laid err ret n (none, code) = ([], set_code err code)
  laid err ret n (some parts, code) = (ret ++ heads p (32 * n) parts ++ tails parts, err)

-- A call of a function that the contract has, with as many arguments as it takes, packed in whole words
-- and in less than 2 ^ 64 bytes.
pub record IsCall (p : Platform) (j : JsonItems p) (c : Contract) (function : List ℕ)
    (arguments : p.Json) (types : List Types) : Type 0 where
  pub known : find_name c.methods function ≡ some types
  pub array : p.is_array arguments ≡ true
  pub counted : length (p.elements arguments) ≡ length types
  pub placed : ArePlaced p j types (p.elements arguments)
  pub fits :
      (parts : List Part) (code : ℕ)
      → parts_of_values p j types (p.elements arguments) ≡ ok (some parts, code)
      → 32 * length (p.elements arguments) + length (tails parts) / 2 < 2 ^ 64

answer_call-laid :
    (p : Platform) (j : JsonItems p) (err : ErrorState) (ret : List ℕ) (n : ℕ)
    (found : Option (List Part) × ℕ)
    → ((parts : List Part) (code : ℕ)
        → found ≡ (some parts, code)
        → 32 * n + length (tails parts) / 2 < 2 ^ 64)
    → (put_found p (record { ret = ret; next_offset = 32 * n % 2 ^ 64; arr_to_append = [] }) found
        >>= λ done. ok (answer_call p j err done))
      ≡ ok (laid p j err ret n found)
unfolding answer_call
answer_call-laid p j err ret n (none, code) h = refl
answer_call-laid p j err ret n (some parts, code) h =
    let small : 32 * n + length (tails parts) / 2 < 2 ^ 64 = h parts code refl in
    let start : 32 * n % 2 ^ 64 ≡ 32 * n = omega arith in
    let (r, a) =
      put_parts_lem p parts
        (record { ret = ret; next_offset = 32 * n % 2 ^ 64; arr_to_append = [] })
        (omega (arith, start)) in
    ap (λ t. ok (t, err)) (ap₂ ◌++◌ (r ∙ ap (λ k. ret ++ heads p k parts) start) a)

-- The text that the operator returns, by the parts that it makes of the arguments.
pub call-laid_out :
    (p : Platform) (j : JsonItems p) (c : Contract) (function : List ℕ) (arguments : p.Json)
    (types : List Types) (err : ErrorState)
    → HexLaws p
    → IsCall p j c function arguments types
    → call p j c function arguments err ≡ (
        parts_of_values p j types (p.elements arguments) >>= λ found. ok (
          laid p j err
            (codes "0x" ++ functor_or_empty p j (find_name c.functors function))
            (length (p.elements arguments))
            found))
unfolding call checked_types values_of
call-laid_out p j c function arguments types err laws h =
    let n = length (p.elements arguments) in
    let ret = codes "0x" ++ functor_or_empty p j (find_name c.functors function) in
    let st : Packing = record { ret = ret; next_offset = 32 * n % 2 ^ 64; arr_to_append = [] } in
    let m = parts_of_values p j types (p.elements arguments) in
    rw h.known (
      rw h.array (
        rw ((==_iff n (length types)).1 h.counted) (
          ap (λ x. x >>= λ done. ok (answer_call p j err done))
            (values_loop-parts p j laws types (p.elements arguments) st h.placed)
          ∙ bind_assoc m (put_found p st) (λ done. ok (answer_call p j err done))
          ∙ bind-cong m (λ found. put_found p st found >>= λ done. ok (answer_call p j err done))
              (λ found. ok (laid p j err ret n found))
              (λ found e.
                answer_call-laid p j err ret n found
                  (λ parts code same_. h.fits parts code (e ∙ ap ok same_))))))
