-- ===== src/Web/Solidity/Multi/Encoding.antt =====
-- `packMulti` of an array of arguments is the layout of their parts.
use web3cpp.Common.{
  ℕ, ◌≡◌, refl, sym, ap, ◌∙◌, Bool, true, false, Option, none, some, List, [], ◌∷◌, ◌==◌,
  if◌then◌else◌, length, All, Outcome, ok, ◌>>=◌, bind_assoc, bind-eq-ok, bind-cong, bind-ext,
  ==_iff,
}
use web3cpp.Web.Errors.{ErrorState, fresh, get_code}
use web3cpp.Web.Platform.{Platform, HexLaws}
use web3cpp.Web.Solidity.{type_code, check_type}
use web3cpp.Web.Solidity.Multi.{
  Packing, pack_argument, checked_argument, type_and_value, check_found, pack_found, arguments_loop,
}
use web3cpp.Web.Solidity.Multi.Layout.{Part, put_part, part_of, is_static_array, IsShort}
use web3cpp.Web.Solidity.Multi.Rounds.{pack_argument-part_of}

abbrev pub and_part : Part → Option (List Part) × ℕ → Outcome (Option (List Part) × ℕ)
and_part part (none, code) = ok (none, code)
and_part part (some parts, code) = ok (some (part ∷ parts), code)

taken :
    {J : Type 0} (good : Bool) (t : List ℕ) (v : J) (type : List ℕ) (value : J) (n code : ℕ)
    → ◌≡◌ {A = Outcome (Option (List ℕ × J) × ℕ)}
        (ok (if good then some (t, v) else none, n))
        (ok (some (type, value), code))
    → (good ≡ true) × (t ≡ type) × (v ≡ value)
taken true t v type value n code h = (refl, cc h, cc h)
taken false t v type value n code h = cc h

module _ (p : Platform) where
  unfoldable pub part_found :
      Outcome (Option (List Part) × ℕ)
      → Option (List ℕ × p.Json) × ℕ
      → Outcome (Option (List Part) × ℕ)
  part_found rest (none, code) = ok (none, code)
  part_found rest (some (type, value), code) =
      part_of p type value >>= λ part. rest >>= and_part part

  -- The parts of the arguments, or the code of the first that fails its check.
  unfoldable pub parts_of : List p.Json → Outcome (Option (List Part) × ℕ)
  parts_of [] = ok (some [], 0)
  parts_of (arg ∷ args) = checked_argument p p.at_or_null arg >>= part_found (parts_of args)

  unfoldable pub put_parts : List Part → Packing → Packing
  put_parts [] st = st
  put_parts (part ∷ parts) st = put_parts parts (put_part p part st)

  abbrev pub put_found : Packing → Option (List Part) × ℕ → Outcome (Option Packing × ℕ)
  put_found st (none, code) = ok (none, code)
  put_found st (some parts, code) = ok (some (put_parts parts st), code)

  -- An argument whose texts are short and that is no array of numbers, addresses or booleans.
  pub record IsLaidOut (arg : p.Json) : Type 0 where
    pub not_static :
        (type : List ℕ) (value : p.Json) (code : ℕ)
        → checked_argument p p.at_or_null arg ≡ ok (some (type, value), code)
        → is_static_array type ≡ false
    pub short :
        (type : List ℕ) (value : p.Json) (code : ℕ)
        → checked_argument p p.at_or_null arg ≡ ok (some (type, value), code)
        → IsShort p value

  good_passed :
      (t : List ℕ) (v : p.Json) (good : Bool) (err : ErrorState)
      → check_type p t v fresh ≡ ok (good, err)
      → good ≡ true
      → type_code p t v ≡ ok 0
  unfolding check_type
  good_passed t v good err h e =
      let (c, coded, set) = bind-eq-ok (type_code p t v) _ h in
      let zero_code : (c == 0) ≡ good = cc set in coded ∙ ap ok ((==_iff c 0).0 (zero_code ∙ e))

  found_passed :
      (found : Option (List ℕ × p.Json)) (type : List ℕ) (value : p.Json) (code : ℕ)
      → check_found p found ≡ ok (some (type, value), code)
      → type_code p type value ≡ ok 0
  unfolding check_found
  found_passed none type value code h = cc
  found_passed (some (t, v)) type value code h =
      let ((good, err), checked, last) = bind-eq-ok (check_type p t v fresh) _ h in
      let (good_, t_, v_) = taken good t v type value (get_code err) code last in
      rw (sym t_) (rw (sym v_) (good_passed t v good err checked good_))

  -- An argument that is found has passed its check.
  checked_passed :
      (arg : p.Json) (type : List ℕ) (value : p.Json) (code : ℕ)
      → checked_argument p p.at_or_null arg ≡ ok (some (type, value), code)
      → type_code p type value ≡ ok 0
  unfolding checked_argument
  checked_passed arg type value code h =
      let (found, _, passed) = bind-eq-ok (type_and_value p p.at_or_null arg) (check_found p) h in
      found_passed found type value code passed

  pub put_found-and_part :
      (part : Part) (st : Packing) (found : Option (List Part) × ℕ)
      → put_found (put_part p part st) found ≡ (and_part part found >>= put_found st)
  unfolding put_parts
  put_found-and_part part st (none, code) = refl
  put_found-and_part part st (some parts, code) = refl

  -- A round, where the loop over the other arguments puts their parts.
  pack_found-part_found :
      (args : List p.Json) (size : ℕ) (st : Packing) (found : Option (List ℕ × p.Json) × ℕ)
      → ((t : Packing) → arguments_loop p args t ≡ (parts_of args >>= put_found t))
      → ((type : List ℕ) (value : p.Json)
          → found.0 ≡ some (type, value)
          → pack_argument p size type value st
            ≡ (part_of p type value >>= λ part. ok (put_part p part st)))
      → pack_found p (arguments_loop p args) size st found
        ≡ (part_found (parts_of args) found >>= put_found st)
  unfolding pack_found part_found
  pack_found-part_found args size st (none, code) ih h = refl
  pack_found-part_found args size st (some (type, value), code) ih h = rw (h type value refl) (
      bind_assoc (part_of p type value) (λ part. ok (put_part p part st)) (arguments_loop p args)
      ∙ bind-ext (part_of p type value) (λ part. arguments_loop p args (put_part p part st))
          (λ part. parts_of args >>= and_part part >>= put_found st)
          (λ part.
            ih (put_part p part st)
            ∙ bind-ext (parts_of args) (put_found (put_part p part st))
                (λ found. and_part part found >>= put_found st) (put_found-and_part part st)
            ∙ sym (bind_assoc (parts_of args) (and_part part) (put_found st)))
      ∙ sym (
          bind_assoc (part_of p type value) (λ part. parts_of args >>= and_part part)
            (put_found st)))

  -- The loop puts the parts of its arguments, one after the other.
  pub arguments_loop-parts_of :
      (laws : HexLaws p) (args : List p.Json) (st : Packing)
      → All IsLaidOut args
      → arguments_loop p args st ≡ (parts_of args >>= put_found st)
  unfolding arguments_loop parts_of put_parts
  arguments_loop-parts_of laws [] st h = refl
  arguments_loop-parts_of laws (arg ∷ args) st (ha, h) =
      let m = checked_argument p p.at_or_null arg in
      let size = length (p.elements arg) in
      bind-cong m (pack_found p (arguments_loop p args) size st)
        (λ found. part_found (parts_of args) found >>= put_found st)
        (λ found e.
          pack_found-part_found args size st found (λ t. arguments_loop-parts_of laws args t h)
            (λ type value same_.
              let e' : m ≡ ok (some (type, value), found.1) = e ∙ ap (λ f. ok (f, found.1)) same_ in
              pack_argument-part_of p laws size value st (ha.short type value found.1 e') type
                (checked_passed arg type value found.1 e') (ha.not_static type value found.1 e')))
      ∙ sym (bind_assoc m (part_found (parts_of args)) (put_found st))
