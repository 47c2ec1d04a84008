-- ===== src/Rlp/Index/Cached.antt =====
-- The cache of `operator[]` never shows: whatever was read before, the item is the same.
use web3cpp.Common.{
  ℕ, zero, suc, ◌+◌, ◌-◌, ◌^◌, ◌≤◌, ◌<◌, ◌≡◌, refl, sym, ap, ap₂, ◌∙◌, List, [], ◌++◌, append-nil,
  ltb, length, length-append, length-drop, drop, take-append, drop-append, drop-append_more, arith,
  ok, Bool-cases, inl, inr, lt→ltb, ltb→lt, le→ltb, ltb→le, true, false, ◌⊎◌,
}
use native.Mathlib.Numerals.{add-one}
use web3cpp.Rlp.View.{
  actual_size, cropped, cropped_to, is_null, payload, construct, size_as_encoded,
}
use web3cpp.Rlp.View.Frames.{Small, length-body_of-le}
use web3cpp.Rlp.View.Decode.{
  size_as_encoded-encode, payload-encode, encode-nonempty, actual_size-encode,
}
use web3cpp.Rlp.Item.{Items, node, nil, cons, count, encode, encode_items}
use web3cpp.Rlp.Index.{Cache, rewind, advance, walk, index}

-- The encoding of the item `i`, and nothing behind the last.
unfoldable pub item_at : Items → ℕ → List ℕ
item_at nil i = []
item_at (cons x xs) zero = encode x
item_at (cons x xs) (suc i) = item_at xs i

-- Where the item `i` ends in the payload.
unfoldable pub end_at : Items → ℕ → ℕ
end_at nil i = 0
end_at (cons x xs) zero = length (encode x)
end_at (cons x xs) (suc i) = length (encode x) + end_at xs i

-- The items behind the item `i`.
unfoldable pub after : Items → ℕ → Items
after nil i = nil
after (cons x xs) zero = xs
after (cons x xs) (suc i) = after xs i

-- The fields after a read of the item `k`, or, for `k` the number of items, of one behind the end.
abbrev pub cache_at : Items → ℕ → Cache
cache_at xs k = record { last_index = k; last_end = end_at xs k; last_item = item_at xs k }

-- What the fields hold between two calls: nothing yet, or an item of the list or its end.
abbrev pub IsCache : Items → Cache → Type 0
IsCache xs c = (c.last_index ≡ 2 ^ 64 - 1) ⊎ ((k : ℕ) × (k ≤ count xs) × (c ≡ cache_at xs k))

item_at_beyond : (xs : Items) (i : ℕ) → count xs ≤ i → item_at xs i ≡ []
unfolding item_at
item_at_beyond nil i h = refl
item_at_beyond (cons x xs) zero h = absurd (omega arith)
item_at_beyond (cons x xs) (suc i) h = item_at_beyond xs i (omega arith)

item_at-nonempty : (xs : Items) (i : ℕ) → i < count xs → 1 ≤ length (item_at xs i)
unfolding item_at
item_at-nonempty nil i h = absurd (omega arith)
item_at-nonempty (cons x xs) zero h = encode-nonempty x
item_at-nonempty (cons x xs) (suc i) h = item_at-nonempty xs i (omega arith)

first_after : (xs : Items) (i : ℕ) → item_at (after xs i) 0 ≡ item_at xs (suc i)
unfolding item_at after
first_after nil i = refl
first_after (cons x nil) zero = refl
first_after (cons x (cons y ys)) zero = refl
first_after (cons x xs) (suc i) = first_after xs i

end_after : (xs : Items) (i : ℕ) → end_at xs (suc i) ≡ end_at xs i + length (item_at xs (suc i))
unfolding end_at item_at
end_after nil i = omega arith
end_after (cons x nil) zero = omega arith
end_after (cons x (cons y ys)) zero = refl
end_after (cons x xs) (suc i) = omega (arith, end_after xs i)

drop-after : (xs : Items) (i : ℕ) → drop (end_at xs i) (encode_items xs) ≡ encode_items (after xs i)
unfolding end_at after encode
drop-after nil i = refl
drop-after (cons x xs) zero = drop-append (encode x) (encode_items xs)
drop-after (cons x xs) (suc i) =
    drop-append_more (encode x) (encode_items xs) (end_at xs i) ∙ drop-after xs i

end_at-le : (xs : Items) (i : ℕ) → end_at xs i ≤ length (encode_items xs)
unfolding end_at encode
end_at-le nil i = omega arith
end_at-le (cons x xs) zero = omega (arith, length-append (encode x) (encode_items xs))
end_at-le (cons x xs) (suc i) =
    omega (arith, length-append (encode x) (encode_items xs), end_at-le xs i)

cropped_to-append : (bs rest : List ℕ) → cropped_to 0 (length bs) (bs ++ rest) ≡ bs
unfolding cropped_to
cropped_to-append bs rest = rw take-append (ground (arith, length-append bs rest))

-- The item in front, cut out by its own size.
pub front_size :
    (ys : Items)
    → Small (length (encode_items ys))
    → size_as_encoded (encode_items ys) ≡ ok (length (item_at ys 0))
unfolding item_at encode
front_size nil fits = unfold size_as_encoded construct actual_size in refl
front_size (cons x xs) fits =
    size_as_encoded-encode x (omega (arith, length-append (encode x) (encode_items xs)))
      (encode_items xs)

pub front_item :
    (ys : Items) → cropped_to 0 (length (item_at ys 0)) (encode_items ys) ≡ item_at ys 0
unfolding item_at encode
front_item nil = unfold cropped_to in refl
front_item (cons x xs) = cropped_to-append (encode x) (encode_items xs)

pub item_at-Small :
    (xs : Items) (i : ℕ) → Small (length (encode_items xs)) → Small (length (item_at xs i))
unfolding item_at encode
item_at-Small nil i fits = omega arith
item_at-Small (cons x xs) zero fits = omega (arith, length-append (encode x) (encode_items xs))
item_at-Small (cons x xs) (suc i) fits =
    item_at-Small xs i (omega (arith, length-append (encode x) (encode_items xs)))

-- Data that is an encoded item, or empty, is accepted as it is.
construct_item :
    (xs : Items) (i : ℕ)
    → Small (length (encode_items xs))
    → construct (item_at xs i) 20 ≡ ok (item_at xs i)
unfolding item_at encode construct
construct_item nil i fits = unfold actual_size in refl
construct_item (cons x xs) zero fits =
    let small : Small (length (encode x)) =
      omega (arith, length-append (encode x) (encode_items xs)) in
    let size : actual_size (encode x) ≡ ok (length (encode x)) =
      ap actual_size (sym (append-nil (encode x))) ∙ actual_size-encode x small [] in
    rw size (rw (le→ltb (length (encode x)) (length (encode x)) (omega arith)))
construct_item (cons x xs) (suc i) fits =
    construct_item xs i (omega (arith, length-append (encode x) (encode_items xs)))

end_first : (xs : Items) → end_at xs 0 ≡ length (item_at xs 0)
unfolding end_at item_at
end_first nil = refl
end_first (cons x xs) = refl

walk_stops : (n : ℕ) (d : List ℕ) (c : Cache) → is_null c.last_item ≡ true → walk (suc n) d c ≡ ok c
unfolding walk
walk_stops n d c e = rw e

walk_goes :
    (n : ℕ) (d : List ℕ) (c c' : Cache)
    → is_null c.last_item ≡ false
    → advance d c ≡ ok c'
    → walk (suc n) d c ≡ walk n d c'
unfolding walk
walk_goes n d c c' e a = rw e (rw a)

module _ (xs : Items) (rest : List ℕ) (fits : Small (length (encode (node xs)))) where
  small : Small (length (encode_items xs))
  small = omega (arith, length-body_of-le (node xs))

  body : payload (encode (node xs) ++ rest) ≡ ok (encode_items xs)
  body = payload-encode (node xs) fits rest

  tail_chunk : (i : ℕ) → cropped (end_at xs i) (encode_items xs) ≡ encode_items (after xs i)
  unfolding cropped
  tail_chunk i = rw (drop-after xs i) (ground (arith, end_at-le xs i))

  after-Small : (i : ℕ) → Small (length (encode_items (after xs i)))
  after-Small i =
      rw (← drop-after xs i) (omega (arith, small, length-drop (end_at xs i) (encode_items xs)))

  size_after :
      (k : ℕ) → size_as_encoded (encode_items (after xs k)) ≡ ok (length (item_at xs (suc k)))
  size_after k =
      front_size (after xs k) (after-Small k) ∙ ap (λ t. ok (length t)) (first_after xs k)

  item_after :
      (k : ℕ)
      → cropped_to 0 (length (item_at xs (suc k))) (encode_items (after xs k)) ≡ item_at xs (suc k)
  item_after k =
      ap (λ t. cropped_to 0 (length t) (encode_items (after xs k))) (sym (first_after xs k))
      ∙ front_item (after xs k)
      ∙ first_after xs k

  advance-cache_at :
      (k : ℕ) → advance (encode (node xs) ++ rest) (cache_at xs k) ≡ ok (cache_at xs (suc k))
  unfolding advance
  advance-cache_at k = rw body (
      rw (tail_chunk k) (
        rw (size_after k) (
          rw (item_after k) (
            ap₂
              (λ i e. ok (record { last_index = i; last_end = e; last_item = item_at xs (suc k) }))
              (add-one k) (sym (end_after xs k))))))

  walk-cache_at :
      (n k : ℕ)
      → k ≤ count xs
      → (k' : ℕ) × (walk n (encode (node xs) ++ rest) (cache_at xs k) ≡ ok (cache_at xs k'))
        × (k' ≤ count xs)
        × (item_at xs k' ≡ item_at xs (k + n))
  walk-cache_at zero k h =
      (k, unfold walk in refl, h, ap (item_at xs) {x = k} {y = k + 0} (omega arith))
  walk-cache_at (suc n) k h = elim (Bool-cases (ltb k (count xs))) [
    | inl more ↦
        let lt = ltb→lt _ _ more in
        let there : is_null (item_at xs k) ≡ false =
          unfold is_null in ground (arith, item_at-nonempty xs k lt) in
        let (k', e, within, found) = walk-cache_at n (suc k) lt in
        (
          k',
          walk_goes n (encode (node xs) ++ rest) (cache_at xs k) (cache_at xs (suc k)) there
                (advance-cache_at k)
              ∙ e,
          within,
          found ∙ ap (item_at xs) {x = suc k + n} {y = k + suc n} (omega arith),
        )
    | inr at_end ↦
        let le = ltb→le _ _ at_end in
        let gone : is_null (item_at xs k) ≡ true = unfold is_null in rw (item_at_beyond xs k le) in
        (
          k,
          walk_stops n (encode (node xs) ++ rest) (cache_at xs k) gone,
          h,
          item_at_beyond xs k le ∙ sym (item_at_beyond xs (k + suc n) (omega arith)),
        )
  ]

  rewind_first :
      (c : Cache) (i : ℕ)
      → i < c.last_index
      → rewind (encode (node xs) ++ rest) c i ≡ ok (cache_at xs 0)
  unfolding rewind
  rewind_first c i lt = rw (lt→ltb i c.last_index lt) (
      rw body (
        rw (front_size xs small) (
          rw (front_item xs) (
            ap (λ e. ok (record { last_index = 0; last_end = e; last_item = item_at xs 0 }))
              (sym (end_first xs))))))

  rewind_lem :
      (c : Cache) (i : ℕ)
      → IsCache xs c
      → i < 2 ^ 64 - 1
      → (k : ℕ) × (rewind (encode (node xs) ++ rest) c i ≡ ok (cache_at xs k))
        × (k ≤ count xs)
        × (k ≤ i)
  rewind_lem c i (inl none_read) lt = (0, rewind_first c i (omega arith), omega arith, omega arith)
  rewind_lem c i (inr (k, within, e)) lt = elim (Bool-cases (ltb i k)) [
    | inl back ↦
        (0, rw e (rewind_first (cache_at xs k) i (ltb→lt _ _ back)), omega arith, omega arith)
    | inr on ↦ (k, rw e (unfold rewind in rw on), within, ltb→le _ _ on)
  ]

  -- `operator[]` finds the item `i` of an encoded list, or nothing behind the last, whatever was
  -- read before, and leaves its fields in order for the next call. The list is shorter than 2 ^ 64 - 257
  -- bytes encoded, and `i` is not the largest 64-bit number.
  pub index-encode :
      (c : Cache) (i : ℕ)
      → IsCache xs c
      → i < 2 ^ 64 - 1
      → (c' : Cache) × (index (encode (node xs) ++ rest) c i ≡ ok (c', item_at xs i))
        × IsCache xs c'
  unfolding index
  index-encode c i valid lt =
      let (k, e, within, le) = rewind_lem c i valid lt in
      let (k', e', within', found) = walk-cache_at (i - k) k within in
      let same : item_at xs k' ≡ item_at xs i =
        found ∙ ap (item_at xs) {x = k + (i - k)} {y = i} (omega arith) in
      (
        cache_at xs k',
        rw e (rw e' (rw (construct_item xs k' small) (ap (λ t. ok (cache_at xs k', t)) same))),
        inr (k', within', refl),
      )
