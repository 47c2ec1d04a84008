-- ===== src/Rlp/Index/Iteration.antt =====
-- Iteration over an encoded list visits the encodings of its items, in order.
use web3cpp.Common.{
  ℕ, zero, suc, ◌+◌, ◌-◌, ◌≤◌, ◌≡◌, refl, sym, ap, ◌∙◌, List, [], ◌∷◌, ◌++◌, append-nil,
  append_assoc, length, length-append, drop, drop-append, arith, Outcome, ok, le→ltb, true, false,
}
use web3cpp.Rlp.View.{
  actual_size, cropped_to, is_null, is_list, payload, construct, size_as_encoded, items,
}
use web3cpp.Rlp.View.Frames.{Small, length-body_of-le}
use web3cpp.Rlp.View.Decode.{
  payload-encode, encode-nonempty, actual_size-encode, is_list-node, items-encode,
}
use web3cpp.Rlp.Item.{Item, Items, node, nil, cons, count, encode, encode_items}
use web3cpp.Rlp.Index.{Iterator, begin, next, is_end, collect, to_vector}
use web3cpp.Rlp.Index.Cached.{item_at, after, front_size, front_item}

unfoldable pub map_items : {A : Type 0} → (Item → A) → Items → List A
map_items f nil = []
map_items f (cons x xs) = f x ∷ map_items f xs

-- An iterator in front of the items `xs`.
iterator_at : Items → Iterator
iterator_at xs = record { current = item_at xs 0; remaining = encode_items (after xs 0) }

drop_front :
    (xs : Items) → drop (length (item_at xs 0)) (encode_items xs) ≡ encode_items (after xs 0)
unfolding item_at after encode
drop_front nil = refl
drop_front (cons x xs) = drop-append (encode x) (encode_items xs)

begin-encode :
    (xs : Items)
    → Small (length (encode (node xs)))
    → begin (encode (node xs)) ≡ ok (iterator_at xs)
unfolding begin iterator_at
begin-encode xs fits =
    let whole : encode (node xs) ≡ encode (node xs) ++ [] = sym (append-nil (encode (node xs))) in
    let list : is_list (encode (node xs)) ≡ true = ap is_list whole ∙ is_list-node xs [] in
    let body : payload (encode (node xs)) ≡ ok (encode_items xs) =
      ap payload whole ∙ payload-encode (node xs) fits [] in
    let small : Small (length (encode_items xs)) = omega (arith, length-body_of-le (node xs)) in
    rw list (rw body (rw (front_size xs small) (rw (front_item xs) (rw (drop_front xs)))))

next_some :
    (d item : List ℕ) (cur : List ℕ)
    → 1 ≤ length d
    → is_null cur ≡ false
    → size_as_encoded d ≡ ok (length item)
    → cropped_to 0 (length item) d ≡ item
    → next (record { current = cur; remaining = d })
      ≡ ok (record { current = item; remaining = drop (length item) d })
unfolding next
next_some [] item cur h there e c = absurd (omega arith)
next_some (b ∷ bs) item cur h there e c = rw there (rw e (rw c refl))

next-iterator_at :
    (xs : Items) (cur : List ℕ)
    → Small (length (encode_items xs))
    → is_null cur ≡ false
    → next (record { current = cur; remaining = encode_items xs }) ≡ ok (iterator_at xs)
unfolding encode iterator_at
next-iterator_at nil cur fits there = unfold next item_at after in refl
next-iterator_at (cons x xs) cur fits there =
    next_some (encode_items (cons x xs)) (item_at (cons x xs) 0) cur
      (omega (arith, encode-nonempty x, length-append (encode x) (encode_items xs))) there
      (front_size (cons x xs) fits) (front_item (cons x xs))
    ∙ ap (λ t. ok (record { current = item_at (cons x xs) 0; remaining = t }))
        (drop_front (cons x xs))

pub very_strict_item :
    (x : Item) → Small (length (encode x)) → construct (encode x) 28 ≡ ok (encode x)
unfolding construct
very_strict_item x fits =
    let size : actual_size (encode x) ≡ ok (length (encode x)) =
      ap actual_size (sym (append-nil (encode x))) ∙ actual_size-encode x fits [] in
    let same = le→ltb (length (encode x)) (length (encode x)) (omega arith) in
    rw size (rw same (rw size (rw same)))

count-le : (xs : Items) → count xs ≤ length (encode_items xs)
unfolding encode
count-le nil = omega arith
count-le (cons x xs) =
    omega (arith, length-append (encode x) (encode_items xs), encode-nonempty x, count-le xs)

abbrev pub AllItems : (Item → Type 0) → Items → Type 0
AllItems P nil = Unit
AllItems P (cons x xs) = P x × AllItems P xs

module _ {A : Type 0} (convert : List ℕ → ℕ → Outcome A) (flags : ℕ) (f : Item → A) where
  abbrev Converts : Item → Type 0
  Converts x = convert (encode x) flags ≡ ok (f x)

  collect_stops :
      (fuel : ℕ) (it : Iterator) (ret : List A)
      → is_end 0 it ≡ true
      → collect convert fuel 0 flags it ret ≡ ok ret
  unfolding collect
  collect_stops zero it ret e = rw e
  collect_stops (suc fuel) it ret e = rw e

  collect_goes :
      (fuel : ℕ) (it it' : Iterator) (ret : List A) (item : List ℕ) (a : A)
      → is_end 0 it ≡ false
      → construct it.current 28 ≡ ok item
      → convert item flags ≡ ok a
      → next it ≡ ok it'
      → collect convert (suc fuel) 0 flags it ret ≡ collect convert fuel 0 flags it' (ret ++ a ∷ [])
  unfolding collect
  collect_goes fuel it it' ret item a e c v n = rw e (rw c (rw v (rw n)))

  collect-encode :
      (xs : Items) (fuel : ℕ) (ret : List A)
      → Small (length (encode_items xs))
      → count xs ≤ fuel
      → AllItems Converts xs
      → collect convert fuel 0 flags (iterator_at xs) ret ≡ ok (ret ++ map_items f xs)
  unfolding iterator_at item_at after encode map_items
  collect-encode nil fuel ret fits h all =
      collect_stops fuel (iterator_at nil) ret (unfold is_end is_null in refl)
      ∙ ap ok (sym (append-nil ret))
  collect-encode (cons x xs) zero ret fits h all = absurd (omega arith)
  collect-encode (cons x xs) (suc fuel) ret fits h (one, all) =
      let size : length (encode x ++ encode_items xs)
          ≡ length (encode x) + length (encode_items xs) =
        length-append (encode x) (encode_items xs) in
      let there : is_null (encode x) ≡ false =
        unfold is_null in ground (arith, encode-nonempty x) in
      collect_goes fuel (iterator_at (cons x xs)) (iterator_at xs) ret (encode x) (f x)
        (unfold is_end in rw there refl) (very_strict_item x (omega arith)) one
        (next-iterator_at xs (encode x) (omega arith) there)
      ∙ collect-encode xs fuel (ret ++ f x ∷ []) (omega arith) (omega arith) all
      ∙ ap ok (append_assoc ret (f x ∷ []) (map_items f xs))

  -- `toVector` of an encoded list is the list of its converted items, if the encoding is shorter
  -- than 2 ^ 64 - 257 bytes and the conversion succeeds on each item.
  pub to_vector-encode :
      (xs : Items)
      → Small (length (encode (node xs)))
      → AllItems Converts xs
      → to_vector convert (encode (node xs)) flags ≡ ok (map_items f xs)
  unfolding to_vector
  to_vector-encode xs fits all =
      let whole : encode (node xs) ≡ encode (node xs) ++ [] = sym (append-nil (encode (node xs))) in
      let list : is_list (encode (node xs)) ≡ true = ap is_list whole ∙ is_list-node xs [] in
      let n : items (encode (node xs)) ≡ ok (count xs) = ap items whole ∙ items-encode xs [] fits in
      let size : actual_size (encode (node xs)) ≡ ok (length (encode (node xs))) =
        ap actual_size whole ∙ actual_size-encode (node xs) fits [] in
      let none_beyond : length (encode (node xs)) - length (encode (node xs)) ≡ 0 = omega arith in
      let le : length (encode_items xs) ≤ length (encode (node xs)) = length-body_of-le (node xs) in
      rw list (
        rw n (
          rw (begin-encode xs fits) (
            rw size (
              rw none_beyond (
                collect-encode xs (length (encode (node xs))) [] (omega arith)
                  (omega (arith, count-le xs)) all)))))
