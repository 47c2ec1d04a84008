-- ===== src/Rlp/Index.antt =====
-- `RLP::operator[]` with its cache of the item that was read last, and the iterator of `class RLP`.
pub mod Cached
pub mod Iteration
use web3cpp.Common.{
  ℕ, zero, suc, ◌+◌, ◌-◌, ◌^◌, List, [], ◌∷◌, ◌++◌, ltb, if◌then◌else◌, length, drop, Outcome, ok,
  throws, undefined, stuck, bad_cast, Bool, ◌&&◌, ◌==◌, ◌>>=◌,
}
use web3cpp.Rlp.View.{
  actual_size, cropped, cropped_to, is_null, is_list, payload, construct, size_as_encoded, items,
  throw_on_fail, fail_if_too_small, very_strict, has,
}

-- `m_lastIndex`, `m_lastEnd` and `m_lastItem`, which change under a `const` object.
pub record Cache : Type 0 where
  pub last_index : ℕ
  pub last_end : ℕ
  pub last_item : List ℕ

-- No item was read: `(size_t)-1`.
abbrev pub no_cache : Cache
no_cache = record { last_index = 2 ^ 64 - 1; last_end = 0; last_item = [] }

-- `if (_i < m_lastIndex)`: start again from the item 0.
unfoldable pub rewind : List ℕ → Cache → ℕ → Outcome Cache
rewind d c i =
    if ltb i c.last_index
    then (do
      body ← payload d
      n ← size_as_encoded body
      ok (record { last_index = 0; last_end = n; last_item = cropped_to 0 n body }))
    else ok c

-- One round of the loop.
unfoldable pub advance : List ℕ → Cache → Outcome Cache
advance d c = do
  body ← payload d
  let chunk = cropped c.last_end body
  n ← size_as_encoded chunk
  let item = cropped_to 0 n chunk
  ok (record {
    last_index = c.last_index + 1;
    last_end = c.last_end + length item;
    last_item = item;
  })

-- `for (; m_lastIndex < _i && m_lastItem.size(); ++m_lastIndex)`, with the rounds that are left.
unfoldable pub walk : ℕ → List ℕ → Cache → Outcome Cache
walk zero d c = ok c
walk (suc rounds) d c = if is_null c.last_item then ok c else (advance d c >>= walk rounds d)

-- The new cache, and the data of the item.
unfoldable pub index : List ℕ → Cache → ℕ → Outcome (Cache × List ℕ)
index d c i = do
  start ← rewind d c i
  found ← walk (i - start.last_index) d start
  item ← construct found.last_item (throw_on_fail + fail_if_too_small)
  ok (found, item)

-- `RLP::iterator`: the item, and the bytes of the list that follow it (`m_remaining` of them).
pub record Iterator : Type 0 where
  pub current : List ℕ
  pub remaining : List ℕ

unfoldable pub begin : List ℕ → Outcome Iterator
begin d =
    if is_list d
    then (do
      body ← payload d
      n ← size_as_encoded body
      let item = cropped_to 0 n body
      ok (record { current = item; remaining = drop (length item) body }))
    else ok (record { current = []; remaining = [] })

-- `operator++`. An item that did not fit in what was left is a null pointer, from which the next is read.
unfoldable pub next : Iterator → Outcome Iterator
next it = elim it.remaining [
  | [] ↦ ok (record { current = []; remaining = [] })
  | b ∷ bs ↦ if is_null it.current then undefined else (do
    n ← size_as_encoded (b ∷ bs)
    let item = cropped_to 0 n (b ∷ bs)
    ok (record { current = item; remaining = drop (length item) (b ∷ bs) }))
]

-- `operator==` with `end()`, which is the empty item at the end of the data of the list; `beyond` bytes of
-- the data stand behind the payload.
unfoldable pub is_end : ℕ → Iterator → Bool
unfolding is_null
is_end beyond it = is_null it.current && is_null it.remaining && beyond == 0

module _ {A : Type 0} (convert : List ℕ → ℕ → Outcome A) where
  -- `for (auto const& i: *this) ret.push_back(i.convert<T>(_flags))`. A round that reaches the end takes a
  -- byte of the payload at least; with bytes behind the payload the end is never reached.
  unfoldable pub collect : ℕ → ℕ → ℕ → Iterator → List A → Outcome (List A)
  collect zero beyond flags it ret = if is_end beyond it then ok ret else stuck
  collect (suc fuel) beyond flags it ret =
      if is_end beyond it
      then ok ret
      else (construct it.current very_strict >>= λ item. convert item flags >>= λ a.
          next it >>= λ it'. collect fuel beyond flags it' (ret ++ a ∷ []))

  -- `toVector`. `reserve(itemCount())` walks over the items first, and may throw.
  unfoldable pub to_vector : List ℕ → ℕ → Outcome (List A)
  to_vector d flags =
      if is_list d
      then (items d >>= λ n. begin d >>= λ it.
          actual_size d >>= λ size. collect (length d) (length d - size) flags it [])
      else if has flags throw_on_fail
      then throws bad_cast
      else ok []
