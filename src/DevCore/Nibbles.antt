-- ===== src/DevCore/Nibbles.antt =====
-- Keys of a trie, read by half bytes: `nibble`, `sharedNibbles`, `NibbleSlice`, `isLeaf` and `keyOf` of
-- include/web3cpp/devcore/TrieCommon.h, and `uniqueInUse` of src/devcore/TrieCommon.cpp.
-- Positions and their sums stay below 2 ^ 32.
pub mod HexPrefix
pub mod Slices
pub mod RoundTrip
pub mod Joined
use web3cpp.Common.{
  ℕ, zero, suc, ◌+◌, ◌-◌, ◌*◌, ◌/◌, ◌%◌, ◌^◌, Bool, true, false, not, ◌&&◌, ◌||◌, Option, none,
  some, List, [], ◌∷◌, ltb, leb, ◌==◌, if◌then◌else◌, length, get_elem?, bit_and, Outcome, ok,
  undefined, stuck, ◌>>=◌,
}
use web3cpp.Rlp.Index.{Cache, index}
use web3cpp.Rlp.View.{is_empty, payload}

-- `v[i]`; a read behind the end is undefined.
abbrev read_found : Option ℕ → Outcome ℕ
read_found none = undefined
read_found (some b) = ok b

unfoldable pub read : List ℕ → ℕ → Outcome ℕ
read v i = read_found (get_elem? v i)

-- `nibble(_data, _i)`
unfoldable pub nibble : List ℕ → ℕ → Outcome ℕ
nibble bs i = read bs (i / 2) >>= λ b. ok (if i % 2 == 1 then b % 16 else b / 16)

-- The loop of `sharedNibbles`, from the two positions.
unfoldable pub shared_loop : ℕ → List ℕ → ℕ → ℕ → List ℕ → ℕ → ℕ → ℕ → Outcome ℕ
shared_loop zero d1 b1 e1 d2 b2 e2 ret = if ltb b1 e1 && ltb b2 e2 then stuck else ok ret
shared_loop (suc fuel) d1 b1 e1 d2 b2 e2 ret =
    let rest = shared_loop fuel d1 (b1 + 1) e1 d2 (b2 + 1) e2 (ret + 1) in
    if ltb b1 e1 && ltb b2 e2
    then (nibble d1 b1 >>= λ x. nibble d2 b2 >>= λ y. if x == y then rest else ok ret)
    else ok ret

-- `sharedNibbles`
unfoldable pub shared_nibbles : List ℕ → ℕ → ℕ → List ℕ → ℕ → ℕ → Outcome ℕ
shared_nibbles d1 b1 e1 d2 b2 e2 = shared_loop e1 d1 b1 e1 d2 b2 e2 0

pub record NibbleSlice : Type 0 where
  pub bytes : List ℕ
  pub offset : ℕ

-- `size()`, an `unsigned`.
unfoldable pub size : NibbleSlice → ℕ
size s = (length s.bytes * 2 + 2 ^ 32 - s.offset) % 2 ^ 32

-- `operator[]`
unfoldable pub nibble_at : NibbleSlice → ℕ → Outcome ℕ
nibble_at s i = nibble s.bytes (s.offset + i)

unfoldable pub mid : NibbleSlice → ℕ → NibbleSlice
mid s i = record s { offset = s.offset + i }

unfoldable pub shared : NibbleSlice → NibbleSlice → Outcome ℕ
shared s k =
    shared_nibbles s.bytes s.offset (s.offset + size s) k.bytes k.offset (k.offset + size k)

-- `contains`: `k` is a prefix of `s`.
unfoldable pub contains : NibbleSlice → NibbleSlice → Outcome Bool
contains s k = shared s k >>= λ n. ok (n == size k)

-- `operator==`
unfoldable pub same_slice : NibbleSlice → NibbleSlice → Outcome Bool
same_slice s k = if size k == size s then contains s k else ok false

-- The loop of `isEarlierThan`, and what stands behind it.
unfoldable pub earlier_loop : ℕ → NibbleSlice → NibbleSlice → ℕ → Outcome Bool
earlier_loop zero s k i =
    if ltb i (size k) && ltb i (size s) then stuck else ok (not (leb (size k) i))
earlier_loop (suc fuel) s k i =
    let rest = earlier_loop fuel s k (i + 1) in
    if ltb i (size k) && ltb i (size s)
    then (nibble_at s i >>= λ x.
        nibble_at k i >>= λ y. if ltb x y then ok true else if ltb y x then ok false else rest)
    else ok (not (leb (size k) i))

-- `isEarlierThan`
unfoldable pub is_earlier_than : NibbleSlice → NibbleSlice → Outcome Bool
is_earlier_than s k = earlier_loop (size s) s k 0

-- `keyOf` of a hex prefix encoding.
unfoldable pub key_of : List ℕ → NibbleSlice
key_of [] = record { bytes = []; offset = 0 }
key_of (b ∷ bs) = record { bytes = b ∷ bs; offset = if not (bit_and b 0x10 == 0) then 1 else 2 }

-- `isLeaf` on the payload of the first item.
unfoldable pub has_leaf_flag : List ℕ → Outcome Bool
has_leaf_flag bs = read bs 0 >>= λ b. ok (not (bit_and b 0x20 == 0))

-- `isLeaf(_twoItem)`; its assertion is on a list of two.
unfoldable pub is_leaf : List ℕ → Cache → Outcome (Cache × Bool)
is_leaf d c =
    index d c 0 >>= λ (c', item). payload item >>= λ bs. has_leaf_flag bs >>= λ b. ok (c', b)

-- `keyOf(_twoItem)`
unfoldable pub key_of_item : List ℕ → Cache → Outcome (Cache × NibbleSlice)
key_of_item d c = index d c 0 >>= λ (c', item). payload item >>= λ bs. ok (c', key_of bs)

-- A round of `uniqueInUse`: the new value of `used`, or none where 255 is returned.
unfoldable pub unique_step : List ℕ → Cache → ℕ → ℕ → ℕ → Outcome (Cache × Option ℕ)
unique_step d c except i used =
    if i == except
    then ok (c, some used)
    else (index d c i >>= λ (c', item).
        ok (c', if is_empty item then some used else if used == 255 then some i else none))

unfoldable pub unique_loop : ℕ → List ℕ → Cache → ℕ → ℕ → ℕ → Outcome (Cache × ℕ)
unique_loop zero d c except i used = ok (c, used)
unique_loop (suc rounds) d c except i used = unique_step d c except i used >>= λ (c', next).
    elim next [ none ↦ ok (c', 255) | some used' ↦ unique_loop rounds d c' except (i + 1) used' ]

-- `uniqueInUse(_orig, except)`
unfoldable pub unique_in_use : List ℕ → Cache → ℕ → Outcome (Cache × ℕ)
unique_in_use d c except = unique_loop 17 d c except 0 255
