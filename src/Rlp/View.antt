-- ===== src/Rlp/View.antt =====
-- `class RLP`: reading of RLP data. The data, a `bytesConstRef`, is a list of bytes; a null reference
-- is the empty list, as everywhere in the class only the size is asked.
pub mod Frames
pub mod Decode
pub mod Totality
pub mod Integers
use web3cpp.Common.{
  ℕ, zero, suc, ◌+◌, ◌-◌, ◌*◌, ◌/◌, ◌%◌, ◌^◌, ◌≤◌, ◌<◌, min, bit_and, Bool, true, false, not, ◌&&◌,
  ◌||◌, List, [], ◌∷◌, ◌++◌, ltb, leb, ◌==◌, if◌then◌else◌, length, take, drop, replicate, get_or,
  Outcome, ok, throws, undefined, stuck, bad_rlp, bad_cast, oversize_rlp, undersize_rlp, ◌>>=◌,
  ◌>>◌, throw_if,
}
use web3cpp.Common.BigEndian.{from_big_endian}
use web3cpp.Rlp.{
  data_imm_len_start, list_start, data_ind_len_zero, list_ind_len_zero, max_length_bytes,
}

-- `cropped(_begin, _count)` and `cropped(_begin)` of vector_ref.h
unfoldable pub cropped_to : ℕ → ℕ → List ℕ → List ℕ
cropped_to start count d =
    if leb start (length d) && leb count (length d) && leb (start + count) (length d)
    then take count (drop start d)
    else []

unfoldable pub cropped : ℕ → List ℕ → List ℕ
cropped start d = if leb start (length d) then drop start d else []

-- The conversion flags.
abbrev pub allow_non_canon : ℕ
allow_non_canon = 1

abbrev pub throw_on_fail : ℕ
throw_on_fail = 4

abbrev pub fail_if_too_big : ℕ
fail_if_too_big = 8

abbrev pub fail_if_too_small : ℕ
fail_if_too_small = 16

abbrev pub strict : ℕ
strict = 12

abbrev pub very_strict : ℕ
very_strict = 28

abbrev pub laissez_faire : ℕ
laissez_faire = 1

-- `flags & flag`
abbrev pub has : ℕ → ℕ → Bool
has flags flag = not (bit_and flags flag == 0)

-- `m_data[i]`; each use stands behind a test of the size.
abbrev at : List ℕ → ℕ → ℕ
at d i = get_or d i 0

unfoldable pub is_null : List ℕ → Bool
is_null d = length d == 0

unfoldable pub is_empty : List ℕ → Bool
unfolding is_null
is_empty d = not (is_null d) && (at d 0 == data_imm_len_start || at d 0 == list_start)

unfoldable pub is_data : List ℕ → Bool
unfolding is_null
is_data d = not (is_null d) && ltb (at d 0) list_start

unfoldable pub is_list : List ℕ → Bool
unfolding is_null
is_list d = not (is_null d) && leb list_start (at d 0)

unfoldable pub is_single_byte : List ℕ → Bool
unfolding is_null
is_single_byte d = not (is_null d) && ltb (at d 0) data_imm_len_start

unfoldable pub require_good : List ℕ → Outcome (Unit {0})
unfolding is_null
require_good d =
    if is_null d
    then throws bad_rlp
    else if not (at d 0 == data_imm_len_start + 1)
    then ok tt
    else if ltb (length d) 2
    then throws bad_rlp
    else throw_if (ltb (at d 1) data_imm_len_start) bad_rlp

unfoldable pub is_int : List ℕ → Outcome Bool
unfolding is_null require_good
is_int d =
    let n = at d 0 in
    let nonzero_at : ℕ → Outcome Bool =
      λ i. if leb (length d) i then throws bad_rlp else ok (not (at d i == 0)) in
    if is_null d then ok false else do
      require_good d
      if ltb n data_imm_len_start
          then ok (not (n == 0))
          else if n == data_imm_len_start
          then ok true
          else if leb n data_ind_len_zero
          then nonzero_at 1
          else if ltb n list_start
          then nonzero_at (1 + n - data_ind_len_zero)
          else ok false

-- The two branches of `length()` for a size that is written behind the first byte, in `count` bytes.
unfoldable pub long_length : List ℕ → ℕ → Outcome ℕ
long_length d count =
    if leb (length d) count
    then throws bad_rlp
    else if ltb 1 (length d) && at d 1 == 0
    then throws bad_rlp
    else if ltb max_length_bytes count
    then throws undersize_rlp
    else if at d 1 == 0
    then throws bad_rlp
    else (let ret = from_big_endian 64 (take count (drop 1 d)) in
        if ltb ret 56
        then throws bad_rlp
        else if leb (2 ^ 64 - 1 - 0x100) ret
        then throws undersize_rlp
        else ok ret)

-- `length()`: the size of the payload that the first bytes announce.
unfoldable pub length_of : List ℕ → Outcome ℕ
unfolding is_null
length_of d =
    let n = at d 0 in
    if is_null d then ok 0 else do
      require_good d
      if ltb n data_imm_len_start
          then ok 1
          else if leb n data_ind_len_zero
          then ok (n - data_imm_len_start)
          else if ltb n list_start
          then long_length d (n - data_ind_len_zero)
          else if leb n list_ind_len_zero
          then ok (n - list_start)
          else long_length d (n - list_ind_len_zero)

unfoldable pub length_size : List ℕ → ℕ
unfolding is_data is_list
length_size d =
    if is_data d && ltb data_ind_len_zero (at d 0)
    then at d 0 - data_ind_len_zero
    else if is_list d && ltb list_ind_len_zero (at d 0)
    then at d 0 - list_ind_len_zero
    else 0

unfoldable pub payload_offset : List ℕ → ℕ
unfolding is_single_byte length_size
payload_offset d = if is_single_byte d then 0 else 1 + length_size d

unfoldable pub actual_size : List ℕ → Outcome ℕ
unfolding is_null is_single_byte is_data is_list
actual_size d =
    if is_null d
    then ok 0
    else if is_single_byte d
    then ok 1
    else if is_data d || is_list d
    then (do n ← length_of d; ok (payload_offset d + n))
    else ok 0

unfoldable pub payload : List ℕ → Outcome (List ℕ)
payload d = do
  n ← length_of d
  throw_if (ltb (length d) n) bad_rlp
  ok (cropped_to (payload_offset d) n d)

-- The two checks of the constructor, each with the data that it leaves.
reject_too_big : List ℕ → ℕ → Outcome (List ℕ)
reject_too_big d flags = if not (has flags fail_if_too_big) then ok d else do
  size ← actual_size d
  if not (ltb size (length d))
      then ok d
      else if has flags throw_on_fail
      then throws oversize_rlp
      else ok []

reject_too_small : List ℕ → ℕ → ℕ → Outcome (List ℕ)
reject_too_small d given flags = if not (has flags fail_if_too_small) then ok d else do
  size ← actual_size d
  if not (ltb given size)
      then ok d
      else if has flags throw_on_fail
      then throws undersize_rlp
      else ok []

-- `RLP(bytesConstRef, Strictness)`: what becomes the data of the object.
unfoldable pub construct : List ℕ → ℕ → Outcome (List ℕ)
unfolding reject_too_big reject_too_small
construct d flags = reject_too_big d flags >>= λ kept. reject_too_small kept (length d) flags

unfoldable pub size_as_encoded : List ℕ → Outcome ℕ
size_as_encoded d = construct d (throw_on_fail + fail_if_too_small) >>= actual_size

-- The loop of `items()`. Each round drops a byte at least, so `length d` rounds are enough.
unfoldable pub items_loop : ℕ → List ℕ → ℕ → Outcome ℕ
items_loop fuel [] i = ok i
items_loop zero (b ∷ bs) i = stuck
items_loop (suc fuel) (b ∷ bs) i =
    size_as_encoded (b ∷ bs) >>= λ n. items_loop fuel (cropped n (b ∷ bs)) (i + 1)

unfoldable pub items : List ℕ → Outcome ℕ
unfolding items_loop
items d = if is_list d then (payload d >>= λ body. items_loop (length body) body 0) else ok 0

-- `toBytes`. The copy reads `length()` bytes of the payload, which `cropped` may have made shorter.
unfoldable pub to_bytes : List ℕ → ℕ → Outcome (List ℕ)
to_bytes d flags =
    if not (is_data d) then (if has flags throw_on_fail then throws bad_cast else ok []) else do
      body ← payload d
      n ← length_of d
      if ltb (length body) n then undefined else ok (take n body)

-- `toInt<T>` for an unsigned type of `width` bits, with `intTraits<T>::maxSize` bytes at most.
unfoldable pub to_int : ℕ → ℕ → List ℕ → ℕ → Outcome ℕ
to_int width max_size d flags = do
  require_good d
  int ← is_int d
  let failed : Outcome ℕ = if has flags throw_on_fail then throws bad_cast else ok 0
  if not int && not (has flags allow_non_canon) || is_list d || is_null d then failed else do
    body ← payload d
    if ltb max_size (length body) && has flags fail_if_too_big
        then failed
        else ok (from_big_endian width body)

-- `toHash<N>` for a hash of `size` bytes: the content stands at the end, behind zeros.
unfoldable pub to_hash : ℕ → List ℕ → ℕ → Outcome (List ℕ)
to_hash size d flags = do
  require_good d
  body ← payload d
  let l = length body
  let misfit = ltb size l && has flags fail_if_too_big || ltb l size && has flags fail_if_too_small
  if not (is_data d) || misfit
      then (if has flags throw_on_fail then throws bad_cast else ok (replicate size 0))
      else ok (replicate (size - min size l) 0 ++ take (min size l) body)
