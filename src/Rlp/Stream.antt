-- ===== src/Rlp/Stream.antt =====
-- `RLPStream`: an output buffer and the stack of the lists that are still open, each with the
-- number of items that it waits for and the place in the buffer where it began.
pub mod Store
use web3cpp.Common.{
  ℕ, zero, suc, ◌+◌, ◌-◌, ◌*◌, ◌/◌, ◌%◌, ◌≤◌, ◌<◌, Bool, true, false, List, [], ◌∷◌, ◌++◌, ltb, leb,
  ◌==◌, if◌then◌else◌, length, take, drop, set, replicate, get_or, Outcome, ok, throws,
  rlp_exception, ◌>>=◌, ◌>>◌, throw_if, ◌&&◌,
}
use web3cpp.Common.BigEndian.{bytes_required}
use web3cpp.Rlp.{
  data_imm_len_start, list_start, data_imm_len_count, data_ind_len_zero, list_imm_len_count,
  list_ind_len_zero,
}

-- The head of `list_stack` is its back.
pub record RlpStream : Type 0 where
  pub out : List ℕ
  pub list_stack : List (ℕ × ℕ)

abbrev pub empty : RlpStream
empty = record { out = []; list_stack = [] }

-- `for (; i; i >>= 8) *(b--) = (byte)i;` A value `i` takes at most `i` rounds.
store_loop : ℕ → List ℕ → ℕ → ℕ → List ℕ
store_loop zero xs b i = xs
store_loop (suc fuel) xs b i =
    let rest = store_loop fuel (set xs b (i % 256)) (b - 1) (i / 256) in if i == 0 then xs else rest

-- The loop from the position `b` downwards.
unfoldable pub store_back : List ℕ → ℕ → ℕ → List ℕ
unfolding store_loop
store_back xs b i = store_loop i xs b i

-- `pushInt`: room for `br` bytes, then the bytes of `i` from the back.
unfoldable pub push_int : ℕ → ℕ → List ℕ → List ℕ
push_int i br out = let room = out ++ replicate br 0 in store_back room (length room - 1) i

-- `pushCount`
unfoldable pub push_count : ℕ → ℕ → List ℕ → Outcome (List ℕ)
push_count count base out =
    let br = bytes_required count in
    if ltb 0xff (br + base)
    then throws rlp_exception
    else ok (push_int count br (out ++ (br + base) % 256 ∷ []))

-- `m_out.resize(os + e); memmove(m_out.data() + p + e, m_out.data() + p, os - p);`
unfoldable pub open_gap : List ℕ → ℕ → ℕ → List ℕ
open_gap out p e = take (p + e) (out ++ replicate e 0) ++ drop p out

-- A list that began at `p` is complete: its header is written before its items.
unfoldable pub close_list : List ℕ → ℕ → Outcome (List ℕ)
close_list out p =
    let s = length out - p in
    let brs = bytes_required s in
    let moved = open_gap out p (if ltb s list_imm_len_count then 1 else 1 + brs) in
    if ltb s list_imm_len_count
    then ok (set moved p ((list_start + s) % 256))
    else if leb (list_ind_len_zero + brs) 0xff
    then ok (store_back (set moved p ((list_ind_len_zero + brs) % 256)) (p + brs) s)
    else throws rlp_exception

-- The loop of `noteAppended`: `count` items were appended to the innermost open list.
unfoldable pub note_loop : List (ℕ × ℕ) → ℕ → List ℕ → Outcome RlpStream
note_loop [] count out = ok (record { out = out; list_stack = [] })
note_loop ((first, p) ∷ stack) count out =
    if ltb first count
    then throws rlp_exception
    else if first - count == 0
    then (close_list out p >>= λ closed. note_loop stack 1 closed)
    else ok (record { out = out; list_stack = (first - count, p) ∷ stack })

unfoldable pub note_appended : ℕ → RlpStream → Outcome RlpStream
unfolding note_loop
note_appended count s = if count == 0 then ok s else note_loop s.list_stack count s.out

-- `appendRaw`
unfoldable pub append_raw : List ℕ → ℕ → RlpStream → Outcome RlpStream
append_raw bs count s = note_appended count (record s { out = s.out ++ bs })

-- `appendList(bytesConstRef)`
unfoldable pub append_list_raw : List ℕ → RlpStream → Outcome RlpStream
append_list_raw bs s =
    let header =
      (if ltb (length bs) list_imm_len_count
        then ok (s.out ++ (length bs + list_start) % 256 ∷ [])
        else push_count (length bs) list_ind_len_zero s.out) in
    header >>= λ out. append_raw bs 1 (record s { out = out })

-- `appendList(size_t)`: without items it is the empty list.
unfoldable pub append_list : ℕ → RlpStream → Outcome RlpStream
append_list items s =
    if items == 0
    then append_list_raw [] s
    else ok (record s { list_stack = (items, length s.out) ∷ s.list_stack })

-- The loop over leading zeros of `append(bytesConstRef, bool)`.
unfoldable pub skip_zeros : List ℕ → List ℕ
skip_zeros [] = []
skip_zeros (b ∷ bs) = if b == 0 then skip_zeros bs else b ∷ bs

-- The header and the content of a string.
unfoldable pub data_bytes : List ℕ → List ℕ → Outcome (List ℕ)
data_bytes bs out =
    if length bs == 1 && ltb (get_or bs 0 0) data_imm_len_start
    then ok (out ++ get_or bs 0 0 ∷ [])
    else do
      header ←
          (if ltb (length bs) data_imm_len_count
            then ok (out ++ (length bs + data_imm_len_start) % 256 ∷ [])
            else push_count (length bs) data_ind_len_zero out)
      ok (header ++ bs)

-- `append(bytesConstRef, bool)`. Its `appendRaw(.., 0)` notes no item.
unfoldable pub append_data : List ℕ → Bool → RlpStream → Outcome RlpStream
append_data bs compact s = data_bytes (if compact then skip_zeros bs else bs) s.out >>= λ out.
    note_appended 1 (record s { out = out })

-- The bytes that `append(bigint)` writes.
unfoldable pub int_bytes : ℕ → List ℕ → Outcome (List ℕ)
int_bytes i out =
    let br = bytes_required i in
    let brbr = bytes_required br in
    if i == 0
    then ok (out ++ data_imm_len_start ∷ [])
    else if ltb i data_imm_len_start
    then ok (out ++ i % 256 ∷ [])
    else if ltb br data_imm_len_count
    then ok (push_int i br (out ++ (br + data_imm_len_start) % 256 ∷ []))
    else if ltb 0xff (data_ind_len_zero + brbr)
    then throws rlp_exception
    else ok (push_int i br (push_int br brbr (out ++ (data_ind_len_zero + brbr) % 256 ∷ [])))

-- `append(bigint)` of a number that is not negative.
unfoldable pub append_int : ℕ → RlpStream → Outcome RlpStream
append_int i s = int_bytes i s.out >>= λ out. note_appended 1 (record s { out = out })

-- `out()`: it throws while a list is open.
unfoldable pub finished : RlpStream → Outcome (List ℕ)
finished s = elim s.list_stack [ [] ↦ ok s.out | _ ∷ _ ↦ throws rlp_exception ]
