-- ===== src/DevCore/Nibbles/HexPrefix.antt =====
-- The three overloads of `hexPrefixEncode` (src/devcore/TrieCommon.cpp). An `int` is its 32-bit word:
-- the negative ones are from 2 ^ 31 on.
use web3cpp.Common.{
  ℕ, zero, suc, ◌+◌, ◌-◌, ◌*◌, ◌%◌, ◌^◌, Bool, true, false, List, [], ◌∷◌, ◌++◌, ltb, leb, ◌==◌,
  if◌then◌else◌, length, bit_or, Outcome, ok, stuck, ◌>>=◌,
}
use web3cpp.DevCore.Nibbles.{read, nibble}

-- `((_leaf ? 2 : 0) | (odd ? 1 : 0)) * 16`
abbrev pub flags : Bool → Bool → ℕ
flags leaf odd = (if leaf then 32 else 0) + (if odd then 16 else 0)

-- `end - begin` of two `unsigned`.
unfoldable pub distance : ℕ → ℕ → ℕ
distance begin end_ = (end_ + 2 ^ 32 - begin) % 2 ^ 32

-- Two nibbles to a byte, from `i` to `end`.
unfoldable pub hex_prefix_loop : ℕ → List ℕ → ℕ → ℕ → List ℕ → Outcome (List ℕ)
hex_prefix_loop zero v i end_ ret = if ltb i end_ then stuck else ok ret
hex_prefix_loop (suc fuel) v i end_ ret =
    if ltb i end_
    then (read v i >>= λ h. read v (i + 1) >>= λ l.
        hex_prefix_loop fuel v (i + 2) end_ (ret ++ (h * 16 + l) % 256 ∷ []))
    else ok ret

-- `_end < 0 ? _hexVector.size() + 1 + _end : _end`
unfoldable pub end_of : ℕ → ℕ → ℕ
end_of n end_ = if leb (2 ^ 31) end_ then (n + 1 + end_) % 2 ^ 32 else end_

-- `hexPrefixEncode(_hexVector, _leaf, _begin, _end)`
unfoldable pub hex_prefix_encode : List ℕ → Bool → ℕ → ℕ → Outcome (List ℕ)
hex_prefix_encode v leaf begin end_arg =
    let end_ = end_of (length v) end_arg in
    if distance begin end_ % 2 == 1
    then (read v begin >>= λ n.
        hex_prefix_loop end_ v (begin + 1) end_ (bit_or (flags leaf true) n % 256 ∷ []))
    else hex_prefix_loop end_ v begin end_ (flags leaf false ∷ [])

-- `ret.back() |= n`
abbrev pub or_back : List ℕ → ℕ → List ℕ
or_back [] n = []
or_back (b ∷ []) n = bit_or b n ∷ []
or_back (b ∷ c ∷ bs) n = b ∷ or_back (c ∷ bs) n

-- A nibble goes onto the back, or it starts a byte.
unfoldable pub push_nibble : ℕ → ℕ → List ℕ → List ℕ
push_nibble d n ret = if d % 2 == 1 then or_back ret n else ret ++ n * 16 % 256 ∷ []

unfoldable pub nibbles_loop : ℕ → List ℕ → ℕ → ℕ → ℕ → List ℕ → Outcome (ℕ × List ℕ)
nibbles_loop zero bs i end_ d ret = if ltb i end_ then stuck else ok (d, ret)
nibbles_loop (suc fuel) bs i end_ d ret =
    if ltb i end_
    then (nibble bs i >>= λ n. nibbles_loop fuel bs (i + 1) end_ (d + 1) (push_nibble d n ret))
    else ok (d, ret)

-- `hexPrefixEncode(_data, _leaf, _beginNibble, _endNibble, _offset)`
unfoldable pub hex_prefix_encode_range : List ℕ → Bool → ℕ → ℕ → ℕ → Outcome (List ℕ)
hex_prefix_encode_range bs leaf begin_nibble end_nibble offset =
    let begin = (begin_nibble + offset) % 2 ^ 32 in
    let last =
      (if leb (2 ^ 31) end_nibble
        then (length bs * 2 + 2 ^ 32 - offset + 1 + end_nibble) % 2 ^ 32
        else end_nibble) in
    let end_ = (last + offset) % 2 ^ 32 in
    let odd = distance begin end_ % 2 == 1 in
    nibbles_loop end_ bs begin end_ (if odd then 1 else 2) (flags leaf odd ∷ []) >>= λ (d, ret).
    ok ret

-- `hexPrefixEncode(_d1, _o1, _d2, _o2, _leaf)`
unfoldable pub hex_prefix_encode_both : List ℕ → ℕ → List ℕ → ℕ → Bool → Outcome (List ℕ)
hex_prefix_encode_both d1 o1 d2 o2 leaf =
    let end1 = length d1 * 2 % 2 ^ 32 in
    let end2 = length d2 * 2 % 2 ^ 32 in
    let odd = (distance o1 end1 + distance o2 end2) % 2 == 1 in
    nibbles_loop end1 d1 o1 end1 (if odd then 1 else 2) (flags leaf odd ∷ []) >>= λ (d, ret).
    nibbles_loop end2 d2 o2 end2 d ret >>= λ (d', ret'). ok ret'
