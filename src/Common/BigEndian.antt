-- ===== src/Common/BigEndian.antt =====
-- Big-endian byte strings: `bytesRequired`, `toBigEndian`, `fromBigEndian` and `toCompactBigEndian`
-- of include/web3cpp/devcore/CommonData.h. `_val & 0xff` is `% 256`, `>>= 8` is `/ 256`, and
-- `(ret << 8) | b` is a sum, since the shift leaves the low eight bits at zero.
pub mod Digits
pub mod Write
use Prim.Native.Nat.{ℕ, zero, suc, ◌+◌, ◌*◌, ◌/◌, ◌%◌, ◌^◌, max}
use mathlib.Core.List.{List, [], ◌∷◌, foldl}
use web3cpp.Common.Tests.{◌==◌, if◌then◌else◌}
use web3cpp.Common.Lists.{length, set, replicate}

-- `for (; _i != 0; ++i, _i >>= 8) {}`. A value `v` takes at most `v` rounds.
bytes_required_loop : ℕ → ℕ → ℕ → ℕ
bytes_required_loop zero v i = i
bytes_required_loop (suc fuel) v i =
    let rest = bytes_required_loop fuel (v / 256) (i + 1) in if v == 0 then i else rest

unfoldable pub bytes_required : ℕ → ℕ
unfolding bytes_required_loop
bytes_required v = bytes_required_loop v v 0

-- `for (auto i = o_out.size(); i != 0; _val >>= 8, i--) o_out[i - 1] = _val & 0xff;`
to_big_endian_loop : ℕ → ℕ → List ℕ → List ℕ
to_big_endian_loop zero v out = out
to_big_endian_loop (suc i) v out = to_big_endian_loop i (v / 256) (set out i (v % 256))

-- The value and the collection that is overwritten.
unfoldable pub to_big_endian : ℕ → List ℕ → List ℕ
unfolding to_big_endian_loop
to_big_endian v out = to_big_endian_loop (length out) v out

abbrev shift_in : ℕ → ℕ → ℕ → ℕ
shift_in width r b = (r * 256 + b) % 2 ^ width

-- `fromBigEndian<T>` for an unsigned type of `width` bits.
unfoldable pub from_big_endian : ℕ → List ℕ → ℕ
from_big_endian width = foldl (shift_in width) 0

-- The loop that counts `i` is the one of `bytesRequired`.
unfoldable pub to_compact_big_endian : ℕ → ℕ → List ℕ
to_compact_big_endian v min_size = to_big_endian v (replicate (max min_size (bytes_required v)) 0)
