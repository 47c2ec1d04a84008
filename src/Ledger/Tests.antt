-- ===== src/Ledger/Tests.antt =====
-- Runs of the framing for the device on concrete messages.
use web3cpp.Common.{
  ℕ, ◌-◌, ◌≡◌, refl, List, [], ◌∷◌, ◌++◌, take, drop, replicate, Outcome, ok, undefined, ◌>>=◌,
  arith,
}
use web3cpp.Common.Bytes.{codes}
use web3cpp.Ledger.Path.{
  parse_path, path_loop, push_index, add_hardened, take_character, strip_root, index_bytes,
  four_bytes,
}
use web3cpp.Ledger.Frames.{encode_sign, encode_personal}
use web3cpp.Ledger.Frames.Received.{receive}
use web3cpp.Ledger.Frames.Sent.{
  personal_header, repeated, receive-encode_sign, receive-encode_personal,
}

-- Numbers of one digit.
abbrev read_digit : List ℕ → Outcome ℕ
read_digit (c ∷ []) = ok (c - b'0')
read_digit cs = undefined

-- 0'/1
abbrev short_path : List ℕ
short_path = 2 ∷ 128 ∷ 0 ∷ 0 ∷ 0 ∷ 0 ∷ 0 ∷ 0 ∷ 1 ∷ []

parse_short : parse_path read_digit (codes "m/0'/1") ≡ ok short_path
unfolding parse_path path_loop push_index add_hardened take_character strip_root index_bytes
    four_bytes
parse_short = refl

-- A path whose first index is not hardened reads a flag that was never set.
parse_plain : parse_path read_digit (codes "m/0/1") ≡ undefined
unfolding parse_path path_loop push_index add_hardened take_character strip_root index_bytes
    four_bytes
parse_plain = refl

-- 200 bytes need two payloads.
abbrev long_message : List ℕ
long_message = replicate 200 7

receive-encode_sign_example :
    (encode_sign short_path long_message >>= λ fs. ok (receive 0 fs))
    ≡ ok (short_path ++ long_message)
receive-encode_sign_example =
    receive-encode_sign short_path long_message (omega arith) (omega arith)

receive-encode_personal_example :
    (encode_personal short_path long_message >>= λ fs. ok (receive 0 fs))
    ≡ ok (
        personal_header short_path long_message
        ++ (take 137 long_message
            ++ repeated (personal_header short_path long_message) (drop 137 long_message)))
receive-encode_personal_example =
    receive-encode_personal short_path long_message (omega arith) (omega arith)
