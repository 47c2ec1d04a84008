-- ===== src/Ledger/Frames.antt =====
-- The framing of messages: `encodeBip32Message`, `encodePersonalSignMessage` and `encodeSignEthMessage`
-- of src/ledger/encoding.cpp, with the structures of include/web3cpp/ledger/encoding.h. A frame has 65
-- bytes, of which the first is the report id. A message is shorter than 2 ^ 32 bytes, and the host is
-- little-endian.
pub mod Received
pub mod Filled
pub mod Sent
use web3cpp.Common.{
  ℕ, zero, suc, ◌+◌, ◌-◌, ◌*◌, ◌/◌, ◌%◌, ◌^◌, Bool, true, false, not, ◌&&◌, ◌||◌, List, [], ◌∷◌,
  ◌++◌, ltb, leb, ◌==◌, if◌then◌else◌, length, take, drop, replicate, Outcome, ok, undefined, stuck,
  ◌>>=◌,
}
use web3cpp.DevCore.Hex.{to_hex, from_hex}
use web3cpp.EthCore.Transaction.{Transaction, rlp}
use web3cpp.Ledger.Path.{parse_path, four_bytes}

-- `transactionPayload`: what was written of its three arrays. An array that nothing was written to is
-- empty.
pub record Payload : Type 0 where
  pub is_hid_first : Bool
  pub first : List ℕ
  pub second : List ℕ
  pub third : List ℕ

unfoldable pub payload_size : Payload → ℕ
payload_size p = length p.first + length p.second + length p.third

-- A loop over an array of `room` bytes while there is data: first the bytes of the header, then the
-- data. The bytes behind those that are written, and the data that is left.
unfoldable pub fill_array : ℕ → List ℕ → List ℕ → List ℕ → List ℕ × List ℕ
fill_array zero header bytes out = (out, bytes)
fill_array (suc room) header [] out = (out, [])
fill_array (suc room) [] (b ∷ bytes) out = fill_array room [] bytes (out ++ b ∷ [])
fill_array (suc room) (h ∷ header) (b ∷ bytes) out =
    fill_array room header (b ∷ bytes) (out ++ h ∷ [])

-- One round of the loop over the message.
unfoldable pub fill_payload : Bool → List ℕ → List ℕ → Payload × List ℕ
fill_payload hid_first header bytes =
    let (first, rest1) = fill_array 52 (if hid_first then header else []) bytes [] in
    let (second, rest2) = fill_array 59 [] rest1 [] in
    let (third, rest3) = fill_array 39 [] rest2 [] in
    (record { is_hid_first = hid_first; first = first; second = second; third = third }, rest3)

-- `while (index < message.size())`, from an index; `n` is the size of the path. Each round takes a byte
-- at least.
unfoldable pub payloads_loop : ℕ → ℕ → List ℕ → ℕ → List ℕ → Outcome (List Payload)
payloads_loop fuel n header index [] = ok []
payloads_loop zero n header index (b ∷ bytes) = stuck
payloads_loop (suc fuel) n header index (b ∷ bytes) =
    let (payload, rest) = fill_payload (not (leb 150 (index + n))) header (b ∷ bytes) in
    payloads_loop fuel n header (index + (length (b ∷ bytes) - length rest)) rest >>= λ payloads.
    ok (payload ∷ payloads)

-- A frame: the bytes at its front, and zeros.
unfoldable pub to_frame : List ℕ → List ℕ
to_frame bytes = take 65 (bytes ++ replicate 65 0)

-- The frame of the first array: channel, tag, index, length, and the APDU.
unfoldable pub first_frame : ℕ → Payload → List ℕ
first_frame ins p = to_frame (
    0
    ∷ 1
    ∷ 1
    ∷ 5
    ∷ 0
    ∷ 0
    ∷ 0
    ∷ (5 + payload_size p) % 256
    ∷ 0xe0
    ∷ ins
    ∷ (if p.is_hid_first then 0 else 0x80)
    ∷ 0
    ∷ payload_size p % 256
    ∷ take 52 (p.first ++ replicate 52 0))

-- The frame of the second or the third array, of `room` bytes.
unfoldable pub next_frame : ℕ → ℕ → List ℕ → List ℕ
next_frame index room bytes =
    to_frame (0 ∷ 1 ∷ 1 ∷ 5 ∷ 0 ∷ index ∷ take room (bytes ++ replicate room 0))

-- A frame, where something was written.
abbrev pub if_written : List ℕ → List ℕ → List (List ℕ)
if_written [] frame = []
if_written (b ∷ bytes) frame = frame ∷ []

unfoldable pub payload_frames : ℕ → Payload → List (List ℕ)
payload_frames ins p =
    if_written p.first (first_frame ins p)
    ++ (if_written p.second (next_frame 1 59 p.second)
        ++ if_written p.third (next_frame 2 39 p.third))

unfoldable pub frames : ℕ → List Payload → List (List ℕ)
frames ins [] = []
frames ins (p ∷ ps) = payload_frames ins p ++ frames ins ps

-- The second halves of `encodeSignEthMessage` and `encodePersonalSignMessage` from the path and the
-- message on.
unfoldable pub encode_sign : List ℕ → List ℕ → Outcome (List (List ℕ))
encode_sign bip32 bytes =
    payloads_loop (length bytes) (length bip32) bip32 0 bytes >>= λ ps. ok (frames 4 ps)

unfoldable pub encode_personal : List ℕ → List ℕ → Outcome (List (List ℕ))
encode_personal bip32 bytes =
    payloads_loop (length bytes) (length bip32) (bip32 ++ four_bytes (length bytes % 2 ^ 32)) 0
      bytes
    >>= λ ps. ok (frames 8 ps)

module _ (read_u32 : List ℕ → Outcome ℕ) where
  -- `encodeSignEthMessage`
  unfoldable pub encode_sign_eth_message : Transaction → List ℕ → Outcome (List (List ℕ))
  encode_sign_eth_message tb address_path =
      parse_path read_u32 address_path >>= λ bip32. rlp tb false >>= encode_sign bip32

  -- `encodePersonalSignMessage`
  unfoldable pub encode_personal_sign_message : List ℕ → List ℕ → Outcome (List (List ℕ))
  encode_personal_sign_message message address_path = parse_path read_u32 address_path >>= λ bip32.
      from_hex (to_hex message) false >>= encode_personal bip32

  -- The loop `for (size_t i = 0; i <= bufferVector.size(); ++i)` reads one byte behind the vector.
  unfoldable pub copy_inclusive : List ℕ → Outcome (List ℕ)
  copy_inclusive [] = undefined
  copy_inclusive (b ∷ bytes) = copy_inclusive bytes >>= λ rest. ok (b ∷ rest)

  -- `encodeBip32Message`
  unfoldable pub encode_bip32_message : List ℕ → Outcome (List (List ℕ))
  encode_bip32_message path = parse_path read_u32 path >>= λ payload.
      copy_inclusive (
        0
        ∷ 1
        ∷ 1
        ∷ 5
        ∷ 0
        ∷ 0
        ∷ 0
        ∷ (5 + length payload) % 256
        ∷ 0xe0
        ∷ 2
        ∷ 0
        ∷ 0
        ∷ length payload % 256
        ∷ payload)
      >>= λ buffer. ok (to_frame buffer ∷ [])
