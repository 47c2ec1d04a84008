-- ===== src/Web/Rpc/Work.antt =====
-- `eth_submitWork` and `eth_submitHashrate` of src/RPC.cpp.
use web3cpp.Common.{ℕ, true, not, ◌||◌, List, [], ◌∷◌, if◌then◌else◌, Outcome, ok}
use web3cpp.Common.Bytes.{codes}
use web3cpp.Web.Errors.{ErrorState}
use web3cpp.Web.Platform.{Platform}
use web3cpp.Web.Rpc.{check_hex_data, check_hex_length, build_json, reply}

-- The length of the nonce is checked twice, and that of the digest never.
unfoldable pub work_code : List ℕ → List ℕ → List ℕ → ℕ
work_code nonce pow_hash digest =
    if not (check_hex_data nonce true)
      || not (check_hex_data pow_hash true)
      || not (check_hex_data digest true)
    then 4
    else if not (check_hex_length nonce 8)
        || not (check_hex_length pow_hash 32)
        || not (check_hex_length nonce 32)
    then 6
    else 0

unfoldable pub hashrate_code : List ℕ → List ℕ → ℕ
hashrate_code hashrate id =
    if not (check_hex_data hashrate true) || not (check_hex_data id true)
    then 4
    else if not (check_hex_length hashrate 32) || not (check_hex_length id 32)
    then 6
    else 0

module _ (p : Platform) where
  unfoldable pub eth_submit_work :
      List ℕ → List ℕ → List ℕ → ErrorState → Outcome (p.Json × ErrorState)
  eth_submit_work nonce pow_hash digest err = ok (
      reply p err (work_code nonce pow_hash digest) (
        build_json p (codes "eth_submitWork")
          (p.braces (p.text nonce ∷ p.text pow_hash ∷ p.text digest ∷ []))))

  unfoldable pub eth_submit_hashrate : List ℕ → List ℕ → ErrorState → Outcome (p.Json × ErrorState)
  eth_submit_hashrate hashrate id err = ok (
      reply p err (hashrate_code hashrate id)
        (build_json p (codes "eth_submitHashrate") (p.braces (p.text hashrate ∷ p.text id ∷ []))))
