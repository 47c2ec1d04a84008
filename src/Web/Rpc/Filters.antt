-- ===== src/Web/Rpc/Filters.antt =====
-- `eth_newFilter` and `eth_getLogs` of src/RPC.cpp. They take the options by value and fill in the
-- blocks that are missing; a check gives its code and the options so far.
use web3cpp.Common.{ℕ, zero, suc, true, not, List, [], ◌∷◌, ◌==◌, if◌then◌else◌, Outcome, ok, ◌>>=◌}
use web3cpp.Common.Bytes.{codes}
use web3cpp.Web.Errors.{ErrorState}
use web3cpp.Web.Platform.{Platform}
use web3cpp.Web.Rpc.{
  check_hex_data, check_hex_length, check_default_block, check_address, build_json, reply,
}

module _ (p : Platform) where
  -- A missing block becomes "latest"; one that is there is checked.
  unfoldable pub block_option : p.Json → List ℕ → Outcome (ℕ × p.Json)
  block_option o key =
      if not (p.contains o key)
      then (p.put o key (p.text (codes "latest")) >>= λ o'. ok (0, o'))
      else (do
        v ← p.at_or_null o key
        s ← p.get_string v
        ok (if not (check_default_block s) then 9 else 0, o))

  unfoldable pub addresses_code : List p.Json → Outcome ℕ
  addresses_code [] = ok 0
  addresses_code (a ∷ as_) =
      let rest = addresses_code as_ in
      do s ← p.get_string a; good ← check_address p s; if not good then ok 5 else rest

  unfoldable pub topics_code : List p.Json → Outcome ℕ
  topics_code [] = ok 0
  topics_code (t ∷ ts) =
      let rest = topics_code ts in
      do s ← p.get_string t; if not (check_hex_data s true) then ok 4 else rest

  -- One address, a list of addresses, or any other value unchecked.
  unfoldable pub address_option : p.Json → Outcome ℕ
  address_option o = if not (p.contains o (codes "address")) then ok 0 else (do
    v ← p.at_or_null o (codes "address")
    if p.is_string v
        then (do s ← p.get_string v; good ← check_address p s; if not good then ok 5 else ok 0)
        else if p.is_array v
        then addresses_code (p.elements v)
        else ok 0)

  unfoldable pub topics_option : p.Json → Outcome ℕ
  topics_option o =
      if not (p.contains o (codes "topics"))
      then ok 0
      else (p.at_or_null o (codes "topics") >>= λ v. topics_code (p.elements v))

  unfoldable pub blockhash_option : p.Json → Outcome ℕ
  blockhash_option o = if not (p.contains o (codes "blockhash")) then ok 0 else (do
    v ← p.at_or_null o (codes "blockhash")
    s ← p.get_string v
    ok (if not (check_hex_data s true) then 4 else if not (check_hex_length s 32) then 6 else 0))

  -- The next check, unless a code is set.
  unfoldable pub unless_code : ℕ → Outcome ℕ → Outcome ℕ
  unless_code zero next = next
  unless_code (suc code) next = ok (suc code)

  -- The checks that the two requests share.
  unfoldable pub filter_code : p.Json → Outcome (ℕ × p.Json)
  filter_code o = block_option o (codes "fromBlock") >>= λ (code, o1).
      if not (code == 0)
      then ok (code, o1)
      else (block_option o1 (codes "toBlock") >>= λ (code', o2). do
        addresses ← unless_code code' (address_option o2)
        topics ← unless_code addresses (topics_option o2)
        ok (topics, o2))

  unfoldable pub logs_code : p.Json → Outcome (ℕ × p.Json)
  logs_code o = filter_code o >>= λ (code, o').
      unless_code code (blockhash_option o') >>= λ last. ok (last, o')

  unfoldable pub eth_new_filter : p.Json → ErrorState → Outcome (p.Json × ErrorState)
  eth_new_filter o err = filter_code o >>= λ (code, o').
      ok (reply p err code (build_json p (codes "eth_newFilter") (p.braces (o' ∷ []))))

  unfoldable pub eth_get_logs : p.Json → ErrorState → Outcome (p.Json × ErrorState)
  eth_get_logs o err = logs_code o >>= λ (code, o').
      ok (reply p err code (build_json p (codes "eth_getLogs") (p.braces (o' ∷ []))))
