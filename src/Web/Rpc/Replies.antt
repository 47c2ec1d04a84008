-- ===== src/Web/Rpc/Replies.antt =====
-- What a request leaves in the error object, from the code that its checks gave.
use web3cpp.Common.{
  ℕ, zero, suc, ◌≤◌, ◌≡◌, refl, sym, ap, ◌⊎◌, inl, inr, false, List, ◌==◌, Outcome, ok, ◌>>=◌,
  arith, bind-eq-ok,
}
use web3cpp.Web.Errors.{ErrorState, fresh, get_code, set_code, set_code_known}
use web3cpp.Web.Platform.{Platform}
use web3cpp.Web.Rpc.{reply}
use web3cpp.Web.Rpc.State.{account_code, storage_code, sign_code}
use web3cpp.Web.Rpc.Blocks.{data_code, hash_code, hash_index_code, number_index_code}
use web3cpp.Web.Rpc.Objects.{transaction_code, estimate_code, call_code}
use web3cpp.Web.Rpc.Work.{work_code, hashrate_code}

-- Invalid hex data, invalid address, invalid hash length or invalid block number.
abbrev pub IsRefusal : ℕ → Type 0
IsRefusal c = (c ≡ 4) ⊎ (c ≡ 5) ⊎ (c ≡ 6) ⊎ (c ≡ 9)

abbrev pub IsCheck : ℕ → Type 0
IsCheck c = (c ≡ 0) ⊎ IsRefusal c

pub data_code-IsCheck : (s : List ℕ) → IsCheck (data_code s)
unfolding data_code
data_code-IsCheck s = ground arith

pub hash_code-IsCheck : (s : List ℕ) → IsCheck (hash_code s)
unfolding hash_code
hash_code-IsCheck s = ground arith

pub hash_index_code-IsCheck : (s i : List ℕ) → IsCheck (hash_index_code s i)
unfolding hash_index_code
hash_index_code-IsCheck s i = ground arith

pub number_index_code-IsCheck : (s i : List ℕ) → IsCheck (number_index_code s i)
unfolding number_index_code
number_index_code-IsCheck s i = ground arith

pub work_code-IsCheck : (n h d : List ℕ) → IsCheck (work_code n h d)
unfolding work_code
work_code-IsCheck n h d = ground arith

pub hashrate_code-IsCheck : (h i : List ℕ) → IsCheck (hashrate_code h i)
unfolding hashrate_code
hashrate_code-IsCheck h i = ground arith

module _ (p : Platform) where
  -- The request with code 0, or the empty object with one of the errors.
  abbrev pub Answers : p.Json → p.Json → ErrorState → Type 0
  Answers request j e =
      ((j ≡ request) × (get_code e ≡ 0)) ⊎ ((j ≡ p.empty_object) × IsRefusal (get_code e))

  pub reply_zero : (request : p.Json) → reply p fresh 0 request ≡ (request, set_code fresh 0)
  unfolding reply
  reply_zero request = rw (set_code_known 0 (omega arith)) refl

  pub reply_error :
      (code : ℕ) (request : p.Json)
      → code ≤ 34
      → reply p fresh (suc code) request ≡ (p.empty_object, set_code fresh (suc code))
  unfolding reply
  reply_error code request h =
      let nz : (suc code == 0) ≡ false = ground arith in
      rw (set_code_known (suc code) (omega arith)) (rw nz refl)

  reply-refused :
      (code : ℕ) (request : p.Json)
      → IsRefusal code
      → ((reply p fresh code request).0 ≡ p.empty_object)
        × IsRefusal (get_code (reply p fresh code request).1)
  reply-refused zero request r = absurd (omega (arith, r))
  reply-refused (suc code) request r =
      rw (reply_error code request (omega (arith, r)))
        (refl, rw (set_code_known (suc code) (omega (arith, r))) r)

  reply-Answers :
      (code : ℕ) (request : p.Json)
      → IsCheck code
      → Answers request (reply p fresh code request).0 (reply p fresh code request).1
  reply-Answers code request (inl z) =
      rw z (rw (reply_zero request) (inl (refl, set_code_known 0 (omega arith))))
  reply-Answers code request (inr r) = inr (reply-refused code request r)

  -- A request that checks its arguments by `checks`.
  pub checked-Answers :
      (checks : Outcome ℕ) (request : p.Json) {j : p.Json} {e : ErrorState}
      → ((c : ℕ) → checks ≡ ok c → IsCheck c)
      → (checks >>= λ code. ok (reply p fresh code request)) ≡ ok (j, e)
      → Answers request j e
  checked-Answers checks request {j} {e} good h =
      let (c, hc, hr) = bind-eq-ok checks (λ code. ok (reply p fresh code request)) h in
      let both : reply p fresh c request ≡ (j, e) = cc in
      let at_c = reply-Answers c request (good c hc) in
      let as_j : j ≡ (reply p fresh c request).0 = ap (λ x. x.0) (sym both) in
      let as_e : e ≡ (reply p fresh c request).1 = ap (λ x. x.1) (sym both) in
      rw as_j (rw as_e at_c)

  pub account_code-IsCheck : (a b : List ℕ) (c : ℕ) → account_code p a b ≡ ok c → IsCheck c
  unfolding account_code
  account_code-IsCheck a b c h = ground (arith, h)

  pub storage_code-IsCheck : (a s b : List ℕ) (c : ℕ) → storage_code p a s b ≡ ok c → IsCheck c
  unfolding storage_code
  storage_code-IsCheck a s b c h = ground (arith, h)

  pub sign_code-IsCheck : (a d : List ℕ) (c : ℕ) → sign_code p a d ≡ ok c → IsCheck c
  unfolding sign_code
  sign_code-IsCheck a d c h = ground (arith, h)

  pub transaction_code-IsCheck : (tx : p.Json) (c : ℕ) → transaction_code p tx ≡ ok c → IsCheck c
  unfolding transaction_code
  transaction_code-IsCheck tx c h = ground (arith, h)

  pub estimate_code-IsCheck : (o : p.Json) (c : ℕ) → estimate_code p o ≡ ok c → IsCheck c
  unfolding estimate_code
  estimate_code-IsCheck o c h = ground (arith, h)

  pub call_code-IsCheck : (o : p.Json) (b : List ℕ) (c : ℕ) → call_code p o b ≡ ok c → IsCheck c
  unfolding call_code
  call_code-IsCheck o b c h = ground (arith, h)

  -- The same where the checks never pass.
  pub checked-refused :
      (checks : Outcome ℕ) (request : p.Json) {j : p.Json} {e : ErrorState}
      → ((c : ℕ) → checks ≡ ok c → IsRefusal c)
      → (checks >>= λ code. ok (reply p fresh code request)) ≡ ok (j, e)
      → (j ≡ p.empty_object) × IsRefusal (get_code e)
  checked-refused checks request {j} {e} bad h =
      let (c, hc, hr) = bind-eq-ok checks (λ code. ok (reply p fresh code request)) h in
      let both : reply p fresh c request ≡ (j, e) = cc in
      let as_j : j ≡ (reply p fresh c request).0 = ap (λ x. x.0) (sym both) in
      let as_e : e ≡ (reply p fresh c request).1 = ap (λ x. x.1) (sym both) in
      rw as_j (rw as_e (reply-refused c request (bad c hc)))
