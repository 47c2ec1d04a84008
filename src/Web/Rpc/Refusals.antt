-- ===== src/Web/Rpc/Refusals.antt =====
-- Requests that are refused whatever their arguments: `eth_submitWork`, and the overloads of
-- src/RPC.cpp that take a number.
use web3cpp.Common.{ℕ, ◌≡◌, ◌⊎◌, inl, inr, refl, ap, true, false, List, [], ◌∷◌, all, ok, arith}
use web3cpp.Common.Bytes.{codes}
use web3cpp.Web.Errors.{fresh, set_code}
use web3cpp.Web.Platform.{Platform}
use web3cpp.Web.Texts.{same, has_prefix, is_digit}
use web3cpp.Web.Utils.{is_hex_strict}
use web3cpp.Web.Rpc.{build_json, check_hex_length, check_default_block}
use web3cpp.Web.Rpc.Work.{work_code, eth_submit_work}
use web3cpp.Web.Rpc.Replies.{reply_error}

-- No nonce has both lengths.
work_code-refused :
    (nonce pow_hash digest : List ℕ)
    → (work_code nonce pow_hash digest ≡ 4) ⊎ (work_code nonce pow_hash digest ≡ 6)
unfolding work_code check_hex_length
work_code-refused nonce pow_hash digest = ground arith

-- A text of digits is no hex text with a prefix.
pub strict_decimal : (s : List ℕ) → all (λ c. is_digit c) s ≡ true → is_hex_strict s ≡ false
unfolding is_hex_strict has_prefix all same
strict_decimal [] h = refl
strict_decimal (a ∷ []) h = ground (arith, h)
strict_decimal (a ∷ b ∷ s) h = ground (arith, h)

pub block_decimal : (s : List ℕ) → all (λ c. is_digit c) s ≡ true → check_default_block s ≡ false
unfolding check_default_block all same
block_decimal [] h = rw (strict_decimal [] h) refl
block_decimal (a ∷ s) h = rw (strict_decimal (a ∷ s) h) (ground (arith, h))

module _ (p : Platform) where
  -- `eth_submitWork` on a fresh error object refuses every work: it never returns a request.
  pub eth_submit_work_refused :
      (nonce pow_hash digest : List ℕ)
      → (eth_submit_work p nonce pow_hash digest fresh ≡ ok (p.empty_object, set_code fresh 4))
        ⊎ (eth_submit_work p nonce pow_hash digest fresh ≡ ok (p.empty_object, set_code fresh 6))
  unfolding eth_submit_work
  eth_submit_work_refused nonce pow_hash digest =
      let request =
        build_json p (codes "eth_submitWork")
          (p.braces (p.text nonce ∷ p.text pow_hash ∷ p.text digest ∷ [])) in
      elim (work_code-refused nonce pow_hash digest) [
        | inl e ↦ inl (rw e (ap ok (reply_error p 3 request (omega arith))))
        | inr e ↦ inr (rw e (ap ok (reply_error p 5 request (omega arith))))
      ]
