-- ===== src/EthCore/Curve/LowS.antt =====
-- Signatures are made with the smaller value of `s`.
use web3cpp.Common.{ℕ, ◌/◌, ◌≤◌, List, inl, inr, Option-cases, arith}
use web3cpp.EthCore.Curve.{Signature, Curve, CurveLaws, curve_order, lower, sign}

lower_low : (sig : Signature) → sig.s ≤ curve_order → (lower sig).s ≤ curve_order / 2
unfolding lower
lower_low sig h = ground arith

-- A signature that `sign` made has `s` at most half the order of the curve, if the library's is below
-- the order.
pub sign-low :
    (curve : Curve) (key hash : List ℕ)
    → CurveLaws curve
    → (sign curve key hash).s ≤ curve_order / 2
unfolding sign
sign-low curve key hash laws = elim (Option-cases (curve.sign_recoverable key hash)) [
  | inl e ↦ rw (sign, e) (omega arith)
  | inr (sig, e) ↦ rw (sign, e) (lower_low sig (omega (arith, laws.s_below_order key hash sig e)))
]
