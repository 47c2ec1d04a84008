-- ===== src/Common/Outcomes.antt =====
-- What a call of the C++ code does: it returns a value, throws, or reads memory that it must not.
use mathlib.Core.Path.{◌≡◌, refl}
use mathlib.Core.Logic.{◌≢◌}
use mathlib.Core.Bool.{Bool, true, false}

-- The exceptions of devcore/Exceptions.h and of the standard library that the modelled code throws.
pub data Exception : Type 0 where
  bad_rlp oversize_rlp undersize_rlp bad_cast rlp_exception bad_hex_character : Exception
  invalid_transaction_format invalid_signature transaction_is_unsigned : Exception
  invalid_argument bad_lexical_cast out_of_range json_error string_thrown : Exception

-- `undefined` is a read or write out of bounds, and `stuck` is no behaviour of the program: the
-- fuel of a modelled loop ran out.
pub data Outcome {ℓ} (A : Type ℓ) : Type ℓ where
  ok : A → Outcome A
  throws : Exception → Outcome A
  undefined : Outcome A
  stuck : Outcome A

infixl 5 ◌>>=◌ ◌>>◌
abbrev pub ◌>>=◌ {ℓ κ} : {A : Type ℓ} {B : Type κ} → Outcome A → (A → Outcome B) → Outcome B
ok a >>= f = f a
throws e >>= f = throws e
undefined >>= f = undefined
stuck >>= f = stuck

abbrev pub ◌>>◌ {ℓ} : {B : Type ℓ} → Outcome (Unit {0}) → Outcome B → Outcome B
m >> k = m >>= λ _. k

-- `if (b) throw e;`
abbrev pub throw_if : Bool → Exception → Outcome (Unit {0})
throw_if true e = throws e
throw_if false e = ok tt

pub bind-eq-ok {ℓ κ} :
    {A : Type ℓ} {B : Type κ} (m : Outcome A) (f : A → Outcome B) {b : B}
    → (m >>= f) ≡ ok b
    → (a : A) × (m ≡ ok a) × (f a ≡ ok b)
bind-eq-ok (ok a) f h = (a, refl, h)
bind-eq-ok (throws e) f h = cc
bind-eq-ok undefined f h = cc
bind-eq-ok stuck f h = cc

pub bind-ne-stuck {ℓ κ} :
    {A : Type ℓ} {B : Type κ} (m : Outcome A) (f : A → Outcome B)
    → m ≢ stuck
    → ((a : A) → m ≡ ok a → f a ≢ stuck)
    → (m >>= f) ≢ stuck
bind-ne-stuck (ok a) f h k = k a refl
bind-ne-stuck (throws e) f h k = λ p. cc
bind-ne-stuck undefined f h k = λ p. cc
bind-ne-stuck stuck f h k = absurd (h refl)

pub bind-ext {ℓ κ} :
    {A : Type ℓ} {B : Type κ} (m : Outcome A) (f g : A → Outcome B)
    → ((a : A) → f a ≡ g a)
    → (m >>= f) ≡ (m >>= g)
bind-ext (ok a) f g h = h a
bind-ext (throws e) f g h = refl
bind-ext undefined f g h = refl
bind-ext stuck f g h = refl

pub bind_assoc {ℓ κ μ} :
    {A : Type ℓ} {B : Type κ} {C : Type μ} (m : Outcome A) (f : A → Outcome B) (k : B → Outcome C)
    → (m >>= f >>= k) ≡ (m >>= λ a. f a >>= k)
bind_assoc (ok a) f k = refl
bind_assoc (throws e) f k = refl
bind_assoc undefined f k = refl
bind_assoc stuck f k = refl

-- Two continuations that agree at what the first part returns.
pub bind-cong {ℓ κ} :
    {A : Type ℓ} {B : Type κ} (m : Outcome A) (f g : A → Outcome B)
    → ((a : A) → m ≡ ok a → f a ≡ g a)
    → (m >>= f) ≡ (m >>= g)
bind-cong (ok a) f g h = h a refl
bind-cong (throws e) f g h = refl
bind-cong undefined f g h = refl
bind-cong stuck f g h = refl
