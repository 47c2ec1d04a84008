-- ===== src/Rlp/View/Totality.antt =====
-- Counting the items of any data ends: every item takes a byte at least.
use web3cpp.Common.{
  ℕ, zero, suc, ◌+◌, ◌-◌, ◌≤◌, ◌≡◌, ◌≢◌, List, [], ◌∷◌, length, get_or, length-drop, arith, ok,
  stuck, bind-ne-stuck, Bool-cases, inl, inr,
}
use web3cpp.Rlp.View.{
  is_list, require_good, long_length, length_of, payload_offset, actual_size, cropped, payload,
  construct, size_as_encoded, items_loop, items,
}

long_length-ne-stuck : (d : List ℕ) (k : ℕ) → long_length d k ≢ stuck
unfolding long_length
long_length-ne-stuck d k h = ground arith

require_good-ne-stuck : (d : List ℕ) → require_good d ≢ stuck
unfolding require_good
require_good-ne-stuck d h = ground arith

length_of-ne-stuck : (d : List ℕ) → length_of d ≢ stuck
unfolding length_of
length_of-ne-stuck d h = ground (
  arith,
  require_good-ne-stuck d,
  long_length-ne-stuck d (get_or d 0 0 - 0xb7),
  long_length-ne-stuck d (get_or d 0 0 - 0xf7),
)

actual_size-pos : (b : ℕ) (bs : List ℕ) (n : ℕ) → actual_size (b ∷ bs) ≡ ok n → 1 ≤ n
unfolding actual_size payload_offset
actual_size-pos b bs n h = ground arith

actual_size-ne-stuck : (d : List ℕ) → actual_size d ≢ stuck
unfolding actual_size
actual_size-ne-stuck d h = ground (arith, length_of-ne-stuck d)

size_as_encoded-ne-stuck : (d : List ℕ) → size_as_encoded d ≢ stuck
unfolding size_as_encoded construct
size_as_encoded-ne-stuck d h = ground (arith, actual_size-ne-stuck d)

size_as_encoded-pos : (b : ℕ) (bs : List ℕ) (n : ℕ) → size_as_encoded (b ∷ bs) ≡ ok n → 1 ≤ n
unfolding size_as_encoded construct
size_as_encoded-pos b bs n h = ground (arith, actual_size-pos b bs n)

length-cropped-le : (n : ℕ) (d : List ℕ) → length (cropped n d) ≤ length d - n
unfolding cropped
length-cropped-le n d = ground (arith, length-drop n d)

items_loop_round :
    (fuel b : ℕ) (bs : List ℕ) (i : ℕ)
    → ((n : ℕ)
        → size_as_encoded (b ∷ bs) ≡ ok n
        → items_loop fuel (cropped n (b ∷ bs)) (i + 1) ≢ stuck)
    → items_loop (suc fuel) (b ∷ bs) i ≢ stuck
unfolding items_loop
items_loop_round fuel b bs i k =
    bind-ne-stuck (size_as_encoded (b ∷ bs)) _ (size_as_encoded-ne-stuck (b ∷ bs)) k

items_loop-ne-stuck :
    (fuel : ℕ) (d : List ℕ) (i : ℕ) → length d ≤ fuel → items_loop fuel d i ≢ stuck
items_loop-ne-stuck fuel [] i h = unfold items_loop in ground arith
items_loop-ne-stuck zero (b ∷ bs) i h = absurd (omega arith)
items_loop-ne-stuck (suc fuel) (b ∷ bs) i h = items_loop_round fuel b bs i (λ n p.
    items_loop-ne-stuck fuel (cropped n (b ∷ bs)) (i + 1)
      (omega (arith, size_as_encoded-pos b bs n p, length-cropped-le n (b ∷ bs))))

payload-ne-stuck : (d : List ℕ) → payload d ≢ stuck
unfolding payload
payload-ne-stuck d h = ground (arith, length_of-ne-stuck d)

-- On any data, well formed or not, the loop of `items` ends, by a count or an exception.
pub items-ne-stuck : (d : List ℕ) → items d ≢ stuck
unfolding items
items-ne-stuck d = elim (Bool-cases (is_list d)) [
  | inl e ↦ rw e (
      bind-ne-stuck (payload d) _ (payload-ne-stuck d)
        (λ body p. items_loop-ne-stuck (length body) body 0 (omega arith)))
  | inr e ↦ rw e (λ p. cc)
]
