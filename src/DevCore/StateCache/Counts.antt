-- ===== src/DevCore/StateCache/Counts.antt =====
-- Reference counts: what `insert`, `kill` and `purge` do to them, and that each key stands once.
use web3cpp.Common.{
  ℕ, ◌+◌, ◌-◌, ◌%◌, ◌^◌, ◌≡◌, refl, sym, ap, ◌∙◌, inl, inr, Bool, true, Option, none, some, List,
  [], ◌∷◌, ltb, ◌==◌, if◌then◌else◌, Bool-cases, Option-cases, arith,
}
use web3cpp.DevCore.StateCache.{
  StateCacheDb, find, put, keep, lookup, exists, insert, kill, remove_aux, insert_aux, purge, clear,
}

module _ {V : Type 0} where
  abbrev pub IsMap : List (ℕ × V) → Type 0
  IsMap [] = Unit
  IsMap ((k, v) ∷ m) = (find k m ≡ none) × IsMap m

  pub find-put :
      (j k : ℕ) (v : V) (m : List (ℕ × V))
      → find k (put j v m) ≡ (if j == k then some v else find k m)
  unfolding find put
  find-put j k v [] = refl
  find-put j k v ((i, w) ∷ m) = ground (arith, find-put j k v m)

  IsMap-put : (k : ℕ) (v : V) (m : List (ℕ × V)) → IsMap m → IsMap (put k v m)
  unfolding put
  IsMap-put k v [] h = (unfold find in refl, tt)
  IsMap-put k v ((i, w) ∷ m) (new, rest) = elim (Bool-cases (i == k)) [
    | inl e ↦ rw e (ap (λ x. find x m) {x = k} {y = i} (ground (arith, e)) ∙ new, rest)
    | inr e ↦ rw e (find-put k i v m ∙ ground (arith, e, new), IsMap-put k v m rest)
  ]

  -- What the loop of `purge` leaves of an entry.
  abbrev pub kept : (V → Bool) → Option V → Option V
  kept p none = none
  kept p (some v) = if p v then some v else none

  find-keep-none :
      (p : V → Bool) (k : ℕ) (m : List (ℕ × V)) → find k m ≡ none → find k (keep p m) ≡ none
  unfolding find keep
  find-keep-none p k [] h = refl
  find-keep-none p k ((i, w) ∷ m) h = ground (arith, h, find-keep-none p k m)

  find-keep :
      (p : V → Bool) (k : ℕ) (m : List (ℕ × V)) → IsMap m → find k (keep p m) ≡ kept p (find k m)
  unfolding find keep
  find-keep p k [] h = refl
  find-keep p k ((i, w) ∷ m) (new, rest) = elim (Bool-cases (i == k)) [
    | inl e ↦
        let same : i ≡ k = ground (arith, e) in
        let gone : find k (keep p m) ≡ none =
          find-keep-none p k m (ap (λ x. find x m) (sym same) ∙ new) in
        ground (arith, e, gone)
    | inr e ↦ ground (arith, e, find-keep p k m rest)
  ]

  IsMap-keep : (p : V → Bool) (m : List (ℕ × V)) → IsMap m → IsMap (keep p m)
  unfolding keep
  IsMap-keep p [] h = tt
  IsMap-keep p ((i, w) ∷ m) (new, rest) = elim (Bool-cases (p w)) [
    | inl e ↦ rw e (find-keep-none p i m new, IsMap-keep p m rest)
    | inr e ↦ rw e (IsMap-keep p m rest)
  ]

abbrev pub count_of : Option (List ℕ × ℕ) → ℕ
count_of none = 0
count_of (some (v, n)) = n

-- The references that a key has.
abbrev pub count : StateCacheDb → ℕ → ℕ
count s k = count_of (find k s.main)

abbrev pub IsValid : StateCacheDb → Type 0
IsValid s = IsMap s.main × IsMap s.aux

equal_key : (s : StateCacheDb) (j k : ℕ) → (j == k) ≡ true → find k s.main ≡ find j s.main
equal_key s j k h = ap (λ x. find x s.main) {x = k} {y = j} (ground (arith, h))

-- `insert` adds a reference to its key, modulo 2 ^ 32; `kill` takes one from its key, unless there is
-- none, and tells whether there was one; no other key changes.
pub count-insert-kill :
    (s : StateCacheDb) (j k : ℕ) (v : List ℕ)
    → (count (insert s j v) k ≡ (if j == k then (count s k + 1) % 2 ^ 32 else count s k))
      × (count (kill s j).0 k ≡ (if j == k then count s k - 1 else count s k))
      × ((kill s j).1 ≡ ltb 0 (count s j))
unfolding insert kill
count-insert-kill s j k v = elim (Option-cases (find j s.main)) [
  | inl e ↦ (
    rw (insert, e) (rw (find-put j k (v, 1) s.main) (ground (arith, e, equal_key s j k))),
    rw (kill, e) (ground (arith, e, equal_key s j k)),
    rw (kill, e) (ground arith),
  )
  | inr ((w, n), e) ↦ (
    rw (insert, e)
        (rw (find-put j k (v, (n + 1) % 2 ^ 32) s.main) (ground (arith, e, equal_key s j k))),
    elim (Bool-cases (ltb 0 n)) [
      | inl pos ↦
          rw (kill, e)
            (rw pos (rw (find-put j k (w, n - 1) s.main) (ground (arith, e, equal_key s j k))))
      | inr zero_ ↦ rw (kill, e) (rw zero_ (ground (arith, e, zero_, equal_key s j k)))
    ],
    rw (kill, e) (ground arith),
  )
]

-- With references enforced, `purge` changes neither the value that a key has nor whether it exists,
-- if each key stands once.
pub lookup-purge :
    (s : StateCacheDb) (k : ℕ)
    → IsValid s
    → s.enforce_refs ≡ true
    → (lookup (purge s) k ≡ lookup s k) × (exists (purge s) k ≡ exists s k)
unfolding lookup exists purge
lookup-purge s k (valid, _) on = elim (Option-cases (find k s.main)) [
  | inl e ↦
      rw (lookup, exists, find-keep (λ x. ltb 0 x.1) k s.main valid)
        (rw (lookup, exists, e) (refl, refl))
  | inr ((v, n), e) ↦
      rw (lookup, exists, find-keep (λ x. ltb 0 x.1) k s.main valid)
        (rw (lookup, exists, e)
          (rw on (elim (Bool-cases (ltb 0 n)) [
            | inl live ↦ ground (arith, live, on)
            | inr dead ↦ ground (arith, dead, on)
          ])))
]

-- Every operation keeps the maps well formed: each key stands once.
pub operations-IsValid :
    (s : StateCacheDb) (k : ℕ) (v : List ℕ)
    → IsValid s
    → IsValid (insert s k v)
      × IsValid (kill s k).0
      × IsValid (remove_aux s k)
      × IsValid (insert_aux s k v)
      × IsValid (purge s)
      × IsValid (clear s)
unfolding insert kill remove_aux insert_aux purge clear
operations-IsValid s k v (main, aux) = (
  (insert_main, aux),
  elim (Option-cases (find k s.main)) [
    | inl e ↦ rw (kill, e) (main, aux)
    | inr ((w, n), e) ↦ elim (Bool-cases (ltb 0 n)) [
      | inl pos ↦ rw (kill, e) (rw pos (IsMap-put k (w, n - 1) s.main main, aux))
      | inr none_left ↦ rw (kill, e) (rw none_left (main, aux))
    ]
  ],
  (main, IsMap-put k _ s.aux aux),
  (main, IsMap-put k (v, true) s.aux aux),
  (IsMap-keep (λ e. ltb 0 e.1) s.main main, IsMap-keep (λ e. e.1) s.aux aux),
  (tt, tt),
)
  where
    insert_main : IsMap (insert s k v).main
    insert_main = elim (Option-cases (find k s.main)) [
      | inl e ↦ rw (insert, e) (IsMap-put k (v, 1) s.main main)
      | inr ((w, n), e) ↦ rw (insert, e) (IsMap-put k (v, (n + 1) % 2 ^ 32) s.main main)
    ]
