-- ===== src/DevCore/StateCache.antt =====
-- `StateCacheDB` (include/web3cpp/devcore/StateCacheDB.h, src/devcore/StateCacheDB.cpp): values by
-- hash with reference counts, and auxiliary values with a flag. A hash map of the standard library
-- is an association list in which a key stands once; its order is not modelled.
pub mod Counts
use mathlib.Core.Logic.{ite}
use web3cpp.Common.{
  ℕ, zero, suc, ◌+◌, ◌-◌, ◌%◌, ◌^◌, ◌≤◌, ◌<◌, ◌≡◌, Bool, true, false, not, ◌&&◌, ◌||◌, Option, none,
  some, List, [], ◌∷◌, ◌++◌, ltb, ◌==◌, if◌then◌else◌,
}

-- A hash is the number that its 32 bytes stand for.
module _ {V : Type 0} where
  unfoldable pub find : ℕ → List (ℕ × V) → Option V
  find k [] = none
  find k ((j, v) ∷ m) = if j == k then some v else find k m

  unfoldable pub put : ℕ → V → List (ℕ × V) → List (ℕ × V)
  put k v [] = (k, v) ∷ []
  put k v ((j, w) ∷ m) = if j == k then (k, v) ∷ m else (j, w) ∷ put k v m

  -- The loop of `purge` over one map: `erase` of the entries that are not kept.
  unfoldable pub keep : (V → Bool) → List (ℕ × V) → List (ℕ × V)
  keep p [] = []
  keep p ((j, v) ∷ m) = let rest = keep p m in if p v then (j, v) ∷ rest else rest

-- The counts are `unsigned`: 32 bits.
pub record StateCacheDb : Type 0 where
  pub main : List (ℕ × (List ℕ × ℕ))
  pub aux : List (ℕ × (List ℕ × Bool))
  pub enforce_refs : Bool

abbrev pub empty : StateCacheDb
empty = record { main = []; aux = []; enforce_refs = false }

unfoldable pub clear : StateCacheDb → StateCacheDb
clear s = record s { main = []; aux = [] }

-- `operator=`: the flag of the target stays.
unfoldable pub assign : StateCacheDb → StateCacheDb → StateCacheDb
assign target source = record target { main = source.main; aux = source.aux }

-- `!m_enforceRefs || count > 0`
abbrev pub is_live : Bool → ℕ → Bool
is_live enforce n = not enforce || ltb 0 n

live_entries : Bool → List (ℕ × (List ℕ × ℕ)) → List (ℕ × List ℕ)
live_entries enforce [] = []
live_entries enforce ((k, (v, n)) ∷ m) =
    let rest = live_entries enforce m in if is_live enforce n then (k, v) ∷ rest else rest

pub get : StateCacheDb → List (ℕ × List ℕ)
get s = live_entries s.enforce_refs s.main

unfoldable pub lookup : StateCacheDb → ℕ → List ℕ
lookup s k = elim (find k s.main) [
  | none ↦ []
  | some (v, n) ↦ if is_live s.enforce_refs n then v else []
]

unfoldable pub exists : StateCacheDb → ℕ → Bool
exists s k = elim (find k s.main) [ none ↦ false | some (v, n) ↦ is_live s.enforce_refs n ]

unfoldable pub insert : StateCacheDb → ℕ → List ℕ → StateCacheDb
insert s k v = record s {
  main = elim (find k s.main) [
    | none ↦ put k (v, 1) s.main
    | some (old, n) ↦ put k (v, (n + 1) % 2 ^ 32) s.main
  ];
}

-- The new state, and whether a reference was dropped.
unfoldable pub kill : StateCacheDb → ℕ → StateCacheDb × Bool
kill s k = elim (find k s.main) [
  | none ↦ (s, false)
  | some (v, n) ↦
      if ltb 0 n then (record s { main = put k (v, n - 1) s.main }, true) else (s, false)
]

unfoldable pub lookup_aux : StateCacheDb → ℕ → List ℕ
lookup_aux s k = elim (find k s.aux) [
  | none ↦ []
  | some (v, kept) ↦ if not s.enforce_refs || kept then v else []
]

-- `m_aux[_h].second = false`, which makes an entry where there is none.
unfoldable pub remove_aux : StateCacheDb → ℕ → StateCacheDb
remove_aux s k = record s {
  aux = put k (elim (find k s.aux) [ none ↦ ([], false) | some (v, kept) ↦ (v, false) ]) s.aux;
}

unfoldable pub insert_aux : StateCacheDb → ℕ → List ℕ → StateCacheDb
insert_aux s k v = record s { aux = put k (v, true) s.aux }

unfoldable pub purge : StateCacheDb → StateCacheDb
purge s = record s { main = keep (λ e. ltb 0 e.1) s.main; aux = keep (λ e. e.1) s.aux }

counted_keys : List (ℕ × (List ℕ × ℕ)) → List ℕ
counted_keys [] = []
counted_keys ((k, (v, n)) ∷ m) = let rest = counted_keys m in if ltb 0 n then k ∷ rest else rest

pub keys : StateCacheDb → List ℕ
keys s = counted_keys s.main

-- `class EnforceRefs`: the flag is set while the guard lives, and is then put back.
unfoldable pub with_enforce_refs {ℓ} :
    {A : Type ℓ} → Bool → (StateCacheDb → StateCacheDb × A) → StateCacheDb → StateCacheDb × A
with_enforce_refs flag body s =
    let (s', a) = body (record s { enforce_refs = flag }) in
    (record s' { enforce_refs = s.enforce_refs }, a)
