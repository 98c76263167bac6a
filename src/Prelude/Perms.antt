-- ===== src/Prelude/Perms.antt =====
-- Comprehensions and orders of a list.
use mathlib.Core.Path.{◌≡◌, refl}
use mathlib.Core.Bool.{Bool}
use mathlib.Core.Logic.{inl, inr}
use mathlib.Core.Option.{Option, none, some}
use mathlib.Core.List.{List, [], ◌∷◌, Perm, filter_map}
use mathlib.Core.List.Perm
use agent_agora.Prelude.Branches.{if◌then◌else◌, Bool-cases}
use agent_agora.Prelude.Lists.{keep}

module _ {ℓ} {A : Type ℓ} (p : A → Bool) where
  abbrev kept : A → Option A
  kept x = if p x then some x else none

  keep-filter_map : (l : List A) → keep p l ≡ filter_map kept l
  unfolding filter_map
  keep-filter_map [] = refl
  keep-filter_map (x ∷ xs) = elim (Bool-cases (p x)) [
    | inl passes ↦ rw (passes, keep-filter_map xs) refl
    | inr fails ↦ rw (fails, keep-filter_map xs) refl
  ]

  -- A comprehension of the same elements in another order.
  pub Perm-keep : {l k : List A} → Perm l k → Perm (keep p l) (keep p k)
  Perm-keep {l} {k} h = rw (keep-filter_map l, keep-filter_map k) (Perm.filter_map kept h)
