-- ===== src/Prelude/Sort.antt =====
-- `list.sort(key=…)`: a stable insertion sort by a strict order, and the order of texts.
use Prim.Native.String.{String, compare}
use Prim.Native.String.compare
use text.Mathlib.Text.{is_lt}
use mathlib.Core.Path.{◌≡◌, refl}
use mathlib.Core.Bool.{Bool, true, false, ◌||◌}
use text.Mathlib.Text.{◌==◌}
use agent_agora.Prelude.Lists.{elem}
use mathlib.Core.List.{List, [], ◌∷◌, Perm}
use mathlib.Core.List.Perm
use native.Mathlib.Omega.{arith}
use agent_agora.Prelude.Branches.{if◌then◌else◌}

module _ {ℓ} {A : Type ℓ} (lt : A → A → Bool) where
  unfoldable pub insert_by : A → List A → List A
  insert_by x [] = x ∷ []
  insert_by x (y ∷ ys) = if lt y x then y ∷ insert_by x ys else x ∷ y ∷ ys

  unfoldable pub sort_by : List A → List A
  unfolding insert_by
  sort_by [] = []
  sort_by (x ∷ xs) = insert_by x (sort_by xs)

  -- No element stands right behind one that it is less than.
  abbrev pub IsSorted : List A → Type 0
  IsSorted [] = Unit
  IsSorted (x ∷ []) = Unit
  IsSorted (x ∷ y ∷ l) = (lt y x ≡ false) × IsSorted (y ∷ l)

  insert_by-perm : (x : A) (xs : List A) → Perm (insert_by x xs) (x ∷ xs)
  unfolding insert_by
  insert_by-perm x [] = Perm.refl (x ∷ [])
  insert_by-perm x (y ∷ ys) =
      elim (lt y x) as (λ b. Perm (if b then y ∷ insert_by x ys else x ∷ y ∷ ys) (x ∷ y ∷ ys)) [
        | true ↦ Perm.trans (Perm.cons y (insert_by-perm x ys)) (Perm.swap x y ys)
        | false ↦ Perm.refl (x ∷ y ∷ ys)
      ]

  -- Sorting loses and adds nothing.
  pub sort_by-perm : (xs : List A) → Perm (sort_by xs) xs
  unfolding sort_by
  sort_by-perm [] = Perm.refl []
  sort_by-perm (x ∷ xs) = Perm.trans (insert_by-perm x (sort_by xs)) (Perm.cons x (sort_by-perm xs))

  module _ (asym : (a b : A) → lt a b ≡ true → lt b a ≡ false) where
    insert_by-IsSorted : (x : A) (xs : List A) → IsSorted xs → IsSorted (insert_by x xs)
    unfolding insert_by
    insert_by-IsSorted x [] s = tt
    insert_by-IsSorted x (y ∷ []) s = ground (arith, asym y x)
    insert_by-IsSorted x (y ∷ z ∷ l) s = ground (arith, asym y x, insert_by-IsSorted x (z ∷ l))

    pub sort_by-IsSorted : (xs : List A) → IsSorted (sort_by xs)
    unfolding sort_by
    sort_by-IsSorted [] = tt
    sort_by-IsSorted (x ∷ xs) = insert_by-IsSorted x (sort_by xs) (sort_by-IsSorted xs)

-- Python's `<` on texts: by the characters' numbers.
abbrev pub str_lt : String → String → Bool
str_lt s t = is_lt (compare s t)

pub str_lt_asym : (s t : String) → str_lt s t ≡ true → str_lt t s ≡ false
str_lt_asym String.[] String.[] h = refl
str_lt_asym String.[] (String.◌∷◌ d t) h = rw compare.cons-nil
str_lt_asym (String.◌∷◌ c s) String.[] h =
    ground (arith, compare.cons-nil c s, compare.nil-cons c s)
str_lt_asym (String.◌∷◌ c s) (String.◌∷◌ d t) h =
    ground (arith, compare.cons-cons c d s t, compare.cons-cons d c t s, str_lt_asym s t)

elem-insert_by :
    (lt : String → String → Bool) (k j : String) (ks : List String)
    → elem k (insert_by lt j ks) ≡ (j == k || elem k ks)
unfolding insert_by
elem-insert_by lt k j [] = refl
elem-insert_by lt k j (i ∷ ks) = ground (arith, elem-insert_by lt k j ks)

pub elem-sort_by :
    (lt : String → String → Bool) (k : String) (ks : List String)
    → elem k (sort_by lt ks) ≡ elem k ks
unfolding sort_by
elem-sort_by lt k [] = refl
elem-sort_by lt k (j ∷ js) =
    ground (arith, elem-insert_by lt k j (sort_by lt js), elem-sort_by lt k js)
