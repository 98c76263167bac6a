-- ===== src/Prelude/Windows.antt =====
-- The newest entries of a list, as a buffer of bounded size keeps them.
use Prim.Native.Nat.{ℕ, suc, ◌≤◌}
use mathlib.Core.Path.{◌≡◌, refl}
use mathlib.Core.List.{List, [], ◌∷◌, ◌++◌}
use native.Mathlib.Omega.{arith}
use agent_agora.Prelude.Branches.{if◌then◌else◌, leb}
use agent_agora.Prelude.Lists.{length, length-append, All}

module _ {ℓ} {A : Type ℓ} where
  -- The last `n` entries of a list that is longer.
  abbrev pub newest : ℕ → List A → List A
  newest n [] = []
  newest n (x ∷ xs) = let rest = newest n xs in if leb (suc (length xs)) n then x ∷ xs else rest

module _ {ℓ} {A : Type ℓ} where
  pub length-newest : (n : ℕ) (l : List A) → length (newest n l) ≤ n
  length-newest n [] = omega arith
  length-newest n (x ∷ xs) = ground (arith, length-newest n xs)

  pub newest_short : (n : ℕ) (l : List A) → length l ≤ n → newest n l ≡ l
  newest_short n [] h = refl
  newest_short n (x ∷ xs) h = ground arith

  -- What has left the buffer does not matter later.
  pub newest-append : (n : ℕ) (l k : List A) → newest n (newest n l ++ k) ≡ newest n (l ++ k)
  newest-append n [] k = refl
  newest-append n (x ∷ xs) k = ground (arith, newest-append n xs k, length-append xs k)

  pub All-newest {κ} : (P : A → Type κ) (n : ℕ) (l : List A) → All P l → All P (newest n l)
  All-newest P n [] a = tt
  All-newest P n (x ∷ xs) a = ground (arith, All-newest P n xs a.1)
