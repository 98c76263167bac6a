-- ===== src/Prelude/Lists.antt =====
-- Lists measured by native numbers, and lists of texts as Python uses them.
use Prim.Native.Nat.{ℕ, zero, suc, ◌+◌}
use Prim.Native.String.{String}
use mathlib.Core.Path.{◌≡◌, refl}
use mathlib.Core.Bool.{Bool, true, false, ◌||◌, ◌&&◌, not}
use mathlib.Core.Logic.{◌⊎◌}
use mathlib.Core.List.{List, [], ◌∷◌, ◌++◌}
use native.Mathlib.Omega.{arith}
use text.Mathlib.Text.{◌==◌}
use text.Mathlib.TextEquality.{eq_iff}
use agent_agora.Prelude.Branches.{if◌then◌else◌}

module _ {ℓ} {A : Type ℓ} where
  abbrev pub length : List A → ℕ
  length [] = 0
  length (x ∷ xs) = suc (length xs)

  abbrev pub take : ℕ → List A → List A
  take zero xs = []
  take (suc n) [] = []
  take (suc n) (x ∷ xs) = x ∷ take n xs

  -- A list comprehension with a Boolean test.
  abbrev pub keep : (A → Bool) → List A → List A
  keep p [] = []
  keep p (x ∷ xs) = let rest = keep p xs in if p x then x ∷ rest else rest

  -- `any(…)`
  abbrev pub any : (A → Bool) → List A → Bool
  any p [] = false
  any p (x ∷ xs) = p x || any p xs

  abbrev pub All {κ} : (A → Type κ) → List A → Type κ
  All P [] = Unit
  All P (x ∷ xs) = P x × All P xs

  abbrev pub Any : (A → Type 0) → List A → Type 0
  Any P [] = ⊥
  Any P (x ∷ xs) = P x ⊎ Any P xs

module _ {ℓ} {A : Type ℓ} where
  pub length-append : (xs ys : List A) → length (xs ++ ys) ≡ length xs + length ys
  length-append [] ys = omega arith
  length-append (x ∷ xs) ys = omega (arith, length-append xs ys)

  pub All-append {κ} :
      (Holds : A → Type κ) (front back : List A)
      → All Holds front
      → All Holds back
      → All Holds (front ++ back)
  All-append Holds [] back of_front of_back = of_back
  All-append Holds (first ∷ front) back of_front of_back =
      (of_front.0, All-append Holds front back of_front.1 of_back)

  pub All-imp {κ μ} :
      (P : A → Type κ) (Q : A → Type μ)
      → ((x : A) → P x → Q x)
      → (xs : List A) → All P xs
      → All Q xs
  All-imp P Q f [] h = tt
  All-imp P Q f (x ∷ xs) h = (f x h.0, All-imp P Q f xs h.1)

  pub keep-append : (p : A → Bool) (xs ys : List A) → keep p (xs ++ ys) ≡ keep p xs ++ keep p ys
  keep-append p [] ys = refl
  keep-append p (x ∷ xs) ys = ground (arith, keep-append p xs ys)

  -- What a comprehension keeps passes its test.
  pub All-keep : (p : A → Bool) (xs : List A) → All (λ x. p x ≡ true) (keep p xs)
  All-keep p [] = tt
  All-keep p (x ∷ xs) = ground (arith, All-keep p xs)

-- `k in ks`
abbrev pub elem : String → List String → Bool
elem k [] = false
elem k (j ∷ ks) = (j == k) || elem k ks

-- `s.add(k)` for a set kept in the order of insertion.
abbrev pub add : String → List String → List String
add k ks = if elem k ks then ks else ks ++ k ∷ []

-- `s.discard(k)`
abbrev pub discard : String → List String → List String
discard k = keep (λ j. not (j == k))

pub elem-append : (j : String) (ks ls : List String) → elem j (ks ++ ls) ≡ (elem j ks || elem j ls)
elem-append j [] ls = refl
elem-append j (i ∷ ks) ls = ground (arith, elem-append j ks ls)

pub elem-add : (j k : String) (ks : List String) → elem j (add k ks) ≡ (k == j || elem j ks)
elem-add j k ks = ground (arith, elem-append j ks (k ∷ []), eq_iff k j)

pub elem-discard :
    (j k : String) (ks : List String) → elem j (discard k ks) ≡ (not (k == j) && elem j ks)
elem-discard j k [] = ground arith
elem-discard j k (i ∷ ks) = ground (arith, elem-discard j k ks, eq_iff i k, eq_iff k j, eq_iff i j)

-- A list all of whose elements are elements of another.
pub All-elem :
    (ns all : List String)
    → ((k : String) → elem k ns ≡ true → elem k all ≡ true)
    → All (λ k. elem k all ≡ true) ns
All-elem [] all h = tt
All-elem (n ∷ ns) all h =
    (h n (ground (arith, eq_iff n n)), All-elem ns all (λ k e. h k (ground arith)))

pub All-kept {ℓ κ} :
    {A : Type ℓ} (Holds : A → Type κ) (p : A → Bool) (xs : List A)
    → All Holds xs
    → All Holds (keep p xs)
All-kept Holds p [] h = tt
All-kept Holds p (x ∷ xs) h = ground (arith, All-kept Holds p xs h.1)
