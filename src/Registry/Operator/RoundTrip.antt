-- ===== src/Registry/Operator/RoundTrip.antt =====
-- src/agent_agora/registry/core.py: an operator's id and the user's name.
use Prim.Native.String.{◌++◌ as append, [], ◌∷◌, count, len, slice}
use Prim.Native.String.count
use Prim.Native.String.append
use text.Mathlib.TextPositions.{len-append, slice-append_right, starts_with-append}
use text.Mathlib.TextEquality.{starts_with_iff}
use agent_agora.Prelude.{
  String, String, ◌≡◌, ◌+◌, ltb, ap, some, ◌∙◌, arith, ◌∙◌, ◌↔◌, true, if◌then◌else◌, Bool-cases,
  if◌then◌else◌, none, none, inl, sym, refl, inr,
}
use agent_agora.Registry.Operator.{
  is_operator, strip_operator_prefix, operator_id, operator_prefix, operator_id,
}

count-append : (s t : String) → count (append s t) ≡ count s + count t
count-append [] t = ap count (append.nil t) ∙ omega (arith, count.nil)
count-append (c ∷ s) t =
    ap count (append.cons c s t)
    ∙ omega (arith, count-append s t, count.cons c s, count.cons c (append s t))

is_operator-operator_id : (user : String) → is_operator (operator_id user) ≡ ltb 0 (count user)
unfolding is_operator operator_id
is_operator-operator_id user =
    ground (arith, starts_with-append operator_prefix user, count-append operator_prefix user)

slice-operator_id :
    (user : String)
    → slice (append operator_prefix user) (len operator_prefix) (len (append operator_prefix user))
      ≡ user
slice-operator_id user =
    ap (slice (append operator_prefix user) (len operator_prefix)) (len-append operator_prefix user)
    ∙ slice-append_right operator_prefix user

is_operator-prefix :
    (iid : String) → is_operator iid ≡ true → (user : String) × (operator_id user ≡ iid)
unfolding is_operator operator_id
is_operator-prefix iid h = (starts_with_iff iid operator_prefix).0 (ground arith)

strip-operator_id :
    (user : String)
    → strip_operator_prefix (operator_id user) ≡ (if ltb 0 (count user) then some user else none)
unfolding strip_operator_prefix operator_id
strip-operator_id user = rw (is_operator-operator_id user, slice-operator_id user) refl

stripped-prefix :
    (iid user : String)
    → strip_operator_prefix iid ≡ some user
    → (other : String) × (operator_id other ≡ iid)
unfolding strip_operator_prefix
stripped-prefix iid user h = elim (Bool-cases (is_operator iid)) [
  | inl operator ↦ is_operator-prefix iid operator
  | inr other ↦ absurd (let y = rw other at h in cc)
]

-- An id has a user's name exactly if it is the operator id of that name and the name is not empty.
pub strip_operator_prefix-operator_id :
    (iid user : String)
    → (strip_operator_prefix iid ≡ some user)
      ↔ ((operator_id user ≡ iid) × (ltb 0 (count user) ≡ true))
strip_operator_prefix-operator_id iid user = (there, back)
  where
    there :
        strip_operator_prefix iid ≡ some user
        → (operator_id user ≡ iid) × (ltb 0 (count user) ≡ true)
    there h =
        let (other, e) = stripped-prefix iid user h in
        let f : (if ltb 0 (count other) then some other else none) ≡ some user =
          sym (strip-operator_id other) ∙ ap strip_operator_prefix e ∙ h in
        let same : other ≡ user = ground arith in (ap operator_id (sym same) ∙ e, ground arith)

    back :
        (operator_id user ≡ iid) × (ltb 0 (count user) ≡ true)
        → strip_operator_prefix iid ≡ some user
    back h =
        ap strip_operator_prefix (sym h.0)
        ∙ strip-operator_id user
        ∙ ap (λ b. if b then some user else none) h.1
