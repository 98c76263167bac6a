-- ===== src/Schemas/Counting.antt =====
-- src/agent_agora/storage/schemas.py: what the reference counts keep.
use agent_agora.Schemas.{
  SchemaRegistry, add_ref, acquire_ref, SchemaEntry, hold_again, Validator, hold_first,
  register_locked, register, release_left, JsonSchema, JsonSchema, has_msgtype_property, refs_of,
  release_one, release_names, release_holder,
}
use agent_agora.Prelude.{
  String, has_key, has_key, ◌≡◌, ◌≡◌, elem, true, ◌||◌, false, ◌&&◌, lookup, some, [], List, add,
  Option, arith, or_default, Bool-cases, lookup-insert, not, none, ◌∷◌, inl, eq_iff, inr, insert,
  elem-add, lookup-remove, Option-cases, subst, ◌⊎◌, Dict, refl, discard, discard, All, All, keys,
  sym,
}
use agent_agora.Errors.{ok, ok, >>=-eq-ok, raise_if, schema_missing_msgtype, schema_violation}

-- Each schema is permanent or is held by somebody, and has its validator.
unfoldable pub IsCounted : SchemaRegistry → Type 0
IsCounted r =
    (n : String)
    → (has_key n r.entries ≡ (elem n r.permanent || has_key n r.refs))
      × (has_key n r.validators ≡ has_key n r.entries)
      × ((elem n r.permanent && has_key n r.refs) ≡ false)
      × ¬ (lookup n r.refs ≡ some [])

add_some : (k : String) (ks : List String) → ¬ (add k ks ≡ [])
add_some k [] = λ e. ground arith
add_some k (j ∷ ks) = λ e. ground arith

add_ref-IsCounted :
    (n holder : String) (r : SchemaRegistry)
    → has_key n r.entries ≡ true
    → elem n r.permanent ≡ false
    → IsCounted r
    → IsCounted (add_ref n holder r)
unfolding IsCounted add_ref
add_ref-IsCounted n holder r there counted v = λ j.
    let l = add holder (or_default (lookup n r.refs) []) in
    let some_left = add_some holder (or_default (lookup n r.refs) []) in
    let e = lookup-insert n j l r.refs in
    let x = v j in
    (
      ground (arith, eq_iff n j),
      ground (arith),
      ground (arith, eq_iff n j),
      λ h. ground (arith, eq_iff n j),
    )

pub acquire_ref-IsCounted :
    (n holder : String) (r : SchemaRegistry) → IsCounted r → IsCounted (acquire_ref n holder r)
unfolding acquire_ref
acquire_ref-IsCounted n holder r v =
    elim (Bool-cases (not (has_key n r.entries) || elem n r.permanent)) [
      | inl kept ↦ rw kept v
      | inr counted ↦ rw counted (add_ref-IsCounted n holder r (ground arith) (ground arith) v)
    ]

hold_again-IsCounted :
    (n : String) (o : Option String) (r : SchemaRegistry)
    → has_key n r.entries ≡ true
    → IsCounted r
    → IsCounted (hold_again n o r)
hold_again-IsCounted n none r there v = v
hold_again-IsCounted n (some holder) r there v = elim (Bool-cases (elem n r.permanent)) [
  | inl always ↦ rw always v
  | inr counted ↦ rw counted (add_ref-IsCounted n holder r there counted v)
]

hold_first-IsCounted :
    (n : String) (o : Option String) (e : SchemaEntry) (validator : Validator) (r : SchemaRegistry)
    → lookup n r.entries ≡ none
    → IsCounted r
    → IsCounted (
        hold_first n o (record r {
          entries = insert n e r.entries;
          validators = insert n validator r.validators;
        }))
unfolding IsCounted
hold_first-IsCounted n none e validator r absent v = λ j.
    let a = lookup-insert n j e r.entries in
    let b = lookup-insert n j validator r.validators in
    let c = elem-add j n r.permanent in
    let x = v j in
    let y = v n in
    (ground (arith, eq_iff n j), ground (arith, eq_iff n j), ground (arith, eq_iff n j), x.3)
hold_first-IsCounted n (some holder) e validator r absent v = λ j.
    let a = lookup-insert n j e r.entries in
    let b = lookup-insert n j validator r.validators in
    let c = lookup-insert n j (holder ∷ []) r.refs in
    let x = v j in
    let y = v n in
    (
      ground (arith, eq_iff n j),
      ground (arith, eq_iff n j),
      ground (arith, eq_iff n j),
      λ h. ground (arith, eq_iff n j),
    )

register_locked-IsCounted :
    (js : JsonSchema) (e : SchemaEntry) (r r' : SchemaRegistry) (e' : SchemaEntry)
    → register_locked js e (lookup e.name r.entries) r ≡ ok (r', e')
    → IsCounted r
    → IsCounted r'
unfolding register_locked
register_locked-IsCounted js e r r' e' h v = elim (Option-cases (lookup e.name r.entries)) [
  | inl absent ↦
      subst IsCounted (ground arith)
        (hold_first-IsCounted e.name e.registered_by e (js.validator e.body) r absent v)
  | inr (old, there) ↦
      subst IsCounted (ground arith)
        (hold_again-IsCounted e.name e.registered_by r (ground arith) v)
]

-- A registration that succeeds keeps each schema either permanent or held by somebody.
pub register-IsCounted :
    (js : JsonSchema) (e : SchemaEntry) (r r' : SchemaRegistry) (e' : SchemaEntry)
    → register js e r ≡ ok (r', e')
    → IsCounted r
    → IsCounted r'
unfolding register
register-IsCounted js e r r' e' h v =
    let (u1, e1, h1) =
      >>=-eq-ok (raise_if (not (has_msgtype_property e.body)) schema_missing_msgtype) _ h in
    let (u2, e2, h2) = >>=-eq-ok (raise_if (not (js.is_schema e.body)) schema_violation) _ h1 in
    register_locked-IsCounted js e r r' e' h2 v

release_left-IsCounted :
    (n : String) (left : List String) (s : SchemaRegistry × List String)
    → elem n s.0.permanent ≡ false
    → (has_key n s.0.entries ≡ true) ⊎ (left ≡ [])
    → IsCounted s.0
    → IsCounted (release_left n left s).0
unfolding IsCounted
release_left-IsCounted n [] (r, released) counted there v = λ j.
    let a = lookup-remove n j r.entries in
    let b = lookup-remove n j r.validators in
    let c = lookup-remove n j r.refs in
    let x = v j in
    (
      ground (arith, eq_iff n j),
      ground (arith, eq_iff n j),
      ground (arith, eq_iff n j),
      λ h. ground (arith, eq_iff n j),
    )
release_left-IsCounted n (t ∷ ts) (r, released) counted there v = λ j.
    let c = lookup-insert n j (t ∷ ts) r.refs in
    let x = v j in
    (
      ground (arith, eq_iff n j),
      ground (arith, eq_iff n j),
      ground (arith, eq_iff n j),
      λ h. ground (arith, eq_iff n j),
    )

-- A name that is permanent stays so, and one that is not stays so.
release_left-permanent :
    (n : String) (left : List String) (s : SchemaRegistry × List String)
    → (release_left n left s).0.permanent ≡ s.0.permanent
release_left-permanent n [] s = refl
release_left-permanent n (t ∷ ts) s = refl

-- What is held is there, so what is not there has no holder left.
refs_left :
    (holder n : String) (r : SchemaRegistry)
    → IsCounted r
    → (has_key n r.entries ≡ true) ⊎ (discard holder (refs_of n r) ≡ [])
unfolding IsCounted refs_of
refs_left holder n r v =
    let x = v n in
    elim (Option-cases (lookup n r.refs)) [
      | inl e ↦ inr (rw e refl)
      | inr (l, e) ↦ inl (ground arith)
    ]

not_permanent :
    (r : SchemaRegistry)
    → IsCounted r
    → (n : String) → has_key n r.refs ≡ true
    → elem n r.permanent ≡ false
unfolding IsCounted
not_permanent r v n h = let x = v n in ground arith

release_one-IsCounted :
    (holder n : String) (s : SchemaRegistry × List String)
    → elem n s.0.permanent ≡ false
    → IsCounted s.0
    → IsCounted (release_one holder n s).0
unfolding release_one
release_one-IsCounted holder n s counted v =
    release_left-IsCounted n (discard holder (refs_of n s.0)) s counted (refs_left holder n s.0 v) v

release_names-IsCounted :
    (holder : String) (names : List String) (s : SchemaRegistry × List String)
    → All (λ n. elem n s.0.permanent ≡ false) names
    → IsCounted s.0
    → IsCounted (release_names holder names s).0
unfolding release_names release_one
release_names-IsCounted holder [] s counted v = v
release_names-IsCounted holder (n ∷ names) s counted v =
    release_names-IsCounted holder names (release_one holder n s)
      (subst (λ p. All (λ m. elem m p ≡ false) names) (sym (release_left-permanent n _ s))
        counted.1)
      (release_one-IsCounted holder n s counted.0 v)

All-keys :
    {V : Type 0} (P : String → Type 0) (d : Dict V)
    → ((k : String) → has_key k d ≡ true → P k)
    → All P (keys d)
unfolding lookup
All-keys P [] h = tt
All-keys P ((k, v) ∷ d) h =
    (h k (ground (arith, eq_iff k k)), All-keys P d (λ j e. h j (ground arith)))

-- When a holder is released, each schema that stays is permanent or is held by somebody else.
pub release_holder-IsCounted :
    (holder : String) (r : SchemaRegistry) → IsCounted r → IsCounted (release_holder holder r).0
unfolding release_holder
release_holder-IsCounted holder r v =
    release_names-IsCounted holder (keys r.refs) (r, [])
      (All-keys (λ n. elem n r.permanent ≡ false) r.refs (not_permanent r v)) v
