-- ===== src/Storage/Pending.antt =====
-- The restart (src/agent_agora/dispatcher.py): the answers that are awaited again, and the rows that
-- it marks.
use agent_agora.Prelude.{
  ℕ, String, String, Dict, insert, List, List, List, lookup, Bool, Bool, ◌≡◌, ◌≡◌, ◌≡◌, elem, ◌==◌,
  ◌==◌, any, none, or_default, ◌&&◌, ◌&&◌, ◌||◌, some, [], [], ◌∷◌, add, arith, has_key, arith,
  arith, lookup-insert, false, lookup-insert, lookup-insert, refl, elem-add, eq_iff, eq_iff, All,
  Option-cases, All-insert, Option, keep, inl, inr, All-lookup, All-lookup,
}
use agent_agora.Storage.{Database, Row, set_rows}
use agent_agora.Dispatcher.{expect}
use agent_agora.Storage.Restart.{
  expect_rows, update_all, merge_pending, merge_pending, is_live, is_awaited_row, is_closed_row,
  drop_row, is_undrained,
}

-- Whether the source waits for the target's answer to the command.
abbrev pub awaited : (source cmd_id target : String) → Dict (Dict (List String)) → Bool
awaited s c t m = elem t (or_default (lookup c (or_default (lookup s m) [])) [])

abbrev pub is_row_for : (source cmd_id target : String) → Row → Bool
is_row_for s c t r = (r.source == s) && (r.command_id == c) && (r.target == t)

awaited-expect :
    (s c t s0 c0 t0 : String) (m : Dict (Dict (List String)))
    → awaited s c t (expect s0 c0 t0 m) ≡ ((s0 == s && c0 == c && t0 == t) || awaited s c t m)
unfolding expect
awaited-expect s c t s0 c0 t0 m =
    let pending = or_default (lookup s0 m) [] in
    let l = add t0 (or_default (lookup c0 pending) []) in
    ground (
      arith,
      lookup-insert s0 s (insert c0 l pending) m,
      lookup-insert c0 c l pending,
      elem-add t t0 (or_default (lookup c0 pending) []),
      eq_iff s0 s,
      eq_iff c0 c,
    )

pub awaited-expect_rows :
    (s c t : String) (rs : List Row) (m : Dict (Dict (List String)))
    → awaited s c t (expect_rows rs m) ≡ (any (is_row_for s c t) rs || awaited s c t m)
unfolding expect_rows
awaited-expect_rows s c t [] m = refl
awaited-expect_rows s c t (r ∷ rs) m = ground (
  arith,
  awaited-expect_rows s c t rs (expect r.source r.command_id r.target m),
  awaited-expect s c t r.source r.command_id r.target m,
)

-- A dict has each key once.
abbrev pub Distinct {ℓ} : {V : Type ℓ} → Dict V → Type 0
Distinct [] = Unit
Distinct ((k, v) ∷ d) = (has_key k d ≡ false) × Distinct d

module _ {ℓ} {V : Type ℓ} where
  Distinct-insert : (k : String) (v : V) (d : Dict V) → Distinct d → Distinct (insert k v d)
  unfolding insert lookup
  Distinct-insert k v [] a = (refl, tt)
  Distinct-insert k v ((j, w) ∷ d) a =
      ground (arith, Distinct-insert k v d a.1, lookup-insert k j v d, eq_iff j k, eq_iff k j)

  lookup-update_all :
      (c : String) (new m : Dict V)
      → Distinct new
      → lookup c (update_all new m) ≡ elim (lookup c new) [ none ↦ lookup c m | some v ↦ some v ]
  unfolding update_all lookup
  lookup-update_all c [] m a = refl
  lookup-update_all c ((k, v) ∷ new) m a =
      ground (arith, lookup-update_all c new (insert k v m) a.1, lookup-insert k c v m, eq_iff k c)

-- Both levels of `_in_flight` have each key once.
abbrev pub IsNested : Dict (Dict (List String)) → Type 0
IsNested m = Distinct m × All (λ e. Distinct e.1) m

pending-Distinct :
    (s : String) (m : Dict (Dict (List String)))
    → IsNested m
    → Distinct (or_default (lookup s m) [])
pending-Distinct s m h = elim (Option-cases (lookup s m)) [
  | inl absent ↦ rw absent tt
  | inr (pending, found) ↦ rw found (All-lookup (λ e. Distinct e.1) s m h.1 found)
]

expect-IsNested :
    (s c t : String) (m : Dict (Dict (List String))) → IsNested m → IsNested (expect s c t m)
unfolding expect
expect-IsNested s c t m h =
    let pending = or_default (lookup s m) [] in
    let l = add t (or_default (lookup c pending) []) in
    (
      Distinct-insert s (insert c l pending) m h.0,
      All-insert (λ e. Distinct e.1) s (insert c l pending) m
          (Distinct-insert c l pending (pending-Distinct s m h)) h.1,
    )

pub expect_rows-IsNested :
    (rs : List Row) (m : Dict (Dict (List String))) → IsNested m → IsNested (expect_rows rs m)
unfolding expect_rows
expect_rows-IsNested [] m h = h
expect_rows-IsNested (r ∷ rs) m h =
    expect_rows-IsNested rs (expect r.source r.command_id r.target m)
      (expect-IsNested r.source r.command_id r.target m h)

abbrev merged :
    Option (Dict (List String)) → Option (Dict (List String)) → Option (Dict (List String))
merged none old = old
merged (some pending) old = some (update_all pending (or_default old []))

lookup-merge_pending :
    (s : String) (p m : Dict (Dict (List String)))
    → Distinct p
    → lookup s (merge_pending p m) ≡ merged (lookup s p) (lookup s m)
unfolding merge_pending lookup
lookup-merge_pending s [] m a = refl
lookup-merge_pending s ((k, pending) ∷ p) m a =
    let v = update_all pending (or_default (lookup k m) []) in
    ground (arith, lookup-merge_pending s p (insert k v m) a.1, lookup-insert k s v m, eq_iff k s)

pub awaited-merge_pending :
    (s c t : String) (p : Dict (Dict (List String)))
    → IsNested p
    → awaited s c t (merge_pending p []) ≡ awaited s c t p
unfolding lookup
awaited-merge_pending s c t p h = elim (Option-cases (lookup s p)) [
  | inl absent ↦ ground (arith, lookup-merge_pending s p [] h.0)
  | inr (pending, found) ↦ ground (
    arith,
    lookup-merge_pending s p [] h.0,
    lookup-update_all c pending [] (All-lookup (λ e. Distinct e.1) s p h.1 found),
  )
]

pub any-keep :
    {A : Type 0} (p q : A → Bool) (l : List A) → any q (keep p l) ≡ any (λ x. p x && q x) l
any-keep p q [] = refl
any-keep p q (x ∷ xs) = ground (arith, any-keep p q xs)

pub is_live-closed :
    (db : Database) (conv_id : String)
    → (is_closed_row (lookup conv_id db.conversations) && is_live db conv_id) ≡ false
unfolding is_live
is_live-closed db conv_id = ground arith

-- Marking the orphans changes no row that is awaited.
pub orphans-any :
    (now : ℕ) (db : Database) (q : Row → Bool) (rs : List Row)
    → ((r : Row) → q (drop_row now r) ≡ q r)
    → any
        (λ r. is_awaited_row db r && q r)
        (set_rows
          (λ r. is_undrained r && is_closed_row (lookup r.conversation_id db.conversations))
          (drop_row now)
          rs)
      ≡ any (λ r. is_awaited_row db r && q r) rs
unfolding is_awaited_row
orphans-any now db q [] h = refl
orphans-any now db q (r ∷ rs) h =
    ground (arith, orphans-any now db q rs h, h r, is_live-closed db r.conversation_id)
