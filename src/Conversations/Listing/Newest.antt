-- ===== src/Conversations/Listing/Newest.antt =====
-- src/agent_agora/conversation_store.py: a listing shows the newest conversations.
use mathlib.Core.List.{Perm}
use agent_agora.Prelude.{
  ◌∷◌, [], zero, suc, ℕ, ℕ, ℕ, Option, List, List, List, String, String, take, length, ◌++◌, ◌≡◌,
  ap, min, keep, map, arith, refl, IsSorted, sort_by, subst, sym, sort_by-perm, sort_by-IsSorted,
  some, none, Bool, Bool, if◌then◌else◌, ◌≤◌, lookup, eq_iff, Bool, ◌∙◌, true, elem, ltb, Dict,
  keys, has_key, ◌&&◌, ◌==◌,
}
use agent_agora.Text.{ℤ, pos, negsuc}
use agent_agora.Conversations.Listing.{
  list_conversations, is_listed, is_newer, is_newer, limit_of, limit_of, Listed, status_text,
}
use agent_agora.Conversations.{ConversationStore, ConversationStore, Conversation, Conversation}

abbrev beyond {ℓ} : {A : Type ℓ} → ℕ → List A → List A
beyond zero l = l
beyond (suc n) [] = []
beyond (suc n) (x ∷ xs) = beyond n xs

take-beyond {ℓ} : {A : Type ℓ} (n : ℕ) (l : List A) → take n l ++ beyond n l ≡ l
take-beyond zero l = refl
take-beyond (suc n) [] = refl
take-beyond (suc n) (x ∷ xs) = ap (λ ys. x ∷ ys) (take-beyond n xs)

length-take {ℓ} :
    {A : Type ℓ} (n : ℕ) (l : List A) → length (take n l) ≡ min n (length (take n l ++ beyond n l))
length-take zero l = omega arith
length-take (suc n) [] = omega arith
length-take (suc n) (x ∷ xs) = omega (arith, length-take n xs)

abbrev asked : Option String → (String → Bool) → Bool
asked none p = true
asked (some x) p = p x

-- What a listing is asked for: the participant is one of the conversation's, and its status is the one.
abbrev pub is_wanted : (participant status : Option String) → String × Conversation → Bool
is_wanted participant status (conv_id, c) =
    asked participant (λ iid. elem iid (keys c.participants))
    && asked status (λ text. text == status_text c.status)

-- The number of conversations that may be shown.
abbrev pub bound : ℤ → ℕ
bound (negsuc n) = 1
bound (pos n) = if ltb n 1 then 1 else if ltb 1000 n then 1000 else n

-- The newest stand first.
abbrev pub IsNewestFirst : List (String × Conversation) → Type 0
IsNewestFirst [] = Unit
IsNewestFirst (x ∷ []) = Unit
IsNewestFirst (x ∷ y ∷ l) = (y.1.last_message_at ≤ x.1.last_message_at) × IsNewestFirst (y ∷ l)

abbrev pub shown_as : String × Conversation → Listed
shown_as (conv_id, c) = record {
  conversation_id = conv_id;
  kind = c.kind;
  status = c.status;
  started_at = c.started_at;
  last_message_at = c.last_message_at;
  message_count = c.message_count;
}

has_key-keys : {V : Type 0} (k : String) (d : Dict V) → has_key k d ≡ elem k (keys d)
unfolding lookup
has_key-keys k [] = refl
has_key-keys k ((j, v) ∷ d) = ground (arith, has_key-keys k d)

is_listed-is_wanted :
    (participant status : Option String) (e : String × Conversation)
    → is_listed participant status e ≡ is_wanted participant status e
is_listed-is_wanted none none (k, c) = refl
is_listed-is_wanted none (some t) (k, c) =
    ground (arith, eq_iff t (status_text c.status), eq_iff (status_text c.status) t)
is_listed-is_wanted (some p) none (k, c) = ground (arith, has_key-keys p c.participants)
is_listed-is_wanted (some p) (some t) (k, c) = ground (
  arith,
  has_key-keys p c.participants,
  eq_iff t (status_text c.status),
  eq_iff (status_text c.status) t,
)

keep-same :
    (f g : String × Conversation → Bool)
    → ((e : String × Conversation) → f e ≡ g e)
    → (l : List (String × Conversation)) → keep f l ≡ keep g l
keep-same f g h [] = refl
keep-same f g h (e ∷ l) = ground (arith, h e, keep-same f g h l)

IsSorted-IsNewestFirst : (l : List (String × Conversation)) → IsSorted is_newer l → IsNewestFirst l
IsSorted-IsNewestFirst [] s = tt
IsSorted-IsNewestFirst (x ∷ []) s = tt
IsSorted-IsNewestFirst (x ∷ y ∷ l) s = (ground arith, IsSorted-IsNewestFirst (y ∷ l) s.1)

limit_of-bound : (limit : ℤ) → limit_of limit ≡ bound limit
limit_of-bound (negsuc n) = refl
limit_of-bound (pos n) = ground arith

-- The conversations of the store that are wanted are the shown ones and the rest, the newest first; the
-- shown ones are as many as the bound allows.
pub record IsNewest (participant status : Option String) (limit : ℤ) (s : ConversationStore)
    (front : List (String × Conversation)) : Type 0 where
  rest : List (String × Conversation)
  all : Perm (front ++ rest) (keep (is_wanted participant status) s.conversations)
  sorted : IsNewestFirst (front ++ rest)
  as_many : length front ≡ min (bound limit) (length (front ++ rest))

-- A listing shows conversations that have the participant and the status that are asked for, as many as
-- there are up to the limit, which is taken as 1 at least and as 1000 at most; the newest stand first,
-- and none that is wanted and not shown is newer than one that is shown.
pub list_conversations-IsNewest :
    (participant status : Option String) (limit : ℤ) (s : ConversationStore)
    → (front : List (String × Conversation)) × IsNewest participant status limit s front
      × (list_conversations participant status limit s ≡ map shown_as front)
unfolding list_conversations
list_conversations-IsNewest participant status limit s =
    let matching = keep (is_listed participant status) s.conversations in
    let newest_first = sort_by is_newer matching in
    let n = limit_of limit in
    let whole = take-beyond n newest_first in
    (
      take n newest_first,
      record {
        rest = beyond n newest_first;
        all =
            subst (Perm (take n newest_first ++ beyond n newest_first))
              (keep-same _ _ (is_listed-is_wanted participant status) s.conversations)
              (subst (λ l. Perm l matching) (sym whole) (sort_by-perm is_newer matching));
        sorted = subst IsNewestFirst (sym whole) (
            IsSorted-IsNewestFirst newest_first
              (sort_by-IsSorted is_newer (λ a b h. ground arith) matching));
        as_many =
            length-take n newest_first
            ∙ ap (λ b. min b (length (take n newest_first ++ beyond n newest_first)))
                (limit_of-bound limit);
      },
      refl,
    )
