-- ===== src/Registry/Routing.antt =====
-- src/agent_agora/registry/bot.py: the index of handlers and observers says what the entries say.
use agent_agora.Registry.{register_info, unregister_session, detach, detach_prior, store}
use agent_agora.Registry.Bots.{
  subscribe, unsubscribe, unsubscribe_one, BotInfo, BotInfo, BotRegistry, on_detach, on_store,
  BotInfo, BotRegistry, BotInfo, BotRegistry, keep_left, subscribers_of, subscribers_of,
  subscribers_of, bot_hooks, handler, observer,
}
use agent_agora.Prelude.{
  String, String, String, String, Option, List, Dict, List, Bool, lookup, lookup, lookup, elem, ◌≡◌,
  refl, ◌≡◌, or_default, ◌==◌, not, not, [], ◌&&◌, ◌&&◌, ◌&&◌, ◌||◌, arith, some, Option-cases, ◌∷◌,
  insert, false, false, inl, add, discard, eq_iff, lookup-remove, none, lookup-insert, List-cases,
  elem-discard, lookup-insert, inr, elem-add, elem-add, true,
}
use agent_agora.Registry.Bijection.{
  IsBijective, IsBijective, IsBijective, clear_instance-IsBijective, detach_prior-instance_none,
  detach_prior-instance,
}

abbrev listed : String → Option (List String) → Bool
listed n o = elem n (or_default o [])

listed-subscribe :
    (bot n s : String) (ss : List String) (d : Dict (List String))
    → listed n (lookup s (subscribe bot ss d)) ≡ ((bot == n && elem s ss) || listed n (lookup s d))
unfolding subscribe
listed-subscribe bot n s [] d = ground arith
listed-subscribe bot n s (t ∷ ss) d = ground (
  arith,
  listed-subscribe bot n s ss (insert t (add bot (or_default (lookup t d) [])) d),
  lookup-insert t s (add bot (or_default (lookup t d) [])) d,
  elem-add n bot (or_default (lookup t d) []),
  eq_iff t s,
)

listed-left :
    (bot n s t : String) (subs : List String) (d : Dict (List String))
    → lookup t d ≡ some subs
    → listed n (lookup s (keep_left t (discard bot subs) d))
      ≡ (not (bot == n && t == s) && listed n (lookup s d))
listed-left bot n s t subs d found = elim (List-cases (discard bot subs)) [
  | inl gone ↦
      rw (gone, keep_left)
        (ground (arith, lookup-remove t s d, elem-discard n bot subs, gone, eq_iff t s))
  | inr (x, xs, left) ↦
      rw (left, keep_left)
        (ground (arith, lookup-insert t s (x ∷ xs) d, elem-discard n bot subs, left, eq_iff t s))
]

listed-unsubscribe_one :
    (bot n s t : String) (d : Dict (List String))
    → listed n (lookup s (unsubscribe_one bot t (lookup t d) d))
      ≡ (not (bot == n && t == s) && listed n (lookup s d))
listed-unsubscribe_one bot n s t d = elim (Option-cases (lookup t d)) [
  | inl absent ↦ rw (absent, unsubscribe_one) (ground (arith, eq_iff t s))
  | inr (subs, found) ↦ rw (found, unsubscribe_one) (listed-left bot n s t subs d found)
]

listed-unsubscribe :
    (bot n s : String) (ss : List String) (d : Dict (List String))
    → listed n (lookup s (unsubscribe bot ss d))
      ≡ (not (bot == n && elem s ss) && listed n (lookup s d))
unfolding unsubscribe
listed-unsubscribe bot n s [] d = ground arith
listed-unsubscribe bot n s (t ∷ ss) d = ground (
  arith,
  listed-unsubscribe bot n s ss (unsubscribe_one bot t (lookup t d) d),
  listed-unsubscribe_one bot n s t d,
)

-- The schemas that a bot is to be sent, and whether it observes.
abbrev pub handles : String → Option BotInfo → Bool
handles s none = false
handles s (some i) = elim i.bot_mode [ handler ↦ elem s i.subscribe_schemas | observer ↦ false ]

abbrev pub observes : Option BotInfo → Bool
observes none = false
observes (some i) = elim i.bot_mode [ handler ↦ false | observer ↦ true ]

-- The index lists a bot under a schema exactly if it is registered as a handler of that schema,
-- and as an observer exactly if it is registered as one.
pub record IsIndexed (r : BotRegistry) : Type 0 where
  pub handlers_exact :
      (s n : String) → elem n (subscribers_of s r) ≡ handles s (lookup n r.by_instance)
  pub observers_exact : (n : String) → elem n r.index.observers ≡ observes (lookup n r.by_instance)

detach-IsIndexed :
    (i : BotInfo) (r : BotRegistry)
    → lookup i.instance_id r.by_instance ≡ some i
    → IsIndexed r
    → IsIndexed (detach bot_hooks i r)
unfolding detach on_detach subscribers_of
detach-IsIndexed i r found v = record {
  handlers_exact = λ s n. ground (
    arith,
    listed-unsubscribe i.instance_id n s i.subscribe_schemas r.index.subscribers,
    lookup-remove i.instance_id n r.by_instance,
    v.handlers_exact s n,
    eq_iff i.instance_id n,
  );
  observers_exact = λ n. ground (
    arith,
    elem-discard n i.instance_id r.index.observers,
    lookup-remove i.instance_id n r.by_instance,
    v.observers_exact n,
    eq_iff i.instance_id n,
  );
}

store-IsIndexed :
    (i : BotInfo) (r : BotRegistry)
    → lookup i.instance_id r.by_instance ≡ none
    → IsIndexed r
    → IsIndexed (store bot_hooks i r)
unfolding store on_store subscribers_of
store-IsIndexed i r free v = record {
  handlers_exact = λ s n. ground (
    arith,
    listed-subscribe i.instance_id n s i.subscribe_schemas r.index.subscribers,
    lookup-insert i.instance_id n i r.by_instance,
    v.handlers_exact s n,
    eq_iff i.instance_id n,
  );
  observers_exact = λ n. ground (
    arith,
    elem-add n i.instance_id r.index.observers,
    lookup-insert i.instance_id n i r.by_instance,
    v.observers_exact n,
    eq_iff i.instance_id n,
  );
}

detach_prior-IsIndexed :
    (o : Option BotInfo) (r : BotRegistry)
    → ((i : BotInfo) → o ≡ some i → lookup i.instance_id r.by_instance ≡ some i)
    → IsIndexed r
    → IsIndexed (detach_prior bot_hooks o r)
unfolding detach_prior
detach_prior-IsIndexed none r at v = v
detach_prior-IsIndexed (some i) r at v = detach-IsIndexed i r (at i refl) v

-- The entry of an instance stands under its own id.
at_instance :
    (n : String) (r : BotRegistry)
    → IsBijective bot_hooks r
    → (i : BotInfo) → lookup n r.by_instance ≡ some i
    → lookup i.instance_id r.by_instance ≡ some i
at_instance n r b i p = cc (b.instance_sound n i p).0

-- Registering a bot, whatever it replaces, leaves the routing index exact.
pub register_info-IsIndexed :
    (i : BotInfo) (r : BotRegistry)
    → IsBijective bot_hooks r
    → IsIndexed r
    → IsIndexed (register_info bot_hooks i r)
unfolding register_info
register_info-IsIndexed i r b v =
    let o = lookup i.instance_id r.by_instance in
    let r1 = detach_prior bot_hooks o r in
    let b1 = clear_instance-IsBijective bot_hooks i.instance_id r b in
    let o1 = lookup i.session_id r1.by_session in
    store-IsIndexed i (detach_prior bot_hooks o1 r1)
      (detach_prior-instance_none bot_hooks i.instance_id o1 r1
        (detach_prior-instance bot_hooks i.instance_id r b))
      (detach_prior-IsIndexed o1 r1 (λ j p. (b1.session_sound i.session_id j p).1)
        (detach_prior-IsIndexed o r (at_instance i.instance_id r b) v))

-- A bot whose session ends is sent nothing more: the index stays exact.
pub unregister_session-IsIndexed :
    (s : String) (r : BotRegistry)
    → IsBijective bot_hooks r
    → IsIndexed r
    → IsIndexed (unregister_session bot_hooks s r)
unfolding unregister_session
unregister_session-IsIndexed s r b v =
    detach_prior-IsIndexed (lookup s r.by_session) r (λ j p. (b.session_sound s j p).1) v
