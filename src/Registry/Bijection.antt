-- ===== src/Registry/Bijection.antt =====
-- src/agent_agora/registry/core.py: the two maps of a registry stay inverse to one another.
use agent_agora.Prelude.{
  String, ◌≡◌, refl, inl, inr, Option, none, some, arith, lookup, eq_iff, eq_refl, lookup-insert,
  lookup-remove, Option-cases, Option-cases, insert,
}
use agent_agora.Registry.{
  Hooks, Registry, detach, detach_prior, store, register_info, register_info, unregister_session,
  replace_and_store, replace_found,
}

module _ {I X : Type 0} (h : Hooks I X) where
  -- An entry stands under its own session and its own instance in both maps.
  pub record IsBijective (r : Registry I X) : Type 0 where
    pub session_sound :
        (s : String) (i : I)
        → lookup s r.by_session ≡ some i
        → (h.session_id i ≡ s) × (lookup (h.instance_id i) r.by_instance ≡ some i)
    pub instance_sound :
        (n : String) (i : I)
        → lookup n r.by_instance ≡ some i
        → (h.instance_id i ≡ n) × (lookup (h.session_id i) r.by_session ≡ some i)

  detach-IsBijective :
      (i : I) (r : Registry I X)
      → lookup (h.session_id i) r.by_session ≡ some i
      → IsBijective r
      → IsBijective (detach h i r)
  unfolding detach
  detach-IsBijective i r at v = record {
    session_sound = λ s j p. ground (
      arith,
      lookup-remove (h.session_id i) s r.by_session,
      lookup-remove (h.instance_id i) (h.instance_id j) r.by_instance,
      eq_iff (h.session_id i) s,
      eq_iff (h.instance_id i) (h.instance_id j),
      v.session_sound s j,
      v.session_sound (h.session_id i) i,
    );
    instance_sound = λ n j p. ground (
      arith,
      lookup-remove (h.instance_id i) n r.by_instance,
      lookup-remove (h.session_id i) (h.session_id j) r.by_session,
      eq_iff (h.session_id i) (h.session_id j),
      eq_iff (h.instance_id i) n,
      v.instance_sound n j,
      v.session_sound (h.session_id i) i,
    );
  }

  detach_prior-IsBijective :
      (o : Option I) (r : Registry I X)
      → ((i : I) → o ≡ some i → lookup (h.session_id i) r.by_session ≡ some i)
      → IsBijective r
      → IsBijective (detach_prior h o r)
  unfolding detach_prior
  detach_prior-IsBijective none r at v = v
  detach_prior-IsBijective (some i) r at v = detach-IsBijective i r (at i refl) v

  store-IsBijective :
      (i : I) (r : Registry I X)
      → lookup (h.session_id i) r.by_session ≡ none
      → lookup (h.instance_id i) r.by_instance ≡ none
      → IsBijective r
      → IsBijective (store h i r)
  unfolding store
  store-IsBijective i r no_session no_instance v = record {
    session_sound = λ s j p. ground (
      arith,
      lookup-insert (h.session_id i) s i r.by_session,
      lookup-insert (h.instance_id i) (h.instance_id j) i r.by_instance,
      eq_iff (h.session_id i) s,
      eq_iff (h.instance_id i) (h.instance_id j),
      v.session_sound s j,
    );
    instance_sound = λ n j p. ground (
      arith,
      lookup-insert (h.instance_id i) n i r.by_instance,
      lookup-insert (h.session_id i) (h.session_id j) i r.by_session,
      eq_iff (h.session_id i) (h.session_id j),
      eq_iff (h.instance_id i) n,
      v.instance_sound n j,
    );
  }

  -- After the entry of an instance is taken out, the instance has none; so for a session.
  pub detach_prior-instance :
      (n : String) (r : Registry I X)
      → IsBijective r
      → lookup n (detach_prior h (lookup n r.by_instance) r).by_instance ≡ none
  unfolding detach_prior
  detach_prior-instance n r v = elim (Option-cases (lookup n r.by_instance)) [
    | inl absent ↦ rw (absent, detach_prior) absent
    | inr (i, found) ↦
        rw (found, detach_prior)
          (ground (
            arith,
            lookup-remove (h.instance_id i) n r.by_instance,
            eq_iff (h.instance_id i) n,
            v.instance_sound n i found,
          ))
  ]

  pub detach_prior-session :
      (s : String) (r : Registry I X)
      → IsBijective r
      → lookup s (detach_prior h (lookup s r.by_session) r).by_session ≡ none
  unfolding detach_prior
  detach_prior-session s r v = elim (Option-cases (lookup s r.by_session)) [
    | inl absent ↦ rw (absent, detach_prior) absent
    | inr (i, found) ↦
        rw (found, detach_prior)
          (ground (
            arith,
            lookup-remove (h.session_id i) s r.by_session,
            eq_iff (h.session_id i) s,
            v.session_sound s i found,
          ))
  ]

  pub detach_prior-instance_none :
      (n : String) (o : Option I) (r : Registry I X)
      → lookup n r.by_instance ≡ none
      → lookup n (detach_prior h o r).by_instance ≡ none
  unfolding detach_prior
  detach_prior-instance_none n none r e = e
  detach_prior-instance_none n (some i) r e =
      ground (arith, lookup-remove (h.instance_id i) n r.by_instance)

  pub clear_instance-IsBijective :
      (n : String) (r : Registry I X)
      → IsBijective r
      → IsBijective (detach_prior h (lookup n r.by_instance) r)
  clear_instance-IsBijective n r v =
      detach_prior-IsBijective (lookup n r.by_instance) r (λ i p. (v.instance_sound n i p).1) v

  pub clear_session-IsBijective :
      (s : String) (r : Registry I X)
      → IsBijective r
      → IsBijective (detach_prior h (lookup s r.by_session) r)
  clear_session-IsBijective s r v =
      detach_prior-IsBijective (lookup s r.by_session) r (λ i p. rw (v.session_sound s i p).0 p) v

  -- Whatever sessions and instances the entry collides with, registering it keeps the two maps
  -- inverse to one another.
  pub register_info-IsBijective :
      (i : I) (r : Registry I X) → IsBijective r → IsBijective (register_info h i r)
  unfolding register_info
  register_info-IsBijective i r v =
      let o = lookup (h.instance_id i) r.by_instance in
      let r1 = detach_prior h o r in
      let v1 = clear_instance-IsBijective (h.instance_id i) r v in
      let o1 = lookup (h.session_id i) r1.by_session in
      store-IsBijective i (detach_prior h o1 r1) (detach_prior-session (h.session_id i) r1 v1)
        (detach_prior-instance_none (h.instance_id i) o1 r1
          (detach_prior-instance (h.instance_id i) r v))
        (clear_session-IsBijective (h.session_id i) r1 v1)

  -- An entry that was just registered is found under its instance and under its session.
  pub register_info-found :
      (i : I) (r : Registry I X)
      → (lookup (h.instance_id i) (register_info h i r).by_instance ≡ some i)
        × (lookup (h.session_id i) (register_info h i r).by_session ≡ some i)
  unfolding register_info store
  register_info-found i r = (simp (lookup-insert, eq_refl), simp (lookup-insert, eq_refl))

  -- Unregistering a session keeps the two maps inverse to one another, and the session is gone.
  pub unregister_session-IsBijective :
      (s : String) (r : Registry I X)
      → IsBijective r
      → IsBijective (unregister_session h s r)
        × (lookup s (unregister_session h s r).by_session ≡ none)
  unfolding unregister_session
  unregister_session-IsBijective s r v =
      (clear_session-IsBijective s r v, detach_prior-session s r v)

  abbrev replaced : (I → I) → String → I → Registry I X → Registry I X
  replaced change n i r = record r {
    by_session = insert (h.session_id (change i)) (change i) r.by_session;
    by_instance = insert n (change i) r.by_instance;
  }

  module _ (change : I → I) (same_s : (i : I) → h.session_id (change i) ≡ h.session_id i)
      (same_n : (i : I) → h.instance_id (change i) ≡ h.instance_id i) where
    replaced-IsBijective :
        (n : String) (i : I) (r : Registry I X)
        → lookup n r.by_instance ≡ some i
        → IsBijective r
        → IsBijective (replaced change n i r)
    replaced-IsBijective n i r found v = record {
      session_sound = λ s j p. ground (
        arith,
        lookup-insert (h.session_id (change i)) s (change i) r.by_session,
        lookup-insert n (h.instance_id j) (change i) r.by_instance,
        eq_iff (h.session_id (change i)) s,
        eq_iff n (h.instance_id j),
        v.session_sound s j,
        v.instance_sound n i found,
        same_s i,
        same_n i,
      );
      instance_sound = λ m j p. ground (
        arith,
        lookup-insert n m (change i) r.by_instance,
        lookup-insert (h.session_id (change i)) (h.session_id j) (change i) r.by_session,
        eq_iff (h.session_id (change i)) (h.session_id j),
        eq_iff n m,
        v.instance_sound m j,
        v.instance_sound n i found,
        same_s i,
        same_n i,
      );
    }

    -- A change of an entry that leaves its two ids alone keeps the two maps inverse to one another.
    pub replace_and_store-IsBijective :
        (n : String) (r : Registry I X)
        → IsBijective r
        → IsBijective (replace_and_store h change n r).0
    unfolding replace_and_store
    replace_and_store-IsBijective n r v = elim (Option-cases (lookup n r.by_instance)) [
      | inl absent ↦ rw (absent, replace_found) v
      | inr (i, found) ↦ rw (found, replace_found) (replaced-IsBijective n i r found v)
    ]
