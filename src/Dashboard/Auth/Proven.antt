-- ===== src/Dashboard/Auth/Proven.antt =====
-- src/agent_agora/dashboard/auth.py: what a caller of an operator's path has shown.
use agent_agora.Errors.{Result, ok, raise, value_error, type_error, >>=-eq-ok}
use agent_agora.Text.{split}
use agent_agora.Prelude.{
  ◌∷◌, [], none, some, true, false, String, String, Option, Dict, Dict, ◌≡◌, Dict, Bool, any,
  lookup, arith, ◌==◌, ◌⊎◌, ap, refl, ◌&&◌, inr, subst, Bool-cases, has_key, or_default, inl,
  insert, lookup-insert, eq_iff, List, Option-cases, sym, ◌∙◌,
}
use agent_agora.Dashboard.Credentials.{
  Crypto, Crypto, Crypto, Crypto, or_nobody, verify_password, bytes_eq, signing_input, read_claims,
  claims_if_signed, check_signature, verify_parts, verify_jwt, is_ascii, load_object, is_hs256,
}
use agent_agora.Dashboard.Auth.{
  by_token, basic_with, Auth, WebRequest, name_if, basic_user, Mode, trusted_user, presented,
  credentials, token_user, resolve_user, jwt_user, passage, make_auth, passed_as, pass,
  is_protected,
}
use agent_agora.Files.Store.{Bytes}
use agent_agora.Json.{get_field}

-- A user has this token in the map that was given.
abbrev pub has_entry : (user tok : String) → Dict String → Bool
has_entry user tok = any (λ e. e.0 == user && e.1 == tok)

by_token-has_entry :
    (tokens m m' : Dict String) (user tok : String)
    → by_token tokens m ≡ ok m'
    → lookup tok m' ≡ some user
    → (has_entry user tok tokens ≡ true) ⊎ (lookup tok m ≡ some user)
unfolding by_token
by_token-has_entry [] m m' user tok e h = inr (ground arith)
by_token-has_entry ((u, t) ∷ tokens) m m' user tok e h = elim (Bool-cases (has_key t m)) [
  | inl twice ↦ absurd (let y = rw twice at e in cc)
  | inr new ↦ elim (by_token-has_entry tokens (insert t u m) m' user tok (rw new at e) h) [
    | inl later ↦ inl (ground arith)
    | inr here ↦ elim (Bool-cases (t == tok)) [
      | inl same ↦ inl (ground (arith, lookup-insert t tok u m, eq_iff u user))
      | inr apart ↦ inr (ground (arith, lookup-insert t tok u m))
    ]
  ]
]

-- A token with a signature of its own header and payload, whose claims name the user.
pub record IsSigned (c : Crypto) (secret tok user : String) : Type 0 where
  pub header_b64 : String
  pub payload_b64 : String
  pub sig_b64 : String
  pub parts : split 46 tok ≡ header_b64 ∷ payload_b64 ∷ sig_b64 ∷ []
  pub sig : Bytes
  pub decoded : c.urlsafe_b64decode sig_b64 ≡ some sig
  pub signed : bytes_eq (c.hmac_sha256 secret (signing_input header_b64 payload_b64)) sig ≡ true
  pub claimed : read_claims c payload_b64 ≡ ok (some user)

-- What a user has shown, in each mode.
abbrev pub HasShown :
    Crypto → (tokens : Dict String) → Auth → WebRequest → (user : String) → Mode → Type 0
HasShown c tokens a q user Mode.trust = trusted_user a q ≡ some user
HasShown c tokens a q user Mode.token =
    (tok : String) × (presented a q ≡ some tok) × (has_entry user tok tokens ≡ true)
HasShown c tokens a q user Mode.basic =
    (plain stored : String) × (credentials c q ≡ some (user, plain))
    × (lookup user a.users ≡ some stored)
    × (verify_password c plain stored ≡ ok true)
HasShown c tokens a q user Mode.jwt =
    (tok : String) × (presented a q ≡ some tok) × IsSigned c (or_default a.jwt_secret "") tok user

name_if-some :
    (name user : String) (r : Result Bool)
    → name_if name r ≡ ok (some user)
    → (r ≡ ok true) × (name ≡ user)
name_if-some name user (raise e) h = absurd cc
name_if-some name user (ok false) h = absurd (ground arith)
name_if-some name user (ok true) h = (refl, ground arith)

basic_with-some :
    (c : Crypto) (plain name user : String) (o : Option String)
    → basic_with c plain name o ≡ ok (some user)
    → (stored : String) × (o ≡ some stored)
      × (verify_password c plain stored ≡ ok true)
      × (name ≡ user)
basic_with-some c plain name user none h = absurd (ground arith)
basic_with-some c plain name user (some stored) h =
    let (right, same) = name_if-some name user (verify_password c plain stored) h in
    (stored, refl, right, same)

basic_user-some :
    (c : Crypto) (a : Auth) (user : String) (o : Option (String × String))
    → basic_user c a o ≡ ok (some user)
    → (plain stored : String) × (o ≡ some (user, plain))
      × (lookup user a.users ≡ some stored)
      × (verify_password c plain stored ≡ ok true)
basic_user-some c a user none h = absurd (ground arith)
basic_user-some c a user (some (name, plain)) h =
    let (stored, found, right, same) = basic_with-some c plain name user (lookup name a.users) h in
    (
      plain,
      stored,
      ap (λ n. some (n, plain)) same,
      subst (λ n. lookup n a.users ≡ some stored) same found,
      right,
    )

or_nobody-some :
    (r : Result (Option String)) (user : String) → or_nobody r ≡ ok (some user) → r ≡ ok (some user)
or_nobody-some (ok o) user h = h
or_nobody-some (raise value_error) user h = absurd (ground arith)
or_nobody-some (raise type_error) user h = absurd (ground arith)
or_nobody-some (raise e) user h = h

claims_if_signed-some :
    (c : Crypto) (payload_b64 user : String) (matches : Bool)
    → claims_if_signed c payload_b64 matches ≡ ok (some user)
    → (matches ≡ true) × (read_claims c payload_b64 ≡ ok (some user))
claims_if_signed-some c payload_b64 user false h = absurd (ground arith)
claims_if_signed-some c payload_b64 user true h = (refl, h)

check_signature-some :
    (c : Crypto) (secret header_b64 payload_b64 sig_b64 user : String)
    → check_signature c secret header_b64 payload_b64 sig_b64 ≡ ok (some user)
    → (sig : Bytes) × (c.urlsafe_b64decode sig_b64 ≡ some sig)
      × (bytes_eq (c.hmac_sha256 secret (signing_input header_b64 payload_b64)) sig ≡ true)
      × (read_claims c payload_b64 ≡ ok (some user))
unfolding check_signature
check_signature-some c secret header_b64 payload_b64 sig_b64 user h =
    let input = signing_input header_b64 payload_b64 in
    elim (Bool-cases (is_ascii input)) [
      | inr other ↦ absurd (let y = rw other at h in ground arith)
      | inl ascii ↦ elim (Option-cases (c.urlsafe_b64decode sig_b64)) [
        | inl bad ↦ absurd (let y = rw (ascii, bad) at h in ground arith)
        | inr (sig, decoded) ↦
            let (signed, claimed) =
              claims_if_signed-some c payload_b64 user (bytes_eq (c.hmac_sha256 secret input) sig)
                (rw (ascii, decoded) at h) in
            (sig, decoded, signed, claimed)
      ]
    ]

verify_parts-IsSigned :
    (c : Crypto) (secret tok user : String) (parts : List String)
    → split 46 tok ≡ parts
    → verify_parts c secret parts ≡ ok (some user)
    → IsSigned c secret tok user
unfolding verify_parts
verify_parts-IsSigned c secret tok user (h ∷ p ∷ s ∷ []) e v =
    let (header, loaded, rest) = >>=-eq-ok (load_object c h) _ v in
    elim (Bool-cases (is_hs256 (get_field "alg" header))) [
      | inr other ↦ absurd (let y = rw other at rest in ground arith)
      | inl right ↦
          let (sig, decoded, signed, claimed) =
            check_signature-some c secret h p s user (rw right at rest) in
          record {
            header_b64 = h;
            payload_b64 = p;
            sig_b64 = s;
            parts = e;
            sig = sig;
            decoded = decoded;
            signed = signed;
            claimed = claimed;
          }
    ]
verify_parts-IsSigned c secret tok user [] e v = absurd (ground arith)
verify_parts-IsSigned c secret tok user (h ∷ []) e v = absurd (ground arith)
verify_parts-IsSigned c secret tok user (h ∷ p ∷ []) e v = absurd (ground arith)
verify_parts-IsSigned c secret tok user (h ∷ p ∷ s ∷ x ∷ xs) e v = absurd (ground arith)

jwt_user-some :
    (c : Crypto) (a : Auth) (user : String) (o : Option String)
    → jwt_user c a o ≡ ok (some user)
    → (tok : String) × (o ≡ some tok) × IsSigned c (or_default a.jwt_secret "") tok user
unfolding verify_jwt
jwt_user-some c a user none h = absurd (ground arith)
jwt_user-some c a user (some tok) h = elim (Bool-cases (tok == "")) [
  | inl empty ↦ absurd (let y = rw empty at h in ground arith)
  | inr given ↦
      let secret = or_default a.jwt_secret "" in
      let v = or_nobody-some (verify_parts c secret (split 46 tok)) user (rw given at h) in
      (tok, refl, verify_parts-IsSigned c secret tok user (split 46 tok) refl v)
]

token_user-some :
    (tokens : Dict String) (a : Auth) (user : String) (o : Option String)
    → by_token tokens [] ≡ ok a.token_to_user
    → token_user a o ≡ some user
    → (tok : String) × (o ≡ some tok) × (has_entry user tok tokens ≡ true)
unfolding lookup
token_user-some tokens a user none built h = absurd (ground arith)
token_user-some tokens a user (some tok) built h =
    elim (by_token-has_entry tokens [] a.token_to_user user tok built h) [
      | inl entry ↦ (tok, refl, entry)
      | inr nowhere ↦ absurd (let y : none ≡ some user = nowhere in ground arith)
    ]

resolve_user-HasShown :
    (c : Crypto) (tokens : Dict String) (a : Auth) (q : WebRequest) (user : String) (m : Mode)
    → a.mode ≡ m
    → by_token tokens [] ≡ ok a.token_to_user
    → resolve_user c a q ≡ ok (some user)
    → HasShown c tokens a q user m
unfolding resolve_user
resolve_user-HasShown c tokens a q user Mode.trust e built h = ground (arith, rw e at h)
resolve_user-HasShown c tokens a q user Mode.token e built h =
    let y : ok (token_user a (presented a q)) ≡ ok (some user) = rw e at h in
    token_user-some tokens a user (presented a q) built (ground arith)
resolve_user-HasShown c tokens a q user Mode.basic e built h =
    basic_user-some c a user (credentials c q) (rw e at h)
resolve_user-HasShown c tokens a q user Mode.jwt e built h =
    jwt_user-some c a user (presented a q) (rw e at h)

passage-passed :
    (r : Result (Option String)) (user : String) → passage r ≡ passed_as user → r ≡ ok (some user)
passage-passed (raise e) user h = absurd (ground arith)
passage-passed (ok none) user h = absurd (ground arith)
passage-passed (ok (some u)) user h = elim (Bool-cases (u == "")) [
  | inl empty ↦ absurd (let y = rw empty at h in ground arith)
  | inr given ↦
      let y : passed_as u ≡ passed_as user = rw given at h in
      let same : u ≡ user = ground arith in ap (λ v. ok (some v)) same
]

-- A request that goes on as a user's has shown, by the mode: a token of that user, from the header or,
-- on the paths that allow it, from the query; a name and a password that fits the user's hash; a token
-- that is signed with the secret, has not expired and names the user; or just the name, where the
-- header is trusted.
pub pass-HasShown :
    (c : Crypto) (mode : Mode) (tokens users : Dict String) (jwt_secret : Option String)
    (protected_paths query_param_paths : List String) (a : Auth) (q : WebRequest) (user : String)
    → make_auth mode tokens users jwt_secret protected_paths query_param_paths ≡ ok a
    → pass c a q ≡ passed_as user
    → HasShown c tokens a q user mode
unfolding make_auth pass
pass-HasShown c mode tokens users jwt_secret protected_paths query_param_paths a q user e h =
    let (m, built, made) = >>=-eq-ok (by_token tokens []) _ e in
    let same_mode : mode ≡ a.mode = ground arith in
    let same_map : m ≡ a.token_to_user = ground arith in
    elim (Bool-cases (is_protected a q.path)) [
      | inr other ↦ absurd (let y = rw other at h in ground arith)
      | inl inside ↦
          resolve_user-HasShown c tokens a q user mode (sym same_mode) (built ∙ ap ok same_map)
            (passage-passed (resolve_user c a q) user (rw inside at h))
    ]
