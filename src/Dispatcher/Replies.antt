-- ===== src/Dispatcher/Replies.antt =====
-- src/agent_agora/dispatcher.py: the answers that are awaited, `_in_flight` and `_deadlines`.
pub mod Dispatches
pub mod Expired
use agent_agora.Dispatcher.{
  Dispatcher, drop_in_flight, expect, keep_pending, drop_replier, ◌∷◌, some,
}
use agent_agora.Prelude.{
  String, String, String, List, List, Option, elem, Dict, Dict, lookup, Dict, ◌≡◌, or_default, ◌≡◌,
  ◌≡◌, ◌≡◌, false, if◌then◌else◌, if◌then◌else◌, discard, [], [], ◌==◌, ◌==◌, arith, arith, arith,
  ◌&&◌, lookup-remove, eq_iff, eq_iff, add, refl, lookup-insert, lookup-insert, insert, none,
}
use agent_agora.Dispatcher.Cancel.{pending_targets, pending_targets}

discard-absent : (k : String) (ks : List String) → elem k ks ≡ false → discard k ks ≡ ks
discard-absent k [] h = refl
discard-absent k (j ∷ ks) h = ground (arith, discard-absent k ks)

lookup-keep_pending :
    (cmd_id c : String) (left : List String) (pending : Dict (List String))
    → or_default (lookup c (keep_pending cmd_id left pending)) []
      ≡ (if cmd_id == c then left else or_default (lookup c pending) [])
lookup-keep_pending cmd_id c [] pending = ground (arith, lookup-remove cmd_id c pending)
lookup-keep_pending cmd_id c (t ∷ ts) pending =
    ground (arith, lookup-insert cmd_id c (t ∷ ts) pending)

lookup-drop_replier :
    (cmd_id replier c : String) (o : Option (List String)) (pending : Dict (List String))
    → lookup cmd_id pending ≡ o
    → or_default (lookup c (drop_replier cmd_id replier o pending)) [] ≡ (
        if cmd_id == c then discard replier (or_default o []) else or_default (lookup c pending) [])
lookup-drop_replier cmd_id replier c none pending h = ground (arith, eq_iff cmd_id c)
lookup-drop_replier cmd_id replier c (some s) pending h = ground (
  arith,
  eq_iff cmd_id c,
  lookup-keep_pending cmd_id c (discard replier s) pending,
  discard-absent replier s,
)

-- A reply counts off the replier under the command, for every source, and nothing else.
pub pending_targets-drop_in_flight :
    (cmd_id replier source c : String) (m : Dict (Dict (List String)))
    → pending_targets source c (drop_in_flight cmd_id replier m) ≡ (
        if cmd_id == c
        then discard replier (pending_targets source c m)
        else pending_targets source c m)
unfolding pending_targets drop_in_flight lookup
pending_targets-drop_in_flight cmd_id replier source c [] = ground arith
pending_targets-drop_in_flight cmd_id replier source c ((s, pending) ∷ m) = ground (
  arith,
  eq_iff cmd_id c,
  lookup-drop_replier cmd_id replier c (lookup cmd_id pending) pending refl,
  pending_targets-drop_in_flight cmd_id replier source c m,
)

pub pending_targets-expect :
    (source cmd_id target s c : String) (m : Dict (Dict (List String)))
    → pending_targets s c (expect source cmd_id target m) ≡ (
        if source == s && cmd_id == c
        then add target (pending_targets s c m)
        else pending_targets s c m)
unfolding pending_targets expect
pending_targets-expect source cmd_id target s c m =
    let pending = or_default (lookup source m) [] in
    let l = add target (or_default (lookup cmd_id pending) []) in
    ground (
      arith,
      eq_iff source s,
      eq_iff cmd_id c,
      lookup-insert source s (insert cmd_id l pending) m,
      lookup-insert cmd_id c l pending,
    )
