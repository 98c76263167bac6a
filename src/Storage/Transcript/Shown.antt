-- ===== src/Storage/Transcript/Shown.antt =====
-- src/agent_agora/storage/persistence.py: which row of a command a transcript shows.
use mathlib.Core.List.{Perm}
use agent_agora.Prelude.{
  ◌∷◌, [], some, none, true, false, String, Option, List, List, List, Option, Dict, List, lookup,
  insert, Option, Bool, if◌then◌else◌, All, Bool, has_key, keep, Bool-cases, if◌then◌else◌, keep,
  ◌==◌, ◌≡◌, ◌≡◌, values, ◌&&◌, values, arith, arith, not, arith, eq_iff, eq_iff, eq_iff, inl, refl,
  inr, All-insert, ◌∙◌, str_lt_asym, ℕ, IsSorted, sort_by-IsSorted, subst, sort_by, Perm-keep,
  sort_by-perm,
}
use agent_agora.Storage.{Row, Database}
use agent_agora.Storage.Transcript.{see, see, see_all, fetch_transcript, rows_since}
use agent_agora.Storage.Restart.{is_primary_row, is_primary_row, row_lt}

abbrev pub of_command : String → Row → Bool
of_command c r = r.command_id == c

abbrev or_else : Option Row → Option Row → Option Row
or_else none o = o
or_else (some r) o = some r

abbrev first_of : List Row → Option Row
first_of [] = none
first_of (r ∷ rs) = some r

abbrev last_primary : List Row → Option Row
last_primary [] = none
last_primary (r ∷ rs) = or_else (last_primary rs) (if is_primary_row r then some r else none)

-- The last primary row, or else the first row.
abbrev pub shown : List Row → Option Row
shown rs = or_else (last_primary rs) (first_of rs)

abbrev pub rows_of : Option Row → List Row
rows_of none = []
rows_of (some r) = r ∷ []

-- The keys are the commands of the rows.
abbrev IsKeyed : Dict Row → Type 0
IsKeyed d = All (λ e. e.1.command_id ≡ e.0) d

abbrev is_filled : List Row → Bool
is_filled [] = false
is_filled (r ∷ rs) = true

has_key-of_command :
    (c : String) (d : Dict Row)
    → IsKeyed d
    → has_key c d ≡ is_filled (keep (of_command c) (values d))
unfolding lookup
has_key-of_command c [] h = refl
has_key-of_command c ((k, r) ∷ d) h =
    ground (arith, has_key-of_command c d h.1, eq_iff k c, eq_iff r.command_id c)

abbrev replaced : Row → List Row → List Row
replaced r [] = r ∷ []
replaced r (x ∷ xs) = r ∷ xs

keep-insert :
    (c : String) (r : Row) (d : Dict Row)
    → IsKeyed d
    → keep (of_command c) (values (insert r.command_id r d)) ≡ (
        if of_command c r
        then replaced r (keep (of_command c) (values d))
        else keep (of_command c) (values d))
unfolding insert
keep-insert c r [] h = ground arith
keep-insert c r ((k, x) ∷ d) h = ground (
  arith,
  keep-insert c r d h.1,
  eq_iff k c,
  eq_iff k r.command_id,
  eq_iff x.command_id c,
  eq_iff r.command_id c,
)

see-IsKeyed : (r : Row) (d : Dict Row) → IsKeyed d → IsKeyed (see r d)
unfolding see
see-IsKeyed r d h = elim (Bool-cases (has_key r.command_id d && not (is_primary_row r))) [
  | inl stays ↦ rw stays h
  | inr set ↦ rw set (All-insert (λ e. e.1.command_id ≡ e.0) r.command_id r d refl h)
]

-- The row that is kept of a command, with the next row of it.
abbrev chosen : Option Row → Row → Option Row
chosen none r = some r
chosen (some x) r = if is_primary_row r then some r else some x

see-of_command :
    (c : String) (o : Option Row) (r : Row) (d : Dict Row)
    → IsKeyed d
    → keep (of_command c) (values d) ≡ rows_of o
    → keep (of_command c) (values (see r d)) ≡ rows_of (if of_command c r then chosen o r else o)
unfolding see
see-of_command c none r d h e =
    ground (arith, keep-insert c r d h, has_key-of_command r.command_id d h, eq_iff r.command_id c)
see-of_command c (some x) r d h e =
    ground (arith, keep-insert c r d h, has_key-of_command r.command_id d h, eq_iff r.command_id c)

-- All the rows of the command, after those that were seen.
seen_last : Option Row → List Row → Option Row
seen_last o rs = or_else (last_primary rs) (or_else o (first_of rs))

see_all-of_command :
    (c : String) (o : Option Row) (rs : List Row) (d : Dict Row)
    → IsKeyed d
    → keep (of_command c) (values d) ≡ rows_of o
    → keep (of_command c) (values (see_all rs d)) ≡ rows_of (seen_last o (keep (of_command c) rs))
unfolding see_all seen_last
see_all-of_command c none [] d h e = e
see_all-of_command c (some x) [] d h e = e
see_all-of_command c o (r ∷ rs) d h e =
    see_all-of_command c (if of_command c r then chosen o r else o) rs (see r d) (see-IsKeyed r d h)
      (see-of_command c o r d h e)
    ∙ seen_last-chosen o
  where
    seen_last-chosen :
        (p : Option Row)
        → rows_of (seen_last (if of_command c r then chosen p r else p) (keep (of_command c) rs))
          ≡ rows_of (seen_last p (keep (of_command c) (r ∷ rs)))
    seen_last-chosen none = ground arith
    seen_last-chosen (some x) = ground arith

row_lt_asym : (a b : Row) → row_lt a b ≡ true → row_lt b a ≡ false
unfolding row_lt
row_lt_asym a b h = ground (arith, str_lt_asym a.command_id b.command_id)

-- A transcript is sorted by time and command; and of each command it shows one row, if the conversation
-- has a row of it after the given time: the last primary row, or the first row where none is primary.
pub fetch_transcript-shown :
    (conversation_id : String) (since_ts : Option ℕ) (db : Database)
    → IsSorted row_lt (fetch_transcript conversation_id since_ts db)
      × ((c : String)
          → Perm
              (keep (of_command c) (fetch_transcript conversation_id since_ts db))
              (rows_of (shown (keep (of_command c) (rows_since conversation_id since_ts db)))))
unfolding fetch_transcript seen_last
fetch_transcript-shown conversation_id since_ts db =
    let rows = rows_since conversation_id since_ts db in
    (
      sort_by-IsSorted row_lt row_lt_asym (values (see_all rows [])),
      λ c.
          subst (Perm (keep (of_command c) (sort_by row_lt (values (see_all rows [])))))
            (see_all-of_command c none rows [] tt refl)
            (Perm-keep (of_command c) (sort_by-perm row_lt (values (see_all rows [])))),
    )
