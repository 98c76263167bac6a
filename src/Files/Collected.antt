-- ===== src/Files/Collected.antt =====
-- src/agent_agora/files/store.py: what the collection of old files takes away.
use agent_agora.Prelude.{
  ℕ, List, String, List, length, keep, ◌≡◌, ◌≡◌, lookup, ◌≡◌, not, not, not, if◌then◌else◌, elem,
  elem, elem, elem, elem, ◌∷◌, arith, [], ◌∙◌, none, none, eq_iff, lookup-remove, refl,
}
use agent_agora.Files.Store.{
  FileStore, delete_all, delete_all, gc, FileRow, FileRow, FileRow, delete_file, delete_file,
  files_before, file_ids, is_older, is_file,
}

length-file_ids : (rs : List FileRow) → length (file_ids rs) ≡ length rs
length-file_ids [] = refl
length-file_ids (r ∷ rs) = ground (arith, length-file_ids rs)

keep-file_ids :
    (fid : String) (fids : List String) (rs : List FileRow)
    → keep (λ r. not (elem r.file_id fids)) (keep (λ r. not (is_file fid r)) rs)
      ≡ keep (λ r. not (elem r.file_id (fid ∷ fids))) rs
keep-file_ids fid fids [] = refl
keep-file_ids fid fids (r ∷ rs) =
    ground (arith, keep-file_ids fid fids rs, eq_iff fid r.file_id, eq_iff r.file_id fid)

keep_all : (rs : List FileRow) → rs ≡ keep (λ r. not (elem r.file_id [])) rs
keep_all [] = refl
keep_all (r ∷ rs) = ground (arith, keep_all rs)

delete_all-table :
    (fids : List String) (s : FileStore)
    → (delete_all fids s).table ≡ keep (λ r. not (elem r.file_id fids)) s.table
unfolding delete_all delete_file
delete_all-table [] s = keep_all s.table
delete_all-table (fid ∷ fids) s =
    delete_all-table fids (delete_file fid s) ∙ keep-file_ids fid fids s.table

delete_all-directory :
    (fids : List String) (s : FileStore) (fid : String)
    → lookup fid (delete_all fids s).directory
      ≡ (if elem fid fids then none else lookup fid s.directory)
unfolding delete_all delete_file
delete_all-directory [] s fid = refl
delete_all-directory (x ∷ fids) s fid =
    ground (arith, delete_all-directory fids (delete_file x s) fid, lookup-remove x fid s.directory)

-- The collection deletes the rows and the bytes of exactly the ids that have a row before the cutoff,
-- and answers with the number of those rows.
pub gc-exact :
    (cutoff : ℕ) (s : FileStore) (fid : String)
    → ((gc cutoff s).0 ≡ length (keep (is_older cutoff) s.table))
      × ((gc cutoff s).1.table ≡ keep (λ r. not (elem r.file_id (files_before cutoff s))) s.table)
      × (lookup fid (gc cutoff s).1.directory
          ≡ (if elem fid (files_before cutoff s) then none else lookup fid s.directory))
unfolding gc files_before
gc-exact cutoff s fid =
    let victims = file_ids (keep (is_older cutoff) s.table) in
    (
      length-file_ids (keep (is_older cutoff) s.table),
      delete_all-table victims s,
      delete_all-directory victims s fid,
    )
