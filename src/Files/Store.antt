-- ===== src/Files/Store.antt =====
-- src/agent_agora/files/store.py and the table `files` of storage/persistence.py. A digest and the
-- guess of a type are parameters; the directory is a map from a file's id to its bytes.
use agent_agora.Prelude.{
  ℕ, List, String, String, Dict, String, String, String, String, String, String, Option, String,
  Option, lookup, List, List, Bool, List, String, List, length, Option, ◌==◌, none, if◌then◌else◌,
  if◌then◌else◌, insert, [], if◌then◌else◌, sort_by, ltb, keep, remove, ◌∷◌, some, any, not, ◌-◌,
  ◌*◌, ◌++◌,
}
use agent_agora.Errors.{Result, raise, raise, write_failed, file_too_large, file_too_large, ok}

abbrev pub Bytes : Type 0
Bytes = List ℕ

-- `hashlib.sha256` and `mimetypes.guess_type`
pub record Digests : Type 0 where
  pub sha256 : Bytes → String
  pub guess_type : String → Option String

-- A row of `files`; its primary key is the id.
pub record FileRow : Type 0 where
  pub file_id : String
  pub name : String
  pub size : ℕ
  pub sha256 : String
  pub content_type : Option String
  pub registered_by : Option String
  pub created_at : ℕ

pub record FileStore : Type 0 where
  pub directory : Dict Bytes
  pub table : List FileRow
  pub max_bytes : ℕ

pub record Handle : Type 0 where
  pub file_id : String
  pub name : String
  pub size : ℕ
  pub sha256 : String

abbrev pub is_file : String → FileRow → Bool
is_file fid r = r.file_id == fid

abbrev pub first_file : String → List FileRow → Option FileRow
first_file fid [] = none
first_file fid (r ∷ rs) = if is_file fid r then some r else first_file fid rs

-- `meta`: `get_file` of the table
unfoldable pub file_meta : String → FileStore → Option FileRow
file_meta fid s = first_file fid s.table

-- `_record`, with `save_file`: an id that is there breaks the primary key.
unfoldable pub record_file : FileRow → FileStore → Result Handle × FileStore
record_file r s = if any (is_file r.file_id) s.table then (raise write_failed, s) else (
  ok (record { file_id = r.file_id; name = r.name; size = r.size; sha256 = r.sha256 }),
  record s { table = s.table ++ r ∷ [] },
)

-- The bytes are written first, under the new id `fid`.
unfoldable pub store_bytes :
    Digests
    → (now : ℕ) (fid : String) (content : Bytes) (name : String) (registered_by : Option String)
    → FileStore
    → Result Handle × FileStore
unfolding record_file
store_bytes g now fid content name registered_by s =
    if ltb s.max_bytes (length content)
    then (raise file_too_large, s)
    else record_file
        (record {
          file_id = fid;
          name = name;
          size = length content;
          sha256 = g.sha256 content;
          content_type = g.guess_type name;
          registered_by = registered_by;
          created_at = now;
        })
        (record s { directory = insert fid content s.directory })

abbrev copied : String → Bytes → Dict Bytes → Dict Bytes
copied fid source d = insert fid source d

abbrev bytes_or_none : Option Bytes → Bytes
bytes_or_none none = []
bytes_or_none (some content) = content

-- The file `source` is copied, and the digest is that of the copy.
unfoldable pub store_path :
    Digests
    → (now : ℕ) (fid : String) (source : Bytes) (name : String) (registered_by : Option String)
    → FileStore
    → Result Handle × FileStore
unfolding record_file
store_path g now fid source name registered_by s =
    let size = length source in
    if ltb s.max_bytes size
    then (raise file_too_large, s)
    else (let d = copied fid source s.directory in
        record_file
          (record {
            file_id = fid;
            name = name;
            size = size;
            sha256 = g.sha256 (bytes_or_none (lookup fid d));
            content_type = g.guess_type name;
            registered_by = registered_by;
            created_at = now;
          })
          (record s { directory = d }))

abbrev when_known : Option FileRow → Option Bytes → Option Bytes
when_known none b = none
when_known (some r) b = b

-- The bytes at the path: there is one if both the row and the bytes are there.
unfoldable pub path_of : String → FileStore → Option Bytes
unfolding file_meta lookup
path_of fid s = when_known (file_meta fid s) (lookup fid s.directory)

-- `ORDER BY created_at DESC`
unfoldable pub list_files : FileStore → List FileRow
list_files s = sort_by (λ a b. ltb b.created_at a.created_at) s.table

abbrev pub file_ids : List FileRow → List String
file_ids [] = []
file_ids (r ∷ rs) = r.file_id ∷ file_ids rs

abbrev pub is_older : ℕ → FileRow → Bool
is_older cutoff r = ltb r.created_at cutoff

unfoldable pub files_before : ℕ → FileStore → List String
files_before cutoff s = file_ids (keep (is_older cutoff) s.table)

unfoldable pub delete_file : String → FileStore → FileStore
delete_file fid s = record s {
  directory = remove fid s.directory;
  table = keep (λ r. not (is_file fid r)) s.table;
}

unfoldable pub delete_all : List String → FileStore → FileStore
unfolding delete_file
delete_all [] s = s
delete_all (fid ∷ fids) s = delete_all fids (delete_file fid s)

unfoldable pub gc : (cutoff : ℕ) → FileStore → ℕ × FileStore
unfolding files_before delete_all
gc cutoff s = let victims = files_before cutoff s in (length victims, delete_all victims s)

-- `file_gc_sweep` of the sweeper (sweeper.py); a day is 86 400 seconds of a million microseconds.
unfoldable pub file_gc_sweep :
    (now file_retention_days : ℕ) → Option FileStore → ℕ × Option FileStore
unfolding gc
file_gc_sweep now days none = (0, none)
file_gc_sweep now days (some s) = let (n, s1) = gc (now - days * 86_400_000_000) s in (n, some s1)
