-- ===== src/Files/Routes/Shared.antt =====
-- src/agent_agora/files: a file that is shared, from the upload to the download and to its end.
use agent_agora.Prelude.{
  ℕ, List, ◌≡◌, ◌++◌, arith, [], Bool-cases, ltb, ◌+◌, length, inl, inr, String, String, String,
  Option, any, some, false, ◌≤◌, ap, ◌==◌, insert, if◌then◌else◌, sym, eq_iff, eq_iff,
  lookup-insert, refl, Bool, true, or_default, subst, ◌∙◌,
}
use agent_agora.Files.{Libraries, FilePolicy, ◌∷◌, can_download, can_upload}
use agent_agora.Files.Store.{
  Digests, FileStore, Handle, Bytes, store_bytes, FileRow, FileRow, record_file, file_meta,
  file_meta, is_file, path_of, first_file,
}
use agent_agora.Files.Routes.{
  read_stream, Upload, upload, stored, download, sent, upload_allowed, sent, declares_too_much,
  or_nobody, media_or_default, send_known, send_allowed,
}
use agent_agora.Errors.{ok, >>=-eq-ok, Result, raise, Result-cases}

abbrev pub joined : List Bytes → Bytes
joined [] = []
joined (chunk ∷ chunks) = chunk ++ joined chunks

-- The stream that is read is the whole body, and no longer than the bound.
read_stream-ok :
    (max_bytes total : ℕ) (chunks : List Bytes) (content : Bytes)
    → read_stream max_bytes total chunks ≡ ok content
    → (content ≡ joined chunks)
unfolding read_stream
read_stream-ok max_bytes total [] content h = ground arith
read_stream-ok max_bytes total (chunk ∷ chunks) content h =
    elim (Bool-cases (ltb max_bytes (total + length chunk))) [
      | inl over ↦ absurd (ground arith)
      | inr fits ↦
          let (rest, read, e) =
            >>=-eq-ok (read_stream max_bytes (total + length chunk) chunks) _ (rw fits at h) in
          ground (arith, read_stream-ok max_bytes (total + length chunk) chunks rest read)
    ]

-- The store after the bytes of one more file, and its row.
abbrev row_for : Digests → (now : ℕ) (fid name : String) (content : Bytes) → Option String → FileRow
row_for g now fid name content who = record {
  file_id = fid;
  name = name;
  size = length content;
  sha256 = g.sha256 content;
  content_type = g.guess_type name;
  registered_by = who;
  created_at = now;
}

first_file-append :
    (fid : String) (r : FileRow) (rs : List FileRow)
    → any (is_file r.file_id) rs ≡ false
    → first_file fid (rs ++ r ∷ []) ≡ (if r.file_id == fid then some r else first_file fid rs)
first_file-append fid r [] h = refl
first_file-append fid r (x ∷ rs) h = ground (
  arith,
  first_file-append fid r rs,
  eq_iff r.file_id fid,
  eq_iff x.file_id fid,
  eq_iff x.file_id r.file_id,
)

-- What a file that was stored has.
pub record IsShared (g : Digests) (fid name : String) (content : Bytes) (s s' : FileStore)
    : Type 0 where
  pub row : FileRow
  pub listed : file_meta fid s' ≡ some row
  pub named : row.name ≡ name
  pub sized : row.size ≡ length content
  pub hashed : row.sha256 ≡ g.sha256 content
  pub kept : path_of fid s' ≡ some content
  pub in_bound : length content ≤ s.max_bytes
  pub others : (other : String) → (fid == other) ≡ false → path_of other s' ≡ path_of other s

store_bytes-IsShared :
    (g : Digests) (now : ℕ) (fid : String) (content : Bytes) (name : String) (who : Option String)
    (s s' : FileStore) (h : Handle)
    → store_bytes g now fid content name who s ≡ (ok h, s')
    → IsShared g fid name content s s' × (h.file_id ≡ fid)
unfolding store_bytes record_file file_meta path_of
store_bytes-IsShared g now fid content name who s s' h e =
    elim (Bool-cases (ltb s.max_bytes (length content))) [
      | inl over ↦ absurd (let y = ap (λ x. x.0) (rw over at e) in cc)
      | inr fits ↦ elim (Bool-cases (any (is_file fid) s.table)) [
        | inl taken ↦ absurd (let y = ap (λ x. x.0) (rw (fits, taken) at e) in cc)
        | inr free ↦
            let r = row_for g now fid name content who in
            let t : s' ≡ record s {
              directory = insert fid content s.directory;
              table = s.table ++ r ∷ [];
            } =
              sym (ap (λ x. x.1) (rw (fits, free) at e)) in
            let found = first_file-append fid r s.table free in
            (
              record {
                row = r;
                listed = ground (arith, found, eq_iff fid fid);
                named = refl;
                sized = refl;
                hashed = refl;
                kept =
                    ground
                      (arith, found, eq_iff fid fid, lookup-insert fid fid content s.directory);
                in_bound = ground arith;
                others = λ other apart. ground (
                  arith,
                  first_file-append other r s.table free,
                  lookup-insert fid other content s.directory,
                );
              },
              ground (arith, ap (λ x. x.0) (rw (fits, free) at e)),
            )
      ]
    ]

stored-sent :
    (x : Result Handle × FileStore) (h : Handle) (s' : FileStore)
    → stored x ≡ (sent h, s')
    → x ≡ (ok h, s')
stored-sent (ok k, s) h s' e = ground (arith, ap (λ y. y.0) e, ap (λ y. y.1) e)
stored-sent (raise c, s) h s' e = absurd (ground (arith, ap (λ y. y.0) e))

upload_allowed-sent :
    (g : Digests) (now : ℕ) (fid worker name : String) (q : Upload) (s s' : FileStore)
    (may : Result Bool) (h : Handle)
    → upload_allowed g now fid worker name q s may ≡ (sent h, s')
    → (may ≡ ok true) × IsShared g fid name (joined q.chunks) s s' × (h.file_id ≡ fid)
upload_allowed-sent g now fid worker name q s s' (raise c) h e =
    absurd (let y = ap (λ x. x.0) e in cc)
upload_allowed-sent g now fid worker name q s s' (ok false) h e =
    absurd (let y = ap (λ x. x.0) e in cc)
upload_allowed-sent g now fid worker name q s s' (ok true) h e =
    elim (Bool-cases (declares_too_much s.max_bytes q.content_length)) [
      | inl over ↦ absurd (let y = ap (λ x. x.0) (rw over at e) in cc)
      | inr fits ↦ elim (Result-cases (read_stream s.max_bytes 0 q.chunks)) [
        | inr (c, over) ↦ absurd (let y = ap (λ x. x.0) (rw (fits, over) at e) in cc)
        | inl (content, read) ↦
            let done = stored-sent _ h s' (rw (fits, read) at e) in
            let (shared, same) =
              store_bytes-IsShared g now fid content name (or_nobody worker) s s' h done in
            (
              refl,
              subst (λ c. IsShared g fid name c s s')
                  (read_stream-ok s.max_bytes 0 q.chunks content read) shared,
              same,
            )
      ]
    ]

download-sent :
    (libs : Libraries) (later : FilePolicy) (reader : Option String) (fid name : String)
    (content : Bytes) (row : FileRow) (s : FileStore)
    → file_meta fid s ≡ some row
    → path_of fid s ≡ some content
    → row.name ≡ name
    → can_download libs later (or_default reader "") name ≡ ok true
    → download libs later reader fid s
      ≡ sent (record {
        content = content;
        media_type = media_or_default row.content_type;
        filename = name;
      })
unfolding download
download-sent libs later reader fid name content row s listed kept named may =
    let may1 =
      subst (λ n. can_download libs later (or_default reader "") n ≡ ok true) (sym named) may in
    ap (λ x. send_known libs later (or_default reader "") x (file_meta fid s)) kept
    ∙ ap (send_known libs later (or_default reader "") (some content)) listed
    ∙ ap (send_allowed row (some content)) may1
    ∙ ap
        (λ n. sent (record {
          content = content;
          media_type = media_or_default row.content_type;
          filename = n;
        }))
        named

-- A file that an upload answered for was allowed by the policy and is within the bound. In any later
-- state of the store that still has the row and the bytes of its id as the upload left them, a download
-- of the id, by whoever the policy of that moment allows, sends the very bytes of the body under the
-- name of the upload; no other file has changed by the upload.
pub upload-download :
    (libs : Libraries) (g : Digests) (now : ℕ) (fid : String) (p later : FilePolicy) (q : Upload)
    (s s' s2 : FileStore) (h : Handle) (reader : Option String)
    → upload libs g now fid p q s ≡ (sent h, s')
    → file_meta h.file_id s2 ≡ file_meta h.file_id s'
    → path_of h.file_id s2 ≡ path_of h.file_id s'
    → can_download libs later (or_default reader "") (or_default q.file_name "upload.bin") ≡ ok true
    → (can_upload libs p (or_default q.worker "") (or_default q.file_name "upload.bin") ≡ ok true)
      × IsShared g fid (or_default q.file_name "upload.bin") (joined q.chunks) s s'
      × ((type : String) × (download libs later reader h.file_id s2
            ≡ sent (record {
              content = joined q.chunks;
              media_type = type;
              filename = or_default q.file_name "upload.bin";
            })))
unfolding upload
upload-download libs g now fid p later q s s' s2 h reader e same_row same_bytes may =
    let name = or_default q.file_name "upload.bin" in
    let (allowed, shared, same) =
      upload_allowed-sent g now fid (or_default q.worker "") name q s s'
        (can_upload libs p (or_default q.worker "") name) h e in
    (
      allowed,
      shared,
      (
        media_or_default shared.row.content_type,
        download-sent libs later reader h.file_id name (joined q.chunks) shared.row s2
            (same_row ∙ ap (λ f. file_meta f s') same ∙ shared.listed)
            (same_bytes ∙ ap (λ f. path_of f s') same ∙ shared.kept) shared.named may,
      ),
    )
