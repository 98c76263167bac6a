-- ===== src/Files/Routes.antt =====
-- src/agent_agora/files/routes.py: the upload and the download of a file over HTTP.
pub mod Shared
use agent_agora.Text.{ℤ, pos, parse_int}
use agent_agora.Prelude.{
  ℕ, Option, Option, List, String, String, String, String, Option, String, Bool, Bool,
  if◌then◌else◌, Bool, or_default, Bool, ltb, false, ◌==◌, ◌==◌, none, ◌+◌, true, true, length,
  ◌++◌, [],
}
use agent_agora.Files.{Libraries, FilePolicy, can_upload, some, can_download, ◌∷◌}
use agent_agora.Files.Store.{
  Digests, FileStore, Handle, Bytes, FileRow, FileRow, file_meta, path_of, store_bytes,
}
use agent_agora.Errors.{
  file_too_large, Error, Result, ok, unknown_file, unknown_file, raise, file_upload_denied,
  file_download_denied, ◌>>=◌,
}

-- A response: what is sent, a status with an error, or an exception of the handler.
pub data Response (A : Type 0) : Type 0 where
  sent : A → Response A
  denied : (status : ℕ) → Error → Response A
  failed : Error → Response A

-- What the handlers read of a request: the headers, where they are given, and the body in chunks.
pub record Upload : Type 0 where
  pub worker : Option String
  pub file_name : Option String
  pub content_length : Option String
  pub chunks : List Bytes

abbrev int_above : ℕ → Option ℤ → Bool
int_above max_bytes (some (pos n)) = ltb max_bytes n
int_above max_bytes _ = false

-- `int(cl) > max_bytes`; a header that is no number is passed over.
unfoldable pub declares_too_much : ℕ → Option String → Bool
unfolding parse_int
declares_too_much max_bytes none = false
declares_too_much max_bytes (some cl) = int_above max_bytes (parse_int cl)

-- The loop over the stream, after `total` bytes.
unfoldable pub read_stream : (max_bytes total : ℕ) → List Bytes → Result Bytes
read_stream max_bytes total [] = ok []
read_stream max_bytes total (chunk ∷ chunks) =
    let later = read_stream max_bytes (total + length chunk) chunks in
    if ltb max_bytes (total + length chunk)
    then raise file_too_large
    else later >>= (λ rest. ok (chunk ++ rest))

-- `worker or None`
abbrev pub or_nobody : String → Option String
or_nobody w = if w == "" then none else some w

abbrev pub stored : Result Handle × FileStore → Response Handle × FileStore
stored (ok h, s) = (sent h, s)
stored (raise file_too_large, s) = (denied 400 file_too_large, s)
stored (raise e, s) = (failed e, s)

abbrev pub store_read :
    Digests
    → (now : ℕ) (fid worker name : String) → FileStore
    → Result Bytes
    → Response Handle × FileStore
store_read g now fid worker name s (raise e) = (denied 413 e, s)
store_read g now fid worker name s (ok content) =
    stored (store_bytes g now fid content name (or_nobody worker) s)

abbrev pub upload_allowed :
    Digests
    → (now : ℕ) (fid worker name : String) → Upload
    → FileStore
    → Result Bool
    → Response Handle × FileStore
upload_allowed g now fid worker name q s (raise e) = (failed e, s)
upload_allowed g now fid worker name q s (ok false) = (denied 403 file_upload_denied, s)
upload_allowed g now fid worker name q s (ok true) =
    if declares_too_much s.max_bytes q.content_length
    then (denied 413 file_too_large, s)
    else store_read g now fid worker name s (read_stream s.max_bytes 0 q.chunks)

unfoldable pub upload :
    Libraries
    → Digests
    → (now : ℕ) (fid : String) → FilePolicy
    → Upload
    → FileStore
    → Response Handle × FileStore
unfolding can_upload
upload libs g now fid p q s =
    let worker = or_default q.worker "" in
    let name = or_default q.file_name "upload.bin" in
    upload_allowed g now fid worker name q s (can_upload libs p worker name)

-- What `FileResponse` sends.
pub record Sent : Type 0 where
  pub content : Bytes
  pub media_type : String
  pub filename : String

-- `meta["content_type"] or "application/octet-stream"`
abbrev pub media_or_default : Option String → String
media_or_default none = "application/octet-stream"
media_or_default (some t) = if t == "" then "application/octet-stream" else t

abbrev pub send_path : FileRow → Option Bytes → Response Sent
send_path r none = denied 404 unknown_file
send_path r (some content) =
    sent (record {
      content = content;
      media_type = media_or_default r.content_type;
      filename = r.name;
    })

abbrev pub send_allowed : FileRow → Option Bytes → Result Bool → Response Sent
send_allowed r path (raise e) = failed e
send_allowed r path (ok false) = denied 403 file_download_denied
send_allowed r path (ok true) = send_path r path

abbrev pub send_known :
    Libraries → FilePolicy → (worker : String) → Option Bytes → Option FileRow → Response Sent
send_known libs p worker path none = denied 404 unknown_file
send_known libs p worker path (some r) = send_allowed r path (can_download libs p worker r.name)

unfoldable pub download :
    Libraries → FilePolicy → (worker : Option String) (file_id : String) → FileStore → Response Sent
unfolding file_meta path_of
download libs p worker file_id s =
    send_known libs p (or_default worker "") (path_of file_id s) (file_meta file_id s)
