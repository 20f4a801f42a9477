-- ===== src/Tests/Files.antt =====
-- Runs of the theorems on the requests to a dav, on a file system that holds one file.
use vestirust.Prelude.{
  ◌++◌, ℕ, ◌/◌, ◌<◌, true, false, Option, none, some, String, [], ◌∷◌, ◌≡◌, ◌⊎◌, refl, ok, inr,
  length, str_eq, eq_refl, arith, if◌then◌else◌, ap,
}
use vestirust.Prelude.Texts.{concat}
use vestirust.Prelude.Slices.{take, drop}
use vestirust.Model.{Dav}
use vestirust.Davs.EncryptedStreamer.Position.{plain_chunk_size}
use vestirust.Davs.EncryptedStreamer.Cipher.{Bytes, counter_max, read_chunk}
use vestirust.Davs.EncryptedStreamer.{copy_from}
use vestirust.Davs.Webdav.FileSystem.{FileSystem, Metadata, since_epoch}
use vestirust.Davs.Webdav.Paths.{
  extract_path, contains_dots, join, is_absolute, split_slash, join_slash,
}
use vestirust.Davs.Webdav.FilePath.{file_name, components, parent}
use vestirust.Davs.Webdav.PathItem.{Libraries}
use vestirust.Davs.Webdav.Response.{Response}
use vestirust.Davs.Webdav.Upload.{Chance, handle_upload, ensure_path_parent, stored, done_or_error}
use vestirust.Davs.Webdav.Upload.Created.{IsCreated}
use vestirust.Davs.Webdav.SendFile.{Texts}
use vestirust.Davs.Webdav.SendFile.Whole.{no_conditions, HasContent}
use vestirust.Davs.Webdav.Dispatch.{Request, Method, target_of, handle, call}
use vestirust.Davs.Webdav.Copy.Footprint.{HasNames}
use vestirust.Davs.Webdav.Dispatch.Footprint.{IsInside, IsPermitted, call-IsPermitted}
use vestirust.Davs.Webdav.Dispatch.PutGet.{Stores, call-put-get}
use vestirust.Davs.Webdav.Dispatch.Put.{put_request}
use vestirust.Davs.Webdav.Dispatch.Get.{get_request}
use vestirust.Tests.Cipher.{counting_cipher, counting_cipher-IsStream, reads_all, reads_all-IsRead}

-- the file and its content
abbrev pub OneFile : Type 0
OneFile = Option (String × Bytes)

abbrev pub file_metadata : ℕ → Metadata
file_metadata len = record {
  is_dir = false;
  is_file = true;
  is_symlink = false;
  len = len;
  modified = some (since_epoch 1000);
}

abbrev pub dir_metadata : Metadata
dir_metadata = record {
  is_dir = true;
  is_file = false;
  is_symlink = false;
  len = 4096;
  modified = some (since_epoch 1000);
}

abbrev one_metadata : OneFile → String → Option Metadata
one_metadata none path = if str_eq path "/srv" then some dir_metadata else none
one_metadata (some (name, bytes)) path =
    if str_eq path name
    then some (file_metadata (length bytes))
    else if str_eq path "/srv"
    then some dir_metadata
    else none

abbrev one_open : OneFile → String → Option Bytes
one_open none path = none
one_open (some (name, bytes)) path = if str_eq path name then some bytes else none

-- A directory `/srv` and at most one file.
abbrev pub one_file : FileSystem OneFile
one_file = record {
  metadata = one_metadata;
  symlink_metadata = one_metadata;
  canonicalize = λ w path. some path;
  open_file = one_open;
  read_dir = λ w path. some [];
  walk = λ w path. [];
  create = λ path w. (some (path, []), true);
  write_all = λ path bytes w. (some (path, bytes), true);
  create_dir = λ path w. (w, false);
  create_dir_all = λ path w. (w, true);
  remove_file = λ path w. (none, true);
  remove_dir_all = λ path w. (none, true);
  rename = λ path to w. (w, false);
  copy = λ path to w. (w, false);
}

one_file-Stores : (path : String) → Stores one_file path
one_file-Stores path = record {
  meta = λ w. file_metadata (elim w [ none ↦ 0 | some f ↦ length f.1 ]);
  read_back = λ bytes w w₁ w₂ c k.
      let e : some (path, bytes) ≡ w₂ = ap (λ r. r.0) k in
      rw (← e, eq_refl path) (refl, refl, refl, refl, refl, tt);
}

abbrev pub libraries : Libraries
libraries = record {
  decode = λ text. some text;
  parse_uri_path = λ text. some text;
  to_lowercase = λ text. text;
  rfc2822 = λ time. "";
  escape_pcdata = λ text. text;
  paths_to_json = λ items. some "[]";
  urlencode = λ text. text;
  archive = λ entries closed. [];
}

abbrev pub texts : Texts
texts = record { mime_guess = λ path. none; http_date = λ time. "now"; urlencode = λ text. text }

abbrev nonce : Bytes
nonce = 9 ∷ 2 ∷ 3 ∷ 4 ∷ 5 ∷ 6 ∷ 7 ∷ 8 ∷ 9 ∷ 1 ∷ 1 ∷ 1 ∷ 1 ∷ 1 ∷ 1 ∷ 1 ∷ 1 ∷ 1 ∷ 9 ∷ []

abbrev pub chance : Chance
chance = record { nonce = nonce; uuid = "1-2"; timestamp = "3"; flushed = 0 }

-- a writable dav with a key, without links
abbrev pub files : Dav
files = record {
  id = 1;
  host = "files.example.org";
  directory = "/srv";
  writable = true;
  name = "Files";
  icon = "";
  color = "";
  secured = false;
  allow_symlinks = false;
  roles = [];
  passphrase = "";
  key = some (1 ∷ 2 ∷ 3 ∷ []);
}

abbrev pub content : Bytes
content = 104 ∷ 101 ∷ 108 ∷ 108 ∷ 111 ∷ []

abbrev pub with_a : OneFile
with_a = some ("/srv/a", content)

abbrev pub request : Request
request = record {
  method = Method.put;
  path = "/a";
  query = none;
  conditions = no_conditions;
  depth = [];
  overwrite = [];
  destination = none;
  body = record { bytes = content; fails = false };
}

few_chunks : length content / plain_chunk_size < counter_max
few_chunks = omega arith

pub extracted : extract_path libraries.decode "/a" "/srv" ≡ ok (some "/srv/a")
unfolding extract_path contains_dots join concat
extracted = refl

pub named_a : file_name "/srv/a" ≡ some "a"
unfolding file_name components is_absolute split_slash
named_a = refl

created : IsCreated (
    call counting_cipher reads_all texts libraries 0 chance one_file files
      (put_request request content)
      none)
unfolding call handle extract_path contains_dots join concat target_of handle_upload
    ensure_path_parent stored done_or_error parent copy_from read_chunk take drop components
    split_slash join_slash
created = refl

abbrev after_put : OneFile
after_put =
    (call counting_cipher reads_all texts libraries 0 chance one_file files
      (put_request request content) none).0

components_of_a : components "/srv/a" ≡ components "/srv" ++ ("a" ∷ [])
unfolding components is_absolute split_slash
components_of_a = refl

inside : IsInside one_file files after_put "/srv/a"
inside = inr (
    inr (record {
      root = "/srv";
      target = "/srv/a";
      rest = "a" ∷ [];
      is_root = refl;
      is_target = refl;
      below = components_of_a;
    }))

call-put-get_example :
    (sent : Response) × (call counting_cipher reads_all texts libraries 0 chance one_file files
        (get_request request)
        after_put
      ≡ (after_put, ok sent))
    × HasContent content sent
call-put-get_example =
    call-put-get chance (λ key. counting_cipher-IsStream key nonce) refl reads_all-IsRead texts
      libraries 0 one_file files request "/srv/a" "a" (one_file-Stores "/srv/a") content none
      extracted named_a few_chunks created inside

-- The directories are empty.
no_entries : HasNames one_file
no_entries w path [] e = tt
no_entries w path (entry ∷ rest) e = cc

call-IsPermitted_example :
    ((call counting_cipher reads_all texts libraries 0 chance one_file files
        (put_request request content)
        none).0
      ≡ none)
    ⊎ IsPermitted libraries one_file files (put_request request content) none after_put
call-IsPermitted_example =
    call-IsPermitted counting_cipher reads_all texts libraries 0 chance one_file no_entries files
      (put_request request content) none
