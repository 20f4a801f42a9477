-- ===== src/Davs/Webdav/Dispatch/Footprint.antt =====
-- Which requests change the files, and where.
use vestirust.Prelude.{
  ℕ, true, false, not, ◌&&◌, Option, none, some, String, ok, err, ◌≡◌, ◌⊎◌, refl, inl, inr,
  Bool-cases, arith,
}
use vestirust.Model.{Dav}
use vestirust.Davs.EncryptedStreamer.Cipher.{StreamCipher}
use vestirust.Davs.Streamer.{ReadSize}
use vestirust.Davs.Webdav.Paths.{io_error, panicked, out_of_fuel, extract_path}
use vestirust.Davs.Webdav.FileSystem.{FileSystem, Metadata}
use vestirust.Davs.Webdav.FileSystem.Changes.{Changes}
use vestirust.Davs.Webdav.Copy.Footprint.{HasNames}
use vestirust.Davs.Webdav.PathItem.Within.{IsWithin, contained-IsWithin}
use vestirust.Davs.Webdav.PathItem.{Libraries, is_root_contained}
use vestirust.Davs.Webdav.Upload.{Chance}
use vestirust.Davs.Webdav.SendFile.{Texts}
use vestirust.Davs.Webdav.Dispatch.{
  Request, Answer, target_of, handle_path, handle, answer_error, call,
}
use vestirust.Davs.Webdav.Dispatch.Kept.{MayWrite, IsKept, extract-cases, handle_method-IsKept}

-- Links are allowed, or there is nothing at the path, or what is there, with all links followed, is in
-- the directory.
abbrev pub IsInside : {World : Type 0} → FileSystem World → Dav → World → String → Type 0
IsInside fs dav w path =
    (dav.allow_symlinks ≡ true) ⊎ (fs.metadata w path ≡ none) ⊎ IsWithin fs w path dav.directory

-- The dav is writable, the request's path is inside, and only what its method may write to was
-- written to.
pub record IsPermitted {World : Type 0} (libraries : Libraries) (fs : FileSystem World) (dav : Dav)
    (req : Request) (w w' : World) : Type 0 where
  pub path : String
  pub extracted : extract_path libraries.decode req.path dav.directory ≡ ok (some path)
  pub writable : dav.writable ≡ true
  pub inside : IsInside fs dav w path
  pub changes : Changes fs (MayWrite libraries req.destination dav.directory req.method path) w w'

module _ {Encryptor Decryptor : Type 0} (cipher : StreamCipher Encryptor Decryptor)
    (read_size : ReadSize) (texts : Texts) (libraries : Libraries) (fuel : ℕ) (chance : Chance)
    {World : Type 0} (fs : FileSystem World) (names : HasNames fs) (dav : Dav) (req : Request) where
  -- an error of `handle` is answered in the world it left
  answer_error-world : (r : World × Answer) → (answer_error r).0 ≡ r.0
  unfolding answer_error
  answer_error-world (w, ok res) = refl
  answer_error-world (w, err io_error) = refl
  answer_error-world (w, err panicked) = refl
  answer_error-world (w, err out_of_fuel) = refl

  miss-none : (meta : Option Metadata) → (target_of meta).is_miss ≡ true → meta ≡ none
  unfolding target_of
  miss-none none h = refl
  miss-none (some meta) h = ground arith

  inside :
      (w : World) (path : String)
      → (not dav.allow_symlinks
          && not (target_of (fs.metadata w path)).is_miss
          && not (is_root_contained fs w path dav.directory))
        ≡ false
      → IsInside fs dav w path
  inside w path h = elim (Bool-cases dav.allow_symlinks) [
    | inl e ↦ inl e
    | inr e ↦ elim (Bool-cases (target_of (fs.metadata w path)).is_miss) [
      | inl m ↦ inr (inl (miss-none (fs.metadata w path) m))
      | inr m ↦ inr (inr (contained-IsWithin fs w path dav.directory (ground arith)))
    ]
  ]

  permitted :
      (path : String) (w w' : World)
      → extract_path libraries.decode req.path dav.directory ≡ ok (some path)
      → IsInside fs dav w path
      → IsKept fs
          (MayWrite libraries req.destination dav.directory req.method path)
          dav.writable
          w
          w'
      → (w' ≡ w) ⊎ IsPermitted libraries fs dav req w w'
  permitted path w w' x i (inl e) = inl e
  permitted path w w' x i (inr (e, c)) =
      inr (record { path = path; extracted = x; writable = e; inside = i; changes = c })

  handle_path-IsPermitted :
      (path : String) (w : World)
      → extract_path libraries.decode req.path dav.directory ≡ ok (some path)
      → ((handle_path cipher read_size texts libraries fuel chance fs dav req path w).0 ≡ w)
        ⊎ IsPermitted libraries fs dav req w
            (handle_path cipher read_size texts libraries fuel chance fs dav req path w).0
  unfolding handle_path
  handle_path-IsPermitted path w x =
      elim (Bool-cases (
        not dav.allow_symlinks
        && not (target_of (fs.metadata w path)).is_miss
        && not (is_root_contained fs w path dav.directory))) [
          | inl e ↦ rw e (inl refl)
          | inr e ↦ rw e (
              permitted path w _ x (inside w path e) (
                handle_method-IsKept cipher read_size texts libraries fuel chance fs names dav req
                  req.method path (target_of (fs.metadata w path)) w))
        ]

  handle-IsPermitted :
      (w : World)
      → ((handle cipher read_size texts libraries fuel chance fs dav req w).0 ≡ w)
        ⊎ IsPermitted libraries fs dav req w
            (handle cipher read_size texts libraries fuel chance fs dav req w).0
  unfolding handle
  handle-IsPermitted w =
      elim (extract-cases (extract_path libraries.decode req.path dav.directory)) [
        | inl (x, k) ↦ rw (k, handle) (inl refl)
        | inr (inl k) ↦ rw (k, handle) (inl refl)
        | inr (inr (path, k)) ↦ rw (k, handle) (handle_path-IsPermitted path w k)
      ]

  -- On a file system whose directories have names as their entries, a request changes the files only if
  -- the dav is writable, its path decodes, and links are allowed, or nothing is at the path, or what is
  -- there has, with all links followed, the components of the directory and then others; and then only
  -- by operations on what its method may write to: an upload on its path and the directory above it, a
  -- deletion and a new directory on the path, a copy on the destination and what names that are not
  -- absolute lead to from there, a move on the destination and on the path. All other methods leave the
  -- files as they are.
  pub call-IsPermitted :
      (w : World)
      → ((call cipher read_size texts libraries fuel chance fs dav req w).0 ≡ w)
        ⊎ IsPermitted libraries fs dav req w
            (call cipher read_size texts libraries fuel chance fs dav req w).0
  unfolding call
  call-IsPermitted w = rw answer_error-world (handle-IsPermitted w)
