-- ===== src/Davs/Webdav/Dispatch/Kept.antt =====
-- Where the handlers of the methods write.
use vestirust.Prelude.{
  ℕ, Bool, true, false, Option, none, some, String, Result, ok, err, ◌≡◌, ◌⊎◌, refl, inl, inr,
  Bool-cases, Option-cases, arith,
}
use vestirust.Model.{Dav}
use vestirust.Davs.EncryptedStreamer.Cipher.{StreamCipher}
use vestirust.Davs.Streamer.{ReadSize}
use vestirust.Davs.Webdav.Paths.{Fault}
use vestirust.Davs.Webdav.FilePath.{parent}
use vestirust.Davs.Webdav.FileSystem.{FileSystem}
use vestirust.Davs.Webdav.FileSystem.Changes.{Changes, same}
use vestirust.Davs.Webdav.PathItem.{Libraries}
use vestirust.Davs.Webdav.Response.{Response, default_response}
use vestirust.Davs.Webdav.Upload.{Chance}
use vestirust.Davs.Webdav.Upload.Footprint.{
  handle_upload-Changes, handle_delete-Changes, handle_mkcol-Changes,
}
use vestirust.Davs.Webdav.CopyMove.{extract_dest, wants_overwrite, copy_depth, handle_copymove}
use vestirust.Davs.Webdav.Copy.Footprint.{Below, HasNames}
use vestirust.Davs.Webdav.CopyMove.Footprint.{copymove_to-Changes}
use vestirust.Davs.Webdav.SendFile.{Texts}
use vestirust.Davs.Webdav.Dispatch.{
  Method, get, head, options, put, delete, propfind, proppatch, mkcol, copy, move, lock, unlock,
  other, Request, Target, has_data, handle_put, handle_delete_request, handle_mkcol_request,
  handle_copymove_request, handle_method,
}

-- A path that the header leads to, or one below it.
abbrev pub UnderDestination : Libraries → Option String → String → String → Type 0
UnderDestination libraries destination directory q =
    (dest : String) × (extract_dest libraries destination directory ≡ ok (some dest)) × Below dest q

-- Where a method may write, for the path of the request, its destination and the dav's directory.
abbrev pub MayWrite : Libraries → Option String → String → Method → String → String → Type 0
MayWrite libraries destination directory put path q = (q ≡ path) ⊎ (parent path ≡ some q)
MayWrite libraries destination directory delete path q = q ≡ path
MayWrite libraries destination directory mkcol path q = q ≡ path
MayWrite libraries destination directory copy path q =
    UnderDestination libraries destination directory q
MayWrite libraries destination directory move path q =
    (q ≡ path) ⊎ UnderDestination libraries destination directory q
MayWrite libraries destination directory get path q = ⊥
MayWrite libraries destination directory head path q = ⊥
MayWrite libraries destination directory options path q = ⊥
MayWrite libraries destination directory propfind path q = ⊥
MayWrite libraries destination directory proppatch path q = ⊥
MayWrite libraries destination directory lock path q = ⊥
MayWrite libraries destination directory unlock path q = ⊥
MayWrite libraries destination directory other path q = ⊥

abbrev pub IsKept :
    {World : Type 0} → FileSystem World → (String → Type 0) → Bool → World → World → Type 0
IsKept fs P writable w w' = (w' ≡ w) ⊎ ((writable ≡ true) × Changes fs P w w')

pub extract-cases :
    (r : Result Fault (Option String))
    → ((x : Fault) × (r ≡ err x)) ⊎ (r ≡ ok none) ⊎ ((path : String) × (r ≡ ok (some path)))
extract-cases (err x) = inl (x, refl)
extract-cases (ok none) = inr (inl refl)
extract-cases (ok (some path)) = inr (inr (path, refl))

module _ {Encryptor Decryptor : Type 0} (cipher : StreamCipher Encryptor Decryptor)
    (read_size : ReadSize) (texts : Texts) (libraries : Libraries) (fuel : ℕ) (chance : Chance)
    {World : Type 0} (fs : FileSystem World) (names : HasNames fs) (dav : Dav) (req : Request) where
  abbrev pub May : Method → String → String → Type 0
  May = MayWrite libraries req.destination dav.directory

  handle_put-IsKept :
      (path : String) (target : Target) (w : World)
      → IsKept fs
          (May put path)
          dav.writable
          w
          (handle_put cipher read_size texts libraries fuel chance fs dav req path target w).0
  unfolding handle_put
  handle_put-IsKept path target w = elim (Bool-cases dav.writable) [
    | inr e ↦ rw e (inl refl)
    | inl e ↦ rw e (
        inr (
          refl,
          handle_upload-Changes cipher chance path dav.key req.body default_response w (inl refl)
              (λ q h. inr h),
        ))
  ]

  handle_delete-IsKept :
      (path : String) (target : Target) (w : World)
      → IsKept fs
          (May delete path)
          dav.writable
          w
          (handle_delete_request cipher read_size texts libraries fuel chance fs dav req path target
            w).0
  unfolding handle_delete_request
  handle_delete-IsKept path target w = elim (Bool-cases dav.writable) [
    | inr e ↦ rw e (inl refl)
    | inl e ↦ elim (Bool-cases target.is_miss) [
      | inl m ↦ rw e (rw m (inl refl))
      | inr m ↦
          rw e (rw m (inr (refl, handle_delete-Changes path target.is_dir default_response w refl)))
    ]
  ]

  handle_mkcol-IsKept :
      (path : String) (target : Target) (w : World)
      → IsKept fs
          (May mkcol path)
          dav.writable
          w
          (handle_mkcol_request cipher read_size texts libraries fuel chance fs dav req path target
            w).0
  unfolding handle_mkcol_request
  handle_mkcol-IsKept path target w = elim (Bool-cases dav.writable) [
    | inr e ↦ rw e (inl refl)
    | inl e ↦ elim (Bool-cases target.is_miss) [
      | inr m ↦ rw e (rw m (inl refl))
      | inl m ↦ elim (Bool-cases (has_data req.body)) [
        | inl d ↦ rw e (rw m (rw d (inl refl)))
        | inr d ↦ rw e (rw m (rw d (inr (refl, handle_mkcol-Changes path default_response w refl))))
      ]
    ]
  ]

  handle_copymove-IsKept :
      (is_copy : Bool) (path : String) (res : Response) (w : World) (P : String → Type 0)
      → (is_copy ≡ false → P path)
      → ((q : String) → UnderDestination libraries req.destination dav.directory q → P q)
      → Changes fs P w
          (handle_copymove fs libraries fuel is_copy req.overwrite req.depth req.destination path
            dav.directory res w).0
  unfolding handle_copymove
  handle_copymove-IsKept is_copy path res w P p under =
      elim (Option-cases (copy_depth req.depth is_copy)) [
        | inl e ↦ rw (e, handle_copymove) same
        | inr (depth, e) ↦
            rw (e, handle_copymove)
              (elim (extract-cases (extract_dest libraries req.destination dav.directory)) [
                | inl (x, k) ↦ rw k same
                | inr (inl k) ↦ rw k same
                | inr (inr (dest, k)) ↦ rw k (
                    copymove_to-Changes names path dest is_copy p (λ q b. under q (dest, k, b)) fuel
                      (wants_overwrite req.overwrite) depth res w)
              ])
      ]

  handle_copymove_request-IsKept :
      (is_copy : Bool) (path : String) (target : Target) (w : World) (P : String → Type 0)
      → (is_copy ≡ false → P path)
      → ((q : String) → UnderDestination libraries req.destination dav.directory q → P q)
      → IsKept fs P dav.writable w
          (handle_copymove_request cipher read_size texts libraries fuel chance fs dav req is_copy
            path target w).0
  unfolding handle_copymove_request
  handle_copymove_request-IsKept is_copy path target w P p under = elim (Bool-cases dav.writable) [
    | inr e ↦ rw e (inl refl)
    | inl e ↦ elim (Bool-cases target.is_miss) [
      | inl m ↦ rw e (rw m (inl refl))
      | inr m ↦
          rw e (rw m (inr (refl, handle_copymove-IsKept is_copy path default_response w P p under)))
    ]
  ]

  pub handle_method-IsKept :
      (m : Method) (path : String) (target : Target) (w : World)
      → IsKept fs
          (May m path)
          dav.writable
          w
          (handle_method cipher read_size texts libraries fuel chance fs dav req m path target w).0
  unfolding handle_method
  handle_method-IsKept get path target w = inl refl
  handle_method-IsKept head path target w = inl refl
  handle_method-IsKept options path target w = inl refl
  handle_method-IsKept put path target w = handle_put-IsKept path target w
  handle_method-IsKept delete path target w = handle_delete-IsKept path target w
  handle_method-IsKept propfind path target w = inl refl
  handle_method-IsKept proppatch path target w = inl refl
  handle_method-IsKept mkcol path target w = handle_mkcol-IsKept path target w
  handle_method-IsKept copy path target w =
      handle_copymove_request-IsKept true path target w (May copy path) (λ e. ground arith)
        (λ q h. h)
  handle_method-IsKept move path target w =
      handle_copymove_request-IsKept false path target w (May move path) (λ e. inl refl)
        (λ q h. inr h)
  handle_method-IsKept lock path target w = inl refl
  handle_method-IsKept unlock path target w = inl refl
  handle_method-IsKept other path target w = inl refl
