-- ===== src/Davs/Webdav/PathItem/Within.antt =====
-- What it is for a path to be in a directory.
use vestirust.Prelude.{
  true, false, Bool-cases, Option-cases, inl, inr, some, String, List, ◌++◌, ◌≡◌,
}
use vestirust.Davs.Webdav.FilePath.{components}
use vestirust.Davs.Webdav.FilePath.Prefix.{starts_with-rest, starts_with-append}
use vestirust.Davs.Webdav.FileSystem.{FileSystem}
use vestirust.Davs.Webdav.PathItem.{is_root_contained}

-- With all links followed, the components of the path are those of the directory and then others.
pub record IsWithin {World : Type 0} (fs : FileSystem World) (w : World) (path directory : String)
    : Type 0 where
  pub root : String
  pub target : String
  pub rest : List String
  pub is_root : fs.canonicalize w directory ≡ some root
  pub is_target : fs.canonicalize w path ≡ some target
  pub below : components target ≡ components root ++ rest

module _ {World : Type 0} (fs : FileSystem World) (w : World) (path directory : String) where
  pub contained-IsWithin :
      is_root_contained fs w path directory ≡ true → IsWithin fs w path directory
  unfolding is_root_contained
  contained-IsWithin h = elim (Option-cases (fs.canonicalize w directory)) [
    | inl e ↦ cc (rw (e, is_root_contained) at h)
    | inr (root, e) ↦ elim (Option-cases (fs.canonicalize w path)) [
      | inl k ↦ cc (rw (e, k, is_root_contained) at h)
      | inr (target, k) ↦
          let (rest, below) = starts_with-rest target root (rw (e, k, is_root_contained) at h) in
          record {
            root = root;
            target = target;
            rest = rest;
            is_root = e;
            is_target = k;
            below = below;
          }
    ]
  ]

  pub IsWithin-contained :
      IsWithin fs w path directory → is_root_contained fs w path directory ≡ true
  unfolding is_root_contained
  IsWithin-contained h =
      rw (h.is_root, h.is_target, is_root_contained)
        (starts_with-append h.target h.root h.rest h.below)

  pub not_within : ¬ IsWithin fs w path directory → is_root_contained fs w path directory ≡ false
  not_within out = elim (Bool-cases (is_root_contained fs w path directory)) [
    | inl e ↦ absurd (out (contained-IsWithin e))
    | inr e ↦ e
  ]
