-- ===== src/Davs/Webdav/PathItem/Shown.antt =====
-- Which entries of a directory are listed.
use vestirust.Prelude.{
  false, not, ◌&&◌, Option, none, some, String, List, [], ◌∷◌, ◌≡◌, ◌⊎◌, refl, ap, Result, ok, err,
  inl, inr, In, Bool-cases, Option-cases, arith,
}
use vestirust.Davs.EncryptedStreamer.Cipher.{Bytes}
use vestirust.Davs.Webdav.Paths.{Fault, io_error, panicked, out_of_fuel, join}
use vestirust.Davs.Webdav.FilePath.{strip_prefix}
use vestirust.Davs.Webdav.FileSystem.{FileSystem, Metadata}
use vestirust.Davs.Webdav.PathItem.Within.{IsWithin, contained-IsWithin}
use vestirust.Davs.Webdav.PathItem.{
  PathItem, push_item, is_root_contained, to_pathitem, list_entries, list_dir,
}

shown_items : List PathItem → Result Fault (List PathItem) → List PathItem
shown_items default (ok items) = items
shown_items default (err e) = default

module _ {World : Type 0} (fs : FileSystem World) (w : World) (directory : String) where
  -- The path is no symbolic link, or one that leads into the directory.
  pub record IsShown (path : String) : Type 0 where
    pub link : Metadata
    pub found : fs.symlink_metadata w path ≡ some link
    pub inside : (link.is_symlink ≡ false) ⊎ IsWithin fs w path directory

  linked :
      (path : String) (link : Metadata)
      → (link.is_symlink && not (is_root_contained fs w path directory)) ≡ false
      → (link.is_symlink ≡ false) ⊎ IsWithin fs w path directory
  linked path link h = elim (Bool-cases link.is_symlink) [
    | inr e ↦ inl e
    | inl e ↦ inr (contained-IsWithin fs w path directory (ground arith))
  ]

  to_pathitem-IsShown :
      (path base_path : String) (key : Option Bytes) (item : PathItem)
      → to_pathitem fs w path base_path directory false key ≡ ok (some item)
      → IsShown path
  unfolding to_pathitem
  to_pathitem-IsShown path base_path key item h =
      elim (Option-cases (strip_prefix path base_path)) [
        | inl a ↦ let h' = rw (a, to_pathitem) at h in cc
        | inr (rel_path, a) ↦ elim (Option-cases (fs.metadata w path)) [
          | inl b ↦ let h' = rw (a, b, to_pathitem) at h in cc
          | inr (meta, b) ↦ elim (Option-cases (fs.symlink_metadata w path)) [
            | inl c ↦ let h' = rw (a, b, c, to_pathitem) at h in cc
            | inr (link, c) ↦
                elim (Bool-cases (link.is_symlink && not (is_root_contained fs w path directory))) [
                  | inl out ↦ let h' = rw (a, b, c, out, to_pathitem) at h in cc
                  | inr e ↦ record { link = link; found = c; inside = linked path link e }
                ]
          ]
        ]
      ]

  push_item-In :
      (entry : Result Fault (Option PathItem)) (rest : Result Fault (List PathItem))
      (items : List PathItem) (item : PathItem)
      → push_item entry rest ≡ ok items
      → In item items
      → (entry ≡ ok (some item)) ⊎ ((others : List PathItem) × (rest ≡ ok others) × In item others)
  unfolding push_item shown_items
  push_item-In (ok (some first)) (ok others) items item h i =
      let e : first ∷ others ≡ items = ap (shown_items []) h in
      elim (rw (← e) at i) [
        | inl same ↦ inl (ap (λ a. ok (some a)) same)
        | inr more ↦ inr (others, refl, more)
      ]
  push_item-In (ok (some first)) (err e) items item h i = cc
  push_item-In (ok none) rest items item h i = inr (items, h, i)
  push_item-In (err io_error) rest items item h i = inr (items, h, i)
  push_item-In (err panicked) rest items item h i = cc
  push_item-In (err out_of_fuel) rest items item h i = cc

  -- The item is that of an entry that was read from the directory, and that is shown.
  pub record IsListed (entry_path base_path : String) (key : Option Bytes) (item : PathItem)
      : Type 0 where
    pub name : String
    pub entries : List (Option String)
    pub were_read : fs.read_dir w entry_path ≡ some entries
    pub is_entry : In (some name) entries
    pub shown : IsShown (join entry_path name)
    pub item_of_name :
        to_pathitem fs w (join entry_path name) base_path directory false key ≡ ok (some item)

  list_entries-IsListed :
      (entry_path base_path : String) (key : Option Bytes) (all entries : List (Option String))
      (items : List PathItem) (item : PathItem)
      → fs.read_dir w entry_path ≡ some all
      → ((entry : Option String) → In entry entries → In entry all)
      → list_entries fs w entry_path base_path directory false key entries ≡ ok items
      → In item items
      → IsListed entry_path base_path key item
  unfolding list_entries shown_items
  list_entries-IsListed entry_path base_path key all [] items item r a h i =
      let e : [] ≡ items = ap (shown_items []) h in absurd (rw (← e) at i)
  list_entries-IsListed entry_path base_path key all (none ∷ rest) items item r a h i =
      let e : [] ≡ items = ap (shown_items []) h in absurd (rw (← e) at i)
  list_entries-IsListed entry_path base_path key all (some name ∷ rest) items item r a h i =
      elim (push_item-In (to_pathitem fs w (join entry_path name) base_path directory false key)
        (list_entries fs w entry_path base_path directory false key rest) items item h i) [
          | inl e ↦ record {
            name = name;
            entries = all;
            were_read = r;
            is_entry = a (some name) (inl refl);
            shown = to_pathitem-IsShown (join entry_path name) base_path key item e;
            item_of_name = e;
          }
          | inr (others, e, j) ↦
              list_entries-IsListed entry_path base_path key all rest others item r
                (λ entry k. a entry (inr k)) e j
        ]

  -- Without links, each item of a listed directory is that of an entry that was read from it, which is
  -- no symbolic link or whose components, with all links followed, begin with those of the dav's
  -- directory.
  pub list_dir-IsListed :
      (entry_path base_path : String) (key : Option Bytes) (items : List PathItem) (item : PathItem)
      → list_dir fs w entry_path base_path directory false key ≡ ok items
      → In item items
      → IsListed entry_path base_path key item
  unfolding list_dir
  list_dir-IsListed entry_path base_path key items item h i =
      elim (Option-cases (fs.read_dir w entry_path)) [
        | inl e ↦ let h' = rw (e, list_dir) at h in cc
        | inr (entries, e) ↦
            list_entries-IsListed entry_path base_path key entries entries items item e
              (λ entry k. k) (rw (e, list_dir) at h) i
      ]
