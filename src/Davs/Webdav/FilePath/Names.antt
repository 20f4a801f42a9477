-- ===== src/Davs/Webdav/FilePath/Names.antt =====
-- What `Path::file_name` gives.
use vestirust.Prelude.{
  false, Bool-cases, Option-cases, Option, inl, inr, none, some, String, List, [], ◌∷◌, ◌≡◌, ◌⊎◌,
  str_eq, ◌||◌, eq_iff, if◌then◌else◌,
}
use vestirust.Davs.Webdav.Paths.{is_absolute, split_slash}
use vestirust.Davs.Webdav.Paths.Segments.{AreRelative, split_slash-AreRelative}
use vestirust.Davs.Webdav.FilePath.{
  named, relative_components, components, last, is_blank, file_name,
}

named-AreRelative : (segments : List String) → AreRelative segments → AreRelative (named segments)
unfolding named
named-AreRelative [] h = tt
named-AreRelative (s ∷ rest) (k, h) = elim (Bool-cases (is_blank s)) [
  | inl e ↦ rw e (named-AreRelative rest h)
  | inr e ↦ rw e (k, named-AreRelative rest h)
]

relative_components-AreRelative :
    (segments : List String) → AreRelative segments → AreRelative (relative_components segments)
unfolding relative_components
relative_components-AreRelative [] h = tt
relative_components-AreRelative (s ∷ rest) (k, h) = elim (Bool-cases (str_eq s ".")) [
  | inl e ↦ rw e (k, named-AreRelative rest h)
  | inr e ↦ rw e (named-AreRelative (s ∷ rest) (k, h))
]

last-relative :
    (segments : List String) (name : String)
    → AreRelative segments
    → last segments ≡ some name
    → is_absolute name ≡ false
unfolding last
last-relative [] name h e = cc
last-relative (s ∷ []) name (k, h) e = cc
last-relative (s ∷ t ∷ rest) name (k, h) e = last-relative (t ∷ rest) name h e

last-rooted :
    (segments : List String) (name : String)
    → AreRelative segments
    → last ("/" ∷ segments) ≡ some name
    → (name ≡ "/") ⊎ (is_absolute name ≡ false)
unfolding last
last-rooted [] name h e = inl cc
last-rooted (s ∷ rest) name h e = inr (last-relative (s ∷ rest) name h e)

last-components :
    (path name : String)
    → last (components path) ≡ some name
    → (name ≡ "/") ⊎ (is_absolute name ≡ false)
unfolding components
last-components path name = elim (Bool-cases (is_absolute path)) [
  | inl e ↦ rw e (λ k.
      last-rooted (named (split_slash path)) name
        (named-AreRelative (split_slash path) (split_slash-AreRelative path)) k)
  | inr e ↦ rw e (λ k. inr (
      last-relative (relative_components (split_slash path)) name
        (relative_components-AreRelative (split_slash path) (split_slash-AreRelative path)) k))
]

name_unless : String → Option String
name_unless name =
    if str_eq name "/" || str_eq name "." || str_eq name ".." then none else some name

name_unless-relative :
    (name result : String)
    → (name ≡ "/") ⊎ (is_absolute name ≡ false)
    → name_unless name ≡ some result
    → is_absolute result ≡ false
unfolding name_unless
name_unless-relative name result h e = elim (Bool-cases (str_eq name "/")) [
  | inl root ↦ cc (rw root at e)
  | inr n ↦ elim (Bool-cases (str_eq name "." || str_eq name "..")) [
    | inl dots ↦ cc (rw (n, dots) at e)
    | inr m ↦ elim h [
      | inl root ↦ let k = (eq_iff name "/").1 root in cc
      | inr relative ↦ let k = rw (n, m) at e in cc
    ]
  ]
]

-- The last component of a path never begins with a slash.
pub file_name-relative :
    (path name : String) → file_name path ≡ some name → is_absolute name ≡ false
unfolding file_name name_unless
file_name-relative path name h = elim (Option-cases (last (components path))) [
  | inl e ↦ cc (rw (e, file_name) at h)
  | inr (l, e) ↦ name_unless-relative l name (last-components path l e) (rw (e, file_name) at h)
]
