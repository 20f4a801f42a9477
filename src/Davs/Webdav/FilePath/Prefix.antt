-- ===== src/Davs/Webdav/FilePath/Prefix.antt =====
-- `Path::starts_with`, and the components of the two paths.
use vestirust.Prelude.{
  true, Bool-cases, inl, inr, String, List, [], ◌∷◌, ◌++◌, ◌≡◌, refl, str_eq, eq_iff,
}
use vestirust.Davs.Webdav.FilePath.{components, is_prefix, starts_with}

is_prefix-rest :
    (ss ts : List String) → is_prefix ss ts ≡ true → (rest : List String) × (ts ≡ ss ++ rest)
unfolding is_prefix
is_prefix-rest [] ts h = (ts, refl)
is_prefix-rest (s ∷ ss) [] h = cc
is_prefix-rest (s ∷ ss) (t ∷ ts) h = elim (Bool-cases (str_eq s t)) [
  | inr n ↦ cc (rw n at h)
  | inl e ↦
      let (rest, k) = is_prefix-rest ss ts (rw e at h) in (rest, rw ((eq_iff s t).0 e, k) refl)
]

is_prefix-append : (ss rest : List String) → is_prefix ss (ss ++ rest) ≡ true
unfolding is_prefix
is_prefix-append [] rest = refl
is_prefix-append (s ∷ ss) rest = rw ((eq_iff s s).1 refl) (is_prefix-append ss rest)

pub starts_with-rest :
    (path base : String)
    → starts_with path base ≡ true
    → (rest : List String) × (components path ≡ components base ++ rest)
unfolding starts_with
starts_with-rest path base h = is_prefix-rest (components base) (components path) h

pub starts_with-append :
    (path base : String) (rest : List String)
    → components path ≡ components base ++ rest
    → starts_with path base ≡ true
unfolding starts_with
starts_with-append path base rest e = rw e (is_prefix-append (components base) rest)
