-- ===== src/Davs/Webdav/Paths/Segments.antt =====
-- What `split('/')` gives.
use Prim.Native.Char.{Char, code}
use vestirust.Prelude.{false, Bool-cases, inl, inr, String, List, [], ◌∷◌, ◌≡◌, refl, ◌==◌}
use vestirust.Davs.Webdav.Paths.{is_absolute, split_slash, push_front}

-- None of the texts begins with a slash.
abbrev pub AreRelative : List String → Type 0
AreRelative [] = Unit
AreRelative (s ∷ rest) = (is_absolute s ≡ false) × AreRelative rest

push_front-AreRelative :
    (c : Char) (segments : List String)
    → (code c == b'/') ≡ false
    → AreRelative segments
    → AreRelative (push_front c segments)
unfolding push_front is_absolute
push_front-AreRelative c [] n h = (n, tt)
push_front-AreRelative c (s ∷ rest) n (k, h) = (n, h)

pub split_slash-AreRelative : (path : String) → AreRelative (split_slash path)
unfolding split_slash is_absolute
split_slash-AreRelative String.[] = (refl, tt)
split_slash-AreRelative (String.◌∷◌ c s) = elim (Bool-cases (code c == b'/')) [
  | inl e ↦ rw e (refl, split_slash-AreRelative s)
  | inr e ↦ rw e (push_front-AreRelative c (split_slash s) e (split_slash-AreRelative s))
]
