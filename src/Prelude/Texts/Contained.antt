-- ===== src/Prelude/Texts/Contained.antt =====
-- What `contains` finds.
use Prim.Native.String
use text.Mathlib.Text.{starts_with}
use text.Mathlib.TextEquality.{starts_with_iff}
use text.Mathlib.TextLemmas.{nil-append, cons-append}
use vestirust.Prelude.{true, Bool-cases, inl, inr, String, ◌≡◌, refl, sym, ap, ◌∙◌, ◌↔◌, arith}
use vestirust.Prelude.Texts.{contains_text}

-- The pattern stands somewhere in the text.
abbrev pub IsIn : String → String → Type 0
IsIn pattern text =
    (before : String) × (after : String) × (text ≡ String.◌++◌ before (String.◌++◌ pattern after))

at_start : (s pattern : String) → starts_with s pattern ≡ true → IsIn pattern s
at_start s pattern h =
    let (rest, e) = (starts_with_iff s pattern).0 h in ("", rest, sym (nil-append _ ∙ e))

contains_text-IsIn : (s pattern : String) → contains_text s pattern ≡ true → IsIn pattern s
unfolding contains_text
contains_text-IsIn String.[] pattern h = at_start "" pattern h
contains_text-IsIn (String.◌∷◌ c s) pattern h =
    elim (Bool-cases (starts_with (String.◌∷◌ c s) pattern)) [
      | inl e ↦ at_start (String.◌∷◌ c s) pattern e
      | inr n ↦
          let (before, after, e) = contains_text-IsIn s pattern (rw (n, contains_text) at h) in
          (String.◌∷◌ c before, after, ap (String.◌∷◌ c) e ∙ sym (cons-append c before _))
    ]

starts-contains :
    (s pattern : String) → starts_with s pattern ≡ true → contains_text s pattern ≡ true
unfolding contains_text
starts-contains String.[] pattern h = h
starts-contains (String.◌∷◌ c s) pattern h = rw h refl

append-contains :
    (before after pattern : String)
    → contains_text (String.◌++◌ before (String.◌++◌ pattern after)) pattern ≡ true
unfolding contains_text
append-contains String.[] after pattern = rw nil-append (
    starts-contains _ pattern
      ((starts_with_iff (String.◌++◌ pattern after) pattern).1 (after, refl)))
append-contains (String.◌∷◌ c before) after pattern =
    let h = append-contains before after pattern in
    rw (cons-append c before (String.◌++◌ pattern after), contains_text) (ground arith)

pub contains_text_iff :
    (text pattern : String) → (contains_text text pattern ≡ true) ↔ IsIn pattern text
contains_text_iff text pattern = (
  contains_text-IsIn text pattern,
  λ (before, after, e). rw e (append-contains before after pattern),
)
