-- ===== src/Common/Ink.antt =====
-- What stripping, joining and concatenating do to a text without its white space.
use Prim.Native.String.{String, ◌++◌ as ◌<>◌}
use text.Mathlib.TextLemmas.{append_assoc, nil-append, cons-append, append-nil}
use mathlib.Core.Path.{◌≡◌, refl, sym, ap, ◌∙◌}
use mathlib.Core.Logic.{inl, inr}
use mathlib.Core.Bool.{true}
use mathlib.Core.List.{◌++◌, List, [], ◌∷◌, map}
use enterprise_doc_rag.Common.Equality.{Bool-cases, nat_eq}
use enterprise_doc_rag.Common.Text.{
  is_space, is_blank, lstrip, rstrip, strip, join, concat, squeeze,
}

pub squeeze-append : (s t : String) → squeeze (s <> t) ≡ squeeze s <> squeeze t
squeeze-append String.[] t = ap squeeze (nil-append t) ∙ sym (nil-append (squeeze t))
squeeze-append (String.◌∷◌ c s) t = elim (Bool-cases (is_space c)) [
  | inl space ↦ rw (cons-append c s t, space, squeeze-append s t) refl
  | inr ink ↦
      rw (cons-append c s t, ink, squeeze-append s t, cons-append c (squeeze s) (squeeze t)) refl
]

squeeze-lstrip : (s : String) → squeeze (lstrip s) ≡ squeeze s
squeeze-lstrip String.[] = refl
squeeze-lstrip (String.◌∷◌ c s) = elim (Bool-cases (is_space c)) [
  | inl space ↦ rw (space, squeeze-lstrip s) refl
  | inr ink ↦ rw (ink, ink) refl
]

pub eq_of_blank : (s : String) → is_blank s ≡ true → s ≡ String.[]
eq_of_blank String.[] h = refl
eq_of_blank (String.◌∷◌ c s) h = cc

squeeze-rstrip : (s : String) → squeeze (rstrip s) ≡ squeeze s
squeeze-rstrip String.[] = refl
squeeze-rstrip (String.◌∷◌ c s) = elim (Bool-cases (is_space c)) [
  | inr ink ↦ rw (ink, ink, squeeze-rstrip s) refl
  | inl space ↦ elim (Bool-cases (is_blank (rstrip s))) [
    | inl blank ↦
        let e : squeeze String.[] ≡ squeeze s =
          ap squeeze (sym (eq_of_blank (rstrip s) blank)) ∙ squeeze-rstrip s in
        rw (space, blank) e
    | inr more ↦ rw (space, more, space, squeeze-rstrip s) refl
  ]
]

pub squeeze-strip : (s : String) → squeeze (strip s) ≡ squeeze s
squeeze-strip s = squeeze-rstrip (lstrip s) ∙ squeeze-lstrip s

-- The new lines between the texts are white space.
pub squeeze-join : (texts : List String) → squeeze (join "\n" texts) ≡ concat (map squeeze texts)
unfolding is_space nat_eq
squeeze-join [] = refl
squeeze-join (t ∷ []) = sym (append-nil (squeeze t))
squeeze-join (t ∷ u ∷ texts) =
    squeeze-append t ("\n" <> join "\n" (u ∷ texts))
    ∙ ap (λ x. squeeze t <> x)
        (squeeze-append "\n" (join "\n" (u ∷ texts))
          ∙ (nil-append (squeeze (join "\n" (u ∷ texts))) ∙ squeeze-join (u ∷ texts)))

pub concat-append :
    {A : Type 0} (f : A → String) (xs ys : List A)
    → concat (map f (xs ++ ys)) ≡ concat (map f xs) <> concat (map f ys)
concat-append f [] ys = sym (nil-append (concat (map f ys)))
concat-append f (x ∷ xs) ys =
    ap (λ t. f x <> t) (concat-append f xs ys)
    ∙ sym (append_assoc (f x) (concat (map f xs)) (concat (map f ys)))
