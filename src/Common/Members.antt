-- ===== src/Common/Members.antt =====
-- The elements of two lists, one after the other, and how many pass a weaker test.
use mathlib.Core.Logic.{◌⊎◌, inl, inr}
use mathlib.Core.List.{List, [], ◌∷◌, ◌++◌}
use mathlib.Core.Path.{◌≡◌}
use mathlib.Core.Bool.{Bool, true}
use Prim.Native.Nat.{◌≤◌}
use native.Mathlib.Omega.{arith}
use enterprise_doc_rag.Common.Lists.{Member, count_by}

module _ {A : Type 0} where
  pub Member-append : (x : A) (xs ys : List A) → Member x (xs ++ ys) → Member x xs ⊎ Member x ys
  Member-append x [] ys m = inr m
  Member-append x (y ∷ xs) ys (inl e) = inl (inl e)
  Member-append x (y ∷ xs) ys (inr m) = elim (Member-append x xs ys m) [
    | inl n ↦ inl (inr n)
    | inr n ↦ inr n
  ]

  pub Member-of_first : (x : A) (xs ys : List A) → Member x xs → Member x (xs ++ ys)
  Member-of_first x [] ys m = elim m [ ]
  Member-of_first x (y ∷ xs) ys (inl e) = inl e
  Member-of_first x (y ∷ xs) ys (inr m) = inr (Member-of_first x xs ys m)

  pub Member-of_second : (x : A) (xs ys : List A) → Member x ys → Member x (xs ++ ys)
  Member-of_second x [] ys m = m
  Member-of_second x (y ∷ xs) ys m = inr (Member-of_second x xs ys m)

  pub count_by-le :
      (p q : A → Bool) (xs : List A)
      → ((x : A) → p x ≡ true → q x ≡ true)
      → count_by p xs ≤ count_by q xs
  count_by-le p q [] h = omega arith
  count_by-le p q (x ∷ xs) h = ground (arith, h x, count_by-le p q xs h)
