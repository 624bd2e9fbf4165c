-- ===== src/Common/Sorting.antt =====
-- Python's `sorted` and SQL's `order by`, as a stable insertion sort by a test `le x y` that `x` may
-- stand before `y`.
use Prim.Native.Nat.{Ordering, suc}
use Prim.Native.String.{String, compare}
use mathlib.Core.Path.{◌≡◌, refl}
use mathlib.Core.Bool.{Bool, true, false, ◌||◌}
use mathlib.Core.List.{List, [], ◌∷◌}
use native.Mathlib.Omega.{arith}
use mathlib.Core.Logic.{◌⊎◌, inl, inr}
use enterprise_doc_rag.Common.Lists.{Member, All, length}
use enterprise_doc_rag.Common.Equality.{Bool-cases, Eq, ◌==◌, contains, if◌then◌else◌}

module _ {ℓ} {A : Type ℓ} (le : A → A → Bool) where
  abbrev pub insert_by : A → List A → List A
  insert_by x [] = x ∷ []
  insert_by x (y ∷ ys) = if le x y then x ∷ y ∷ ys else y ∷ insert_by x ys

  abbrev pub sort_by : List A → List A
  sort_by [] = []
  sort_by (x ∷ xs) = insert_by x (sort_by xs)

  length-insert_by : (x : A) (xs : List A) → length (insert_by x xs) ≡ suc (length xs)
  length-insert_by x [] = refl
  length-insert_by x (y ∷ ys) = elim (Bool-cases (le x y)) [
    | inl here ↦ rw here refl
    | inr later ↦ rw (later, length-insert_by x ys) refl
  ]

  pub length-sort_by : (xs : List A) → length (sort_by xs) ≡ length xs
  length-sort_by [] = refl
  length-sort_by (x ∷ xs) = rw (length-insert_by x (sort_by xs), length-sort_by xs) refl

  module _ ⦃e : Eq A⦄ where
    contains-insert_by :
        (a x : A) (xs : List A) → contains (insert_by x xs) a ≡ (a == x || contains xs a)
    contains-insert_by a x [] = refl
    contains-insert_by a x (y ∷ ys) = ground (arith, contains-insert_by a x ys)

    -- Sorting loses no element and adds none.
    pub contains-sort_by : (a : A) (xs : List A) → contains (sort_by xs) a ≡ contains xs a
    contains-sort_by a [] = refl
    contains-sort_by a (x ∷ xs) =
        ground (arith, contains-insert_by a x (sort_by xs), contains-sort_by a xs)

module _ {A : Type 0} (le : A → A → Bool) where
  inserted : (a x : A) (xs : List A) → Member a (insert_by le x xs) → (a ≡ x) ⊎ Member a xs
  inserted a x [] (inl e) = inl e
  inserted a x [] (inr m) = absurd m
  inserted a x (y ∷ ys) m = elim (Bool-cases (le x y)) [
    | inl here ↦ let m' : (a ≡ x) ⊎ Member a (y ∷ ys) = rw here at m in m'
    | inr later ↦
        let m' : (a ≡ y) ⊎ Member a (insert_by le x ys) = rw later at m in
        elim m' [
          | inl e ↦ inr (inl e)
          | inr n ↦ elim (inserted a x ys n) [ inl e ↦ inl e | inr k ↦ inr (inr k) ]
        ]
  ]

  insert_first : (a x : A) (xs : List A) → a ≡ x → Member a (insert_by le x xs)
  insert_first a x [] e = inl e
  insert_first a x (y ∷ ys) e = elim (Bool-cases (le x y)) [
    | inl here ↦ rw here (inl e)
    | inr later ↦ rw later (inr (insert_first a x ys e))
  ]

  insert_other : (a x : A) (xs : List A) → Member a xs → Member a (insert_by le x xs)
  insert_other a x [] m = absurd m
  insert_other a x (y ∷ ys) m = elim (Bool-cases (le x y)) [
    | inl here ↦ rw here (inr m)
    | inr later ↦ rw later (elim m [ inl e ↦ inl e | inr n ↦ inr (insert_other a x ys n) ])
  ]

  pub Member-of_sort_by : (a : A) (xs : List A) → Member a (sort_by le xs) → Member a xs
  Member-of_sort_by a [] m = m
  Member-of_sort_by a (x ∷ xs) m = elim (inserted a x (sort_by le xs) m) [
    | inl e ↦ inl e
    | inr n ↦ inr (Member-of_sort_by a xs n)
  ]

  pub Member-sort_by : (a : A) (xs : List A) → Member a xs → Member a (sort_by le xs)
  Member-sort_by a [] m = m
  Member-sort_by a (x ∷ xs) (inl e) = insert_first a x (sort_by le xs) e
  Member-sort_by a (x ∷ xs) (inr m) = insert_other a x (sort_by le xs) (Member-sort_by a xs m)

  -- Each element may stand before all that follow it.
  abbrev pub IsSorted : List A → Type 0
  IsSorted [] = Unit
  IsSorted (x ∷ xs) = All (λ y. le x y ≡ true) xs × IsSorted xs

  All-insert_by :
      (P : A → Type 0) (x : A) (xs : List A) → P x → All P xs → All P (insert_by le x xs)
  All-insert_by P x [] p a = (p, a)
  All-insert_by P x (y ∷ ys) p (q, a) = elim (Bool-cases (le x y)) [
    | inl here ↦ rw here (p, (q, a))
    | inr later ↦ rw later (q, All-insert_by P x ys p a)
  ]

  All-weaker : (P Q : A → Type 0) (xs : List A) → ((y : A) → P y → Q y) → All P xs → All Q xs
  All-weaker P Q [] h a = a
  All-weaker P Q (x ∷ xs) h (p, a) = (h x p, All-weaker P Q xs h a)

  module _ (total : (x y : A) → le x y ≡ false → le y x ≡ true)
      (transitive : (x y z : A) → le x y ≡ true → le y z ≡ true → le x z ≡ true) where
    IsSorted-insert_by : (x : A) (xs : List A) → IsSorted xs → IsSorted (insert_by le x xs)
    IsSorted-insert_by x [] s = (tt, tt)
    IsSorted-insert_by x (y ∷ ys) (a, s) = elim (Bool-cases (le x y)) [
      | inl here ↦ rw here (
        (
          here,
          All-weaker (λ z. le y z ≡ true) (λ z. le x z ≡ true) ys (λ z. transitive x y z here) a,
        ),
        (a, s),
      )
      | inr later ↦
          rw later
            (All-insert_by (λ z. le y z ≡ true) x ys (total x y later) a, IsSorted-insert_by x ys s)
    ]

    pub IsSorted-sort_by : (xs : List A) → IsSorted (sort_by le xs)
    IsSorted-sort_by [] = tt
    IsSorted-sort_by (x ∷ xs) = IsSorted-insert_by x (sort_by le xs) (IsSorted-sort_by xs)

-- Texts are ordered by their code points.
abbrev pub text_le : String → String → Bool
text_le s t = elim (compare s t) [ Ordering.gt ↦ false | _ ↦ true ]

abbrev pub sorted : List String → List String
sorted = sort_by text_le
