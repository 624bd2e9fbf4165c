-- ===== src/Common/Lists.antt =====
-- Lists as tables of rows: selection, counting, updating and membership.
use Prim.Native.Nat.{ℕ, zero, suc, ◌+◌, ◌≤◌}
use mathlib.Core.Path.{◌≡◌, refl, sym, ap, ◌∙◌}
use mathlib.Core.Logic.{◌⊎◌, inl, inr}
use mathlib.Core.Bool.{Bool, true, false, ◌&&◌, ◌||◌}
use mathlib.Core.List.{List, [], ◌∷◌}
use mathlib.Core.Option.{Option, none, some}
use native.Mathlib.Omega.{arith}
use enterprise_doc_rag.Common.Equality.{if◌then◌else◌, Bool-cases}
use enterprise_doc_rag.Common.Result.{ok, scalar_one_or_none}

module _ {ℓ} {A : Type ℓ} where
  abbrev pub length : List A → ℕ
  length [] = 0
  length (x ∷ xs) = suc (length xs)

  -- `[x for x in xs if p(x)]`, and the rows that a `where` clause selects.
  abbrev pub select : (A → Bool) → List A → List A
  select p [] = []
  select p (x ∷ xs) = let rest = select p xs in if p x then x ∷ rest else rest

  abbrev pub any : (A → Bool) → List A → Bool
  any p [] = false
  any p (x ∷ xs) = p x || any p xs

  abbrev pub all : (A → Bool) → List A → Bool
  all p [] = true
  all p (x ∷ xs) = p x && all p xs

  -- How many rows pass the test.
  abbrev pub count_by : (A → Bool) → List A → ℕ
  count_by p [] = 0
  count_by p (x ∷ xs) = (if p x then 1 else 0) + count_by p xs

  -- The rows that pass the test are changed in place, the others stay.
  abbrev pub update_where : (A → Bool) → (A → A) → List A → List A
  update_where p f [] = []
  update_where p f (x ∷ xs) = (if p x then f x else x) ∷ update_where p f xs

  abbrev pub get_elem? : List A → ℕ → Option A
  get_elem? [] i = none
  get_elem? (x ∷ xs) zero = some x
  get_elem? (x ∷ xs) (suc i) = get_elem? xs i

  abbrev pub All {κ} : (A → Type κ) → List A → Type κ
  All P [] = Unit
  All P (x ∷ xs) = P x × All P xs

module _ {A : Type 0} where
  abbrev pub Member : A → List A → Type 0
  Member a [] = ⊥
  Member a (x ∷ xs) = (a ≡ x) ⊎ Member a xs

  -- A row that passes a test is counted, so two of them in a table with at most one are equal.
  pub count_by-pos_of_Member :
      (p : A → Bool) (a : A) (xs : List A) → Member a xs → p a ≡ true → 1 ≤ count_by p xs
  count_by-pos_of_Member p a [] m h = elim m [ ]
  count_by-pos_of_Member p a (x ∷ xs) (inl e) h =
      let q : p x ≡ true = rw e at h in rw q (omega arith)
  count_by-pos_of_Member p a (x ∷ xs) (inr m) h = omega (arith, count_by-pos_of_Member p a xs m h)

  pub eq_of_count_by :
      (p : A → Bool) (a b : A) (xs : List A)
      → Member a xs
      → Member b xs
      → p a ≡ true
      → p b ≡ true
      → count_by p xs ≤ 1
      → a ≡ b
  eq_of_count_by p a b [] m n h k u = elim m [ ]
  eq_of_count_by p a b (x ∷ xs) (inl e) (inl f) h k u = e ∙ sym f
  eq_of_count_by p a b (x ∷ xs) (inl e) (inr n) h k u =
      let q : p x ≡ true = rw e at h in
      absurd (omega (arith, count_by-pos_of_Member p b xs n k, rw q at u))
  eq_of_count_by p a b (x ∷ xs) (inr m) (inl f) h k u =
      let q : p x ≡ true = rw f at k in
      absurd (omega (arith, count_by-pos_of_Member p a xs m h, rw q at u))
  eq_of_count_by p a b (x ∷ xs) (inr m) (inr n) h k u =
      eq_of_count_by p a b xs m n h k (omega arith)

  -- A selected row is a row of the table, and passes the test.
  pub Member-select :
      (p : A → Bool) (a : A) (xs : List A) → Member a (select p xs) → Member a xs × (p a ≡ true)
  Member-select p a [] m = elim m [ ]
  Member-select p a (x ∷ xs) m = elim (Bool-cases (p x)) [
    | inl here ↦
        let m' : (a ≡ x) ⊎ Member a (select p xs) = rw here at m in
        elim m' [
          | inl e ↦ (inl e, rw e here)
          | inr n ↦ (inr (Member-select p a xs n).0, (Member-select p a xs n).1)
        ]
    | inr gone ↦
        let m' : Member a (select p xs) = rw gone at m in
        (inr (Member-select p a xs m').0, (Member-select p a xs m').1)
  ]

  pub length-select : (p : A → Bool) (xs : List A) → length (select p xs) ≡ count_by p xs
  length-select p [] = refl
  length-select p (x ∷ xs) = ground (arith, length-select p xs)

  -- A change that the test `q` cannot see leaves every count by `q` as it was.
  pub count_by-update_where :
      (q p : A → Bool) (f : A → A) (xs : List A)
      → ((x : A) → p x ≡ true → q (f x) ≡ q x)
      → count_by q (update_where p f xs) ≡ count_by q xs
  count_by-update_where q p f [] h = refl
  count_by-update_where q p f (x ∷ xs) h = ground (arith, h x, count_by-update_where q p f xs h)

  -- A row of the changed table comes from a row of the old one.
  pub Member-update_where :
      (p : A → Bool) (f : A → A) (a : A) (xs : List A)
      → Member a (update_where p f xs)
      → (x : A) × Member x xs × (a ≡ (if p x then f x else x))
  Member-update_where p f a [] m = elim m [ ]
  Member-update_where p f a (x ∷ xs) (inl e) = (x, inl refl, e)
  Member-update_where p f a (x ∷ xs) (inr m) =
      let (y, k, e) = Member-update_where p f a xs m in (y, inr k, e)

  pub Member_of_update_where :
      (p : A → Bool) (f : A → A) (x : A) (xs : List A)
      → Member x xs
      → p x ≡ true
      → Member (f x) (update_where p f xs)
  Member_of_update_where p f x [] m h = elim m [ ]
  Member_of_update_where p f x (y ∷ ys) (inl e) h =
      let q : p y ≡ true = rw e at h in rw q (inl (ap f e))
  Member_of_update_where p f x (y ∷ ys) (inr m) h = inr (Member_of_update_where p f x ys m h)

  scalar-cases :
      (rows : List A)
      → length rows ≤ 1
      → ((scalar_one_or_none rows ≡ ok none) × (length rows ≡ 0))
        ⊎ ((a : A) × (scalar_one_or_none rows ≡ ok (some a)) × Member a rows)
  scalar-cases [] h = inl (refl, refl)
  scalar-cases (a ∷ []) h = inr (a, refl, inl refl)
  scalar-cases (a ∷ b ∷ rows) h = absurd (omega arith)

  -- Where at most one row passes, a query for one row does not raise.
  pub scalar-Member :
      (p : A → Bool) (xs : List A)
      → count_by p xs ≤ 1
      → ((scalar_one_or_none (select p xs) ≡ ok none) × (count_by p xs ≡ 0))
        ⊎ ((a : A) × (scalar_one_or_none (select p xs) ≡ ok (some a)) × Member a xs × (p a ≡ true))
  scalar-Member p xs h = elim (scalar-cases (select p xs) (omega (arith, length-select p xs))) [
    | inl (e, n) ↦ inl (e, omega (arith, length-select p xs))
    | inr (a, e, m) ↦ inr (a, e, (Member-select p a xs m).0, (Member-select p a xs m).1)
  ]

module _ {A : Type 0} where
  pub Member-of_select :
      (p : A → Bool) (a : A) (xs : List A) → Member a xs → p a ≡ true → Member a (select p xs)
  Member-of_select p a [] m h = elim m [ ]
  Member-of_select p a (x ∷ xs) (inl e) h = let q : p x ≡ true = rw e at h in rw q (inl e)
  Member-of_select p a (x ∷ xs) (inr m) h = elim (Bool-cases (p x)) [
    | inl here ↦ rw here (inr (Member-of_select p a xs m h))
    | inr gone ↦ rw gone (Member-of_select p a xs m h)
  ]

  -- The one row that a query returns is the only one that passes.
  pub scalar_one :
      (rows : List A) (a b : A) → scalar_one_or_none rows ≡ ok (some a) → Member b rows → b ≡ a
  scalar_one [] a b e m = elim m [ ]
  scalar_one (x ∷ []) a b e (inl f) = let g : x ≡ a = cc e in f ∙ g
  scalar_one (x ∷ []) a b e (inr m) = elim m [ ]
  scalar_one (x ∷ y ∷ rows) a b e m = cc

  pub scalar-Member_of :
      (rows : List A) (a : A) → scalar_one_or_none rows ≡ ok (some a) → Member a rows
  scalar-Member_of [] a e = cc
  scalar-Member_of (x ∷ []) a e = inl (cc e)
  scalar-Member_of (x ∷ y ∷ rows) a e = cc

  pub Member-of_update_where_other :
      (p : A → Bool) (f : A → A) (x : A) (xs : List A)
      → Member x xs
      → p x ≡ false
      → Member x (update_where p f xs)
  Member-of_update_where_other p f x [] m h = elim m [ ]
  Member-of_update_where_other p f x (y ∷ ys) (inl e) h =
      let q : p y ≡ false = rw e at h in rw q (inl e)
  Member-of_update_where_other p f x (y ∷ ys) (inr m) h =
      inr (Member-of_update_where_other p f x ys m h)
