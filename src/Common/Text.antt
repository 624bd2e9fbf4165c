-- ===== src/Common/Text.antt =====
-- Python's operations on `str` that the code uses.
use Prim.Native.Nat.{ℕ, zero, suc, ◌+◌, ◌*◌, ◌/◌, ◌%◌, ◌≤◌}
use Prim.Native.Char.{Char, code}
use Prim.Native.String.{String, ◌++◌}
use mathlib.Core.Path.{◌≡◌}
use mathlib.Core.Logic.{inl, inr}
use mathlib.Core.Bool.{Bool, true, false, ◌&&◌, ◌||◌}
use mathlib.Core.List.{List, [], ◌∷◌}
use mathlib.Core.Option.{Option, none, some}
use native.Mathlib.Omega.{arith}
use enterprise_doc_rag.Common.Lists.{get_elem?}
use enterprise_doc_rag.Common.Equality.{nat_eq, if◌then◌else◌, ltb, leb, contains, Bool-cases}

-- The code points outside ASCII that `str.isspace` accepts.
abbrev pub wide_spaces : List ℕ
wide_spaces =
    133 ∷ 160 ∷ 5760 ∷ 8192 ∷ 8193 ∷ 8194 ∷ 8195 ∷ 8196 ∷ 8197 ∷ 8198 ∷ 8199 ∷ 8200 ∷ 8201 ∷ 8202
    ∷ 8232 ∷ 8233 ∷ 8239 ∷ 8287 ∷ 12288 ∷ []

unfoldable pub is_space : Char → Bool
is_space c =
    leb 9 (code c) && leb (code c) 13
    || leb 28 (code c) && leb (code c) 32
    || contains wide_spaces (code c)

-- The truth of a text is that it is not empty.
abbrev pub is_blank : String → Bool
is_blank String.[] = true
is_blank (String.◌∷◌ c text) = false

abbrev pub lstrip : String → String
lstrip String.[] = String.[]
lstrip (String.◌∷◌ c text) =
    let rest = lstrip text in if is_space c then rest else String.◌∷◌ c text

abbrev pub rstrip : String → String
rstrip String.[] = String.[]
rstrip (String.◌∷◌ c text) =
    let rest = rstrip text in if is_space c && is_blank rest then String.[] else String.◌∷◌ c rest

abbrev pub strip : String → String
strip text = rstrip (lstrip text)

-- `text or None`
abbrev pub or_none : String → Option String
or_none text = if is_blank text then none else some text

-- `text or ""`
abbrev pub or_blank : Option String → String
or_blank none = ""
or_blank (some text) = text

-- An optional text that is there and not empty.
abbrev pub truthy : Option String → Option String
truthy none = none
truthy (some text) = or_none text

abbrev pub join : String → List String → String
join separator [] = ""
join separator (text ∷ []) = text
join separator (text ∷ next ∷ texts) = text ++ (separator ++ join separator (next ∷ texts))

abbrev pub concat : List String → String
concat [] = ""
concat (text ∷ texts) = text ++ concat texts

-- A text without its white space.
abbrev pub squeeze : String → String
squeeze String.[] = String.[]
squeeze (String.◌∷◌ c text) =
    let rest = squeeze text in if is_space c then rest else String.◌∷◌ c rest

-- The decimal digits of a number, the last one first. The number itself is fuel enough.
abbrev pub digits : ℕ → ℕ → List ℕ
digits zero n = n ∷ []
digits (suc fuel) n = let rest = digits fuel (n / 10) in if ltb n 10 then n ∷ [] else n % 10 ∷ rest

abbrev pub value : List ℕ → ℕ
value [] = 0
value (d ∷ ds) = d + 10 * value ds

pub value-digits : (fuel n : ℕ) → n ≤ fuel → value (digits fuel n) ≡ n
value-digits zero n h = omega arith
value-digits (suc fuel) n h = elim (Bool-cases (ltb n 10)) [
  | inl small ↦ rw small (omega arith)
  | inr large ↦ rw large (omega (arith, value-digits fuel (n / 10) (ground arith)))
]

abbrev pub digit : ℕ → String
digit d = or_blank (get_elem? ("0" ∷ "1" ∷ "2" ∷ "3" ∷ "4" ∷ "5" ∷ "6" ∷ "7" ∷ "8" ∷ "9" ∷ []) d)

abbrev pub written : List ℕ → String
written [] = ""
written (d ∷ ds) = written ds ++ digit d

-- `str(n)`
abbrev pub decimal : ℕ → String
decimal n = written (digits n n)
