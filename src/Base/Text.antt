-- ===== src/Base/Text.antt =====
-- Text: equality as a decision, the order of Python's `sorted` on `str`, and joins.
use Prim.Native.String.{String, compare, ◌++◌}
use Prim.Native.Nat.{ℕ, zero, suc, Ordering}
use mathlib.Core.Path.{◌≡◌}
use mathlib.Core.Bool.{Bool, true, false, ◌||◌}
use mathlib.Core.List.{List, [], ◌∷◌}
use mathlib.Core.Logic.{inl, inr}
use native.Mathlib.Omega.{arith}
use text.Mathlib.Text.{◌==◌}
use text.Mathlib.TextEquality.{eq_iff}
use governed_autonomy_substr.Base.Tests.{Bool-cases, if◌then◌else◌}

unfoldable pub String-discrete : Discrete String
unfolding Bool-cases
String-discrete s t = elim (Bool-cases (s == t)) [
  | inl same ↦ yes ((eq_iff s t).0 same)
  | inr other ↦ no (λ e. let h : (s == t) ≡ true = (eq_iff s t).1 e in cc)
]

abbrev pub eq_text : String → String → Bool
eq_text s t = elim (String-discrete s t) [ yes _ ↦ true | no _ ↦ false ]

pub eq_text_self : (s : String) → eq_text s s ≡ true
eq_text_self s = ground arith

pub eq_text-true : (s t : String) → eq_text s t ≡ true → s ≡ t
eq_text-true s t h = ground arith

-- `not s`: the empty string is falsy.
abbrev pub is_blank : String → Bool
is_blank s = eq_text s ""

infixl 65 ◌⧺◌
abbrev pub ◌⧺◌ : String → String → String
s ⧺ t = s ++ t

-- `s in xs`.
abbrev pub is_in : String → List String → Bool
is_in s [] = false
is_in s (x ∷ xs) = eq_text s x || is_in s xs

-- `"; ".join(xs)`.
abbrev pub join : String → List String → String
join sep [] = ""
join sep (x ∷ []) = x
join sep (x ∷ y ∷ ys) = x ⧺ sep ⧺ join sep (y ∷ ys)

-- The order by code points.
unfoldable pub le_text : String → String → Bool
le_text s t = elim (compare s t) [ Ordering.gt ↦ false | _ ↦ true ]

module _ {ℓ} {A : Type ℓ} where
  -- Python's stable `sorted`, with a test that says whether the first may stand before the second.
  unfoldable pub insert_sorted : (A → A → Bool) → A → List A → List A
  insert_sorted le a [] = a ∷ []
  insert_sorted le a (x ∷ xs) =
      let rest = insert_sorted le a xs in if le a x then a ∷ x ∷ xs else x ∷ rest

  unfoldable pub sort_by : (A → A → Bool) → List A → List A
  unfolding insert_sorted
  sort_by le [] = []
  sort_by le (x ∷ xs) = insert_sorted le x (sort_by le xs)

abbrev pub sorted : List String → List String
sorted = sort_by le_text

-- `dict.fromkeys(xs)` and `set(xs)` keep one copy of each.
abbrev pub unique : List String → List String
unique [] = []
unique (x ∷ xs) = let rest = unique xs in if is_in x xs then rest else x ∷ rest

-- `s[:n]`, by characters.
unfoldable pub take_text : ℕ → String → String
take_text zero s = ""
take_text (suc n) String.[] = ""
take_text (suc n) (String.◌∷◌ c s) = String.◌∷◌ c (take_text n s)
