-- ===== src/Base/Sorting.antt =====
-- Predicates of every entry and of some entry of a list, and what sorting keeps of them.
use mathlib.Core.Bool.{Bool, true, false}
use mathlib.Core.List.{List, [], ◌∷◌, ◌++◌}
use mathlib.Core.Logic.{◌⊎◌, inl, inr}
use mathlib.Core.Path.{◌≡◌, refl, sym, subst}
use governed_autonomy_substr.Base.Lists.{All}
use governed_autonomy_substr.Base.Tests.{Bool-cases, if_intro}
use governed_autonomy_substr.Base.Text.{insert_sorted, sort_by}

pub All-insert_sorted {ℓ κ} :
    {A : Type ℓ} (P : A → Type κ) (le : A → A → Bool) (a : A) (xs : List A)
    → P a
    → All P xs
    → All P (insert_sorted le a xs)
unfolding insert_sorted
All-insert_sorted P le a [] h hs = (h, tt)
All-insert_sorted P le a (x ∷ xs) h hs =
    if_intro (All P) (le a x) (h, hs) (hs.0, All-insert_sorted P le a xs h hs.1)

pub All-sort_by {ℓ κ} :
    {A : Type ℓ} (P : A → Type κ) (le : A → A → Bool) (xs : List A)
    → All P xs
    → All P (sort_by le xs)
unfolding sort_by
All-sort_by P le [] h = tt
All-sort_by P le (x ∷ xs) h = All-insert_sorted P le x (sort_by le xs) h.0 (All-sort_by P le xs h.1)

pub All-append_one {ℓ κ} :
    {A : Type ℓ} (P : A → Type κ) (xs : List A) (a : A) → All P xs → P a → All P (xs ++ a ∷ [])
All-append_one P [] a hs h = (h, tt)
All-append_one P (x ∷ xs) a hs h = (hs.0, All-append_one P xs a hs.1 h)

-- A predicate of some entry.
abbrev pub Any {ℓ} : {A : Type ℓ} → (A → Type 0) → List A → Type 0
Any P [] = ⊥
Any P (x ∷ xs) = P x ⊎ Any P xs

-- Being an entry.
abbrev pub Among : {A : Type 0} → A → List A → Type 0
Among x xs = Any (λ y. x ≡ y) xs

pub All-Among {κ} :
    {A : Type 0} (P : A → Type κ) (x : A) (xs : List A) → All P xs → Among x xs → P x
All-Among P x [] h among = elim among [ ]
All-Among P x (y ∷ ys) h (inl same) = subst P (sym same) h.0
All-Among P x (y ∷ ys) h (inr later) = All-Among P x ys h.1 later

pub Any-Among : {A : Type 0} (P : A → Type 0) (xs : List A) → Any P xs → (x : A) × Among x xs × P x
Any-Among P [] h = elim h [ ]
Any-Among P (x ∷ xs) (inl h) = (x, inl refl, h)
Any-Among P (x ∷ xs) (inr h) = let (y, among, holds) = Any-Among P xs h in (y, inr among, holds)

pub All-from {κ} :
    {A : Type 0} (P : A → Type κ) (xs : List A) → ((x : A) → Among x xs → P x) → All P xs
All-from P [] h = tt
All-from P (x ∷ xs) h = (h x (inl refl), All-from P xs (λ y among. h y (inr among)))

Among-insert_sorted_self :
    {A : Type 0} (le : A → A → Bool) (a : A) (xs : List A) → Among a (insert_sorted le a xs)
unfolding insert_sorted
Among-insert_sorted_self le a [] = inl refl
Among-insert_sorted_self le a (x ∷ xs) =
    if_intro (Among a) (le a x) (inl refl) (inr (Among-insert_sorted_self le a xs))

Among-insert_sorted :
    {A : Type 0} (le : A → A → Bool) (a b : A) (xs : List A)
    → Among b xs
    → Among b (insert_sorted le a xs)
unfolding insert_sorted
Among-insert_sorted le a b [] among = elim among [ ]
Among-insert_sorted le a b (x ∷ xs) (inl same) =
    if_intro (Among b) (le a x) (inr (inl same)) (inl same)
Among-insert_sorted le a b (x ∷ xs) (inr later) =
    if_intro (Among b) (le a x) (inr (inr later)) (inr (Among-insert_sorted le a b xs later))

pub Among-sort_by :
    {A : Type 0} (le : A → A → Bool) (b : A) (xs : List A) → Among b xs → Among b (sort_by le xs)
unfolding sort_by
Among-sort_by le b [] among = elim among [ ]
Among-sort_by le b (x ∷ xs) (inl same) =
    subst (λ y. Among y (insert_sorted le x (sort_by le xs))) (sym same)
      (Among-insert_sorted_self le x (sort_by le xs))
Among-sort_by le b (x ∷ xs) (inr later) =
    Among-insert_sorted le x b (sort_by le xs) (Among-sort_by le b xs later)

-- The first entry bounds the others.
abbrev pub HeadBounds {ℓ κ} : {A : Type ℓ} → (A → A → Type κ) → List A → Type κ
HeadBounds R [] = Unit
HeadBounds R (x ∷ xs) = All (λ y. R y x) xs

module _ {ℓ κ} {A : Type ℓ} (R : A → A → Type κ) (le : A → A → Bool)
    (before : (a b : A) → le a b ≡ true → R b a) (after : (a b : A) → le a b ≡ false → R a b)
    (trans : (a b c : A) → R a b → R b c → R a c) where
  All-trans : (a b : A) (xs : List A) → R b a → All (λ y. R y b) xs → All (λ y. R y a) xs
  All-trans a b [] h hs = tt
  All-trans a b (x ∷ xs) h hs = (trans x b a hs.0 h, All-trans a b xs h hs.1)

  insert_sorted-HeadBounds :
      (a : A) (xs : List A) → HeadBounds R xs → HeadBounds R (insert_sorted le a xs)
  unfolding insert_sorted
  insert_sorted-HeadBounds a [] h = tt
  insert_sorted-HeadBounds a (x ∷ xs) h = elim (Bool-cases (le a x)) [
    | inl first ↦ rw first (before a x first, All-trans a x xs (before a x first) h)
    | inr later ↦ rw later (All-insert_sorted (λ y. R y x) le a xs (after a x later) h)
  ]

  -- The first entry of a sorted list bounds the others.
  pub sort_by-HeadBounds : (xs : List A) → HeadBounds R (sort_by le xs)
  unfolding sort_by
  sort_by-HeadBounds [] = tt
  sort_by-HeadBounds (x ∷ xs) = insert_sorted-HeadBounds x (sort_by le xs) (sort_by-HeadBounds xs)
