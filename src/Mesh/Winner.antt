-- ===== src/Mesh/Winner.antt =====
-- The inputs of the highest priority, and the group of equal decisions that `preflight` ranks first.
use governed_autonomy_substr.Base.{
  All, All-Among, Among, Any, Any-Among, Bool, Bool-cases, List, String, String-discrete, [], ap,
  arith, false, inl, inr, insert, is_empty, keep, lookup, refl, some, subst, sym, true, ◌++◌, ◌↔◌,
  ◌∷◌, ◌≡◌, ◌⊎◌,
}
use governed_autonomy_substr.Base.Int.{eq_ℤ, ltb_ℤ, ℤ, ◌≤ℤ◌}
use governed_autonomy_substr.Mesh.Conflict.{Group, top_inputs, top_priority}
use governed_autonomy_substr.Mesh.Input.{GovernanceInput, input_digest}
use governed_autonomy_substr.Platform.{Platform}

-- An input that no input has a higher priority than.
abbrev pub IsTop : List GovernanceInput → GovernanceInput → Type 0
IsTop inputs i = Among i inputs × All (λ (j : GovernanceInput). j.priority ≤ℤ i.priority) inputs

pub ≤ℤ-trans : (a b c : ℤ) → a ≤ℤ b → b ≤ℤ c → a ≤ℤ c
≤ℤ-trans a b c h k = omega arith

All-≤ℤ :
    (a b : ℤ) (xs : List GovernanceInput)
    → a ≤ℤ b
    → All (λ (j : GovernanceInput). j.priority ≤ℤ a) xs
    → All (λ (j : GovernanceInput). j.priority ≤ℤ b) xs
All-≤ℤ a b [] h hs = tt
All-≤ℤ a b (x ∷ xs) h hs = (≤ℤ-trans x.priority a b hs.0 h, All-≤ℤ a b xs h hs.1)

-- The maximum bounds every priority, and is one of them.
pub top_priority-bound :
    (best : ℤ) (is : List GovernanceInput)
    → (best ≤ℤ top_priority best is)
      × All (λ (j : GovernanceInput). j.priority ≤ℤ top_priority best is) is
unfolding top_priority
top_priority-bound best [] = (omega arith, tt)
top_priority-bound best (i ∷ is) =
    let Bounds : ℤ → Type 0 =
      λ t. (best ≤ℤ t) × All (λ (j : GovernanceInput). j.priority ≤ℤ t) (i ∷ is) in
    elim (Bool-cases (ltb_ℤ best i.priority)) [
      | inl higher ↦
          let (above, rest) = top_priority-bound i.priority is in
          let same : top_priority best (i ∷ is) ≡ top_priority i.priority is = rw higher refl in
          subst Bounds (sym same) (
            ≤ℤ-trans best i.priority (top_priority i.priority is) (ground arith) above,
            (above, rest),
          )
      | inr lower ↦
          let (above, rest) = top_priority-bound best is in
          let same : top_priority best (i ∷ is) ≡ top_priority best is = rw lower refl in
          subst Bounds (sym same)
            (above, (≤ℤ-trans i.priority best (top_priority best is) (ground arith) above, rest))
    ]

top_priority-attained :
    (best : ℤ) (is : List GovernanceInput)
    → (top_priority best is ≡ best)
      ⊎ Any (λ (j : GovernanceInput). top_priority best is ≡ j.priority) is
unfolding top_priority
top_priority-attained best [] = inl refl
top_priority-attained best (i ∷ is) =
    let Attained : ℤ → Type 0 =
      λ t. (t ≡ best) ⊎ Any (λ (j : GovernanceInput). t ≡ j.priority) (i ∷ is) in
    elim (Bool-cases (ltb_ℤ best i.priority)) [
      | inl higher ↦
          let same : top_priority best (i ∷ is) ≡ top_priority i.priority is = rw higher refl in
          subst Attained (sym same) (inr (top_priority-attained i.priority is))
      | inr lower ↦
          let same : top_priority best (i ∷ is) ≡ top_priority best is = rw lower refl in
          subst Attained (sym same) (elim (top_priority-attained best is) [
            | inl first ↦ inl first
            | inr later ↦ inr (inr later)
          ])
    ]

-- Some input has the maximum.
pub top_priority-Any :
    (i : GovernanceInput) (is : List GovernanceInput)
    → Any (λ (j : GovernanceInput). top_priority i.priority is ≡ j.priority) (i ∷ is)
top_priority-Any i is = elim (top_priority-attained i.priority is) [
  | inl same ↦ inl same
  | inr later ↦ inr later
]

Among-keep :
    (f : GovernanceInput → Bool) (x : GovernanceInput) (xs : List GovernanceInput)
    → Among x (keep f xs) ↔ (Among x xs × (f x ≡ true))
Among-keep f x [] = ((λ h. elim h [ ]), (λ h. elim (h.0) [ ]))
Among-keep f x (y ∷ ys) =
    let (there, back) = Among-keep f x ys in
    elim (Bool-cases (f y)) [
      | inl kept ↦ rw kept (
        (λ h. elim h [
          | inl same ↦ (inl same, rw (same) kept)
          | inr later ↦ (inr (there later).0, (there later).1)
        ]),
        (λ h. elim (h.0) [ inl same ↦ inl same | inr later ↦ inr (back (later, h.1)) ]),
      )
      | inr dropped ↦ rw dropped (
        (λ h. (inr (there h).0, (there h).1)),
        (λ h. elim (h.0) [
          | inl same ↦ absurd (ground (arith, ap f same, dropped))
          | inr later ↦ back (later, h.1)
        ]),
      )
    ]

-- `top_inputs` keeps exactly the inputs of the highest priority.
pub top_inputs-IsTop :
    (inputs : List GovernanceInput) (x : GovernanceInput)
    → Among x (top_inputs inputs) ↔ IsTop inputs x
unfolding top_inputs
top_inputs-IsTop [] x = ((λ h. elim h [ ]), (λ h. elim (h.0) [ ]))
top_inputs-IsTop (i ∷ is) x =
    let top = top_priority i.priority is in
    let bound = top_priority-bound i.priority is in
    let (there, back) =
      Among-keep (λ (item : GovernanceInput). eq_ℤ item.priority top) x (i ∷ is) in
    (
      (λ h.
          let (among, equal) = there h in
          (among, All-≤ℤ top x.priority (i ∷ is) (ground arith) bound)),
      (λ h.
          let (j, among, same) = Any-Among _ (i ∷ is) (top_priority-Any i is) in
          let below = All-Among _ j (i ∷ is) h.1 among in
          let above = All-Among _ x (i ∷ is) bound h.0 in back (h.0, ground arith)),
    )

-- The members of a group have its digest and are inputs, and there is one.
module _ ⦃p : Platform⦄ where
  abbrev pub IsGroup : List GovernanceInput → Group → Type 0
  IsGroup inputs (d, ms) =
      (is_empty ms ≡ false)
      × All (λ (m : GovernanceInput). (input_digest m ≡ d) × Among m inputs) ms

  -- An input's group is under its digest.
  abbrev pub IsGrouped : List Group → GovernanceInput → Type 0
  IsGrouped groups i =
      (ms : List GovernanceInput) × (lookup (input_digest i) groups ≡ some ms) × Among i ms

  pub All-insert :
      (P : Group → Type 0) (k : String) (v : List GovernanceInput) (d : List Group)
      → P (k, v)
      → All P d
      → All P (insert k v d)
  unfolding insert
  All-insert P k v [] h hs = (h, tt)
  All-insert P k v ((j, w) ∷ d) h hs = elim (String-discrete k j) [
    | yes same ↦
        let renamed : insert k v ((j, w) ∷ d) ≡ (j, v) ∷ d = ground arith in
        subst (All P) (sym renamed) (subst (λ (x : String). P (x, v)) same h, hs.1)
    | no other ↦
        let kept : insert k v ((j, w) ∷ d) ≡ (j, w) ∷ insert k v d = ground arith in
        subst (All P) (sym kept) (hs.0, All-insert P k v d h hs.1)
  ]

  pub All-lookup :
      (P : Group → Type 0) (k : String) (v : List GovernanceInput) (d : List Group)
      → All P d
      → lookup k d ≡ some v
      → P (k, v)
  unfolding lookup
  All-lookup P k v [] hs e = absurd (ground arith)
  All-lookup P k v ((j, w) ∷ d) hs e = elim (String-discrete k j) [
    | yes same ↦
        let found : w ≡ v = ground arith in
        subst (λ (x : List GovernanceInput). P (k, x)) found
          (subst (λ (x : String). P (x, w)) (sym same) hs.0)
    | no other ↦ All-lookup P k v d hs.1 (ground arith)
  ]

  pub Among-append :
      (x y : GovernanceInput) (xs : List GovernanceInput) → Among x xs → Among x (xs ++ y ∷ [])
  Among-append x y [] h = elim h [ ]
  Among-append x y (z ∷ zs) (inl same) = inl same
  Among-append x y (z ∷ zs) (inr later) = inr (Among-append x y zs later)

  pub Among-last : (x : GovernanceInput) (xs : List GovernanceInput) → Among x (xs ++ x ∷ [])
  Among-last x [] = inl refl
  Among-last x (y ∷ ys) = inr (Among-last x ys)
