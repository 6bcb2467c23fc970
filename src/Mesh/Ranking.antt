-- ===== src/Mesh/Ranking.antt =====
-- The group that `preflight` ranks first holds an input of the highest priority.
use governed_autonomy_substr.Base.{
  inl, All, All-Among, All-append_one, All-from, All-sort_by, Among, Among-sort_by, Any-Among,
  HeadBounds, List, Option, Option-cases, String, String-discrete, [], ap, arith, false, get_or,
  inr, insert, is_empty, lookup, lookup-insert, lookup-insert_self, none, refl, some, sort_by,
  sort_by-HeadBounds, subst, sym, true, ◌++◌, ◌∷◌, ◌≡◌, ◌⊎◌,
}
use governed_autonomy_substr.Base.Int.{◌≤ℤ◌}
use governed_autonomy_substr.Mesh.Conflict.{
  Group, group_inputs, group_priority, ranks_before, top_priority,
}
use governed_autonomy_substr.Mesh.Input.{GovernanceInput, input_digest}
use governed_autonomy_substr.Mesh.Preflight.{winning_group}
use governed_autonomy_substr.Mesh.Winner.{
  All-insert, All-lookup, Among-append, Among-last, IsGroup, IsGrouped, IsTop, top_priority-Any,
  top_priority-bound, ≤ℤ-trans,
}
use governed_autonomy_substr.Platform.{Platform}

some-injective : {x y : Group} → some x ≡ some y → x ≡ y
some-injective e = cc

module _ ⦃p : Platform⦄ where
  ranks_before-true : (g h : Group) → ranks_before g h ≡ true → group_priority h ≤ℤ group_priority g
  unfolding ranks_before
  ranks_before-true g h e = ground arith

  ranks_before-false :
      (g h : Group) → ranks_before g h ≡ false → group_priority g ≤ℤ group_priority h
  unfolding ranks_before
  ranks_before-false g h e = ground arith

  is_empty-append :
      (x : GovernanceInput) (xs : List GovernanceInput) → is_empty (xs ++ x ∷ []) ≡ false
  is_empty-append x [] = refl
  is_empty-append x (y ∷ ys) = refl

  -- Every group of the grouping is one.
  group_inputs-IsGroup :
      (inputs is : List GovernanceInput) (groups : List Group)
      → All (λ (i : GovernanceInput). Among i inputs) is
      → All (IsGroup inputs) groups
      → All (IsGroup inputs) (group_inputs is groups)
  unfolding group_inputs
  group_inputs-IsGroup inputs [] groups h hs = hs
  group_inputs-IsGroup inputs (i ∷ is) groups h hs =
      let k = input_digest i in
      let old = get_or k [] groups in
      let Member : GovernanceInput → Type 0 = λ m. (input_digest m ≡ k) × Among m inputs in
      let members : All Member old = elim (Option-cases (lookup k groups)) [
        | inl new ↦ let empty : old ≡ [] = ground arith in subst (All Member) (sym empty) tt
        | inr (ms, found) ↦
            let is_old : old ≡ ms = ground arith in
            subst (All Member) (sym is_old) (All-lookup (IsGroup inputs) k ms groups hs found).1
      ] in
      group_inputs-IsGroup inputs is (insert k (old ++ i ∷ []) groups) h.1 (
        All-insert (IsGroup inputs) k (old ++ i ∷ []) groups
          (is_empty-append i old, All-append_one _ old i members (refl, h.0)) hs)

  -- Another input in a group leaves every input that is grouped in its group.
  IsGrouped-insert :
      (i j : GovernanceInput) (groups : List Group)
      → IsGrouped groups j
      → IsGrouped (insert (input_digest i) (get_or (input_digest i) [] groups ++ i ∷ []) groups) j
  IsGrouped-insert i j groups (ms, found, among) =
      let k = input_digest i in
      let new = get_or k [] groups ++ i ∷ [] in
      elim (String-discrete (input_digest j) k) [
        | yes same ↦
            let found' : lookup k groups ≡ some ms = ground arith in
            let is_new : new ≡ ms ++ i ∷ [] =
              ap
                (λ (o : Option (List GovernanceInput)).
                  (elim o as (λ _. List GovernanceInput) [ none ↦ [] | some w ↦ w ]) ++ i ∷ [])
                found' in
            (
              new,
              ground (arith, lookup-insert k (input_digest j) new groups),
              rw is_new (Among-append j i ms among),
            )
        | no other ↦ (ms, ground (arith, lookup-insert k (input_digest j) new groups), among)
      ]

  -- Every input is in the group of its digest.
  group_inputs-IsGrouped :
      (is : List GovernanceInput) (groups : List Group) (j : GovernanceInput)
      → Among j is ⊎ IsGrouped groups j
      → IsGrouped (group_inputs is groups) j
  unfolding group_inputs
  group_inputs-IsGrouped [] groups j (inl h) = elim h [ ]
  group_inputs-IsGrouped [] groups j (inr h) = h
  group_inputs-IsGrouped (i ∷ is) groups j (inl (inr later)) =
      group_inputs-IsGrouped is _ j (inl later)
  group_inputs-IsGrouped (i ∷ is) groups j (inl (inl same)) =
      let k = input_digest i in
      let new = get_or k [] groups ++ i ∷ [] in
      let here : IsGrouped (insert k new groups) i =
        (new, lookup-insert_self k new groups, Among-last i (get_or k [] groups)) in
      group_inputs-IsGrouped is (insert k new groups) j
        (inr (subst (IsGrouped (insert k new groups)) (sym same) here))
  group_inputs-IsGrouped (i ∷ is) groups j (inr h) =
      group_inputs-IsGrouped is _ j (inr (IsGrouped-insert i j groups h))

  first_group :
      (inputs : List GovernanceInput) (gs : List Group) (g : Group)
      → All (IsGroup inputs) gs
      → HeadBounds (λ (a : Group) (b : Group). group_priority a ≤ℤ group_priority b) gs
      → (elim gs as (λ _. Option Group) [ [] ↦ none | x ∷ xs ↦ some x ]) ≡ some g
      → IsGroup inputs g × All (λ (h : Group). group_priority h ≤ℤ group_priority g) gs
  first_group inputs [] g h b e = absurd (ground arith)
  first_group inputs (x ∷ xs) g h b e =
      let same : x ≡ g = some-injective e in
      subst
        (λ (y : Group).
          IsGroup inputs y × All (λ (z : Group). group_priority z ≤ℤ group_priority y) (x ∷ xs))
        same (h.0, (let m = group_priority x in omega arith, b))

  member-bound :
      (d : String) (ms : List GovernanceInput) (j : GovernanceInput)
      → Among j ms
      → j.priority ≤ℤ group_priority (d, ms)
  member-bound d [] j h = elim h [ ]
  member-bound d (m ∷ ms) j h =
      All-Among (λ (x : GovernanceInput). x.priority ≤ℤ top_priority m.priority ms) j (m ∷ ms)
        (top_priority-bound m.priority ms) h

  -- The group that wins has one digest, is of inputs, and holds an input of the highest priority.
  pub winning_group-IsTop :
      (inputs : List GovernanceInput) (d : String) (w : GovernanceInput) (ws : List GovernanceInput)
      → winning_group inputs ≡ some (d, w ∷ ws)
      → (t : GovernanceInput) × IsTop inputs t
        × (input_digest t ≡ d)
        × (input_digest w ≡ d)
        × Among w inputs
  unfolding winning_group
  winning_group-IsTop inputs d w ws e =
      let groups = group_inputs inputs [] in
      let sorted_groups = sort_by ranks_before groups in
      let all_groups =
        group_inputs-IsGroup inputs inputs [] (All-from _ inputs (λ x among. among)) tt in
      let heads =
        sort_by-HeadBounds (λ (a : Group) (b : Group). group_priority a ≤ℤ group_priority b)
          ranks_before ranks_before-true ranks_before-false
          (λ a b c h k. ≤ℤ-trans (group_priority a) (group_priority b) (group_priority c) h k)
          groups in
      let (members, bounds) =
        first_group inputs sorted_groups (d, w ∷ ws)
          (All-sort_by (IsGroup inputs) ranks_before groups all_groups) heads e in
      let (t, among, is_max) = Any-Among _ (w ∷ ws) (top_priority-Any w ws) in
      let (t_digest, t_input) = All-Among _ t (w ∷ ws) (members.1) among in
      let below : (j : GovernanceInput) → Among j inputs → j.priority ≤ℤ t.priority = λ j j_input.
        let (ms, found, j_among) = group_inputs-IsGrouped inputs [] j (inl j_input) in
        let listed =
          All-lookup (λ (g : Group). Among g groups) (input_digest j) ms groups
            (All-from _ groups (λ x here. here)) found in
        let bound =
          All-Among _ (input_digest j, ms) sorted_groups bounds
            (Among-sort_by ranks_before (input_digest j, ms) groups listed) in
        rw (sym is_max) (
          ≤ℤ-trans j.priority (group_priority (input_digest j, ms)) (top_priority w.priority ws)
            (member-bound (input_digest j) ms j j_among) bound) in
      (t, (t_input, All-from _ inputs below), t_digest, members.1.0.0, members.1.0.1)
