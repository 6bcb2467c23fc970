-- ===== src/Base/Assoc.antt =====
-- A Python dict keyed by text: an association list in insertion order.
use mathlib.Core.Path.{◌≡◌, refl}
use mathlib.Core.Bool.{Bool}
use mathlib.Core.List.{List, [], ◌∷◌, map}
use mathlib.Core.Option.{Option, none, some}
use mathlib.Core.Logic.{◌≢◌}
use Prim.Native.String.{String}
use native.Mathlib.Omega.{arith}
use governed_autonomy_substr.Base.Tests.{if◌then◌else◌, is_some}
use governed_autonomy_substr.Base.Text.{eq_text, le_text, sort_by}

abbrev pub Dict {ℓ} : Type ℓ → Type ℓ
Dict V = List (String × V)

module _ {ℓ} {V : Type ℓ} where
  -- `d.get(k)`.
  unfoldable pub lookup : String → Dict V → Option V
  lookup k [] = none
  lookup k ((j, v) ∷ d) = if eq_text k j then some v else lookup k d

  -- `d.get(k, default)`.
  abbrev pub get_or : String → V → Dict V → V
  get_or k v d = elim (lookup k d) [ none ↦ v | some w ↦ w ]

  -- `k in d`.
  abbrev pub contains : String → Dict V → Bool
  contains k d = is_some (lookup k d)

  -- `d[k] = v`: a known key keeps its place.
  unfoldable pub insert : String → V → Dict V → Dict V
  insert k v [] = (k, v) ∷ []
  insert k v ((j, w) ∷ d) = if eq_text k j then (j, v) ∷ d else (j, w) ∷ insert k v d

  -- `del d[k]`, and `{k: v for k, v in d.items() if k != key}`.
  unfoldable pub erase : String → Dict V → Dict V
  erase k [] = []
  erase k ((j, w) ∷ d) = if eq_text k j then erase k d else (j, w) ∷ erase k d

  abbrev pub keys : Dict V → List String
  keys = map (λ (e : String × V). e.0)

  abbrev pub values : Dict V → List V
  values = map (λ (e : String × V). e.1)

  -- `d.setdefault(k, v)`.
  abbrev pub set_default : String → V → Dict V → Dict V
  set_default k v d = if contains k d then d else insert k v d

  -- `sorted(d.items())`.
  abbrev pub sorted_items : Dict V → Dict V
  sorted_items = sort_by (λ (a : String × V) (b : String × V). le_text a.0 b.0)

  pub lookup-insert :
      (k j : String) (v : V) (d : Dict V)
      → lookup j (insert k v d) ≡ (if eq_text j k then some v else lookup j d)
  unfolding lookup insert
  lookup-insert k j v [] = refl
  lookup-insert k j v ((i, w) ∷ d) = ground (arith, lookup-insert k j v d)

  pub lookup-insert_self : (k : String) (v : V) (d : Dict V) → lookup k (insert k v d) ≡ some v
  lookup-insert_self k v d = ground (arith, lookup-insert k k v d)

  pub lookup-insert_ne :
      (k j : String) (v : V) (d : Dict V) → j ≢ k → lookup j (insert k v d) ≡ lookup j d
  lookup-insert_ne k j v d h = ground (arith, lookup-insert k j v d)

  pub lookup-erase :
      (k j : String) (d : Dict V)
      → lookup j (erase k d) ≡ (if eq_text j k then none else lookup j d)
  unfolding lookup erase
  lookup-erase k j [] = ground arith
  lookup-erase k j ((i, w) ∷ d) = ground (arith, lookup-erase k j d)
