-- ===== src/Base/Pairs.antt =====
-- A Python dict keyed by a pair of texts.
use mathlib.Core.Path.{◌≡◌, refl}
use mathlib.Core.Bool.{Bool, ◌&&◌}
use mathlib.Core.List.{List, [], ◌∷◌}
use mathlib.Core.Option.{Option, none, some}
use Prim.Native.String.{String}
use native.Mathlib.Omega.{arith}
use governed_autonomy_substr.Base.Tests.{if◌then◌else◌}
use governed_autonomy_substr.Base.Text.{eq_text}

abbrev pub PairDict {ℓ} : Type ℓ → Type ℓ
PairDict V = List (String × String × V)

abbrev pub same_pair : String → String → String → String → Bool
same_pair a b c d = eq_text a c && eq_text b d

module _ {ℓ} {V : Type ℓ} where
  -- `d.get((a, b))`.
  unfoldable pub lookup_pair : String → String → PairDict V → Option V
  lookup_pair a b [] = none
  lookup_pair a b ((c, e, v) ∷ d) = if same_pair a b c e then some v else lookup_pair a b d

  -- `d[(a, b)] = v`: a known key keeps its place.
  unfoldable pub insert_pair : String → String → V → PairDict V → PairDict V
  insert_pair a b v [] = (a, b, v) ∷ []
  insert_pair a b v ((c, e, w) ∷ d) =
      if same_pair a b c e then (c, e, v) ∷ d else (c, e, w) ∷ insert_pair a b v d

  pub lookup_pair-insert_pair :
      (a b x y : String) (v : V) (d : PairDict V)
      → lookup_pair x y (insert_pair a b v d)
        ≡ (if same_pair x y a b then some v else lookup_pair x y d)
  unfolding lookup_pair insert_pair
  lookup_pair-insert_pair a b x y v [] = refl
  lookup_pair-insert_pair a b x y v ((c, e, w) ∷ d) =
      ground (arith, lookup_pair-insert_pair a b x y v d)
