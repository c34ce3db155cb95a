-- ===== src/Base/Dicts.antt =====
-- Python dictionaries with text keys, in insertion order: assignment to a key that is present keeps
-- its place.
use mathlib.Core.Path.{◌≡◌, refl}
use mathlib.Core.Bool.{Bool, false, ◌||◌}
use mathlib.Core.Option.{Option, none, some}
use mathlib.Core.List.{List, [], ◌∷◌}
use Prim.Native.String.{String}
use native.Mathlib.Omega.{arith}
use text.Mathlib.Text.{◌==◌}
use text.Mathlib.TextEquality.{eq_iff}
use cozy_nm.Base.Tests.{if◌then◌else◌}

abbrev pub Dict : Type 0 → Type 0
Dict V = List (String × V)

module _ {V : Type 0} where
  -- d.get(k)
  unfoldable pub get : String → Dict V → Option V
  get k [] = none
  get k ((j, v) ∷ d) = if j == k then some v else get k d

  -- d[k] = v
  unfoldable pub assign : String → V → Dict V → Dict V
  assign k v [] = (k, v) ∷ []
  assign k v ((j, w) ∷ d) = if j == k then (j, v) ∷ d else (j, w) ∷ assign k v d

  -- d.pop(k, None)
  unfoldable pub discard : String → Dict V → Dict V
  discard k [] = []
  discard k ((j, w) ∷ d) = let rest = discard k d in if j == k then rest else (j, w) ∷ rest

  -- the keys, in order
  abbrev pub keys : Dict V → List String
  keys [] = []
  keys ((k, v) ∷ d) = k ∷ keys d

  pub get-assign :
      (k j : String) (v : V) (d : Dict V)
      → get j (assign k v d) ≡ (if k == j then some v else get j d)
  unfolding get assign
  get-assign k j v [] = refl
  get-assign k j v ((i, w) ∷ d) =
      ground (arith, eq_iff k j, eq_iff i k, eq_iff i j, get-assign k j v d)

  pub get-discard :
      (k j : String) (d : Dict V) → get j (discard k d) ≡ (if k == j then none else get j d)
  unfolding get discard
  get-discard k j [] = ground arith
  get-discard k j ((i, w) ∷ d) =
      ground (arith, eq_iff k j, eq_iff i k, eq_iff i j, get-discard k j d)

-- `x in xs` for a list of texts
unfoldable pub contains : String → List String → Bool
contains x [] = false
contains x (y ∷ ys) = y == x || contains x ys
