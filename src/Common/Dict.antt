-- ===== src/Common/Dict.antt =====
-- A JavaScript object or `Map` with text keys, as the list of its entries in insertion order.
use Prim.Native.String.{String}
use mathlib.Core.Path.{◌≡◌, refl}
use mathlib.Core.Option.{Option, none, some}
use mathlib.Core.List.{List, [], ◌∷◌}
use native.Mathlib.Omega.{arith}
use text.Mathlib.Text.{◌==◌}
use text.Mathlib.TextEquality.{eq_iff}
use k8s_platform.Common.Tests.{if◌then◌else◌}
use k8s_platform.Common.Lists.{All}

module _ {ℓ} {V : Type ℓ} where
  unfoldable pub get : List (String × V) → String → Option V
  get [] k = none
  get ((j, v) ∷ m) k = if j == k then some v else get m k

  -- A new key goes to the end; an old one keeps its place.
  unfoldable pub put : List (String × V) → String → V → List (String × V)
  put [] k v = (k, v) ∷ []
  put ((j, w) ∷ m) k v = if j == k then (k, v) ∷ m else (j, w) ∷ put m k v

  -- `delete m[k]`: every entry of the key goes.
  unfoldable pub del : List (String × V) → String → List (String × V)
  del [] k = []
  del ((j, w) ∷ m) k = if j == k then del m k else (j, w) ∷ del m k

  pub get-put :
      (m : List (String × V)) (k j : String) (v : V)
      → get (put m k v) j ≡ (if k == j then some v else get m j)
  unfolding get put
  get-put [] k j v = refl
  get-put ((i, w) ∷ m) k j v = ground (arith, eq_iff k j, eq_iff i k, eq_iff i j, get-put m k j v)

  pub get-del :
      (m : List (String × V)) (k j : String) → get (del m k) j ≡ (if k == j then none else get m j)
  unfolding get del
  get-del [] k j = ground arith
  get-del ((i, w) ∷ m) k j = ground (arith, eq_iff k j, eq_iff i k, eq_iff i j, get-del m k j)

module _ {ℓ κ} {V : Type ℓ} (P : V → Type κ) where
  -- Every value of the dictionary meets `P`.
  abbrev pub AllValues : List (String × V) → Type κ
  AllValues = All (λ e. P e.1)

  pub put-AllValues :
      (m : List (String × V)) (k : String) (v : V) → AllValues m → P v → AllValues (put m k v)
  unfolding put
  put-AllValues [] k v h p = (p, tt)
  put-AllValues ((j, w) ∷ m) k v h p = ground (arith, put-AllValues m k v h.1 p)

  pub del-AllValues : (m : List (String × V)) (k : String) → AllValues m → AllValues (del m k)
  unfolding del
  del-AllValues [] k h = tt
  del-AllValues ((j, w) ∷ m) k h = ground (arith, del-AllValues m k h.1)
