-- ===== src/Pages/Compare/Names.antt =====
-- frontend/src/pages/ops/compare.tsx: the names that are offered, and a comparison with its sides
-- swapped.
use k8s_platform.Common.{
  String, ◌≡◌, refl, true, false, ◌||◌, ◌==◌, none, some, List, [], ◌∷◌, contains, if◌then◌else◌,
  arith, eq_iff, Bool-cases, inl, inr,
}
use k8s_platform.Common.Dict
use k8s_platform.Common.Dict.{get-put}
use k8s_platform.Text.{truthy}
use k8s_platform.Pages.Compare.{Sides, has_left, add_left, add_right, sides}

abbrev only_left : Sides
only_left = record { left = true; right = false }

module _ (n : String) (named : truthy n ≡ true) where
  -- A name that is not empty is not the empty one.
  other : (x : String) → truthy x ≡ false → (x == n) ≡ false
  other x empty = elim (Bool-cases (x == n)) [
    | inl same ↦
        let e : x ≡ n = ground (arith, eq_iff x n) in let full : truthy x ≡ true = rw e named in cc
    | inr differ ↦ differ
  ]

  add_left-get :
      (ns : List String) (m : List (String × Sides))
      → Dict.get (add_left m ns) n ≡ (if contains ns n then some only_left else Dict.get m n)
  add_left-get [] m = refl
  add_left-get (x ∷ ns) m = elim (Bool-cases (truthy x)) [
    | inl full ↦
        rw full (ground (arith, add_left-get ns (Dict.put m x only_left), get-put m x n only_left))
    | inr empty ↦ rw (empty, other x empty) (add_left-get ns m)
  ]

  add_right-get :
      (ns : List String) (m : List (String × Sides))
      → Dict.get (add_right m ns) n ≡ (
          if contains ns n
          then some (record { left = has_left (Dict.get m n); right = true })
          else Dict.get m n)
  add_right-get [] m = refl
  add_right-get (x ∷ ns) m = elim (Bool-cases (truthy x)) [
    | inl full ↦
        let s : Sides = record { left = has_left (Dict.get m x); right = true } in
        rw full (ground (arith, eq_iff x n, add_right-get ns (Dict.put m x s), get-put m x n s))
    | inr empty ↦ rw (empty, other x empty) (add_right-get ns m)
  ]

  -- A name is offered exactly when one of the two lists has it, and it is marked with the lists
  -- that have it, where it is not empty.
  pub sides-get :
      (left right : List String)
      → Dict.get (sides left right) n ≡ (
          if contains left n || contains right n
          then some (record { left = contains left n; right = contains right n })
          else none)
  unfolding sides Dict.get
  sides-get left right =
      ground (arith, add_right-get right (add_left [] left), add_left-get left [])
