-- ===== src/Pages/ResourceEdit/Opening.antt =====
-- frontend/src/pages/resources/[code]/[apiVersion]/[kind]/[namespace]/[name]/edit.tsx: the button that
-- opens the comparison of the ticked versions.
use k8s_platform.Common.{
  ℕ, zero, suc, String, ◌≡◌, ◌⊎◌, true, false, some, List, [], ◌∷◌, nat_eq, refl, arith, inl, inr,
}
use k8s_platform.Api.Resource.{GetResourceParams}
use k8s_platform.Pages.{Act, send, sent}
use k8s_platform.Pages.ResourceEdit.{
  Call, diff, Compare, no_compare, ordered_compare_seqs, diff_params, run_compare, open_compare,
  open_seqs, can_open_compare,
}
use k8s_platform.Pages.ResourceEdit.Selection.{Event, Two, history, history-IsSelection}

-- The drawer is open, and the texts of the pair that it names are asked for.
abbrev pub IsAsked : GetResourceParams → Compare × List (Act Call) → Type 0
IsAsked o (c, acts) =
    (c.drawer_open ≡ true)
    × ((pair : ℕ × ℕ) × (c.compare_pair ≡ some pair)
        × (acts ≡ send (diff (diff_params o pair)) ∷ []))

-- An enabled button asks, and the function behind a disabled one does nothing but warn.
abbrev pub Opens : GetResourceParams → Compare → List ℕ → Compare × List (Act Call) → Type 0
Opens o c xs (d, acts) =
    ((can_open_compare xs ≡ true) × IsAsked o (d, acts))
    ⊎ ((can_open_compare xs ≡ false) × ((d ≡ c) × (sent acts ≡ [])))

module _ (o : GetResourceParams) where
  run_compare-IsAsked :
      (c : Compare) (a b : ℕ) → nat_eq a b ≡ false → IsAsked o (run_compare o c a b)
  unfolding run_compare
  run_compare-IsAsked c a b h = rw h (refl, (ordered_compare_seqs a b, refl, refl))

  open_seqs-Opens : (c : Compare) (xs : List ℕ) → Two xs → Opens o c xs (open_seqs o c xs)
  open_seqs-Opens c [] h = inr (refl, (refl, refl))
  open_seqs-Opens c (zero ∷ []) h = inr (refl, (refl, refl))
  open_seqs-Opens c (suc n ∷ []) h = inl (refl, run_compare-IsAsked c (suc n) 0 (ground arith))
  open_seqs-Opens c (zero ∷ b ∷ []) h = inl (refl, run_compare-IsAsked c zero b (ground arith))
  open_seqs-Opens c (suc a ∷ b ∷ []) h = inl (refl, run_compare-IsAsked c (suc a) b (ground arith))
  open_seqs-Opens c (a ∷ b ∷ d ∷ rest) h = absurd h

  -- After any clicks and answers, the button that compares the ticked versions is enabled exactly
  -- when a click on it opens the drawer and asks for the one pair of versions that the drawer names.
  pub open_compare-Opens :
      (digits : ℕ → String) (es : List Event)
      → Opens o
          (history digits o no_compare es)
          (history digits o no_compare es).checked_seqs
          (open_compare o (history digits o no_compare es))
  unfolding open_compare
  open_compare-Opens digits es =
      open_seqs-Opens (history digits o no_compare es) (history digits o no_compare es).checked_seqs
        (history-IsSelection digits o es).two
