-- ===== src/Pages/ResourceEdit/Selection.antt =====
-- frontend/src/pages/resources/[code]/[apiVersion]/[kind]/[namespace]/[name]/edit.tsx: the versions
-- that are ticked for a comparison, over every history of the page.
use k8s_platform.Common.{
  ℕ, zero, suc, String, ◌≡◌, ◌≢◌, ◌⊎◌, ◌<◌, false, Option, none, some, List, [], ◌∷◌, nat_eq, gtb,
  refl, arith, Bool-cases, inl, inr,
}
use k8s_platform.Api.Resource.{GetResourceParams}
use k8s_platform.Api.Version.{VersionDiffResponse, current_version_seq}
use k8s_platform.Pages.ResourceEdit.{
  Compare, no_compare, toggled, toggle_seq, ordered_compare_seqs, run_compare, diff_answered,
  open_compare, open_seqs, close_compare,
}

-- What happens on the page: a version is ticked or not, a row is compared with the current version,
-- the ticked versions are compared, an answer arrives, the drawer is closed.
pub data Event : Type 0 where
  toggle : ℕ → Event
  compare : (a b : ℕ) → Event
  open_ticked : Event
  answer : (left right : ℕ) → Option VersionDiffResponse → Event
  close : Event

module _ (digits : ℕ → String) (o : GetResourceParams) where
  unfoldable pub step : Compare → Event → Compare
  unfolding toggle_seq run_compare open_compare diff_answered
  step c (toggle seq) = toggle_seq c seq
  step c (compare a b) = (run_compare o c a b).0
  step c open_ticked = (open_compare o c).0
  step c (answer left right res) = diff_answered digits c left right res
  step c close = close_compare c

  abbrev pub history : Compare → List Event → Compare
  history c [] = c
  history c (e ∷ es) = history (step c e) es

-- At most two versions, and not the same one twice.
abbrev pub Two : List ℕ → Type 0
Two [] = Unit
Two (a ∷ []) = Unit
Two (a ∷ b ∷ []) = a ≢ b
Two (a ∷ b ∷ c ∷ rest) = ⊥

-- The left version is a stored one, and the right one is newer: the current one is newer than all.
abbrev pub Ordered : Option (ℕ × ℕ) → Type 0
Ordered none = Unit
Ordered (some (left, right)) = (0 < left) × ((right ≡ 0) ⊎ (left < right))

pub record IsSelection (c : Compare) : Type 0 where
  pub two : Two c.checked_seqs
  pub ordered : Ordered c.compare_pair

toggled-Two : (xs : List ℕ) (s : ℕ) → Two xs → Two (toggled xs s)
toggled-Two [] s h = tt
toggled-Two (a ∷ []) s h = ground arith
toggled-Two (a ∷ b ∷ []) s h = ground arith
toggled-Two (a ∷ b ∷ c ∷ rest) s h = absurd h

stored : (n : ℕ) → nat_eq (suc n) current_version_seq ≡ false
stored n = ground arith

ordered_compare_seqs-Ordered :
    (a b : ℕ) → nat_eq a b ≡ false → Ordered (some (ordered_compare_seqs a b))
unfolding ordered_compare_seqs
ordered_compare_seqs-Ordered zero zero h = absurd (ground arith)
ordered_compare_seqs-Ordered zero (suc b) h = (omega arith, inl refl)
ordered_compare_seqs-Ordered (suc a) zero h = rw (stored a) (omega arith, inl refl)
ordered_compare_seqs-Ordered (suc a) (suc b) h = elim (Bool-cases (gtb (suc b) (suc a))) [
  | inl older ↦ rw (stored a, stored b, older) (omega arith, inr (ground arith))
  | inr newer ↦ rw (stored a, stored b, newer) (omega arith, inr (ground arith))
]

module _ (digits : ℕ → String) (o : GetResourceParams) where
  run_compare-IsSelection :
      (c : Compare) (a b : ℕ) → IsSelection c → IsSelection (run_compare o c a b).0
  unfolding run_compare
  run_compare-IsSelection c a b h = elim (Bool-cases (nat_eq a b)) [
    | inl same ↦ rw same h
    | inr differ ↦
        rw differ (record { two = ground arith; ordered = ordered_compare_seqs-Ordered a b differ })
  ]

  open_seqs-IsSelection :
      (c : Compare) (xs : List ℕ) → IsSelection c → IsSelection (open_seqs o c xs).0
  open_seqs-IsSelection c [] h = h
  open_seqs-IsSelection c (zero ∷ []) h = h
  open_seqs-IsSelection c (suc n ∷ []) h = run_compare-IsSelection c (suc n) 0 h
  open_seqs-IsSelection c (zero ∷ b ∷ []) h = run_compare-IsSelection c zero b h
  open_seqs-IsSelection c (suc a ∷ b ∷ []) h = run_compare-IsSelection c (suc a) b h
  open_seqs-IsSelection c (zero ∷ b ∷ d ∷ rest) h = h
  open_seqs-IsSelection c (suc a ∷ b ∷ d ∷ rest) h = h

  step-IsSelection : (c : Compare) (e : Event) → IsSelection c → IsSelection (step digits o c e)
  unfolding step toggle_seq open_compare diff_answered
  step-IsSelection c (toggle seq) h = record {
    two = toggled-Two c.checked_seqs seq h.two;
    ordered = h.ordered;
  }
  step-IsSelection c (compare a b) h = run_compare-IsSelection c a b h
  step-IsSelection c open_ticked h = open_seqs-IsSelection c c.checked_seqs h
  step-IsSelection c (answer left right (some res)) h = record { two = h.two; ordered = h.ordered }
  step-IsSelection c (answer left right none) h = record { two = h.two; ordered = h.ordered }
  step-IsSelection c close h = record { two = h.two; ordered = h.ordered }

  history_from :
      (c : Compare) (es : List Event) → IsSelection c → IsSelection (history digits o c es)
  history_from c [] h = h
  history_from c (e ∷ es) h = history_from (step digits o c e) es (step-IsSelection c e h)

  -- Whatever was clicked and answered since the page was opened, at most two versions are ticked
  -- and no version twice, and where two versions are compared the left one is stored and older.
  pub history-IsSelection : (es : List Event) → IsSelection (history digits o no_compare es)
  history-IsSelection es = history_from no_compare es (record { two = tt; ordered = tt })
