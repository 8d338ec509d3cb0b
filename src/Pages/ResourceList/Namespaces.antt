-- ===== src/Pages/ResourceList/Namespaces.antt =====
-- frontend/src/pages/resources/list.tsx: the namespace that the effects of the page choose.
use k8s_platform.Common.{
  String, ◌≡◌, refl, Bool, true, false, ◌==◌, List, [], ◌∷◌, contains, arith, eq_iff, eq_refl,
  Bool-cases, inl, inr,
}
use k8s_platform.Pages.ResourceList.{cluster_scoped_ns, after_effects}

-- The namespace fits the kind and the user: the mark of the kinds without one, any text but the mark
-- for a user with the whole cluster, one of the user's for any other.
abbrev pub Fits : (is_cluster_scoped is_full_cluster : Bool) → List String → String → Type 0
Fits true full names ns = ns ≡ cluster_scoped_ns
Fits false true names ns = (ns == cluster_scoped_ns) ≡ false
Fits false false [] ns = (ns == cluster_scoped_ns) ≡ false
Fits false false (n ∷ names) ns = contains (n ∷ names) ns ≡ true

wide_settles :
    (full : Bool) (names : List String) (ns : String)
    → Fits true full names (after_effects true full names ns)
      × (after_effects true full names (after_effects true full names ns)
          ≡ after_effects true full names ns)
unfolding after_effects
wide_settles full [] ns = ground (arith, eq_iff ns "__cluster__", eq_refl "__cluster__")
wide_settles full (n ∷ names) ns = ground (arith, eq_iff ns "__cluster__", eq_refl "__cluster__")

full_settles :
    (names : List String) (ns : String)
    → Fits false true names (after_effects false true names ns)
      × (after_effects false true names (after_effects false true names ns)
          ≡ after_effects false true names ns)
unfolding after_effects
full_settles [] ns = elim (Bool-cases (ns == cluster_scoped_ns)) [
  | inl marked ↦ rw marked (refl, refl)
  | inr other ↦ rw (other, other) (refl, refl)
]
full_settles (n ∷ names) ns = elim (Bool-cases (ns == cluster_scoped_ns)) [
  | inl marked ↦ rw marked (refl, refl)
  | inr other ↦ rw (other, other) (refl, refl)
]

bare_settles :
    (ns : String)
    → Fits false false [] (after_effects false false [] ns)
      × (after_effects false false [] (after_effects false false [] ns)
          ≡ after_effects false false [] ns)
unfolding after_effects
bare_settles ns = elim (Bool-cases (ns == cluster_scoped_ns)) [
  | inl marked ↦ rw marked (refl, refl)
  | inr other ↦ rw (other, other) (refl, refl)
]

-- A namespace of the user is left alone; the first one takes the place of any other.
member_settles :
    (n : String) (names : List String) (ns : String)
    → contains (n ∷ names) cluster_scoped_ns ≡ false
    → Fits false false (n ∷ names) (after_effects false false (n ∷ names) ns)
      × (after_effects false false (n ∷ names) (after_effects false false (n ∷ names) ns)
          ≡ after_effects false false (n ∷ names) ns)
unfolding after_effects
member_settles n names ns h =
    ground (arith, eq_iff ns "__cluster__", eq_iff n "__cluster__", eq_refl n, eq_iff n ns)

-- Whatever namespace the URL named, one round of the effects chooses one that fits, and the next
-- round changes nothing, where no namespace of the user is called like the mark.
pub after_effects-Fits :
    (scoped full : Bool) (names : List String) (ns : String)
    → contains names cluster_scoped_ns ≡ false
    → Fits scoped full names (after_effects scoped full names ns)
      × (after_effects scoped full names (after_effects scoped full names ns)
          ≡ after_effects scoped full names ns)
unfolding after_effects
after_effects-Fits true full names ns h = wide_settles full names ns
after_effects-Fits false true names ns h = full_settles names ns
after_effects-Fits false false [] ns h = bare_settles ns
after_effects-Fits false false (n ∷ names) ns h = member_settles n names ns h
