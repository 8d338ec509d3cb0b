-- ===== src/Layout/Filter.antt =====
-- frontend/src/layouts/BasicLayout.tsx: which leaves a filtered menu has.
use k8s_platform.Common.{
  String, ◌≡◌, refl, Bool, true, Option, none, some, List, [], ◌∷◌, ◌++◌, arith, contains,
  contains-append, ap, sym, ◌∙◌, ◌==◌, if◌then◌else◌, eq_iff, All, All-append, Bool-cases, inl, inr,
}
use mathlib.Core.List.{append_assoc}
use k8s_platform.Common.Dict
use k8s_platform.Access.Routes.{route_perms}
use k8s_platform.Layout.{
  MenuRoute, Menu, route, nil, cons, leaf, join, leaf_open, parent_open, parent_entry,
  filter_routes, filter_route,
}

-- The paths of the entries without children, which are the links of a menu.
unfoldable mutual
  pub leaves : Menu → List String
  leaves nil = []
  leaves (cons r rest) = leaves_of r ++ leaves rest

  pub leaves_of : MenuRoute → List String
  leaves_of (route path name nil) = path ∷ []
  leaves_of (route path name (cons c cs)) = leaves (cons c cs)

leaves-join : (a b : Menu) → leaves (join a b) ≡ leaves a ++ leaves b
unfolding leaves
leaves-join nil b = refl
leaves-join (cons r a) b =
    ap (◌++◌ (leaves_of r)) (leaves-join a b)
    ∙ sym (append_assoc (leaves_of r) (leaves a) (leaves b))

-- A path that a link may have for a user with the permissions `has`.
abbrev pub open_at : (List String → Bool) → String → Bool
open_at has p = leaf_open has (Dict.get route_perms p)

module _ (has : List String → Bool) where
  abbrev pub Open : List String → Type 0
  Open = All (λ p. open_at has p ≡ true)

  leaf-Open :
      (path name : String)
      → Open (
          leaves
            (if leaf_open has (Dict.get route_perms path) then cons (leaf path name) nil else nil))
  unfolding leaves
  leaf-Open path name = elim (Bool-cases (leaf_open has (Dict.get route_perms path))) [
    | inl on ↦ rw on (on, tt)
    | inr off ↦ rw off tt
  ]

  parent-leaf : (o : Option (List String)) → parent_open has o ≡ true → leaf_open has o ≡ true
  parent-leaf none h = cc
  parent-leaf (some []) h = cc
  parent-leaf (some (p ∷ ps)) h = h

  parent_entry-Open :
      (path name : String) (m : Menu)
      → Open (leaves m)
      → Open (leaves (parent_entry (parent_open has (Dict.get route_perms path)) path name m))
  unfolding leaves
  parent_entry-Open path name nil h =
      elim (Bool-cases (parent_open has (Dict.get route_perms path))) [
        | inl own ↦ rw own (parent-leaf (Dict.get route_perms path) own, tt)
        | inr bare ↦ rw bare tt
      ]
  parent_entry-Open path name (cons c cs) h = All-append (λ p. open_at has p ≡ true) _ [] h tt

  mutual
    unfolding filter_routes leaves

    filter_routes-Open : (m : Menu) → Open (leaves (filter_routes has m))
    filter_routes-Open nil = tt
    filter_routes-Open (cons r rest) =
        rw (leaves-join (filter_route has r) (filter_routes has rest)) (
          All-append (λ p. open_at has p ≡ true) (leaves (filter_route has r))
            (leaves (filter_routes has rest)) (filter_route-Open r) (filter_routes-Open rest))

    filter_route-Open : (r : MenuRoute) → Open (leaves (filter_route has r))
    filter_route-Open (route path name nil) = leaf-Open path name
    filter_route-Open (route path name (cons c cs)) =
        parent_entry-Open path name (filter_routes has (cons c cs)) (filter_routes-Open (cons c cs))

  parent_entry-keeps :
      (own : Bool) (path name p : String) (m : Menu)
      → contains (leaves m) p ≡ true
      → contains (leaves (parent_entry own path name m)) p ≡ true
  unfolding leaves
  parent_entry-keeps own path name p nil h = cc
  parent_entry-keeps own path name p (cons c cs) h =
      ground (arith, contains-append (leaves (cons c cs)) [] p)

  mutual
    unfolding filter_routes leaves

    filter_routes-keeps :
        (m : Menu) (p : String)
        → open_at has p ≡ true
        → contains (leaves m) p ≡ true
        → contains (leaves (filter_routes has m)) p ≡ true
    filter_routes-keeps nil p o h = cc
    filter_routes-keeps (cons r rest) p o h =
        rw (leaves-join (filter_route has r) (filter_routes has rest)) (
          ground (
            arith,
            contains-append (leaves_of r) (leaves rest) p,
            contains-append (leaves (filter_route has r)) (leaves (filter_routes has rest)) p,
            filter_route-keeps r p o,
            filter_routes-keeps rest p o,
          ))

    filter_route-keeps :
        (r : MenuRoute) (p : String)
        → open_at has p ≡ true
        → contains (leaves_of r) p ≡ true
        → contains (leaves (filter_route has r)) p ≡ true
    filter_route-keeps (route path name nil) p o h =
        let same : path ≡ p = ground (arith, eq_iff path p) in
        let on : leaf_open has (Dict.get route_perms path) ≡ true = rw same o in rw on h
    filter_route-keeps (route path name (cons c cs)) p o h =
        parent_entry-keeps _ path name p (filter_routes has (cons c cs))
          (filter_routes-keeps (cons c cs) p o h)

pub All-contains :
    (P : String → Type 0) (xs : List String) (s : String) → All P xs → contains xs s ≡ true → P s
All-contains P [] s h c = cc
All-contains P (x ∷ xs) s h c = elim (Bool-cases (x == s)) [
  | inl hit ↦ let same : x ≡ s = ground (arith, eq_iff x s) in rw (← same) h.0
  | inr miss ↦ All-contains P xs s h.1 (ground arith)
]

-- The links of a filtered menu that the full menu has are those whose permissions are held.
pub filter_routes-leaves :
    (has : List String → Bool) (m : Menu) (p : String)
    → contains (leaves m) p ≡ true
    → contains (leaves (filter_routes has m)) p ≡ open_at has p
filter_routes-leaves has m p h = elim (Bool-cases (open_at has p)) [
  | inl on ↦ filter_routes-keeps has m p on h ∙ sym on
  | inr off ↦ elim (Bool-cases (contains (leaves (filter_routes has m)) p)) [
    | inl there ↦
        let on : open_at has p ≡ true =
          All-contains (λ s. open_at has s ≡ true) (leaves (filter_routes has m)) p
            (filter_routes-Open has m) there in
        cc
    | inr gone ↦ gone ∙ sym off
  ]
]
