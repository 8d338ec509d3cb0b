-- ===== src/Access/Routes/Allowed.antt =====
-- frontend/src/app/router.tsx: who may see which page.
use Prim.Native.String
use k8s_platform.Common.{
  String, ◌≡◌, refl, Bool, true, false, not, ◌&&◌, Option, none, some, List, [], ◌∷◌, arith, any,
  find, All, Option-cases, Bool-cases, inl, inr, ◌∙◌,
}
use k8s_platform.Common.Dict
use k8s_platform.Text.{opt_truthy}
use k8s_platform.Slices.User
use k8s_platform.Slices.User.{UserState, CurrentUser, ProfileStatus}
use k8s_platform.Access.Permission.{has_perm, has_any_perm, is_admin}
use k8s_platform.Access.Routes
use k8s_platform.Access.Routes.{
  Page, View, shown, guarded, guard_with, require_auth, require_perm, decide_perm,
  redirect_if_authed, route_perms,
}
use k8s_platform.Access.Routes.Table
use k8s_platform.Access.Routes.Table.{Element, Route, routes, render, visit}

-- The permissions of which a page wants one, page by page.
abbrev pub needed : Page → List String
needed Routes.login = []
needed Routes.dashboard = []
needed Routes.cluster_list = "cluster:list" ∷ []
needed Routes.cluster_import = "cluster:create" ∷ []
needed Routes.resource_list = "resource:list" ∷ []
needed Routes.resource_edit = "resource:get" ∷ []
needed Routes.quota_management = "resource:list" ∷ []
needed Routes.backup_list = "backup:list" ∷ []
needed Routes.backup_create = "backup:create" ∷ []
needed Routes.pod_logs = "resource:get" ∷ "resource:list" ∷ []
needed Routes.audit_log_list = "audit:list" ∷ []
needed Routes.user_list = "user:manage" ∷ []
needed Routes.role_list = "role:manage" ∷ []
needed Routes.helm_list = "helm:view" ∷ []
needed Routes.helm_repos = "helm:view" ∷ []
needed Routes.cluster_compare = "resource:get" ∷ []

-- Who may see a page: the login page without a session, every other page with one, and a page that
-- wants permissions with one of them.
abbrev pub allowed : UserState → Page → Bool
allowed state Routes.login = not (opt_truthy state.token)
allowed state Routes.dashboard = opt_truthy state.token
allowed state p = opt_truthy state.token && any (λ c. has_perm state.current_user c) (needed p)

abbrev is_empty : List String → Bool
is_empty [] = true
is_empty (x ∷ xs) = false

holds_perm : UserState → Page → Bool
holds_perm state p = opt_truthy state.token && any (λ c. has_perm state.current_user c) (needed p)

-- An element that shows its page only to those who may see it.
abbrev Guarded : Element → Type 0
Guarded (Table.authed_away p) = p ≡ Routes.login
Guarded (Table.plain p) = p ≡ Routes.dashboard
Guarded (Table.guarded_at path p) =
    (Dict.get route_perms path ≡ some (needed p))
    × ((state : UserState) → allowed state p ≡ holds_perm state p)
    × (is_empty (needed p) ≡ false)
Guarded _ = Unit

any_admin :
    (user : Option CurrentUser) (perms : List String)
    → is_admin user ≡ true
    → is_empty perms ≡ false
    → any (λ c. has_perm user c) perms ≡ true
unfolding has_perm
any_admin user [] a e = cc
any_admin user (c ∷ cs) a e = ground arith

decide_perm-shown :
    (status : ProfileStatus) (user : Option CurrentUser) (perms : List String) (p q : Page)
    → is_empty perms ≡ false
    → decide_perm status user perms (shown p) ≡ shown q
    → (p ≡ q) × (any (λ c. has_perm user c) perms ≡ true)
unfolding decide_perm has_any_perm
decide_perm-shown User.failed none perms p q n e = cc
decide_perm-shown User.idle none perms p q n e = cc
decide_perm-shown User.loading none perms p q n e = cc
decide_perm-shown User.ready none perms p q n e = cc
decide_perm-shown User.failed (some user) perms p q n e =
    ground (arith, any_admin (some user) perms)
decide_perm-shown User.idle (some user) perms p q n e = ground (arith, any_admin (some user) perms)
decide_perm-shown User.loading (some user) perms p q n e =
    ground (arith, any_admin (some user) perms)
decide_perm-shown User.ready (some user) perms p q n e = ground (arith, any_admin (some user) perms)

routes-Guarded : All (λ (r : Route). Guarded r.element) routes
unfolding holds_perm Dict.get
routes-Guarded = (
  refl,
  (
    tt,
    (
      refl,
      (
        tt,
        (
          (refl, λ state. refl, refl),
          (
            (refl, λ state. refl, refl),
            (
              tt,
              (
                (refl, λ state. refl, refl),
                (
                  (refl, λ state. refl, refl),
                  (
                    tt,
                    (
                      tt,
                      (
                        (refl, λ state. refl, refl),
                        (
                          tt,
                          (
                            (refl, λ state. refl, refl),
                            (
                              (refl, λ state. refl, refl),
                              (
                                tt,
                                (
                                  (refl, λ state. refl, refl),
                                  (
                                    tt,
                                    (
                                      (refl, λ state. refl, refl),
                                      (
                                        tt,
                                        (
                                          (refl, λ state. refl, refl),
                                          (
                                            (refl, λ state. refl, refl),
                                            (
                                              tt,
                                              (
                                                (refl, λ state. refl, refl),
                                                (
                                                  tt,
                                                  (
                                                    (refl, λ state. refl, refl),
                                                    ((refl, λ state. refl, refl), (tt, tt)),
                                                  ),
                                                ),
                                              ),
                                            ),
                                          ),
                                        ),
                                      ),
                                    ),
                                  ),
                                ),
                              ),
                            ),
                          ),
                        ),
                      ),
                    ),
                  ),
                ),
              ),
            ),
          ),
        ),
      ),
    ),
  ),
)

find-All :
    (P : Route → Type 0) (chosen : Route → Bool) (xs : List Route) (r : Route)
    → All P xs
    → find chosen xs ≡ some r
    → P r
find-All P chosen [] r h e = cc
find-All P chosen (x ∷ xs) r h e = elim (Bool-cases (chosen x)) [
  | inl hit ↦ let same : some x ≡ some r = rw hit at e in let same' : x ≡ r = cc in rw (← same') h.0
  | inr miss ↦ find-All P chosen xs r h.1 (rw miss at e)
]

module _ (encode : String → String) (state : UserState) (location : String) where
  render-allowed :
      (element : Element) (p : Page)
      → Guarded element
      → render encode state location element ≡ shown p
      → allowed state p ≡ true
  unfolding render redirect_if_authed require_auth guarded guard_with require_perm holds_perm
  render-allowed (Table.authed_away q) p g e = elim (Bool-cases (opt_truthy state.token)) [
    | inl _ ↦ ground arith
    | inr out ↦ let same : p ≡ Routes.login = ground arith in rw same (ground arith)
  ]
  render-allowed (Table.go_to target) p g e = cc
  render-allowed (Table.inner_go_to target) p g e = elim (Bool-cases (opt_truthy state.token)) [
    | inl _ ↦ ground arith
    | inr _ ↦ ground arith
  ]
  render-allowed (Table.plain q) p g e = elim (Bool-cases (opt_truthy state.token)) [
    | inl within ↦ let same : p ≡ Routes.dashboard = ground arith in rw same within
    | inr _ ↦ ground arith
  ]
  render-allowed (Table.guarded_at path q) p (found, as_needed, full) e =
      elim (Bool-cases (opt_truthy state.token)) [
        | inl within ↦
            let opened : decide_perm state.profile_status state.current_user (needed q) (shown q)
                ≡ shown p =
              rw (within, found) at e in
            let (same, held) =
              decide_perm-shown state.profile_status state.current_user (needed q) q p full
                opened in
            let holds : holds_perm state q ≡ true = rw within held in
            let ok : allowed state q ≡ true = as_needed state ∙ holds in rw (← same) ok
        | inr out ↦
            let away = String.◌++◌ "/login?redirect=" (encode location) in
            let bad : Routes.navigate away ≡ shown p = rw out at e in cc
      ]

-- Whatever route the router chooses for a location: the login page is shown only without a session,
-- every other page only with one, and a page that wants permissions only to a user who has one of
-- those that the page wants.
pub visit-allowed :
    (chosen : Route → Bool) (encode : String → String) (state : UserState) (location : String)
    (p : Page)
    → visit chosen encode state location ≡ some (shown p)
    → allowed state p ≡ true
unfolding visit
visit-allowed chosen encode state location p e = elim (Option-cases (find chosen routes)) [
  | inl nowhere ↦
      let bad : ◌≡◌ {A = Option View} none (some (shown p)) = rw (visit, nowhere) at e in cc
  | inr (r, found) ↦
      let at_r : some (render encode state location r.element) ≡ some (shown p) =
        rw (visit, found) at e in
      render-allowed encode state location r.element p
        (find-All (λ (r : Route). Guarded r.element) chosen routes r routes-Guarded found) cc
]
