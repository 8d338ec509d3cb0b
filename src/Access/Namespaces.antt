-- ===== src/Access/Namespaces.antt =====
-- frontend/src/hooks/useAllowedNamespaces.ts: the namespaces of a cluster that a user may open.
pub mod Granted
use k8s_platform.Common.{
  ℕ, String, ◌≡◌, refl, Bool, true, false, not, ◌&&◌, ◌||◌, ◌==◌, Option, none, some, List, [], ◌∷◌,
  ◌++◌, arith, any, opt_eq, coalesce, contains, if◌then◌else◌, contains-append, eq_iff, ◌⊎◌, inl,
  inr, Bool-cases, ◌∙◌, eq_refl,
}
use k8s_platform.Text.{truthy, opt_truthy, or_text}
use k8s_platform.Slices.User
use k8s_platform.Slices.User.{CurrentUser, CurrentUserRole, ScopeType}
use k8s_platform.Access.Permission.{is_admin}

pub record Scope : Type 0 where
  pub is_full_cluster : Bool
  pub from_roles : List String

abbrev pub is_platform : ScopeType → Bool
is_platform User.platform = true
is_platform _ = false

abbrev pub is_cluster : ScopeType → Bool
is_cluster User.cluster = true
is_cluster _ = false

abbrev pub is_namespace : ScopeType → Bool
is_namespace User.namespace = true
is_namespace _ = false

-- `fromRoles.add(n)`
abbrev pub add : List String → String → List String
add names n = if contains names n then names else names ++ n ∷ []

-- The loop over the roles, up to its `break`: the flag and the set.
unfoldable pub scan : String → List String → List CurrentUserRole → Scope
scan cluster names [] = record { is_full_cluster = false; from_roles = names }
scan cluster names (role ∷ rest) =
    let later = scan cluster (add names (or_text role.namespace "")) rest in
    let skipped = scan cluster names rest in
    if is_platform role.scope_type
    then record { is_full_cluster = true; from_roles = names }
    else if is_cluster role.scope_type && opt_eq role.cluster_code cluster
    then record { is_full_cluster = true; from_roles = names }
    else if is_namespace role.scope_type
        && (opt_eq role.cluster_code cluster && opt_truthy role.namespace)
    then later
    else skipped

abbrev pub roles_of : Option CurrentUser → List CurrentUserRole
roles_of none = []
roles_of (some u) = coalesce u.roles []

module _ (sort : List String → List String) where
  -- `sort` is `Array.prototype.sort` on texts.
  unfoldable pub scope_of : Option String → Option CurrentUser → Scope
  unfolding scan
  scope_of cluster user =
      if not (opt_truthy cluster)
      then record { is_full_cluster = false; from_roles = [] }
      else if is_admin user
      then record { is_full_cluster = true; from_roles = [] }
      else let scope = scan (or_text cluster "") [] (roles_of user) in
        record scope { from_roles = sort scope.from_roles }

-- What the hook returns, from the answer of the cluster's own list (`listed` is its `data`).
pub record AllowedNamespaces : Type 0 where
  pub namespaces : List String
  pub is_full_cluster : Bool
  pub is_loading : Bool

-- `skip` of the list's query.
abbrev pub skips : Option String → Scope → Bool
skips cluster scope = not (opt_truthy cluster) || not scope.is_full_cluster

module _ (sort : List String → List String) where
  unfoldable pub allowed_namespaces :
      Option String → Option CurrentUser → Option (List String) → Bool → AllowedNamespaces
  unfolding scope_of
  allowed_namespaces cluster user listed is_fetching =
      let scope = scope_of sort cluster user in
      if scope.is_full_cluster
      then record {
        namespaces = coalesce listed [];
        is_full_cluster = true;
        is_loading = is_fetching;
      }
      else record { namespaces = scope.from_roles; is_full_cluster = false; is_loading = false }
