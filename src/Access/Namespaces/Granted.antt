-- ===== src/Access/Namespaces/Granted.antt =====
-- frontend/src/hooks/useAllowedNamespaces.ts: the loop over the roles, told role by role.
use k8s_platform.Common.{String, Bool, ◌&&◌, ◌||◌, opt_eq}
use k8s_platform.Text.{truthy}
use k8s_platform.Slices.User.{CurrentUserRole}
use k8s_platform.Access.Namespaces.{is_platform, is_cluster, is_namespace}

-- A role for the whole cluster, and a role for one namespace of it.
abbrev pub covers : String → CurrentUserRole → Bool
covers cluster role =
    is_platform role.scope_type || (is_cluster role.scope_type && opt_eq role.cluster_code cluster)

abbrev pub grants : String → String → CurrentUserRole → Bool
grants cluster name role =
    is_namespace role.scope_type
    && (opt_eq role.cluster_code cluster && (truthy name && opt_eq role.namespace name))
