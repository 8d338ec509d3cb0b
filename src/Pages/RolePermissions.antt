-- ===== src/Pages/RolePermissions.antt =====
-- frontend/src/pages/roles/list.tsx: the drawer of the permissions of a role.
use Prim.Native.String
use k8s_platform.Common.{
  ℕ, String, Bool, not, Option, none, some, List, [], ◌∷◌, ◌++◌, map, keep, contains, length,
  coalesce,
}
use k8s_platform.Common.Dict
use k8s_platform.Text.{or_text, starts_with}
use k8s_platform.Api.Rbac.{Role, Permission, RolePermissions}
use k8s_platform.Api.Rbac.Endpoints.{Mutation, set_role_permissions}
use k8s_platform.Pages.{Act, success, send, if_ok}

-- A group of the tree: its key, and the codes of its leaves.
pub record Node : Type 0 where
  pub key : String
  pub children : List String

abbrev pub push : List (String × List String) → String → String → List (String × List String)
push m group code = Dict.put m group (coalesce (Dict.get m group) [] ++ code ∷ [])

abbrev pub grouped : List (String × List String) → List Permission → List (String × List String)
grouped m [] = m
grouped m (p ∷ ps) = grouped (push m (or_text (some p.module_name) "other") p.code) ps

abbrev node_of : String × List String → Node
node_of (group, codes) = record { key = String.◌++◌ "module:" group; children = codes }

unfoldable pub tree_data : List Permission → List Node
tree_data perms = map node_of (grouped [] perms)

abbrev code_of : Permission → String
code_of p = p.code

abbrev pub leaf_codes : List Permission → List String
leaf_codes perms = map code_of perms

-- The ticks that the loaded permissions of the role set: only those that exist.
unfoldable pub loaded : List Permission → Option RolePermissions → List String → List String
loaded perms none checked = checked
loaded perms (some r) checked = keep (contains (leaf_codes perms)) r.perms

-- A tick keeps the leaves and drops the groups.
unfoldable pub handle_check : List String → List String
unfolding starts_with
handle_check keys = keep (λ k. not (starts_with k "module:")) keys

-- `digits` writes a number; the drawer closes where the server took the permissions.
unfoldable pub handle_save : (ℕ → String) → Role → List String → Bool → List (Act Mutation)
handle_save digits r checked ok =
    send (set_role_permissions r.id checked)
    ∷ if_ok ok (success (String.◌++◌ "已保存 " (String.◌++◌ (digits (length checked)) " 个权限点")) ∷ [])

abbrev key_of : Node → String
key_of n = n.key

abbrev pub expanded_keys : List Permission → List String
expanded_keys perms = map key_of (tree_data perms)
