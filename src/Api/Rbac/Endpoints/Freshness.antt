-- ===== src/Api/Rbac/Endpoints/Freshness.antt =====
-- frontend/src/app/services/rbac.ts: which answers a mutation makes stale, by what the server's
-- handlers write and read (backend/internal/api/handler/role.go, user.go, audit.go, and
-- backend/internal/api/middleware/audit.go).
use k8s_platform.Common.{
  ℕ, String, ◌≡◌, refl, ◌==◌, Bool, true, false, not, Option, none, some, List, [], ◌∷◌, ◌++◌,
  arith, any, nat_eq, eq_refl, map,
}
use Prim.Native.String
use k8s_platform.Api.{Tag, refetched, same_tag, same_tag_refl, any-append_last, list_of}
use k8s_platform.Api.Rbac.{Role, User}
use k8s_platform.Api.Rbac.Endpoints
use k8s_platform.Api.Rbac.Endpoints.{
  Query, Mutation, Answer, provides, invalidates, role_tag, user_tag, role_perms_tag,
  user_roles_tag,
}

-- What a handler changes in the database: a new role, a role's row, the users, the permissions of a
-- role, the role bindings of a user or of any, and the audit log, which the middleware writes.
pub data Change : Type 0 where
  role_added role_row user_row logged bindings_of_any : Change
  permissions_of bindings_of : ℕ → Change

-- A new role has no readers but the lists; a password is shown nowhere.
abbrev pub changes : Mutation → List Change
changes (Endpoints.create_role _) = role_added ∷ logged ∷ []
changes (Endpoints.update_role _ _) = role_row ∷ logged ∷ []
changes (Endpoints.delete_role id) = role_row ∷ permissions_of id ∷ bindings_of_any ∷ logged ∷ []
changes (Endpoints.set_role_permissions id _) = permissions_of id ∷ logged ∷ []
changes (Endpoints.create_user _) = user_row ∷ logged ∷ []
changes (Endpoints.update_user _ _) = user_row ∷ logged ∷ []
changes (Endpoints.update_user_status _ _) = user_row ∷ logged ∷ []
changes (Endpoints.reset_password _ _) = logged ∷ []
changes (Endpoints.bind_user_role id _) = bindings_of id ∷ logged ∷ []
changes (Endpoints.unbind_user_role id _) = bindings_of id ∷ logged ∷ []

-- Whether an answer shows a change: the list of roles counts permissions and users, the list of users
-- counts roles, and the roles of a user are told by their names.
abbrev pub shows : Query → Change → Bool
shows (Endpoints.list_roles _) role_added = true
shows (Endpoints.list_roles _) role_row = true
shows (Endpoints.list_roles _) (permissions_of _) = true
shows (Endpoints.list_roles _) (bindings_of _) = true
shows (Endpoints.list_roles _) bindings_of_any = true
shows (Endpoints.get_role_permissions of) (permissions_of id) = nat_eq id of
shows (Endpoints.list_users _) user_row = true
shows (Endpoints.list_users _) (bindings_of _) = true
shows (Endpoints.list_users _) bindings_of_any = true
shows (Endpoints.list_user_roles of) role_row = true
shows (Endpoints.list_user_roles of) (bindings_of id) = nat_eq id of
shows (Endpoints.list_user_roles of) bindings_of_any = true
shows (Endpoints.list_audit_logs _) logged = true
shows _ _ = false

abbrev pub stale : Mutation → Query → Bool
stale m q = any (shows q) (changes m)

-- The stale answers that stay on the page: the audit log after any mutation, the numbers of users in
-- the list of roles after a binding, and after a role is changed or removed what users and
-- permissions show of it.
abbrev pub is_missed : Mutation → Query → Bool
is_missed _ (Endpoints.list_audit_logs _) = true
is_missed (Endpoints.bind_user_role _ _) (Endpoints.list_roles _) = true
is_missed (Endpoints.unbind_user_role _ _) (Endpoints.list_roles _) = true
is_missed (Endpoints.update_role _ _) (Endpoints.list_user_roles _) = true
is_missed (Endpoints.delete_role _) (Endpoints.list_user_roles _) = true
is_missed (Endpoints.delete_role _) (Endpoints.list_users _) = true
is_missed (Endpoints.delete_role _) (Endpoints.get_role_permissions _) = true
is_missed _ _ = false

any-other_type :
    {A : Type 0} (f : A → Tag) (type : String) (t : Tag) (xs : List A)
    → ((x : A) → (f x).of_type ≡ type)
    → (t.of_type == type) ≡ false
    → any (same_tag t) (map f xs ++ list_of type ∷ []) ≡ false
any-other_type f type t [] h e = ground arith
any-other_type f type t (x ∷ xs) h e = ground (arith, h x, any-other_type f type t xs h e)

-- The id of the role or user that a mutation names.
abbrev subject : Mutation → ℕ
subject (Endpoints.update_role id _) = id
subject (Endpoints.delete_role id) = id
subject (Endpoints.set_role_permissions id _) = id
subject (Endpoints.update_user id _) = id
subject (Endpoints.update_user_status id _) = id
subject (Endpoints.bind_user_role id _) = id
subject (Endpoints.unbind_user_role id _) = id
subject _ = 0

module _ (show : ℕ → String) where
  -- Of the queries whose answers a mutation of roles or users makes stale, exactly these are not
  -- fetched again: the audit log; the list of roles after a binding is made or removed; the roles of
  -- a user after a role is changed or removed; the list of users and the role's permissions after a
  -- role is removed. All others are, also where their last call failed.
  pub rbac_refetched :
      (m : Mutation) (q : Query) (result : Option (Answer q))
      → stale m q ≡ true
      → refetched (invalidates show m) (provides show q result) ≡ not (is_missed m q)
  unfolding invalidates provides
  rbac_refetched m (Endpoints.list_permissions p) result h = ground arith
  rbac_refetched m (Endpoints.list_audit_logs p) result h = ground arith
  rbac_refetched m (Endpoints.get_role_permissions of) result h =
      ground (arith, eq_refl (String.◌++◌ "ROLE-" (show of)))
  rbac_refetched m (Endpoints.list_user_roles of) result h =
      ground (arith, eq_refl (String.◌++◌ "ROLES-" (show of)))
  rbac_refetched m (Endpoints.list_users p) none h = ground arith
  rbac_refetched m (Endpoints.list_roles p) none h = ground arith
  rbac_refetched m (Endpoints.list_roles p) (some result) h =
      let role = λ (r : Role). role_tag r.id in
      let last =
        any-append_last (same_tag (list_of "Role")) (map role result.items) (list_of "Role")
          (same_tag_refl (list_of "Role")) in
      let other = λ (t : Tag) (e : (t.of_type == "Role") ≡ false).
        any-other_type role "Role" t result.items (λ r. refl) e in
      ground (
        arith,
        last,
        other (list_of "User") refl,
        other (user_tag (subject m)) refl,
        other (user_roles_tag show (subject m)) refl,
      )
  rbac_refetched m (Endpoints.list_users p) (some result) h =
      let user = λ (u : User). user_tag u.id in
      let last =
        any-append_last (same_tag (list_of "User")) (map user result.items) (list_of "User")
          (same_tag_refl (list_of "User")) in
      let other = λ (t : Tag) (e : (t.of_type == "User") ≡ false).
        any-other_type user "User" t result.items (λ u. refl) e in
      ground (
        arith,
        last,
        other (list_of "Role") refl,
        other (role_tag (subject m)) refl,
        other (role_perms_tag show (subject m)) refl,
      )
