-- ===== src/Access/Permission.antt =====
-- frontend/src/hooks/usePermission.ts: the permission codes of the current user.
pub mod Granting
use Prim.Native.Char.{Char, code}
use Prim.Native.String
use mathlib.Core.Option
use k8s_platform.Common.{
  String, Bool, true, false, ◌&&◌, ◌||◌, Option, none, some, List, [], ◌∷◌, nat_eq, contains, any,
  all, coalesce, if◌then◌else◌,
}
use k8s_platform.Text.{truthy}
use k8s_platform.Slices.User.{CurrentUser}

abbrev pub colon : Char
colon = ":"

-- `code.slice(0, code.indexOf(':'))`, none where there is no colon.
unfoldable pub module_of : String → Option String
module_of String.[] = none
module_of (String.◌∷◌ c s) =
    if nat_eq (code c) (code colon) then some "" else Option.map (String.◌∷◌ c) (module_of s)

abbrev pub perms_of : Option CurrentUser → List String
perms_of none = []
perms_of (some u) = coalesce u.perms []

abbrev pub is_admin : Option CurrentUser → Bool
is_admin none = false
is_admin (some u) = coalesce u.is_platform_admin false

-- `idx > 0`: the module is there and not empty.
unfoldable pub has_wildcard : List String → Option String → Bool
has_wildcard perms none = false
has_wildcard perms (some m) = truthy m && contains perms (String.◌++◌ m ":*")

unfoldable pub has_perm : Option CurrentUser → String → Bool
has_perm user code =
    let perms = perms_of user in
    if is_admin user || (contains perms "*:*" || contains perms code)
    then true
    else has_wildcard perms (module_of code)

unfoldable pub has_any_perm : Option CurrentUser → List String → Bool
has_any_perm user codes = is_admin user || any (λ c. has_perm user c) codes

unfoldable pub has_all_perms : Option CurrentUser → List String → Bool
has_all_perms user codes = is_admin user || all (λ c. has_perm user c) codes
