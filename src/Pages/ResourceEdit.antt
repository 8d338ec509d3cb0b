-- ===== src/Pages/ResourceEdit.antt =====
-- frontend/src/pages/resources/[code]/[apiVersion]/[kind]/[namespace]/[name]/edit.tsx: the page of
-- one resource, with its YAML and its versions.
pub mod Selection
pub mod Addressed
pub mod Opening
mod Tests
use Prim.Native.String
use k8s_platform.Common.{
  ℕ, zero, suc, String, Bool, true, false, not, ◌&&◌, ◌||◌, ◌==◌, Option, none, some, List, [], ◌∷◌,
  ◌++◌, keep, any, nat_eq, gtb, if◌then◌else◌,
}
use k8s_platform.Text.{truthy, or_text}
use k8s_platform.Json.{Json}
use k8s_platform.Yaml.{is_object, resource_to_yaml, try_parse_yaml}
use k8s_platform.Slices.User.{CurrentUser}
use k8s_platform.Access.Permission.{has_perm}
use k8s_platform.Api.Resource.{GetResourceParams}
use k8s_platform.Api.Version.{
  VersionDiffResponse, GetVersionDiffParams, RollbackVersionParams, RollbackResponse,
  current_version_seq, version_seq_label,
}
use k8s_platform.Api.Resource
use k8s_platform.Pages.{Act, error, warning, success, send, go, reload, if_ok}

-- What the router reads from the path.
pub record EditPageParams : Type 0 where
  pub code : Option String
  pub api_version : Option String
  pub kind : Option String
  pub namespace : Option String
  pub name : Option String

-- The object that the page is about; `decode` is `decodeURIComponent`.
unfoldable pub object_of : (String → String) → EditPageParams → GetResourceParams
object_of decode params =
    let namespace_raw = decode (or_text params.namespace "_") in
    record {
      code = decode (or_text params.code "");
      api_version = decode (or_text params.api_version "apps%2Fv1");
      kind = decode (or_text params.kind "");
      namespace = some (if namespace_raw == "_" then "" else namespace_raw);
      name = decode (or_text params.name "");
    }

-- Whether neither the resource nor its versions are asked for.
abbrev pub skips : GetResourceParams → Bool
skips o = not (truthy o.code) || (not (truthy o.kind) || not (truthy o.name))

pub record Perms : Type 0 where
  pub can_update : Bool
  pub can_delete : Bool
  pub can_rollback : Bool

unfoldable pub perms_of : Option CurrentUser → Perms
perms_of user = record {
  can_update = has_perm user "resource:update";
  can_delete = has_perm user "resource:delete";
  can_rollback = has_perm user "version:rollback" || has_perm user "resource:update";
}

-- A request of the page.
pub data Call : Type 0 where
  resource : Resource.Mutation → Call
  diff : GetVersionDiffParams → Call
  rollback : RollbackVersionParams → Call

-- The cells of the editor.
pub record Editor : Type 0 where
  pub yaml_value : String
  pub original_yaml : String

abbrev pub is_dirty : Editor → Bool
is_dirty e = not (e.yaml_value == e.original_yaml)

module _ (dump : Json → Option String) (pretty show : Json → String) where
  -- The effect of a resource that has arrived.
  unfoldable pub loaded : Option Json → Editor → Editor
  loaded none e = e
  loaded (some v) e =
      let y = resource_to_yaml dump pretty show (some v) in
      record { yaml_value = y; original_yaml = y }

  module _ (load : String → Option Json) (trim : String → String) where
    abbrev yaml_to_send : String → String
    yaml_to_send yaml =
        let parsed = try_parse_yaml load yaml in
        if is_object parsed then resource_to_yaml dump pretty show (some parsed) else yaml

    unfoldable pub handle_save : Perms → GetResourceParams → Bool → Editor → List (Act Call)
    handle_save perms o ok e =
        if not perms.can_update
        then error "无编辑权限" ∷ []
        else if not (truthy (trim e.yaml_value))
        then error "YAML 内容不能为空" ∷ []
        else send (
            resource (
              Resource.update_resource (record {
                code = o.code;
                api_version = o.api_version;
                kind = o.kind;
                namespace = o.namespace;
                name = o.name;
                yaml = yaml_to_send e.yaml_value;
              })))
          ∷ if_ok ok (success "保存成功" ∷ reload ∷ [])

unfoldable pub handle_delete :
    (String → String) → Perms → GetResourceParams → Bool → List (Act Call)
handle_delete encode perms o ok =
    if perms.can_delete
    then send (resource (Resource.delete_resource o))
      ∷ if_ok ok
          (success "删除成功" ∷ go (String.◌++◌ "/resources/list?cluster_code=" (encode o.code)) ∷ [])
    else error "无删除权限" ∷ []

-- The cells of the comparison of versions.
pub record Compare : Type 0 where
  pub drawer_open : Bool
  pub checked_seqs : List ℕ
  pub diff_left : String
  pub diff_right : String
  pub diff_loaded : Bool
  pub compare_pair : Option (ℕ × ℕ)

abbrev pub no_compare : Compare
no_compare = record {
  drawer_open = false;
  checked_seqs = [];
  diff_left = "";
  diff_right = "";
  diff_loaded = false;
  compare_pair = none;
}

-- `xs.length > 2 ? xs.slice(-2) : xs`
abbrev pub last_two : List ℕ → List ℕ
last_two [] = []
last_two (a ∷ []) = a ∷ []
last_two (a ∷ b ∷ []) = a ∷ b ∷ []
last_two (a ∷ b ∷ c ∷ rest) = last_two (b ∷ c ∷ rest)

abbrev pub includes_seq : List ℕ → ℕ → Bool
includes_seq xs s = any (λ x. nat_eq x s) xs

abbrev pub toggled : List ℕ → ℕ → List ℕ
toggled prev seq =
    if includes_seq prev seq
    then keep (λ x. not (nat_eq x seq)) prev
    else last_two (prev ++ seq ∷ [])

unfoldable pub toggle_seq : Compare → ℕ → Compare
toggle_seq c seq = record c { checked_seqs = toggled c.checked_seqs seq; diff_loaded = false }

unfoldable pub ordered_compare_seqs : ℕ → ℕ → ℕ × ℕ
ordered_compare_seqs a b =
    if nat_eq a current_version_seq || nat_eq b current_version_seq
    then (if nat_eq a current_version_seq then b else a, current_version_seq)
    else if gtb b a
    then (a, b)
    else (b, a)

abbrev pub diff_params : GetResourceParams → ℕ × ℕ → GetVersionDiffParams
diff_params o (left, right) = record {
  code = o.code;
  api_version = o.api_version;
  kind = o.kind;
  namespace = o.namespace;
  name = o.name;
  seq_a = left;
  seq_b = right;
}

unfoldable pub run_compare : GetResourceParams → Compare → ℕ → ℕ → Compare × List (Act Call)
unfolding ordered_compare_seqs
run_compare o c a b = if nat_eq a b then (c, warning "请选择两个不同的版本进行对比" ∷ []) else (
  record {
    drawer_open = true;
    checked_seqs = a ∷ b ∷ [];
    diff_left = "";
    diff_right = "";
    diff_loaded = false;
    compare_pair = some (ordered_compare_seqs a b);
  },
  send (diff (diff_params o (ordered_compare_seqs a b))) ∷ [],
)

-- The answer to the comparison of `left` and `right`, `none` where it failed.
unfoldable pub diff_answered :
    (ℕ → String) → Compare → (left right : ℕ) → Option VersionDiffResponse → Compare
diff_answered digits c left right (some res) = record c {
  diff_left = or_text res.yaml_a "";
  diff_right = or_text res.yaml_b "";
  diff_loaded = true;
}
diff_answered digits c left right none =
    let unreadable =
      λ (seq : ℕ). String.◌++◌ "# 无法加载 " (String.◌++◌ (version_seq_label digits seq) " 的 YAML") in
    record c { diff_left = unreadable left; diff_right = unreadable right; diff_loaded = true }

abbrev choose_version : String
choose_version = "请选择一个历史版本与当前对比，或勾选两个版本互相对比"

abbrev pub open_seqs : GetResourceParams → Compare → List ℕ → Compare × List (Act Call)
open_seqs o c (zero ∷ []) = (c, warning choose_version ∷ [])
open_seqs o c (suc n ∷ []) = run_compare o c (suc n) current_version_seq
open_seqs o c (a ∷ b ∷ []) = run_compare o c a b
open_seqs o c _ = (c, warning choose_version ∷ [])

unfoldable pub open_compare : GetResourceParams → Compare → Compare × List (Act Call)
open_compare o c = open_seqs o c c.checked_seqs

-- Whether the button that opens the comparison is enabled.
abbrev pub can_open_compare : List ℕ → Bool
can_open_compare (zero ∷ []) = false
can_open_compare (suc n ∷ []) = true
can_open_compare (a ∷ b ∷ []) = true
can_open_compare _ = false

abbrev pub close_compare : Compare → Compare
close_compare c = record c { drawer_open = false }

-- The rollback, once the user has confirmed it; `none` is a refused one.
abbrev rolled_back : (ℕ → String) → Option RollbackResponse → List (Act Call)
rolled_back digits none = []
rolled_back digits (some res) =
    success (if res.rolled_back then String.◌++◌ "已回滚到版本 #" (digits res.seq) else "回滚成功")
    ∷ reload
    ∷ []

unfoldable pub handle_rollback :
    (ℕ → String) → Perms → GetResourceParams → ℕ → Option RollbackResponse → List (Act Call)
handle_rollback digits perms o seq answer =
    if perms.can_rollback
    then send (
        rollback (record {
          code = o.code;
          api_version = o.api_version;
          kind = o.kind;
          namespace = o.namespace;
          name = o.name;
          seq = seq;
        }))
      ∷ rolled_back digits answer
    else error "无回滚权限" ∷ []
