-- ===== src/Pages/Quota.antt =====
-- frontend/src/pages/resources/quota.tsx: the quotas and the limits of a namespace.
use Prim.Native.String
use Prim.Native.Nat.{◌/◌, ◌*◌}
use k8s_platform.Common.{
  ℕ, ◌+◌, String, ◌≤◌, Bool, true, false, not, ◌||◌, Option, none, some, List, [], ◌∷◌, nat_eq, gtb,
  arith, contains, if◌then◌else◌,
}
use k8s_platform.Common.Dict
use k8s_platform.Text.{truthy, or_text}
use k8s_platform.Slices.User.{CurrentUser}
use k8s_platform.Access.Permission.{has_perm}
use k8s_platform.Api.Resource.{Mutation, ListResourcesParams, create_resource, delete_resource}
use k8s_platform.Pages.{Act, error, success, send, reload, if_ok}

abbrev pub quota_labels : List (String × String)
quota_labels =
    ("cpu", "CPU")
    ∷ ("memory", "内存")
    ∷ ("pods", "Pod 数")
    ∷ ("requests.cpu", "请求 CPU")
    ∷ ("requests.memory", "请求内存")
    ∷ ("limits.cpu", "限制 CPU")
    ∷ ("limits.memory", "限制内存")
    ∷ ("services", "Service 数")
    ∷ ("services.nodeports", "NodePort 数")
    ∷ ("services.loadbalancers", "LoadBalancer 数")
    ∷ ("configmaps", "ConfigMap 数")
    ∷ ("secrets", "Secret 数")
    ∷ ("persistentvolumeclaims", "PVC 数")
    ∷ ("replicationcontrollers", "RC 数")
    ∷ ("resourcequotas", "ResourceQuota 数")
    ∷ []

abbrev pub label_of : String → String
label_of key = or_text (Dict.get quota_labels key) key

unfoldable pub format_quantity : Option String → String
format_quantity v = or_text v "-"

-- `ends_in_m` is `endsWith('m')`, `parse_milli` is `parseInt` of the text without its last character,
-- and `parse_float` is `parseFloat` times 1000, a whole number for a quantity with at most three
-- decimals.
module _ (ends_in_m : String → Bool) (parse_milli parse_float : String → ℕ) where
  unfoldable pub parse_quantity : String → ℕ
  parse_quantity v =
      if not (truthy v) then 0 else if ends_in_m v then parse_milli v else parse_float v

  -- `Math.min(100, Math.round(u / h * 100))`; a half is rounded up.
  unfoldable pub calc_percent : (used hard : String) → ℕ
  unfolding parse_quantity
  calc_percent used hard =
      let u = parse_quantity used in
      let h = parse_quantity hard in
      let p = (200 * u + h) / (2 * h) in if nat_eq h 0 then 0 else if gtb p 100 then 100 else p

  abbrev pub bar_color : ℕ → String
  bar_color pct = if gtb pct 89 then "#ff4d4f" else if gtb pct 69 then "#faad14" else "#52c41a"

  pub record Usage : Type 0 where
    pub label : String
    pub percent : ℕ
    pub color : String
    pub text : String

  -- The bars of a quota: one for each key of its limits.
  abbrev pub usage_of : List (String × String) → String × String → Usage
  usage_of used (key, limit) =
      let h = or_text (some limit) "-" in
      let u = or_text (Dict.get used key) "0" in
      record {
        label = label_of key;
        percent = calc_percent u h;
        color = bar_color (calc_percent u h);
        text = String.◌++◌ u (String.◌++◌ " / " h);
      }

  pub calc_percent-le : (used hard : String) → calc_percent used hard ≤ 100
  unfolding calc_percent
  calc_percent-le used hard = ground arith

abbrev list_of : String → String → String → ListResourcesParams
list_of kind cluster_code namespace = record {
  code = cluster_code;
  api_version = "v1";
  kind = kind;
  namespace = some namespace;
  page = some 1;
  size = some 100;
  keyword = none;
}

abbrev pub quota_params : String → String → ListResourcesParams
quota_params = list_of "ResourceQuota"

abbrev pub limit_params : String → String → ListResourcesParams
limit_params = list_of "LimitRange"

abbrev pub skips : Bool → String → String → Bool
skips can_view cluster_code namespace =
    not can_view || (not (truthy cluster_code) || not (truthy namespace))

pub record Drawer : Type 0 where
  pub create_open : Bool
  pub create_yaml : String

pub record Perms : Type 0 where
  pub can_view : Bool
  pub can_create : Bool
  pub can_delete : Bool

unfoldable pub perms_of : Option CurrentUser → Perms
perms_of user = record {
  can_view = has_perm user "resource:get" || has_perm user "resource:list";
  can_create = has_perm user "resource:create";
  can_delete = has_perm user "resource:delete";
}

abbrev pub open_quota : String → Drawer
open_quota namespace = record {
  create_open = true;
  create_yaml = String.◌++◌ "apiVersion: v1\nkind: ResourceQuota\nmetadata:\n  name: quota-" (
      String.◌++◌ namespace (
        String.◌++◌ "\n  namespace: " (
          String.◌++◌ namespace
            "\nspec:\n  hard:\n    requests.cpu: \"4\"\n    requests.memory: 8Gi\n    limits.cpu: \"8\"\n    limits.memory: 16Gi\n    pods: \"20\"\n    services: \"10\"\n")));
}

abbrev pub open_limit : String → Drawer
open_limit namespace = record {
  create_open = true;
  create_yaml = String.◌++◌ "apiVersion: v1\nkind: LimitRange\nmetadata:\n  name: limits-" (
      String.◌++◌ namespace (
        String.◌++◌ "\n  namespace: " (
          String.◌++◌ namespace
            "\nspec:\n  limits:\n    - type: Container\n      default:\n        cpu: 500m\n        memory: 512Mi\n      defaultRequest:\n        cpu: 100m\n        memory: 128Mi\n      max:\n        cpu: \"2\"\n        memory: 2Gi\n      min:\n        cpu: 50m\n        memory: 64Mi\n")));
}

-- The namespace after the effect: the first that the user may see, where the chosen one is not among
-- these.
abbrev pub namespace_effect : List String → String → String
namespace_effect [] namespace = namespace
namespace_effect (n ∷ ns) namespace = if contains (n ∷ ns) namespace then namespace else n

abbrev closed : Bool → Drawer → Drawer
closed ok d = if ok then record d { create_open = false } else d

-- The creation of an object of `kind`, which is `ResourceQuota` or `LimitRange`.
unfoldable pub handle_create :
    (trim : String → String)
    → (kind cluster_code : String) → Bool
    → Drawer
    → Drawer × List (Act Mutation)
handle_create trim kind cluster_code ok d =
    if not (truthy (trim d.create_yaml)) then (d, error "YAML 不能为空" ∷ []) else (
      closed ok d,
      send (
            create_resource (record {
              code = cluster_code;
              api_version = "v1";
              kind = kind;
              yaml = d.create_yaml;
            }))
          ∷ if_ok ok (success "创建成功" ∷ reload ∷ []),
    )

unfoldable pub handle_delete :
    (can_delete : Bool)
    → (kind cluster_code : String) → (namespace name : Option String) → Bool
    → List (Act Mutation)
handle_delete can_delete kind cluster_code namespace name ok =
    if can_delete
    then send (
        delete_resource (record {
          code = cluster_code;
          api_version = "v1";
          kind = kind;
          namespace = namespace;
          name = or_text name "";
        }))
      ∷ if_ok ok (success "删除成功" ∷ reload ∷ [])
    else []
