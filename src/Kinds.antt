-- ===== src/Kinds.antt =====
-- frontend/src/constants/k8sKinds.ts: the kinds of resources that the console offers.
use Prim.Native.String
use k8s_platform.Common.{String, Bool, true, false, List, [], ◌∷◌, ◌++◌}
use k8s_platform.Common.Dict

pub data ResourceTab : Type 0 where
  workload network config storage : ResourceTab

-- `clusterScoped` is false where it is missing.
pub record KindItem : Type 0 where
  pub label : String
  pub value : String
  pub api_version : String
  pub cluster_scoped : Bool

pub record KindGroup : Type 0 where
  pub key : ResourceTab
  pub label : String
  pub kinds : List KindItem

abbrev pub namespaced : String → String → KindItem
namespaced kind api_version = record {
  label = kind;
  value = kind;
  api_version = api_version;
  cluster_scoped = false;
}

abbrev pub cluster_wide : String → String → KindItem
cluster_wide kind api_version = record {
  label = kind;
  value = kind;
  api_version = api_version;
  cluster_scoped = true;
}

abbrev pub kind_groups : List KindGroup
kind_groups =
    record {
      key = workload;
      label = "工作负载";
      kinds =
          namespaced "Deployment" "apps/v1"
          ∷ namespaced "StatefulSet" "apps/v1"
          ∷ namespaced "DaemonSet" "apps/v1"
          ∷ namespaced "Job" "batch/v1"
          ∷ namespaced "CronJob" "batch/v1"
          ∷ namespaced "Pod" "v1"
          ∷ [];
    }
    ∷ record {
      key = network;
      label = "网络";
      kinds =
          namespaced "Service" "v1"
          ∷ namespaced "Ingress" "networking.k8s.io/v1"
          ∷ namespaced "NetworkPolicy" "networking.k8s.io/v1"
          ∷ namespaced "Endpoints" "v1"
          ∷ [];
    }
    ∷ record {
      key = config;
      label = "配置";
      kinds =
          namespaced "ConfigMap" "v1"
          ∷ namespaced "Secret" "v1"
          ∷ cluster_wide "Namespace" "v1"
          ∷ namespaced "ServiceAccount" "v1"
          ∷ namespaced "ResourceQuota" "v1"
          ∷ namespaced "LimitRange" "v1"
          ∷ [];
    }
    ∷ record {
      key = storage;
      label = "存储";
      kinds =
          cluster_wide "PersistentVolume" "v1"
          ∷ namespaced "PersistentVolumeClaim" "v1"
          ∷ cluster_wide "StorageClass" "storage.k8s.io/v1"
          ∷ cluster_wide "VolumeAttachment" "storage.k8s.io/v1"
          ∷ [];
    }
    ∷ []

-- The value of an entry of `ALL_KINDS_MAP`.
pub record KindInfo : Type 0 where
  pub api_version : String
  pub cluster_scoped : Bool

abbrev pub info_of : KindItem → KindInfo
info_of k = record { api_version = k.api_version; cluster_scoped = k.cluster_scoped }

abbrev pub add_kinds : List (String × KindInfo) → List KindItem → List (String × KindInfo)
add_kinds m [] = m
add_kinds m (k ∷ ks) = add_kinds (Dict.put m k.value (info_of k)) ks

abbrev pub add_groups : List (String × KindInfo) → List KindGroup → List (String × KindInfo)
add_groups m [] = m
add_groups m (g ∷ gs) = add_groups (add_kinds m g.kinds) gs

unfoldable pub all_kinds_map : List (String × KindInfo)
unfolding Dict.put
all_kinds_map = add_groups [] kind_groups

abbrev pub options_of : KindGroup → List KindItem → List KindItem
options_of g [] = []
options_of g (k ∷ ks) =
    record k { label = String.◌++◌ g.label (String.◌++◌ " / " k.label) } ∷ options_of g ks

abbrev pub flat_options : List KindGroup → List KindItem
flat_options [] = []
flat_options (g ∷ gs) = options_of g g.kinds ++ flat_options gs

unfoldable pub all_kind_options : List KindItem
all_kind_options = flat_options kind_groups
