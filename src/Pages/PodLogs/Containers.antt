-- ===== src/Pages/PodLogs/Containers.antt =====
-- frontend/src/pages/pods/logs.tsx: the containers that are offered, and the one that the list of
-- resources opens.
use k8s_platform.Common.{
  String, ◌≡◌, refl, ap, ◌∙◌, true, not, ◌&&◌, Option, none, some, List, [], ◌∷◌, ◌++◌, contains,
  Distinct, append-Distinct, All, All-append, coalesce, arith, Bool-cases, inl, inr,
}
use k8s_platform.Common.Dict
use k8s_platform.Text.{truthy}
use k8s_platform.Json.{Json}
use k8s_platform.Api.Resource.{KubernetesResource}
use k8s_platform.Pages.ResourceList.{array_of, name_of, first_named, first_pod_container}
use k8s_platform.Pages.PodLogs.{push_names, extract_containers}

abbrev Filled : String → Type 0
Filled s = truthy s ≡ true

abbrev pub head : List String → Option String
head [] = none
head (x ∷ xs) = some x

-- Pushing keeps the names apart and filled, and the first of them first.
push_names-Distinct :
    (names : List String) (cs : List Json) → Distinct names → Distinct (push_names names cs)
push_names-Distinct names [] h = h
push_names-Distinct names (c ∷ cs) h =
    elim (Bool-cases (truthy (name_of c) && not (contains names (name_of c)))) [
      | inl new ↦ rw new (
          push_names-Distinct (names ++ name_of c ∷ []) cs
            (append-Distinct names (name_of c) (ground arith) h))
      | inr old ↦ rw old (push_names-Distinct names cs h)
    ]

push_names-Filled :
    (names : List String) (cs : List Json) → All Filled names → All Filled (push_names names cs)
push_names-Filled names [] h = h
push_names-Filled names (c ∷ cs) h =
    elim (Bool-cases (truthy (name_of c) && not (contains names (name_of c)))) [
      | inl new ↦ rw new (
          push_names-Filled (names ++ name_of c ∷ []) cs
            (All-append Filled names (name_of c ∷ []) h (ground arith, tt)))
      | inr old ↦ rw old (push_names-Filled names cs h)
    ]

push_names-head_kept :
    (n : String) (names : List String) (cs : List Json) → head (push_names (n ∷ names) cs) ≡ some n
push_names-head_kept n names [] = refl
push_names-head_kept n names (c ∷ cs) =
    elim (Bool-cases (truthy (name_of c) && not (contains (n ∷ names) (name_of c)))) [
      | inl new ↦ rw new (push_names-head_kept n (names ++ name_of c ∷ []) cs)
      | inr old ↦ rw old (push_names-head_kept n names cs)
    ]

push_names-append :
    (cs : List Json) (names : List String) (ds : List Json)
    → push_names (push_names names cs) ds ≡ push_names names (cs ++ ds)
push_names-append [] names ds = refl
push_names-append (c ∷ cs) names ds = push_names-append cs _ ds

push_names-head : (cs : List Json) → head (push_names [] cs) ≡ first_named cs
push_names-head [] = refl
push_names-head (c ∷ cs) = elim (Bool-cases (truthy (name_of c))) [
  | inl full ↦ rw full (push_names-head_kept (name_of c) [] cs)
  | inr empty ↦ rw empty (push_names-head cs)
]

-- The containers that the page of the logs offers are named and named apart, and the first of them
-- is the one whose logs the list of resources opens; there is none in the one where there is none in
-- the other.
pub extract_containers_lem :
    (pod : KubernetesResource Json)
    → Distinct (extract_containers pod)
      × All (λ s. truthy s ≡ true) (extract_containers pod)
      × (head (extract_containers pod) ≡ first_pod_container pod)
unfolding extract_containers first_pod_container
extract_containers_lem pod =
    let spec = coalesce pod.spec [] in
    let inits = array_of (Dict.get spec "initContainers") in
    let mains = array_of (Dict.get spec "containers") in
    (
      push_names-Distinct _ mains (push_names-Distinct [] inits tt),
      push_names-Filled _ mains (push_names-Filled [] inits tt),
      ap head (push_names-append inits [] mains) ∙ push_names-head (inits ++ mains),
    )
