-- ===== src/Pages/BackupCreate/Submitted.antt =====
-- frontend/src/pages/backups/create.tsx: which requests a submitted form sends.
use k8s_platform.Common.{
  String, ◌≡◌, ◌⊎◌, refl, ap, sym, subst, Bool, true, false, ◌&&◌, Option, none, some, List, [],
  ◌∷◌, if◌then◌else◌, coalesce, arith, Bool-cases, inl, inr,
}
use k8s_platform.Text.{truthy, opt_truthy, or_text}
use k8s_platform.Api.Backup.{
  StorageType, local, s3, nfs, CreateBackupBody, Mutation, single, namespace_batch, create_backup,
}
use k8s_platform.Pages.{Act, error, success, go, sent, if_ok}
use k8s_platform.Pages.BackupCreate.{
  Scope, object, namespace, batch, FormStorage, local_disk, s3_bucket, nfs_share, CreateFormValues,
  Built, body, refused, build, handle_submit, single_body, batch_body, ns_list, kf_list, is_batch,
  storage_of, submit_built,
}

abbrev pub filled_list : Option (List String) → Bool
filled_list none = false
filled_list (some []) = false
filled_list (some (x ∷ xs)) = true

-- The fields that the form of a scope asks for are filled in.
abbrev pub is_filled : CreateFormValues → Scope → Bool
is_filled v object = truthy v.kind && truthy (or_text v.name "")
is_filled v namespace = opt_truthy v.namespace && truthy v.kind
is_filled v batch = filled_list v.namespaces && filled_list v.kind_filter

-- The storage that the request names for the one that the form shows.
abbrev pub IsStoredIn : FormStorage → Option StorageType → Type 0
IsStoredIn local_disk t = t ≡ some local
IsStoredIn s3_bucket t = t ≡ some s3
IsStoredIn nfs_share t = t ≡ some nfs

storage_of-IsStoredIn : (f : FormStorage) → IsStoredIn f (some (storage_of f))
storage_of-IsStoredIn local_disk = refl
storage_of-IsStoredIn s3_bucket = refl
storage_of-IsStoredIn nfs_share = refl

-- The body asks for what the form of a scope shows, and for nothing else.
abbrev pub AsksFor : CreateFormValues → CreateBackupBody → Scope → Type 0
AsksFor v b object =
    (b.mode ≡ some single)
    × IsStoredIn v.storage_type b.storage_type
    × (b.namespace ≡ some (or_text v.namespace ""))
    × (b.target_kind ≡ some v.kind)
    × (b.target_name ≡ some (or_text v.name ""))
    × (b.namespaces ≡ none)
    × (b.kind_filter ≡ none)
AsksFor v b namespace =
    (b.mode ≡ some namespace_batch)
    × IsStoredIn v.storage_type b.storage_type
    × (b.namespace ≡ none)
    × (b.namespaces ≡ some (or_text v.namespace "" ∷ []))
    × (b.kind_filter ≡ some (v.kind ∷ []))
    × (b.target_kind ≡ none)
    × (b.target_name ≡ none)
AsksFor v b batch =
    (b.mode ≡ some namespace_batch)
    × IsStoredIn v.storage_type b.storage_type
    × (b.namespace ≡ none)
    × (b.namespaces ≡ v.namespaces)
    × (b.kind_filter ≡ v.kind_filter)
    × (b.target_kind ≡ none)
    × (b.target_name ≡ none)

Scope-cases : (s : Scope) → (s ≡ object) ⊎ ((s ≡ namespace) ⊎ (s ≡ batch))
Scope-cases object = inl refl
Scope-cases namespace = inr (inl refl)
Scope-cases batch = inr (inr refl)

-- The acts of a submission: exactly one request, with the body that was asked for, where the form
-- is filled in, and otherwise an error message and nothing else.
abbrev pub Submission : CreateFormValues → List (Act Mutation) → Type 0
Submission v acts =
    (((truthy v.code && is_filled v v.scope) ≡ true)
      × ((b : CreateBackupBody) × (sent acts ≡ create_backup v.code b ∷ []) × AsksFor v b v.scope))
    ⊎ (((truthy v.code && is_filled v v.scope) ≡ false)
        × ((text : String) × (acts ≡ error text ∷ [])))

abbrev Right : CreateFormValues → Scope → Built → Type 0
Right v s (body b) = (is_filled v s ≡ true) × AsksFor v b s
Right v s (refused text) = is_filled v s ≡ false

single_body-Right :
    (v : CreateFormValues) (storage : StorageType)
    → IsStoredIn v.storage_type (some storage)
    → Right v object (single_body storage v)
single_body-Right v storage st = elim (Bool-cases (truthy v.kind)) [
  | inl kind ↦ elim (Bool-cases (truthy (or_text v.name ""))) [
    | inl name ↦ rw (kind, name) (ground arith, (refl, st, refl, refl, refl, refl, refl))
    | inr no_name ↦ rw (kind, no_name) (ground arith)
  ]
  | inr no_kind ↦ rw no_kind (ground arith)
]

namespace-Right :
    (v : CreateFormValues) (storage : StorageType)
    → IsStoredIn v.storage_type (some storage)
    → Right v namespace (batch_body storage namespace (ns_list v namespace) (kf_list v namespace))
namespace-Right v storage st = elim (Bool-cases (opt_truthy v.namespace)) [
  | inl ns ↦ elim (Bool-cases (truthy v.kind)) [
    | inl kind ↦ rw (ns, kind) (ground arith, (refl, st, refl, refl, refl, refl, refl))
    | inr no_kind ↦ rw (ns, no_kind) (ground arith)
  ]
  | inr no_ns ↦ rw no_ns (ground arith)
]

lists-Right :
    (v : CreateFormValues) (storage : StorageType) (ns kf : Option (List String))
    → IsStoredIn v.storage_type (some storage)
    → ns ≡ v.namespaces
    → kf ≡ v.kind_filter
    → Right v batch (batch_body storage batch (coalesce ns []) (coalesce kf []))
lists-Right v storage none kf st e f = rw (← e) refl
lists-Right v storage (some []) kf st e f = rw (← e) refl
lists-Right v storage (some (n ∷ ns)) none st e f = rw (← e, ← f) refl
lists-Right v storage (some (n ∷ ns)) (some []) st e f = rw (← e, ← f) refl
lists-Right v storage (some (n ∷ ns)) (some (k ∷ kf)) st e f =
    (rw (← e, ← f) refl, (refl, st, refl, e, f, refl, refl))

-- What is built where the scope of the form is `t`.
abbrev At : CreateFormValues → Scope → Scope → Type 0
At v s t = Right v s (
    if is_batch t
    then batch_body (storage_of v.storage_type) t (ns_list v t) (kf_list v t)
    else single_body (storage_of v.storage_type) v)

build_at : (v : CreateFormValues) (s : Scope) → v.scope ≡ s → Right v s (build v)
unfolding build
build_at v object e =
    subst (At v object) (sym e)
      (single_body-Right v (storage_of v.storage_type) (storage_of-IsStoredIn v.storage_type))
build_at v namespace e =
    subst (At v namespace) (sym e)
      (namespace-Right v (storage_of v.storage_type) (storage_of-IsStoredIn v.storage_type))
build_at v batch e = subst (At v batch) (sym e) (
    lists-Right v (storage_of v.storage_type) v.namespaces v.kind_filter
      (storage_of-IsStoredIn v.storage_type) refl refl)

module _ (encode : String → String) (ok : Bool) where
  pub sent-if_ok : (a b : String) → sent {R = Mutation} (if_ok ok (success a ∷ go b ∷ [])) ≡ []
  sent-if_ok a b = elim ok as (λ t. sent (if_ok {R = Mutation} t (success a ∷ go b ∷ [])) ≡ []) [
    | true ↦ refl
    | false ↦ refl
  ]

  submit_built-Submission :
      (v : CreateFormValues) (b : Built)
      → truthy v.code ≡ true
      → Right v v.scope b
      → Submission v (submit_built encode ok v.code b)
  submit_built-Submission v (body b) code h =
      inl (ground arith, (b, ap (◌∷◌ (create_backup v.code b)) (sent-if_ok _ _), h.1))
  submit_built-Submission v (refused text) code h = inr (ground arith, (text, refl))

  -- A submitted form that is filled in sends one request, which asks for what the form of its
  -- scope shows, stored where the form says, and for nothing else; from any other form nothing is
  -- sent, and one error message is shown.
  pub handle_submit-Submission : (v : CreateFormValues) → Submission v (handle_submit encode ok v)
  unfolding handle_submit
  handle_submit-Submission v =
      let P = λ (t : Bool).
        Submission v (if t then submit_built encode ok v.code (build v) else error "请选择集群" ∷ []) in
      elim (Bool-cases (truthy v.code)) [
        | inl code ↦
            subst P (sym code) (submit_built-Submission v (build v) code (build_at v v.scope refl))
        | inr no_code ↦ subst P (sym no_code) (inr (ground arith, ("请选择集群", refl)))
      ]
