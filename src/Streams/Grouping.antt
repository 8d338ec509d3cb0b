-- ===== src/Streams/Grouping.antt =====
-- frontend/src/hooks/useBackupProgress.ts: the map by task.
use k8s_platform.Common.{
  String, ◌≡◌, refl, ap, sym, ◌∙◌, Bool, true, false, ◌&&◌, ◌==◌, Option, none, some, List, [], ◌∷◌,
  arith, keep, get_last, if◌then◌else◌, eq_iff, Bool-cases, inl, inr,
}
use k8s_platform.Common.Dict.{get, put, get-put}
use k8s_platform.Text.{truthy, opt_truthy}
use k8s_platform.Slices.Ws.{TaskProgressPayload}
use k8s_platform.Streams.{
  Mode, matches_backup, subscribe_task_progress, in_cluster, filter_cluster, task_key, fill,
  by_task_id, backup_progress,
}

-- The last of a list, or else what stood before.
abbrev pub last_or :
    Option TaskProgressPayload → List TaskProgressPayload → Option TaskProgressPayload
last_or o [] = o
last_or o (p ∷ ps) = last_or (some p) ps

next-get :
    (m : List (String × TaskProgressPayload)) (p : TaskProgressPayload) (k : String)
    → truthy k ≡ true
    → get (if truthy (task_key p) then put m (task_key p) p else m) k
      ≡ (if task_key p == k then some p else get m k)
next-get m p k t = elim (Bool-cases (truthy (task_key p))) [
  | inl filled ↦ rw filled (get-put m (task_key p) k p)
  | inr empty ↦ ground (arith, eq_iff (task_key p) k)
]

last_or-if :
    (m : List (String × TaskProgressPayload)) (p : TaskProgressPayload)
    (ps : List TaskProgressPayload) (k : String)
    → last_or (if task_key p == k then some p else get m k) (keep (λ q. task_key q == k) ps)
      ≡ last_or (get m k) (keep (λ q. task_key q == k) (p ∷ ps))
last_or-if m p ps k = elim (Bool-cases (task_key p == k)) [
  | inl hit ↦ rw hit refl
  | inr miss ↦ rw miss refl
]

fill-get :
    (m : List (String × TaskProgressPayload)) (ps : List TaskProgressPayload) (k : String)
    → truthy k ≡ true
    → get (fill m ps) k ≡ last_or (get m k) (keep (λ p. task_key p == k) ps)
unfolding fill
fill-get m [] k t = refl
fill-get m (p ∷ ps) k t =
    let next = if truthy (task_key p) then put m (task_key p) p else m in
    fill-get next ps k t
    ∙ ap (λ o. last_or o (keep (λ q. task_key q == k) ps)) (next-get m p k t)
    ∙ last_or-if m p ps k

last_or-get_last :
    (p : TaskProgressPayload) (ps : List TaskProgressPayload)
    → last_or (some p) ps ≡ get_last (p ∷ ps)
last_or-get_last p [] = refl
last_or-get_last p (q ∷ ps) = last_or-get_last q ps

last_or-none : (ps : List TaskProgressPayload) → last_or none ps ≡ get_last ps
last_or-none [] = refl
last_or-none (p ∷ ps) = last_or-get_last p ps

module _ {A : Type 0} (p q : A → Bool) where
  keep-keep : (xs : List A) → keep p (keep q xs) ≡ keep (λ x. q x && p x) xs
  keep-keep [] = refl
  keep-keep (x ∷ xs) = ground (arith, keep-keep xs)

keep_all : {A : Type 0} (xs : List A) → keep (λ x. true) xs ≡ xs
keep_all [] = refl
keep_all (x ∷ xs) = ap (◌∷◌ x) (keep_all xs)

-- The events of the queue that the options of the hook let through.
abbrev pub relevant : Option String → Option String → TaskProgressPayload → Bool
relevant cluster backup p = matches_backup backup p && in_cluster cluster p

keep_any :
    (cluster : Option String) (ps : List TaskProgressPayload)
    → opt_truthy cluster ≡ false
    → keep (in_cluster cluster) ps ≡ ps
keep_any cluster [] h = refl
keep_any cluster (p ∷ ps) h = ground (arith, keep_any cluster ps h)

filter_cluster-keep :
    (cluster : Option String) (ps : List TaskProgressPayload)
    → filter_cluster cluster ps ≡ keep (in_cluster cluster) ps
unfolding filter_cluster
filter_cluster-keep cluster ps = elim (Bool-cases (opt_truthy cluster)) [
  | inl chosen ↦ rw chosen refl
  | inr any_one ↦ rw any_one (sym (keep_any cluster ps any_one))
]

subscribed-keep :
    (backup : Option String) (queue : List TaskProgressPayload)
    → (subscribe_task_progress backup queue).0 ≡ keep (matches_backup backup) queue
unfolding subscribe_task_progress
subscribed-keep none queue = sym (keep_all queue)
subscribed-keep (some id) queue = refl

-- Under each key that is not empty, the map of the hook holds the latest event of the queue that has
-- the key and that the options (the cluster, the backup or task) let through, in either mode.
pub backup_progress-latest :
    (values : List (String × TaskProgressPayload) → List TaskProgressPayload)
    (sort : List TaskProgressPayload → List TaskProgressPayload) (cluster backup : Option String)
    (mode : Mode) (queue : List TaskProgressPayload) (k : String)
    → truthy k ≡ true
    → get (backup_progress values sort cluster backup mode queue).1 k
      ≡ get_last (keep (λ p. relevant cluster backup p && task_key p == k) queue)
unfolding backup_progress by_task_id get
backup_progress-latest values sort cluster backup mode queue k t =
    let filtered = filter_cluster cluster (subscribe_task_progress backup queue).0 in
    let shown : filtered ≡ keep (relevant cluster backup) queue =
      filter_cluster-keep cluster (subscribe_task_progress backup queue).0
      ∙ ap (keep (in_cluster cluster)) (subscribed-keep backup queue)
      ∙ keep-keep (in_cluster cluster) (matches_backup backup) queue in
    fill-get [] filtered k t
    ∙ last_or-none (keep (λ p. task_key p == k) filtered)
    ∙ ap (λ ps. get_last (keep (λ p. task_key p == k) ps)) shown
    ∙ ap get_last (keep-keep (λ p. task_key p == k) (relevant cluster backup) queue)
