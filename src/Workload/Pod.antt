-- ===== src/Workload/Pod.antt =====
-- frontend/src/utils/workloadStatus.ts: the reason why a pod waits, read
-- from lists of the form that the Kubernetes API gives them.
use k8s_platform.Common.{
  String, Bool, true, false, Option, none, some, List, [], ◌∷◌, if◌then◌else◌, All,
}
use k8s_platform.Common.Dict
use k8s_platform.Json.{
  Json, null, bool, number, text, array, object, Eval, value, type_error, ◌>>=◌, prop?, is_true,
  has_key, elements?, find_in, find_when, keep_in, items, entries,
}
use k8s_platform.Workload.{
  is_waiting, is_scheduled, find_in?, waiting_reason, unscheduled_reason, or_else, tagged_init,
  pod_waiting_reason, is_ready, keep_in?,
}

-- The evaluation does not throw, and its value meets `P`.
abbrev pub Ensures : {A : Type 0} → (A → Type 0) → Eval A → Type 0
Ensures P (value a) = P a
Ensures P type_error = ⊥

pub bind :
    {A B : Type 0} (P : A → Type 0) (Q : B → Type 0) (m : Eval A) (f : A → Eval B)
    → Ensures P m
    → ((a : A) → P a → Ensures Q (f a))
    → Ensures Q (m >>= f)
bind P Q (value a) f h k = k a h
bind P Q type_error f h k = absurd h

abbrev pub Anything : {A : Type 0} → A → Type 0
Anything a = Unit

-- The same, where nothing is known of the first value.
pub after :
    {A B : Type 0} (Q : B → Type 0) (m : Eval A) (f : A → Eval B)
    → Ensures Anything m
    → ((a : A) → Ensures Q (f a))
    → Ensures Q (m >>= f)
after Q (value a) f h k = k a
after Q type_error f h k = absurd h

abbrev pub Returns : Json → (Json → Eval Bool) → Type 0
Returns v p = Ensures Anything (p v)

module _ (p : Json → Eval Bool) where
  find_when-returns :
      (v : Json) (hit : Bool) (rest : Eval (Option Json))
      → Ensures Anything rest
      → Ensures Anything (find_when p v hit rest)
  find_when-returns v true rest h = tt
  find_when-returns v false rest h = h

  find_in-Returns : (vs : List Json) → All (λ v. Returns v p) vs → Ensures Anything (find_in p vs)
  find_in-Returns [] h = tt
  find_in-Returns (v ∷ vs) h =
      after Anything (p v) _ h.0
        λ hit. find_when-returns v hit (find_in p vs) (find_in-Returns vs h.1)

  keep_in-Returns : (vs : List Json) → All (λ v. Returns v p) vs → Ensures Anything (keep_in p vs)
  keep_in-Returns [] h = tt
  keep_in-Returns (v ∷ vs) h =
      after Anything (p v) _ h.0
        λ hit. after Anything (keep_in p vs) _ (keep_in-Returns vs h.1) λ rest. tt

abbrev pub IsObject : Option Json → Type 0
IsObject (some (object fs)) = Unit
IsObject _ = ⊥

abbrev pub IsState : Option Json → Type 0
IsState none = Unit
IsState (some null) = Unit
IsState (some (object fs)) = Unit
IsState _ = ⊥

-- A container's status: an object whose `state` is missing or an object.
abbrev pub IsContainer : Json → Type 0
IsContainer v = IsObject (some v) × IsState (prop? (some v) "state")

abbrev pub IsListOf : (Json → Type 0) → Option Json → Type 0
IsListOf P none = Unit
IsListOf P (some null) = Unit
IsListOf P (some (array vs)) = All P (items vs)
IsListOf P (some _) = ⊥

-- The lists of a pod's status have the form that the Kubernetes API gives them.
pub record IsPodStatus (status : List (String × Json)) : Type 0 where
  pub containers : IsListOf IsContainer (Dict.get status "containerStatuses")
  pub init_containers : IsListOf IsContainer (Dict.get status "initContainerStatuses")
  pub conditions : IsListOf (λ v. IsObject (some v)) (Dict.get status "conditions")

abbrev pub AllOf : (Json → Type 0) → Option (List Json) → Type 0
AllOf P none = Unit
AllOf P (some vs) = All P vs

pub elements?-AllOf :
    (P : Json → Type 0) (o : Option Json) → IsListOf P o → Ensures (AllOf P) (elements? o)
elements?-AllOf P none h = tt
elements?-AllOf P (some null) h = tt
elements?-AllOf P (some (array vs)) h = h
elements?-AllOf P (some (bool b)) h = h
elements?-AllOf P (some (number n)) h = h
elements?-AllOf P (some (text s)) h = h
elements?-AllOf P (some (object fs)) h = h

All-map : (P Q : Json → Type 0) (f : (v : Json) → P v → Q v) (vs : List Json) → All P vs → All Q vs
All-map P Q f [] h = tt
All-map P Q f (v ∷ vs) h = (f v h.0, All-map P Q f vs h.1)

find_in?-Returns :
    (P : Json → Type 0) (p : Json → Eval Bool)
    → ((v : Json) → P v → Returns v p)
    → (o : Option (List Json)) → AllOf P o
    → Ensures Anything (find_in? p o)
find_in?-Returns P p f none h = tt
find_in?-Returns P p f (some vs) h = find_in-Returns p vs (All-map P (λ v. Returns v p) f vs h)

state-returns :
    (o : Option Json)
    → IsState o
    → Ensures Anything (if is_true o then has_key "waiting" o else value false)
state-returns none h = tt
state-returns (some null) h = tt
state-returns (some (object fs)) h = tt
state-returns (some (bool b)) h = absurd h
state-returns (some (number n)) h = absurd h
state-returns (some (text s)) h = absurd h
state-returns (some (array vs)) h = absurd h

is_waiting-Returns : (v : Json) → IsContainer v → Returns v is_waiting
is_waiting-Returns null h = absurd h.0
is_waiting-Returns (bool b) h = absurd h.0
is_waiting-Returns (number n) h = absurd h.0
is_waiting-Returns (text s) h = absurd h.0
is_waiting-Returns (array vs) h = absurd h.0
is_waiting-Returns (object fs) h = state-returns (Dict.get (entries fs) "state") h.1

is_scheduled-Returns : (v : Json) → IsObject (some v) → Returns v is_scheduled
is_scheduled-Returns null h = h
is_scheduled-Returns (bool b) h = tt
is_scheduled-Returns (number n) h = tt
is_scheduled-Returns (text s) h = tt
is_scheduled-Returns (array vs) h = tt
is_scheduled-Returns (object fs) h = tt

is_ready-Returns : (v : Json) → IsContainer v → Returns v is_ready
is_ready-Returns null h = h.0
is_ready-Returns (bool b) h = tt
is_ready-Returns (number n) h = tt
is_ready-Returns (text s) h = tt
is_ready-Returns (array vs) h = tt
is_ready-Returns (object fs) h = tt

pub keep_in?-returns :
    (o : Option (List Json)) → AllOf IsContainer o → Ensures Anything (keep_in? o)
keep_in?-returns none h = tt
keep_in?-returns (some vs) h =
    keep_in-Returns is_ready vs
      (All-map IsContainer (λ v. Returns v is_ready) is_ready-Returns vs h)

waiting_reason-returns :
    (o : Option Json) → IsListOf IsContainer o → Ensures Anything (waiting_reason o)
unfolding waiting_reason
waiting_reason-returns o h =
    bind (AllOf IsContainer) Anything (elements? o) _ (elements?-AllOf IsContainer o h) λ cs all.
      after Anything (find_in? is_waiting cs) _
        (find_in?-Returns IsContainer is_waiting is_waiting-Returns cs all) λ w. tt

unscheduled_reason-returns :
    (o : Option Json)
    → IsListOf (λ v. IsObject (some v)) o
    → Ensures Anything (unscheduled_reason o)
unfolding unscheduled_reason
unscheduled_reason-returns o h =
    bind (AllOf (λ v. IsObject (some v))) Anything (elements? o) _
      (elements?-AllOf (λ v. IsObject (some v)) o h)
      λ cs all.
        after Anything (find_in? is_scheduled cs) _
          (find_in?-Returns (λ v. IsObject (some v)) is_scheduled is_scheduled-Returns cs all)
          λ w. tt

or_else-returns :
    (o : Option String) (rest : Eval (Option String))
    → Ensures Anything rest
    → Ensures Anything (or_else o rest)
or_else-returns none rest h = h
or_else-returns (some s) rest h = tt

pub pod_waiting_reason-returns :
    (status : List (String × Json))
    → IsPodStatus status
    → Ensures Anything (pod_waiting_reason status)
unfolding pod_waiting_reason
pod_waiting_reason-returns status h =
    after Anything (waiting_reason (Dict.get status "containerStatuses")) _
      (waiting_reason-returns _ h.containers)
      λ w. or_else-returns w _ (
        after Anything (waiting_reason (Dict.get status "initContainerStatuses")) _
          (waiting_reason-returns _ h.init_containers)
          λ i. or_else-returns (tagged_init i) _ (
            after Anything (unscheduled_reason (Dict.get status "conditions")) _
              (unscheduled_reason-returns _ h.conditions) λ s. or_else-returns s _ tt))
