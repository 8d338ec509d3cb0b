-- ===== src/Slices/Ws/Rings.antt =====
-- frontend/src/slices/wsSlice.ts: the ring buffers.
use k8s_platform.Common.{
  ℕ, ◌-◌, ◌≤◌, ◌<◌, get_last, get_last-append, String, ◌≡◌, refl, sym, ap, ◌∙◌, some, none, Option,
  List, [], ◌∷◌, ◌++◌, arith, length, drop, length-append, length-drop, drop-append_le, drop-drop,
}
use k8s_platform.Slices.Ws.{
  WsState, TaskProgressPayload, ring_push, on_message, task_progress, pod_logs, cluster_event, Body,
  push_log, set_status, set_last_error, set_reconnecting, bump_reconnect, add_subscription,
  remove_subscription, clear_subscriptions, clear_task_progress, clear_cluster_events,
  clear_pod_logs, reset_ws,
}
use k8s_platform.Slices.Ws.Reducer.{Action, run, reducer}
use k8s_platform.Slices.Ws.Reducer

-- The newest `max` entries.
abbrev pub newest {ℓ} : {T : Type ℓ} → ℕ → List T → List T
newest max xs = drop (length xs - max) xs

module _ {ℓ} {T : Type ℓ} where
  pub ring_push-eq-newest :
      (arr : List T) (item : T) (max : ℕ) → ring_push arr item max ≡ newest max (arr ++ item ∷ [])
  unfolding ring_push
  ring_push-eq-newest arr item max = ground (arith)

  pub length-ring_push : (arr : List T) (item : T) (max : ℕ) → length (ring_push arr item max) ≤ max
  length-ring_push arr item max =
      rw (ring_push-eq-newest arr item max)
        (omega (arith, length-drop (length (arr ++ item ∷ []) - max) (arr ++ item ∷ [])))

  pub get_last-newest :
      (max : ℕ) (xs : List T) (x : T) → 0 < max → get_last (newest max (xs ++ x ∷ [])) ≡ some x
  get_last-newest max xs x h =
      ap get_last (
        drop-append_le (length (xs ++ x ∷ []) - max) xs (x ∷ [])
          (omega (arith, length-append xs (x ∷ []))))
      ∙ get_last-append (drop (length (xs ++ x ∷ []) - max) xs) x

  -- Forgetting early or late makes no difference.
  newest-append :
      (max : ℕ) (xs ys : List T) → newest max (newest max xs ++ ys) ≡ newest max (xs ++ ys)
  newest-append max xs ys =
      let k = length xs - max in
      let j = length (drop k xs ++ ys) - max in
      ap (drop j) (sym (drop-append_le k xs ys (omega arith)))
      ∙ drop-drop j k (xs ++ ys)
      ∙ ap (λ (n : ℕ). drop n (xs ++ ys))
          (omega (arith, length-append xs ys, length-append (drop k xs) ys, length-drop k xs))

  newest_fits : (max : ℕ) (xs : List T) → length xs ≤ max → newest max xs ≡ xs
  newest_fits max xs h =
      let none_over : length xs - max ≡ 0 = omega arith in ap (λ (n : ℕ). drop n xs) none_over

abbrev log_step : List TaskProgressPayload → Action → List TaskProgressPayload
log_step log (Reducer.on_message msg) = elim msg.body [
  | task_progress (some p) ↦ log ++ p ∷ []
  | _ ↦ log
]
log_step log Reducer.clear_task_progress = []
log_step log Reducer.reset_ws = []
log_step log _ = log

-- The progress stream without a limit: what has arrived since the queue was last emptied.
abbrev pub progress_log :
    List TaskProgressPayload → List (String × Action) → List TaskProgressPayload
progress_log log [] = log
progress_log log ((now, action) ∷ rest) = progress_log (log_step log action) rest

log_step-on_message :
    (now : String) (s : WsState) (ch : Option String) (b : Body) (log : List TaskProgressPayload)
    → s.task_progress ≡ newest 200 log
    → (on_message now s (record { channel = ch; body = b })).task_progress
      ≡ newest 200 (log_step log (Reducer.on_message (record { channel = ch; body = b })))
unfolding on_message push_log
log_step-on_message now s ch (task_progress (some p)) log e =
    ring_push-eq-newest s.task_progress p 200
    ∙ ap (λ (xs : List TaskProgressPayload). newest 200 (xs ++ p ∷ [])) e
    ∙ newest-append 200 log (p ∷ [])
log_step-on_message now s ch (pod_logs (some p)) log e = ground arith
log_step-on_message now s ch (cluster_event (some p)) log e = e
log_step-on_message now s ch (cluster_event none) log e = e
log_step-on_message now s ch _ log e = e

log_step-reducer :
    (now : String) (s : WsState) (a : Action) (log : List TaskProgressPayload)
    → s.task_progress ≡ newest 200 log
    → (reducer now s a).task_progress ≡ newest 200 (log_step log a)
unfolding reducer set_status set_last_error set_reconnecting bump_reconnect add_subscription
    remove_subscription clear_subscriptions clear_task_progress clear_cluster_events clear_pod_logs
    reset_ws
log_step-reducer now s (Reducer.on_message m) log e =
    log_step-on_message now s m.channel m.body log e
log_step-reducer now s (Reducer.set_status st) log e = ground arith
log_step-reducer now s (Reducer.set_last_error o) log e = ground arith
log_step-reducer now s (Reducer.add_subscription ch) log e = ground arith
log_step-reducer now s (Reducer.remove_subscription ch) log e = ground arith
log_step-reducer now s (Reducer.clear_pod_logs (some ch)) log e = ground arith
log_step-reducer now s Reducer.clear_task_progress log e = refl
log_step-reducer now s Reducer.reset_ws log e = refl
log_step-reducer now s _ log e = e

run-newest :
    (s : WsState) (actions : List (String × Action)) (log : List TaskProgressPayload)
    → s.task_progress ≡ newest 200 log
    → (run s actions).task_progress ≡ newest 200 (progress_log log actions)
unfolding run
run-newest s [] log e = e
run-newest s ((now, a) ∷ rest) log e =
    run-newest (reducer now s a) rest (log_step log a) (log_step-reducer now s a log e)

-- From a state whose task queue is within its limit, after any run of actions the queue holds the
-- newest 200 entries, oldest first, of what it held and what has arrived since the last clearing.
pub run-task_progress :
    (s : WsState) (actions : List (String × Action))
    → length s.task_progress ≤ 200
    → (run s actions).task_progress ≡ newest 200 (progress_log s.task_progress actions)
run-task_progress s actions h =
    run-newest s actions s.task_progress (sym (newest_fits 200 s.task_progress h))
