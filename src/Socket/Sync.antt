-- ===== src/Socket/Sync.antt =====
-- frontend/src/app/services/websocket.ts: a history of one client, and the
-- channels that it asks the server for.
use k8s_platform.Common.{
  ℕ, ◌+◌, ◌-◌, String, ◌≡◌, refl, Bool, true, false, ◌&&◌, not, Option, none, some, List, [], ◌∷◌,
  arith, eq_iff, gtb, contains, leb, nat_eq, Bool-cases, Option-cases, inl, inr, coalesce,
}
use k8s_platform.Common.Dict.{get, put, del, get-put, get-del}
use k8s_platform.Text.{truthy}
use k8s_platform.Slices.Ws.{WsMessage, Status}
use k8s_platform.Slices.Ws.Lifecycle.{
  set_status-subscriptions, set_last_error-subscriptions, set_reconnecting-subscriptions,
  on_message-subscriptions,
}
use k8s_platform.Socket.{
  Client, Env, ping, subscribe_to, unsubscribe_from, on_open, on_close, on_error, handle_message,
  beat, send_raw, auth_failure,
}
use k8s_platform.Socket.Hub.{Hub, subscribe_channel, unsubscribe_channel, on_instance, with_refs}
use k8s_platform.Socket.Frames.{
  asked, subscriptions, subscribe_to_lem, unsubscribe_from_lem, asked-append,
}
use k8s_platform.Socket.Restoring.{
  has, positive, positive-put, positive-del, positive-get, on_open_lem,
}

-- What happens to a client: calls of the page, and what the socket reports. A connection starts
-- with no frame sent; `dropped` is the time from which `readyState` is no longer OPEN.
pub data Event : Type 0 where
  subscribes unsubscribes : String → Event
  opened : String → Event
  dropped : Event
  closed : String → ℕ → Event
  failed : String → Event
  received : String → Option WsMessage → Event
  beats : Event

abbrev pub connection : Bool → Env → Env
connection up e = record e { ready = up; sent = [] }

unfoldable pub step : Hub → Event → Hub
step h (subscribes ch) = subscribe_channel h ch
step h (unsubscribes ch) = unsubscribe_channel h ch
step h (opened now) = on_instance (λ c e. on_open now c (connection true e)) h
step h dropped = on_instance (λ c e. (c, connection false e)) h
step h (closed now code) = on_instance (λ c e. on_close now c (connection false e) code) h
step h (failed now) = on_instance (λ c e. (c, on_error now e)) h
step h (received now msg) = on_instance (λ c e. (c, handle_message now e msg)) h
step h beats = on_instance beat h

unfoldable pub steps : Hub → List Event → Hub
steps h [] = h
steps h (ev ∷ evs) = steps (step h ev) evs

-- The agreement of the page, the store and the frames sent about a channel: nothing is pending or
-- shown that has no subscriber, and on an open connection what has one is asked for and shown.
pub record InSync (ch : String) (c : Client) (e : Env) : Type 0 where
  pub attached : c.attached ≡ true
  pub counted : positive e.refs ≡ true
  pub waiting : (contains c.pending ch && not (has e.refs ch)) ≡ false
  pub mirrored : (contains (subscriptions e) ch && not (has e.refs ch)) ≡ false
  pub served : (e.ready && asked e.sent ch) ≡ (e.ready && has e.refs ch)
  pub shown : (e.ready && contains (subscriptions e) ch) ≡ (e.ready && has e.refs ch)

abbrev pub count_in : List (String × ℕ) → String → ℕ
count_in refs ch = coalesce (get refs ch) 0

has-count_in :
    (refs : List (String × ℕ)) (ch : String)
    → positive refs ≡ true
    → has refs ch ≡ gtb (count_in refs ch) 0
has-count_in refs ch p = elim (Option-cases (get refs ch)) [
  | inl e ↦ ground arith
  | inr (n, e) ↦ ground (arith, positive-get refs ch n p e)
]

module _ (x : String) (t : truthy x ≡ true) (c : Client) (e : Env) (v : InSync x c e) where
  subscribe_first :
      (ch : String) (n : ℕ)
      → truthy ch ≡ true
      → gtb n 0 ≡ true
      → let r = subscribe_to c (record e { refs = put e.refs ch n }) ch in InSync x r.0 r.1
  subscribe_first ch n filled p = ground (
    arith,
    subscribe_to_lem c (record e { refs = put e.refs ch n }) ch x v.attached filled,
    get-put e.refs ch x n,
    positive-put e.refs ch n,
    eq_iff ch x,
  )

  recount :
      (ch : String) (n : ℕ)
      → has e.refs ch ≡ true
      → gtb n 0 ≡ true
      → InSync x c (record e { refs = put e.refs ch n })
  recount ch n old p = ground (arith, get-put e.refs ch x n, positive-put e.refs ch n, eq_iff ch x)

  unsubscribe_last :
      (ch : String)
      → truthy ch ≡ true
      → let r = unsubscribe_from c (record e { refs = del e.refs ch }) ch in InSync x r.0 r.1
  unsubscribe_last ch filled = ground (
    arith,
    unsubscribe_from_lem c (record e { refs = del e.refs ch }) ch x v.attached filled,
    get-del e.refs ch x,
    positive-del e.refs ch,
    eq_iff ch x,
  )

  open_InSync : (now : String) → let r = on_open now c (connection true e) in InSync x r.0 r.1
  open_InSync now =
      ground (arith, on_open_lem now c (connection true e) x v.attached refl t v.counted)

  drop_InSync : InSync x c (connection false e)
  drop_InSync = ground arith

  close_InSync :
      (now : String) (code : ℕ)
      → let r = on_close now c (connection false e) code in InSync x r.0 r.1
  unfolding on_close
  close_InSync now code = ground (
    arith,
    set_status-subscriptions now e.redux Status.closed,
    set_last_error-subscriptions e.redux (some (auth_failure code)),
    set_reconnecting-subscriptions e.redux,
  )

  error_InSync : (now : String) → InSync x c (on_error now e)
  unfolding on_error
  error_InSync now = ground (arith, set_status-subscriptions now e.redux Status.error)

  message_InSync : (now : String) (o : Option WsMessage) → InSync x c (handle_message now e o)
  unfolding handle_message
  message_InSync now none = v
  message_InSync now (some msg) = ground (arith, on_message-subscriptions now e.redux msg)

  beat-InSync : InSync x (beat c e).0 (beat c e).1
  unfolding beat send_raw
  beat-InSync = ground (arith, asked-append false e.sent ping x)

-- A hub with a client, in agreement about `x`.
abbrev pub Linked : String → Hub → Type 0
Linked x h = (c : Client) × (h.instance_ ≡ some c) × InSync x c h.env

on_instance-Linked :
    (x : String) (f : Client → Env → Client × Env) (h : Hub) (c : Client)
    → h.instance_ ≡ some c
    → InSync x (f c h.env).0 (f c h.env).1
    → Linked x (on_instance f h)
unfolding on_instance
on_instance-Linked x f h c e v = rw (e, on_instance) ((f c h.env).0, refl, v)

module _ (x : String) (t : truthy x ≡ true) (h : Hub) (c : Client) (e : h.instance_ ≡ some c)
    (v : InSync x c h.env) where
  subscribe_channel-Linked : (ch : String) → Linked x (subscribe_channel h ch)
  unfolding subscribe_channel with_refs
  subscribe_channel-Linked ch = elim (Bool-cases (truthy ch)) [
    | inr empty ↦ rw empty (c, e, v)
    | inl filled ↦ elim (Bool-cases (nat_eq (count_in h.env.refs ch + 1) 1)) [
      | inl first ↦
          rw (filled, first)
            (on_instance-Linked x (λ c' e'. subscribe_to c' e' ch)
              (with_refs h (put h.env.refs ch (count_in h.env.refs ch + 1))) c e
              (subscribe_first x t c h.env v ch (count_in h.env.refs ch + 1) filled (ground arith)))
      | inr later ↦
          rw (filled, later)
            (
              c,
              e,
              recount x t c h.env v ch (count_in h.env.refs ch + 1)
                  (ground (arith, has-count_in h.env.refs ch v.counted)) (ground arith),
            )
    ]
  ]

  unsubscribe_channel-Linked : (ch : String) → Linked x (unsubscribe_channel h ch)
  unfolding unsubscribe_channel with_refs
  unsubscribe_channel-Linked ch = elim (Bool-cases (truthy ch)) [
    | inr empty ↦ rw empty (c, e, v)
    | inl filled ↦ elim (Bool-cases (leb (count_in h.env.refs ch) 1)) [
      | inl last ↦
          rw (filled, last)
            (on_instance-Linked x (λ c' e'. unsubscribe_from c' e' ch)
              (with_refs h (del h.env.refs ch)) c e (unsubscribe_last x t c h.env v ch filled))
      | inr more ↦
          rw (filled, more)
            (
              c,
              e,
              recount x t c h.env v ch (count_in h.env.refs ch - 1)
                  (ground (arith, has-count_in h.env.refs ch v.counted)) (ground arith),
            )
    ]
  ]

  pub step-Linked : (ev : Event) → Linked x (step h ev)
  unfolding step
  step-Linked (subscribes ch) = subscribe_channel-Linked ch
  step-Linked (unsubscribes ch) = unsubscribe_channel-Linked ch
  step-Linked (opened now) =
      on_instance-Linked x (λ c' e'. on_open now c' (connection true e')) h c e
        (open_InSync x t c h.env v now)
  step-Linked dropped =
      on_instance-Linked x (λ c' e'. (c', connection false e')) h c e (drop_InSync x t c h.env v)
  step-Linked (closed now code) =
      on_instance-Linked x (λ c' e'. on_close now c' (connection false e') code) h c e
        (close_InSync x t c h.env v now code)
  step-Linked (failed now) =
      on_instance-Linked x (λ c' e'. (c', on_error now e')) h c e (error_InSync x t c h.env v now)
  step-Linked (received now msg) =
      on_instance-Linked x (λ c' e'. (c', handle_message now e' msg)) h c e
        (message_InSync x t c h.env v now msg)
  step-Linked beats = on_instance-Linked x beat h c e (beat-InSync x t c h.env v)

pub steps-Linked :
    (x : String) (h : Hub) (evs : List Event)
    → truthy x ≡ true
    → Linked x h
    → Linked x (steps h evs)
unfolding steps
steps-Linked x h [] t l = l
steps-Linked x h (ev ∷ evs) t (c, e, v) =
    steps-Linked x (step h ev) evs t (step-Linked x t h c e v ev)
