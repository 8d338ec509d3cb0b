-- ===== src/Socket/Restoring.antt =====
-- frontend/src/app/services/websocket.ts: `onopen`.
use k8s_platform.Common.{
  ℕ, String, ◌≡◌, refl, ap, ◌∙◌, Bool, true, false, ◌&&◌, ◌||◌, ◌==◌, none, some, List, [], ◌∷◌,
  ◌++◌, arith, eq_iff, gtb, contains, Bool-cases, inl, inr, any, all,
}
use k8s_platform.Common.Dict.{get, put, del}
use k8s_platform.Text.{truthy}
use k8s_platform.Slices.Ws
use k8s_platform.Slices.Ws.{Status}
use k8s_platform.Slices.Ws.Lifecycle.{set_status-subscriptions}
use k8s_platform.Slices.Ws.Routing.{add_subscription_lem}
use k8s_platform.Socket.{
  Client, Env, ClientAction, subscribe, with_redux, send_raw, restore, resend, on_open,
}
use k8s_platform.Socket.Frames.{asked, asked-append, subscriptions}

-- Whether a channel has subscribers.
abbrev pub has : List (String × ℕ) → String → Bool
has refs ch = elim (get refs ch) [ none ↦ false | some n ↦ true ]

abbrev pub positive : List (String × ℕ) → Bool
positive = all (λ r. gtb r.1 0)

abbrev wanted : List (String × ℕ) → String → Bool
wanted refs ch = any (λ r. gtb r.1 0 && r.0 == ch) refs

wanted-eq-has :
    (refs : List (String × ℕ)) (ch : String) → positive refs ≡ true → wanted refs ch ≡ has refs ch
unfolding get
wanted-eq-has [] ch h = refl
wanted-eq-has ((k, n) ∷ refs) ch h = ground (arith, wanted-eq-has refs ch)

pub positive-put :
    (refs : List (String × ℕ)) (ch : String) (n : ℕ)
    → positive refs ≡ true
    → gtb n 0 ≡ true
    → positive (put refs ch n) ≡ true
unfolding put
positive-put [] ch n h p = ground arith
positive-put ((k, m) ∷ refs) ch n h p = ground (arith, positive-put refs ch n)

pub positive-del :
    (refs : List (String × ℕ)) (ch : String) → positive refs ≡ true → positive (del refs ch) ≡ true
unfolding del
positive-del [] ch h = refl
positive-del ((k, m) ∷ refs) ch h = ground (arith, positive-del refs ch)

pub positive-get :
    (refs : List (String × ℕ)) (ch : String) (n : ℕ)
    → positive refs ≡ true
    → get refs ch ≡ some n
    → gtb n 0 ≡ true
unfolding get
positive-get [] ch n h e = cc
positive-get ((k, m) ∷ refs) ch n h e = ground (arith, positive-get refs ch n)

-- What a loop of `onopen` leaves, where it asks for the channel `x` (`wants`) and adds it to the
-- store (`added`).
record Restored (c : Client) (e : Env) (r : Client × Env) (wants added : Bool) (x : String)
    : Type 0 where
  client : r.0 ≡ c
  ready : r.1.ready ≡ true
  refs : r.1.refs ≡ e.refs
  served : asked r.1.sent x ≡ (asked e.sent x || wants)
  shown : contains (subscriptions r.1) x ≡ (contains (subscriptions e) x || added)

send_raw_open :
    (c : Client) (e : Env) (a : ClientAction)
    → c.attached ≡ true
    → e.ready ≡ true
    → send_raw c e a ≡ (c, record e { sent = e.sent ++ a ∷ [] })
unfolding send_raw
send_raw_open c e a h r = rw (h, r)

restore_lem :
    (rs : List (String × ℕ)) (c : Client) (e : Env) (x : String)
    → c.attached ≡ true
    → e.ready ≡ true
    → truthy x ≡ true
    → Restored c e (restore c e rs) (wanted rs x) (wanted rs x) x
unfolding restore
restore_lem [] c e x a r t = ground arith
restore_lem ((ch, n) ∷ rs) c e x a r t = elim (Bool-cases (gtb n 0)) [
  | inl pos ↦
      let e' = with_redux e (Ws.add_subscription e.redux ch) in
      rw (pos, send_raw_open c e' (subscribe ch) a r)
        (ground (
          arith,
          restore_lem rs c (record e' { sent = e'.sent ++ subscribe ch ∷ [] }) x a r t,
          add_subscription_lem e.redux ch x,
          asked-append false e.sent (subscribe ch) x,
          eq_iff ch x,
        ))
  | inr zero ↦ rw zero (ground (arith, restore_lem rs c e x a r t))
]

resend_lem :
    (chs : List String) (c : Client) (e : Env) (x : String)
    → c.attached ≡ true
    → e.ready ≡ true
    → Restored c e (resend c e chs) (contains chs x) false x
unfolding resend
resend_lem [] c e x a r = ground arith
resend_lem (ch ∷ chs) c e x a r = rw (send_raw_open c e (subscribe ch) a r) (
    ground (
      arith,
      resend_lem chs c (record e { sent = e.sent ++ subscribe ch ∷ [] }) x a r,
      asked-append false e.sent (subscribe ch) x,
    ))

-- On a new connection `onopen` asks for exactly the channels that have subscribers or are pending,
-- and the store holds those with subscribers and what it held.
pub on_open_lem :
    (now : String) (c : Client) (e : Env) (x : String)
    → c.attached ≡ true
    → e.ready ≡ true
    → truthy x ≡ true
    → positive e.refs ≡ true
    → let (c', e') = on_open now c e in
      (c'.attached ≡ true)
      × (c'.pending ≡ [])
      × (e'.ready ≡ true)
      × (e'.refs ≡ e.refs)
      × (asked e'.sent x ≡ (asked e.sent x || (has e.refs x || contains c.pending x)))
      × (contains (subscriptions e') x ≡ (contains (subscriptions e) x || has e.refs x))
unfolding on_open
on_open_lem now c e x a r t p =
    let e' = with_redux e (Ws.set_status now e.redux Status.opened) in
    let r' = restore c e' e.refs in
    let first = restore_lem e.refs c e' x a r t in
    let same = ap (λ (k : Client). k.attached) first.client in
    let second = resend_lem r'.0.pending r'.0 r'.1 x (same ∙ a) first.ready in
    ground (
      arith,
      first,
      second,
      wanted-eq-has e.refs x p,
      set_status-subscriptions now e.redux Status.opened,
    )
