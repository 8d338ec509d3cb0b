-- ===== src/Socket/Frames.antt =====
-- frontend/src/app/services/websocket.ts: which frames the methods give to the connection, and which
-- channels these frames ask for.
use k8s_platform.Common.{
  String, ◌≡◌, refl, Bool, true, false, not, ◌&&◌, ◌||◌, ◌==◌, List, [], ◌∷◌, ◌++◌, arith, eq_iff,
  contains, contains-append, contains-keep,
}
use k8s_platform.Text.{truthy}
use k8s_platform.Slices.Ws.Routing.{add_subscription_lem, remove_subscription_lem}
use k8s_platform.Socket.{
  Client, Env, ClientAction, subscribe, unsubscribe, ping, set_add, set_delete, buffer, send_raw,
  subscribe_to, unsubscribe_from,
}

-- Whether a channel is asked for after a frame.
abbrev pub react : Bool → ClientAction → String → Bool
react on (subscribe c) ch = on || c == ch
react on (unsubscribe c) ch = on && not (c == ch)
react on ping ch = on

abbrev pub asked_from : Bool → List ClientAction → String → Bool
asked_from on [] ch = on
asked_from on (a ∷ as') ch = asked_from (react on a ch) as' ch

-- Whether the asked, after these frames of a connection, pushes the channel to it.
abbrev pub asked : List ClientAction → String → Bool
asked = asked_from false

pub asked-append :
    (on : Bool) (xs : List ClientAction) (a : ClientAction) (ch : String)
    → asked_from on (xs ++ a ∷ []) ch ≡ react (asked_from on xs ch) a ch
asked-append on [] a ch = refl
asked-append on (x ∷ xs) a ch = asked-append (react on x ch) xs a ch

pub contains-set_add :
    (xs : List String) (s t : String) → contains (set_add xs s) t ≡ (contains xs t || s == t)
unfolding set_add
contains-set_add xs s t = ground (arith, contains-append xs (s ∷ []) t, eq_iff s t)

pub contains-set_delete :
    (xs : List String) (s t : String)
    → contains (set_delete xs s) t ≡ (contains xs t && not (s == t))
unfolding set_delete
contains-set_delete xs s t =
    ground (arith, contains-keep (λ x. not (x == s)) xs t, eq_iff s t, eq_iff t s)

abbrev pub subscriptions : Env → List String
subscriptions e = e.redux.subscriptions

module _ (c : Client) (e : Env) (ch x : String) (attached : c.attached ≡ true) where
  -- What one subscription changes, at any channel `x`.
  pub subscribe_to_lem :
      truthy ch ≡ true
      → let (c', e') = subscribe_to c e ch in
        (c'.attached ≡ true)
        × (e'.ready ≡ e.ready)
        × (e'.refs ≡ e.refs)
        × (contains c'.pending x ≡ (contains c.pending x || (not e.ready && ch == x)))
        × (contains (subscriptions e') x ≡ (contains (subscriptions e) x || ch == x))
        × (asked e'.sent x ≡ (asked e.sent x || (e.ready && ch == x)))
  unfolding subscribe_to send_raw buffer
  subscribe_to_lem t = ground (
    arith,
    contains-set_add c.pending ch x,
    add_subscription_lem e.redux ch x,
    asked-append false e.sent (subscribe ch) x,
  )

  pub unsubscribe_from_lem :
      truthy ch ≡ true
      → let (c', e') = unsubscribe_from c e ch in
        (c'.attached ≡ true)
        × (e'.ready ≡ e.ready)
        × (e'.refs ≡ e.refs)
        × (contains c'.pending x ≡ (contains c.pending x && not (ch == x)))
        × (contains (subscriptions e') x ≡ (contains (subscriptions e) x && not (ch == x)))
        × (asked e'.sent x ≡ (asked e.sent x && not (e.ready && ch == x)))
  unfolding unsubscribe_from send_raw buffer
  unsubscribe_from_lem t = ground (
    arith,
    contains-set_delete c.pending ch x,
    contains-set_delete (set_delete c.pending ch) ch x,
    (remove_subscription_lem e.redux ch x).0,
    eq_iff ch x,
    eq_iff x ch,
    asked-append false e.sent (unsubscribe ch) x,
  )
