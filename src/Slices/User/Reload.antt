-- ===== src/Slices/User/Reload.antt =====
-- frontend/src/slices/userSlice.ts: the state and a reload of the page.
use k8s_platform.Common.{
  String, ◌≡◌, refl, sym, ◌∙◌, false, Option, none, some, List, [], ◌∷◌, arith, ◌==◌, ◌||◌,
  if◌then◌else◌,
}
use k8s_platform.Storage.{WebStorage}
use k8s_platform.Slices.User
use k8s_platform.Slices.User.{
  UserState, Action, clean, read_stored_token, initial_state, persist_token, reducer, run,
}

clean_idem : (o : Option String) → clean (clean o) ≡ clean o
unfolding clean
clean_idem o = ground arith

clean-none : clean none ≡ none
unfolding clean
clean-none = refl

module _ (w : WebStorage) where
  open w use {Store, get_item, get-set, get-remove}

  -- What is read back of a key: its own value cleaned, and every other key as it was.
  persist_token-get :
      (store : Store) (key : String) (o : Option String) (j : String)
      → read_stored_token w (persist_token w store key o) j
        ≡ (if key == j then clean o else read_stored_token w store j)
  unfolding read_stored_token persist_token clean
  persist_token-get store key none j = ground (arith, get-remove store key j)
  persist_token-get store key (some v) j =
      ground (arith, get-remove store key j, get-set store key v j)

  abbrev pub Agrees : UserState × Store → Type 0
  Agrees s =
      (read_stored_token w s.1 "token" ≡ clean s.0.token)
      × (read_stored_token w s.1 "refresh_token" ≡ clean s.0.refresh_token)

  logout-get :
      (store : Store) (j : String)
      → read_stored_token w (w.remove_item (w.remove_item store "token") "refresh_token") j
        ≡ (if "token" == j || "refresh_token" == j then none else read_stored_token w store j)
  unfolding read_stored_token clean
  logout-get store j = ground (
    arith,
    get-remove store "token" j,
    get-remove (w.remove_item store "token") "refresh_token" j,
  )

  reducer-Agrees : (s : UserState × Store) (a : Action) → Agrees s → Agrees (reducer w s a)
  unfolding reducer
  reducer-Agrees (state, store) (User.set_token o) g = ground (
    arith,
    persist_token-get store "token" o "token",
    persist_token-get store "token" o "refresh_token",
  )
  reducer-Agrees (state, store) (User.set_refresh_token o) g = ground (
    arith,
    persist_token-get store "refresh_token" o "token",
    persist_token-get store "refresh_token" o "refresh_token",
  )
  reducer-Agrees (state, store) User.logout g =
      ground (arith, logout-get store "token", logout-get store "refresh_token", clean-none)
  reducer-Agrees (state, store) (User.login_fulfilled p) g =
      let first = persist_token w store "token" (some p.access_token) in
      ground (
        arith,
        persist_token-get store "token" (some p.access_token) "token",
        persist_token-get store "token" (some p.access_token) "refresh_token",
        persist_token-get first "refresh_token" p.refresh_token "token",
        persist_token-get first "refresh_token" p.refresh_token "refresh_token",
      )
  reducer-Agrees (state, store) _ g = g

  run-Agrees : (s : UserState × Store) (actions : List Action) → Agrees s → Agrees (run w s actions)
  unfolding run
  run-Agrees s [] g = g
  run-Agrees s (a ∷ rest) g = run-Agrees (reducer w s a) rest (reducer-Agrees s a g)

  persist_token-frame :
      (store : Store) (key : String) (o : Option String) (j : String)
      → (key == j) ≡ false
      → get_item (persist_token w store key o) j ≡ get_item store j
  unfolding persist_token
  persist_token-frame store key none j e = ground (arith, get-remove store key j)
  persist_token-frame store key (some v) j e =
      ground (arith, get-remove store key j, get-set store key v j)

  reducer-frame :
      (s : UserState × Store) (a : Action) (j : String)
      → ("token" == j) ≡ false
      → ("refresh_token" == j) ≡ false
      → get_item (reducer w s a).1 j ≡ get_item s.1 j
  unfolding reducer
  reducer-frame (state, store) (User.set_token o) j t r = persist_token-frame store "token" o j t
  reducer-frame (state, store) (User.set_refresh_token o) j t r =
      persist_token-frame store "refresh_token" o j r
  reducer-frame (state, store) User.logout j t r = ground (
    arith,
    get-remove store "token" j,
    get-remove (w.remove_item store "token") "refresh_token" j,
  )
  reducer-frame (state, store) (User.login_fulfilled p) j t r =
      persist_token-frame _ "refresh_token" p.refresh_token j r
      ∙ persist_token-frame store "token" (some p.access_token) j t
  reducer-frame (state, store) _ j t r = refl

  run-frame :
      (s : UserState × Store) (actions : List Action) (j : String)
      → ("token" == j) ≡ false
      → ("refresh_token" == j) ≡ false
      → get_item (run w s actions).1 j ≡ get_item s.1 j
  unfolding run
  run-frame s [] j t r = refl
  run-frame s (a ∷ rest) j t r = run-frame (reducer w s a) rest j t r ∙ reducer-frame s a j t r

-- A page is loaded from any store and any actions run. A reload then finds the two tokens that the
-- state held, where an empty token and the texts "undefined" and "null" count as none; and a key
-- other than the two tokens' holds in the store what it held at the start.
pub run-reload_user :
    (w : WebStorage) (store : w.Store) (actions : List Action) (j : String)
    → ("token" == j) ≡ false
    → ("refresh_token" == j) ≡ false
    → let (state, store') = run w (initial_state w store, store) actions in
      ((initial_state w store').token ≡ clean state.token)
      × ((initial_state w store').refresh_token ≡ clean state.refresh_token)
      × (w.get_item store' j ≡ w.get_item store j)
unfolding initial_state
run-reload_user w store actions j t r =
    let start : UserState × w.Store = (initial_state w store, store) in
    let read : (k : String) → read_stored_token w store k ≡ clean (read_stored_token w store k) =
      λ k. sym (clean_idem (w.get_item store k)) in
    let (token, refresh) = run-Agrees w start actions (read "token", read "refresh_token") in
    (token, refresh, run-frame w start actions j t r)
