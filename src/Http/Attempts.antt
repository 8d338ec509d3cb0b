-- ===== src/Http/Attempts.antt =====
-- frontend/src/app/services/request.ts: the sendings of one request.
use k8s_platform.Common.{
  ℕ, suc, ◌≤◌, String, ◌≡◌, refl, ◌∙◌, true, false, ◌⊎◌, inl, inr, Option, some, arith,
  Option-cases, Bool-cases,
}
use k8s_platform.Storage.{WebStorage}
use k8s_platform.Http.{Config, AxiosError, Page, on_request, handle_error}
use k8s_platform.Http.Retry.{
  RefreshAnswer, Refreshed, threw, gave, Reply, fulfilled, rejected, Verdict, again, reject, Ending,
  Next, error_of, on_rejected, try_again, refresh_access_token, may_refresh, follow, settle,
  request,
}

module _ (w : WebStorage) {Entry : Type 0} (encode : String → String)
    (post : String → RefreshAnswer) where
  on_request-retried :
      (page : Page w Entry) (uuid : Option String) (config : Config)
      → (on_request w encode page uuid config).retried ≡ config.retried
  unfolding on_request
  on_request-retried page uuid config = ground arith

  -- A second sending is the last: its rejection goes to the caller.
  on_rejected_again :
      (page : Page w Entry) (e : AxiosError) (config : Config)
      → e.config ≡ some config
      → config.retried ≡ true
      → on_rejected w encode post page e ≡ reject (handle_error w encode page e)
  unfolding on_rejected may_refresh
  on_rejected_again page e config c r = rw (c, on_rejected) (ground arith)

  -- What is requested again is marked.
  try_again-retried :
      (config : Config) (e : AxiosError) (page p : Page w Entry) (r : Refreshed) (c : Config)
      → try_again w encode post config e page r ≡ again p c
      → c.retried ≡ true
  unfolding try_again
  try_again-retried config e page p threw c h = cc
  try_again-retried config e page p (gave next) c h = ground arith

  on_rejected-retried :
      (page p : Page w Entry) (e : AxiosError) (c : Config)
      → on_rejected w encode post page e ≡ again p c
      → c.retried ≡ true
  unfolding on_rejected
  on_rejected-retried page p e c h = elim (Option-cases e.config) [
    | inl none_there ↦ absurd (rejects (rw (none_there, on_rejected) at h))
    | inr (config, there) ↦ elim (Bool-cases (may_refresh e config)) [
      | inl yes_may ↦
          try_again-retried config e (refresh_access_token w encode post page).0 p
            (refresh_access_token w encode post page).1 c (rw (there, yes_may, on_rejected) at h)
      | inr may_not ↦ absurd (rejects (rw (there, may_not, on_rejected) at h))
    ]
  ]
    where
      rejects : {q : Page w Entry} → reject q ≡ again p c → ⊥
      rejects e = cc

  module _ (serve : ℕ → Config → Reply) (uuid : Option String) where
    settle_retried :
        (next : Next (Page w Entry)) (sent : ℕ) (page : Page w Entry) (config : Config)
        (reply : Reply)
        → config.retried ≡ true
        → (r : Ending (Page w Entry)) × (settle w encode post next sent page config reply ≡ some r)
          × (r.sent ≡ sent)
    unfolding settle follow
    settle_retried next sent page config (fulfilled status) m = (_, refl, refl)
    settle_retried next sent page config (rejected code name message response) m =
        let e = error_of config code name message response in
        rw (on_rejected_again page e config refl m) (_, refl, refl)

    request_retried :
        (fuel k : ℕ) (page : Page w Entry) (config : Config)
        → config.retried ≡ true
        → (r : Ending (Page w Entry)) × (request w encode post serve uuid (suc fuel) k page config
            ≡ some r)
          × (r.sent ≡ suc k)
    unfolding request
    request_retried fuel k page config m =
        settle_retried _ (suc k) page (on_request w encode page uuid config) _
          (on_request-retried page uuid config ∙ m)

    follow_total :
        (sent : ℕ) (reply : Reply) (v : Verdict (Page w Entry))
        → ((p : Page w Entry) (c : Config) → v ≡ again p c → c.retried ≡ true)
        → (r : Ending (Page w Entry)) × (follow
              (request w encode post serve uuid 1 sent)
              sent
              reply
              v
            ≡ some r)
          × (sent ≤ r.sent)
          × (r.sent ≤ suc sent)
    unfolding follow
    follow_total sent reply (reject p) h = (_, refl, omega arith, omega arith)
    follow_total sent reply (again p c) h =
        let (r, e, n) = request_retried 0 sent p c (h p c refl) in (r, e, omega arith, omega arith)

    settle_total :
        (sent : ℕ) (page : Page w Entry) (config : Config) (reply : Reply)
        → (r : Ending (Page w Entry)) × (settle w encode post
              (request w encode post serve uuid 1 sent)
              sent
              page
              config
              reply
            ≡ some r)
          × (sent ≤ r.sent)
          × (r.sent ≤ suc sent)
    unfolding settle
    settle_total sent page config (fulfilled status) = (_, refl, omega arith, omega arith)
    settle_total sent page config (rejected code name message response) =
        let e = error_of config code name message response in
        follow_total sent _ (on_rejected w encode post page e)
          (λ p c h. on_rejected-retried page p e c h)

-- Every request ends, whatever the server answers: two sendings are enough fuel, one or two are
-- made, and a request that is itself a repetition is sent once.
pub request_ends :
    (w : WebStorage) (Entry : Type 0) (encode : String → String) (post : String → RefreshAnswer)
    (serve : ℕ → Config → Reply) (uuid : Option String) (page : Page w Entry) (config : Config)
    → (r : Ending (Page w Entry)) × (request w encode post serve uuid 2 0 page config ≡ some r)
      × (1 ≤ r.sent)
      × (r.sent ≤ 2)
      × ((config.retried ≡ false) ⊎ (r.sent ≡ 1))
unfolding request
request_ends w Entry encode post serve uuid page config = elim (Bool-cases config.retried) [
  | inl marked ↦
      let (r, e, n) = request_retried w encode post serve uuid 1 0 page config marked in
      (r, e, omega arith, omega arith, inr n)
  | inr fresh ↦
      let sending = on_request w encode page uuid config in
      let (r, e, low, high) =
        settle_total w encode post serve uuid 1 page sending (serve 0 sending) in
      (r, e, low, high, inl fresh)
]
