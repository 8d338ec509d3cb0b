-- ===== src/Http/Tests.antt =====
-- The request layer at concrete inputs: a session whose access token has expired.
use Prim.Native.String
use k8s_platform.Common.{
  ℕ, ◌≤◌, String, ◌≡◌, refl, true, false, ◌==◌, ◌⊎◌, none, some, List, [], ◌∷◌, ◌++◌, if◌then◌else◌,
}
use k8s_platform.Storage.{map_storage, empty_store}
use k8s_platform.Slices.User
use k8s_platform.Store.Logout.{logged_out, no_entries}
use k8s_platform.Http.{
  Page, Config, AxiosError, bearer, on_request, handle_error, handle_unauthorized,
}
use k8s_platform.Http.Retry.{
  RefreshAnswer, Ending, Reply, fulfilled, rejected, gave, refresh_access_token, request, answered,
}
use k8s_platform.Http.Attempts.{request_ends}
use k8s_platform.Http.Adoption.{refresh-on_request}
use k8s_platform.Http.Errors.{Met, handle_error-Met, handle_unauthorized_lem}
use k8s_platform.Http.SingleFlight
use k8s_platform.Http.SingleFlight.{Event, steps, grounded, failed, steps-shared}
use k8s_platform.Http.BaseQuery
use k8s_platform.Http.BaseQuery.{base_query, delivered, Answers, base_query-Answers}

abbrev session : map_storage.Store
session =
    map_storage.set_item (map_storage.set_item empty_store "token" "old") "refresh_token" "again"

abbrev page : Page map_storage ℕ
page = record {
  root = record {
    user = User.initial_state map_storage session;
    app = record { selected_cluster_code = some "c1"; collapsed = false; theme = "dark" };
    caches = record {
      cluster = 1 ∷ [];
      resource = [];
      version = [];
      backup = [];
      rbac = [];
      helm = [];
    };
  };
  store = session;
  has_dispatch = true;
  pathname = "/clusters/list";
  search = "";
  href = none;
  notices = [];
}

abbrev encode : String → String
encode s = s

abbrev post : String → RefreshAnswer
post rt = if rt == "again" then some (some "new", none) else none

abbrev config : Config
config = record {
  url = some "/clusters";
  retried = false;
  authorization = none;
  trace_id = none;
  is_blob = false;
}

-- A server that knows the new token.
abbrev serve : ℕ → Config → Reply
serve k c = elim c.authorization [
  | none ↦ rejected none "AxiosError" "" (some (record { status = 401; body = none }))
  | some a ↦
      if a == "Bearer new"
      then fulfilled 200
      else rejected none "AxiosError" "" (some (record { status = 401; body = none }))
]

request_ends_example :
    (r : Ending (Page map_storage ℕ)) × (request map_storage encode post serve none 2 0 page config
      ≡ some r)
    × (1 ≤ r.sent)
    × (r.sent ≤ 2)
    × ((config.retried ≡ false) ⊎ (r.sent ≡ 1))
request_ends_example = request_ends map_storage ℕ encode post serve none page config

refreshed : (refresh_access_token map_storage encode post page).1 ≡ gave (some "new")
unfolding refresh_access_token answered User.clean
refreshed = refl

refresh-on_request_example :
    (on_request map_storage encode
      (refresh_access_token map_storage encode post page).0
      none
      config).authorization
    ≡ some (bearer "new")
refresh-on_request_example =
    refresh-on_request map_storage encode post page "new" refl none config refreshed

abbrev denied : AxiosError
denied = record {
  code = none;
  name = "AxiosError";
  message = "";
  response = some (record { status = 401; body = none });
  config = some config;
}

handle_error-Met_example :
    Met map_storage encode page denied (handle_error map_storage encode page denied)
handle_error-Met_example = handle_error-Met map_storage ℕ encode page denied

handle_unauthorized_lem_example :
    let after = handle_unauthorized map_storage encode page in
    (after.root.user ≡ logged_out)
    × (after.root.app.selected_cluster_code ≡ none)
    × (after.root.caches ≡ no_entries ℕ)
    × (map_storage.get_item after.store "token" ≡ none)
    × (map_storage.get_item after.store "refresh_token" ≡ none)
    × (after.href ≡ (
        if page.pathname == "/login"
        then page.href
        else some
            (String.◌++◌ "/login?redirect=" (encode (String.◌++◌ page.pathname page.search)))))
    × (after.notices ≡ page.notices)
handle_unauthorized_lem_example = handle_unauthorized_lem map_storage ℕ encode page refl

abbrev traffic : List Event
traffic =
    SingleFlight.fails 1
    ∷ SingleFlight.fails 2
    ∷ SingleFlight.settles (some "new")
    ∷ SingleFlight.fails 3
    ∷ []

steps-shared_example :
    SingleFlight.IsValid (steps grounded traffic)
    × (SingleFlight.answered (steps grounded traffic) ++ (steps grounded traffic).waiting
        ≡ failed traffic)
steps-shared_example = steps-shared traffic

abbrev late : BaseQuery.Result String
late = BaseQuery.resolved 200 (BaseQuery.envelope 7 none "late")

base_query-Answers_example : Answers (delivered late) (base_query late)
base_query-Answers_example = base_query-Answers late
