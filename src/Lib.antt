-- ===== src/Lib.antt =====
-- A model of the frontend of the k8s platform (frontend/src), a React application over Redux Toolkit.
--
-- The program's parts. The slices hold the state: the session (slices/userSlice.ts), the chosen
-- cluster and theme (slices/appSlice.ts), and what the WebSocket brings (slices/wsSlice.ts). The store
-- (app/store.ts) joins them with the query caches and empties those at logout. The request layer
-- (app/services/request.ts, app/services/axiosBaseQuery.ts) adds the token to each request, refreshes
-- it once for all requests that fail with 401, and tells the user of errors. The services
-- (app/services/*.ts) are tables of endpoints over it. The WebSocket client
-- (app/services/websocket.ts, hooks/useWebSocket.ts) counts the subscribers of each channel and
-- restores the subscriptions on each connection. Permissions, routes and namespaces
-- (hooks/usePermission.ts, app/routePerms.ts, app/router.tsx, hooks/useAllowedNamespaces.ts) decide
-- what a user sees. Hooks select from the streams what a page shows. The layout
-- (layouts/BasicLayout.tsx) filters the menu by permissions, and the pages (pages) turn what the user
-- does into requests, with the helpers of utils and constants.
--
-- Which file models which part (paths on the right from frontend/src):
--   Slices/Ws       slices/wsSlice.ts: initialState, ringPush, every reducer, buildPodLogChannel
--   Slices/User     slices/userSlice.ts: readStoredToken, persistToken, the reducers
--   Slices/App      slices/appSlice.ts: the reducers
--   Storage         the browser's localStorage, an interface with its laws
--   Store           app/store.ts: the root reducer, resetApiCacheOnLogout
--   Http            app/services/request.ts: isCanceled, isAuthPath, handleUnauthorized, handleError,
--                   the request interceptor
--   Http/Retry      the same file: refreshAccessToken, the response interceptor, a whole request
--   Http/SingleFlight  the same file: refreshInFlight
--   Http/BaseQuery  app/services/axiosBaseQuery.ts
--   Socket          app/services/websocket.ts: the class WebSocketClient
--   Socket/Hub      the same file: the singleton and channelRefs; hooks/useWebSocket.ts
--   Socket/Server   backend/internal/websocket/handler.go (the frames), channel_auth.go, and of
--                   backend/internal/auth/service.go PermissionTree: the channels of a connection
--   Access/Permission  hooks/usePermission.ts
--   Access/Routes   app/routePerms.ts, app/router.tsx
--   Access/Namespaces  hooks/useAllowedNamespaces.ts
--   Streams         hooks/useSubscribeTaskProgress.ts, hooks/useBackupProgress.ts,
--                   hooks/useClusterEvents.ts, hooks/usePodLogs.ts, hooks/useSubscribePodLogs.ts
--   Streams/Effects the effects of the same hooks
--   Api             app/services/{rbac,cluster,resource,version,backup,helm}.ts: what each endpoint
--                   sends, and the cache tags it provides or invalidates
--   Http/Download   app/services/request.ts: download
--   Json, Workload  utils/workloadStatus.ts over parsed JSON
--   Yaml            utils/yaml.ts
--   Kinds           constants/k8sKinds.ts
--   Layout          layouts/BasicLayout.tsx: the menu, filterRoutesByPermission
--   Layout/Frame    the same file: the badge, the cluster effect, handleLogout
--   Pages/ResourceList, ResourceEdit, Quota  pages/resources/list.tsx,
--                   pages/resources/[code]/[apiVersion]/[kind]/[namespace]/[name]/edit.tsx, quota.tsx
--   Pages/BackupCreate, Backups  pages/backups/create.tsx, list.tsx
--   Pages/ClusterImport, ClusterList, ClusterEdit  pages/clusters/import.tsx, list.tsx, its drawer
--   Pages/Compare   pages/ops/compare.tsx
--   Pages/HelmList, HelmRepos  pages/helm/list.tsx, repos.tsx
--   Pages/Users, Roles, RolePermissions  pages/users/list.tsx, pages/roles/list.tsx
--   Pages/Audit, PodLogs, Login  pages/audit/list.tsx, pages/pods/logs.tsx, pages/Login/index.tsx
--   Pages/Widgets   components/ws/*.tsx
--   Text, Common    the string and array methods used, over the native numbers
--
-- How it is modelled. A reducer is a function of the state; where the source also writes
-- localStorage, of the state and the store of the browser. Mutable module state (the WebSocket
-- singleton, channelRefs, refreshInFlight) is a record passed from step to step, and what the socket,
-- the server or the user does is an event. A request runs on fuel, one unit per sending; the response
-- interceptor marks the request that it repeats and repeats no marked one, so two units are enough.
-- Ids, counts and status codes are natural numbers. Names are those of the source in snake case.
-- A handler of a page returns what it does in order (messages, requests, ways to other pages,
-- refetches) and the new cells of the page; the answers of the server are its arguments. The names
-- `module` and `data` are `module_name` and `payload` or `body`.
--
-- Parameters, being code outside the repository: localStorage, axios and the server's answers,
-- reconnecting-websocket, the route choice of react-router, crypto.randomUUID, the clock, and
-- encodeURIComponent, Array.prototype.sort, Object.values and the text of a number, of which the proofs
-- use at most a law; for the pages also js-yaml, Number, parseInt and parseFloat, the methods of String
-- that the text library lacks, URLSearchParams, dayjs, and the path parameters of the router.
--
-- Not modelled: what the pages and components draw (JSX, tables, the validation rules of their
-- forms), the dashboard, the YAML editor, and all else of the backend, which is written in Go.
mod Common
pub mod Text
pub mod Slices
pub mod Storage
pub mod Store
pub mod Access
pub mod Http
pub mod Socket
pub mod Streams
pub mod Api
pub mod Json
pub mod Yaml
pub mod Kinds
pub mod Workload
pub mod Layout
pub mod Pages
