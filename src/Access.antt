-- ===== src/Access.antt =====
-- Who may see what: frontend/src/hooks/usePermission.ts, app/routePerms.ts, the guards of
-- app/router.tsx and hooks/useAllowedNamespaces.ts.
pub mod Permission
pub mod Routes
pub mod Namespaces
mod Tests
