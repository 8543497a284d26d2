-- ===== src/Guards.antt =====
-- common/guards/: RolesGuard and ClassTenantGuard, which run in this order. Better Auth's session
-- lookup and the database lookups are parameters.
pub mod Roles
pub mod Tenant
mod Tests
