-- ===== src/Programs.antt =====
-- The host programs of the repository, composed from the parts of host/: scaffolds/guest/host.c,
-- examples/cap_host_smoke/host.c and examples/concur_nursery_smoke/host.c.
pub mod Guest
pub mod CapSmoke
pub mod NurserySmoke
mod Tests
