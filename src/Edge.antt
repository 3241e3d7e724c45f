-- ===== src/Edge.antt =====
-- The edge of the process: directory listings, the environment, the clock, the arguments and the
-- commands that the host (host/std_fs_walk, host/std_env, host/std_time, host/cli, host/process)
-- offers to programs.
pub mod Walk
pub mod Env
pub mod Time
pub mod Cli
pub mod Process
pub mod Tests
