-- ===== src/Lib.antt =====
-- The host runtime of fx: a library of C files under host/ that programs written in fx call. This
-- library models its parts and proves what they promise.
--
-- The capability runtime (host/cap) hands out capabilities: objects that let a program read below a
-- directory, write below one, allocate from a budget, burn fuel, or reach a host. Guest sessions own
-- them; a session can have sessions nested under it, and ending one revokes everything below.
--   Cap                  the objects of fx_cap_runtime.h, as tables from addresses to records
--   Cap/Path             mint_root, has_dotdot, path_allowed
--   Cap/Mint             fx_fscap_mint, fx_outcap_mint, the two free functions, fx_guest_mint_*
--   Cap/Session          fx_guest_begin, fx_guest_begin_nested, fx_guest_end
--   Cap/Budget           guest_bump_alloc, fx_guest_alloc, fx_alloccap_alloc, fx_fuelcap_burn
--   Cap/Net              fx_netcap_allows, fx_netcap_dial and fx_netcap_close of fx_net_dial.c, and in
--                        Probe fx_net_tls_http_get_smoke of fx_net_tls_probe.c; Windows for the start
--                        of the sockets there
--   Cap/FileIo           fx_io_cap_read_file, fx_io_cap_write_file, fx_io_cap_last_text
--   Cap/Invariant        the invariant of the runtime and the lemmas for each operation
--   Cap/Requests         histories of calls
--   Cap/End, Cap/Denied  what ending a session does, and what a revoked capability still allows
--
-- The concurrency substrate (host/concur) offers channels, mailboxes, mutexes and task nurseries to
-- the threads of a program.
--   Concur/Chan          fx_chan.c: Ring and Queue for its ring buffer, Wakeups for its sleepers,
--                        Traffic for the values that its threads pass through it
--   Concur/Select        fx_select.c
--   Concur/Mailbox       fx_mailbox.c
--   Concur/Mutex         fx_mutex.c; Race for two threads in it at the same time
--   Concur/Nursery       fx_task_nursery.c, as it is compiled for Linux: Join, Blocks and Timed for the
--                        joins, Shutdown for the end, Deadline for the clock of a join with a timeout,
--                        Platforms for the joins of Windows and other systems
--   Concur/Supervise     fx_supervise.c
--   Concur/Lifetimes     what the create and destroy functions allocate and give back
--   Concur/Bridge        fx_async_bridge.c, which gives programs in fx handles for all of these: the
--                        tasks it spawns in Bridge itself, the calls it passes on in Objects, the
--                        orders in which a batch of tasks can run in Schedule
--
-- The edge of the process: what the host offers of the system.
--   Edge/Walk            host/std_fs_walk/ref.c: the listing of a directory in a buffer that grows;
--                        Windows for the pattern that is searched for there
--   Edge/Env             host/std_env/ref.c
--   Edge/Time            host/std_time/ref.c: the clock, the sleep and the random numbers
--   Edge/Cli             host/cli/fx_cli_argv.c and host/cli/fx_cli_host.h
--   Edge/Process         host/process/fx_process.c; Slices for the substrings
--
-- The host programs, put together from these parts.
--   Programs/Guest         scaffolds/guest/host.c: a session, an FsCap, the guest, the end
--   Programs/CapSmoke      examples/cap_host_smoke/host.c: a file of fixtures/ for a guest
--   Programs/NurserySmoke  examples/concur_nursery_smoke/host.c: five runs of a nursery. Driver is how a
--                          run is written, Calls what its calls keep; Windows has
--                          the run that times out as it is compiled there
--
-- A definition has the name of its C function, without the prefix fx_ where the module is named for
-- the component. A pointer is a number and NULL is 0 or `none`. What comes from outside the code is
-- an argument: the addresses that calloc gives (0 if it fails), the answers of the C library and of
-- the system, and what other threads do while a lock is free. int64_t, int32_t and int are signed
-- numbers, whose conversion to int32_t wraps; size_t and uint32_t arithmetic wraps where the code's
-- can.
--
-- Bounds and fuel: fx_guest_end runs on fuel, 10 for each level of nesting that can lie below, since
-- a session has at most 8 children. The loop of the joins has one unit for each slot and one more.
-- The loop of fx_select_recv2 has one for each millisecond of the timeout and two more. The buffer of
-- the directory listing doubles on 64 rounds of fuel, which reach every size up to 2 ^ 63. The probe's
-- loop has 512 rounds, since each one adds a byte to its 511 or is the last. The session of
-- Programs/Guest has no children, so its end needs 2 units.
--
-- The functions of the edge are modelled as they are compiled for POSIX, and where Windows has other code
-- for them, in a module Windows as they are compiled there. A handle of the bridge is an address; the
-- tables of the bridge's world say what lies there.
--
-- Where C leaves open what happens, the model leaves it out: the index of a channel's write is a sum of
-- int, so the theorems about sends ask for at most 2 ^ 30 slots, or for a head of 0; a handle is cast
-- unchecked to the type that a call expects, and the model reads nothing at the address of an object of
-- another type. A join in a nursery comes back when its task ends: `join_all_when` and `shutdown_when`
-- are told how each wait ends, and `join_all` and `shutdown` are the runs in which every task ends.
-- What other threads call during a join is to spawn and to request a cancel; two joins at the same time
-- wait for the same thread, which POSIX leaves undefined.
--
-- The specifications cut a path into components at '/', and on Windows at a backslash too; the path
-- rules of the code cut at both on every system. Under the root "." of Programs/Guest a path is cut at
-- both too: there each such name is a file of the working directory or below it.
--
-- Not modelled: the two other example programs, which hold no more than an addition and a call of code
-- in fx. The compiler and the standard library are written in fx.
pub mod Prelude
pub mod Cap
pub mod Concur
pub mod Edge
pub mod Programs
