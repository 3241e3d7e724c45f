-- ===== src/Concur/Bridge/Leaks.antt =====
-- A spawn that the nursery refuses (host/concur/fx_async_bridge.c, `fx_async_nursery_spawn_add` and
-- the two others).
use fxlang.Prelude.{ℕ, ◌≡◌, ◌≢◌, ◌≤◌, ◌<◌, Bool, false, ◌⊎◌, some, ℤ, Ptr, arith}
use fxlang.Concur.Nursery.{Nursery, fx_nursery_spawn, fx_nursery_pending}
use fxlang.Concur.Nursery.Grows.{pending-set}
use fxlang.Concur.Bridge.{
  World, Arg, store_arg, send_arg, mb_send_arg, spawn_at, spawn_with, fx_async_nursery_spawn_add,
  fx_async_nursery_spawn_send, fx_async_nursery_spawn_mb_send,
}

-- An error is returned, the argument lies on the heap, and no task has been added that could free it.
abbrev pub Leaks : (n_h at : Ptr) → Arg → World → ℕ × World → Type 0
Leaks n_h at arg w o =
    (o.0 ≢ 0)
    × (o.1.args at ≡ some arg)
    × (fx_nursery_pending (o.1.nurseries n_h) ≡ fx_nursery_pending (w.nurseries n_h))

spawn_with-Leaks :
    (fn at n_h object : Ptr) (created : Bool) (arg : Arg) (n : Nursery) (w : World)
    → w.nurseries n_h ≡ some n
    → (n.live ≡ false) ⊎ (n.capacity ≤ n.count) ⊎ (created ≡ false)
    → 0 < fn
    → 0 < at
    → 0 < n_h
    → 0 < object
    → Leaks n_h at arg w (spawn_with fn at created n_h object arg w)
unfolding spawn_with spawn_at fx_nursery_spawn
spawn_with-Leaks fn at n_h object created arg n w e refused has_fn has_arg has_nursery has_object =
    let same =
      pending-set n.slots n.count n.count
        (record { fn = fn; arg = at; used = false; joined = false }) (omega arith) in
    (ground (arith, e), ground (arith, e), ground (arith, e, same))

-- When malloc gives the address `at` and the nursery is dead or full, or the thread is not created, each
-- of the three spawns returns an error status; the argument that it allocated stays allocated, and no
-- task is added to the nursery.
pub refused_spawns-Leaks :
    (at n_h object : Ptr) (created : Bool) (value : ℤ) (n : Nursery) (w : World)
    → w.nurseries n_h ≡ some n
    → (n.live ≡ false) ⊎ (n.capacity ≤ n.count) ⊎ (created ≡ false)
    → 0 < at
    → 0 < n_h
    → 0 < object
    → Leaks n_h at
        (store_arg object value)
        w
        (fx_async_nursery_spawn_add at created n_h object value w)
      × Leaks n_h at
          (send_arg object value)
          w
          (fx_async_nursery_spawn_send at created n_h object value w)
      × Leaks n_h at
          (mb_send_arg object value)
          w
          (fx_async_nursery_spawn_mb_send at created n_h object value w)
unfolding fx_async_nursery_spawn_add fx_async_nursery_spawn_send fx_async_nursery_spawn_mb_send
refused_spawns-Leaks at n_h object created value n w e refused has_arg has_nursery has_object = (
  spawn_with-Leaks 1 at n_h object created (store_arg object value) n w e refused (omega arith)
      has_arg has_nursery has_object,
  spawn_with-Leaks 2 at n_h object created (send_arg object value) n w e refused (omega arith)
      has_arg has_nursery has_object,
  spawn_with-Leaks 3 at n_h object created (mb_send_arg object value) n w e refused (omega arith)
      has_arg has_nursery has_object,
)
