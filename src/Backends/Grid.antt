-- ===== src/Backends/Grid.antt =====
-- The grid of a launch on the MLU stays within the limits of the device.
use libtriton_jit.Common.{
  ℕ, ◌*◌, ◌%◌, ◌^◌, ◌≤◌, ◌<◌, ltb, ltb→ge, ok, >>=-eq-ok, some, true, false, ◌↔◌, ◌≡◌, refl, arith,
}
use libtriton_jit.Common.Int.{pos}
use libtriton_jit.Backends.{driver_error}
use libtriton_jit.Backends.Loaded.{check-eq-ok, guard-eq-ok, needed-eq-ok}
use libtriton_jit.Backends.Mlu.{
  MluDriver, LaunchOptions, as_int, as_unsigned, check_grid, func_type, launch_kernel,
}

as_int-pos : (g : ℕ) → g < 2 ^ 31 → as_int g ≡ pos g
as_int-pos g h = ground (arith, h)

check_grid-within :
    (raw g limit : ℕ) → raw ≡ g → g < 2 ^ 31 → check_grid (as_int raw) limit ≡ ok tt → g ≤ limit
unfolding check_grid
check_grid-within raw g limit same small h =
    let (within, rest) =
      guard-eq-ok (ltb limit g) _ (ok tt) tt (rw (same, as_int-pos g small) at h) in
    ltb→ge limit g within

not-above : (limit g : ℕ) → g ≤ limit → ltb limit g ≡ false
not-above limit g h = ground (arith, h)

check_grid-ok :
    (raw g limit : ℕ) → raw ≡ g → g < 2 ^ 31 → g ≤ limit → check_grid (as_int raw) limit ≡ ok tt
unfolding check_grid
check_grid-ok raw g limit same small h =
    let inside : ltb limit g ≡ false = not-above limit g h in
    rw (same, as_int-pos g small, check_grid, inside) refl

-- The current device is known, the grid is within its limits, and the driver starts the kernel on it.
abbrev pub StartedOn : MluDriver → ℕ → ℕ → ℕ → ℕ → LaunchOptions → Type 0
StartedOn driver kernel x y z opts =
    (device : ℕ) × (driver.ctx_get_device ≡ some device)
    × (x ≤ driver.max_grid_x device)
    × (y ≤ driver.max_grid_y device)
    × (z ≤ driver.max_grid_z device)
    × (driver.invoke_kernel kernel (x, y, z)
          (func_type driver device x (x * y % 2 ^ 32 * z % 2 ^ 32) opts)
        ≡ true)

-- If the number of warps is not negative and no grid size, the first one times the warps, nor the number
-- of warps reaches 2 ^ 31, a launch on the MLU succeeds just when there is a current device, the grid, its
-- first size times the warps, is within the device's limits, and the driver starts the kernel on it.
pub launch_kernel-within :
    (driver : MluDriver) (kernel gx gy gz w : ℕ) (opts : LaunchOptions)
    → opts.num_warps ≡ pos w
    → gx * w < 2 ^ 31
    → w < 2 ^ 31
    → gy < 2 ^ 31
    → gz < 2 ^ 31
    → (launch_kernel driver kernel (gx, gy, gz) opts ≡ ok tt)
      ↔ StartedOn driver kernel (gx * w) gy gz opts
unfolding launch_kernel func_type
launch_kernel-within driver kernel gx gy gz w opts warps small_x small_w small_y small_z =
    let warps_kept : as_unsigned 32 opts.num_warps ≡ w = rw (warps) (omega arith) in
    let x = gx * as_unsigned 32 opts.num_warps % 2 ^ 32 in
    let grid_kept : x ≡ gx * w = rw (warps_kept) (omega arith) in
    (
      (λ h.
          let (device, current, h1) = check-eq-ok driver.ctx_get_device _ tt h in
          let (u, x_ok, h2) = >>=-eq-ok (check_grid (as_int x) (driver.max_grid_x device)) _ h1 in
          let (v, y_ok, h3) = >>=-eq-ok (check_grid (as_int gy) (driver.max_grid_y device)) _ h2 in
          let (t, z_ok, h4) = >>=-eq-ok (check_grid (as_int gz) (driver.max_grid_z device)) _ h3 in
          let (started, done) = needed-eq-ok _ driver_error (ok tt) tt h4 in
          (
            device,
            current,
            check_grid-within x (gx * w) (driver.max_grid_x device) grid_kept small_x x_ok,
            check_grid-within gy gy (driver.max_grid_y device) refl small_y y_ok,
            check_grid-within gz gz (driver.max_grid_z device) refl small_z z_ok,
            rw (grid_kept) at started,
          )),
      (λ (device, current, in_x, in_y, in_z, started).
          rw
            (
              launch_kernel,
              current,
              grid_kept,
              check_grid-ok (gx * w) (gx * w) (driver.max_grid_x device) refl small_x in_x,
              check_grid-ok gy gy (driver.max_grid_y device) refl small_y in_y,
              check_grid-ok gz gz (driver.max_grid_z device) refl small_z in_z,
              started,
            )
            refl),
    )
