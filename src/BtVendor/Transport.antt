-- ===== src/BtVendor/Transport.antt =====
-- src/bt-vendor_vfs/ant_native_chardev.c: `init_transport_bdroid`, which opens and closes the device
-- through the vendor library and switches its power.
use linux_ant_hal.Base.{
  Bool, true, false, not, ℤ, pos, minus_one, is_neg, is_zero, eq_ℤ, if◌then◌else◌,
}
use linux_ant_hal.Os.{
  Os, M, ◌>>=◌, ◌>>◌, pure, get, modify, after, call, tell, load_vendor_library,
  find_vendor_interface, vendor_init, vendor_open, vendor_close, vendor_cleanup, vendor_power,
}
use linux_ant_hal.BtVendor.State.{Vendor}

abbrev set_interface : Bool → M Vendor (Unit {0})
set_interface loaded = modify (λ v. record v { vendor_interface = loaded })

module _ (os : Os) where
  -- `init_transport_bdroid(1)` from the call of `init` on
  unfoldable pub power_on_and_open : M Vendor ℤ
  power_on_and_open = do
    tell vendor_init
    p ← call os (vendor_power true)
    if is_neg p then pure minus_one else do
      r ← call os vendor_open
      fd ← after os.vendor_fd
      pure (if eq_ℤ r (pos 1) then fd else minus_one)

  unfoldable pub init_transport_bdroid : Bool → M Vendor ℤ
  init_transport_bdroid true = do
    so_handle ← call os load_vendor_library
    if is_zero so_handle then pure minus_one else do
      found ← call os find_vendor_interface
      set_interface (not (is_zero found))
      if is_zero found then pure minus_one else power_on_and_open
  init_transport_bdroid false = do
    v ← get
    if not v.vendor_interface then pure minus_one else do
      tell vendor_close
      p ← call os (vendor_power false)
      if is_neg p then pure minus_one else do tell vendor_cleanup; set_interface false; pure (pos 0)
