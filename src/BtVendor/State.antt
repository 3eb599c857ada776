-- ===== src/BtVendor/State.antt =====
-- src/bt-vendor_vfs/ant_native_chardev.c: the state that the transport keeps.
--
-- Much of src/bt-vendor_vfs is the text of src/vfs on the same variables. Such a function is here the
-- one of `Chardev`, run on that part of the state.
use linux_ant_hal.Base.{Bool}
use linux_ant_hal.Os.{M}
use linux_ant_hal.Chardev.State.{Hal}

-- The variables that src/vfs has too, and whether `vendor_interface` is set.
pub record Vendor : Type 0 where
  pub hal : Hal
  pub vendor_interface : Bool

-- An operation on the variables that src/vfs has too.
abbrev pub on_hal : {A : Type 0} → M Hal A → M Vendor A
on_hal op v t = let (a, h, t') = op v.hal t in (a, record v { hal = h }, t')
