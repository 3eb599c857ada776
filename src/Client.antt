-- ===== src/Client.antt =====
-- src/common/inc/ant_native.h: the library as its clients see it, whichever transport it is built
-- with, and the two character device transports in this form.
use Prim.Native.String.{String}
use linux_ant_hal.Base.{ℕ, Bool, Option, List}
use linux_ant_hal.Types.{RadioStatus, AntStatus}
use linux_ant_hal.Os.{Os, M, ◌>>=◌, pure, get}
use linux_ant_hal.Chardev.State.{Hal}
use linux_ant_hal.Chardev.Status.{ant_radio_enabled_status as hal_status}
use linux_ant_hal.Chardev.Radio.{
  ant_init as hal_init, ant_deinit as hal_deinit, ant_enable_radio as hal_enable,
  ant_disable_radio as hal_disable, ant_radio_hard_reset as hal_hard_reset,
  set_ant_rx_callback as hal_set_rx, set_ant_state_callback as hal_set_state,
}
use linux_ant_hal.Chardev.Tx.{ant_tx_message as hal_tx_message}
use linux_ant_hal.BtVendor.State.{Vendor}
use linux_ant_hal.BtVendor.Radio.{
  ant_radio_enabled_status as vendor_status, ant_init as vendor_init, ant_deinit as vendor_deinit,
  ant_enable_radio as vendor_enable, ant_disable_radio as vendor_disable,
  ant_radio_hard_reset as vendor_hard_reset, set_ant_rx_callback as vendor_set_rx,
  set_ant_state_callback as vendor_set_state,
}
use linux_ant_hal.BtVendor.Tx.{ant_tx_message as vendor_tx_message}

-- The functions of the library on a state. A call that does not return is `none`.
pub record Library (S : Type 0) : Type 0 where
  pub ant_init : M S AntStatus
  pub ant_deinit : M S AntStatus
  pub ant_enable_radio : M S AntStatus
  pub ant_disable_radio : M S AntStatus
  pub ant_radio_hard_reset : M S AntStatus
  pub ant_radio_enabled_status : M S RadioStatus
  pub set_ant_rx_callback : Option ℕ → M S AntStatus
  pub set_ant_state_callback : Option ℕ → M S AntStatus
  pub ant_tx_message : ℕ → List ℕ → M S (Option AntStatus)

module _ (os : Os) (fuel : ℕ) (names : List String) (supported : Bool) where
  -- src/vfs, with so many waits in a transmission, the names of the driver's devices and whether the
  -- driver supports a hard reset
  abbrev pub chardev_library : Library Hal
  chardev_library = record {
    ant_init = hal_init os names;
    ant_deinit = hal_deinit os;
    ant_enable_radio = hal_enable os;
    ant_disable_radio = hal_disable os;
    ant_radio_hard_reset = hal_hard_reset os supported;
    ant_radio_enabled_status = (do h ← get; pure (hal_status h));
    set_ant_rx_callback = λ f. hal_set_rx f;
    set_ant_state_callback = λ f. hal_set_state f;
    ant_tx_message = λ len mesg. hal_tx_message os fuel len mesg;
  }

  -- src/bt-vendor_vfs
  abbrev pub vendor_library : Library Vendor
  vendor_library = record {
    ant_init = vendor_init os names;
    ant_deinit = vendor_deinit os;
    ant_enable_radio = vendor_enable os;
    ant_disable_radio = vendor_disable os;
    ant_radio_hard_reset = vendor_hard_reset os supported;
    ant_radio_enabled_status = (do v ← get; pure (vendor_status v));
    set_ant_rx_callback = λ f. vendor_set_rx f;
    set_ant_state_callback = λ f. vendor_set_state f;
    ant_tx_message = λ len mesg. vendor_tx_message os fuel len mesg;
  }
