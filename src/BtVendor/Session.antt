-- ===== src/BtVendor/Session.antt =====
-- src/bt-vendor_vfs: any sequence of the client's operations and of what the receive thread does to the
-- state that they share.
pub mod Power
pub mod Locks
use Prim.Native.String.{String}
use linux_ant_hal.Base.{
  zero, suc, set, get_or, ℕ, ◌≡◌, refl, ◌⊎◌, Bool, true, false, Option, List, [], ◌∷◌, arith, map,
  All, length,
}
use linux_ant_hal.Types.{RadioStatus}
use linux_ant_hal.Os.{Os, Trace, M, Mutex, ◌>>◌, pure, modify, holds, eq_mutex, flow_control_lock}
use linux_ant_hal.Os.Keeps.{Keeps, keeps_rules, Keeps-then, Keeps-call, Keeps-tell, Keeps-modify}
use linux_ant_hal.Chardev.State.{Channel, Hal, no_channel, set_flow_resp}
use linux_ant_hal.Chardev.Status.{IsClosed}
use linux_ant_hal.Chardev.Radio.{
  notify as hal_notify, ant_channel_init, ant_init as hal_init,
  set_ant_rx_callback as hal_set_rx_callback, set_ant_state_callback as hal_set_state_callback,
  with_rx_callback,
}
use linux_ant_hal.BtVendor.State.{Vendor, on_hal}
use linux_ant_hal.BtVendor.Power.Chip.{
  powered, IsPowered, ant_enable-IsPowered, ant_disable-IsPowered,
}
use linux_ant_hal.BtVendor.Radio.{
  notify, notify_status, set_ant_rx_callback, set_ant_state_callback, ant_init, power_up,
  ant_enable_radio, ant_disable_radio, ant_radio_hard_reset, restart, do_reset,
}
use linux_ant_hal.BtVendor.Radio.Locks.{
  IsFree, enable_radio-IsFree, disable_radio-IsFree, hard_reset-IsFree, do_reset-IsFree,
}
use linux_ant_hal.Chardev.Tx.Walk.{flowcontrol_wait-Keeps, flowcontrol_none-Keeps}
use linux_ant_hal.BtVendor.Power.{set_running}
use linux_ant_hal.BtVendor.Tx.{
  ant_tx_message_flowcontrol_wait, ant_tx_message_flowcontrol_none, ant_tx_message,
}
use linux_ant_hal.BtVendor.Thread.{clean_up}
use linux_ant_hal.BtVendor.Thread.Locks.{clean_up-IsFree}

-- An operation of the client, or a part of the receive thread that switches the radio.
pub data Operation : Type 0 where
  enables disables : Operation
  hard_resets : Bool → Operation
  sets_rx_callback sets_state_callback : Option ℕ → Operation
  -- the rounds of the wait, the length and the message
  transmits : ℕ → ℕ → List ℕ → Operation
  resets cleans_up stops : Operation
  -- `setFlowControl` on a channel
  sets_flow_control : ℕ → ℕ → Operation

module _ (os : Os) where
  pub run : Operation → M Vendor (Unit {0})
  run enables = do ant_enable_radio os; pure tt
  run disables = do ant_disable_radio os; pure tt
  run (hard_resets supported) = do ant_radio_hard_reset os supported; pure tt
  run (sets_rx_callback f) = do set_ant_rx_callback f; pure tt
  run (sets_state_callback f) = do set_ant_state_callback f; pure tt
  run (transmits fuel len mesg) = do ant_tx_message os fuel len mesg; pure tt
  run stops = set_running false
  run (sets_flow_control i x) = on_hal (modify (set_flow_resp i x))
  run resets = do_reset os
  run cleans_up = clean_up os

  pub run_all : List Operation → M Vendor (Unit {0})
  run_all [] = pure tt
  run_all (o ∷ ops) = do run o; run_all ops
