-- ===== src/BtVendor/Session/Locks.antt =====
-- src/bt-vendor_vfs: the locks in a session.
use linux_ant_hal.Base.{ℕ, ◌≡◌, false, List, [], ◌∷◌, arith}
use linux_ant_hal.Os.{Os, Trace, Mutex, holds, eq_mutex, flow_control_lock}
use linux_ant_hal.Os.Keeps.{Keeps, keeps_rules, Keeps-then}
use linux_ant_hal.Chardev.Radio.{
  set_ant_rx_callback as hal_set_rx_callback, set_ant_state_callback as hal_set_state_callback,
}
use linux_ant_hal.BtVendor.State.{Vendor}
use linux_ant_hal.BtVendor.Radio.Locks.{
  IsFree, enable_radio-IsFree, disable_radio-IsFree, hard_reset-IsFree, do_reset-IsFree,
}
use linux_ant_hal.Chardev.Tx.Walk.{flowcontrol_wait-Keeps, flowcontrol_none-Keeps}
use linux_ant_hal.BtVendor.Tx.{
  ant_tx_message_flowcontrol_wait, ant_tx_message_flowcontrol_none, ant_tx_message,
}
use linux_ant_hal.BtVendor.Thread.Locks.{clean_up-IsFree}
use linux_ant_hal.BtVendor.Session.{
  Operation, enables, disables, hard_resets, sets_rx_callback, sets_state_callback, transmits,
  resets, cleans_up, stops, sets_flow_control, run, run_all,
}

module _ (os : Os) where
  module _ (m : Mutex) (other : eq_mutex flow_control_lock m ≡ false) where
    wait-IsFree :
        (fuel tx_path flow_path len : ℕ) (buffer : List ℕ)
        → Keeps (IsFree os m) (ant_tx_message_flowcontrol_wait os fuel tx_path flow_path len buffer)
    unfolding holds
    wait-IsFree fuel tx_path flow_path len buffer = record {
      at = λ v t p.
          (flowcontrol_wait-Keeps os (λ _ t. holds os m t ≡ false)
              (λ i x. record { at = λ h t p. p }) (λ h t p. ground arith) (λ h t p. ground arith)
              (λ fd bytes h t p. p) (λ h t p. p) (λ h t p. p) fuel tx_path flow_path len buffer).at
            v.hal t p;
    }

    none-IsFree :
        (tx_path len : ℕ) (buffer : List ℕ)
        → Keeps (IsFree os m) (ant_tx_message_flowcontrol_none os tx_path len buffer)
    unfolding holds
    none-IsFree tx_path len buffer = record {
      at = λ v t p.
          (flowcontrol_none-Keeps os (λ _ t. holds os m t ≡ false)
              (λ i x. record { at = λ h t p. p }) (λ h t p. ground arith) (λ h t p. ground arith)
              (λ fd bytes h t p. p) (λ h t p. p) (λ h t p. p) tx_path len buffer).at
            v.hal t p;
    }

    tx_message-IsFree :
        (fuel len : ℕ) (mesg : List ℕ) → Keeps (IsFree os m) (ant_tx_message os fuel len mesg)
    unfolding ant_tx_message
    tx_message-IsFree fuel len mesg = search (keeps_rules, wait-IsFree, none-IsFree) depth 20

    run-IsFree : (o : Operation) → Keeps (IsFree os m) (run os o)
    unfolding run hal_set_rx_callback hal_set_state_callback
    run-IsFree enables = search (keeps_rules, enable_radio-IsFree) depth 10
    run-IsFree disables = search (keeps_rules, disable_radio-IsFree) depth 10
    run-IsFree (hard_resets b) = search (keeps_rules, hard_reset-IsFree) depth 10
    run-IsFree (sets_rx_callback f) = record { at = λ v t p. p }
    run-IsFree (sets_state_callback f) = record { at = λ v t p. p }
    run-IsFree (transmits fuel len mesg) = search (keeps_rules, tx_message-IsFree) depth 10
    run-IsFree stops = record { at = λ v t p. p }
    run-IsFree (sets_flow_control i x) = record { at = λ v t p. p }
    run-IsFree resets = do_reset-IsFree os m
    run-IsFree cleans_up = clean_up-IsFree os m

    run_all-IsFree : (ops : List Operation) → Keeps (IsFree os m) (run_all os ops)
    unfolding run_all
    run_all-IsFree [] = search keeps_rules
    run_all-IsFree (o ∷ ops) =
        Keeps-then (run os o) (run_all os ops) (run-IsFree o) (run_all-IsFree ops)

-- Any sequence of operations by the client and the receive thread that starts with no mutex of a kind
-- held ends with none of that kind held, for every mutex but that of flow control, which a transmission
-- that has not returned holds.
pub session_releases :
    (os : Os) (m : Mutex) (ops : List Operation) (v : Vendor) (t : Trace)
    → eq_mutex flow_control_lock m ≡ false
    → holds os m t ≡ false
    → holds os m (run_all os ops v t).2 ≡ false
session_releases os m ops v t other free = (run_all-IsFree os m other ops).at v t free
