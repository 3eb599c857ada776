-- ===== src/BtVendor/Session/Power.antt =====
-- src/bt-vendor_vfs: the power of the chip in a session.
use Prim.Native.String.{String}
use linux_ant_hal.Base.{
  zero, suc, set, get_or, ℕ, ◌≡◌, refl, ◌⊎◌, Bool, true, false, Option, List, [], ◌∷◌, arith, map,
  All, length,
}
use linux_ant_hal.Types.{RadioStatus}
use linux_ant_hal.Os.{Os, Trace, ◌>>◌, modify}
use linux_ant_hal.Os.Keeps.{Keeps, keeps_rules, Keeps-then, Keeps-call, Keeps-tell, Keeps-modify}
use linux_ant_hal.Chardev.State.{Channel, Hal, no_channel, set_flow_resp}
use linux_ant_hal.Chardev.Status.{IsClosed}
use linux_ant_hal.Chardev.Radio.{
  notify as hal_notify, ant_channel_init, ant_init as hal_init,
  set_ant_rx_callback as hal_set_rx_callback, set_ant_state_callback as hal_set_state_callback,
  with_rx_callback,
}
use linux_ant_hal.BtVendor.State.{Vendor}
use linux_ant_hal.BtVendor.Power.Chip.{
  powered, IsPowered, ant_enable-IsPowered, ant_disable-IsPowered,
}
use linux_ant_hal.BtVendor.Radio.{
  notify, notify_status, ant_init, power_up, ant_enable_radio, ant_disable_radio,
  ant_radio_hard_reset, restart, do_reset,
}
use linux_ant_hal.Chardev.Tx.Walk.{flowcontrol_wait-Keeps, flowcontrol_none-Keeps}
use linux_ant_hal.BtVendor.Tx.{
  ant_tx_message_flowcontrol_wait, ant_tx_message_flowcontrol_none, ant_tx_message,
}
use linux_ant_hal.BtVendor.Thread.{clean_up}
use linux_ant_hal.BtVendor.Session.{
  Operation, enables, disables, hard_resets, sets_rx_callback, sets_state_callback, transmits,
  resets, cleans_up, stops, sets_flow_control, run, run_all,
}

module _ (os : Os) where
  notify-IsPowered : (s : RadioStatus) → Keeps (IsPowered os) (notify s)
  unfolding hal_notify powered
  notify-IsPowered s = record { at = λ v t p. ground arith }

  notify_status-IsPowered : Keeps (IsPowered os) notify_status
  notify_status-IsPowered = search (keeps_rules, notify-IsPowered) depth 10

  ruleset powered_rules = (
    keeps_rules, Keeps-call, Keeps-tell, Keeps-modify, notify-IsPowered, notify_status-IsPowered,
    ant_enable-IsPowered, ant_disable-IsPowered,
  )

  power_up-IsPowered : Keeps (IsPowered os) (power_up os)
  unfolding power_up
  power_up-IsPowered = search powered_rules depth 30

  enable_radio-IsPowered : Keeps (IsPowered os) (ant_enable_radio os)
  unfolding ant_enable_radio powered
  enable_radio-IsPowered = search (powered_rules, power_up-IsPowered) depth 30

  disable_radio-IsPowered : Keeps (IsPowered os) (ant_disable_radio os)
  unfolding ant_disable_radio powered
  disable_radio-IsPowered = search powered_rules depth 30

  hard_reset-IsPowered : (b : Bool) → Keeps (IsPowered os) (ant_radio_hard_reset os b)
  unfolding ant_radio_hard_reset powered
  hard_reset-IsPowered true = search powered_rules depth 30
  hard_reset-IsPowered false = search powered_rules depth 30

  restart-IsPowered : Keeps (IsPowered os) (restart os)
  unfolding restart powered
  restart-IsPowered = search powered_rules depth 30

  do_reset-IsPowered : Keeps (IsPowered os) (do_reset os)
  unfolding do_reset powered
  do_reset-IsPowered = search (powered_rules, restart-IsPowered) depth 30

  clean_up-IsPowered : Keeps (IsPowered os) (clean_up os)
  unfolding clean_up powered
  clean_up-IsPowered = search powered_rules depth 30

  map_rx_callback-IsClosed :
      (f : Option ℕ) (cs : List Channel)
      → (length (map (with_rx_callback f) cs) ≡ length cs)
        × (All IsClosed cs → All IsClosed (map (with_rx_callback f) cs))
  map_rx_callback-IsClosed f [] = (refl, λ p. p)
  map_rx_callback-IsClosed f (c ∷ cs) = ground (arith, map_rx_callback-IsClosed f cs)

  set_flow_resp-IsClosed :
      (i x : ℕ) (cs : List Channel)
      → let cs' = set cs i (record (get_or cs i no_channel) { flow_control_resp = x }) in
        (length cs' ≡ length cs) × (All IsClosed cs → All IsClosed cs')
  set_flow_resp-IsClosed i x [] = (refl, λ p. p)
  set_flow_resp-IsClosed zero x (c ∷ cs) = (refl, λ p. p)
  set_flow_resp-IsClosed (suc i) x (c ∷ cs) = ground (arith, set_flow_resp-IsClosed i x cs)

  -- what is kept of the state that src/vfs has too, with the vendor library loaded or not
  abbrev IsPoweredHal : Bool → Hal → Trace → Type 0
  IsPoweredHal b h t = IsPowered os record { hal = h; vendor_interface = b } t

  flows-IsPowered : (b : Bool) (i x : ℕ) → Keeps (IsPoweredHal b) (modify (set_flow_resp i x))
  flows-IsPowered b i x = record {
    at = λ h t p. ground (arith, set_flow_resp-IsClosed i x h.channels);
  }

  wait-IsPowered :
      (fuel tx_path flow_path len : ℕ) (buffer : List ℕ)
      → Keeps (IsPowered os) (ant_tx_message_flowcontrol_wait os fuel tx_path flow_path len buffer)
  unfolding powered
  wait-IsPowered fuel tx_path flow_path len buffer = record {
    at = λ v t p.
        (flowcontrol_wait-Keeps os (IsPoweredHal v.vendor_interface)
            (flows-IsPowered v.vendor_interface) (λ h t p. p) (λ h t p. p) (λ fd bytes h t p. p)
            (λ h t p. p) (λ h t p. p) fuel tx_path flow_path len buffer).at
          v.hal t p;
  }

  none-IsPowered :
      (tx_path len : ℕ) (buffer : List ℕ)
      → Keeps (IsPowered os) (ant_tx_message_flowcontrol_none os tx_path len buffer)
  unfolding powered
  none-IsPowered tx_path len buffer = record {
    at = λ v t p.
        (flowcontrol_none-Keeps os (IsPoweredHal v.vendor_interface)
            (flows-IsPowered v.vendor_interface) (λ h t p. p) (λ h t p. p) (λ fd bytes h t p. p)
            (λ h t p. p) (λ h t p. p) tx_path len buffer).at
          v.hal t p;
  }

  tx_message-IsPowered :
      (fuel len : ℕ) (mesg : List ℕ) → Keeps (IsPowered os) (ant_tx_message os fuel len mesg)
  unfolding ant_tx_message
  tx_message-IsPowered fuel len mesg = search (keeps_rules, wait-IsPowered, none-IsPowered) depth 20

  run-IsPowered : (o : Operation) → Keeps (IsPowered os) (run os o)
  unfolding run hal_set_rx_callback hal_set_state_callback
  run-IsPowered enables = search (keeps_rules, enable_radio-IsPowered) depth 10
  run-IsPowered disables = search (keeps_rules, disable_radio-IsPowered) depth 10
  run-IsPowered (hard_resets b) = search (keeps_rules, hard_reset-IsPowered) depth 10
  run-IsPowered (sets_rx_callback f) = record {
    at = λ v t p. ground (arith, map_rx_callback-IsClosed f v.hal.channels);
  }
  run-IsPowered (sets_state_callback f) = record { at = λ v t p. p }
  run-IsPowered (transmits fuel len mesg) = search (keeps_rules, tx_message-IsPowered) depth 10
  run-IsPowered stops = record { at = λ v t p. p }
  run-IsPowered (sets_flow_control i x) = record {
    at = λ v t p. (flows-IsPowered v.vendor_interface i x).at v.hal t p;
  }
  run-IsPowered resets = do_reset-IsPowered
  run-IsPowered cleans_up = clean_up-IsPowered

  pub run_all-IsPowered : (ops : List Operation) → Keeps (IsPowered os) (run_all os ops)
  unfolding run_all
  run_all-IsPowered [] = search keeps_rules
  run_all-IsPowered (o ∷ ops) =
      Keeps-then (run os o) (run_all os ops) (run-IsPowered o) (run_all-IsPowered ops)

-- After `ant_init` and any sequence of operations by the client and the receive thread, with whatever
-- results of the system's calls: there is one channel, and where it is open, the vendor library is
-- loaded and the chip has power.
pub session-IsPowered :
    (os : Os) (name : String) (ops : List Operation) (v : Vendor) (t : Trace)
    → let (_, v', t') = (ant_init os (name ∷ []) >> run_all os ops) v t in
      (length v'.hal.channels ≡ 1)
      × (All IsClosed v'.hal.channels ⊎ ((v'.vendor_interface ≡ true) × (powered os t' ≡ true)))
unfolding hal_init ant_channel_init
session-IsPowered os name ops v t =
    let (_, v1, t1) = ant_init os (name ∷ []) v t in
    (run_all-IsPowered os ops).at v1 t1 (ground arith)
