-- ===== src/Chardev/Session.antt =====
-- src/vfs: any sequence of the client's operations and of what the receive thread does to the state
-- that they share.
pub mod Told
mod Tests
use Prim.Native.String.{String}
use linux_ant_hal.Base.{
  ℕ, zero, suc, ◌≡◌, ◌≢◌, refl, ◌⊎◌, Bool, true, false, Option, none, some, List, [], ◌∷◌, arith,
  map, set, get_or, All, is_neg, is_zero, if◌then◌else◌,
}
use linux_ant_hal.Types.{
  RadioStatus, AntStatus, radio_status_disabled, radio_status_disabling, radio_status_enabling,
  radio_status_enabled, radio_status_resetting, radio_status_reset,
}
use linux_ant_hal.Os.{
  Os, Errno, Trace, M, ◌>>=◌, ◌>>◌, pure, modify, enabled_status_lock, lock, trylock, ioctl_reset,
  read_file, thread_create, cond_timedwait,
}
use linux_ant_hal.Os.Keeps.{Keeps, keeps_rules, Keeps-then, Keeps-call, Keeps-tell, Keeps-modify}
use linux_ant_hal.Chardev.State.{Channel, Hal, channel_at, no_channel, set_flow_resp}
use linux_ant_hal.Chardev.Status.{
  ant_radio_enabled_status, is_open, IsOpen, IsClosed, status_enabled_iff, count_open-All,
}
use linux_ant_hal.Chardev.Power.{
  ant_enable, ant_disable, enable_channels, enable_out, start_rx_thread,
}
use linux_ant_hal.Chardev.Power.Enable.{ant_enable_lem, ant_enable_thread, enable_channels_lem}
use linux_ant_hal.Chardev.Power.Disable.{ant_disable_lem}
use linux_ant_hal.Chardev.Radio.{
  notify, with_rx_callback, ant_init, ant_channel_init, set_ant_rx_callback, set_ant_state_callback,
  power_up, ant_enable_radio, power_down, ant_disable_radio, ant_radio_hard_reset, do_reset,
}
use linux_ant_hal.Chardev.Radio.Enable.{notify_lem}
use linux_ant_hal.Chardev.Tx.{
  waited, wait_flow_go, written, wait_done, ant_tx_message_flowcontrol_wait,
  ant_tx_message_flowcontrol_none, ant_tx_message,
}
use linux_ant_hal.Chardev.Tx.Walk.{tx_message-Keeps}
use linux_ant_hal.Chardev.Thread.{clean_up}

-- An operation of the client, or what the receive thread does to the shared state.
pub data Operation : Type 0 where
  enables disables : Operation
  hard_resets : Bool → Operation
  sets_rx_callback sets_state_callback : Option ℕ → Operation
  -- the rounds of the wait, the length and the message
  transmits : ℕ → ℕ → List ℕ → Operation
  resets cleans_up stops : Operation
  -- `setFlowControl` on a channel
  sets_flow_control : ℕ → ℕ → Operation

-- No reset is under way, and a receive thread that is to run exists and has all channels open.
abbrev pub IsSettled : Hal → Trace → Type 0
IsSettled h t =
    (h.chip_resetting ≡ false)
    × ((h.run_thread ≡ false) ⊎ ((h.rx_thread ≢ 0) × All IsOpen h.channels))

module _ (os : Os) where
  pub run : Operation → M Hal (Unit {0})
  run enables = do ant_enable_radio os; pure tt
  run disables = do ant_disable_radio os; pure tt
  run (hard_resets supported) = do ant_radio_hard_reset os supported; pure tt
  run (sets_rx_callback f) = do set_ant_rx_callback f; pure tt
  run (sets_state_callback f) = do set_ant_state_callback f; pure tt
  run (transmits fuel len mesg) = do ant_tx_message os fuel len mesg; pure tt
  run resets = do_reset os
  run cleans_up = clean_up os
  run stops = modify (λ h. record h { run_thread = false })
  run (sets_flow_control i v) = modify (set_flow_resp i v)

  pub run_all : List Operation → M Hal (Unit {0})
  run_all [] = pure tt
  run_all (o ∷ ops) = do run o; run_all ops

set_flow_resp-IsOpen :
    (i v : ℕ) (cs : List Channel)
    → All IsOpen cs
    → All IsOpen (set cs i (record (get_or cs i no_channel) { flow_control_resp = v }))
set_flow_resp-IsOpen i v [] p = p
set_flow_resp-IsOpen zero v (c ∷ cs) p = p
set_flow_resp-IsOpen (suc i) v (c ∷ cs) p = (p.0, set_flow_resp-IsOpen i v cs p.1)

map_rx_callback-IsOpen :
    (f : Option ℕ) (cs : List Channel) → All IsOpen cs → All IsOpen (map (with_rx_callback f) cs)
map_rx_callback-IsOpen f [] p = p
map_rx_callback-IsOpen f (c ∷ cs) p = (p.0, map_rx_callback-IsOpen f cs p.1)

module _ (os : Os) where
  set_flow_resp-IsSettled : (i v : ℕ) → Keeps IsSettled (modify (set_flow_resp i v))
  set_flow_resp-IsSettled i v = record {
    at = λ h t p. ground (arith, set_flow_resp-IsOpen i v h.channels);
  }

  tx_message-IsSettled :
      (fuel len : ℕ) (mesg : List ℕ) → Keeps IsSettled (ant_tx_message os fuel len mesg)
  tx_message-IsSettled =
      tx_message-Keeps os IsSettled set_flow_resp-IsSettled (λ h t p. p) (λ h t p. p)
        (λ fd bytes h t p. p) (λ h t p. p) (λ h t p. p)

  notify-IsSettled : (s : RadioStatus) → Keeps IsSettled (notify s)
  notify-IsSettled s = record {
    at = λ h t p. ground (arith, notify_lem os s h t enabled_status_lock);
  }

  ant_disable-IsSettled : Keeps IsSettled (ant_disable os)
  ant_disable-IsSettled = record { at = λ h t p. ground (arith, ant_disable_lem os h t) }

  clean_up-IsSettled : Keeps IsSettled (clean_up os)
  unfolding clean_up
  clean_up-IsSettled = record {
    at = λ h t p.
        let t0 = trylock enabled_status_lock ∷ t in
        let h0 = record h { rx_thread = 0 } in
        let (_, h1, t1) = notify radio_status_disabling h0 t0 in
        let (_, h2, t2) = ant_disable os h1 t1 in
        let m = enabled_status_lock in
        ground (
          arith,
          notify_lem os radio_status_disabling h0 t0 m,
          ant_disable_lem os h1 t1,
          notify_lem os (ant_radio_enabled_status h2) h2 t2 m,
        );
  }

  disable_radio-IsSettled : Keeps IsSettled (ant_disable_radio os)
  unfolding ant_disable_radio power_down
  disable_radio-IsSettled =
      search (keeps_rules, Keeps-call, Keeps-tell, notify-IsSettled, ant_disable-IsSettled) depth 30

  module _ (handles : (u : Trace) → os.thread u ≢ 0) where
    -- `ant_enable` without a receive thread
    enable_again :
        (h : Hal) (t : Trace)
        → h.rx_thread ≡ 0
        → let (_, h', _) = ant_enable os h t in
          (h'.chip_resetting ≡ h.chip_resetting)
          × ((h'.run_thread ≡ false) ⊎ ((h'.rx_thread ≢ 0) × All IsOpen h'.channels))
    unfolding ant_enable enable_out start_rx_thread
    enable_again h t threadless =
        let t0 = read_file h.rx_shutdown_event_fd 8 ∷ t in
        let h0 = record h { run_thread = true } in
        let ((_, cs), h1, t1) = enable_channels os h.channels h0 t0 in
        ground (arith, enable_channels_lem os h.channels h0 t0, handles (thread_create ∷ t1))

    enable_radio-IsSettled : Keeps IsSettled (ant_enable_radio os)
    unfolding ant_enable_radio power_up
    enable_radio-IsSettled = record {
      at = λ h t p.
          let t0 = lock enabled_status_lock ∷ t in
          let (_, h1, t1) = notify radio_status_enabling h t0 in
          let (_, h2, t2) = ant_enable os h1 t1 in
          let (_, h3, t3) = ant_disable os h2 t2 in
          let m = enabled_status_lock in
          ground (
            arith,
            notify_lem os radio_status_enabling h t0 m,
            ant_enable_lem os h1 t1,
            ant_enable_thread os h1 t1 handles,
            ant_disable_lem os h2 t2,
            notify_lem os radio_status_enabled h2 t2 m,
            notify_lem os (ant_radio_enabled_status h3) h3 t3 m,
          );
    }

    hard_reset-IsSettled : (b : Bool) → Keeps IsSettled (ant_radio_hard_reset os b)
    unfolding ant_radio_hard_reset
    hard_reset-IsSettled false = search keeps_rules
    hard_reset-IsSettled true = record {
      at = λ h t p.
          let t0 = lock enabled_status_lock ∷ t in
          let h0 = record h { chip_resetting = true } in
          let (_, h1, t1) = notify radio_status_resetting h0 t0 in
          let t2 = ioctl_reset (channel_at h1 0).fd ∷ t1 in
          let (_, h3, t3) = ant_disable os h1 t2 in
          let (_, h4, t4) = ant_enable os h3 t3 in
          let m = enabled_status_lock in
          ground (
            arith,
            notify_lem os radio_status_resetting h0 t0 m,
            ant_disable_lem os h1 t2,
            enable_again h3 t3,
            notify_lem os radio_status_reset h4 t4 m,
            notify_lem os radio_status_disabled h4 t4 m,
          );
    }

    do_reset-IsSettled : Keeps IsSettled (do_reset os)
    unfolding do_reset
    do_reset-IsSettled = record {
      at = λ h t p.
          let h0 = record h { chip_resetting = true } in
          let (_, h1, t1) = notify radio_status_resetting h0 t in
          let t2 = lock enabled_status_lock ∷ t1 in
          let h2 = record h1 { run_thread = false; rx_thread = 0 } in
          let (_, h3, t3) = ant_disable os h2 t2 in
          let (_, h4, t4) = ant_enable os h3 t3 in
          let h5 = record h4 { chip_resetting = false } in
          let m = enabled_status_lock in
          ground (
            arith,
            notify_lem os radio_status_resetting h0 t m,
            ant_disable_lem os h2 t2,
            enable_again h3 t3,
            notify_lem os radio_status_reset h5 t4 m,
            notify_lem os radio_status_disabled h5 t4 m,
          );
    }

    run-IsSettled : (o : Operation) → Keeps IsSettled (run os o)
    unfolding run set_ant_rx_callback set_ant_state_callback
    run-IsSettled enables = search (keeps_rules, enable_radio-IsSettled) depth 10
    run-IsSettled disables = search (keeps_rules, disable_radio-IsSettled) depth 10
    run-IsSettled (hard_resets b) = search (keeps_rules, hard_reset-IsSettled) depth 10
    run-IsSettled (sets_rx_callback f) = record {
      at = λ h t p. ground (arith, map_rx_callback-IsOpen f h.channels);
    }
    run-IsSettled (sets_state_callback f) = record { at = λ h t p. p }
    run-IsSettled (transmits fuel len mesg) = search (keeps_rules, tx_message-IsSettled) depth 10
    run-IsSettled resets = do_reset-IsSettled
    run-IsSettled cleans_up = clean_up-IsSettled
    run-IsSettled stops = record { at = λ h t p. ground arith }
    run-IsSettled (sets_flow_control i v) = set_flow_resp-IsSettled i v

    run_all-IsSettled : (ops : List Operation) → Keeps IsSettled (run_all os ops)
    unfolding run_all
    run_all-IsSettled [] = search keeps_rules
    run_all-IsSettled (o ∷ ops) =
        Keeps-then (run os o) (run_all os ops) (run-IsSettled o) (run_all-IsSettled ops)

-- Where `pthread_create` stores handles other than 0: after `ant_init` and any sequence of operations of
-- the client and of the receive thread, whatever the system's calls return, the status is ENABLED,
-- DISABLED or DISABLING. No failure leaves it at ENABLING, RESETTING or UNKNOWN.
pub session_status :
    (os : Os) (names : List String) (ops : List Operation) (h : Hal) (t : Trace)
    → ((u : Trace) → os.thread u ≢ 0)
    → let (_, h', _) = (ant_init os names >> run_all os ops) h t in
      (ant_radio_enabled_status h' ≡ radio_status_enabled)
      ⊎ ((ant_radio_enabled_status h' ≡ radio_status_disabled)
          ⊎ (ant_radio_enabled_status h' ≡ radio_status_disabling))
unfolding ant_init ant_radio_enabled_status
session_status os names ops h t handles =
    let (_, h1, t1) = ant_init os names h t in
    let (_, h2, t2) = run_all os ops h1 t1 in
    ground (arith, (run_all-IsSettled os handles ops).at h1 t1, count_open-All h2.channels)
