-- ===== src/Chardev/Session/Told.antt =====
-- src/vfs: what the client has been told in a session, against the status.
use Prim.Native.String.{String}
use linux_ant_hal.Base.{
  ℕ, ◌≡◌, ◌≢◌, ◌⊎◌, pos, Bool, true, false, some, List, [], ◌∷◌, arith, All, is_neg, ◌||◌,
}
use linux_ant_hal.Types.{
  RadioStatus, eq_radio, radio_status_disabled, radio_status_disabling, radio_status_enabling,
  radio_status_enabled, radio_status_resetting, radio_status_reset,
}
use linux_ant_hal.Os.{
  M, Os, Trace, ◌>>◌, enabled_status_lock, lock, trylock, ioctl_reset, read_file, thread_create,
  told,
}
use linux_ant_hal.Os.Keeps.{Keeps, keeps_rules, Keeps-then}
use linux_ant_hal.Chardev.State.{Hal, channel_at}
use linux_ant_hal.Chardev.Status.{ant_radio_enabled_status, status_enabled_iff}
use linux_ant_hal.Chardev.Power.{
  ant_enable, ant_disable, enable_channels, enable_out, start_rx_thread,
}
use linux_ant_hal.Chardev.Power.Enable.{ant_enable_lem, enable_channels_lem}
use linux_ant_hal.Chardev.Power.Disable.{ant_disable_lem}
use linux_ant_hal.Chardev.Radio.{
  notify, ant_init, set_ant_rx_callback, set_ant_state_callback, power_up, ant_enable_radio,
  power_down, ant_disable_radio, ant_radio_hard_reset, do_reset,
}
use linux_ant_hal.Chardev.Radio.Enable.{notify_lem, told-notify}
use linux_ant_hal.Chardev.Tx.{ant_tx_message}
use linux_ant_hal.Chardev.Tx.Walk.{tx_message-Keeps}
use linux_ant_hal.Chardev.Thread.{clean_up}
use linux_ant_hal.Chardev.Session.{
  Operation, enables, disables, hard_resets, sets_rx_callback, sets_state_callback, transmits,
  resets, cleans_up, stops, sets_flow_control, run, run_all,
}

-- Whether the latest status that the client was told is that the radio is on.
abbrev pub last_on : List RadioStatus → Bool
last_on [] = false
last_on (s ∷ _) = eq_radio s radio_status_enabled || eq_radio s radio_status_reset

-- The client has this callback, and where the receive thread is to run, it was told that the radio is on.
abbrev pub IsKnown : ℕ → Hal → Trace → Type 0
IsKnown f h t = (h.state_callback ≡ some f) × ((h.run_thread ≡ true) → (last_on (told t) ≡ true))

-- It does not change which callback the client has.
abbrev pub keeps_callback : Operation → Bool
keeps_callback (sets_state_callback _) = false
keeps_callback _ = true

module _ (os : Os) (f : ℕ) where
  clean_up-IsKnown : Keeps (IsKnown f) (clean_up os)
  unfolding clean_up told
  clean_up-IsKnown = record {
    at = λ h t p.
        let t0 = trylock enabled_status_lock ∷ t in
        let h0 = record h { rx_thread = 0 } in
        let (_, h1, t1) = notify radio_status_disabling h0 t0 in
        let (_, h2, t2) = ant_disable os h1 t1 in
        let m = enabled_status_lock in
        ground (
          arith,
          notify_lem os radio_status_disabling h0 t0 m,
          ant_disable_lem os h1 t1,
          notify_lem os (ant_radio_enabled_status h2) h2 t2 m,
        );
  }

  disable_radio-IsKnown : Keeps (IsKnown f) (ant_disable_radio os)
  unfolding ant_disable_radio power_down told
  disable_radio-IsKnown = record {
    at = λ h t p.
        let t0 = lock enabled_status_lock ∷ t in
        let (_, h1, t1) = notify radio_status_disabling h t0 in
        let (_, h2, t2) = ant_disable os h1 t1 in
        let m = enabled_status_lock in
        ground (
          arith,
          notify_lem os radio_status_disabling h t0 m,
          ant_disable_lem os h1 t1,
          notify_lem os (ant_radio_enabled_status h2) h2 t2 m,
        );
  }

  enable_radio-IsKnown : Keeps (IsKnown f) (ant_enable_radio os)
  unfolding ant_enable_radio power_up told
  enable_radio-IsKnown = record {
    at = λ h t p.
        let t0 = lock enabled_status_lock ∷ t in
        let (_, h1, t1) = notify radio_status_enabling h t0 in
        let (_, h2, t2) = ant_enable os h1 t1 in
        let (_, h3, t3) = ant_disable os h2 t2 in
        let m = enabled_status_lock in
        ground (
          arith,
          notify_lem os radio_status_enabling h t0 m,
          ant_enable_lem os h1 t1,
          ant_disable_lem os h2 t2,
          notify_lem os radio_status_enabled h2 t2 m,
          told-notify radio_status_enabled f h2 t2,
          notify_lem os (ant_radio_enabled_status h3) h3 t3 m,
        );
  }

  module _ (handles : (u : Trace) → os.thread u ≢ 0)
      (starts : (u : Trace) → is_neg (os.ret u thread_create) ≡ false) where
    -- `ant_enable` without a receive thread: where it fails, the thread is told to stop.
    enable_result :
        (h : Hal) (t : Trace)
        → h.rx_thread ≡ 0
        → let (r, h', _) = ant_enable os h t in (r ≡ pos 0) ⊎ (h'.run_thread ≡ false)
    unfolding ant_enable enable_out start_rx_thread
    enable_result h t threadless =
        let t0 = read_file h.rx_shutdown_event_fd 8 ∷ t in
        let h0 = record h { run_thread = true } in
        let ((_, cs), h1, t1) = enable_channels os h.channels h0 t0 in
        ground
          (arith, enable_channels_lem os h.channels h0 t0, handles (thread_create ∷ t1), starts t1)

    hard_reset-IsKnown : (b : Bool) → Keeps (IsKnown f) (ant_radio_hard_reset os b)
    unfolding ant_radio_hard_reset told
    hard_reset-IsKnown false = search keeps_rules
    hard_reset-IsKnown true = record {
      at = λ h t p.
          let t0 = lock enabled_status_lock ∷ t in
          let h0 = record h { chip_resetting = true } in
          let (_, h1, t1) = notify radio_status_resetting h0 t0 in
          let t2 = ioctl_reset (channel_at h1 0).fd ∷ t1 in
          let (_, h3, t3) = ant_disable os h1 t2 in
          let (_, h4, t4) = ant_enable os h3 t3 in
          let m = enabled_status_lock in
          ground (
            arith,
            notify_lem os radio_status_resetting h0 t0 m,
            ant_disable_lem os h1 t2,
            ant_enable_lem os h3 t3,
            enable_result h3 t3,
            notify_lem os radio_status_reset h4 t4 m,
            told-notify radio_status_reset f h4 t4,
            notify_lem os radio_status_disabled h4 t4 m,
          );
    }

    do_reset-IsKnown : Keeps (IsKnown f) (do_reset os)
    unfolding do_reset told
    do_reset-IsKnown = record {
      at = λ h t p.
          let h0 = record h { chip_resetting = true } in
          let (_, h1, t1) = notify radio_status_resetting h0 t in
          let t2 = lock enabled_status_lock ∷ t1 in
          let h2 = record h1 { run_thread = false; rx_thread = 0 } in
          let (_, h3, t3) = ant_disable os h2 t2 in
          let (_, h4, t4) = ant_enable os h3 t3 in
          let h5 = record h4 { chip_resetting = false } in
          let m = enabled_status_lock in
          ground (
            arith,
            notify_lem os radio_status_resetting h0 t m,
            ant_disable_lem os h2 t2,
            ant_enable_lem os h3 t3,
            enable_result h3 t3,
            notify_lem os radio_status_reset h5 t4 m,
            told-notify radio_status_reset f h5 t4,
            notify_lem os radio_status_disabled h5 t4 m,
          );
    }

    tx_message-IsKnown :
        (fuel len : ℕ) (mesg : List ℕ) → Keeps (IsKnown f) (ant_tx_message os fuel len mesg)
    unfolding told
    tx_message-IsKnown =
        tx_message-Keeps os (IsKnown f) (λ path v. record { at = λ h t p. p }) (λ h t p. p)
          (λ h t p. p) (λ fd bytes h t p. p) (λ h t p. p) (λ h t p. p)

    run-IsKnown : (o : Operation) → keeps_callback o ≡ true → Keeps (IsKnown f) (run os o)
    unfolding run set_ant_rx_callback
    run-IsKnown enables k = search (keeps_rules, enable_radio-IsKnown) depth 10
    run-IsKnown disables k = search (keeps_rules, disable_radio-IsKnown) depth 10
    run-IsKnown (hard_resets b) k = search (keeps_rules, hard_reset-IsKnown) depth 10
    run-IsKnown (sets_rx_callback g) k = record { at = λ h t p. p }
    run-IsKnown (sets_state_callback g) k = ground arith
    run-IsKnown (transmits fuel len mesg) k = search (keeps_rules, tx_message-IsKnown) depth 10
    run-IsKnown resets k = do_reset-IsKnown
    run-IsKnown cleans_up k = clean_up-IsKnown
    run-IsKnown stops k = record { at = λ h t p. ground arith }
    run-IsKnown (sets_flow_control i v) k = record { at = λ h t p. p }

    run_all-IsKnown :
        (ops : List Operation)
        → All (λ o. keeps_callback o ≡ true) ops
        → Keeps (IsKnown f) (run_all os ops)
    unfolding run_all
    run_all-IsKnown [] ks = search keeps_rules
    run_all-IsKnown (o ∷ ops) ks =
        Keeps-then (run os o) (run_all os ops) (run-IsKnown o ks.0) (run_all-IsKnown ops ks.1)

-- `ant_init`, a state callback, and a sequence of operations
abbrev pub session : Os → List String → ℕ → List Operation → M Hal (Unit {0})
session os names f ops = ant_init os names >> set_ant_state_callback (some f) >> run_all os ops

-- The client sets its state callback after `ant_init` and keeps it, and `pthread_create` stores handles
-- other than 0 and returns no negative number. Then, after any sequence of operations of the client and
-- of the receive thread, a status ENABLED is known to the client: the latest status that it was told is
-- ENABLED or RESET.
pub session-told :
    (os : Os) (names : List String) (f : ℕ) (ops : List Operation) (h : Hal) (t : Trace)
    → ((u : Trace) → os.thread u ≢ 0)
    → ((u : Trace) → is_neg (os.ret u thread_create) ≡ false)
    → All (λ o. keeps_callback o ≡ true) ops
    → ant_radio_enabled_status (session os names f ops h t).1 ≡ radio_status_enabled
    → last_on (told (session os names f ops h t).2) ≡ true
unfolding ant_init set_ant_state_callback told
session-told os names f ops h t handles starts keeps on =
    let (_, h1, t1) = (ant_init os names >> set_ant_state_callback (some f)) h t in
    let (_, h2, t2) = run_all os ops h1 t1 in
    ground
      (arith, (run_all-IsKnown os f handles starts ops keeps).at h1 t1, (status_enabled_iff h2).0)
