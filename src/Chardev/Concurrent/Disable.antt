-- ===== src/Chardev/Concurrent/Disable.antt =====
-- The steps of Chardev.Concurrent beside Chardev.Power: without interference, the steps of a thread
-- come to the state that `ant_disable` computes.
use linux_ant_hal.Base.{
  ℕ, ◌≡◌, refl, ◌⊎◌, inl, inr, true, false, arith, ◌==◌, Bool-cases, List, [], ◌∷◌, map, is_neg,
}
use linux_ant_hal.Os.{Os, Trace, Call, signal_eventfd, thread_join}
use linux_ant_hal.Chardev.State.{Channel, Hal}
use linux_ant_hal.Chardev.Power.{
  ant_disable_channel, disable_channels, close_channels, disable_out, ant_disable,
}
use linux_ant_hal.Chardev.Concurrent.Moves.{
  Pc, Task, disabling, ended, Shared, close_channel, disabled, DisableMove,
}
use linux_ant_hal.Chardev.Concurrent.{System, handle, update, Step, Steps}

abbrev stopped : Hal → Hal
stopped h = record h { run_thread = false }

abbrev signal_call : Hal → Call
signal_call h = signal_eventfd h.rx_shutdown_event_fd 1

module _ {WriteFails : Type 0} {s : System} (i : ℕ) {m : Shared} {p p' : Pc} (e : s.pc i ≡ p) where
  by_disable :
      DisableMove WriteFails s.mem p m p'
      → Step WriteFails s (record s { mem = m; pc = update s.pc i p' })
  by_disable mv = Step.disable_move i (rw e mv)

module _ (os : Os) where
  close_channel_lem :
      (c : Channel) (h : Hal) (t : Trace)
      → let (c', h', _) = ant_disable_channel os c h t in (c' ≡ close_channel c) × (h' ≡ h)
  unfolding ant_disable_channel
  close_channel_lem c h t = ground arith

  disable_channels-close :
      (cs : List Channel) (h : Hal) (t : Trace)
      → let (cs', h', _) = disable_channels os cs h t in (cs' ≡ map close_channel cs) × (h' ≡ h)
  unfolding disable_channels
  disable_channels-close [] h t = (refl, refl)
  disable_channels-close (c ∷ cs) h t =
      let (_, h', t') = ant_disable_channel os c h t in
      ground (arith, close_channel_lem c h t, disable_channels-close cs h' t')

  close_channels-close :
      (h : Hal) (t : Trace)
      → (close_channels os h t).1
        ≡ record h { channels = map close_channel h.channels; rx_thread = 0 }
  unfolding close_channels disable_out
  close_channels-close h t = ground (arith, disable_channels-close h.channels h t)

  module _ {WriteFails : Type 0} {s : System} (i : ℕ) (t : Task) (tr : Trace) where
    -- If the write to the shutdown event fails only where `WriteFails` says so, `pthread_join`
    -- returns no negative number, and the receive thread has ended if there is one: the steps of a
    -- thread that is at the start of `ant_disable` can come to its end with the state that the
    -- function computes.
    pub disable_refines :
        s.pc i ≡ disabling t
        → ((handle s ≡ 0) ⊎ (s.pc (handle s) ≡ ended))
        → (is_neg (os.ret tr (signal_call s.mem.hal)) ≡ true → WriteFails)
        → ((u : Trace) (k : ℕ) → is_neg (os.ret u (thread_join k)) ≡ false)
        → (u : System) × Steps WriteFails s u
          × (u.pc i ≡ disabled t)
          × (u.mem.hal ≡ (ant_disable os s.mem.hal tr).1)
    unfolding ant_disable disable_out
    disable_refines e d f j = elim (Bool-cases (handle s == 0)) [
      | inl gone ↦ (
        _,
        Steps.later
            (Steps.later Steps.here (by_disable i e (DisableMove.no_thread t (ground arith))))
            (by_disable i (ground arith) (DisableMove.close t)),
        ground arith,
        ground (arith, close_channels-close (stopped s.mem.hal) tr),
      )
      | inr left ↦ elim (Bool-cases (is_neg (os.ret tr (signal_call s.mem.hal)))) [
        | inl fails ↦ (
          _,
          Steps.later (Steps.later Steps.here (by_disable i e (DisableMove.stop t (ground arith))))
              (by_disable i (ground arith) (DisableMove.not_signalled t (f fails))),
          ground arith,
          ground arith,
        )
        | inr works ↦ (
          _,
          Steps.later
              (Steps.later
                (Steps.later
                  (Steps.later Steps.here (by_disable i e (DisableMove.stop t (ground arith))))
                  (by_disable i (ground arith) (DisableMove.signal t)))
                (Step.join i t (ground arith) (ground arith)))
              (by_disable i (ground arith) (DisableMove.close t)),
          ground arith,
          ground (
            arith,
            j (signal_call s.mem.hal ∷ tr) (handle s),
            close_channels-close (stopped s.mem.hal)
                (thread_join (handle s) ∷ signal_call s.mem.hal ∷ tr),
          ),
        )
      ]
    ]
