-- ===== src/Chardev/Concurrent/Enable.antt =====
-- The steps of Chardev.Concurrent beside Chardev.Power: without interference, the steps of a thread
-- come to the state that `ant_enable` computes.
use linux_ant_hal.Base.{
  ℕ, ◌≡◌, refl, ◌≢◌, inl, inr, true, false, not, ◌&&◌, arith, ◌==◌, if◌then◌else◌, Bool-cases, List,
  [], ◌∷◌, length, ℤ, is_neg,
}
use linux_ant_hal.Os.{Os, Trace, Call, thread_create, read_file}
use linux_ant_hal.Chardev.State.{Channel, Hal}
use linux_ant_hal.Chardev.Power.{
  is_eagain, ant_enable_channel, enable_channels, start_rx_thread, enable_out, ant_enable,
}
use linux_ant_hal.Chardev.Power.Enable.{enable_channels_lem}
use linux_ant_hal.Chardev.Concurrent.Moves.{
  Pc, Task, enabling, setting, opening, starting, unlocking, absent, end_reset, not_enabled,
  EnableMove,
}
use linux_ant_hal.Chardev.Concurrent.{System, handle, update, Step, Steps}
use linux_ant_hal.Chardev.Concurrent.Leave.{by_enable, leave_after}

abbrev running : Hal → Hal
running h = record h { run_thread = true }

module _ (os : Os) where
  length-enable_channels :
      (cs : List Channel) (h : Hal) (t : Trace) → length (enable_channels os cs h t).0.1 ≡ length cs
  unfolding enable_channels ant_enable_channel
  length-enable_channels [] h t = refl
  length-enable_channels (c ∷ cs) h t =
      let (_, h', t') = ant_enable_channel os c h t in
      ground (arith, length-enable_channels cs h' t')

  -- What `ant_enable` asks first, and what it has then done with the channels.
  abbrev read_call : Hal → Call
  read_call h = read_file h.rx_shutdown_event_fd 8

  abbrev channels_after : Hal → Trace → (ℤ × List Channel) × Hal × Trace
  channels_after h tr = enable_channels os h.channels (running h) (read_call h ∷ tr)

  -- Where a thread comes to that is at the start of `ant_enable`, without interference.
  abbrev Enables : Type 0 → System → ℕ → Task → Trace → Type 0
  Enables WriteFails s i t tr =
      (u : System) × Steps WriteFails s u
      × (u.pc i ≡ (if is_neg (ant_enable os s.mem.hal tr).0 then not_enabled t else unlocking t))
      × (u.mem.hal ≡ end_reset t (ant_enable os s.mem.hal tr).1)

  module _ {WriteFails : Type 0} {s : System} (i : ℕ) (t : Task) (tr : Trace)
      (e : s.pc i ≡ enabling t) where
    enable_unread :
        (is_neg (os.ret tr (read_call s.mem.hal))
            && not (is_eagain (os.errno (read_call s.mem.hal ∷ tr))))
          ≡ true
        → Enables WriteFails s i t tr
    unfolding ant_enable enable_out
    enable_unread fails =
        let (v, path, there, same) =
          leave_after i t false (Steps.later Steps.here (by_enable i e (EnableMove.not_read t)))
            (ground arith) in
        (v, path, ground arith, ground arith)

    -- the path up to the loop that opens the channels
    to_opening : Steps WriteFails s (record s {
      mem = record s.mem { counter = 0; hal = running s.mem.hal };
      pc = update (update s.pc i (setting t)) i (opening t);
    })
    to_opening =
        Steps.later (Steps.later Steps.here (by_enable i e (EnableMove.read t)))
          (by_enable i (ground arith) (EnableMove.set t))

    module _
        (reads : (is_neg (os.ret tr (read_call s.mem.hal))
            && not (is_eagain (os.errno (read_call s.mem.hal ∷ tr))))
          ≡ false) where
      enable_unopened :
          is_neg (channels_after s.mem.hal tr).0.0 ≡ true → Enables WriteFails s i t tr
      unfolding ant_enable enable_out
      enable_unopened fails =
          let opened =
            enable_channels_lem os s.mem.hal.channels (running s.mem.hal)
              (read_call s.mem.hal ∷ tr) in
          let (v, path, there, same) =
            leave_after i t false
              (Steps.later to_opening (
                by_enable i (ground arith) (
                  EnableMove.not_opened t (channels_after s.mem.hal tr).0.1 (
                    length-enable_channels s.mem.hal.channels (running s.mem.hal)
                      (read_call s.mem.hal ∷ tr)))))
              (ground arith) in
          (v, path, ground (arith, opened), ground (arith, opened))

      module _ (opens : is_neg (channels_after s.mem.hal tr).0.0 ≡ false)
          (runs : (u : Trace) → os.keeps_running u ≡ true) where
        -- the path up to the test of the handle
        to_starting :
            (f : ℕ → Pc) × Steps WriteFails s (record s {
              mem = record s.mem {
                counter = 0;
                hal = record (running s.mem.hal) { channels = (channels_after s.mem.hal tr).0.1 };
              };
              pc = f;
            })
            × (f i ≡ starting t)
            × ((k : ℕ) → k ≢ i → f k ≡ s.pc k)
        to_starting =
            let opened =
              enable_channels_lem os s.mem.hal.channels (running s.mem.hal)
                (read_call s.mem.hal ∷ tr) in
            (
              _,
              Steps.later to_opening (
                  by_enable i (ground arith) (
                    EnableMove.opened t (channels_after s.mem.hal tr).0.1
                      (length-enable_channels s.mem.hal.channels (running s.mem.hal)
                        (read_call s.mem.hal ∷ tr))
                      (ground (arith, opened)))),
              ground arith,
              λ k d. ground arith,
            )

        enable_running : handle s ≢ 0 → Enables WriteFails s i t tr
        unfolding ant_enable enable_out start_rx_thread
        enable_running h =
            let opened =
              enable_channels_lem os s.mem.hal.channels (running s.mem.hal)
                (read_call s.mem.hal ∷ tr) in
            let (f, path, here, others) = to_starting in
            let (v, all, there, same) =
              leave_after i t true
                (Steps.later (Steps.later path (by_enable i here (EnableMove.is_running t h)))
                  (by_enable i (ground arith) (EnableMove.runs t refl)))
                (ground arith) in
            (v, all, ground (arith, opened), ground (arith, opened))

        enable_created :
            handle s ≡ 0
            → s.pc s.next ≡ absent
            → s.next ≢ 0
            → ((u : Trace) → is_neg (os.ret u thread_create) ≡ false)
            → ((u : Trace) → os.thread u ≡ s.next)
            → Enables WriteFails s i t tr
        unfolding ant_enable enable_out start_rx_thread
        enable_created h a p c n =
            let opened =
              enable_channels_lem os s.mem.hal.channels (running s.mem.hal)
                (read_call s.mem.hal ∷ tr) in
            let (f, path, here, others) = to_starting in
            let ended = thread_create ∷ (channels_after s.mem.hal tr).2 in
            let (v, all, there, same) =
              leave_after i t true
                (Steps.later (Steps.later path (Step.create i t here h))
                  (by_enable i (ground arith) (EnableMove.runs t refl)))
                (ground arith) in
            (
              v,
              all,
              ground (arith, opened, c (channels_after s.mem.hal tr).2, n ended, runs ended),
              ground (arith, opened, c (channels_after s.mem.hal tr).2, n ended, runs ended),
            )

    -- If `pthread_create` returns no negative number and stores the number of the new thread, which
    -- does not clear `ucRunThread` at once: the steps of a thread that is at the start of
    -- `ant_enable` can come to its end, failed or not, with the state that the function computes,
    -- but for `ucChipResetting`, which the caller clears after a reset.
    pub enable_refines :
        s.pc s.next ≡ absent
        → s.next ≢ 0
        → ((u : Trace) → is_neg (os.ret u thread_create) ≡ false)
        → ((u : Trace) → os.thread u ≡ s.next)
        → ((u : Trace) → os.keeps_running u ≡ true)
        → (u : System) × Steps WriteFails s u
          × (u.pc i
              ≡ (if is_neg (ant_enable os s.mem.hal tr).0 then not_enabled t else unlocking t))
          × (u.mem.hal ≡ end_reset t (ant_enable os s.mem.hal tr).1)
    enable_refines a p c n k =
        elim (Bool-cases (
          is_neg (os.ret tr (read_call s.mem.hal))
          && not (is_eagain (os.errno (read_call s.mem.hal ∷ tr))))) [
            | inl fails ↦ enable_unread fails
            | inr reads ↦ elim (Bool-cases (is_neg (channels_after s.mem.hal tr).0.0)) [
              | inl fails ↦ enable_unopened reads fails
              | inr opens ↦ elim (Bool-cases (handle s == 0)) [
                | inl gone ↦ enable_created reads opens k (ground arith) a p c n
                | inr left ↦ enable_running reads opens k (ground arith)
              ]
            ]
          ]
