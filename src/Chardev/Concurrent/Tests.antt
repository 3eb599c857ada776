-- ===== src/Chardev/Concurrent/Tests.antt =====
-- Chardev.Concurrent on concrete orders of steps: a client's thread switches on, and resets the
-- radio while the receive thread sees that reset.
use linux_ant_hal.Base.{[], ℕ, ◌≡◌, refl, ◌≢◌, inr, ◌↔◌, true, false, arith}
use linux_ant_hal.Os.{Os}
use linux_ant_hal.Chardev.Power.{
  ant_disable, ant_enable, enable_channels, ant_enable_channel, start_rx_thread, enable_out,
}
use linux_ant_hal.Chardev.Concurrent.Disable.{disable_refines}
use linux_ant_hal.Chardev.Concurrent.Enable.{enable_refines}
use linux_ant_hal.Chardev.Sample.{good_os, off, on}
use linux_ant_hal.Chardev.Status.{ant_radio_enabled_status, count_open}
use linux_ant_hal.Chardev.Concurrent.Moves.{
  enabling, unlocking, ended, absent, disabling, enable, disable, hard_reset, closing, end_reset,
  CallMove, EnableMove, DisableMove, RxMove,
}
use linux_ant_hal.Chardev.Concurrent.{
  update, System, Step, Steps, init, Reach, in_section, in_reset,
}
use linux_ant_hal.Chardev.Concurrent.Exclusion.{single_receiver}
use linux_ant_hal.Chardev.Concurrent.Progress.{CanReach}
use linux_ant_hal.Chardev.Concurrent.Deadlock.{join_returns_iff, call_can_deadlock}
use linux_ant_hal.Chardev.Concurrent.Unlock.{CanUnlock}
use linux_ant_hal.Chardev.Concurrent.Release.{lock_can_be_freed}
use linux_ant_hal.Types.{RadioStatus, radio_status_disabled, radio_status_enabled}

-- Nothing fails that could.
abbrev Never : Type 0
Never = ⊥

abbrev works : ¬ Never
works n = n

-- A state, and how it is reached.
record Run : Type 0 where
  last : System
  reach : Steps Never (init off) last

abbrev reached : (r : Run) → Reach Never r.last
reached r = (off, (refl, refl, refl), r.reach)

abbrev then : (r : Run) {s : System} → Step Never r.last s → Run
then r st = record { last = _; reach = Steps.later r.reach st }

disabled-ne-enabled :
    {status : RadioStatus} → status ≡ radio_status_disabled → status ≢ radio_status_enabled
disabled-ne-enabled e h = cc

enabled-ne-disabled :
    {status : RadioStatus} → status ≡ radio_status_enabled → status ≢ radio_status_disabled
enabled-ne-disabled e h = cc

abbrev created : Run
created = then (record { last = init off; reach = Steps.here }) Step.new_client

two-ne-zero : ◌≢◌ {A = ℕ} 2 0
two-ne-zero = omega arith

-- Thread 1 has switched the radio on, and thread 2 has begun its loop.
switched_on : Run
unfolding ant_radio_enabled_status count_open end_reset
switched_on =
    let called = then created (Step.call_move 1 (CallMove.call enable refl)) in
    let locked = then called (Step.call_move 1 (CallMove.lock enable refl refl)) in
    let tested = then locked (Step.call_move 1 (CallMove.to_enable (disabled-ne-enabled refl))) in
    let read = then tested (Step.enable_move 1 (EnableMove.read enable)) in
    let set = then read (Step.enable_move 1 (EnableMove.set enable)) in
    let opened =
      then set
        (Step.enable_move 1 (EnableMove.opened enable on.channels refl (refl, (refl, tt)))) in
    let started = then opened (Step.create 1 enable refl refl) in
    let checked = then started (Step.enable_move 1 (EnableMove.runs enable refl)) in
    let kept = then checked (Step.enable_move 1 (EnableMove.has_thread enable true two-ne-zero)) in
    let returned = then kept (Step.enable_move 1 (EnableMove.succeed enable)) in
    let unlocked = then returned (Step.call_move 1 (CallMove.unlock enable)) in
    then unlocked (Step.rx_move 2 (RxMove.go_on refl))

single_receiver_example : ◌≡◌ {A = ℕ} 2 2 × (switched_on.last.mem.hal.rx_thread ≡ 2)
unfolding end_reset switched_on
single_receiver_example = single_receiver works (reached switched_on) 2 2 refl refl

-- Thread 1 waits for thread 2, which polls.
waiting : Run
unfolding ant_radio_enabled_status count_open end_reset switched_on
waiting =
    let called = then switched_on (Step.call_move 1 (CallMove.call disable refl)) in
    let locked = then called (Step.call_move 1 (CallMove.lock disable refl refl)) in
    let tested = then locked (Step.call_move 1 (CallMove.to_disable (enabled-ne-disabled refl))) in
    let told = then tested (Step.disable_move 1 (DisableMove.stop disable (omega arith))) in
    then told (Step.disable_move 1 (DisableMove.signal disable))

join_returns_iff_example :
    CanReach Never waiting.last 1 (closing disable) ↔ (in_reset (waiting.last.pc 2) ≡ false)
unfolding end_reset waiting
join_returns_iff_example = join_returns_iff 1 disable works (reached waiting) refl

lock_can_be_freed_example : CanUnlock Never waiting.last
unfolding end_reset waiting
lock_can_be_freed_example = lock_can_be_freed works (reached waiting) refl

call_can_deadlock_example :
    (u : System) × Steps Never switched_on.last u
    × ((v : System) → Steps Never u v → (v.mem.owner ≡ 1) × (in_section (v.pc 1) ≡ true))
unfolding end_reset switched_on
call_can_deadlock_example =
    call_can_deadlock 1 hard_reset (inr refl) works (reached switched_on) refl refl refl

-- Thread 1 is about to disable, and thread 2 has ended.
abbrev ending : System
ending = record {
  mem = record { hal = record on { rx_thread = 2 }; owner = 1; counter = 0 };
  next = 3;
  pc = update (update (λ _. absent) 1 (disabling disable)) 2 ended;
}

disable_refines_example :
    (u : System) × Steps Never ending u
    × (u.pc 1 ≡ unlocking disable)
    × (u.mem.hal ≡ (ant_disable good_os ending.mem.hal []).1)
disable_refines_example =
    disable_refines good_os 1 disable [] refl (inr refl) (λ e. cc) (λ u k. refl)

abbrev beginning : System
beginning = record {
  mem = record { hal = off; owner = 1; counter = 0 };
  next = 2;
  pc = update (λ _. absent) 1 (enabling enable);
}

abbrev numbering_os : Os
numbering_os = record good_os { thread = λ t. 2 }

enable_refines_example :
    (u : System) × Steps Never beginning u
    × (u.pc 1 ≡ unlocking enable)
    × (u.mem.hal ≡ (ant_enable numbering_os off []).1)
unfolding end_reset ant_enable enable_channels ant_enable_channel start_rx_thread enable_out
enable_refines_example =
    enable_refines numbering_os 1 enable [] refl refl (omega arith) (λ u. refl) (λ u. refl)
      (λ u. refl)
