-- ===== src/Chardev/Concurrent/Release.antt =====
-- Chardev.Concurrent: every task can come to the end of its hold of `stEnabledStatusLock`.
use linux_ant_hal.Base.{ℕ, ◌≡◌, refl, inl, inr, Bool, true, false, arith, ◌==◌, Bool-cases}
use linux_ant_hal.Types.{RadioStatus, radio_status_disabled, radio_status_enabled}
use linux_ant_hal.Chardev.Status.{ant_radio_enabled_status}
use linux_ant_hal.Chardev.Concurrent.Moves.{
  Task, enable, disable, hard_reset, clean_up, reset, Pc, absent, testing, disabling, signalling,
  joining, closing, enabling, setting, opening, starting, checking, leaving, clearing, returning,
  unlocking, end_reset, not_enabled, CallMove, EnableMove,
}
use linux_ant_hal.Chardev.Concurrent.{System, handle, Step, Steps, Reach, in_section, in_reset}
use linux_ant_hal.Chardev.Concurrent.Invariant.{Inv, Reach-Inv}
use linux_ant_hal.Chardev.Concurrent.Unlock.{
  CanUnlock, after_call, after_enable, path_after, from_unlocking, from_leaving, from_disabling,
  from_signalling, from_joining, from_closing,
}

RadioStatus-discrete : Discrete RadioStatus
RadioStatus-discrete = hlevel

module _ {WriteFails : Type 0} (works : ¬ WriteFails) (i : ℕ) where
  -- after an `ant_enable` that fails
  from_not_enabled :
      {s : System} (t : Task)
      → Inv s.mem s.next s.pc
      → s.pc i ≡ not_enabled t
      → in_reset (s.pc (handle s)) ≡ false
      → CanUnlock WriteFails s
  from_not_enabled enable inv e n = from_disabling works i enable inv e n
  from_not_enabled t inv e n = from_unlocking works i inv t e

  from_returning :
      {s : System} (t : Task) (ok : Bool)
      → Inv s.mem s.next s.pc
      → s.pc i ≡ returning t ok
      → in_reset (s.pc (handle s)) ≡ false
      → CanUnlock WriteFails s
  unfolding end_reset
  from_returning t true inv e n =
      after_enable works i inv e (EnableMove.succeed t)
        (λ next. from_unlocking works i next t (ground arith))
  from_returning t false inv e n =
      after_enable works i inv e (EnableMove.give_up t)
        (λ next. from_not_enabled t next (ground arith) (ground arith))

  from_leaving_any :
      {s : System} (t : Task) (ok : Bool)
      → Inv s.mem s.next s.pc
      → s.pc i ≡ leaving t ok
      → in_reset (s.pc (handle s)) ≡ false
      → CanUnlock WriteFails s
  from_leaving_any t ok inv e n =
      from_leaving works i t ok inv e n (λ u done here free. from_returning t ok done here free)

  from_clearing :
      {s : System} (t : Task) (ok : Bool)
      → Inv s.mem s.next s.pc
      → s.pc i ≡ clearing t ok
      → in_reset (s.pc (handle s)) ≡ false
      → CanUnlock WriteFails s
  from_clearing t ok inv e n =
      after_enable works i inv e (EnableMove.clear t ok)
        (λ next. from_returning t ok next (ground arith) (ground arith))

  from_enabling :
      {s : System} (t : Task)
      → Inv s.mem s.next s.pc
      → s.pc i ≡ enabling t
      → in_reset (s.pc (handle s)) ≡ false
      → CanUnlock WriteFails s
  from_enabling t inv e n =
      after_enable works i inv e (EnableMove.not_read t)
        (λ next. from_leaving_any t false next (ground arith) (ground arith))

  from_opening :
      {s : System} (t : Task)
      → Inv s.mem s.next s.pc
      → s.pc i ≡ opening t
      → in_reset (s.pc (handle s)) ≡ false
      → CanUnlock WriteFails s
  from_opening {s} t inv e n =
      after_enable works i inv e (EnableMove.not_opened t s.mem.hal.channels refl)
        (λ next. from_leaving_any t false next (ground arith) (ground arith))

  from_setting :
      {s : System} (t : Task)
      → Inv s.mem s.next s.pc
      → s.pc i ≡ setting t
      → in_reset (s.pc (handle s)) ≡ false
      → CanUnlock WriteFails s
  from_setting t inv e n =
      after_enable works i inv e (EnableMove.set t)
        (λ next. from_opening t next (ground arith) (ground arith))

  from_checking :
      {s : System} (t : Task)
      → Inv s.mem s.next s.pc
      → s.pc i ≡ checking t
      → in_reset (s.pc (handle s)) ≡ false
      → CanUnlock WriteFails s
  from_checking {s} t inv e n = elim (Bool-cases s.mem.hal.run_thread) [
    | inl run ↦
        after_enable works i inv e (EnableMove.runs t run)
          (λ next. from_leaving_any t true next (ground arith) (ground arith))
    | inr stopped ↦
        after_enable works i inv e (EnableMove.has_crashed t stopped)
          (λ next. from_leaving_any t false next (ground arith) (ground arith))
  ]

  from_starting :
      {s : System} (t : Task)
      → Inv s.mem s.next s.pc
      → s.pc i ≡ starting t
      → in_reset (s.pc (handle s)) ≡ false
      → CanUnlock WriteFails s
  from_starting {s} t inv e n = elim (Bool-cases (handle s == 0)) [
    | inl gone ↦
        path_after works i inv (Step.create i t e (ground arith))
          (λ next. from_checking t next (ground (arith, inv.fresh i)) (ground arith))
    | inr left ↦
        after_enable works i inv e (EnableMove.is_running t (ground arith))
          (λ next. from_checking t next (ground arith) (ground arith))
  ]

  from_testing :
      {s : System} (t : Task)
      → Inv s.mem s.next s.pc
      → s.pc i ≡ testing t
      → in_reset (s.pc (handle s)) ≡ false
      → CanUnlock WriteFails s
  from_testing hard_reset inv e n =
      after_call works i inv e CallMove.to_reset
        (λ next. from_disabling works i hard_reset next (ground arith) (ground arith))
  from_testing {s} enable inv e n =
      elim (RadioStatus-discrete (ant_radio_enabled_status s.mem.hal) radio_status_enabled) [
        | yes h ↦
            after_call works i inv e (CallMove.is_enabled h)
              (λ next. from_unlocking works i next enable (ground arith))
        | no h ↦
            after_call works i inv e (CallMove.to_enable h)
              (λ next. from_enabling enable next (ground arith) (ground arith))
      ]
  from_testing {s} disable inv e n =
      elim (RadioStatus-discrete (ant_radio_enabled_status s.mem.hal) radio_status_disabled) [
        | yes h ↦
            after_call works i inv e (CallMove.is_disabled h)
              (λ next. from_unlocking works i next disable (ground arith))
        | no h ↦
            after_call works i inv e (CallMove.to_disable h)
              (λ next. from_disabling works i disable next (ground arith) (ground arith))
      ]
  from_testing clean_up inv e n = absurd (ground (arith, inv.knows i))
  from_testing reset inv e n = absurd (ground (arith, inv.knows i))

  from_section :
      {s : System} (p : Pc)
      → Inv s.mem s.next s.pc
      → s.pc i ≡ p
      → in_section p ≡ true
      → in_reset (s.pc (handle s)) ≡ false
      → CanUnlock WriteFails s
  from_section (testing t) inv e h n = from_testing t inv e n
  from_section (disabling t) inv e h n = from_disabling works i t inv e n
  from_section (signalling t) inv e h n = from_signalling works i t inv e n
  from_section (joining t) inv e h n = from_joining works i t inv e n
  from_section (closing t) inv e h n = from_closing works i t inv e
  from_section (enabling t) inv e h n = from_enabling t inv e n
  from_section (setting t) inv e h n = from_setting t inv e n
  from_section (opening t) inv e h n = from_opening t inv e n
  from_section (starting t) inv e h n = from_starting t inv e n
  from_section (checking t) inv e h n = from_checking t inv e n
  from_section (leaving t ok) inv e h n = from_leaving_any t ok inv e n
  from_section (clearing t ok) inv e h n = from_clearing t ok inv e n
  from_section (returning t ok) inv e h n = from_returning t ok inv e n
  from_section (unlocking t) inv e h n = from_unlocking works i inv t e
  from_section absent inv e h n = absurd (ground arith)
  from_section p inv e h n = absurd (ground arith)

-- Where writes to the shutdown event succeed: from every state that can be reached in which the
-- receive thread is not in `doReset`, before its lock, a state can be reached in which nobody holds
-- `stEnabledStatusLock`. So there is no deadlock but with a receive thread in `doReset`.
pub lock_can_be_freed :
    {WriteFails : Type 0} {s : System}
    → ¬ WriteFails
    → Reach WriteFails s
    → in_reset (s.pc (handle s)) ≡ false
    → CanUnlock WriteFails s
lock_can_be_freed {s} works r n = elim (Bool-cases (s.mem.owner == 0)) [
  | inl free ↦ (s, Steps.here, ground arith)
  | inr held ↦
      let inv = Reach-Inv works r in
      from_section works s.mem.owner (s.pc s.mem.owner) inv refl (ground (arith, inv.owned)) n
]
