-- ===== src/Chardev/Concurrent/Deadlock.antt =====
-- Chardev.Concurrent: a thread that holds `stEnabledStatusLock` and joins the receive thread, while
-- the receive thread is in `doReset` and waits for that lock.
use linux_ant_hal.Base.{ℕ, ◌≡◌, refl, ◌⊎◌, inl, inr, ◌↔◌, Bool, true, false, arith, Bool-cases}
use linux_ant_hal.Chardev.State.{Hal}
use linux_ant_hal.Chardev.Status.{ant_radio_enabled_status}
use linux_ant_hal.Chardev.Concurrent.Moves.{
  Task, disable, hard_reset, Pc, idle, testing, disabling, signalling, joining, closing, polling,
  Shared, CallMove, EnableMove, DisableMove, RxMove,
}
use linux_ant_hal.Chardev.Concurrent.{
  System, handle, update, Step, Steps, Reach, in_section, in_reset,
}
use linux_ant_hal.Chardev.Concurrent.Invariant.{Knows, Inv, Steps-Inv, Reach-Inv}
use linux_ant_hal.Chardev.Concurrent.Progress.{CanReach, Steps-trans, join_returns}

-- Before a join, with nothing in between that could avoid it. `ant_disable_radio` calls
-- `ant_disable` if the status is not DISABLED.
abbrev pub will_join : Hal → Pc → Bool
will_join h (testing disable) = h.chip_resetting
will_join h (testing hard_reset) = true
will_join h (disabling _) = true
will_join h (signalling _) = true
will_join h (joining _) = true
will_join h _ = false

pub record IsDeadlocked (i h : ℕ) (m : Shared) (pc : ℕ → Pc) : Type 0 where
  pub holds : m.owner ≡ i
  pub waits : will_join m.hal (pc i) ≡ true
  pub joined : m.hal.rx_thread ≡ h
  pub resets : in_reset (pc h) ≡ true

module _ {m : Shared} {next : ℕ} {pc : ℕ → Pc} (inv : Inv m next pc) {i h : ℕ} (j : ℕ) where
  open inv use {nobody, fresh, knows}

  CallMove-IsDeadlocked :
      {p p' : Pc} {m' : Shared}
      → CallMove j m p m' p'
      → pc j ≡ p
      → Knows m pc j p
      → IsDeadlocked i h m pc
      → IsDeadlocked i h m' (update pc j p')
  unfolding ant_radio_enabled_status
  CallMove-IsDeadlocked (CallMove.lock t c o) e k d = ground (arith, nobody)
  CallMove-IsDeadlocked (CallMove.call t c) e k d = ground (arith, nobody)
  CallMove-IsDeadlocked (CallMove.is_disabled n) e k d = ground (arith, nobody)
  CallMove-IsDeadlocked mv e k d = ground (arith, nobody)

  EnableMove-IsDeadlocked :
      {p p' : Pc} {m' : Shared}
      → EnableMove m p m' p'
      → pc j ≡ p
      → Knows m pc j p
      → IsDeadlocked i h m pc
      → IsDeadlocked i h m' (update pc j p')
  EnableMove-IsDeadlocked (EnableMove.not_read t) e k d = ground arith
  EnableMove-IsDeadlocked mv e k d = ground arith

  DisableMove-IsDeadlocked :
      {WriteFails : Type 0} {p p' : Pc} {m' : Shared}
      → ¬ WriteFails
      → DisableMove WriteFails m p m' p'
      → pc j ≡ p
      → Knows m pc j p
      → IsDeadlocked i h m pc
      → IsDeadlocked i h m' (update pc j p')
  DisableMove-IsDeadlocked works (DisableMove.not_signalled t f) e k d = absurd (works f)
  DisableMove-IsDeadlocked works (DisableMove.no_thread t n) e k d = ground (arith, nobody)
  DisableMove-IsDeadlocked works mv e k d = ground (arith, nobody)

  RxMove-IsDeadlocked :
      {p p' : Pc} {m' : Shared}
      → RxMove j m p m' p'
      → pc j ≡ p
      → Knows m pc j p
      → IsDeadlocked i h m pc
      → IsDeadlocked i h m' (update pc j p')
  RxMove-IsDeadlocked (RxMove.reset_lock o) e k d = ground (arith, nobody)
  RxMove-IsDeadlocked (RxMove.try_lock o) e k d = ground (arith, nobody)
  RxMove-IsDeadlocked mv e k d = ground (arith, nobody)

Step-IsDeadlocked :
    {WriteFails : Type 0} {s u : System} {i h : ℕ}
    → ¬ WriteFails
    → Step WriteFails s u
    → Inv s.mem s.next s.pc
    → IsDeadlocked i h s.mem s.pc
    → IsDeadlocked i h u.mem u.pc
Step-IsDeadlocked works (Step.call_move j mv) inv d =
    CallMove-IsDeadlocked inv j mv refl (inv.knows j) d
Step-IsDeadlocked works (Step.enable_move j mv) inv d =
    EnableMove-IsDeadlocked inv j mv refl (inv.knows j) d
Step-IsDeadlocked works (Step.disable_move j mv) inv d =
    DisableMove-IsDeadlocked inv j works mv refl (inv.knows j) d
Step-IsDeadlocked works (Step.rx_move j mv) inv d =
    RxMove-IsDeadlocked inv j mv refl (inv.knows j) d
Step-IsDeadlocked works (Step.create j t e n) inv d = ground (arith, inv.knows j, inv.nobody)
Step-IsDeadlocked works (Step.join j t e n) inv d = ground (arith, inv.knows j)
Step-IsDeadlocked {s} {i} {h} works Step.new_client inv d =
    ground (arith, inv.fresh i, inv.fresh h, inv.fresh s.next)

-- Where writes to the shutdown event succeed: once a thread that holds `stEnabledStatusLock` is
-- bound to join the receive thread while that is in `doReset` and has not got the lock, this is so
-- in every later state, whatever any thread does. Neither of the two returns, and no other
-- thread gets the lock.
pub deadlock_lasts :
    {WriteFails : Type 0} {s u : System} (i h : ℕ)
    → ¬ WriteFails
    → Reach WriteFails s
    → IsDeadlocked i h s.mem s.pc
    → Steps WriteFails s u
    → IsDeadlocked i h u.mem u.pc
deadlock_lasts i h works r d Steps.here = d
deadlock_lasts i h works r d (Steps.later q st) =
    let inv = Steps-Inv works q (Reach-Inv works r) in
    Step-IsDeadlocked works st inv (deadlock_lasts i h works r d q)

-- Where writes to the shutdown event succeed: a `pthread_join` in `ant_disable` can return if and
-- only if the receive thread that it waits for is not in `doReset`, before its lock.
pub join_returns_iff :
    {WriteFails : Type 0} {s : System} (i : ℕ) (t : Task)
    → ¬ WriteFails
    → Reach WriteFails s
    → s.pc i ≡ joining t
    → CanReach WriteFails s i (closing t) ↔ (in_reset (s.pc (handle s)) ≡ false)
join_returns_iff {s} i t works r e = (
  λ c. elim (Bool-cases (in_reset (s.pc (handle s)))) [
    | inl resets ↦
        let d =
          deadlock_lasts i (handle s) works r
            (record {
              holds = ground (arith, (Reach-Inv works r).knows i);
              waits = rw e refl;
              joined = refl;
              resets = resets;
            })
            c.1 in
        absurd (ground (arith, d.waits, c.2))
    | inr free ↦ free
  ],
  join_returns works i t (Reach-Inv works r) e,
)

module _ {WriteFails : Type 0} {s : System} (i : ℕ) where
  by_call :
      {m : Shared} {p p' : Pc}
      → s.pc i ≡ p
      → CallMove i s.mem p m p'
      → Step WriteFails s (record s { mem = m; pc = update s.pc i p' })
  by_call e mv = Step.call_move i (rw e mv)

  by_rx :
      {m : Shared} {p p' : Pc}
      → s.pc i ≡ p
      → RxMove i s.mem p m p'
      → Step WriteFails s (record s { mem = m; pc = update s.pc i p' })
  by_rx e mv = Step.rx_move i (rw e mv)

-- A call gets the lock, and then the receive thread enters `doReset`.
path_to_reset :
    {WriteFails : Type 0} {s : System} (i : ℕ) (t : Task)
    → (t ≡ disable) ⊎ (t ≡ hard_reset)
    → s.pc i ≡ idle
    → s.mem.owner ≡ 0
    → s.pc (handle s) ≡ polling
    → (u : System) × Steps WriteFails s u × IsDeadlocked i (handle s) u.mem u.pc
path_to_reset {s} i t c e o p = (
  _,
  Steps.later
      (Steps.later (Steps.later Steps.here (by_call i e (CallMove.call t (ground arith))))
        (by_call i (ground arith) (CallMove.lock t (ground arith) o)))
      (by_rx (handle s) (ground arith) RxMove.alarm),
  ground arith,
)

-- Where writes to the shutdown event succeed: from every state that can be reached in which nobody
-- holds `stEnabledStatusLock` and the receive thread polls, a thread that calls `ant_disable_radio`
-- or `ant_radio_hard_reset` can come to a deadlock: the receive thread enters `doReset` after
-- the call has got the lock. From then on the call has not returned in any state that follows, and
-- holds the lock.
pub call_can_deadlock :
    {WriteFails : Type 0} {s : System} (i : ℕ) (t : Task)
    → (t ≡ disable) ⊎ (t ≡ hard_reset)
    → ¬ WriteFails
    → Reach WriteFails s
    → s.pc i ≡ idle
    → s.mem.owner ≡ 0
    → s.pc (handle s) ≡ polling
    → (u : System) × Steps WriteFails s u
      × ((v : System) → Steps WriteFails u v → (v.mem.owner ≡ i) × (in_section (v.pc i) ≡ true))
call_can_deadlock {s} i t c works r e o p =
    let (u, q, d) = path_to_reset i t c e o p in
    (
      u,
      q,
      λ v w.
          let d' = deadlock_lasts i (handle s) works (r.0, r.1, Steps-trans r.2 q) d w in
          ground (arith, d'.holds, d'.waits),
    )
