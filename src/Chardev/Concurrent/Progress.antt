-- ===== src/Chardev/Concurrent/Progress.antt =====
-- Chardev.Concurrent: `ant_disable` can end its wait for the receive thread, and a task its hold of
-- `stEnabledStatusLock`, if the receive thread is not in `doReset`.
use linux_ant_hal.Base.{ℕ, ◌≡◌, refl, true, false, arith}
use linux_ant_hal.Chardev.Concurrent.Moves.{
  Task, Pc, joining, closing, looping, polling, trying, ended, Shared, RxMove,
}
use linux_ant_hal.Chardev.Concurrent.{System, handle, update, Step, Steps, in_reset}
use linux_ant_hal.Chardev.Concurrent.Invariant.{is_receiver, Inv, Step-Inv}

-- From `s` thread `i` can come to `p`.
abbrev pub CanReach : Type 0 → System → ℕ → Pc → Type 0
CanReach WriteFails s i p = (u : System) × Steps WriteFails s u × (u.pc i ≡ p)

pub Steps-trans :
    {WriteFails : Type 0} {s t u : System}
    → Steps WriteFails s t
    → Steps WriteFails t u
    → Steps WriteFails s u
Steps-trans r Steps.here = r
Steps-trans r (Steps.later q st) = Steps.later (Steps-trans r q) st

module _ {WriteFails : Type 0} (works : ¬ WriteFails) (i : ℕ) where
  -- The path of a step and one from the state that it leads to.
  path_after :
      {s t : System} {p : Pc}
      → Step WriteFails s t
      → CanReach WriteFails t i p
      → CanReach WriteFails s i p
  path_after st (u, r, e) = (u, Steps-trans (Steps.later Steps.here st) r, e)

  -- The same for a move of the receive thread that `stRxThread` is the handle of.
  after_rx :
      {s : System} {m : Shared} {p p' q : Pc}
      → Inv s.mem s.next s.pc
      → s.pc (handle s) ≡ p
      → RxMove (handle s) s.mem p m p'
      → (Inv m s.next (update s.pc (handle s) p')
          → CanReach WriteFails (record s { mem = m; pc = update s.pc (handle s) p' }) i q)
      → CanReach WriteFails s i q
  after_rx {s} inv e mv f =
      let st = Step.rx_move (handle s) (rw e mv) in path_after st (f (Step-Inv works st inv))

  from_ended :
      {s : System} (t : Task)
      → s.pc i ≡ joining t
      → s.pc (handle s) ≡ ended
      → CanReach WriteFails s i (closing t)
  from_ended t e h = (_, Steps.later Steps.here (Step.join i t e h), ground arith)

  from_trying :
      {s : System} (t : Task)
      → Inv s.mem s.next s.pc
      → s.pc i ≡ joining t
      → s.pc (handle s) ≡ trying
      → CanReach WriteFails s i (closing t)
  from_trying {s} t inv e h =
      after_rx inv h (RxMove.busy (ground (arith, inv.knows i, inv.nobody)))
        (λ _. from_ended t (ground arith) (ground arith))

  from_looping :
      {s : System} (t : Task)
      → Inv s.mem s.next s.pc
      → s.pc i ≡ joining t
      → s.pc (handle s) ≡ looping
      → CanReach WriteFails s i (closing t)
  from_looping {s} t inv e h =
      after_rx inv h (RxMove.leave (ground (arith, inv.knows i)))
        (λ next. from_trying t next (ground arith) (ground arith))

  from_polling :
      {s : System} (t : Task)
      → Inv s.mem s.next s.pc
      → s.pc i ≡ joining t
      → s.pc (handle s) ≡ polling
      → CanReach WriteFails s i (closing t)
  from_polling {s} t inv e h =
      after_rx inv h (RxMove.shutdown (ground (arith, inv.knows i)))
        (λ next. from_looping t next (ground arith) (ground arith))

  from_receiver :
      {s : System} (t : Task) (p : Pc)
      → Inv s.mem s.next s.pc
      → s.pc i ≡ joining t
      → s.pc (handle s) ≡ p
      → is_receiver p ≡ true
      → in_reset p ≡ false
      → CanReach WriteFails s i (closing t)
  from_receiver t ended inv e h l n = from_ended t e h
  from_receiver t trying inv e h l n = from_trying t inv e h
  from_receiver t looping inv e h l n = from_looping t inv e h
  from_receiver t polling inv e h l n = from_polling t inv e h
  from_receiver t p inv e h l n = absurd (ground arith)

  -- Where writes to the shutdown event succeed: a `pthread_join` in `ant_disable` can return if the
  -- thread that it waits for is not in `doReset`.
  pub join_returns :
      {s : System} (t : Task)
      → Inv s.mem s.next s.pc
      → s.pc i ≡ joining t
      → in_reset (s.pc (handle s)) ≡ false
      → CanReach WriteFails s i (closing t)
  join_returns {s} t inv e n =
      from_receiver t (s.pc (handle s)) inv e refl (ground (arith, inv.known, inv.knows i)) n
