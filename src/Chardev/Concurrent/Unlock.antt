-- ===== src/Chardev/Concurrent/Unlock.antt =====
-- Chardev.Concurrent: a thread in `ant_disable`, or in a reset after it, can come to the end of its hold of
-- `stEnabledStatusLock`.
use linux_ant_hal.Base.{ℕ, ◌≡◌, refl, inl, inr, Bool, false, arith, ◌==◌, Bool-cases}
use linux_ant_hal.Chardev.Concurrent.Moves.{
  Task, enable, disable, hard_reset, clean_up, reset, Pc, disabling, signalling, joining, closing,
  enabling, leaving, returning, unlocking, Shared, not_enabled, CallMove, EnableMove, DisableMove,
}
use linux_ant_hal.Chardev.Concurrent.{System, handle, update, Step, Steps, in_reset}
use linux_ant_hal.Chardev.Concurrent.Invariant.{Inv, Step-Inv, Steps-Inv}
use linux_ant_hal.Chardev.Concurrent.Progress.{Steps-trans, join_returns}

abbrev pub CanUnlock : Type 0 → System → Type 0
CanUnlock WriteFails s = (u : System) × Steps WriteFails s u × (u.mem.owner ≡ 0)

module _ {WriteFails : Type 0} (works : ¬ WriteFails) (i : ℕ) where
  -- The path of a step and one from the state that it leads to.
  pub path_after :
      {s u : System}
      → Inv s.mem s.next s.pc
      → Step WriteFails s u
      → (Inv u.mem u.next u.pc → CanUnlock WriteFails u)
      → CanUnlock WriteFails s
  path_after inv st f =
      let (v, r, e) = f (Step-Inv works st inv) in (v, Steps-trans (Steps.later Steps.here st) r, e)

  module _ {s : System} (inv : Inv s.mem s.next s.pc) where
    pub after_call :
        {m : Shared} {p p' : Pc}
        → s.pc i ≡ p
        → CallMove i s.mem p m p'
        → (Inv m s.next (update s.pc i p')
            → CanUnlock WriteFails (record s { mem = m; pc = update s.pc i p' }))
        → CanUnlock WriteFails s
    after_call e mv = path_after inv (Step.call_move i (rw e mv))

    pub after_enable :
        {m : Shared} {p p' : Pc}
        → s.pc i ≡ p
        → EnableMove s.mem p m p'
        → (Inv m s.next (update s.pc i p')
            → CanUnlock WriteFails (record s { mem = m; pc = update s.pc i p' }))
        → CanUnlock WriteFails s
    after_enable e mv = path_after inv (Step.enable_move i (rw e mv))

    after_disable :
        {m : Shared} {p p' : Pc}
        → s.pc i ≡ p
        → DisableMove WriteFails s.mem p m p'
        → (Inv m s.next (update s.pc i p')
            → CanUnlock WriteFails (record s { mem = m; pc = update s.pc i p' }))
        → CanUnlock WriteFails s
    after_disable e mv = path_after inv (Step.disable_move i (rw e mv))

    pub from_unlocking : (t : Task) → s.pc i ≡ unlocking t → CanUnlock WriteFails s
    from_unlocking t e = after_call e (CallMove.unlock t) (λ _. (_, Steps.here, refl))

  -- the label `out` of `ant_enable`, which touches neither the handle nor the receive thread
  pub from_leaving :
      {s : System} (t : Task) (ok : Bool)
      → Inv s.mem s.next s.pc
      → s.pc i ≡ leaving t ok
      → in_reset (s.pc (handle s)) ≡ false
      → ((u : System)
          → Inv u.mem u.next u.pc
          → u.pc i ≡ returning t ok
          → in_reset (u.pc (handle u)) ≡ false
          → CanUnlock WriteFails u)
      → CanUnlock WriteFails s
  from_leaving {s} t ok inv e n rest = elim (Bool-cases (handle s == 0)) [
    | inl gone ↦ after_enable inv e (EnableMove.has_none t ok (ground arith)) (λ next.
        after_enable next (ground arith) (EnableMove.clear t ok)
          (λ last. rest _ last (ground arith) (ground (arith, next.nobody))))
    | inr left ↦
        after_enable inv e (EnableMove.has_thread t ok (ground arith))
          (λ next. rest _ next (ground arith) (ground arith))
  ]

  from_resetting :
      {s : System} (t : Task)
      → Inv s.mem s.next s.pc
      → not_enabled t ≡ unlocking t
      → s.pc i ≡ enabling t
      → in_reset (s.pc (handle s)) ≡ false
      → CanUnlock WriteFails s
  from_resetting t inv n e h = after_enable inv e (EnableMove.not_read t) (λ next.
      from_leaving t false next (ground arith) (ground arith) (λ u done here free.
        after_enable done here (EnableMove.give_up t)
          (λ last. from_unlocking last t (ground arith))))

  pub from_closing :
      {s : System} (t : Task) → Inv s.mem s.next s.pc → s.pc i ≡ closing t → CanUnlock WriteFails s
  from_closing hard_reset inv e =
      after_disable inv e (DisableMove.close hard_reset)
        (λ next. from_resetting hard_reset next refl (ground arith) (ground (arith, next.nobody)))
  from_closing reset inv e =
      after_disable inv e (DisableMove.close reset)
        (λ next. from_resetting reset next refl (ground arith) (ground (arith, next.nobody)))
  from_closing enable inv e =
      after_disable inv e (DisableMove.close enable)
        (λ next. from_unlocking next enable (ground arith))
  from_closing disable inv e =
      after_disable inv e (DisableMove.close disable)
        (λ next. from_unlocking next disable (ground arith))
  from_closing clean_up inv e =
      after_disable inv e (DisableMove.close clean_up)
        (λ next. from_unlocking next clean_up (ground arith))

  pub from_joining :
      {s : System} (t : Task)
      → Inv s.mem s.next s.pc
      → s.pc i ≡ joining t
      → in_reset (s.pc (handle s)) ≡ false
      → CanUnlock WriteFails s
  from_joining t inv e n =
      let (u, r, c) = join_returns works i t inv e n in
      let (v, q, o) = from_closing t (Steps-Inv works r inv) c in (v, Steps-trans r q, o)

  pub from_signalling :
      {s : System} (t : Task)
      → Inv s.mem s.next s.pc
      → s.pc i ≡ signalling t
      → in_reset (s.pc (handle s)) ≡ false
      → CanUnlock WriteFails s
  from_signalling t inv e n =
      after_disable inv e (DisableMove.signal t)
        (λ next. from_joining t next (ground arith) (ground arith))

  pub from_disabling :
      {s : System} (t : Task)
      → Inv s.mem s.next s.pc
      → s.pc i ≡ disabling t
      → in_reset (s.pc (handle s)) ≡ false
      → CanUnlock WriteFails s
  from_disabling {s} t inv e n = elim (Bool-cases (handle s == 0)) [
    | inl gone ↦
        after_disable inv e (DisableMove.no_thread t (ground arith))
          (λ next. from_closing t next (ground arith))
    | inr left ↦
        after_disable inv e (DisableMove.stop t (ground arith))
          (λ next. from_signalling t next (ground arith) (ground arith))
  ]
