-- ===== src/Chardev/Concurrent/Leave.antt =====
-- The label `out` of `ant_enable` in Chardev.Concurrent: the steps of a thread from there on.
use linux_ant_hal.Base.{
  ℕ, ◌≡◌, ◌≢◌, inl, inr, Bool, true, false, arith, ◌==◌, if◌then◌else◌, Bool-cases,
}
use linux_ant_hal.Chardev.State.{Hal}
use linux_ant_hal.Chardev.Concurrent.Moves.{
  Pc, Task, leaving, unlocking, Shared, end_reset, not_enabled, EnableMove,
}
use linux_ant_hal.Chardev.Concurrent.{System, handle, update, Step, Steps}
use linux_ant_hal.Chardev.Concurrent.Progress.{Steps-trans}

module _ {WriteFails : Type 0} {s : System} (i : ℕ) {m : Shared} {p p' : Pc} (e : s.pc i ≡ p) where
  pub by_enable :
      EnableMove s.mem p m p' → Step WriteFails s (record s { mem = m; pc = update s.pc i p' })
  by_enable mv = Step.enable_move i (rw e mv)

abbrev pub finished : Task → Bool → Pc
finished t true = unlocking t
finished t false = not_enabled t

-- The label `out` of `ant_enable`, and the end of a reset.
abbrev pub left : Hal → Hal
left h = if h.rx_thread == 0 then record h { run_thread = false } else h

abbrev Leaves : Type 0 → System → ℕ → Task → Bool → Type 0
Leaves WriteFails s i t ok =
    (u : System) × Steps WriteFails s u
    × (u.pc i ≡ finished t ok)
    × (u.mem.hal ≡ end_reset t (left s.mem.hal))

module _ {WriteFails : Type 0} {s : System} (i : ℕ) (t : Task) where
  leave_thread : (ok : Bool) → s.pc i ≡ leaving t ok → handle s ≢ 0 → Leaves WriteFails s i t ok
  leave_thread true e h = (
    _,
    Steps.later (Steps.later Steps.here (by_enable i e (EnableMove.has_thread t true h)))
        (by_enable i (ground arith) (EnableMove.succeed t)),
    ground arith,
    ground arith,
  )
  leave_thread false e h = (
    _,
    Steps.later (Steps.later Steps.here (by_enable i e (EnableMove.has_thread t false h)))
        (by_enable i (ground arith) (EnableMove.give_up t)),
    ground arith,
    ground arith,
  )

  leave_none : (ok : Bool) → s.pc i ≡ leaving t ok → handle s ≡ 0 → Leaves WriteFails s i t ok
  leave_none true e h = (
    _,
    Steps.later
        (Steps.later (Steps.later Steps.here (by_enable i e (EnableMove.has_none t true h)))
          (by_enable i (ground arith) (EnableMove.clear t true)))
        (by_enable i (ground arith) (EnableMove.succeed t)),
    ground arith,
    ground arith,
  )
  leave_none false e h = (
    _,
    Steps.later
        (Steps.later (Steps.later Steps.here (by_enable i e (EnableMove.has_none t false h)))
          (by_enable i (ground arith) (EnableMove.clear t false)))
        (by_enable i (ground arith) (EnableMove.give_up t)),
    ground arith,
    ground arith,
  )

  leaves : (ok : Bool) → s.pc i ≡ leaving t ok → Leaves WriteFails s i t ok
  leaves ok e = elim (Bool-cases (handle s == 0)) [
    | inl gone ↦ leave_none ok e (ground arith)
    | inr here ↦ leave_thread ok e (ground arith)
  ]

-- A path to the label, and from there to the end.
pub leave_after :
    {WriteFails : Type 0} {s u : System} (i : ℕ) (t : Task) (ok : Bool)
    → Steps WriteFails s u
    → u.pc i ≡ leaving t ok
    → (v : System) × Steps WriteFails s v
      × (v.pc i ≡ finished t ok)
      × (v.mem.hal ≡ end_reset t (left u.mem.hal))
leave_after i t ok path e =
    let (v, rest, there, same) = leaves i t ok e in (v, Steps-trans path rest, there, same)
