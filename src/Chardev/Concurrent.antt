-- ===== src/Chardev/Concurrent.antt =====
-- src/vfs/ant_native_chardev.c and src/vfs/ant_rx_chardev.c: the client's threads and the receive
-- threads, interleaved between their accesses of the state that they share.
--
-- A thread is a number from 1, which is also its `pthread_t`. A step reads or sets one flag, locks or
-- unlocks `stEnabledStatusLock`, joins a thread, or calls the system. Some accesses are one step with
-- the one before: the test of the handle in `ant_disable`, and the clearing of the handle after the loop
-- that closes the channels and after a lock is got, since only who has the lock uses it; and the
-- clearing of `ucRunThread` after the read of the shutdown event in the receive thread. The status is
-- computed in one step. The locks and `pthread_create` do not fail, and callbacks do not call the
-- library.
pub mod Moves
pub mod Invariant
pub mod Exclusion
pub mod Disable
pub mod Leave
pub mod Enable
pub mod Progress
pub mod Unlock
pub mod Release
pub mod Deadlock
pub mod Tests
use linux_ant_hal.Base.{ℕ, suc, ◌≡◌, Bool, true, false, ◌==◌, if◌then◌else◌}
use linux_ant_hal.Chardev.State.{Hal}
use linux_ant_hal.Chardev.Concurrent.Moves.{
  CallMove, DisableMove, EnableMove, Pc, RxMove, Shared, Task, absent, checking, clearing, closing,
  disabling, enabling, ended, failing, idle, joining, leaving, locking, looping, opening, polling,
  reset, returning, set_hal, setting, signalling, starting, testing, trying, unlocking,
}

pub record System : Type 0 where
  pub mem : Shared
  pub next : ℕ  -- the number of the thread to be created next
  pub pc : ℕ → Pc

abbrev pub handle : System → ℕ
handle s = s.mem.hal.rx_thread

abbrev pub update : (ℕ → Pc) → ℕ → Pc → ℕ → Pc
update f i p j = if i == j then p else f j

-- A step of one thread. `pthread_create` starts a receive thread at the head of its loop, and
-- `pthread_join` returns when the thread has ended.
pub data Step (WriteFails : Type 0) (s : System) : System → Type 0 where
  call_move :
      (i : ℕ) {m : Shared} {p : Pc}
      → CallMove i s.mem (s.pc i) m p
      → Step WriteFails s (record s { mem = m; pc = update s.pc i p })
  enable_move :
      (i : ℕ) {m : Shared} {p : Pc}
      → EnableMove s.mem (s.pc i) m p
      → Step WriteFails s (record s { mem = m; pc = update s.pc i p })
  disable_move :
      (i : ℕ) {m : Shared} {p : Pc}
      → DisableMove WriteFails s.mem (s.pc i) m p
      → Step WriteFails s (record s { mem = m; pc = update s.pc i p })
  rx_move :
      (i : ℕ) {m : Shared} {p : Pc}
      → RxMove i s.mem (s.pc i) m p
      → Step WriteFails s (record s { mem = m; pc = update s.pc i p })
  create :
      (i : ℕ) (t : Task)
      → s.pc i ≡ starting t
      → handle s ≡ 0
      → Step WriteFails s (record {
        mem = set_hal s.mem (record s.mem.hal { rx_thread = s.next });
        next = suc s.next;
        pc = update (update s.pc i (checking t)) s.next looping;
      })
  join :
      (i : ℕ) (t : Task)
      → s.pc i ≡ joining t
      → s.pc (handle s) ≡ ended
      → Step WriteFails s (record s { pc = update s.pc i (closing t) })
  new_client : Step WriteFails s (record s { next = suc s.next; pc = update s.pc s.next idle })

pub data Steps (WriteFails : Type 0) (s : System) : System → Type 0 where
  here : Steps WriteFails s s
  later : {t u : System} → Steps WriteFails s t → Step WriteFails t u → Steps WriteFails s u

-- after `ant_init`: no receive thread, and nothing under way
abbrev pub IsInit : Hal → Type 0
IsInit h = (h.rx_thread ≡ 0) × (h.run_thread ≡ false) × (h.chip_resetting ≡ false)

abbrev pub init : Hal → System
init h = record { mem = record { hal = h; owner = 0; counter = 0 }; next = 1; pc = λ _. absent }

-- What any number of client's threads and the receive threads can come to.
abbrev pub Reach : Type 0 → System → Type 0
Reach WriteFails s = (h : Hal) × IsInit h × Steps WriteFails (init h) s

-- Between locking and unlocking `stEnabledStatusLock`
abbrev pub in_section : Pc → Bool
in_section (testing _) = true
in_section (disabling _) = true
in_section (signalling _) = true
in_section (joining _) = true
in_section (closing _) = true
in_section (enabling _) = true
in_section (setting _) = true
in_section (opening _) = true
in_section (starting _) = true
in_section (checking _) = true
in_section (leaving _ _) = true
in_section (clearing _ _) = true
in_section (returning _ _) = true
in_section (unlocking _) = true
in_section _ = false

-- In the receive thread's loop, or on the way out of it to the lock
abbrev pub listens : Pc → Bool
listens looping = true
listens polling = true
listens failing = true
listens (locking reset) = true
listens trying = true
listens _ = false

-- In `doReset`, before it gets the lock
abbrev pub in_reset : Pc → Bool
in_reset failing = true
in_reset (locking reset) = true
in_reset _ = false
