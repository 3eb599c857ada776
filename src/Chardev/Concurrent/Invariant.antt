-- ===== src/Chardev/Concurrent/Invariant.antt =====
-- What holds in every state that the threads of Chardev.Concurrent can come to.
use linux_ant_hal.Base.{ℕ, suc, ◌≤◌, ◌<◌, ◌≡◌, refl, ◌≢◌, ◌⊎◌, Bool, true, false, arith}
use linux_ant_hal.Chardev.State.{Hal}
use linux_ant_hal.Chardev.Concurrent.Moves.{
  is_call, Task, reset, Pc, absent, idle, locking, testing, signalling, joining, closing, starting,
  checking, looping, polling, failing, trying, ended, Shared, set_hal, end_reset, CallMove,
  EnableMove, DisableMove, RxMove,
}
use linux_ant_hal.Chardev.Concurrent.{
  System, update, Step, Steps, IsInit, init, Reach, in_section, listens,
}

-- What a thread `j` at `p` knows of the shared state.
abbrev pub Knows : Shared → (ℕ → Pc) → ℕ → Pc → Type 0
Knows m pc j absent = Unit
Knows m pc j idle = Unit
Knows m pc j ended = Unit
Knows m pc j (locking reset) = m.hal.rx_thread ≡ j
Knows m pc j (locking _) = Unit
Knows m pc j looping = m.hal.rx_thread ≡ j
Knows m pc j polling = m.hal.rx_thread ≡ j
Knows m pc j failing = m.hal.rx_thread ≡ j
Knows m pc j trying = m.hal.rx_thread ≡ j
Knows m pc j (testing t) = (m.owner ≡ j) × (is_call t ≡ true)
Knows m pc j (signalling t) = (m.owner ≡ j) × (m.hal.run_thread ≡ false) × (m.hal.rx_thread ≢ 0)
Knows m pc j (joining t) =
    (m.owner ≡ j)
    × (m.hal.run_thread ≡ false)
    × (m.hal.rx_thread ≢ 0)
    × (pc m.hal.rx_thread ≡ polling → m.counter ≢ 0)
Knows m pc j (closing t) =
    (m.owner ≡ j)
    × (m.hal.run_thread ≡ false)
    × ((m.hal.rx_thread ≡ 0) ⊎ (pc m.hal.rx_thread ≡ ended))
Knows m pc j _ = m.owner ≡ j

-- A receive thread that has not unlocked its task.
abbrev pub is_receiver : Pc → Bool
is_receiver ended = true
is_receiver p = listens p

pub record Inv (m : Shared) (next : ℕ) (pc : ℕ → Pc) : Type 0 where
  pub started : 0 < next
  pub nobody : pc 0 ≡ absent
  pub fresh : (j : ℕ) → next ≤ j → pc j ≡ absent
  pub known : m.hal.rx_thread ≢ 0 → is_receiver (pc m.hal.rx_thread) ≡ true
  pub owned : m.owner ≢ 0 → in_section (pc m.owner) ≡ true
  pub knows : (j : ℕ) → Knows m pc j (pc j)

Inv-init : (h : Hal) → IsInit h → Inv (init h).mem 1 (init h).pc
Inv-init h i = record {
  started = omega arith;
  nobody = refl;
  fresh = λ j l. refl;
  known = λ n. absurd (n i.0);
  owned = λ n. absurd (n refl);
  knows = λ j. tt;
}

module _ {m : Shared} {next : ℕ} {pc : ℕ → Pc} (inv : Inv m next pc) (i : ℕ) where
  open inv use {started, nobody, fresh, known, owned, knows}

  CallMove-Knows :
      {p p' : Pc} {m' : Shared}
      → CallMove i m p m' p'
      → pc i ≡ p
      → Knows m pc i p
      → (j : ℕ) → Knows m' (update pc i p') j (update pc i p' j)
  CallMove-Knows (CallMove.call t c) e k j = ground (arith, knows j, nobody)
  CallMove-Knows (CallMove.lock t c o) e k j = ground (arith, knows j, nobody)
  CallMove-Knows mv e k j = ground (arith, knows j, nobody)

  EnableMove-Knows :
      {p p' : Pc} {m' : Shared}
      → EnableMove m p m' p'
      → pc i ≡ p
      → Knows m pc i p
      → (j : ℕ) → Knows m' (update pc i p') j (update pc i p' j)
  unfolding end_reset
  EnableMove-Knows (EnableMove.not_read t) e k j = ground (arith, knows j, nobody)
  EnableMove-Knows mv e k j = ground (arith, knows j, nobody)

  DisableMove-Knows :
      {WriteFails : Type 0} {p p' : Pc} {m' : Shared}
      → ¬ WriteFails
      → DisableMove WriteFails m p m' p'
      → pc i ≡ p
      → Knows m pc i p
      → (j : ℕ) → Knows m' (update pc i p') j (update pc i p' j)
  DisableMove-Knows works (DisableMove.not_signalled t f) e k j = absurd (works f)
  DisableMove-Knows works (DisableMove.no_thread t n) e k j = ground (arith, knows j, nobody)
  DisableMove-Knows works (DisableMove.stop t n) e k j = ground (arith, knows j, nobody)
  DisableMove-Knows works mv e k j = ground (arith, knows j, nobody)

  RxMove-Knows :
      {p p' : Pc} {m' : Shared}
      → RxMove i m p m' p'
      → pc i ≡ p
      → Knows m pc i p
      → (j : ℕ) → Knows m' (update pc i p') j (update pc i p' j)
  RxMove-Knows (RxMove.go_on h) e k j = ground (arith, knows j, nobody)
  RxMove-Knows (RxMove.leave h) e k j = ground (arith, knows j, nobody)
  RxMove-Knows (RxMove.shutdown h) e k j = ground (arith, knows j, nobody)
  RxMove-Knows (RxMove.reset_lock h) e k j = ground (arith, knows j, nobody)
  RxMove-Knows (RxMove.try_lock h) e k j = ground (arith, knows j, nobody)
  RxMove-Knows (RxMove.busy h) e k j = ground (arith, knows j, nobody)
  RxMove-Knows mv e k j = ground (arith, knows j, nobody)

  -- What a move of thread `i` from `p` to `p'` keeps, but for the thread's knowledge.
  record Rest (p : Pc) (m' : Shared) (p' : Pc) : Type 0 where
    present : p ≢ absent
    nobody' : update pc i p' 0 ≡ absent
    known' : m'.hal.rx_thread ≢ 0 → is_receiver (update pc i p' m'.hal.rx_thread) ≡ true
    owned' : m'.owner ≢ 0 → in_section (update pc i p' m'.owner) ≡ true

  CallMove-Rest :
      {p p' : Pc} {m' : Shared} → CallMove i m p m' p' → pc i ≡ p → Knows m pc i p → Rest p m' p'
  CallMove-Rest (CallMove.lock t c o) e k = ground arith
  CallMove-Rest mv e k = ground arith

  EnableMove-Rest :
      {p p' : Pc} {m' : Shared} → EnableMove m p m' p' → pc i ≡ p → Knows m pc i p → Rest p m' p'
  unfolding end_reset
  EnableMove-Rest (EnableMove.not_read t) e k = ground arith
  EnableMove-Rest mv e k = ground arith

  DisableMove-Rest :
      {WriteFails : Type 0} {p p' : Pc} {m' : Shared}
      → ¬ WriteFails
      → DisableMove WriteFails m p m' p'
      → pc i ≡ p
      → Knows m pc i p
      → Rest p m' p'
  DisableMove-Rest works (DisableMove.not_signalled t f) e k = absurd (works f)
  DisableMove-Rest works mv e k = ground arith

  RxMove-Rest :
      {p p' : Pc} {m' : Shared} → RxMove i m p m' p' → pc i ≡ p → Knows m pc i p → Rest p m' p'
  RxMove-Rest (RxMove.leave h) e k = ground arith
  RxMove-Rest (RxMove.reset_lock h) e k = ground arith
  RxMove-Rest (RxMove.try_lock h) e k = ground arith
  RxMove-Rest (RxMove.busy h) e k = ground arith
  RxMove-Rest mv e k = ground arith

  moved :
      {p' : Pc} {m' : Shared}
      → Rest (pc i) m' p'
      → ((j : ℕ) → Knows m' (update pc i p') j (update pc i p' j))
      → Inv m' next (update pc i p')
  moved r k = record {
    started = started;
    nobody = r.nobody';
    fresh = λ j l. ground (arith, fresh j l, fresh i, r.present);
    known = r.known';
    owned = r.owned';
    knows = k;
  }

  create-Inv :
      (t : Task)
      → pc i ≡ starting t
      → m.hal.rx_thread ≡ 0
      → Inv
          (set_hal m (record m.hal { rx_thread = next }))
          (suc next)
          (update (update pc i (checking t)) next looping)
  create-Inv t e h = record {
    started = omega arith;
    nobody = ground (arith, fresh i);
    fresh = λ j l. ground (arith, fresh j, fresh i);
    known = ground arith;
    owned = ground (arith, fresh i, fresh m.owner);
    knows = λ j. ground (arith, knows j, knows i, fresh i, fresh j);
  }

  join-Inv :
      (t : Task)
      → pc i ≡ joining t
      → pc m.hal.rx_thread ≡ ended
      → Inv m next (update pc i (closing t))
  join-Inv t e h = record {
    started = started;
    nobody = ground arith;
    fresh = λ j l. ground (arith, fresh j);
    known = ground (arith, knows i);
    owned = ground (arith, knows i);
    knows = λ j. ground (arith, knows j, knows i);
  }

client-Inv :
    {m : Shared} {next : ℕ} {pc : ℕ → Pc} → Inv m next pc → Inv m (suc next) (update pc next idle)
client-Inv {m} {next} inv = record {
  started = omega arith;
  nobody = ground (arith, inv.nobody, inv.started);
  fresh = λ j l. ground (arith, inv.fresh j);
  known = ground (arith, inv.known, inv.fresh next);
  owned = ground (arith, inv.owned, inv.fresh next);
  knows = λ j. ground (arith, inv.knows j, inv.fresh next);
}

-- Every step keeps the invariant, where the write to the shutdown event works.
pub Step-Inv :
    {WriteFails : Type 0} {s t : System}
    → ¬ WriteFails
    → Step WriteFails s t
    → Inv s.mem s.next s.pc
    → Inv t.mem t.next t.pc
Step-Inv works (Step.call_move i mv) inv =
    moved inv i (CallMove-Rest inv i mv refl (inv.knows i))
      (CallMove-Knows inv i mv refl (inv.knows i))
Step-Inv works (Step.enable_move i mv) inv =
    moved inv i (EnableMove-Rest inv i mv refl (inv.knows i))
      (EnableMove-Knows inv i mv refl (inv.knows i))
Step-Inv works (Step.disable_move i mv) inv =
    moved inv i (DisableMove-Rest inv i works mv refl (inv.knows i))
      (DisableMove-Knows inv i works mv refl (inv.knows i))
Step-Inv works (Step.rx_move i mv) inv =
    moved inv i (RxMove-Rest inv i mv refl (inv.knows i)) (RxMove-Knows inv i mv refl (inv.knows i))
Step-Inv {s} works (Step.create i t e h) inv = create-Inv inv i t e h
Step-Inv {s} works (Step.join i t e h) inv = join-Inv inv i t e h
Step-Inv {s} works Step.new_client inv = client-Inv inv

pub Steps-Inv :
    {WriteFails : Type 0} {s t : System}
    → ¬ WriteFails
    → Steps WriteFails s t
    → Inv s.mem s.next s.pc
    → Inv t.mem t.next t.pc
Steps-Inv works Steps.here inv = inv
Steps-Inv works (Steps.later r st) inv = Step-Inv works st (Steps-Inv works r inv)

pub Reach-Inv :
    {WriteFails : Type 0} {s : System} → ¬ WriteFails → Reach WriteFails s → Inv s.mem s.next s.pc
Reach-Inv works (h, i, r) = Steps-Inv works r (Inv-init h i)
