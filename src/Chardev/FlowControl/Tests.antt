-- ===== src/Chardev/FlowControl/Tests.antt =====
-- Chardev.FlowControl on concrete orders of steps.
use linux_ant_hal.Base.{ℕ, ◌<◌, ◌≡◌, refl, ◌≢◌, ◌⊎◌, true, arith}
use linux_ant_hal.Types.{ant_status_success}
use linux_ant_hal.Chardev.State.{ant_flow_go, ant_flow_stop}
use linux_ant_hal.Chardev.FlowControl.{
  waiting, returned, reading, unlocking, signalling, SenderMove, ReceiverMove, System, Step, Steps,
  start,
}
use linux_ant_hal.Chardev.FlowControl.Answers.{success-IsAnswered}
use linux_ant_hal.Chardev.FlowControl.Wakeup.{no_lost_wakeup}
use linux_ant_hal.Chardev.FlowControl.Lost.{wakeup_can_be_lost}

-- A state, and how it is reached with `n` threads that send.
record Run (n : ℕ) : Type 0 where
  last : System
  reach : Steps n start last

abbrev then : {n : ℕ} (r : Run n) {s : System} → Step n r.last s → Run n
then r st = record { last = _; reach = Steps.later r.reach st }

stop-ne-go : ◌≢◌ {A = ℕ} ant_flow_stop ant_flow_go
stop-ne-go = omega arith

-- Thread 0 has sent and is asleep.
asleep : (n : ℕ) → 0 < n → Run n
asleep n l =
    let called =
      then (record { last = start; reach = Steps.here }) (Step.sender_step 0 l SenderMove.call) in
    let locked = then called (Step.sender_step 0 l (SenderMove.lock refl)) in
    let stopped = then locked (Step.sender_step 0 l SenderMove.stop) in
    let written = then stopped (Step.sender_step 0 l SenderMove.write) in
    then written (Step.sender_step 0 l (SenderMove.wait stop-ne-go))

one : 0 < 1
one = omega arith

-- FLOW_GO has come.
gone : Run 1
unfolding asleep
gone =
    let received = then (asleep 1 one) (Step.receiver_step (ReceiverMove.receive ant_flow_go)) in
    let locked = then received (Step.receiver_step (ReceiverMove.lock ant_flow_go refl)) in
    let set = then locked (Step.receiver_step (ReceiverMove.set_value ant_flow_go)) in
    then set (Step.receiver_step ReceiverMove.unlock)

finished : Run 1
unfolding gone asleep
finished =
    let signalled = then gone (Step.signal 0 one refl refl) in
    let locked = then signalled (Step.sender_step 0 one (SenderMove.relock refl)) in
    let tested = then locked (Step.sender_step 0 one (SenderMove.is_go refl)) in
    then tested (Step.sender_step 0 one (SenderMove.unlock ant_status_success))

success-IsAnswered_example : finished.last.flow.was_answered 0 ≡ true
unfolding finished gone asleep
success-IsAnswered_example = success-IsAnswered 0 finished.reach refl

no_lost_wakeup_example : (gone.last.rx ≡ unlocking) ⊎ (gone.last.rx ≡ signalling)
unfolding gone asleep
no_lost_wakeup_example = no_lost_wakeup gone.reach refl refl

wakeup_can_be_lost_example :
    let s = (asleep 2 (omega arith)).last in
    (u : System) × Steps 2 s u
    × (u.pc 1 ≡ returned ant_status_success)
    × (u.pc 0 ≡ waiting)
    × (u.flow.was_answered 0 ≡ true)
    × (u.flow.resp ≡ ant_flow_go)
    × (u.rx ≡ reading)
unfolding asleep
wakeup_can_be_lost_example =
    wakeup_can_be_lost 0 1 (omega arith) (λ e. absurd (omega arith)) refl refl refl refl
