-- ===== src/Chardev/FlowControl/Wakeup.antt =====
-- Chardev.FlowControl: whether a thread that waits is woken when FLOW_GO comes.
use linux_ant_hal.Base.{zero, suc, ◌≡◌, ◌⊎◌, Bool, true, false, arith}
use linux_ant_hal.Chardev.State.{ant_flow_go}
use linux_ant_hal.Chardev.FlowControl.{
  SenderPc, waiting, ReceiverPc, unlocking, signalling, Flow, SenderMove, ReceiverMove, System,
  Step, Steps, start,
}

-- Whether the receive thread is between setting the value and the signal.
abbrev will_signal : ReceiverPc → Bool
will_signal unlocking = true
will_signal signalling = true
will_signal _ = false

abbrev WillWake : Flow → ReceiverPc → SenderPc → Type 0
WillWake m rx p = p ≡ waiting → m.resp ≡ ant_flow_go → will_signal rx ≡ true

SenderMove-WillWake :
    {m m' : Flow} {p p' : SenderPc} (rx : ReceiverPc)
    → SenderMove 0 m p m' p'
    → WillWake m rx p
    → WillWake m' rx p'
SenderMove-WillWake rx (SenderMove.wait g) w = ground arith
SenderMove-WillWake rx mv w = ground arith

ReceiverMove-WillWake :
    {m m' : Flow} {rx rx' : ReceiverPc} (p : SenderPc)
    → ReceiverMove m rx m' rx'
    → WillWake m rx p
    → WillWake m' rx' p
ReceiverMove-WillWake p ReceiverMove.unlock w = ground arith
ReceiverMove-WillWake p mv w = ground arith

Step-WillWake :
    {s t : System} → Step 1 s t → WillWake s.flow s.rx (s.pc 0) → WillWake t.flow t.rx (t.pc 0)
Step-WillWake {s} (Step.sender_step zero l mv) w = SenderMove-WillWake s.rx mv w
Step-WillWake (Step.sender_step (suc i) l mv) w = absurd (omega arith)
Step-WillWake {s} (Step.receiver_step mv) w = ReceiverMove-WillWake (s.pc 0) mv w
Step-WillWake (Step.signal zero l e h) w = ground arith
Step-WillWake (Step.signal (suc i) l e h) w = absurd (omega arith)
Step-WillWake (Step.signal_none e h) w = ground (arith, h 0)

-- If only one thread sends, no wakeup is lost: in every state in which it is asleep and FLOW_GO has
-- been set, the receive thread is about to signal the condition.
pub no_lost_wakeup :
    {s : System}
    → Steps 1 start s
    → s.pc 0 ≡ waiting
    → s.flow.resp ≡ ant_flow_go
    → (s.rx ≡ unlocking) ⊎ (s.rx ≡ signalling)
no_lost_wakeup r e g = ground (arith, one_sender r)
  where
    one_sender : {s : System} → Steps 1 start s → WillWake s.flow s.rx (s.pc 0)
    one_sender Steps.here = ground arith
    one_sender (Steps.later r st) = Step-WillWake st (one_sender r)
