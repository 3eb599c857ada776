-- ===== src/Chardev/FlowControl/Answers.antt =====
-- Chardev.FlowControl: a thread returns success only when FLOW_GO has come since it set FLOW_STOP.
use linux_ant_hal.Base.{ℕ, ◌≡◌, true, arith, ◌==◌, if◌then◌else◌}
use linux_ant_hal.Types.{ant_status_success}
use linux_ant_hal.Chardev.State.{ant_flow_go}
use linux_ant_hal.Chardev.FlowControl.{
  SenderPc, outside, locking, stopping, leaving, returned, ReceiverPc, Flow, SenderMove,
  ReceiverMove, System, Step, Steps, start,
}

-- What FLOW_GO means for a thread at `p`.
abbrev IsAnswered : Flow → ℕ → SenderPc → Type 0
IsAnswered m i outside = Unit
IsAnswered m i locking = Unit
IsAnswered m i stopping = Unit
IsAnswered m i (leaving a) = a ≡ ant_status_success → m.was_answered i ≡ true
IsAnswered m i (returned a) = a ≡ ant_status_success → m.was_answered i ≡ true
IsAnswered m i _ = m.resp ≡ ant_flow_go → m.was_answered i ≡ true

SenderMove-IsAnswered :
    {i : ℕ} {m m' : Flow} {p p' : SenderPc}
    → SenderMove i m p m' p'
    → (j : ℕ) (q : SenderPc) → IsAnswered m i p
    → IsAnswered m j q
    → IsAnswered m' j (if i == j then p' else q)
SenderMove-IsAnswered (SenderMove.is_go g) j q a b = ground arith
SenderMove-IsAnswered mv j q a b = ground arith

ReceiverMove-IsAnswered :
    {m m' : Flow} {p p' : ReceiverPc}
    → ReceiverMove m p m' p'
    → (j : ℕ) (q : SenderPc) → IsAnswered m j q
    → IsAnswered m' j q
ReceiverMove-IsAnswered ReceiverMove.unlock j q a = ground arith
ReceiverMove-IsAnswered mv j q a = ground arith

Step-IsAnswered :
    {n : ℕ} {s t : System}
    → Step n s t
    → ((j : ℕ) → IsAnswered s.flow j (s.pc j))
    → (j : ℕ) → IsAnswered t.flow j (t.pc j)
Step-IsAnswered {s} (Step.sender_step i l mv) a j = SenderMove-IsAnswered mv j (s.pc j) (a i) (a j)
Step-IsAnswered {s} (Step.receiver_step mv) a j = ReceiverMove-IsAnswered mv j (s.pc j) (a j)
Step-IsAnswered (Step.signal i l e w) a j = ground (arith, a i, a j)
Step-IsAnswered (Step.signal_none e w) a j = a j

Steps-IsAnswered : {n : ℕ} {s : System} → Steps n start s → (j : ℕ) → IsAnswered s.flow j (s.pc j)
Steps-IsAnswered Steps.here j = tt
Steps-IsAnswered (Steps.later r st) j = Step-IsAnswered st (Steps-IsAnswered r) j

-- Whatever threads send at the same time: when one returns success, then since it set FLOW_STOP,
-- and so since before it wrote its message, the receive thread has set FLOW_GO.
pub success-IsAnswered :
    {n : ℕ} {s : System} (i : ℕ)
    → Steps n start s
    → s.pc i ≡ returned ant_status_success
    → s.flow.was_answered i ≡ true
success-IsAnswered i r e = ground (arith, Steps-IsAnswered r i)
