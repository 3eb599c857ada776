-- ===== src/Chardev/FlowControl.antt =====
-- `ant_tx_message_flowcontrol_wait` (src/vfs/ant_native_chardev.c) in any number of client's threads
-- and `setFlowControl` (src/vfs/ant_rx_chardev.c) in the receive thread, interleaved between any
-- two accesses of the state that they share.
--
-- A thread that waits for the condition has given the mutex back. `pthread_cond_signal` wakes one
-- of those that wait; a wait may also end by itself. The mutex can always be locked when nobody
-- holds it.
pub mod Answers
pub mod Wakeup
pub mod Lost
pub mod Tests
use linux_ant_hal.Base.{ℕ, ◌<◌, ◌≡◌, ◌≢◌, Bool, true, false, ◌==◌, if◌then◌else◌}
use linux_ant_hal.Types.{AntStatus, ant_status_success, ant_status_failed, ant_status_hardware_err}
use linux_ant_hal.Chardev.State.{ant_flow_go, ant_flow_stop}

-- Where a thread stands that sends a data message.
pub data SenderPc : Type 0 where
  outside : SenderPc
  locking : SenderPc  -- before or in `pthread_mutex_lock`
  stopping : SenderPc  -- before it sets FLOW_STOP
  writing : SenderPc  -- before the write
  testing : SenderPc  -- before the test of the loop
  waiting : SenderPc  -- in `pthread_cond_timedwait`, asleep
  woken : SenderPc  -- there, before it locks the mutex again
  expired : SenderPc  -- the same after the time is up
  leaving : AntStatus → SenderPc  -- before `pthread_mutex_unlock`
  returned : AntStatus → SenderPc

-- Where the receive thread stands.
pub data ReceiverPc : Type 0 where
  reading : ReceiverPc  -- outside `setFlowControl`
  locking : ℕ → ReceiverPc  -- with the value to set
  setting : ℕ → ReceiverPc
  unlocking : ReceiverPc
  signalling : ReceiverPc  -- before `pthread_cond_signal`

pub data Owner : Type 0 where
  nobody receiver : Owner
  sender : ℕ → Owner

-- `ucFlowControlResp` and the owner of `stFlowControlLock`, with what shows nowhere in the program:
-- whether FLOW_GO has come since thread `i` set FLOW_STOP.
pub record Flow : Type 0 where
  pub resp : ℕ
  pub owner : Owner
  pub was_answered : ℕ → Bool

abbrev pub update {ℓ} : {A : Type ℓ} → (ℕ → A) → ℕ → A → ℕ → A
update f i a j = if i == j then a else f j

pub data SenderMove (i : ℕ) (m : Flow) : SenderPc → Flow → SenderPc → Type 0 where
  call : SenderMove i m outside m locking
  lock : m.owner ≡ nobody → SenderMove i m locking (record m { owner = sender i }) stopping
  stop :
      SenderMove i m stopping
        (record m { resp = ant_flow_stop; was_answered = update m.was_answered i false })
        writing
  write : SenderMove i m writing m testing
  not_written : SenderMove i m writing m (leaving ant_status_failed)
  is_go : m.resp ≡ ant_flow_go → SenderMove i m testing m (leaving ant_status_success)
  wait : m.resp ≢ ant_flow_go → SenderMove i m testing (record m { owner = nobody }) waiting
  wake : SenderMove i m waiting m woken  -- without a signal
  expire : SenderMove i m waiting m expired
  relock : m.owner ≡ nobody → SenderMove i m woken (record m { owner = sender i }) testing
  time_up :
      m.owner ≡ nobody
      → SenderMove i m expired (record m { owner = sender i }) (leaving ant_status_hardware_err)
  unlock : (a : AntStatus) → SenderMove i m (leaving a) (record m { owner = nobody }) (returned a)
  again : (a : AntStatus) → SenderMove i m (returned a) m outside

abbrev pub set_resp : Flow → ℕ → Flow
set_resp m v = record m {
  resp = v;
  was_answered = λ i. if v == ant_flow_go then true else m.was_answered i;
}

-- `setFlowControl` but for the signal
pub data ReceiverMove (m : Flow) : ReceiverPc → Flow → ReceiverPc → Type 0 where
  receive : (v : ℕ) → ReceiverMove m reading m (locking v)
  lock :
      (v : ℕ)
      → m.owner ≡ nobody
      → ReceiverMove m (locking v) (record m { owner = receiver }) (setting v)
  set_value : (v : ℕ) → ReceiverMove m (setting v) (set_resp m v) unlocking
  unlock : ReceiverMove m unlocking (record m { owner = nobody }) signalling

pub record System : Type 0 where
  pub flow : Flow
  pub rx : ReceiverPc
  pub pc : ℕ → SenderPc

-- A step of the receive thread or of one of the `n` threads that send.
pub data Step (n : ℕ) (s : System) : System → Type 0 where
  sender_step :
      (i : ℕ) {m : Flow} {p : SenderPc}
      → i < n
      → SenderMove i s.flow (s.pc i) m p
      → Step n s (record s { flow = m; pc = update s.pc i p })
  receiver_step :
      {m : Flow} {q : ReceiverPc}
      → ReceiverMove s.flow s.rx m q
      → Step n s (record s { flow = m; rx = q })
  signal :
      (i : ℕ)
      → i < n
      → s.rx ≡ signalling
      → s.pc i ≡ waiting
      → Step n s (record s { rx = reading; pc = update s.pc i woken })
  signal_none :
      s.rx ≡ signalling
      → ((i : ℕ) → i < n → s.pc i ≢ waiting)
      → Step n s (record s { rx = reading })

pub data Steps (n : ℕ) (s : System) : System → Type 0 where
  here : Steps n s s
  later : {t u : System} → Steps n s t → Step n t u → Steps n s u

-- after `ant_channel_init`
abbrev pub start : System
start = record {
  flow = record { resp = ant_flow_go; owner = nobody; was_answered = λ _. false };
  rx = reading;
  pc = λ _. outside;
}
