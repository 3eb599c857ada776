-- ===== src/Chardev/FlowControl/Lost.antt =====
-- Chardev.FlowControl with two threads that send: both messages are answered, and one of the threads
-- is not woken.
use linux_ant_hal.Base.{ℕ, ◌<◌, ◌≡◌, refl, ◌≢◌, true, false, arith, ◌∙◌}
use linux_ant_hal.Types.{ant_status_success}
use linux_ant_hal.Chardev.State.{ant_flow_go, ant_flow_stop}
use linux_ant_hal.Chardev.FlowControl.{
  SenderPc, outside, waiting, returned, ReceiverPc, reading, signalling, nobody, Flow, update,
  SenderMove, ReceiverMove, System, Step, Steps,
}

-- The threads other than `j` stand where they stood.
abbrev Others : ℕ → (ℕ → SenderPc) → (ℕ → SenderPc) → Type 0
Others j f g = (k : ℕ) → k ≢ j → g k ≡ f k

abbrev all_go : Flow
all_go = record { resp = ant_flow_go; owner = nobody; was_answered = λ _. true }

module _ {n : ℕ} where
  Steps-trans : {s t u : System} → Steps n s t → Steps n t u → Steps n s u
  Steps-trans r Steps.here = r
  Steps-trans r (Steps.later q st) = Steps.later (Steps-trans r q) st

  receives :
      {s : System} {m : Flow} {q q' : ReceiverPc}
      → s.rx ≡ q
      → ReceiverMove s.flow q m q'
      → Step n s (record s { flow = m; rx = q' })
  receives e mv = Step.receiver_step (rw e mv)

  -- FLOW_GO comes: the value is set, and the condition is to be signalled.
  go_comes :
      {s : System}
      → s.rx ≡ reading
      → s.flow.owner ≡ nobody
      → Steps n s (record s {
        flow = record { resp = ant_flow_go; owner = nobody; was_answered = λ _. true };
        rx = signalling;
      })
  go_comes e o =
      Steps.later
        (Steps.later
          (Steps.later (Steps.later Steps.here (receives e (ReceiverMove.receive ant_flow_go)))
            (Step.receiver_step (ReceiverMove.lock ant_flow_go o)))
          (Step.receiver_step (ReceiverMove.set_value ant_flow_go)))
        (Step.receiver_step ReceiverMove.unlock)

  module _ (j : ℕ) (l : j < n) where
    move :
        {s : System} {m : Flow} {p p' : SenderPc}
        → s.pc j ≡ p
        → SenderMove j s.flow p m p'
        → Step n s (record s { flow = m; pc = update s.pc j p' })
    move e mv = Step.sender_step j l (rw e mv)

    -- A thread sends and falls asleep.
    sends :
        {s : System}
        → s.pc j ≡ outside
        → s.flow.owner ≡ nobody
        → (f : ℕ → SenderPc) × Steps n s (record s {
          flow = record {
            resp = ant_flow_stop;
            owner = nobody;
            was_answered = update s.flow.was_answered j false;
          };
          pc = f;
        })
          × (f j ≡ waiting)
          × Others j s.pc f
    sends e o = (
      _,
      Steps.later
          (Steps.later
            (Steps.later
              (Steps.later (Steps.later Steps.here (move e SenderMove.call))
                (move (ground arith) (SenderMove.lock o)))
              (move (ground arith) SenderMove.stop))
            (move (ground arith) SenderMove.write))
          (move (ground arith) (SenderMove.wait (λ h. absurd (omega arith)))),
      ground arith,
      λ k d. ground arith,
    )

    -- The signal wakes the thread, which finds FLOW_STOP and falls asleep again.
    wakes_early :
        {s : System}
        → s.rx ≡ signalling
        → s.pc j ≡ waiting
        → s.flow.owner ≡ nobody
        → s.flow.resp ≢ ant_flow_go
        → (f : ℕ → SenderPc) × Steps n s
            (record s { flow = record s.flow { owner = nobody }; rx = reading; pc = f })
          × (f j ≡ waiting)
          × Others j s.pc f
    wakes_early e w o g = (
      _,
      Steps.later
          (Steps.later (Steps.later Steps.here (Step.signal j l e w))
            (move (ground arith) (SenderMove.relock o)))
          (move (ground arith) (SenderMove.wait g)),
      ground arith,
      λ k d. ground arith,
    )

    -- The signal wakes the thread, which finds FLOW_GO and returns.
    wakes :
        {s : System}
        → s.rx ≡ signalling
        → s.pc j ≡ waiting
        → s.flow.owner ≡ nobody
        → s.flow.resp ≡ ant_flow_go
        → (f : ℕ → SenderPc) × Steps n s
            (record s { flow = record s.flow { owner = nobody }; rx = reading; pc = f })
          × (f j ≡ returned ant_status_success)
          × Others j s.pc f
    wakes e w o g = (
      _,
      Steps.later
          (Steps.later
            (Steps.later (Steps.later Steps.here (Step.signal j l e w))
              (move (ground arith) (SenderMove.relock o)))
            (move (ground arith) (SenderMove.is_go g)))
          (move (ground arith) (SenderMove.unlock ant_status_success)),
      ground arith,
      λ k d. ground arith,
    )

  -- While thread `i` is asleep and nothing else is under way, thread `j` can send too, and FLOW_GO
  -- can come twice, with this end: `j` has returned success and `i` is still asleep, though
  -- FLOW_GO has come after its message too, `ucFlowControlResp` is FLOW_GO, and the receive thread
  -- is not about to signal.
  pub wakeup_can_be_lost :
      {s : System} (i j : ℕ)
      → j < n
      → i ≢ j
      → s.pc i ≡ waiting
      → s.pc j ≡ outside
      → s.rx ≡ reading
      → s.flow.owner ≡ nobody
      → (u : System) × Steps n s u
        × (u.pc j ≡ returned ant_status_success)
        × (u.pc i ≡ waiting)
        × (u.flow.was_answered i ≡ true)
        × (u.flow.resp ≡ ant_flow_go)
        × (u.rx ≡ reading)
  wakeup_can_be_lost {s} i j l d w e r o =
      let gone : System = record s { flow = all_go; rx = signalling } in
      let (f, sent, asleep, others) = sends j l {s = gone} e refl in
      let stopped : Flow = record all_go {
        resp = ant_flow_stop;
        was_answered = update (λ _. true) j false;
      } in
      let both : System = record gone { flow = stopped; pc = f } in
      let (g, early, asleep', others') =
        wakes_early j l {s = both} refl asleep refl (λ h. absurd (omega arith)) in
      let again : System = record both { rx = reading; pc = g } in
      let answered : System = record again { flow = all_go; rx = signalling } in
      let (k, late, done, others'') = wakes j l {s = answered} refl asleep' refl refl in
      (
        _,
        Steps-trans
            (Steps-trans (Steps-trans (Steps-trans (go_comes r o) sent) early) (go_comes refl refl))
            late,
        done,
        others'' i d ∙ (others' i d ∙ (others i d ∙ w)),
        refl,
        refl,
        refl,
      )
