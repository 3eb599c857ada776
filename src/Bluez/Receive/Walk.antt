-- ===== src/Bluez/Receive/Walk.antt =====
-- `ANTHCIRxThread` of src/bluez_hci/ant_rx.c keeps what its parts keep.
use linux_ant_hal.Base.{ℕ, zero, suc, Bool, true, false, not, Option, none, some, ℤ, is_neg}
use linux_ant_hal.Types.{radio_status_enabled, eq_radio}
use linux_ant_hal.Os.{Os, Trace, M, pure, call, set_filter}
use linux_ant_hal.Os.Keeps.{Keeps, keeps_rules, Keeps-bind, Keeps-then, Keeps-if, Keeps-pure}
use linux_ant_hal.Bluez.Framing.{Board, Hci, ant_event_vendor_code}
use linux_ant_hal.Bluez.State.{Radio}
use linux_ant_hal.Bluez.Socket.{create_hci_sock, type_mask_event_packet}
use linux_ant_hal.Bluez.Radio.{get_and_set_radio_status}
use linux_ant_hal.Bluez.Receive.{
  event_mask_1_event_vendor, poll_socket, polled, next, rx_rounds, close_rx, rx_loop_done,
  ant_hci_rx_thread,
}

module _ (os : Os) (hci : Hci) (board : Board) (P : Radio → Trace → Type 0) (external : Bool)
    (status : Keeps P (get_and_set_radio_status os external))
    (polls : (fuel : ℕ) (socket : ℤ) → Keeps P (poll_socket os hci board fuel socket))
    (reads : (fuel : ℕ) (socket : ℤ) (r : Option ℤ) → Keeps P (polled os hci board fuel socket r))
    (closes : (socket : ℤ) → Keeps P (close_rx os hci board external socket))
    (makes : Keeps P (create_hci_sock os))
    (filters : (socket : ℤ) (a b c d : ℕ) → Keeps P (call os (set_filter socket a b c d))) where
  next-Keeps :
      (again : M Radio (Option (Unit {0}))) (r : Option Bool)
      → Keeps P again
      → Keeps P (next os hci board again r)
  unfolding next
  next-Keeps again none k = search keeps_rules
  next-Keeps again (some false) k = search keeps_rules
  next-Keeps again (some true) k = k

  rx_rounds-Keeps :
      (fuel rounds : ℕ) (socket : ℤ) → Keeps P (rx_rounds os hci board external fuel rounds socket)
  unfolding rx_rounds
  rx_rounds-Keeps fuel zero socket = search keeps_rules
  rx_rounds-Keeps fuel (suc rounds) socket = Keeps-bind _ _ status (λ s.
      Keeps-if (not (eq_radio s radio_status_enabled)) _ _ (Keeps-pure (some tt)) (
        Keeps-bind _ _ (polls fuel socket) (λ n. Keeps-bind _ _ (reads fuel socket n) (λ r.
          next-Keeps (rx_rounds os hci board external fuel rounds socket) r
            (rx_rounds-Keeps fuel rounds socket)))))

  loop_done-Keeps :
      (socket : ℤ) (r : Option (Unit {0})) → Keeps P (rx_loop_done os hci board external socket r)
  unfolding rx_loop_done
  loop_done-Keeps socket none = search keeps_rules
  loop_done-Keeps socket (some _) = search (keeps_rules, closes) depth 10

  pub rx_thread-Keeps :
      (fuel rounds : ℕ) → Keeps P (ant_hci_rx_thread os hci board external fuel rounds)
  unfolding ant_hci_rx_thread
  rx_thread-Keeps fuel rounds = Keeps-bind _ _ makes (λ sk.
      Keeps-if (is_neg sk) _ _ (Keeps-pure (some tt)) (
        Keeps-bind _ _
          (filters sk type_mask_event_packet 0 event_mask_1_event_vendor
            (hci.htobs (ant_event_vendor_code board)))
          (λ r.
            Keeps-if (is_neg r) _ _
              (Keeps-then (close_rx os hci board external sk) (pure (some tt)) (closes sk)
                (Keeps-pure (some tt)))
              (Keeps-bind _ _ (rx_rounds-Keeps fuel rounds sk) (loop_done-Keeps sk)))))
