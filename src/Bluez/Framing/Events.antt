-- ===== src/Bluez/Framing/Events.antt =====
-- Which events of the chip are accepted.
use linux_ant_hal.Base.{ℕ, ◌+◌, ◌≡◌, ◌↔◌, arith, false, pos, get_or, is_neg}
use linux_ant_hal.Bluez.Bytes.{le_to_host16}
use linux_ant_hal.Bluez.Framing.{
  Board, wl12xx, bcm433x, Hci, EventPacket, hci_event_total_overhead, bytes_from,
  validate_hci_event_vendor, validate_hci_event_packet,
}

-- What the vendor's header of a packet of a length must be.
pub IsFromAnt : Hci → Board → EventPacket → ℕ → Type 0
IsFromAnt hci wl12xx packet len =
    (le_to_host16 packet.vendor ≡ 0x0500)
    × (len ≡ le_to_host16 (bytes_from 2 packet.vendor) + hci_event_total_overhead hci wl12xx)
IsFromAnt hci bcm433x packet len = get_or packet.vendor 0 0 ≡ 0x2D

vendor_lem :
    (hci : Hci) (board : Board) (packet : EventPacket) (len : ℕ)
    → validate_hci_event_vendor hci board packet len ≡ pos 0 ↔ IsFromAnt hci board packet len
unfolding validate_hci_event_vendor IsFromAnt
vendor_lem hci wl12xx packet len = ground arith
vendor_lem hci bcm433x packet len = ground arith

vendor_result :
    (hci : Hci) (board : Board) (packet : EventPacket) (len : ℕ)
    → is_neg (validate_hci_event_vendor hci board packet len) ≡ false
    → validate_hci_event_vendor hci board packet len ≡ pos 0
unfolding validate_hci_event_vendor
vendor_result hci wl12xx packet len e = ground arith
vendor_result hci bcm433x packet len e = ground arith

pub validate_packet_iff :
    (hci : Hci) (board : Board) (packet : EventPacket) (len n : ℕ)
    → (validate_hci_event_packet hci board packet len ≡ pos n) ↔ (
        (packet.packet_type ≡ hci.hci_event_pkt)
        × (packet.evt ≡ hci.evt_vendor)
        × (len ≡ packet.plen + hci.hci_event_header_overhead)
        × IsFromAnt hci board packet len
        × (len ≡ n + hci_event_total_overhead hci board))
unfolding validate_hci_event_packet
validate_packet_iff hci board packet len n =
    ground (arith, vendor_lem hci board packet len, vendor_result hci board packet len)
