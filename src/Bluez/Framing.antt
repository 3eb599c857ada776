-- ===== src/Bluez/Framing.antt =====
-- src/bluez_hci/inc/ant_framing.h: the headers of commands to the chip and the check of its events,
-- for the two boards that the code knows.
--
-- The constants and the layout of the structures of BlueZ (bluetooth/hci.h) are not part of the
-- repository: they are the parameter `hci : Hci`.
pub mod Events
use linux_ant_hal.Base.{
  ℕ, zero, suc, ◌+◌, not, List, [], ◌∷◌, ℤ, pos, minus_one, is_neg, ltb, get_or, ◌==◌, ◌-◌,
  if◌then◌else◌,
}
use linux_ant_hal.Bluez.Bytes.{le_to_host16}

-- The defined one of BOARD_ANT_DEVICE_WL12XX and BOARD_ANT_DEVICE_BCM433X.
pub data Board : Type 0 where
  wl12xx : Board
  bcm433x : Board

-- `hci_command_vendor_header_t`; the field of the vendor's header is `vendor_msg_len` for the one
-- board and `command_id_padding` for the other.
pub record CommandHeader : Type 0 where
  pub packet_type : ℕ
  pub opcode : ℕ
  pub plen : ℕ
  pub vendor_header : ℕ

-- `hci_event_packet_t`, with the vendor's header and the payload as bytes
pub record EventPacket : Type 0 where
  pub packet_type : ℕ
  pub evt : ℕ
  pub plen : ℕ
  pub vendor : List ℕ

-- `hci_command_complete_packet_t`, with the two bytes of the opcode
pub record CommandComplete : Type 0 where
  pub packet_type : ℕ
  pub evt : ℕ
  pub opcode : List ℕ
  pub response : ℕ

pub record Hci : Type 0 where
  pub hci_command_pkt : ℕ
  pub hci_event_pkt : ℕ
  pub evt_vendor : ℕ
  pub evt_cmd_complete : ℕ
  pub hci_unspecified_error : ℕ
  pub hci_max_event_size : ℕ
  -- HCI_TYPE_LEN + HCI_EVENT_HDR_SIZE, and `sizeof(hci_command_complete_packet_t)`
  pub hci_event_header_overhead : ℕ
  pub command_complete_size : ℕ
  -- the conversion to the byte order of the bus, and to the type of `plen`
  pub htobs : ℕ → ℕ
  pub to_plen : ℕ → ℕ
  -- the bytes of a command's header, and the casts of a buffer
  pub header_bytes : CommandHeader → List ℕ
  pub as_event_packet : (ℕ → ℕ) → EventPacket
  pub as_command_complete : (ℕ → ℕ) → CommandComplete

abbrev pub ant_command_opcode : Board → ℕ
ant_command_opcode wl12xx = 0xFDD1
ant_command_opcode bcm433x = 0xFCEC

abbrev pub ant_event_vendor_code : Board → ℕ
ant_event_vendor_code wl12xx = 0x0500
ant_event_vendor_code bcm433x = 0x2D

abbrev pub hci_command_vendor_hdr_size : Board → ℕ
hci_command_vendor_hdr_size wl12xx = 2
hci_command_vendor_hdr_size bcm433x = 1

abbrev pub hci_event_vendor_hdr_size : Board → ℕ
hci_event_vendor_hdr_size wl12xx = 4
hci_event_vendor_hdr_size bcm433x = 2

abbrev pub command_id_padding : ℕ
command_id_padding = 0xFF

-- The bytes of a list from an index on.
abbrev pub bytes_from : ℕ → List ℕ → List ℕ
bytes_from zero xs = xs
bytes_from (suc n) [] = []
bytes_from (suc n) (x ∷ xs) = bytes_from n xs

module _ (hci : Hci) where
  abbrev pub hci_event_total_overhead : Board → ℕ
  hci_event_total_overhead board = hci.hci_event_header_overhead + hci_event_vendor_hdr_size board

  unfoldable pub create_command_header : Board → ℕ → CommandHeader
  create_command_header board ant_message_len = record {
    packet_type = hci.hci_command_pkt;
    opcode = hci.htobs (ant_command_opcode board);
    plen = hci.to_plen (ant_message_len + hci_command_vendor_hdr_size board);
    vendor_header = vendor_field board ant_message_len;
  }
    where
      vendor_field : Board → ℕ → ℕ
      vendor_field wl12xx n = hci.htobs n
      vendor_field bcm433x n = command_id_padding

  pub validate_hci_event_vendor : Board → EventPacket → ℕ → ℤ
  validate_hci_event_vendor wl12xx packet packet_len =
      let vendor_code = le_to_host16 packet.vendor in
      let vendor_msg_len = le_to_host16 (bytes_from 2 packet.vendor) in
      if not (vendor_code == ant_event_vendor_code wl12xx)
      then minus_one
      else if not (packet_len == vendor_msg_len + hci_event_total_overhead wl12xx)
      then minus_one
      else pos 0
  validate_hci_event_vendor bcm433x packet packet_len =
      if not (get_or packet.vendor 0 0 == ant_event_vendor_code bcm433x) then minus_one else pos 0

  pub validate_hci_event_packet : Board → EventPacket → ℕ → ℤ
  validate_hci_event_packet board packet packet_len =
      if ltb packet_len (hci_event_total_overhead board)
      then minus_one
      else if not (packet.packet_type == hci.hci_event_pkt)
      then minus_one
      else if not (packet.evt == hci.evt_vendor)
      then minus_one
      else if not (packet_len == packet.plen + hci.hci_event_header_overhead)
      then minus_one
      else if is_neg (validate_hci_event_vendor board packet packet_len)
      then minus_one
      else pos (packet_len - hci_event_total_overhead board)
