-- ===== src/Chardev/Rx/Tests.antt =====
-- The receive side on a packet that arrives in two reads.
use linux_ant_hal.Base.{
  get_or, ltb, lt→ltb, if◌then◌else◌, ℕ, ◌≡◌, refl, some, List, [], ◌∷◌, ◌++◌, arith, pos,
}
use linux_ant_hal.Os.{Trace, read_file, rx_callback}
use linux_ant_hal.Chardev.Rx.{
  RxBuffer, slice, store, read_channel_msg, read_retry, accept_read, accept, packet_loop,
  handle_packet, hand_over, is_keepalive_response, eq_bytes,
}
use linux_ant_hal.Chardev.Rx.Frames.{done, whole}
use linux_ant_hal.Chardev.Rx.Bounds.{IsValid, EndsValid, read_channel_msg_ends}
use linux_ant_hal.Chardev.Rx.Row.{SameOutcome, accept_in_row}
use linux_ant_hal.Chardev.Rx.Stream.{delivered, for_client}
use linux_ant_hal.Chardev.Rx.Stream.Session.{Session, begun, received, session_delivers}
use linux_ant_hal.Chardev.Sample.{device_os, good_os, message, on, open_channel}

abbrev empty_row : RxBuffer
empty_row = record { bytes = λ j. 0; length = 0 }

abbrev bytes_read : List ℕ
bytes_read = 4 ∷ 0x02 ∷ 0x4D ∷ 0x00 ∷ 0x3E ∷ []

abbrev after_reads : Trace
after_reads = rx_callback 9 4 message ∷ read_file (pos 5) 257 ∷ read_file (pos 5) 260 ∷ []

-- The rows after the two reads.
abbrev row_1 : RxBuffer
row_1 = record {
  bytes = store empty_row.bytes 0 3 (device_os.received (read_file (pos 5) 260 ∷ []));
  length = 3;
}

abbrev row_2 : RxBuffer
row_2 = record {
  bytes =
      store row_1.bytes 3 2
        (device_os.received (read_file (pos 5) 257 ∷ read_file (pos 5) 260 ∷ []));
  length = 0;
}

-- The first read brings no whole packet; the second completes it, and the client gets the message.
two_reads :
    Session device_os empty_row open_channel on [] bytes_read row_2 open_channel on after_reads
unfolding read_channel_msg read_retry accept_read accept packet_loop handle_packet hand_over
    is_keepalive_response eq_bytes
two_reads =
    received 1 2 {b1 = row_1} {c1 = open_channel} {h1 = on} (received 1 3 begun refl refl refl) refl
      refl refl

session_delivers_example :
    (delivered after_reads ≡ delivered [] ++ for_client (message ∷ []))
    × (slice row_2.bytes 0 row_2.length ≡ [])
    × (open_channel.rx_callback ≡ some 9)
session_delivers_example =
    session_delivers device_os 9 refl refl two_reads (whole message [] refl done) (omega arith)

empty_row-IsValid : IsValid empty_row
empty_row-IsValid = record { short = omega arith; small = λ j. omega arith }

read_channel_msg_ends_example : EndsValid (read_channel_msg good_os 1 empty_row open_channel on [])
read_channel_msg_ends_example =
    read_channel_msg_ends good_os 0 1 empty_row open_channel on [] empty_row-IsValid
      (λ u j. omega arith) refl (omega arith)

-- A row with one packet, and the same with other bytes behind it.
abbrev packet_row : RxBuffer
packet_row = record { bytes = λ j. get_or bytes_read j 0; length = 0 }

abbrev followed_row : RxBuffer
followed_row = record { bytes = λ j. if ltb j 260 then get_or bytes_read j 0 else 7; length = 0 }

accept_in_row_example :
    SameOutcome
      (accept good_os 5 packet_row open_channel on [])
      (accept good_os 5 followed_row open_channel on [])
accept_in_row_example =
    accept_in_row good_os 5 packet_row followed_row open_channel on [] (omega arith) refl
      (λ j l. rw (lt→ltb j 260 l))
