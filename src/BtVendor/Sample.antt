-- ===== src/BtVendor/Sample.antt =====
-- States of the transport through the vendor library, and systems in which the library works or does
-- not, for the tests.
use linux_ant_hal.Base.{false, true, [], ◌∷◌, ℤ, pos, minus_one}
use linux_ant_hal.Os.{Os, Call, vendor_open, load_vendor_library, find_vendor_interface}
use linux_ant_hal.Chardev.Sample.{good_os, good_answer, open_channel, closed_channel, on, off}
use linux_ant_hal.BtVendor.State.{Vendor}

abbrev pub vendor_answer : Call → ℤ
vendor_answer load_vendor_library = pos 1
vendor_answer find_vendor_interface = pos 1
vendor_answer vendor_open = pos 1
vendor_answer c = good_answer c

abbrev pub vendor_os : Os
vendor_os = record good_os { ret = λ t c. vendor_answer c }

-- The device cannot be opened, though the power is on.
abbrev pub unopened_answer : Call → ℤ
unopened_answer vendor_open = minus_one
unopened_answer c = vendor_answer c

abbrev pub unopened_os : Os
unopened_os = record good_os { ret = λ t c. unopened_answer c }

abbrev pub vendor_off : Vendor
vendor_off = record {
  hal = record off { channels = closed_channel ∷ [] };
  vendor_interface = false;
}

abbrev pub vendor_on : Vendor
vendor_on = record { hal = record on { channels = open_channel ∷ [] }; vendor_interface = true }
