-- ===== src/Chardev/Thread/Tests.antt =====
-- The receive thread with a silent chip, with data to read, and where it cleans up.
use linux_ant_hal.Base.{arith, ◌≡◌, refl, true, false, some, [], ◌∷◌, ℤ, pos, ltb}
use linux_ant_hal.Os.{Os, Call, holds, enabled_status_lock, poll_files, read_file, thread_create}
use linux_ant_hal.Chardev.Radio.{do_reset}
use linux_ant_hal.Chardev.Thread.{Buffers, fn_rx_thread}
use linux_ant_hal.Chardev.Thread.Recovery.{polled_files, silence_resets}
use linux_ant_hal.Chardev.Thread.Locks.{thread_releases}
use linux_ant_hal.Chardev.Thread.Reads.{ReadsInRow}
use linux_ant_hal.Chardev.Thread.Rows.{LastRows, thread-ReadsInRow}
use linux_ant_hal.Chardev.Sample.{good_os, good_answer, on}

abbrev empty_buffers : Buffers
empty_buffers i = record { bytes = λ j. 0; length = 0 }

silence_resets_example :
    let (_, h', t') =
      do_reset good_os
        (record on { waiting_for_keepalive_response = true; run_thread = true })
        (poll_files (polled_files on) 5000
          ∷ thread_create
          ∷ poll_files (polled_files on) 30000
          ∷ []) in
    fn_rx_thread good_os 3 2 empty_buffers on [] ≡ (some empty_buffers, h', t')
silence_resets_example = silence_resets good_os 3 0 empty_buffers on [] refl refl refl refl refl

-- Both channels have data, five bytes at a time.
abbrev data_answer : Call → ℤ
data_answer (poll_files _ _) = pos 1
data_answer (read_file _ _) = pos 5
data_answer c = good_answer c

abbrev data_os : Os
data_os = record good_os { ret = λ t c. data_answer c; revents = λ t i f. ltb i 2 }

thread-ReadsInRow_example :
    let (r, _, t') = fn_rx_thread data_os 3 2 empty_buffers on [] in ReadsInRow t' × LastRows r
thread-ReadsInRow_example =
    thread-ReadsInRow data_os 3 2 empty_buffers on [] (λ u j. omega arith)
      (λ i. record { short = omega arith; small = λ j. omega arith }) tt

thread_releases_example :
    holds good_os enabled_status_lock (fn_rx_thread good_os 3 2 empty_buffers on []).2 ≡ false
unfolding holds
thread_releases_example = thread_releases good_os 3 2 empty_buffers on [] enabled_status_lock refl
