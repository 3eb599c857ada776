-- ===== src/Chardev/Concurrent/Moves.antt =====
-- src/vfs/ant_native_chardev.c and src/vfs/ant_rx_chardev.c: where a thread of Chardev.Concurrent
-- stands, and the moves by which it passes through a function without another thread's help.
use linux_ant_hal.Base.{ℕ, ◌+◌, ◌≡◌, ◌≢◌, Bool, true, false, List, map, minus_one, length, All}
use linux_ant_hal.Types.{radio_status_disabled, radio_status_enabled}
use linux_ant_hal.Chardev.State.{Channel, Hal}
use linux_ant_hal.Chardev.Status.{IsOpen, ant_radio_enabled_status}

-- What runs under `stEnabledStatusLock`: three functions of the client, the end of the receive
-- thread, and `doReset`.
pub data Task : Type 0 where
  enable disable hard_reset : Task
  clean_up reset : Task

abbrev pub is_call : Task → Bool
is_call enable = true
is_call disable = true
is_call hard_reset = true
is_call _ = false

-- Where a thread stands.
pub data Pc : Type 0 where
  absent : Pc  -- not created
  idle : Pc  -- a client's thread outside the library
  locking : Task → Pc  -- before or in `pthread_mutex_lock`
  testing : Task → Pc  -- before the test of the status
  disabling : Task → Pc  -- start of `ant_disable`
  signalling : Task → Pc  -- before the write to the event
  joining : Task → Pc  -- before or in `pthread_join`
  closing : Task → Pc  -- before the loop that closes the channels
  enabling : Task → Pc  -- start of `ant_enable`
  setting : Task → Pc  -- before it sets `ucRunThread`
  opening : Task → Pc  -- before the loop that opens the channels
  starting : Task → Pc  -- before the test of the handle
  checking : Task → Pc  -- before the test for a thread that crashed
  -- the label `out` of `ant_enable`, where it succeeds or not: before the test of the handle, before the
  -- clearing of `ucRunThread`, and where it returns
  leaving clearing returning : Task → Bool → Pc
  unlocking : Task → Pc  -- before `pthread_mutex_unlock`
  looping : Pc  -- head of the loop of `fnRxThread`
  polling : Pc  -- before or in `poll`
  failing : Pc  -- in `doReset`, before it clears `ucRunThread`
  trying : Pc  -- before `pthread_mutex_trylock`
  ended : Pc

-- The shared state; `counter` is that of the shutdown event, and an `owner` of 0 is none.
pub record Shared : Type 0 where
  pub hal : Hal
  pub owner : ℕ
  pub counter : ℕ

abbrev pub set_hal : Shared → Hal → Shared
set_hal m h = record m { hal = h }

abbrev pub set_run : Shared → Bool → Shared
set_run m b = record m { hal = record m.hal { run_thread = b } }

-- `ucChipResetting = 0`, with which the two resets follow `ant_enable`
unfoldable pub end_reset : Task → Hal → Hal
end_reset hard_reset h = record h { chip_resetting = false }
end_reset reset h = record h { chip_resetting = false }
end_reset _ h = h

abbrev pub close_channel : Channel → Channel
close_channel c = record c { fd = minus_one }

-- after `ant_disable`
abbrev pub disabled : Task → Pc
disabled hard_reset = enabling hard_reset
disabled reset = enabling reset
disabled t = unlocking t

-- after an `ant_enable` that failed
abbrev pub not_enabled : Task → Pc
not_enabled enable = disabling enable
not_enabled t = unlocking t

-- after `pthread_mutex_unlock`
abbrev pub returned : Task → Pc
returned clean_up = ended
returned reset = ended
returned _ = idle

-- `ant_enable_radio`, `ant_disable_radio` and `ant_radio_hard_reset` about `ant_enable` and
-- `ant_disable`, and the unlocking that ends every task
pub data CallMove (i : ℕ) (m : Shared) : Pc → Shared → Pc → Type 0 where
  call : (t : Task) → is_call t ≡ true → CallMove i m idle m (locking t)
  lock :
      (t : Task)
      → is_call t ≡ true
      → m.owner ≡ 0
      → CallMove i m (locking t) (record m { owner = i }) (testing t)
  is_enabled :
      ant_radio_enabled_status m.hal ≡ radio_status_enabled
      → CallMove i m (testing enable) m (unlocking enable)
  to_enable :
      ant_radio_enabled_status m.hal ≢ radio_status_enabled
      → CallMove i m (testing enable) m (enabling enable)
  is_disabled :
      ant_radio_enabled_status m.hal ≡ radio_status_disabled
      → CallMove i m (testing disable) m (unlocking disable)
  to_disable :
      ant_radio_enabled_status m.hal ≢ radio_status_disabled
      → CallMove i m (testing disable) m (disabling disable)
  to_reset :
      CallMove i m
        (testing hard_reset)
        (set_hal m (record m.hal { chip_resetting = true }))
        (disabling hard_reset)
  unlock : (t : Task) → CallMove i m (unlocking t) (record m { owner = 0 }) (returned t)

-- `ant_enable`, but for the creation of a thread, and the end of a reset in its caller; a loop that
-- fails leaves any channels open.
pub data EnableMove (m : Shared) : Pc → Shared → Pc → Type 0 where
  not_read : (t : Task) → EnableMove m (enabling t) m (leaving t false)
  -- also a read of a counter of 0, which fails with EAGAIN
  read : (t : Task) → EnableMove m (enabling t) (record m { counter = 0 }) (setting t)
  set : (t : Task) → EnableMove m (setting t) (set_run m true) (opening t)
  not_opened :
      (t : Task) (cs : List Channel)
      → length cs ≡ length m.hal.channels
      → EnableMove m (opening t) (set_hal m (record m.hal { channels = cs })) (leaving t false)
  opened :
      (t : Task) (cs : List Channel)
      → length cs ≡ length m.hal.channels
      → All IsOpen cs
      → EnableMove m (opening t) (set_hal m (record m.hal { channels = cs })) (starting t)
  is_running : (t : Task) → m.hal.rx_thread ≢ 0 → EnableMove m (starting t) m (checking t)
  runs : (t : Task) → m.hal.run_thread ≡ true → EnableMove m (checking t) m (leaving t true)
  has_crashed :
      (t : Task) → m.hal.run_thread ≡ false → EnableMove m (checking t) m (leaving t false)
  has_thread :
      (t : Task) (ok : Bool) → m.hal.rx_thread ≢ 0 → EnableMove m (leaving t ok) m (returning t ok)
  has_none :
      (t : Task) (ok : Bool) → m.hal.rx_thread ≡ 0 → EnableMove m (leaving t ok) m (clearing t ok)
  clear : (t : Task) (ok : Bool) → EnableMove m (clearing t ok) (set_run m false) (returning t ok)
  succeed :
      (t : Task) → EnableMove m (returning t true) (set_hal m (end_reset t m.hal)) (unlocking t)
  give_up :
      (t : Task) → EnableMove m (returning t false) (set_hal m (end_reset t m.hal)) (not_enabled t)

-- `ant_disable`, but for the wait for a thread. The write to the event can fail only if
-- `WriteFails` holds.
pub data DisableMove (WriteFails : Type 0) (m : Shared) : Pc → Shared → Pc → Type 0 where
  no_thread :
      (t : Task)
      → m.hal.rx_thread ≡ 0
      → DisableMove WriteFails m (disabling t) (set_run m false) (closing t)
  stop :
      (t : Task)
      → m.hal.rx_thread ≢ 0
      → DisableMove WriteFails m (disabling t) (set_run m false) (signalling t)
  signal :
      (t : Task)
      → DisableMove WriteFails m (signalling t) (record m { counter = m.counter + 1 }) (joining t)
  not_signalled :
      (t : Task)
      → WriteFails
      → DisableMove WriteFails m
          (signalling t)
          (set_hal m (record m.hal { rx_thread = 0 }))
          (disabled t)
  close :
      (t : Task)
      → DisableMove WriteFails m
          (closing t)
          (set_hal m (record m.hal { channels = map close_channel m.hal.channels; rx_thread = 0 }))
          (disabled t)

-- `fnRxThread`, and `doReset` up to its call of `ant_disable`. What `poll` and the device report
-- is left open, but that the shutdown event is reported only if its counter is not 0.
pub data RxMove (i : ℕ) (m : Shared) : Pc → Shared → Pc → Type 0 where
  go_on : m.hal.run_thread ≡ true → RxMove i m looping m polling
  leave : m.hal.run_thread ≡ false → RxMove i m looping m trying
  quiet : RxMove i m polling m looping  -- a timeout, messages, or an event that is ignored
  shutdown :
      m.counter ≢ 0
      → RxMove i m polling
          (record m { counter = 0; hal = record m.hal { run_thread = false } })
          looping
  odd_event : RxMove i m polling (set_run m false) looping  -- another event on that descriptor
  alarm : RxMove i m polling (set_hal m (record m.hal { chip_resetting = true })) failing
  fail : RxMove i m failing (set_run m false) (locking reset)
  reset_lock :
      m.owner ≡ 0
      → RxMove i m
          (locking reset)
          (record m { owner = i; hal = record m.hal { rx_thread = 0 } })
          (disabling reset)
  try_lock :
      m.owner ≡ 0
      → RxMove i m trying
          (record m { owner = i; hal = record m.hal { rx_thread = 0 } })
          (disabling clean_up)
  busy : m.owner ≢ 0 → RxMove i m trying m ended
