-- ===== src/App.antt =====
-- app/ant_app.c: the test application, a client of the library.
--
-- What is printed is a list of lines; a character is its number. A function that does not return has
-- the result `none`.
pub mod Commands
pub mod Loop
pub mod Callbacks
mod Tests
use linux_ant_hal.Base.{
  ℕ, Bool, true, false, Option, none, some, List, [], ◌∷◌, ◌++◌, ◌==◌, if◌then◌else◌,
}
use linux_ant_hal.Types.{RadioStatus, AntStatus, ant_status_success, ant_status_failed, eq_ant}
use linux_ant_hal.Os.{M, ◌>>=◌, ◌>>◌, pure}
use linux_ant_hal.Client.{Library}

-- What `ProcessCommand` prints.
pub data Line : Type 0 where
  hard_reset_returned enable_returned disable_returned : AntStatus → Line
  state_is : RadioStatus → Line
  not_implemented exiting : Line
  invalid_command : ℕ → Line

-- The message of a command that sends one, with the length that is passed with it.
pub command_message : ℕ → Option (ℕ × List ℕ)
command_message c =
    if c == b'V'
    then some (4, 0x02 ∷ 0x4D ∷ 0x00 ∷ 0x3E ∷ [])
    else if c == b'R'
    then some (3, 0x01 ∷ 0x4A ∷ 0x00 ∷ [])
    else if c == b'A'
    then some (5, 0x03 ∷ 0x42 ∷ 0x00 ∷ 0x00 ∷ 0x01 ∷ [])
    else if c == b'F'
    then some (4, 0x02 ∷ 0x45 ∷ 0x00 ∷ 57 ∷ [])
    else if c == b'I'
    then some (7, 0x05 ∷ 0x51 ∷ 0x00 ∷ 0x00 ∷ 0x00 ∷ 0x78 ∷ 0x00 ∷ [])
    else if c == b'P'
    then some (5, 0x03 ∷ 0x43 ∷ 0x00 ∷ 0x86 ∷ 0x1F ∷ [])
    else if c == b'O'
    then some (3, 0x01 ∷ 0x4B ∷ 0x00 ∷ [])
    else none

-- A message has been sent: nothing is printed.
pub sent : Option AntStatus → Option (List Line)
sent none = none
sent (some _) = some []

module _ {S : Type 0} (lib : Library S) where
  -- Runs one thing after another and joins what they print.
  pub followed_by : M S (Option (List Line)) → Option (List Line) → M S (Option (List Line))
  followed_by next none = pure none
  followed_by next (some lines) = do
    rest ← next
    pure (elim rest [ none ↦ none | some lines' ↦ some (lines ++ lines') ])

  -- the commands that send no message
  pub other_command : ℕ → M S (List Line)
  other_command c =
      if c == b'K'
      then (do r ← lib.ant_radio_hard_reset; pure (hard_reset_returned r ∷ []))
      else if c == b'E'
      then (do r ← lib.ant_enable_radio; pure (enable_returned r ∷ []))
      else if c == b'D'
      then (do r ← lib.ant_disable_radio; pure (disable_returned r ∷ []))
      else if c == b'S'
      then (do r ← lib.ant_radio_enabled_status; pure (state_is r ∷ []))
      else if c == b'1'
      then pure (not_implemented ∷ [])
      else if c == b'2'
      then pure (not_implemented ∷ [])
      else if c == b'X'
      then pure (exiting ∷ [])
      else pure (invalid_command c ∷ [])

  -- one command of `ProcessCommand`, but for 'H', by its message if it has one
  pub single_command : Option (ℕ × List ℕ) → ℕ → M S (Option (List Line))
  single_command none c = do lines ← other_command c; pure (some lines)
  single_command (some (len, mesg)) c = do r ← lib.ant_tx_message len mesg; pure (sent r)

  -- commands one after another
  pub command_sequence : List ℕ → M S (Option (List Line))
  command_sequence [] = pure (some [])
  command_sequence (c ∷ cs) = do
    r ← single_command (command_message c) c
    followed_by (command_sequence cs) r

  pub process_command : ℕ → M S (Option (List Line))
  process_command c =
      if c == b'H'
      then command_sequence (b'R' ∷ b'A' ∷ b'F' ∷ b'I' ∷ b'P' ∷ b'O' ∷ [])
      else single_command (command_message c) c

  -- `Ant_Create`, with the numbers of the callbacks
  pub ant_create : ℕ → ℕ → M S AntStatus
  ant_create rx state = do
    r ← lib.ant_init
    if eq_ant r ant_status_success
        then (do
          r' ← lib.set_ant_rx_callback (some rx)
          if eq_ant r' ant_status_success
              then (do
                r'' ← lib.set_ant_state_callback (some state)
                pure (if eq_ant r'' ant_status_success then r'' else ant_status_failed))
              else pure ant_status_failed)
        else pure ant_status_failed

  -- what follows the label `done` of `main`
  pub shut_down : M S (Option (List Line))
  shut_down = do
    r ← process_command b'R'
    r' ← followed_by (process_command b'D') r
    lib.ant_deinit
    pure r'

  -- The loop of `main`, over the first characters of the lines that are read. `none` is a loop that
  -- has not ended with them.
  pub command_loop : List ℕ → M S (Option (List Line))
  command_loop [] = pure none
  command_loop (c ∷ cs) = do
    r ← process_command c
    followed_by (if c == b'X' then shut_down else command_loop cs) r

  pub main : ℕ → ℕ → List ℕ → M S (Option (List Line))
  main rx state cs = do
    r ← ant_create rx state
    if eq_ant r ant_status_success then command_loop cs else pure (some [])
