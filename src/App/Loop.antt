-- ===== src/App/Loop.antt =====
-- app/ant_app.c: when `main` returns.
use linux_ant_hal.Base.{
  ℕ, ◌≡◌, ◌≢◌, ◌↔◌, Bool, true, false, not, ◌||◌, Option, none, some, List, [], ◌∷◌, arith, ◌==◌,
}
use linux_ant_hal.Types.{ant_status_success, eq_ant}
use linux_ant_hal.Os.{Trace}
use linux_ant_hal.Client.{Library}
use linux_ant_hal.App.{
  sent, followed_by, single_command, command_message, command_sequence, process_command, ant_create,
  shut_down, command_loop, main,
}

-- Whether a line that begins with 'X' is among those that are read.
abbrev pub has_exit : List ℕ → Bool
has_exit [] = false
has_exit (c ∷ cs) = let rest = has_exit cs in c == b'X' || rest

module _ {S : Type 0} (lib : Library S)
    (returns : (len : ℕ) (mesg : List ℕ) (s : S) (t : Trace)
      → (lib.ant_tx_message len mesg s t).0 ≢ none) where
  single_returns :
      (m : Option (ℕ × List ℕ)) (c : ℕ) (s : S) (t : Trace) → (single_command lib m c s t).0 ≢ none
  unfolding single_command sent
  single_returns none c s t = ground arith
  single_returns (some (len, mesg)) c s t = ground (arith, returns len mesg s t)

  sequence_returns : (cs : List ℕ) (s : S) (t : Trace) → (command_sequence lib cs s t).0 ≢ none
  unfolding command_sequence followed_by
  sequence_returns [] s t = ground arith
  sequence_returns (c ∷ cs) s t =
      let (_, s', t') = single_command lib (command_message c) c s t in
      ground (arith, single_returns (command_message c) c s t, sequence_returns cs s' t')

  command_returns : (c : ℕ) (s : S) (t : Trace) → (process_command lib c s t).0 ≢ none
  unfolding process_command
  command_returns c s t = ground (
    arith,
    sequence_returns (b'R' ∷ b'A' ∷ b'F' ∷ b'I' ∷ b'P' ∷ b'O' ∷ []) s t,
    single_returns (command_message c) c s t,
  )

  shut_down_returns : (s : S) (t : Trace) → (shut_down lib s t).0 ≢ none
  unfolding shut_down followed_by
  shut_down_returns s t =
      let (_, s', t') = process_command lib b'R' s t in
      ground (arith, command_returns b'R' s t, command_returns b'D' s' t')

  loop_returns :
      (cs : List ℕ) (s : S) (t : Trace)
      → ((command_loop lib cs s t).0 ≢ none) ↔ (has_exit cs ≡ true)
  unfolding command_loop followed_by
  loop_returns [] s t = ground arith
  loop_returns (c ∷ cs) s t =
      let (_, s', t') = process_command lib c s t in
      ground (arith, command_returns c s t, shut_down_returns s' t', loop_returns cs s' t')

  -- With a library whose transmissions return, `main` returns exactly if `Ant_Create` fails or a line
  -- that begins with 'X' is read.
  pub main_returns :
      (rx state : ℕ) (cs : List ℕ) (s : S) (t : Trace)
      → ((main lib rx state cs s t).0 ≢ none)
        ↔ ((not (eq_ant (ant_create lib rx state s t).0 ant_status_success) || has_exit cs) ≡ true)
  unfolding main
  main_returns rx state cs s t =
      let (_, s', t') = ant_create lib rx state s t in ground (arith, loop_returns cs s' t')
