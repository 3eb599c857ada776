-- ===== src/Os.antt =====
-- What the library asks of the operating system, as a monad over the library's state.
--
-- The system is not part of the repository, so it is a parameter `os : Os`: its answer to a call
-- may depend on all that was asked before (the trace, latest call first). A call is recorded in
-- the trace, which is how the theorems speak of what was done and in which order.
-- Calls of the client's callbacks are in the trace too; a callback does not call the library.
pub mod Keeps
use Prim.Native.String.{String}
use linux_ant_hal.Base.{
  ℕ, Bool, true, false, Option, List, [], ◌∷◌, ℤ, is_zero, ◌&&◌, ◌==◌, if◌then◌else◌,
}
use linux_ant_hal.Types.{RadioStatus}

pub data Mutex : Type 0 where
  enabled_status_lock : Mutex
  flow_control_lock : Mutex
  tx_lock : Mutex
  enable_lock : Mutex

-- The values of `errno` that the code tells apart.
pub data Errno : Type 0 where
  eagain eintr ebusy etimedout enodev enxio : Errno
  other_error : Errno

-- What the Java binding asks of the virtual machine.
pub data JavaCall : Type 0 where
  -- answered by the environment of the thread, 0 where it has none
  get_env attach_current_thread : JavaCall
  detach_current_thread : JavaCall
  exception_occurred exception_describe exception_clear throw_null_pointer : JavaCall
  new_byte_array : ℕ → JavaCall
  set_byte_array_region : List ℕ → JavaCall
  delete_local_ref : JavaCall
  get_byte_array_elements release_byte_array_elements : JavaCall
  call_rx_method : JavaCall
  call_state_method : ℕ → JavaCall
  find_class new_global_ref register_natives get_rx_method_id get_state_method_id : JavaCall

pub data Call : Type 0 where
  mutex_init mutex_destroy : Mutex → Call
  lock trylock unlock : Mutex → Call
  cond_signal : Call
  cond_timedwait : Call
  make_eventfd : Call
  open_file : String → Call
  close_file : ℤ → Call
  -- descriptor, and room in the caller's buffer
  read_file : ℤ → ℕ → Call
  -- descriptor, and the bytes handed over
  write_file : ℤ → List ℕ → Call
  -- the descriptor of an event counter, and what is added to it
  signal_eventfd : ℤ → ℕ → Call
  ioctl_reset : ℤ → Call
  -- the descriptors and the timeout in milliseconds
  poll_files : List ℤ → ℕ → Call
  thread_create : Call
  thread_join : ℕ → Call
  make_socket : Call
  bind_socket : ℤ → Call
  -- the socket, and the filter's type mask, two event masks and opcode
  set_filter : ℤ → ℕ → ℕ → ℕ → ℕ → Call
  get_time : Call
  nano_sleep : ℕ → Call
  -- the client's function, and what it is told
  state_callback : ℕ → RadioStatus → Call
  rx_callback : ℕ → ℕ → List ℕ → Call
  -- the functions of an external power library
  power_enable power_disable power_is_enabled : Call
  -- loading the Bluetooth vendor library and finding its interface, and the interface's functions
  load_vendor_library find_vendor_interface : Call
  vendor_init vendor_open vendor_close vendor_cleanup : Call
  -- whether the power is to be on
  vendor_power : Bool → Call
  java : JavaCall → Call

-- The flags that `poll` reports for a descriptor; `other_flag` is any further one.
pub data Flag : Type 0 where
  pollin pollrdnorm pollhup pollerr pollpri pollrdhup pollnval other_flag : Flag

abbrev pub Trace : Type 0
Trace = List Call

pub record Os : Type 0 where
  -- the value that a call returns
  pub ret : Trace → Call → ℤ
  -- `errno` after the latest call
  pub errno : Trace → Errno
  -- byte `i` of what the latest call read
  pub received : Trace → ℕ → ℕ
  -- the handle that the latest `pthread_create` stored
  pub thread : Trace → ℕ
  -- the latest `pthread_cond_timedwait`: 0, or the error number
  pub wait_error : Trace → Option Errno
  -- `ucFlowControlResp` after a wait in which other threads ran, from its value before
  pub flow_resp : Trace → ℕ → ℕ
  -- whether the other threads, a receive thread just started among them, leave `ucRunThread` set
  pub keeps_running : Trace → Bool
  -- the flags that the latest `poll` reported for the descriptor with that number
  pub revents : Trace → ℕ → Flag → Bool
  -- the byte that the code finds where none was stored: behind the end of a message, or in a part
  -- of a local array that was not filled
  pub stale : Trace → ℕ
  -- the descriptor that the latest opening by the vendor library stored
  pub vendor_fd : Trace → ℤ

abbrev pub mutex_code : Mutex → ℕ
mutex_code enabled_status_lock = 0
mutex_code flow_control_lock = 1
mutex_code tx_lock = 2
mutex_code enable_lock = 3

abbrev pub eq_mutex : Mutex → Mutex → Bool
eq_mutex a b = mutex_code a == mutex_code b

-- Whether the library holds a mutex after a trace: the latest call that bears on it is a `lock` or
-- `trylock` that returned 0.
unfoldable pub holds : Os → Mutex → Trace → Bool
holds os m [] = false
holds os m (lock n ∷ t) =
    let before = holds os m t in
    if eq_mutex n m && is_zero (os.ret t (lock n)) then true else before
holds os m (trylock n ∷ t) =
    let before = holds os m t in
    if eq_mutex n m && is_zero (os.ret t (trylock n)) then true else before
holds os m (unlock n ∷ t) = let before = holds os m t in if eq_mutex n m then false else before
holds os m (_ ∷ t) = holds os m t

-- What the client's state callback was told, latest first.
unfoldable pub told : Trace → List RadioStatus
told [] = []
told (state_callback f status ∷ t) = status ∷ told t
told (_ ∷ t) = told t

abbrev pub M : Type 0 → Type 0 → Type 0
M S A = S → Trace → A × S × Trace

infixl 5 ◌>>=◌ ◌>>◌
abbrev pub ◌>>=◌ : {S A B : Type 0} → M S A → (A → M S B) → M S B
◌>>=◌ m f s t = let (a, s', t') = m s t in f a s' t'

abbrev pub ◌>>◌ : {S A B : Type 0} → M S A → M S B → M S B
m >> k = m >>= λ _. k

module _ {S : Type 0} where
  abbrev pub pure : {A : Type 0} → A → M S A
  pure a s t = (a, s, t)

  abbrev pub get : M S S
  get s t = (s, s, t)

  abbrev pub put : S → M S (Unit {0})
  put s' s t = (tt, s', t)

  abbrev pub modify : (S → S) → M S (Unit {0})
  modify f s t = (tt, f s, t)

  -- A value that the system shows, as `errno`.
  abbrev pub after : {A : Type 0} → (Trace → A) → M S A
  after f s t = (f t, s, t)

  abbrev pub call : Os → Call → M S ℤ
  call os c s t = (os.ret t c, s, c ∷ t)

  -- A call whose result is not looked at.
  abbrev pub tell : Call → M S (Unit {0})
  tell c s t = (tt, s, c ∷ t)
