-- ===== src/OsError.antt =====
-- src/os_error.rs: the classification of the operating system's error numbers.
--
-- The numbers are libc's: `Libc` gives each constant that the code names its value, and says that no
-- two of them are equal. An `i32` is a `ℤ`.
pub mod RoundTrip
use cl_async.Base.{Option, none, some, ℕ, suc, ◌≡◌, ◌==◌, if◌then◌else◌, List, [], ◌∷◌}
use cl_async.Base.Int.{ℤ, pos, negsuc}

-- The constants of libc that the source names.
pub data Errno : Type 0 where
  einval emfile enfile enomem : Errno
  eacces ebadf eexist efault : Errno
  enoent eperm eintr ecanceled : Errno
  enotdir eisdir eagain einprogress : Errno
  edeadlk efbig eaddrinuse eaddrnotavail : Errno
  eafnosupport econnrefused econnreset econnaborted : Errno
  etimedout edestaddrreq emsgsize enomsg : Errno
  enotconn enetunreach enetdown ehostunreach : Errno
  ehostdown epipe enobufs enotsup : Errno
  ebusy : Errno

-- What libc is relied on for: a positive number for each constant, another for another.
pub record Libc : Type 0 where
  pub errno : Errno → ℕ
  pub errno_injective : (a b : Errno) → errno a ≡ errno b → a ≡ b

pub data OsError : Type 0 where
  max_fd_reached not_enough_memory operation_canceled operation_in_progress : OsError
  operation_forbidden operation_not_supported resource_unavailable resource_busy : OsError
  invalid_message message_too_long invalid_fd deadlock : OsError
  resource_too_large is_a_directory already_exists not_found : OsError
  not_a_directory invalid_pointer permission_denied operation_interrupted : OsError
  invalid_operation unknown_error address_in_use address_not_available : OsError
  address_family_not_supported connection_refused connection_reset not_connected : OsError
  connection_aborted connection_timed_out network_unreachable peer_unreachable : OsError
  network_disconnected peer_disconnected destination_address_required broken_pipe : OsError
  no_buffer_space : OsError
  generic : ℤ → OsError

-- The arms of `From<i32> for OsError`, in the order of the source; the default is not among them.
unfoldable pub arms : List (Errno × OsError)
arms =
    (Errno.einval, OsError.invalid_operation)
    ∷ (Errno.emfile, OsError.max_fd_reached)
    ∷ (Errno.enfile, OsError.max_fd_reached)
    ∷ (Errno.enomem, OsError.not_enough_memory)
    ∷ (Errno.eacces, OsError.operation_forbidden)
    ∷ (Errno.ebadf, OsError.invalid_fd)
    ∷ (Errno.eexist, OsError.already_exists)
    ∷ (Errno.efault, OsError.invalid_pointer)
    ∷ (Errno.enoent, OsError.not_found)
    ∷ (Errno.eperm, OsError.permission_denied)
    ∷ (Errno.eintr, OsError.operation_interrupted)
    ∷ (Errno.ecanceled, OsError.operation_canceled)
    ∷ (Errno.enotdir, OsError.not_a_directory)
    ∷ (Errno.eisdir, OsError.is_a_directory)
    ∷ (Errno.eagain, OsError.resource_unavailable)
    ∷ (Errno.einprogress, OsError.operation_in_progress)
    ∷ (Errno.edeadlk, OsError.deadlock)
    ∷ (Errno.efbig, OsError.resource_too_large)
    ∷ (Errno.eaddrinuse, OsError.address_in_use)
    ∷ (Errno.eaddrnotavail, OsError.address_not_available)
    ∷ (Errno.eafnosupport, OsError.address_family_not_supported)
    ∷ (Errno.econnrefused, OsError.connection_refused)
    ∷ (Errno.econnreset, OsError.connection_reset)
    ∷ (Errno.econnaborted, OsError.connection_aborted)
    ∷ (Errno.etimedout, OsError.connection_timed_out)
    ∷ (Errno.edestaddrreq, OsError.destination_address_required)
    ∷ (Errno.emsgsize, OsError.message_too_long)
    ∷ (Errno.enomsg, OsError.invalid_message)
    ∷ (Errno.enotconn, OsError.not_connected)
    ∷ (Errno.enetunreach, OsError.network_unreachable)
    ∷ (Errno.enetdown, OsError.network_disconnected)
    ∷ (Errno.ehostunreach, OsError.peer_unreachable)
    ∷ (Errno.ehostdown, OsError.peer_disconnected)
    ∷ (Errno.epipe, OsError.broken_pipe)
    ∷ (Errno.enobufs, OsError.no_buffer_space)
    ∷ []

module _ (L : Libc) where
  -- `match os_error { … , _ => OsError::Generic(os_error) }` on a number that is not negative.
  pub match_arms : ℕ → List (Errno × OsError) → OsError
  match_arms n [] = OsError.generic (pos n)
  match_arms n ((e, r) ∷ rest) = if n == L.errno e then r else match_arms n rest

  -- `From<i32> for OsError`.
  pub from : ℤ → OsError
  unfolding match_arms arms
  from (pos n) = match_arms n arms
  from (negsuc n) = OsError.generic (negsuc n)

  -- `Into<i32> for OsError`.
  pub into : OsError → ℤ
  into (OsError.generic code) = code
  into OsError.max_fd_reached = pos (L.errno Errno.emfile)
  into OsError.not_enough_memory = pos (L.errno Errno.enomem)
  into OsError.operation_canceled = pos (L.errno Errno.ecanceled)
  into OsError.operation_in_progress = pos (L.errno Errno.einprogress)
  into OsError.operation_forbidden = pos (L.errno Errno.eacces)
  into OsError.operation_not_supported = pos (L.errno Errno.enotsup)
  into OsError.resource_unavailable = pos (L.errno Errno.eagain)
  into OsError.resource_busy = pos (L.errno Errno.ebusy)
  into OsError.invalid_message = pos (L.errno Errno.enomsg)
  into OsError.message_too_long = pos (L.errno Errno.emsgsize)
  into OsError.invalid_fd = pos (L.errno Errno.ebadf)
  into OsError.deadlock = pos (L.errno Errno.edeadlk)
  into OsError.resource_too_large = pos (L.errno Errno.efbig)
  into OsError.is_a_directory = pos (L.errno Errno.eisdir)
  into OsError.already_exists = pos (L.errno Errno.eexist)
  into OsError.not_found = pos (L.errno Errno.enoent)
  into OsError.not_a_directory = pos (L.errno Errno.enotdir)
  into OsError.invalid_pointer = pos (L.errno Errno.efault)
  into OsError.permission_denied = pos (L.errno Errno.eperm)
  into OsError.operation_interrupted = pos (L.errno Errno.eintr)
  into OsError.invalid_operation = pos (L.errno Errno.einval)
  into OsError.unknown_error = negsuc 0
  into OsError.address_in_use = pos (L.errno Errno.eaddrinuse)
  into OsError.address_not_available = pos (L.errno Errno.eaddrnotavail)
  into OsError.address_family_not_supported = pos (L.errno Errno.eafnosupport)
  into OsError.connection_refused = pos (L.errno Errno.econnrefused)
  into OsError.connection_reset = pos (L.errno Errno.econnreset)
  into OsError.not_connected = pos (L.errno Errno.enotconn)
  into OsError.connection_aborted = pos (L.errno Errno.econnaborted)
  into OsError.connection_timed_out = pos (L.errno Errno.etimedout)
  into OsError.network_unreachable = pos (L.errno Errno.enetunreach)
  into OsError.peer_unreachable = pos (L.errno Errno.ehostunreach)
  into OsError.network_disconnected = pos (L.errno Errno.enetdown)
  into OsError.peer_disconnected = pos (L.errno Errno.ehostdown)
  into OsError.destination_address_required = pos (L.errno Errno.edestaddrreq)
  into OsError.broken_pipe = pos (L.errno Errno.epipe)
  into OsError.no_buffer_space = pos (L.errno Errno.enobufs)

  -- `From<std::io::Error> for OsError`, and `OsError::last`, on what `raw_os_error` gives.
  unfoldable pub from_raw_os_error : Option ℤ → OsError
  unfolding from
  from_raw_os_error none = OsError.unknown_error
  from_raw_os_error (some code) = from code
