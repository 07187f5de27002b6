-- ===== src/Notifications/Signal.antt =====
-- src/notifications/signal.rs: the signals, as the crate names them, and as the system numbers them.
--
-- The numbers are libc's: `LibcSignal` gives each constant that the code names its value, and says that
-- no two of them are equal. A `c_int` is a `ℤ`.
pub mod RoundTrip
use cl_async.Base.{ℕ, ◌≡◌, ◌==◌, if◌then◌else◌, List, [], ◌∷◌}
use cl_async.Base.Int.{ℤ, pos, negsuc}

-- The constants of libc that the source names.
pub data Sig : Type 0 where
  sighup sigint sigquit sigkill sigtrap : Sig
  sigabrt sigbus sigfpe sigsegv sigpipe : Sig
  sigalrm sigterm sigchld sigcont sigstop : Sig
  sigtstp sigttin sigttou sigusr1 sigusr2 : Sig

pub record LibcSignal : Type 0 where
  pub sig : Sig → ℕ
  pub sig_injective : (a b : Sig) → sig a ≡ sig b → a ≡ b

pub data Signal : Type 0 where
  hangup interrupt quit kill trap abort : Signal
  bus_error floating_point_error segmentation_fault broken_pipe alarm terminate : Signal
  child_stopped continue stop terminal_stop tty_in tty_out : Signal
  user_defined unknown : ℤ → Signal

module _ (L : LibcSignal) where
  -- The arms of `From<c_int> for Signal`, in the order of the source; the default is not among them.
  pub arms : List (Sig × Signal)
  arms =
      (Sig.sighup, Signal.hangup)
      ∷ (Sig.sigint, Signal.interrupt)
      ∷ (Sig.sigquit, Signal.quit)
      ∷ (Sig.sigkill, Signal.kill)
      ∷ (Sig.sigtrap, Signal.trap)
      ∷ (Sig.sigabrt, Signal.abort)
      ∷ (Sig.sigbus, Signal.bus_error)
      ∷ (Sig.sigfpe, Signal.floating_point_error)
      ∷ (Sig.sigsegv, Signal.segmentation_fault)
      ∷ (Sig.sigpipe, Signal.broken_pipe)
      ∷ (Sig.sigalrm, Signal.alarm)
      ∷ (Sig.sigterm, Signal.terminate)
      ∷ (Sig.sigchld, Signal.child_stopped)
      ∷ (Sig.sigcont, Signal.continue)
      ∷ (Sig.sigstop, Signal.stop)
      ∷ (Sig.sigtstp, Signal.terminal_stop)
      ∷ (Sig.sigttin, Signal.tty_in)
      ∷ (Sig.sigttou, Signal.tty_out)
      ∷ (Sig.sigusr1, Signal.user_defined (pos (L.sig Sig.sigusr1)))
      ∷ (Sig.sigusr2, Signal.user_defined (pos (L.sig Sig.sigusr2)))
      ∷ []

  pub match_arms : ℕ → List (Sig × Signal) → Signal
  match_arms n [] = Signal.unknown (pos n)
  match_arms n ((s, r) ∷ rest) = if n == L.sig s then r else match_arms n rest

  -- `From<c_int> for Signal`.
  pub from : ℤ → Signal
  unfolding match_arms arms
  from (pos n) = match_arms n arms
  from (negsuc n) = Signal.unknown (negsuc n)

  -- `Into<c_int> for Signal`.
  pub into : Signal → ℤ
  into Signal.hangup = pos (L.sig Sig.sighup)
  into Signal.interrupt = pos (L.sig Sig.sigint)
  into Signal.quit = pos (L.sig Sig.sigquit)
  into Signal.kill = pos (L.sig Sig.sigkill)
  into Signal.trap = pos (L.sig Sig.sigtrap)
  into Signal.abort = pos (L.sig Sig.sigabrt)
  into Signal.bus_error = pos (L.sig Sig.sigbus)
  into Signal.floating_point_error = pos (L.sig Sig.sigfpe)
  into Signal.segmentation_fault = pos (L.sig Sig.sigsegv)
  into Signal.broken_pipe = pos (L.sig Sig.sigpipe)
  into Signal.alarm = pos (L.sig Sig.sigalrm)
  into Signal.terminate = pos (L.sig Sig.sigterm)
  into Signal.child_stopped = pos (L.sig Sig.sigchld)
  into Signal.continue = pos (L.sig Sig.sigcont)
  into Signal.stop = pos (L.sig Sig.sigstop)
  into Signal.terminal_stop = pos (L.sig Sig.sigtstp)
  into Signal.tty_in = pos (L.sig Sig.sigttin)
  into Signal.tty_out = pos (L.sig Sig.sigttou)
  into (Signal.user_defined signal) = signal
  into (Signal.unknown signal) = signal

  -- `Signal::handleable`.
  unfoldable pub handleable : List Signal
  handleable =
      Signal.hangup
      ∷ Signal.interrupt
      ∷ Signal.quit
      ∷ Signal.alarm
      ∷ Signal.terminate
      ∷ Signal.child_stopped
      ∷ Signal.continue
      ∷ Signal.tty_in
      ∷ Signal.tty_out
      ∷ Signal.user_defined (pos (L.sig Sig.sigusr1))
      ∷ Signal.user_defined (pos (L.sig Sig.sigusr2))
      ∷ []
