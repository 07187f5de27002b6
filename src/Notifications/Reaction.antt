-- ===== src/Notifications/Reaction.antt =====
-- src/notifications/notification.rs, and from src/worker/mod.rs what a worker makes of a signal.
use cl_async.Base.{◌≡◌, ◌≢◌, refl, ◌⊎◌, inl, inr, Option, none, some, All}
use cl_async.Base.Int.{ℤ}
use cl_async.Notifications.Signal.{LibcSignal, Signal, handleable}

pub data Notification : Type 0 where
  go_on kill shutdown child_stopped : Notification
  custom : ℤ → Notification

-- The match on the signal in `worker_loop`; `go_on` is `Notification::Continue`. The code of `Custom` is
-- a `u64` there, cast from a signal number, which is not negative.
pub notification_of : Signal → Option Notification
notification_of Signal.continue = some Notification.go_on
notification_of Signal.tty_in = none
notification_of Signal.tty_out = none
notification_of Signal.interrupt = some Notification.shutdown
notification_of Signal.terminate = some Notification.shutdown
notification_of Signal.hangup = some Notification.shutdown
notification_of Signal.quit = some Notification.shutdown
notification_of Signal.alarm = some Notification.shutdown
notification_of (Signal.user_defined code) = some (Notification.custom code)
notification_of Signal.child_stopped = some Notification.child_stopped
notification_of other = none

-- What the worker then does: a shutdown stops it, a kill ends it, the others go to the subscribers.
pub data Reaction : Type 0 where
  stops ends ignores : Reaction
  broadcasts : Notification → Reaction

pub react : Option Notification → Reaction
react none = Reaction.ignores
react (some Notification.shutdown) = Reaction.stops
react (some Notification.kill) = Reaction.ends
react (some other) = Reaction.broadcasts other

abbrev IsTty : Signal → Type 0
IsTty s = (s ≡ Signal.tty_in) ⊎ (s ≡ Signal.tty_out)

-- No signal kills a worker; and each signal of `handleable` makes it stop or is passed on to the
-- subscribers, but for the two of a terminal, which it ignores.
pub handleable_reactions :
    (L : LibcSignal) (s : Signal)
    → (react (notification_of s) ≢ Reaction.ends)
      × All
          (λ h.
            (react (notification_of h) ≡ Reaction.stops)
            ⊎ ((n : Notification) × (react (notification_of h) ≡ Reaction.broadcasts n))
            ⊎ (IsTty h × (react (notification_of h) ≡ Reaction.ignores)))
          (handleable L)
unfolding handleable notification_of react
handleable_reactions L s = (
  never s,
  (
    inl refl,
    (
      inl refl,
      (
        inl refl,
        (
          inl refl,
          (
            inl refl,
            (
              inr (inl (Notification.child_stopped, refl)),
              (
                inr (inl (Notification.go_on, refl)),
                (
                  inr (inr (inl refl, refl)),
                  (inr (inr (inr refl, refl)), (inr (inl (_, refl)), (inr (inl (_, refl)), tt))),
                ),
              ),
            ),
          ),
        ),
      ),
    ),
  ),
)
  where
    never : (s : Signal) → react (notification_of s) ≢ Reaction.ends
    never Signal.hangup = λ e. cc e
    never s = λ e. cc e
