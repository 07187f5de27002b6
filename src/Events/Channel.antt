-- ===== src/Events/Channel.antt =====
-- src/events/channel.rs: the channel of signals to a worker, an `eventfd`.
--
-- The calls of the kernel on the file descriptor are a parameter, with what is documented of them as laws:
-- `count` is the number that it holds. An error is its number; the bytes of a number are the number.
use cl_async.Base.{
  ℕ, zero, suc, ◌+◌, ◌-◌, ◌^◌, ◌<◌, ◌≡◌, refl, ap, ◌∙◌, ◌==◌, Bool, true, false, if◌then◌else◌,
  Option, none, some, List, [], ◌∷◌, Result, ok, err, Bool-cases, inl, inr, arith,
}

pub record EventFd : Type 1 where
  pub Fd : Type 0
  pub count : Fd → ℕ
  pub nonblock : Fd → Bool
  pub semaphore : Fd → Bool
  pub eagain : ℕ
  -- The number of bytes that are transferred, with the number that is read; `none` is a call that blocks.
  pub write : Fd → ℕ → Option (Result ℕ ℕ × Fd)
  pub read : Fd → Option (Result (ℕ × ℕ) ℕ × Fd)
  pub write_room :
      (fd : Fd) (n : ℕ)
      → count fd + n < 2 ^ 64 - 1
      → (fd' : Fd) × (write fd n ≡ some (ok 8, fd'))
        × (count fd' ≡ count fd + n)
        × (nonblock fd' ≡ nonblock fd)
        × (semaphore fd' ≡ semaphore fd)
  pub read_empty : (fd : Fd) → count fd ≡ 0 → nonblock fd ≡ true → read fd ≡ some (err eagain, fd)
  pub read_some :
      (fd : Fd)
      → 0 < count fd
      → (fd' : Fd) × (read fd ≡ some (ok (8, if semaphore fd then 1 else count fd), fd'))
        × (count fd' ≡ (if semaphore fd then count fd - 1 else 0))
        × (nonblock fd' ≡ nonblock fd)
        × (semaphore fd' ≡ semaphore fd)

pub data EventChannelError : Type 0 where
  failed_to_send_event failed_to_receive_event : (errno : ℕ) → EventChannelError
  partial_transfer : (bytes : ℕ) → EventChannelError

module _ (k : EventFd) where
  abbrev Done : Type 0 → Type 0
  Done A = Result A EventChannelError × k.Fd

  pub sent : Option (Result ℕ ℕ × k.Fd) → Option (Done (Unit {0}))
  sent none = none
  sent (some (err errno, fd)) = some (err (failed_to_send_event errno), fd)
  sent (some (ok bytes_written, fd)) =
      some ((if bytes_written == 8 then ok tt else err (partial_transfer bytes_written)), fd)

  unfoldable pub send : ℕ → k.Fd → Option (Done (Unit {0}))
  unfolding sent
  send value fd = sent (k.write fd value)

  unfoldable pub signal : k.Fd → Option (Done (Unit {0}))
  unfolding send
  signal = send 1

  pub received : Option (Result (ℕ × ℕ) ℕ × k.Fd) → Option (Done ℕ)
  received none = none
  received (some (err errno, fd)) = some (err (failed_to_receive_event errno), fd)
  received (some (ok (bytes_read, value), fd)) =
      some ((if bytes_read == 8 then ok value else err (partial_transfer bytes_read)), fd)

  unfoldable pub recv : k.Fd → Option (Done ℕ)
  unfolding received
  recv fd = received (k.read fd)

  -- The loop of `drain`, on fuel; `none` is a call that blocks or fuel that runs out.
  unfoldable pub drain : ℕ → k.Fd → Option (Done (Unit {0}))
  drain zero fd = none
  drain (suc fuel) fd = elim (k.read fd) [
    | none ↦ none
    | some (err errno, fd') ↦
        some ((if errno == k.eagain then ok tt else err (failed_to_receive_event errno)), fd')
    | some (ok (bytes_read, value), fd') ↦
        let rest = drain fuel fd' in
        if bytes_read == 8 then rest else some (err (partial_transfer bytes_read), fd')
  ]

  -- Values that are sent one after the other, until one fails.
  abbrev and_then :
      Option (Done (Unit {0})) → (k.Fd → Option (Done (Unit {0}))) → Option (Done (Unit {0}))
  and_then none next = none
  and_then (some (err e, fd)) next = some (err e, fd)
  and_then (some (ok _, fd)) next = next fd

  pub sends : List ℕ → k.Fd → Option (Done (Unit {0}))
  sends [] fd = some (ok tt, fd)
  sends (value ∷ values) fd = and_then (send value fd) (sends values)

  -- A read takes something from the number.
  drain_from :
      (fuel : ℕ) (fd : k.Fd)
      → k.count fd < fuel
      → k.nonblock fd ≡ true
      → (fd' : k.Fd) × (drain fuel fd ≡ some (ok tt, fd')) × (k.count fd' ≡ 0)
  unfolding drain
  drain_from zero fd h nb = absurd (omega arith)
  drain_from (suc fuel) fd h nb = elim (Bool-cases (k.count fd == 0)) [
    | inl empty ↦
        let none_left : k.count fd ≡ 0 = ground arith in
        let same : (k.eagain == k.eagain) ≡ true = ground arith in
        (fd, rw (k.read_empty fd none_left nb, drain, same) refl, none_left)
    | inr filled ↦
        let (fd', read, left, nb', _) = k.read_some fd (ground arith) in
        let fewer : k.count fd' < k.count fd = ground (arith, left) in
        let (fd'', rest, none_left) = drain_from fuel fd' (omega arith) (nb' ∙ nb) in
        (fd'', rw (read, drain) rest, none_left)
  ]

  abbrev pub sum : List ℕ → ℕ
  sum [] = 0
  sum (value ∷ values) = value + sum values

  sends_from :
      (values : List ℕ) (fd : k.Fd)
      → k.count fd + sum values < 2 ^ 64 - 1
      → (fd' : k.Fd) × (sends values fd ≡ some (ok tt, fd'))
        × (k.count fd' ≡ k.count fd + sum values)
        × (k.nonblock fd' ≡ k.nonblock fd)
        × (k.semaphore fd' ≡ k.semaphore fd)
  unfolding sends send
  sends_from [] fd h = (fd, refl, omega arith, refl, refl)
  sends_from (value ∷ values) fd h =
      let (fd', written, more, nb, sem) = k.write_room fd value (omega arith) in
      let (fd'', rest, all, nb', sem') = sends_from values fd' (omega (arith, more)) in
      (fd'', rw (written, sent) rest, omega (arith, more, all), nb' ∙ nb, sem' ∙ sem)

  recv_from :
      (fd : k.Fd)
      → 0 < k.count fd
      → k.semaphore fd ≡ false
      → (fd' : k.Fd) × (recv fd ≡ some (ok (k.count fd), fd'))
  unfolding recv
  recv_from fd h plain =
      let (fd', read, _, _, _) = k.read_some fd h in (fd', rw (read, received, plain) refl)

  -- Values that a channel that is no semaphore has room for, not all 0 with what was there before, are all
  -- sent, and a receiver then reads their sum with what was there.
  sends-recv :
      (values : List ℕ) (fd : k.Fd)
      → k.count fd + sum values < 2 ^ 64 - 1
      → 0 < k.count fd + sum values
      → k.semaphore fd ≡ false
      → (fd' : k.Fd) × (fd'' : k.Fd) × (sends values fd ≡ some (ok tt, fd'))
        × (recv fd' ≡ some (ok (k.count fd + sum values), fd''))
  sends-recv values fd room some_there plain =
      let (fd', all_sent, total, nb, sem) = sends_from values fd room in
      let (fd'', read) = recv_from fd' (omega (arith, total)) (sem ∙ plain) in
      (fd', fd'', all_sent, read ∙ ap (λ n. some (ok n, fd'')) total)

  -- Values that a channel that does not block has room for are all sent, and `drain`, a semaphore's too,
  -- then ends on fuel for each unit of the number, and leaves nothing.
  pub sends-drain :
      (values : List ℕ) (fd : k.Fd) (fuel : ℕ)
      → k.count fd + sum values < 2 ^ 64 - 1
      → k.count fd + sum values < fuel
      → k.nonblock fd ≡ true
      → (fd' : k.Fd) × (fd'' : k.Fd) × (sends values fd ≡ some (ok tt, fd'))
        × (drain fuel fd' ≡ some (ok tt, fd''))
        × (k.count fd'' ≡ 0)
  sends-drain values fd fuel room enough nonblocking =
      let (fd', all_sent, total, nb, sem) = sends_from values fd room in
      let (fd'', drained, empty) = drain_from fuel fd' (omega (arith, total)) (nb ∙ nonblocking) in
      (fd', fd'', all_sent, drained, empty)
