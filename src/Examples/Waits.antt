-- ===== src/Examples/Waits.antt =====
-- Runs of the sleeps, of the channel of signals and of the settings of files on concrete inputs.
use cl_async.Base.{
  ℕ, ◌+◌, ◌-◌, ◌^◌, ◌<◌, ◌≡◌, refl, ◌==◌, ltb, Bool, true, false, not, ◌&&◌, ◌||◌, if◌then◌else◌,
  Option, none, some, Result, ok, err, List, [], ◌∷◌, All, arith,
}
use cl_async.Timing.Sleep.{Calls, Handled, is_pending, new}
use cl_async.Timing.Sleep.Life.{Event, polled, run, early_end_is_lost}
use cl_async.Events.Channel.{EventFd, sends, drain, sends-drain}
use cl_async.Io.Fs.OpenSettings.{Flags, LibcOpen, as_flags, new_dir, as_flags-new_dir}

abbrev good : Calls
good = record { create = ok tt; settime = ok tt; registered = true }

abbrev fine : Handled
fine = record { read = true; closed = true }

-- A kernel that arms a timer unless its time is zero.
abbrev linux : ℕ → ℕ → Bool
linux secs nanos = not (secs == 0 && nanos == 0)

abbrev asked_twice : List (Event ℕ)
asked_twice = polled 2 good none ∷ polled 3 good none ∷ []

early_end_is_lost_example :
    let (s, polls) = run ℕ linux (polled 1 good (some fine) ∷ asked_twice) (new ℕ 0 1) in
    (s.woken ≡ 1 ∷ []) × All (λ p. p ≡ is_pending) polls
early_end_is_lost_example =
    early_end_is_lost ℕ linux 0 1 1 good fine asked_twice (refl, refl, refl) refl

-- An `eventfd`.
pub record Held : Type 0 where
  pub number : ℕ
  pub nonblock : Bool
  pub semaphore : Bool

abbrev write_held : Held → ℕ → Option (Result ℕ ℕ × Held)
write_held fd n =
    if ltb (fd.number + n) (2 ^ 64 - 1)
    then some (ok 8, record fd { number = fd.number + n })
    else if fd.nonblock
    then some (err 11, fd)
    else none

abbrev read_held : Held → Option (Result (ℕ × ℕ) ℕ × Held)
read_held fd =
    if fd.number == 0
    then if fd.nonblock then some (err 11, fd) else none
    else some (
      ok (8, if fd.semaphore then 1 else fd.number),
      record fd { number = if fd.semaphore then fd.number - 1 else 0 },
    )

write_held-room :
    (fd : Held) (n : ℕ)
    → fd.number + n < 2 ^ 64 - 1
    → write_held fd n ≡ some (ok 8, record fd { number = fd.number + n })
write_held-room fd n h = ground arith

read_held-empty :
    (fd : Held) → fd.number ≡ 0 → fd.nonblock ≡ true → read_held fd ≡ some (err 11, fd)
read_held-empty fd h nb = ground arith

read_held-some :
    (fd : Held)
    → 0 < fd.number
    → read_held fd
      ≡ some (
        ok (8, if fd.semaphore then 1 else fd.number),
        record fd { number = if fd.semaphore then fd.number - 1 else 0 },
      )
read_held-some fd h = ground arith

abbrev eventfd : EventFd
eventfd = record {
  Fd = Held;
  count = λ fd. fd.number;
  nonblock = λ fd. fd.nonblock;
  semaphore = λ fd. fd.semaphore;
  eagain = 11;
  write = write_held;
  read = read_held;
  write_room =
      λ fd n h. (record fd { number = fd.number + n }, write_held-room fd n h, refl, refl, refl);
  read_empty = read_held-empty;
  read_some = λ fd h. (
    record fd { number = if fd.semaphore then fd.number - 1 else 0 },
    read_held-some fd h,
    refl,
    refl,
    refl,
  );
}

abbrev channel : Held
channel = record { number = 0; nonblock = true; semaphore = false }

sends-drain_example :
    (fd' : Held) × (fd'' : Held) × (sends eventfd (1 ∷ 1 ∷ []) channel ≡ some (ok tt, fd'))
    × (drain eventfd 3 fd' ≡ some (ok tt, fd''))
    × (fd''.number ≡ 0)
sends-drain_example = sends-drain eventfd (1 ∷ 1 ∷ []) channel 3 (omega arith) (omega arith) refl

-- A flag for each number.
abbrev flag : ℕ → Flags
flag n i = i == n

abbrev flags_of_libc : LibcOpen
flags_of_libc = record {
  o_excl = flag 7;
  o_directory = flag 16;
  o_nofollow = flag 17;
  o_trunc = flag 9;
  o_tmpfile = λ i. flag 22 i || flag 16 i;
  o_append = flag 10;
  o_async = flag 13;
  o_cloexec = flag 19;
  o_direct = flag 14;
  o_dsync = flag 12;
  o_largefile = λ i. false;
  o_noatime = flag 18;
  o_noctty = flag 8;
  o_nonblock = flag 11;
  o_ndelay = flag 11;
  o_path = flag 21;
  o_sync = λ i. flag 20 i || flag 12 i;
  o_creat = flag 6;
}

directory-apart : (i : ℕ) → flags_of_libc.o_directory i ≡ true → flags_of_libc.o_trunc i ≡ false
directory-apart i h = ground arith

as_flags-new_dir_example :
    as_flags flags_of_libc (new_dir flags_of_libc (flag 9) (λ i. false)) 9
    ≡ (flag 9 9 || flags_of_libc.o_directory 9)
as_flags-new_dir_example = as_flags-new_dir flags_of_libc (flag 9) (λ i. false) directory-apart 9
