-- ===== src/OsError/RoundTrip.antt =====
-- src/os_error.rs: the two conversions against each other.
use cl_async.Base.{
  ℕ, ◌≡◌, ◌≢◌, refl, sym, ap, ◌∙◌, ◌⊎◌, inl, inr, false, ◌==◌, ==_iff, if◌then◌else◌, Bool-cases,
  some, some-injective, List, [], ◌∷◌, All, get_elem?,
}
use cl_async.Base.Int.{ℤ, pos, negsuc}
use cl_async.OsError.{Errno, Libc, OsError, arms, match_arms, from, into}

-- The place of a constant in a list of them all, to tell them apart.
unfoldable pub index : Errno → ℕ
index Errno.einval = 0
index Errno.emfile = 1
index Errno.enfile = 2
index Errno.enomem = 3
index Errno.eacces = 4
index Errno.ebadf = 5
index Errno.eexist = 6
index Errno.efault = 7
index Errno.enoent = 8
index Errno.eperm = 9
index Errno.eintr = 10
index Errno.ecanceled = 11
index Errno.enotdir = 12
index Errno.eisdir = 13
index Errno.eagain = 14
index Errno.einprogress = 15
index Errno.edeadlk = 16
index Errno.efbig = 17
index Errno.eaddrinuse = 18
index Errno.eaddrnotavail = 19
index Errno.eafnosupport = 20
index Errno.econnrefused = 21
index Errno.econnreset = 22
index Errno.econnaborted = 23
index Errno.etimedout = 24
index Errno.edestaddrreq = 25
index Errno.emsgsize = 26
index Errno.enomsg = 27
index Errno.enotconn = 28
index Errno.enetunreach = 29
index Errno.enetdown = 30
index Errno.ehostunreach = 31
index Errno.ehostdown = 32
index Errno.epipe = 33
index Errno.enobufs = 34
index Errno.enotsup = 35
index Errno.ebusy = 36

constants : List Errno
constants =
    Errno.einval ∷ Errno.emfile ∷ Errno.enfile ∷ Errno.enomem ∷ Errno.eacces ∷ Errno.ebadf
    ∷ Errno.eexist ∷ Errno.efault ∷ Errno.enoent ∷ Errno.eperm ∷ Errno.eintr ∷ Errno.ecanceled
    ∷ Errno.enotdir ∷ Errno.eisdir ∷ Errno.eagain ∷ Errno.einprogress ∷ Errno.edeadlk ∷ Errno.efbig
    ∷ Errno.eaddrinuse ∷ Errno.eaddrnotavail ∷ Errno.eafnosupport ∷ Errno.econnrefused
    ∷ Errno.econnreset ∷ Errno.econnaborted ∷ Errno.etimedout ∷ Errno.edestaddrreq ∷ Errno.emsgsize
    ∷ Errno.enomsg ∷ Errno.enotconn ∷ Errno.enetunreach ∷ Errno.enetdown ∷ Errno.ehostunreach
    ∷ Errno.ehostdown ∷ Errno.epipe ∷ Errno.enobufs ∷ Errno.enotsup ∷ Errno.ebusy ∷ []

constants-index : (e : Errno) → get_elem? constants (index e) ≡ some e
unfolding constants index
constants-index Errno.einval = refl
constants-index e = refl

pub index-injective : (a b : Errno) → index a ≡ index b → a ≡ b
index-injective a b h =
    some-injective a b (sym (constants-index a) ∙ ap (get_elem? constants) h ∙ constants-index b)

-- The arm of a constant.
arm_of : Errno → ℤ → List (Errno × OsError) → OsError
unfolding index
arm_of a c [] = OsError.generic c
arm_of a c ((e, r) ∷ rest) = if index a == index e then r else arm_of a c rest

module _ (L : Libc) where
  same_test : (a b : Errno) → (L.errno a == L.errno b) ≡ (index a == index b)
  same_test a b = elim (Bool-cases (index a == index b)) [
    | inl same ↦
        (==_iff (L.errno a) (L.errno b)).1 (ap L.errno (index-injective a b ((==_iff _ _).0 same)))
        ∙ sym same
    | inr other ↦ different a b other
  ]
    where
      different :
          (a b : Errno)
          → (index a == index b) ≡ false
          → (L.errno a == L.errno b) ≡ (index a == index b)
      different a b other = elim (Bool-cases (L.errno a == L.errno b)) [
        | inl same ↦
            same
            ∙ sym (
                (==_iff (index a) (index b)).1
                  (ap index (L.errno_injective a b ((==_iff _ _).0 same))))
        | inr miss ↦ miss ∙ sym other
      ]

  match_arms-errno :
      (a : Errno) (rows : List (Errno × OsError))
      → match_arms L (L.errno a) rows ≡ arm_of a (pos (L.errno a)) rows
  unfolding match_arms arm_of
  match_arms-errno a [] = refl
  match_arms-errno a ((e, r) ∷ rest) =
      rw (same_test a e) (ap (λ t. if index a == index e then r else t) (match_arms-errno a rest))

  -- The errors that `From<i32>` can give for a number of libc's.
  abbrev pub IsRecognised : OsError → Type 0
  IsRecognised (OsError.generic c) = ⊥
  IsRecognised OsError.unknown_error = ⊥
  IsRecognised OsError.operation_not_supported = ⊥
  IsRecognised OsError.resource_busy = ⊥
  IsRecognised e = Unit

  -- Each of them survives the way into a number and back.
  from-into : (e : OsError) → IsRecognised e → from L (into L e) ≡ e
  unfolding from into arm_of arms
  from-into OsError.max_fd_reached h = match_arms-errno Errno.emfile arms
  from-into OsError.not_enough_memory h = match_arms-errno Errno.enomem arms
  from-into OsError.operation_canceled h = match_arms-errno Errno.ecanceled arms
  from-into OsError.operation_in_progress h = match_arms-errno Errno.einprogress arms
  from-into OsError.operation_forbidden h = match_arms-errno Errno.eacces arms
  from-into OsError.operation_not_supported h = absurd h
  from-into OsError.resource_unavailable h = match_arms-errno Errno.eagain arms
  from-into OsError.resource_busy h = absurd h
  from-into OsError.invalid_message h = match_arms-errno Errno.enomsg arms
  from-into OsError.message_too_long h = match_arms-errno Errno.emsgsize arms
  from-into OsError.invalid_fd h = match_arms-errno Errno.ebadf arms
  from-into OsError.deadlock h = match_arms-errno Errno.edeadlk arms
  from-into OsError.resource_too_large h = match_arms-errno Errno.efbig arms
  from-into OsError.is_a_directory h = match_arms-errno Errno.eisdir arms
  from-into OsError.already_exists h = match_arms-errno Errno.eexist arms
  from-into OsError.not_found h = match_arms-errno Errno.enoent arms
  from-into OsError.not_a_directory h = match_arms-errno Errno.enotdir arms
  from-into OsError.invalid_pointer h = match_arms-errno Errno.efault arms
  from-into OsError.permission_denied h = match_arms-errno Errno.eperm arms
  from-into OsError.operation_interrupted h = match_arms-errno Errno.eintr arms
  from-into OsError.invalid_operation h = match_arms-errno Errno.einval arms
  from-into OsError.address_in_use h = match_arms-errno Errno.eaddrinuse arms
  from-into OsError.address_not_available h = match_arms-errno Errno.eaddrnotavail arms
  from-into OsError.address_family_not_supported h = match_arms-errno Errno.eafnosupport arms
  from-into OsError.connection_refused h = match_arms-errno Errno.econnrefused arms
  from-into OsError.connection_reset h = match_arms-errno Errno.econnreset arms
  from-into OsError.not_connected h = match_arms-errno Errno.enotconn arms
  from-into OsError.connection_aborted h = match_arms-errno Errno.econnaborted arms
  from-into OsError.connection_timed_out h = match_arms-errno Errno.etimedout arms
  from-into OsError.network_unreachable h = match_arms-errno Errno.enetunreach arms
  from-into OsError.peer_unreachable h = match_arms-errno Errno.ehostunreach arms
  from-into OsError.network_disconnected h = match_arms-errno Errno.enetdown arms
  from-into OsError.peer_disconnected h = match_arms-errno Errno.ehostdown arms
  from-into OsError.destination_address_required h = match_arms-errno Errno.edestaddrreq arms
  from-into OsError.broken_pipe h = match_arms-errno Errno.epipe arms
  from-into OsError.no_buffer_space h = match_arms-errno Errno.enobufs arms
  from-into OsError.unknown_error h = absurd h
  from-into (OsError.generic c) h = absurd h

  -- The two that are missing from the arms: `from` reads their own numbers as `Generic`.
  from-into_unlisted :
      (from L (into L OsError.operation_not_supported)
        ≡ OsError.generic (pos (L.errno Errno.enotsup)))
      × (from L (into L OsError.resource_busy) ≡ OsError.generic (pos (L.errno Errno.ebusy)))
  unfolding from into arm_of arms
  from-into_unlisted = (match_arms-errno Errno.enotsup arms, match_arms-errno Errno.ebusy arms)

  -- An arm is undone by `into`, but for that of `ENFILE`.
  abbrev IsUndone : Errno × OsError → Type 0
  IsUndone (e, r) = (e ≡ Errno.enfile) ⊎ (into L r ≡ pos (L.errno e))

  match_arms-into :
      (n : ℕ) (rows : List (Errno × OsError))
      → n ≢ L.errno Errno.enfile
      → All IsUndone rows
      → into L (match_arms L n rows) ≡ pos n
  unfolding match_arms into
  match_arms-into n [] h all = refl
  match_arms-into n ((e, r) ∷ rest) h all = elim (Bool-cases (n == L.errno e)) [
    | inl hit ↦ rw hit (undone all.0 ((==_iff _ _).0 hit))
    | inr miss ↦ rw miss (match_arms-into n rest h all.1)
  ]
    where
      undone : IsUndone (e, r) → n ≡ L.errno e → into L r ≡ pos n
      undone (inl enfile) hit = absurd (h (hit ∙ ap L.errno enfile))
      undone (inr back) hit = back ∙ ap pos (sym hit)

  arms-IsUndone : All IsUndone arms
  unfolding arms into
  arms-IsUndone = (
    inr refl,
    (
      inr refl,
      (
        inl refl,
        (
          inr refl,
          (
            inr refl,
            (
              inr refl,
              (
                inr refl,
                (
                  inr refl,
                  (
                    inr refl,
                    (
                      inr refl,
                      (
                        inr refl,
                        (
                          inr refl,
                          (
                            inr refl,
                            (
                              inr refl,
                              (
                                inr refl,
                                (
                                  inr refl,
                                  (
                                    inr refl,
                                    (
                                      inr refl,
                                      (
                                        inr refl,
                                        (
                                          inr refl,
                                          (
                                            inr refl,
                                            (
                                              inr refl,
                                              (
                                                inr refl,
                                                (
                                                  inr refl,
                                                  (
                                                    inr refl,
                                                    (
                                                      inr refl,
                                                      (
                                                        inr refl,
                                                        (
                                                          inr refl,
                                                          (
                                                            inr refl,
                                                            (
                                                            inr refl,
                                                            (
                                                            inr refl,
                                                            (
                                                            inr refl,
                                                            (inr refl, (inr refl, (inr refl, tt))),
                                                            ),
                                                            ),
                                                            ),
                                                          ),
                                                        ),
                                                      ),
                                                    ),
                                                  ),
                                                ),
                                              ),
                                            ),
                                          ),
                                        ),
                                      ),
                                    ),
                                  ),
                                ),
                              ),
                            ),
                          ),
                        ),
                      ),
                    ),
                  ),
                ),
              ),
            ),
          ),
        ),
      ),
    ),
  )

  -- Every number but `ENFILE` survives the way into `OsError` and back.
  into-from : (c : ℤ) → c ≢ pos (L.errno Errno.enfile) → into L (from L c) ≡ c
  unfolding from into
  into-from (pos n) h = match_arms-into n arms (λ e. h (ap pos e)) arms-IsUndone
  into-from (negsuc n) h = refl

  -- `ENFILE` comes back as `EMFILE`.
  into-from_enfile : into L (from L (pos (L.errno Errno.enfile))) ≡ pos (L.errno Errno.emfile)
  unfolding from into arm_of arms
  into-from_enfile = ap (into L) (match_arms-errno Errno.enfile arms)
