-- ===== src/Notifications/Signal/RoundTrip.antt =====
-- src/notifications/signal.rs: the two conversions against each other.
use cl_async.Base.{
  ℕ, ◌≡◌, refl, sym, ap, ◌∙◌, inl, inr, ◌==◌, ==_iff, if◌then◌else◌, false, Bool-cases, some,
  some-injective, List, [], ◌∷◌, All, get_elem?,
}
use cl_async.Base.Int.{ℤ, pos, negsuc}
use cl_async.Notifications.Signal.{
  Sig, LibcSignal, Signal, arms, match_arms, from, into, handleable,
}

-- The place of a constant in a list of them all, to tell them apart.
pub index : Sig → ℕ
index Sig.sighup = 0
index Sig.sigint = 1
index Sig.sigquit = 2
index Sig.sigkill = 3
index Sig.sigtrap = 4
index Sig.sigabrt = 5
index Sig.sigbus = 6
index Sig.sigfpe = 7
index Sig.sigsegv = 8
index Sig.sigpipe = 9
index Sig.sigalrm = 10
index Sig.sigterm = 11
index Sig.sigchld = 12
index Sig.sigcont = 13
index Sig.sigstop = 14
index Sig.sigtstp = 15
index Sig.sigttin = 16
index Sig.sigttou = 17
index Sig.sigusr1 = 18
index Sig.sigusr2 = 19

constants : List Sig
constants =
    Sig.sighup ∷ Sig.sigint ∷ Sig.sigquit ∷ Sig.sigkill ∷ Sig.sigtrap ∷ Sig.sigabrt ∷ Sig.sigbus
    ∷ Sig.sigfpe ∷ Sig.sigsegv ∷ Sig.sigpipe ∷ Sig.sigalrm ∷ Sig.sigterm ∷ Sig.sigchld ∷ Sig.sigcont
    ∷ Sig.sigstop ∷ Sig.sigtstp ∷ Sig.sigttin ∷ Sig.sigttou ∷ Sig.sigusr1 ∷ Sig.sigusr2 ∷ []

constants-index : (a : Sig) → get_elem? constants (index a) ≡ some a
unfolding constants index
constants-index Sig.sighup = refl
constants-index a = refl

pub index-injective : (a b : Sig) → index a ≡ index b → a ≡ b
index-injective a b h =
    some-injective a b (sym (constants-index a) ∙ ap (get_elem? constants) h ∙ constants-index b)

module _ (L : LibcSignal) where
  other_sig : (a b : Sig) → (index a == index b) ≡ false → (L.sig a == L.sig b) ≡ false
  other_sig a b other = elim (Bool-cases (L.sig a == L.sig b)) [
    | inl same ↦
        same
        ∙ sym
            ((==_iff (index a) (index b)).1 (ap index (L.sig_injective a b ((==_iff _ _).0 same))))
        ∙ other
    | inr miss ↦ miss
  ]

  same_test : (a b : Sig) → (L.sig a == L.sig b) ≡ (index a == index b)
  same_test a b = elim (Bool-cases (index a == index b)) [
    | inl same ↦
        (==_iff (L.sig a) (L.sig b)).1 (ap L.sig (index-injective a b ((==_iff _ _).0 same)))
        ∙ sym same
    | inr other ↦ other_sig a b other ∙ sym other
  ]

  -- The arm of a constant.
  arm_of : Sig → ℤ → List (Sig × Signal) → Signal
  unfolding index
  arm_of a c [] = Signal.unknown c
  arm_of a c ((s, r) ∷ rest) = if index a == index s then r else arm_of a c rest

  match_arms-sig :
      (a : Sig) (rows : List (Sig × Signal))
      → match_arms L (L.sig a) rows ≡ arm_of a (pos (L.sig a)) rows
  unfolding match_arms arm_of
  match_arms-sig a [] = refl
  match_arms-sig a ((s, r) ∷ rest) =
      rw (same_test a s) (ap (λ t. if index a == index s then r else t) (match_arms-sig a rest))

  -- The signals that have a name of their own.
  abbrev pub IsNamed : Signal → Type 0
  IsNamed (Signal.user_defined signal) = ⊥
  IsNamed (Signal.unknown signal) = ⊥
  IsNamed s = Unit

  -- Each of them survives the way into a number and back.
  from-into_named : (s : Signal) → IsNamed s → from L (into L s) ≡ s
  unfolding from into arm_of arms
  from-into_named Signal.hangup h = match_arms-sig Sig.sighup (arms L)
  from-into_named Signal.interrupt h = match_arms-sig Sig.sigint (arms L)
  from-into_named Signal.quit h = match_arms-sig Sig.sigquit (arms L)
  from-into_named Signal.kill h = match_arms-sig Sig.sigkill (arms L)
  from-into_named Signal.trap h = match_arms-sig Sig.sigtrap (arms L)
  from-into_named Signal.abort h = match_arms-sig Sig.sigabrt (arms L)
  from-into_named Signal.bus_error h = match_arms-sig Sig.sigbus (arms L)
  from-into_named Signal.floating_point_error h = match_arms-sig Sig.sigfpe (arms L)
  from-into_named Signal.segmentation_fault h = match_arms-sig Sig.sigsegv (arms L)
  from-into_named Signal.broken_pipe h = match_arms-sig Sig.sigpipe (arms L)
  from-into_named Signal.alarm h = match_arms-sig Sig.sigalrm (arms L)
  from-into_named Signal.terminate h = match_arms-sig Sig.sigterm (arms L)
  from-into_named Signal.child_stopped h = match_arms-sig Sig.sigchld (arms L)
  from-into_named Signal.continue h = match_arms-sig Sig.sigcont (arms L)
  from-into_named Signal.stop h = match_arms-sig Sig.sigstop (arms L)
  from-into_named Signal.terminal_stop h = match_arms-sig Sig.sigtstp (arms L)
  from-into_named Signal.tty_in h = match_arms-sig Sig.sigttin (arms L)
  from-into_named Signal.tty_out h = match_arms-sig Sig.sigttou (arms L)
  from-into_named (Signal.user_defined signal) h = absurd h
  from-into_named (Signal.unknown signal) h = absurd h

  from_sigusr1 : from L (pos (L.sig Sig.sigusr1)) ≡ Signal.user_defined (pos (L.sig Sig.sigusr1))
  unfolding from arm_of arms
  from_sigusr1 = match_arms-sig Sig.sigusr1 (arms L)

  from_sigusr2 : from L (pos (L.sig Sig.sigusr2)) ≡ Signal.user_defined (pos (L.sig Sig.sigusr2))
  unfolding from arm_of arms
  from_sigusr2 = match_arms-sig Sig.sigusr2 (arms L)

  -- Every signal that `handleable` lists, the user's two among them, is the one that its number names.
  handleable_round_trips : All (λ s. from L (into L s) ≡ s) (handleable L)
  unfolding handleable into
  handleable_round_trips = (
    from-into_named Signal.hangup tt,
    (
      from-into_named Signal.interrupt tt,
      (
        from-into_named Signal.quit tt,
        (
          from-into_named Signal.alarm tt,
          (
            from-into_named Signal.terminate tt,
            (
              from-into_named Signal.child_stopped tt,
              (
                from-into_named Signal.continue tt,
                (
                  from-into_named Signal.tty_in tt,
                  (from-into_named Signal.tty_out tt, (from_sigusr1, (from_sigusr2, tt))),
                ),
              ),
            ),
          ),
        ),
      ),
    ),
  )

  abbrev IsUndone : Sig × Signal → Type 0
  IsUndone (s, r) = into L r ≡ pos (L.sig s)

  match_arms-into :
      (n : ℕ) (rows : List (Sig × Signal))
      → All IsUndone rows
      → into L (match_arms L n rows) ≡ pos n
  unfolding match_arms into
  match_arms-into n [] all = refl
  match_arms-into n ((s, r) ∷ rest) all = elim (Bool-cases (n == L.sig s)) [
    | inl hit ↦ rw hit (all.0 ∙ ap pos (sym ((==_iff _ _).0 hit)))
    | inr miss ↦ rw miss (match_arms-into n rest all.1)
  ]

  arms-IsUndone : All IsUndone (arms L)
  unfolding arms into
  arms-IsUndone = (
    refl,
    (
      refl,
      (
        refl,
        (
          refl,
          (
            refl,
            (
              refl,
              (
                refl,
                (
                  refl,
                  (
                    refl,
                    (
                      refl,
                      (
                        refl,
                        (refl, (refl, (refl, (refl, (refl, (refl, (refl, (refl, (refl, tt))))))))),
                      ),
                    ),
                  ),
                ),
              ),
            ),
          ),
        ),
      ),
    ),
  )

  -- Every number, of a signal or not, survives the way into `Signal` and back.
  signal_into-from : (c : ℤ) → into L (from L c) ≡ c
  unfolding from into
  signal_into-from (pos n) = match_arms-into n (arms L) arms-IsUndone
  signal_into-from (negsuc n) = refl
