-- ===== src/Events/Registry/Keys.antt =====
-- src/events/poller/registry.rs: the keys that the registry gives out.
use cl_async.Base.{
  ℕ, ◌+◌, ◌%◌, ◌≤◌, ◌<◌, ◌≡◌, refl, ap, ◌∙◌, inl, inr, ◌==◌, ==_iff, if◌then◌else◌, Option, none,
  some, Option-cases, Result, ok, err, Dict, arith, false,
}
use cl_async.Base.Int.{ℤ}
use cl_async.OsError.{OsError}
use cl_async.Events.Registry.{
  u64_mod, Epoll, EventPollerRegistryError, Registry, next, registered, deregistered,
  register_interest, deregister_interest,
}

module _ (E : Epoll) (D : Dict ℤ) where
  -- Every key in the map was given out before.
  abbrev pub IsFresh : Registry E D → Type 0
  IsFresh r = (k : ℕ) → r.next_key ≤ k → D.get r.key_fds k ≡ none

  -- What a map holds under `k`, after a source that was given `answer`.
  abbrev pub expected : Result ℕ EventPollerRegistryError → ℤ → ℕ → Option ℤ → Option ℤ
  expected (ok key) fd k old = if key == k then some fd else old
  expected (err e) fd k old = old

  registered-get :
      (fd : ℤ) (key k : ℕ) (failure : Option OsError) (r : Registry E D)
      → D.get (registered E D fd key failure r).1.key_fds k
        ≡ expected (registered E D fd key failure r).0 fd k (D.get r.key_fds k)
  unfolding registered
  registered-get fd key k none r = D.get-insert r.key_fds key k fd
  registered-get fd key k (some e) r = refl

  registered-IsFresh :
      (fd : ℤ) (key : ℕ) (failure : Option OsError) (r : Registry E D)
      → key < r.next_key
      → IsFresh r
      → IsFresh (registered E D fd key failure r).1
  unfolding registered
  registered-IsFresh fd key none r lt fresh = λ k le.
      let other : (key == k) ≡ false = ground arith in
      D.get-insert r.key_fds key k fd ∙ rw other (fresh k le)
  registered-IsFresh fd key (some e) r lt fresh = fresh

  -- As long as the counter does not wrap, no key is given out twice: after a registration too, no key
  -- from the counter on is in the map.
  pub register_interest-IsFresh :
      (fd : ℤ) (interest : ℕ) (r : Registry E D)
      → r.next_key + 1 < u64_mod
      → IsFresh r
      → IsFresh (register_interest E D fd interest r).1
  unfolding register_interest next
  register_interest-IsFresh fd interest r small fresh =
      let (failure, kernel) = E.add fd interest r.next_key r.kernel in
      let s : Registry E D = record r { kernel = kernel; next_key = (r.next_key + 1) % u64_mod } in
      registered-IsFresh fd r.next_key failure s (omega arith) (λ k le. fresh k (omega arith))

  -- What `epoll_ctl` answers to a source, for the client.
  abbrev pub answer_to : ℕ → Option OsError → Result ℕ EventPollerRegistryError
  answer_to key none = ok key
  answer_to key (some e) = err (EventPollerRegistryError.failed_to_register_interest e)

  registered-answer :
      (fd : ℤ) (key : ℕ) (failure : Option OsError) (r : Registry E D)
      → ((registered E D fd key failure r).0 ≡ answer_to key failure)
        × ((registered E D fd key failure r).1.kernel ≡ r.kernel)
  unfolding registered
  registered-answer fd key none r = (refl, refl)
  registered-answer fd key (some e) r = (refl, refl)

  -- Registering a source, while no key from the counter on is in the map and the counter does not wrap,
  -- asks epoll_ctl to add it under the counter's key, answers with that key, or with the error of epoll_ctl
  -- exactly if there is one, and keeps the kernel as epoll_ctl leaves it. The fd is then found under the
  -- key, if there was no error; every other key is mapped as before, and no key from the new counter on is
  -- in the map.
  pub register_interest_lem :
      (fd : ℤ) (interest k : ℕ) (r : Registry E D)
      → r.next_key + 1 < u64_mod
      → IsFresh r
      → let (answer, r') = register_interest E D fd interest r in
        let (failure, kernel) = E.add fd interest r.next_key r.kernel in
        (answer ≡ answer_to r.next_key failure)
        × (r'.kernel ≡ kernel)
        × (D.get r'.key_fds k ≡ expected answer fd k (D.get r.key_fds k))
        × IsFresh r'
  unfolding register_interest next
  register_interest_lem fd interest k r small fresh =
      let (failure, kernel) = E.add fd interest r.next_key r.kernel in
      let s : Registry E D = record r { kernel = kernel; next_key = (r.next_key + 1) % u64_mod } in
      let (answers, keeps) = registered-answer fd r.next_key failure s in
      (
        answers,
        keeps,
        registered-get fd r.next_key k failure s,
        register_interest-IsFresh fd interest r small fresh,
      )

  deregistered-key_fds :
      (failure : Option OsError) (r : Registry E D)
      → (deregistered E D failure r).1.key_fds ≡ r.key_fds
  unfolding deregistered
  deregistered-key_fds none r = refl
  deregistered-key_fds (some e) r = refl

  get-remove_same : (m : D.Map) (k : ℕ) → D.get (D.remove m k) k ≡ none
  get-remove_same m k =
      D.get-remove m k k ∙ ap (λ b. if b then none else D.get m k) ((==_iff k k).1 refl)

  deregister_interest-gone :
      (key : ℕ) (r : Registry E D) → D.get (deregister_interest E D key r).1.key_fds key ≡ none
  unfolding deregister_interest
  deregister_interest-gone key r = elim (Option-cases (D.get r.key_fds key)) [
    | inl absent ↦ rw (absent, deregister_interest) absent
    | inr (fd, there) ↦
        rw (there, deregister_interest)
          (ap (λ m. D.get m key) (deregistered-key_fds (E.delete fd r.kernel).0 _)
            ∙ get-remove_same r.key_fds key)
  ]

  -- After `deregister_interest`, whatever `epoll_ctl` answered, the key is gone, so that a second one
  -- answers `NotFound` and changes nothing.
  deregister_interest_twice :
      (key : ℕ) (r : Registry E D)
      → let r' = (deregister_interest E D key r).1 in
        (D.get r'.key_fds key ≡ none)
        × (deregister_interest E D key r'
            ≡ (err (EventPollerRegistryError.failed_to_deregister_interest OsError.not_found), r'))
  unfolding deregister_interest
  deregister_interest_twice key r =
      let gone = deregister_interest-gone key r in (gone, rw (gone, deregister_interest) refl)
