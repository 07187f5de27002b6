-- ===== src/Events/Registry.antt =====
-- src/events/poller/registry.rs and src/key.rs: the event sources of a poller, by their keys.
--
-- `epoll_ctl` is the parameter `Epoll`: what the kernel keeps, and the error it may give. The map of the
-- keys (`DashMap`) is a parameter; a key is a `u64`, and the generator's counter wraps.
pub mod Keys
use cl_async.Base.{ℕ, suc, ◌+◌, ◌%◌, ◌^◌, Option, none, some, Result, ok, err, Dict}
use cl_async.Base.Int.{ℤ}
use cl_async.OsError.{OsError}

abbrev pub u64_mod : ℕ
u64_mod = 2 ^ 64

-- `epoll_ctl` on one poller: `ADD` and `MOD` take the fd, the bits of the interest and the key.
pub record Epoll : Type 1 where
  pub Kernel : Type 0
  pub add : ℤ → ℕ → ℕ → Kernel → Option OsError × Kernel
  pub modify : ℤ → ℕ → ℕ → Kernel → Option OsError × Kernel
  pub delete : ℤ → Kernel → Option OsError × Kernel

pub data EventPollerRegistryError : Type 0 where
  failed_to_register_interest : OsError → EventPollerRegistryError
  failed_to_modify_interest : OsError → EventPollerRegistryError
  failed_to_deregister_interest : OsError → EventPollerRegistryError

module _ (E : Epoll) (D : Dict ℤ) where
  -- `EventPollerRegistry`, with the counter of its `KeyGenerator`.
  pub record Registry : Type 0 where
    pub kernel : E.Kernel
    pub next_key : ℕ
    pub key_fds : D.Map

  -- `KeyGenerator::get`.
  unfoldable pub next : Registry → ℕ × Registry
  next r = (r.next_key, record r { next_key = (r.next_key + 1) % u64_mod })

  -- The end of `register_interest`, on what `epoll_ctl` answered.
  unfoldable pub registered :
      ℤ → ℕ → Option OsError → Registry → Result ℕ EventPollerRegistryError × Registry
  registered fd key none r = (ok key, record r { key_fds = D.insert r.key_fds key fd })
  registered fd key (some e) r = (err (EventPollerRegistryError.failed_to_register_interest e), r)

  unfoldable pub register_interest : ℤ → ℕ → Registry → Result ℕ EventPollerRegistryError × Registry
  unfolding next registered
  register_interest fd interest r =
      let (key, r') = next r in
      let (failure, kernel) = E.add fd interest key r'.kernel in
      registered fd key failure (record r' { kernel = kernel })

  unfoldable pub modify_interest :
      ℕ → ℕ → Registry → Result {0, 0} Unit EventPollerRegistryError × Registry
  modify_interest key interest r = elim (D.get r.key_fds key) [
    | none ↦ (err (EventPollerRegistryError.failed_to_modify_interest OsError.not_found), r)
    | some fd ↦
        let (failure, kernel) = E.modify fd interest key r.kernel in
        elim failure [
          | some e ↦ (
            err (EventPollerRegistryError.failed_to_modify_interest e),
            record r { kernel = kernel },
          )
          | none ↦ (ok tt, record r { kernel = kernel })
        ]
  ]

  -- The end of `deregister_interest`, likewise.
  unfoldable pub deregistered :
      Option OsError → Registry → Result {0, 0} Unit EventPollerRegistryError × Registry
  deregistered none r = (ok tt, r)
  deregistered (some e) r = (err (EventPollerRegistryError.failed_to_deregister_interest e), r)

  unfoldable pub deregister_interest :
      ℕ → Registry → Result {0, 0} Unit EventPollerRegistryError × Registry
  unfolding deregistered
  deregister_interest key r = elim (D.get r.key_fds key) [
    | none ↦ (err (EventPollerRegistryError.failed_to_deregister_interest OsError.not_found), r)
    | some fd ↦
        let (failure, kernel) = E.delete fd r.kernel in
        deregistered failure (record r { kernel = kernel; key_fds = D.remove r.key_fds key })
  ]
