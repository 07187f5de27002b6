-- ===== src/Io/Fs/OpenSettings.antt =====
-- src/io/operation/data/open_at.rs: how a file is opened. A set of flags says of each bit of its number
-- whether it is set. The flags of libc are parameters.
use cl_async.Base.{ℕ, ◌==◌, ◌≡◌, Bool, true, false, not, ◌&&◌, ◌||◌, Bool-cases, inl, inr, arith}
use cl_async.Io.Fs.Mode.{IoFileSystemMode, into_mode_t}

abbrev pub Flags : Type 0
Flags = ℕ → Bool

-- `a | b` and `a & b`.
abbrev union : Flags → Flags → Flags
union a b i = a i || b i

abbrev common : Flags → Flags → Flags
common a b i = a i && b i

pub record LibcOpen : Type 0 where
  pub o_excl : Flags
  pub o_directory : Flags
  pub o_nofollow : Flags
  pub o_trunc : Flags
  pub o_tmpfile : Flags
  pub o_append : Flags
  pub o_async : Flags
  pub o_cloexec : Flags
  pub o_direct : Flags
  pub o_dsync : Flags
  pub o_largefile : Flags
  pub o_noatime : Flags
  pub o_noctty : Flags
  pub o_nonblock : Flags
  pub o_ndelay : Flags
  pub o_path : Flags
  pub o_sync : Flags
  pub o_creat : Flags

pub data IoFileSystemAccessType : Type 0 where
  read_only write_only read_write : IoFileSystemAccessType

-- `as i32`.
access_bits : IoFileSystemAccessType → Flags
access_bits read_only i = false
access_bits write_only i = i == 0
access_bits read_write i = i == 1

pub data IoFileCreateMode : Type 0 where
  do_not_create : IoFileCreateMode
  create : IoFileSystemMode → IoFileCreateMode

module _ (l : LibcOpen) where
  as_flag : IoFileCreateMode → Flags
  as_flag do_not_create i = false
  as_flag (create mode) i = l.o_creat i

  -- The flags that `IoFileSystemOpenFlags` names.
  all_flags : Flags
  all_flags i =
      l.o_excl i
      || l.o_directory i
      || l.o_nofollow i
      || l.o_trunc i
      || l.o_tmpfile i
      || l.o_append i
      || l.o_async i
      || l.o_cloexec i
      || l.o_direct i
      || l.o_dsync i
      || l.o_largefile i
      || l.o_noatime i
      || l.o_noctty i
      || l.o_nonblock i
      || l.o_ndelay i
      || l.o_path i
      || l.o_sync i

  -- `!a` of bitflags: the named flags that are not in `a`.
  complement : Flags → Flags
  complement a i = all_flags i && not (a i)

  -- `&` binds tighter than `|`.
  unfoldable pub to_dir_safe : Flags → Flags
  unfolding complement all_flags
  to_dir_safe self = union self (common l.o_directory (complement l.o_trunc))

pub record IoFileOpenSettings : Type 0 where
  pub access_type : IoFileSystemAccessType
  pub open_flags : Flags
  pub resolve_flags : Flags
  pub mode : IoFileCreateMode

module _ (l : LibcOpen) where
  unfoldable pub new_dir : (open_flags resolve_flags : Flags) → IoFileOpenSettings
  new_dir open_flags resolve_flags = record {
    access_type = read_only;
    open_flags = to_dir_safe l open_flags;
    resolve_flags = resolve_flags;
    mode = do_not_create;
  }

  unfoldable pub as_flags : IoFileOpenSettings → Flags
  unfolding access_bits as_flag
  as_flags s = union (union (access_bits s.access_type) s.open_flags) (as_flag l s.mode)

  unfoldable pub mode_value : IoFileOpenSettings → ℕ
  mode_value s = elim s.mode [ do_not_create ↦ 0 | create mode ↦ into_mode_t mode ]

  -- The flags that a directory is opened with are those that are given and, if no bit of O_DIRECTORY is one
  -- of O_TRUNC, O_DIRECTORY; no other. So O_TRUNC stays, if it is given.
  pub as_flags-new_dir :
      (open_flags resolve_flags : Flags)
      → ((i : ℕ) → l.o_directory i ≡ true → l.o_trunc i ≡ false)
      → (i : ℕ) → as_flags (new_dir open_flags resolve_flags) i ≡ (open_flags i || l.o_directory i)
  unfolding as_flags new_dir to_dir_safe
  as_flags-new_dir open_flags resolve_flags apart i = elim (Bool-cases (l.o_directory i)) [
    | inl dir ↦ ground (arith, dir, apart i)
    | inr other ↦ ground (arith, other)
  ]
