-- ===== src/Io/Fs/Mode.antt =====
-- src/io/operation/data/open_at.rs: the permissions of a file, and its `mode_t`.
use cl_async.Base.{
  ℕ, ◌+◌, ◌*◌, ◌/◌, ◌%◌, ◌==◌, ◌<◌, ◌≡◌, ap, ◌∙◌, Bool, true, false, if◌then◌else◌, arith,
}

-- The bits of `IoFileSystemPermissions`.
pub record IoFileSystemPermissions : Type 0 where
  pub read : Bool
  pub write : Bool
  pub execute : Bool

pub record IoFileSystemMode : Type 0 where
  pub user_permissions : IoFileSystemPermissions
  pub group_permissions : IoFileSystemPermissions
  pub other_permissions : IoFileSystemPermissions

abbrev permissions : (read write execute : Bool) → IoFileSystemPermissions
permissions read write execute = record { read = read; write = write; execute = execute }

abbrev no_permissions : IoFileSystemPermissions
no_permissions = permissions false false false

pub new : (user group other : IoFileSystemPermissions) → IoFileSystemMode
new user group other = record {
  user_permissions = user;
  group_permissions = group;
  other_permissions = other;
}

abbrev private : IoFileSystemMode
private = new (permissions true true false) no_permissions no_permissions

abbrev private_read_only : IoFileSystemMode
private_read_only = new (permissions true false false) no_permissions no_permissions

abbrev private_executable : IoFileSystemMode
private_executable = new (permissions true true true) no_permissions no_permissions

abbrev private_read_executable : IoFileSystemMode
private_read_executable = new (permissions true false true) no_permissions no_permissions

abbrev shared_read_only : IoFileSystemMode
shared_read_only =
    new (permissions true true false) (permissions true false false) (permissions true false false)

abbrev shared_read_write : IoFileSystemMode
shared_read_write =
    new (permissions true true false) (permissions true true false) (permissions true true false)

abbrev shared_read_executable : IoFileSystemMode
shared_read_executable =
    new (permissions true true true) (permissions true false true) (permissions true false true)

abbrev group_read_only : IoFileSystemMode
group_read_only = new (permissions true true false) (permissions true false false) no_permissions

abbrev group_read_write : IoFileSystemMode
group_read_write = new (permissions true true false) (permissions true true false) no_permissions

abbrev group_read_executable : IoFileSystemMode
group_read_executable =
    new (permissions true true true) (permissions true false true) no_permissions

abbrev permissive : IoFileSystemMode
permissive =
    new (permissions true true true) (permissions true true true) (permissions true true true)

-- `to_directory_safe`, of one class and of all.
pub searchable : IoFileSystemPermissions → IoFileSystemPermissions
searchable p = if p.read then record p { execute = true } else p

unfoldable pub to_directory_safe : IoFileSystemMode → IoFileSystemMode
unfolding searchable
to_directory_safe m = record {
  user_permissions = searchable m.user_permissions;
  group_permissions = searchable m.group_permissions;
  other_permissions = searchable m.other_permissions;
}

-- `bits`, and `from_bits_truncate` of three bits.
abbrev bit : Bool → ℕ
bit b = if b then 1 else 0

pub bits : IoFileSystemPermissions → ℕ
bits p = 4 * bit p.read + 2 * bit p.write + bit p.execute

pub from_bits : ℕ → IoFileSystemPermissions
from_bits n = permissions (n / 4 % 2 == 1) (n / 2 % 2 == 1) (n % 2 == 1)

-- The conversions from and to `mode_t`. The three bits of the classes do not overlap, so that `|` adds.
unfoldable pub into_mode_t : IoFileSystemMode → ℕ
unfolding bits
into_mode_t m =
    bits m.user_permissions * 64 + bits m.group_permissions * 8 + bits m.other_permissions

unfoldable pub from_mode_t : ℕ → IoFileSystemMode
unfolding from_bits
from_mode_t value = record {
  user_permissions = from_bits (value / 64 % 8);
  group_permissions = from_bits (value / 8 % 8);
  other_permissions = from_bits (value % 8);
}

from_bits-bits : (p : IoFileSystemPermissions) → from_bits (bits p) ≡ p
unfolding from_bits bits
from_bits-bits p = ground arith

bits-from_bits : (n : ℕ) → n < 8 → bits (from_bits n) ≡ n
unfolding from_bits bits
bits-from_bits n h = ground arith

bits_bounds : (p : IoFileSystemPermissions) → bits p < 8
unfolding bits
bits_bounds p = ground arith

-- A mode survives the way into a `mode_t` and back; a `mode_t` keeps its nine bits of permissions on the way
-- back and loses the others.
pub mode_t_round_trip :
    (m : IoFileSystemMode) (value : ℕ)
    → (from_mode_t (into_mode_t m) ≡ m) × (into_mode_t (from_mode_t value) ≡ value % 512)
unfolding into_mode_t from_mode_t
mode_t_round_trip m value =
    let u = bits m.user_permissions in
    let g = bits m.group_permissions in
    let o = bits m.other_permissions in
    let hu = bits_bounds m.user_permissions in
    let hg = bits_bounds m.group_permissions in
    let ho = bits_bounds m.other_permissions in
    let eu : from_bits ((u * 64 + g * 8 + o) / 64 % 8) ≡ m.user_permissions =
      ap from_bits {y = u} (omega arith) ∙ from_bits-bits m.user_permissions in
    let eg : from_bits ((u * 64 + g * 8 + o) / 8 % 8) ≡ m.group_permissions =
      ap from_bits {y = g} (omega arith) ∙ from_bits-bits m.group_permissions in
    let eo : from_bits ((u * 64 + g * 8 + o) % 8) ≡ m.other_permissions =
      ap from_bits {y = o} (omega arith) ∙ from_bits-bits m.other_permissions in
    (
      λ i. record { user_permissions = eu i; group_permissions = eg i; other_permissions = eo i },
      omega (
        arith,
        bits-from_bits (value / 64 % 8) (omega arith),
        bits-from_bits (value / 8 % 8) (omega arith),
        bits-from_bits (value % 8) (omega arith),
      ),
    )
