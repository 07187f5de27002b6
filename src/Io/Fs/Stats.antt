-- ===== src/Io/Fs/Stats.antt =====
-- src/io/fs/stats.rs: what `statx` says of a file, for the parts that the mask asks for.
--
-- `stx_mode` and the numbers of the devices are as `statx` gives them; a set of the mask is the test of its
-- flags. A `SystemTime` is its seconds since the epoch and the nanoseconds after them.
use cl_async.Base.{
  ℕ, zero, suc, ◌+◌, ◌-◌, ◌/◌, ◌%◌, ◌<◌, ◌^◌, ◌==◌, ltb, ◌≡◌, refl, Bool, true, false, ◌||◌,
  if◌then◌else◌, Option, none, some, arith,
}
use cl_async.Base.Int.{ℤ, pos, negsuc}
use cl_async.Io.Fs.Mode.{IoFileSystemMode, from_mode_t}

-- The flags of `IoStatxMask` that `new` asks for.
pub data MaskFlag : Type 0 where
  type_or_mode nlink uid gid ino size blocks : MaskFlag
  atime mtime ctime birthtime mnt_id dioalign : MaskFlag

pub record StatxTimestamp : Type 0 where
  pub tv_sec : ℤ
  pub tv_nsec : ℕ

pub record Statx : Type 0 where
  pub stx_mode : ℕ
  pub stx_nlink : ℕ
  pub stx_uid : ℕ
  pub stx_gid : ℕ
  pub stx_ino : ℕ
  pub stx_size : ℕ
  pub stx_blocks : ℕ
  pub stx_blksize : ℕ
  pub stx_atime : StatxTimestamp
  pub stx_mtime : StatxTimestamp
  pub stx_ctime : StatxTimestamp
  pub stx_btime : StatxTimestamp
  pub stx_rdev_major : ℕ
  pub stx_rdev_minor : ℕ
  pub stx_dev_major : ℕ
  pub stx_dev_minor : ℕ
  pub stx_mnt_id : ℕ
  pub stx_dio_mem_align : ℕ
  pub stx_dio_offset_align : ℕ

pub record SystemTime : Type 0 where
  pub secs : ℤ
  pub nanos : ℕ

abbrev billion : ℕ
billion = 1000000000

-- `Duration::new`.
pub record Duration : Type 0 where
  pub as_secs : ℕ
  pub subsec_nanos : ℕ

duration : ℕ → ℕ → Duration
duration secs nanos = record { as_secs = secs + nanos / billion; subsec_nanos = nanos % billion }

-- `UNIX_EPOCH.checked_add` and `UNIX_EPOCH.checked_sub`; the seconds are an `i64`.
checked_add : Duration → Option SystemTime
checked_add d =
    if ltb d.as_secs (2 ^ 63)
    then some (record { secs = pos d.as_secs; nanos = d.subsec_nanos })
    else none

before_epoch : (secs : ℕ) → Option SystemTime
before_epoch zero = some (record { secs = pos 0; nanos = 0 })
before_epoch (suc n) = if ltb n (2 ^ 63) then some (record { secs = negsuc n; nanos = 0 }) else none

checked_sub : Duration → Option SystemTime
unfolding before_epoch
checked_sub d =
    if d.subsec_nanos == 0
    then before_epoch d.as_secs
    else if ltb d.as_secs (2 ^ 63)
    then some (record { secs = negsuc d.as_secs; nanos = billion - d.subsec_nanos })
    else none

-- `statx_mask_time!`, of a time that the mask asks for.
unfoldable pub system_time : ℤ → ℕ → Option SystemTime
unfolding checked_add checked_sub duration
system_time (pos secs) nsec = checked_add (duration secs nsec)
system_time (negsuc n) nsec =
    let secs_before_epoch = suc n in
    if nsec == 0
    then checked_sub (duration secs_before_epoch 0)
    else checked_sub (duration (secs_before_epoch - 1) (billion - nsec))

-- The seconds and their negation fit an `i64`.
abbrev pub FitsSeconds : ℤ → Type 0
FitsSeconds (pos n) = n < 2 ^ 63
FitsSeconds (negsuc n) = suc n < 2 ^ 63

-- A time of the kernel whose seconds and their negation fit an `i64`, with fewer nanoseconds than a second
-- has, is the same time, before the epoch too.
pub system_time_lem :
    (secs : ℤ) (nsec : ℕ)
    → nsec < 1000000000
    → FitsSeconds secs
    → system_time secs nsec ≡ some (record { secs = secs; nanos = nsec })
unfolding system_time
system_time_lem (pos n) nsec h fits = ground arith
system_time_lem (negsuc n) nsec h fits = ground arith

-- `Stats`; `descriptor_type` is the number of its bits.
pub record Stats : Type 0 where
  pub mode : Option IoFileSystemMode
  pub descriptor_type : Option ℕ
  pub n_links : Option ℕ
  pub user_id : Option ℕ
  pub group_id : Option ℕ
  pub inode : Option ℕ
  pub size : Option ℕ
  pub block_count : Option ℕ
  pub block_size : Option ℕ
  pub last_access_time : Option SystemTime
  pub last_modification_time : Option SystemTime
  pub last_status_change_time : Option SystemTime
  pub creation_time : Option SystemTime
  pub rdev_major : Option ℕ
  pub rdev_minor : Option ℕ
  pub device_id_major : Option ℕ
  pub device_id_minor : Option ℕ
  pub mount_id : Option ℕ
  pub direct_io_memory_alignment : Option ℕ
  pub direct_io_offset_alignment : Option ℕ

-- `Default`.
unfoldable pub no_stats : Stats
no_stats = record {
  mode = none;
  descriptor_type = none;
  n_links = none;
  user_id = none;
  group_id = none;
  inode = none;
  size = none;
  block_count = none;
  block_size = none;
  last_access_time = none;
  last_modification_time = none;
  last_status_change_time = none;
  creation_time = none;
  rdev_major = none;
  rdev_minor = none;
  device_id_major = none;
  device_id_minor = none;
  mount_id = none;
  direct_io_memory_alignment = none;
  direct_io_offset_alignment = none;
}

-- The bits of `S_IFMT`, all of which `IoFileDescriptorType` names.
unfoldable pub file_type : ℕ → ℕ
file_type mode = mode % 65536 - mode % 4096

module _ (mask : MaskFlag → Bool) where
  -- `statx_mask!` and `statx_mask_time!`.
  abbrev masked : {A : Type 0} → MaskFlag → A → Option A
  masked flag field = if mask flag then some field else none

  abbrev masked_time : MaskFlag → StatxTimestamp → Option SystemTime
  masked_time flag t = if mask flag then system_time t.tv_sec t.tv_nsec else none

  unfoldable pub new : Statx → Stats
  unfolding file_type
  new stats = record {
    mode = masked type_or_mode (from_mode_t stats.stx_mode);
    descriptor_type = masked type_or_mode (file_type stats.stx_mode);
    n_links = masked nlink stats.stx_nlink;
    user_id = masked uid stats.stx_uid;
    group_id = masked gid stats.stx_gid;
    inode = masked ino stats.stx_ino;
    size = masked size stats.stx_size;
    block_count = masked blocks stats.stx_blocks;
    block_size = masked blocks stats.stx_blksize;
    last_access_time = masked_time atime stats.stx_atime;
    last_modification_time = masked_time mtime stats.stx_mtime;
    last_status_change_time = masked_time ctime stats.stx_ctime;
    creation_time = masked_time birthtime stats.stx_btime;
    rdev_major = masked type_or_mode stats.stx_rdev_major;
    rdev_minor = masked type_or_mode stats.stx_rdev_minor;
    device_id_major = masked ino stats.stx_dev_major;
    device_id_minor = masked ino stats.stx_dev_minor;
    mount_id = masked mnt_id stats.stx_mnt_id;
    direct_io_memory_alignment = masked dioalign stats.stx_dio_mem_align;
    direct_io_offset_alignment = masked dioalign stats.stx_dio_offset_align;
  }

-- `Option::or`.
abbrev either {ℓ} : {A : Type ℓ} → Option A → Option A → Option A
either none b = b
either (some a) b = some a

-- `Add for Stats`.
unfoldable pub add : Stats → Stats → Stats
add a b = record {
  mode = either a.mode b.mode;
  descriptor_type = either a.descriptor_type b.descriptor_type;
  n_links = either a.n_links b.n_links;
  user_id = either a.user_id b.user_id;
  group_id = either a.group_id b.group_id;
  inode = either a.inode b.inode;
  size = either a.size b.size;
  block_count = either a.block_count b.block_count;
  block_size = either a.block_size b.block_size;
  last_access_time = either a.last_access_time b.last_access_time;
  last_modification_time = either a.last_modification_time b.last_modification_time;
  last_status_change_time = either a.last_status_change_time b.last_status_change_time;
  creation_time = either a.creation_time b.creation_time;
  rdev_major = either a.rdev_major b.rdev_major;
  rdev_minor = either a.rdev_minor b.rdev_minor;
  device_id_major = either a.device_id_major b.device_id_major;
  device_id_minor = either a.device_id_minor b.device_id_minor;
  mount_id = either a.mount_id b.mount_id;
  direct_io_memory_alignment = either a.direct_io_memory_alignment b.direct_io_memory_alignment;
  direct_io_offset_alignment = either a.direct_io_offset_alignment b.direct_io_offset_alignment;
}

either_assoc {ℓ} : {A : Type ℓ} (a b c : Option A) → either (either a b) c ≡ either a (either b c)
either_assoc none b c = refl
either_assoc (some a) b c = refl

either-none {ℓ} : {A : Type ℓ} (a : Option A) → either a none ≡ a
either-none none = refl
either-none (some a) = refl

either-masked {ℓ} :
    {A : Type ℓ} (b c : Bool) (x : Option A)
    → either (if b then x else none) (if c then x else none) ≡ (if b || c then x else none)
either-masked false c x = refl
either-masked true c (some a) = refl
either-masked true true none = refl
either-masked true false none = refl

-- Adding is associative, and the empty statistics are neutral on both sides.
add_monoid :
    (a b c : Stats)
    → (add (add a b) c ≡ add a (add b c)) × (add no_stats a ≡ a) × (add a no_stats ≡ a)
unfolding add no_stats
add_monoid a b c = (
  λ i. record {
    mode = either_assoc a.mode b.mode c.mode i;
    descriptor_type = either_assoc a.descriptor_type b.descriptor_type c.descriptor_type i;
    n_links = either_assoc a.n_links b.n_links c.n_links i;
    user_id = either_assoc a.user_id b.user_id c.user_id i;
    group_id = either_assoc a.group_id b.group_id c.group_id i;
    inode = either_assoc a.inode b.inode c.inode i;
    size = either_assoc a.size b.size c.size i;
    block_count = either_assoc a.block_count b.block_count c.block_count i;
    block_size = either_assoc a.block_size b.block_size c.block_size i;
    last_access_time = either_assoc a.last_access_time b.last_access_time c.last_access_time i;
    last_modification_time =
        either_assoc a.last_modification_time b.last_modification_time c.last_modification_time i;
    last_status_change_time =
        either_assoc a.last_status_change_time b.last_status_change_time c.last_status_change_time
          i;
    creation_time = either_assoc a.creation_time b.creation_time c.creation_time i;
    rdev_major = either_assoc a.rdev_major b.rdev_major c.rdev_major i;
    rdev_minor = either_assoc a.rdev_minor b.rdev_minor c.rdev_minor i;
    device_id_major = either_assoc a.device_id_major b.device_id_major c.device_id_major i;
    device_id_minor = either_assoc a.device_id_minor b.device_id_minor c.device_id_minor i;
    mount_id = either_assoc a.mount_id b.mount_id c.mount_id i;
    direct_io_memory_alignment =
        either_assoc a.direct_io_memory_alignment b.direct_io_memory_alignment
          c.direct_io_memory_alignment i;
    direct_io_offset_alignment =
        either_assoc a.direct_io_offset_alignment b.direct_io_offset_alignment
          c.direct_io_offset_alignment i;
  },
  refl,
  λ i. record {
    mode = either-none a.mode i;
    descriptor_type = either-none a.descriptor_type i;
    n_links = either-none a.n_links i;
    user_id = either-none a.user_id i;
    group_id = either-none a.group_id i;
    inode = either-none a.inode i;
    size = either-none a.size i;
    block_count = either-none a.block_count i;
    block_size = either-none a.block_size i;
    last_access_time = either-none a.last_access_time i;
    last_modification_time = either-none a.last_modification_time i;
    last_status_change_time = either-none a.last_status_change_time i;
    creation_time = either-none a.creation_time i;
    rdev_major = either-none a.rdev_major i;
    rdev_minor = either-none a.rdev_minor i;
    device_id_major = either-none a.device_id_major i;
    device_id_minor = either-none a.device_id_minor i;
    mount_id = either-none a.mount_id i;
    direct_io_memory_alignment = either-none a.direct_io_memory_alignment i;
    direct_io_offset_alignment = either-none a.direct_io_offset_alignment i;
  },
)

abbrev both : (m n : MaskFlag → Bool) → MaskFlag → Bool
both m n flag = m flag || n flag

-- The statistics of one `statx` for two masks, added, are those for both masks together.
pub add-new : (m n : MaskFlag → Bool) (s : Statx) → add (new m s) (new n s) ≡ new (both m n) s
unfolding add new
add-new m n s = λ i. record {
  mode = either-masked (m type_or_mode) (n type_or_mode) (some (from_mode_t s.stx_mode)) i;
  descriptor_type = either-masked (m type_or_mode) (n type_or_mode) (some (file_type s.stx_mode)) i;
  n_links = either-masked (m nlink) (n nlink) (some s.stx_nlink) i;
  user_id = either-masked (m uid) (n uid) (some s.stx_uid) i;
  group_id = either-masked (m gid) (n gid) (some s.stx_gid) i;
  inode = either-masked (m ino) (n ino) (some s.stx_ino) i;
  size = either-masked (m size) (n size) (some s.stx_size) i;
  block_count = either-masked (m blocks) (n blocks) (some s.stx_blocks) i;
  block_size = either-masked (m blocks) (n blocks) (some s.stx_blksize) i;
  last_access_time =
      either-masked (m atime) (n atime) (system_time s.stx_atime.tv_sec s.stx_atime.tv_nsec) i;
  last_modification_time =
      either-masked (m mtime) (n mtime) (system_time s.stx_mtime.tv_sec s.stx_mtime.tv_nsec) i;
  last_status_change_time =
      either-masked (m ctime) (n ctime) (system_time s.stx_ctime.tv_sec s.stx_ctime.tv_nsec) i;
  creation_time =
      either-masked (m birthtime) (n birthtime) (system_time s.stx_btime.tv_sec s.stx_btime.tv_nsec)
        i;
  rdev_major = either-masked (m type_or_mode) (n type_or_mode) (some s.stx_rdev_major) i;
  rdev_minor = either-masked (m type_or_mode) (n type_or_mode) (some s.stx_rdev_minor) i;
  device_id_major = either-masked (m ino) (n ino) (some s.stx_dev_major) i;
  device_id_minor = either-masked (m ino) (n ino) (some s.stx_dev_minor) i;
  mount_id = either-masked (m mnt_id) (n mnt_id) (some s.stx_mnt_id) i;
  direct_io_memory_alignment = either-masked (m dioalign) (n dioalign) (some s.stx_dio_mem_align) i;
  direct_io_offset_alignment =
      either-masked (m dioalign) (n dioalign) (some s.stx_dio_offset_align) i;
}
