-- ===== src/Examples/Messages.antt =====
-- Runs of the control messages of src/io/message.rs, on a small interface of libc.
use cl_async.Base.{
  ℕ, zero, suc, ◌+◌, ◌*◌, ◌/◌, ◌≡◌, refl, sym, ap, ◌∙◌, List, [], ◌∷◌, ◌++◌, length, take, some,
  Result, ok, err, arith, ◌<◌, ◌^◌,
}
use cl_async.Base.Int.{ℤ, pos, negsuc}
use cl_async.Io.Buffers.Output.Taken.{take-whole}
use cl_async.Io.ControlMessage.{Plain, RawControlMessageOut, CmsgHeader, Cmsg}
use cl_async.Io.ControlMessage.Abi.{
  Abi, level_index, socket_index, ip_v4_index, ip_v6_index, tls_index, Ucred, Timeval, Timespec,
  InPktinfo, In6Pktinfo, SockExtendedErr, TlsRecordType,
}
use cl_async.Io.ControlMessage.Socket.{SocketLevelType}
use cl_async.Io.ControlMessage.IpV4.{IpV4LevelType}
use cl_async.Io.ControlMessage.Level.{IoControlMessageLevel, prepare_level}
use cl_async.Io.ControlMessage.RoundTrip.{
  received, ComesThrough, control_messages, parse_level-prepare_level,
}
use cl_async.Io.ControlMessage.Framing.{try_prepare_multi, try_parse_from_slice}
use cl_async.Io.ControlMessage.Framing.Slices.{try_parse_from_slice-try_prepare_multi}

-- A number with a sign takes two places.
abbrev sign : ℤ → ℕ
sign (pos n) = 0
sign (negsuc n) = 1

abbrev size_of : ℤ → ℕ
size_of (pos n) = n
size_of (negsuc n) = n

abbrev signed : ℕ → ℕ → ℤ
signed zero n = pos n
signed (suc s) n = negsuc n

signed-sign : (z : ℤ) → signed (sign z) (size_of z) ≡ z
signed-sign (pos n) = refl
signed-sign (negsuc n) = refl

abbrev read_int : List ℕ → ℤ
read_int (s ∷ n ∷ rest) = signed s n
read_int bytes = pos 0

abbrev int : Plain ℤ
int = record {
  size = 2;
  write = λ z. sign z ∷ size_of z ∷ [];
  read = read_int;
  IsValue = λ z. Unit;
  size-pos = omega arith;
  length-write = λ z v. refl;
  read-write = λ z rest v. signed-sign z;
}

abbrev read_ucred : List ℕ → Ucred
read_ucred (s ∷ n ∷ u ∷ g ∷ rest) = record { pid = signed s n; uid = u; gid = g }
read_ucred bytes = record { pid = pos 0; uid = 0; gid = 0 }

abbrev ucred : Plain Ucred
ucred = record {
  size = 4;
  write = λ c. sign c.pid ∷ size_of c.pid ∷ c.uid ∷ c.gid ∷ [];
  read = read_ucred;
  IsValue = λ c. Unit;
  size-pos = omega arith;
  length-write = λ c v. refl;
  read-write = λ c rest v. ap (λ z. record c { pid = z }) (signed-sign c.pid);
}

abbrev read_two : List ℕ → ℤ × ℤ
read_two (s ∷ n ∷ t ∷ m ∷ rest) = (signed s n, signed t m)
read_two bytes = (pos 0, pos 0)

abbrev timeval : Plain Timeval
timeval = record {
  size = 4;
  write = λ t. sign t.tv_sec ∷ size_of t.tv_sec ∷ sign t.tv_usec ∷ size_of t.tv_usec ∷ [];
  read = λ bytes. record { tv_sec = (read_two bytes).0; tv_usec = (read_two bytes).1 };
  IsValue = λ t. Unit;
  size-pos = omega arith;
  length-write = λ t v. refl;
  read-write = λ t rest v.
      ap (λ z. record { tv_sec = z; tv_usec = signed (sign t.tv_usec) (size_of t.tv_usec) })
        (signed-sign t.tv_sec)
      ∙ ap (λ z. record t { tv_usec = z }) (signed-sign t.tv_usec);
}

abbrev timespec : Plain Timespec
timespec = record {
  size = 4;
  write = λ t. sign t.tv_sec ∷ size_of t.tv_sec ∷ sign t.tv_nsec ∷ size_of t.tv_nsec ∷ [];
  read = λ bytes. record { tv_sec = (read_two bytes).0; tv_nsec = (read_two bytes).1 };
  IsValue = λ t. Unit;
  size-pos = omega arith;
  length-write = λ t v. refl;
  read-write = λ t rest v.
      ap (λ z. record { tv_sec = z; tv_nsec = signed (sign t.tv_nsec) (size_of t.tv_nsec) })
        (signed-sign t.tv_sec)
      ∙ ap (λ z. record t { tv_nsec = z }) (signed-sign t.tv_nsec);
}

abbrev read_pktinfo : List ℕ → InPktinfo
read_pktinfo (s ∷ n ∷ d ∷ a ∷ rest) = record {
  ipi_ifindex = signed s n;
  ipi_spec_dst = d;
  ipi_addr = a;
}
read_pktinfo bytes = record { ipi_ifindex = pos 0; ipi_spec_dst = 0; ipi_addr = 0 }

abbrev pktinfo : Plain InPktinfo
pktinfo = record {
  size = 4;
  write = λ p. sign p.ipi_ifindex ∷ size_of p.ipi_ifindex ∷ p.ipi_spec_dst ∷ p.ipi_addr ∷ [];
  read = read_pktinfo;
  IsValue = λ p. Unit;
  size-pos = omega arith;
  length-write = λ p v. refl;
  read-write = λ p rest v. ap (λ z. record p { ipi_ifindex = z }) (signed-sign p.ipi_ifindex);
}

abbrev read_pktinfo6 : List ℕ → In6Pktinfo
read_pktinfo6 (i ∷ rest) = record { ipi6_addr = take 16 rest; ipi6_ifindex = i }
read_pktinfo6 bytes = record { ipi6_addr = []; ipi6_ifindex = 0 }

abbrev pktinfo6 : Plain In6Pktinfo
pktinfo6 = record {
  size = 17;
  write = λ p. p.ipi6_ifindex ∷ p.ipi6_addr;
  read = read_pktinfo6;
  IsValue = λ p. length p.ipi6_addr ≡ 16;
  size-pos = omega arith;
  length-write = λ p v. ap (λ n. suc n) v;
  read-write = λ p rest v.
      ap (λ l. record p { ipi6_addr = l })
        (ap (λ n. take n (p.ipi6_addr ++ rest)) (sym v) ∙ take-whole p.ipi6_addr rest);
}

abbrev read_err : List ℕ → SockExtendedErr
read_err (n ∷ o ∷ t ∷ c ∷ p ∷ i ∷ d ∷ rest) = record {
  ee_errno = n;
  ee_origin = o;
  ee_type = t;
  ee_code = c;
  ee_pad = p;
  ee_info = i;
  ee_data = d;
}
read_err bytes = record {
  ee_errno = 0;
  ee_origin = 0;
  ee_type = 0;
  ee_code = 0;
  ee_pad = 0;
  ee_info = 0;
  ee_data = 0;
}

abbrev extended_err : Plain SockExtendedErr
extended_err = record {
  size = 7;
  write =
      λ e. e.ee_errno ∷ e.ee_origin ∷ e.ee_type ∷ e.ee_code ∷ e.ee_pad ∷ e.ee_info ∷ e.ee_data ∷ [];
  read = read_err;
  IsValue = λ e. Unit;
  size-pos = omega arith;
  length-write = λ e v. refl;
  read-write = λ e rest v. refl;
}

abbrev record_number : TlsRecordType → ℕ
record_number TlsRecordType.change_cipher_spec = 0
record_number TlsRecordType.alert = 1
record_number TlsRecordType.handshake = 2
record_number TlsRecordType.application_data = 3
record_number TlsRecordType.heartbeat = 4

abbrev record_of : List ℕ → TlsRecordType
record_of (zero ∷ rest) = TlsRecordType.change_cipher_spec
record_of (suc zero ∷ rest) = TlsRecordType.alert
record_of (suc (suc zero) ∷ rest) = TlsRecordType.handshake
record_of (suc (suc (suc zero)) ∷ rest) = TlsRecordType.application_data
record_of bytes = TlsRecordType.heartbeat

record_back : (r : TlsRecordType) (rest : List ℕ) → record_of (record_number r ∷ rest) ≡ r
record_back TlsRecordType.change_cipher_spec rest = refl
record_back TlsRecordType.alert rest = refl
record_back TlsRecordType.handshake rest = refl
record_back TlsRecordType.application_data rest = refl
record_back TlsRecordType.heartbeat rest = refl

abbrev record_type : Plain TlsRecordType
record_type = record {
  size = 1;
  write = λ r. record_number r ∷ [];
  read = record_of;
  IsValue = λ r. Unit;
  size-pos = omega arith;
  length-write = λ r v. refl;
  read-write = λ r rest v. record_back r rest;
}

abbrev abi : Abi
abi = record {
  level = level_index;
  socket = socket_index;
  ip_v4 = ip_v4_index;
  ip_v6 = ip_v6_index;
  tls = tls_index;
  level_same = λ a b. refl;
  socket_same = λ a b. refl;
  ip_v4_same = λ a b. refl;
  ip_v6_same = λ a b. refl;
  tls_same = λ a b. refl;
  c_int = int;
  ucred = ucred;
  timeval = timeval;
  timespec = timespec;
  in_pktinfo = pktinfo;
  in6_pktinfo = pktinfo6;
  sock_extended_err = extended_err;
  tls_record_type = record_type;
}

abbrev read_header : List ℕ → CmsgHeader
read_header (n ∷ l ∷ t ∷ rest) = record { cmsg_len = n; cmsg_level = l; cmsg_type = t }
read_header bytes = record { cmsg_len = 0; cmsg_level = 0; cmsg_type = 0 }

abbrev zeros : ℕ → List ℕ
zeros zero = []
zeros (suc n) = 0 ∷ zeros n

length-zeros : (n : ℕ) → length (zeros n) ≡ n
length-zeros zero = refl
length-zeros (suc n) = ap (λ k. suc k) (length-zeros n)

abbrev header : Plain CmsgHeader
header = record {
  size = 3;
  write = λ h. h.cmsg_len ∷ h.cmsg_level ∷ h.cmsg_type ∷ [];
  read = read_header;
  IsValue = λ h. Unit;
  size-pos = omega arith;
  length-write = λ h v. refl;
  read-write = λ h rest v. refl;
}

abbrev cmsg : Cmsg
cmsg = record {
  header = header;
  len = λ n. 3 + n;
  space = λ n. (n + 6) / 4 * 4;
  overhead = 6;
  padding = zeros;
  len_lem = λ n h. refl;
  space-ge = λ n h. omega arith;
  length-padding = length-zeros;
}

abbrev descriptors : IoControlMessageLevel
descriptors = IoControlMessageLevel.socket (SocketLevelType.rights (pos 3 ∷ pos 4 ∷ []))

abbrev clock : IoControlMessageLevel
clock = IoControlMessageLevel.socket (SocketLevelType.timestamp (record { secs = 9; nanos = 1500 }))

abbrev hops : IoControlMessageLevel
hops = IoControlMessageLevel.ip_v4 (IpV4LevelType.time_to_live (pos 64))

parse_level-prepare_level_example : ComesThrough abi clock
parse_level-prepare_level_example =
    parse_level-prepare_level abi clock ((omega arith, omega arith), tt)

abbrev one_short : List ℕ
one_short = 1 ∷ 0 ∷ 0 ∷ 7 ∷ []

abbrev payload_length : {E : Type 0} → Result RawControlMessageOut E → ℕ
payload_length (ok raw) = length raw.payload
payload_length (err e) = 0

small_of :
    (m : IoControlMessageLevel) (raw : RawControlMessageOut)
    → payload_length ((control_messages abi).prepare m) + 6 < 2 ^ 32
    → (control_messages abi).prepare m ≡ ok raw
    → length raw.payload + 6 < 2 ^ 32
small_of m raw h e =
    let same : payload_length ((control_messages abi).prepare m) ≡ length raw.payload =
      ap payload_length e in
    omega arith

try_parse_from_slice-try_prepare_multi_example :
    (bytes : List ℕ) × (try_prepare_multi cmsg
        (control_messages abi)
        (descriptors ∷ clock ∷ hops ∷ [])
      ≡ ok bytes)
    × (try_parse_from_slice cmsg (control_messages abi) bytes
        ≡ some (ok (descriptors ∷ received clock ∷ hops ∷ [])))
unfolding prepare_level
try_parse_from_slice-try_prepare_multi_example =
    try_parse_from_slice-try_prepare_multi cmsg (control_messages abi)
      (descriptors ∷ clock ∷ hops ∷ [])
      (
        ((tt, (tt, tt)), λ raw e. (small_of descriptors raw (omega arith) e, tt)),
        (
          (((omega arith, omega arith), tt), λ raw e. (small_of clock raw (omega arith) e, tt)),
          ((tt, λ raw e. (small_of hops raw (omega arith) e, tt)), tt),
        ),
      )
