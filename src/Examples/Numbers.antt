-- ===== src/Examples/Numbers.antt =====
-- Runs of src/os_error.rs, src/notifications/signal.rs and src/net/address.rs on
-- concrete inputs.
use cl_async.Base.{suc, arith}
use cl_async.OsError.{Libc}
use cl_async.OsError.RoundTrip.{index, index-injective}
use cl_async.Notifications.Signal.{LibcSignal}
use cl_async.Notifications.Signal.RoundTrip
use cl_async.Net.Address.{IpAddress, SocketAddress}

-- The constants numbered from 1, in the order of the source.
abbrev pub numbered : Libc
numbered = record {
  errno = λ e. suc (index e);
  errno_injective = λ a b h. index-injective a b (omega (arith, h));
}

abbrev pub signals : LibcSignal
signals = record {
  sig = λ e. suc (RoundTrip.index e);
  sig_injective = λ a b h. RoundTrip.index-injective a b (omega (arith, h));
}

abbrev web_server : SocketAddress
web_server = record { ip = IpAddress.v4 (record { b0 = 127; b1 = 0; b2 = 0; b3 = 1 }); port = 8080 }
