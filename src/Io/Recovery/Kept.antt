-- ===== src/Io/Recovery/Kept.antt =====
-- What the errors of src/io/mod.rs give back of a read's buffers.
use cl_async.Base.{ℕ, ◌≡◌, ◌==◌, ◌||◌, ltb, if◌then◌else◌, Option, none, some, List, [], ◌∷◌}
use cl_async.Base.Int.{ℤ}
use cl_async.OsError.{Libc}
use cl_async.Io.Buffers.{BytesMut, BytesCrate}
use cl_async.Io.Buffers.Messages.{RecvMsgBuffers}
use cl_async.Io.Recovery.{IoType}
use cl_async.Io.Recovery.Growth.{IsKept, roomy}
use cl_async.Io.Recovery.Operations
use cl_async.Io.Recovery.Errors
use cl_async.Io.Recovery.Ways.{
  Way, no_worker, not_sent, failed, read_at_into, recv_into, readv_at_into, recv_msg_into,
  bytes_back, vec_back, buffers_back,
}

-- What comes back of a `readv`: all buffers, unless none of those that there are has room, or too many have.
unfoldable pub vec_kept : ℕ → List BytesMut → Option (List BytesMut)
vec_kept max [] = some []
vec_kept max (b ∷ bs) =
    if roomy (b ∷ bs) == 0 || ltb max (roomy (b ∷ bs)) then none else some (b ∷ bs)

-- A buffer that comes back: as it was, if the kernel did not have the operation, and grown if it was full
-- and the kernel did.
abbrev pub IsKeptIn : BytesCrate → Way → BytesMut → BytesMut → Type 0
IsKeptIn G (failed n) b b' = IsKept G b b'
IsKeptIn G no_worker b b' = b' ≡ b
IsKeptIn G not_sent b b' = b' ≡ b

module _ (Other C P Q : Type 0) (get_completion : IoType Other → ℕ → C × IoType Other) (L : Libc)
    (G : BytesCrate) (fd : ℤ) where
  -- What the client takes from the end of each.
  abbrev pub after_read : Way → ℕ → BytesMut → Option BytesMut
  after_read way offset b =
      bytes_back Other C P Q get_completion L G fd
        (read_at_into Other C P Q get_completion L G fd way offset b)

  abbrev pub after_recv : Way → ℤ → BytesMut → Option BytesMut
  after_recv way flags b =
      bytes_back Other C P Q get_completion L G fd
        (recv_into Other C P Q get_completion L G fd way flags b)

  abbrev pub after_readv : ℕ → Way → ℕ → List BytesMut → Option (List BytesMut)
  after_readv max way offset bs =
      vec_back Other C P Q get_completion L G fd
        (readv_at_into Other C P Q get_completion L G fd max way offset bs)

  abbrev pub after_recv_msg : ℕ → Way → ℤ → RecvMsgBuffers → Option RecvMsgBuffers
  after_recv_msg max way flags buffers =
      buffers_back Other C P Q get_completion L G fd
        (recv_msg_into Other C P Q get_completion L G fd max way flags buffers)
