-- ===== src/Examples/Buffers.antt =====
-- Runs of the buffers of src/io/buffers.rs, where a full buffer grows by four bytes and a chunk is a whole.
use cl_async.Base.{ℕ, ◌≡◌, ◌≢◌, refl, List, [], ◌∷◌, map, length, All, some, Result, ok, err, arith}
use cl_async.Io.Buffers.{BytesMut, BytesCrate, InvalidIoVecError, contents, chunk_mut}
use cl_async.Io.Buffers.Input.{IoVecInputSource, generate_iovecs}
use cl_async.Io.Buffers.Input.Gather.{gathered, IsCutOf, Outcome, generate_iovecs_lem}
use cl_async.Io.Buffers.Output.{
  Iovec, IoVecOutputBuffer, IoVecOutputBufferIntoBytesError, spare_iovecs, output_iovecs, account,
  into_bytes_vectored,
}
use cl_async.Io.Buffers.Output.Scatter.{
  scatter, IsFull, into_bytes_vectored-scatter, into_bytes_vectored-overflow, full_buffer_counted,
}
use cl_async.Io.Buffers.Messages.{prepare, prepare_lem, given_back, is_ok, acceptable}

abbrev pub by_four : BytesCrate
by_four = record {
  chunk = length;
  reserved = λ memory. 0 ∷ 0 ∷ 0 ∷ 0 ∷ [];
  chunk-pos = λ bytes h. h;
  chunk-le = λ bytes. omega arith;
  reserved-pos = λ memory. omega arith;
}

abbrev half : BytesMut
half = record { memory = 1 ∷ 2 ∷ 0 ∷ 0 ∷ []; len = 2 }

abbrev empty : BytesMut
empty = record { memory = 0 ∷ 0 ∷ 0 ∷ []; len = 0 }

abbrev full : BytesMut
full = record { memory = 5 ∷ 6 ∷ []; len = 2 }

abbrev both : IoVecOutputBuffer
both = record { buffers = half ∷ empty ∷ [] }

abbrev two_iovecs : List Iovec
two_iovecs =
    record { buffer = 0; offset = 2; iov_len = 2 }
    ∷ record { buffer = 1; offset = 0; iov_len = 3 }
    ∷ []

abbrev in_pieces : IoVecInputSource
in_pieces = IoVecInputSource.multiple ((1 ∷ 2 ∷ []) ∷ [] ∷ (3 ∷ []) ∷ [])

generate_iovecs_lem_example :
    (pieces : List (List ℕ)) × (r : Result (List (List ℕ)) InvalidIoVecError) × IsCutOf by_four
      in_pieces pieces
    × (gathered pieces ≡ 1 ∷ 2 ∷ 3 ∷ [])
    × (generate_iovecs by_four 1024 in_pieces ≡ some r)
    × Outcome by_four 1024 pieces r
generate_iovecs_lem_example = generate_iovecs_lem by_four in_pieces 1024

into_bytes_vectored-scatter_example :
    (bs : List BytesMut) × (into_bytes_vectored by_four
        (record { buffers = scatter two_iovecs (7 ∷ 8 ∷ 9 ∷ []) (half ∷ empty ∷ []) })
        3
      ≡ ok bs)
    × (map contents bs ≡ (1 ∷ 2 ∷ 7 ∷ 8 ∷ []) ∷ (9 ∷ []) ∷ [])
unfolding output_iovecs
into_bytes_vectored-scatter_example =
    into_bytes_vectored-scatter by_four both 1024 two_iovecs (7 ∷ 8 ∷ 9 ∷ [])
      (omega arith, (omega arith, tt)) refl (omega arith)

into_bytes_vectored-overflow_example :
    (bs : List BytesMut) × (into_bytes_vectored by_four both 6
      ≡ err (IoVecOutputBufferIntoBytesError.buffer_overflow 6 5 bs))
    × All IsFull bs
unfolding chunk_mut
into_bytes_vectored-overflow_example =
    into_bytes_vectored-overflow by_four both 6 (omega arith, (omega arith, tt)) (omega arith)

prepare_lem_example :
    (given_back (prepare (record { data_ = some []; control = some half }))
      ≡ record { data_ = some []; control = some half })
    × (is_ok (prepare (record { data_ = some []; control = some half }))
        ≡ acceptable (record { data_ = some []; control = some half }))
prepare_lem_example = prepare_lem (record { data_ = some []; control = some half })

full_buffer_counted_example :
    All (λ v. v.buffer ≢ 0) (spare_iovecs 0 (full ∷ empty ∷ []))
    × ((later : List BytesMut) × ((account by_four 3 0 (full ∷ empty ∷ [])).0
          ≡ record { memory = 5 ∷ 6 ∷ 0 ∷ 0 ∷ 0 ∷ 0 ∷ []; len = 5 } ∷ later))
full_buffer_counted_example = full_buffer_counted by_four full (empty ∷ []) 3 refl
