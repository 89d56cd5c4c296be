-- ===== src/Format/Checksum.antt =====
-- The metablock: writeMetaBlock and readMetaBlock (cstable/cstable.cc, namespace v0_2_0).
use libcstable.Prelude.{
  ◌-◌, ◌^◌, ◌<◌, ◌≡◌, ◌++◌, length, take, drop, take-append, drop-append, length-append,
  append_assoc, Option, none, some, Result, ok, buffer_overflow, need, assume, ◌>>=◌, ◌>>◌,
  if◌then◌else◌, leb, le→leb, arith,
}
use libcstable.Prelude.Bytes.{Bytes, bytes_eq, bytes_eq_refl}
use libcstable.Stx.{Wire}
use libcstable.Format.{MetaBlock, meta_block_size}

-- The values fit their types.
pub record IsMetaBlock (mb : MetaBlock) : Type 0 where
  pub transaction_id_fits : mb.transaction_id < 2 ^ 64
  pub num_rows_fits : mb.num_rows < 2 ^ 64
  pub offset_fits : mb.head_index_page_offset < 2 ^ 64
  pub size_fits : mb.head_index_page_size < 2 ^ 32
  pub file_size_fits : mb.file_size < 2 ^ 64

module _ (W : Wire) where
  open W use {u64, u32, get_u64, get_u32, sha1}

  -- The fields, in the order of the file.
  abbrev pub fields : MetaBlock → Bytes
  fields mb =
      u64 mb.transaction_id
      ++ (u64 mb.num_rows
          ++ (u64 mb.head_index_page_offset ++ (u32 mb.head_index_page_size ++ u64 mb.file_size)))

  -- The bytes written to the stream: the fields, and their hash.
  unfoldable pub write_meta_block : MetaBlock → Bytes
  write_meta_block mb = fields mb ++ sha1 (fields mb)

  -- Reads the five fields from a buffer.
  unfoldable pub read_fields : Bytes → Result MetaBlock
  read_fields buf = do
    (transaction_id, s1) ← need buffer_overflow (get_u64 buf)
    (num_rows, s2) ← need buffer_overflow (get_u64 s1)
    (offset, s3) ← need buffer_overflow (get_u64 s2)
    (size, s4) ← need buffer_overflow (get_u32 s3)
    (file_size, s5) ← need buffer_overflow (get_u64 s4)
    ok (record {
      transaction_id = transaction_id;
      num_rows = num_rows;
      head_index_page_offset = offset;
      head_index_page_size = size;
      file_size = file_size;
    })

  -- `none` is the answer false, for a block whose hash does not match. A stream that ends within
  -- the block leaves the buffer indeterminate.
  unfoldable pub read_meta_block : Bytes → Result (Option MetaBlock × Bytes)
  unfolding read_fields
  read_meta_block is = do
    assume (leb meta_block_size (length is))
    let buf = take meta_block_size is
    let hash_a = sha1 (take (meta_block_size - 20) buf)
    let hash_b = drop (meta_block_size - 20) buf
    if bytes_eq hash_a hash_b
        then (read_fields buf >>= λ mb. ok (some mb, drop meta_block_size is))
        else ok (none, drop meta_block_size is)

  length-fields : (mb : MetaBlock) → length (fields mb) ≡ 36
  length-fields mb =
      let a = u64 mb.transaction_id in
      let b = u64 mb.num_rows in
      let c = u64 mb.head_index_page_offset in
      let d = u32 mb.head_index_page_size in
      let e = u64 mb.file_size in
      omega (
        arith,
        length-append a (b ++ (c ++ (d ++ e))),
        length-append b (c ++ (d ++ e)),
        length-append c (d ++ e),
        length-append d e,
        W.length-u64 mb.transaction_id,
        W.length-u64 mb.num_rows,
        W.length-u64 mb.head_index_page_offset,
        W.length-u32 mb.head_index_page_size,
        W.length-u64 mb.file_size,
      )

  -- writeMetaBlock writes exactly kMetaBlockSize bytes.
  pub length-write_meta_block : (mb : MetaBlock) → length (write_meta_block mb) ≡ meta_block_size
  unfolding write_meta_block
  length-write_meta_block mb = omega (
    arith,
    length-append (fields mb) (sha1 (fields mb)),
    length-fields mb,
    W.length-sha1 (fields mb),
  )

  read_fields-fields :
      (mb : MetaBlock) (rest : Bytes) → IsMetaBlock mb → read_fields (fields mb ++ rest) ≡ ok mb
  unfolding read_fields
  read_fields-fields mb rest h = simp append_assoc (
      rw (
        W.get_u64-u64 mb.transaction_id _ h.transaction_id_fits,
        W.get_u64-u64 mb.num_rows _ h.num_rows_fits,
        W.get_u64-u64 mb.head_index_page_offset _ h.offset_fits,
        W.get_u32-u32 mb.head_index_page_size _ h.size_fits,
        W.get_u64-u64 mb.file_size _ h.file_size_fits,
      ))

  -- A metablock whose values fit their types is read back as it was written, and the stream stands
  -- behind it.
  pub read_meta_block-write_meta_block :
      (mb : MetaBlock) (rest : Bytes)
      → IsMetaBlock mb
      → read_meta_block (write_meta_block mb ++ rest) ≡ ok (some mb, rest)
  unfolding read_meta_block write_meta_block
  read_meta_block-write_meta_block mb rest h =
      let fs = fields mb in
      let hash = sha1 fs in
      let n = length-write_meta_block mb in
      rw (
        le→leb meta_block_size (length ((fs ++ hash) ++ rest))
            (omega (arith, length-append (fs ++ hash) rest, n)),
        take-append meta_block_size (fs ++ hash) rest (omega (arith, n)),
        drop-append meta_block_size (fs ++ hash) rest (omega (arith, n)),
        take-append 36 fs hash (omega (arith, length-fields mb)),
        drop-append 36 fs hash (omega (arith, length-fields mb)),
        bytes_eq_refl hash,
        read_fields-fields mb hash h,
      )
