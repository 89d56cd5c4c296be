-- ===== src/Pages.antt =====
-- Pages of a v0.2 file: PageManager (cstable/io/PageManager.cc). The file is its bytes and the log
-- of the writes and syncs issued on it.
pub mod Alloc
pub mod Transaction
pub mod Overwrite
pub mod Crash
pub mod Reopen
pub mod Writer
pub mod Filled
pub mod Index
use libcstable.Prelude.{
  ℕ, zero, suc, ◌+◌, ◌-◌, ◌*◌, ◌%◌, ◌^◌, ◌≤◌, ◌<◌, ◌≡◌, refl, Bool, true, false, List, [], ◌∷◌,
  ◌++◌, length, take, drop, replicate, Result, ok, err, runtime_error, check, ◌>>=◌, ◌>>◌,
  if◌then◌else◌, ltb, ◌==◌,
}
use libcstable.Prelude.Bytes.{Bytes}
use libcstable.Stx.{Wire}
use libcstable.Format.{
  BinaryFormatVersion, v0_1_0, v0_2_0, MetaBlock, PageRef, meta_block_position, meta_block_size,
  pad_to_next_sector,
}
use libcstable.Format.Checksum.{write_meta_block}

pub data Event : Type 0 where
  pwrite : ℕ → Bytes → Event
  fsync : Event

pub record File : Type 0 where
  pub content : Bytes
  pub log : List Event

-- A write at an offset replaces what stands there; behind the end the file is filled with zeros.
unfoldable pub overwrite : Bytes → ℕ → Bytes → Bytes
overwrite content offset bytes =
    take offset (content ++ replicate (offset - length content) 0)
    ++ (bytes ++ drop (offset + length bytes) content)

abbrev pub issue : Event → File → File
issue (pwrite offset bytes) file = record {
  content = overwrite file.content offset bytes;
  log = file.log ++ (pwrite offset bytes ∷ []);
}
issue fsync file = record file { log = file.log ++ (fsync ∷ []) }

pub record PageManager : Type 0 where
  pub version : BinaryFormatVersion
  pub file : File
  pub offset : ℕ
  pub meta_block_position : ℕ
  pub meta_block_size : ℕ

-- The case for v0.1 falls through, so both versions get the position and size of v0.2.
unfoldable pub page_manager : BinaryFormatVersion → File → ℕ → PageManager
page_manager version file offset = record {
  version = version;
  file = file;
  offset = offset;
  meta_block_position = 14;
  meta_block_size = 56;
}

-- The size is a uint32_t, also that of the page.
unfoldable pub alloc_page : ℕ → PageManager → PageRef × PageManager
alloc_page size pm =
    let page : PageRef = record { offset = pm.offset; size = pad_to_next_sector size % 2 ^ 32 } in
    (page, record pm { offset = (pm.offset + page.size) % 2 ^ 64 })

-- The bytes that writePage hands to pwrite: the data, filled up or cut to the page's size.
unfoldable pub page_data : ℕ → Bytes → Bytes
page_data page_size bytes =
    if ltb (length bytes) page_size
    then bytes ++ replicate (page_size - length bytes) 0
    else take page_size bytes

unfoldable pub write_page : PageRef → Bytes → PageManager → PageManager
write_page page bytes pm = record pm {
  file = issue (pwrite page.offset (page_data page.size bytes)) pm.file;
}

abbrev pub is_v1 : BinaryFormatVersion → Bool
is_v1 v0_1_0 = true
is_v1 v0_2_0 = false

abbrev pub slot_offset : MetaBlock → PageManager → ℕ
slot_offset mb pm = pm.meta_block_position + pm.meta_block_size * (mb.transaction_id % 2)

unfoldable pub write_transaction : Wire → MetaBlock → PageManager → Result PageManager
write_transaction W mb pm = do
  check (if is_v1 pm.version then false else true) runtime_error
  let synced = issue fsync pm.file
  let buf = write_meta_block W mb
  check (length buf == pm.meta_block_size) runtime_error
  let written = issue (pwrite (slot_offset mb pm) buf) synced
  ok (record pm { file = issue fsync written })
