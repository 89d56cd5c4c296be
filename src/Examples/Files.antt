-- ===== src/Examples/Files.antt =====
-- Files of format v0.2: metablocks, headers, pages and the writer of a column's pages.
use libcstable.Prelude.{
  ◌%◌, ◌≤◌, ◌<◌, ◌≡◌, refl, List, [], ◌∷◌, ◌++◌, length, All, map, drop, replicate, some, ok, arith,
}
use libcstable.Prelude.Bytes.{Bytes, store}
use libcstable.Stx.Sample.{wire}
use libcstable.Format.{
  ColumnConfig, FileHeader, MetaBlock, unsigned_int, uint64_plain, pad_to_next_sector,
  pad_to_next_sector_bounds, v0_2_0,
}
use libcstable.Format.Checksum.{
  IsMetaBlock, write_meta_block, read_meta_block, read_meta_block-write_meta_block,
}
use libcstable.Format.Header.{
  push, preamble, unpadded, write_columns, write_column, write_header, read_header,
}
use libcstable.Format.RoundTrip.{IsColumn, written-IsSlot, restored, with_slots, header_round_trip}
use libcstable.Format.Open.{open_header}
use libcstable.Format.Latest.{newest, older_index, opened, open_header-newest}
use libcstable.Pages.{
  issue, Event, pwrite, fsync, PageManager, page_manager, write_transaction, slot_offset,
  alloc_page,
}
use libcstable.Pages.Alloc.{alloc_pages, AreConsecutive, alloc_pages_consecutive}
use libcstable.Pages.Transaction.{IsManagerOf, new_slot_a, new_slot_b, write_transaction_lem}
use libcstable.Pages.Reopen.{kept, index_page_of, reopen_after_commit}
use libcstable.Pages.Writer.{
  PageIndexKey, data_entry, page_writer, append_values, write_index, index_entries,
}
use libcstable.Pages.Filled.{encoded, Writes, write_index-first_page, later_values_lost}

pad_to_next_sector_bounds_example :
    (513 ≤ pad_to_next_sector 513)
    × (pad_to_next_sector 513 < 1025)
    × (pad_to_next_sector 513 % 512 ≡ 0)
pad_to_next_sector_bounds_example = pad_to_next_sector_bounds 513 (omega arith)

abbrev pub first_block : MetaBlock
first_block = record {
  transaction_id = 1;
  num_rows = 3;
  head_index_page_offset = 2048;
  head_index_page_size = 524288;
  file_size = 526336;
}

abbrev pub second_block : MetaBlock
second_block = record {
  transaction_id = 2;
  num_rows = 5;
  head_index_page_offset = 526336;
  head_index_page_size = 524288;
  file_size = 1050624;
}

abbrev third_block : MetaBlock
third_block = record second_block { transaction_id = 3 }

pub first_block-IsMetaBlock : IsMetaBlock first_block
first_block-IsMetaBlock = record {
  transaction_id_fits = omega arith;
  num_rows_fits = omega arith;
  offset_fits = omega arith;
  size_fits = omega arith;
  file_size_fits = omega arith;
}

pub second_block-IsMetaBlock : IsMetaBlock second_block
second_block-IsMetaBlock = record {
  transaction_id_fits = omega arith;
  num_rows_fits = omega arith;
  offset_fits = omega arith;
  size_fits = omega arith;
  file_size_fits = omega arith;
}

third_block-IsMetaBlock : IsMetaBlock third_block
third_block-IsMetaBlock = record {
  transaction_id_fits = omega arith;
  num_rows_fits = omega arith;
  offset_fits = omega arith;
  size_fits = omega arith;
  file_size_fits = omega arith;
}

read_meta_block-write_meta_block_example :
    read_meta_block wire (write_meta_block wire first_block ++ (9 ∷ []))
    ≡ ok (some first_block, 9 ∷ [])
read_meta_block-write_meta_block_example =
    read_meta_block-write_meta_block wire first_block (9 ∷ []) first_block-IsMetaBlock

abbrev pub blank : ColumnConfig
blank = record {
  column_id = 0;
  column_name = [];
  storage_type = uint64_plain;
  logical_type = unsigned_int;
  rlevel_max = 0;
  dlevel_max = 0;
  body_offset = 0;
  body_size = 0;
}

abbrev pub header : FileHeader
header = record {
  columns = record blank { column_id = 1; column_name = 107 ∷ []; dlevel_max = 1 } ∷ [];
  num_rows = 0;
}

pub header-IsColumn : All IsColumn header.columns
header-IsColumn = (
  record {
    id_fits = omega arith;
    name_fits = omega arith;
    type_known = tt;
    encoding_known = tt;
    rlevel_fits = omega arith;
    dlevel_fits = omega arith;
  },
  tt,
)

abbrev pub header_bytes : Bytes
header_bytes = unpadded wire header ++ replicate 201 0

pub header_written : write_header wire header ≡ ok header_bytes
unfolding write_header unpadded preamble write_columns write_column pad_to_next_sector store
header_written = refl

header_round_trip_example :
    (rest : Bytes) × (read_header wire blank (
        drop 6 (
          with_slots wire
            (header_bytes ++ (1 ∷ []))
            (write_meta_block wire second_block)
            (write_meta_block wire first_block)))
      ≡ ok (
        map (restored blank) header.columns,
        push (some second_block) (push (some first_block) []),
        rest,
      ))
header_round_trip_example =
    header_round_trip wire blank header header_bytes (1 ∷ []) (write_meta_block wire second_block)
      (write_meta_block wire first_block) (some second_block) (some first_block) header-IsColumn
      (omega arith) header_written (written-IsSlot wire second_block second_block-IsMetaBlock)
      (written-IsSlot wire first_block first_block-IsMetaBlock)

open_header-newest_example :
    open_header wire blank (
      with_slots wire
        (header_bytes ++ (1 ∷ []))
        (write_meta_block wire second_block)
        (write_meta_block wire first_block))
    ≡ opened
        (map (restored blank) header.columns)
        (newest (some second_block) (some first_block))
        (older_index (some second_block) (some first_block))
open_header-newest_example =
    open_header-newest wire blank header header_bytes (1 ∷ []) (write_meta_block wire second_block)
      (write_meta_block wire first_block) (some second_block) (some first_block) header-IsColumn
      (omega arith) header_written (written-IsSlot wire second_block second_block-IsMetaBlock)
      (written-IsSlot wire first_block first_block-IsMetaBlock)

-- The manager of a file with the two metablocks.
abbrev file_bytes : Bytes
file_bytes =
    with_slots wire (header_bytes ++ (1 ∷ [])) (write_meta_block wire second_block)
      (write_meta_block wire first_block)

pub header_long : 14 ≤ length (header_bytes ++ (1 ∷ []))
unfolding unpadded preamble write_columns write_column store
header_long = omega arith

abbrev manager : PageManager
manager = page_manager v0_2_0 (record { content = file_bytes; log = [] }) 1024

manager-IsManagerOf : IsManagerOf file_bytes manager
unfolding page_manager
manager-IsManagerOf = record { is_v2 = refl; content_is = refl; position_is = refl; size_is = refl }

write_transaction_lem_example :
    (pm' : PageManager) × (write_transaction wire third_block manager ≡ ok pm')
    × IsManagerOf
        (with_slots wire
          (header_bytes ++ (1 ∷ []))
          (new_slot_a wire third_block (write_meta_block wire second_block))
          (new_slot_b wire third_block (write_meta_block wire first_block)))
        pm'
    × (pm'.file.log
        ≡ manager.file.log
          ++ (fsync
              ∷ (pwrite (slot_offset third_block manager) (write_meta_block wire third_block)
                  ∷ (fsync ∷ []))))
    × (pm'.offset ≡ manager.offset)
write_transaction_lem_example =
    write_transaction_lem wire third_block (header_bytes ++ (1 ∷ []))
      (write_meta_block wire second_block) (write_meta_block wire first_block) manager header_long
      (written-IsSlot wire second_block second_block-IsMetaBlock).slot_size
      (written-IsSlot wire first_block first_block-IsMetaBlock).slot_size manager-IsManagerOf

reopen_after_commit_example :
    (pm' : PageManager) × (write_transaction wire third_block manager ≡ ok pm')
    × (open_header wire blank pm'.file.content
        ≡ opened
            (map (restored blank) header.columns)
            (some third_block)
            (index_page_of (kept third_block (some second_block) (some first_block))))
reopen_after_commit_example =
    reopen_after_commit wire blank header header_bytes (1 ∷ []) (write_meta_block wire second_block)
      (write_meta_block wire first_block) (some second_block) (some first_block) third_block manager
      header-IsColumn (omega arith) header_written
      (written-IsSlot wire second_block second_block-IsMetaBlock)
      (written-IsSlot wire first_block first_block-IsMetaBlock) third_block-IsMetaBlock
      (omega arith) manager-IsManagerOf

alloc_pages_consecutive_example :
    AreConsecutive 1024
      (600 ∷ 512 ∷ [])
      (alloc_pages
        (600 ∷ 512 ∷ [])
        (page_manager v0_2_0 (record { content = []; log = [] }) 1024)).0
unfolding page_manager
alloc_pages_consecutive_example =
    alloc_pages_consecutive (600 ∷ 512 ∷ [])
      (page_manager v0_2_0 (record { content = []; log = [] }) 1024)
      (omega arith, (omega arith, tt)) (omega arith) (omega arith)

abbrev key : PageIndexKey
key = record { column_id = 1; entry_type = data_entry }

write_index-first_page_example :
    write_index wire
      (append_values wire (7 ∷ 8 ∷ []) (page_writer key) manager).0
      (append_values wire (7 ∷ 8 ∷ []) (page_writer key) manager).1
    ≡ (
      store 8 1 ++ index_entries wire (((alloc_page 1024 manager).0, 16) ∷ []),
      record (alloc_page 1024 manager).1 {
        file =
            issue
              (pwrite
                (alloc_page 1024 manager).0.offset
                (encoded wire (7 ∷ 8 ∷ []) ++ replicate 1008 0))
              manager.file;
      },
    )
write_index-first_page_example = write_index-first_page wire key 7 (8 ∷ []) manager (omega arith)

later_values_lost_example :
    (events : List Event) × ((write_index wire
        (append_values wire (replicate 128 7 ++ (8 ∷ [])) (page_writer key) manager).0
        (append_values wire (replicate 128 7 ++ (8 ∷ [])) (page_writer key) manager).1).1.file.log
      ≡ manager.file.log ++ events)
    × All (Writes (encoded wire (replicate 128 7))) events
    × (length events ≡ 2)
later_values_lost_example = later_values_lost wire key 7 (replicate 127 7) (8 ∷ []) manager refl
