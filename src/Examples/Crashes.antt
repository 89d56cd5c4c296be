-- ===== src/Examples/Crashes.antt =====
-- A file whose writer is cut off twice.
use libcstable.Prelude.{
  ℕ, ◌≡◌, refl, [], ◌∷◌, ◌++◌, length, map, Option, none, some, replicate, ok, arith, length-append,
  le→leb,
}
use libcstable.Prelude.Bytes.{Bytes, bytes_eq}
use libcstable.Stx.Sample.{wire}
use libcstable.Format.{PageRef, v0_2_0, meta_block_size}
use libcstable.Format.Checksum.{write_meta_block, read_meta_block}
use libcstable.Format.RoundTrip.{IsSlot, restored, with_slots}
use libcstable.Format.Open.{open_header}
use libcstable.Format.Latest.{opened}
use libcstable.Pages.{PageManager, page_manager, write_transaction}
use libcstable.Pages.Transaction.{IsManagerOf}
use libcstable.Pages.Reopen.{index_page_of}
use libcstable.Pages.Crash.{
  idle, begun, written, Disk, begin, tear, write, sync, restart, Reach, here, next, visible,
}
use libcstable.Pages.Crash.Recovery.{reachable_recovers}
use libcstable.Pages.Crash.Durable.{reachable_opens}
use libcstable.Pages.Crash.Commit.{write_transaction-Reach}
use libcstable.Examples.Files.{
  first_block, second_block, first_block-IsMetaBlock, second_block-IsMetaBlock, blank, header,
  header-IsColumn, header_bytes, header_written, header_long,
}

-- Bytes whose hash does not match.
abbrev torn : Bytes
torn = replicate 36 0 ++ replicate 20 1

torn-IsSlot : IsSlot wire torn none
unfolding read_meta_block bytes_eq
torn-IsSlot = record {
  slot_size = refl;
  slot_reads = λ rest. rw (
    read_meta_block,
    le→leb meta_block_size (length (torn ++ rest)) (omega (arith, length-append {A = ℕ} torn rest)),
  );
}

abbrev empty_disk : Disk
empty_disk = record { slot_a = torn; slot_b = torn; committed = none; phase = idle }

-- The first transaction is cut off and begun again, and the second one is cut off.
abbrev cut_off : Disk
cut_off = record {
  slot_a = torn;
  slot_b = write_meta_block wire first_block;
  committed = some first_block;
  phase = begun second_block;
}

abbrev retried : Disk
retried = record empty_disk { phase = begun first_block }

first_cut_off : Reach wire empty_disk empty_disk
first_cut_off =
    next
      (next (next here (begin empty_disk first_block refl first_block-IsMetaBlock (omega arith)))
        (tear retried first_block torn refl torn-IsSlot))
      (restart retried none none torn-IsSlot torn-IsSlot)

abbrev first_written : Disk
first_written = record {
  slot_a = torn;
  slot_b = write_meta_block wire first_block;
  committed = none;
  phase = written first_block;
}

abbrev first_synced : Disk
first_synced = record first_written { committed = some first_block; phase = idle }

cut_off_reached : Reach wire empty_disk cut_off
cut_off_reached =
    next
      (next
        (next
          (next
            (next first_cut_off
              (begin empty_disk first_block refl first_block-IsMetaBlock (omega arith)))
            (write retried first_block refl))
          (sync first_written first_block refl))
        (begin first_synced second_block refl second_block-IsMetaBlock (omega arith)))
      (tear cut_off second_block torn refl torn-IsSlot)

reachable_opens_example :
    (free : Option PageRef) × (open_header wire blank
        (with_slots wire (header_bytes ++ (1 ∷ [])) torn (write_meta_block wire first_block))
      ≡ opened (map (restored blank) header.columns) (visible cut_off) free)
reachable_opens_example =
    reachable_opens wire blank header header_bytes (1 ∷ []) torn torn cut_off header-IsColumn
      (omega arith) header_written torn-IsSlot torn-IsSlot cut_off_reached

abbrev cut_off_manager : PageManager
cut_off_manager =
    page_manager v0_2_0
      (record {
        content = with_slots wire (header_bytes ++ (1 ∷ [])) cut_off.slot_a cut_off.slot_b;
        log = [];
      })
      1024

cut_off_manager-IsManagerOf :
    IsManagerOf
      (with_slots wire (header_bytes ++ (1 ∷ [])) cut_off.slot_a cut_off.slot_b)
      cut_off_manager
unfolding page_manager
cut_off_manager-IsManagerOf = record {
  is_v2 = refl;
  content_is = refl;
  position_is = refl;
  size_is = refl;
}

-- The second transaction is begun anew.
reachable_recovers_example :
    ((free : Option PageRef) × (open_header wire blank cut_off_manager.file.content
        ≡ opened (map (restored blank) header.columns) (some first_block) free))
    × ((pm : PageManager) × (write_transaction wire second_block cut_off_manager ≡ ok pm)
        × (open_header wire blank pm.file.content
            ≡ opened
                (map (restored blank) header.columns)
                (some second_block)
                (index_page_of (some first_block))))
reachable_recovers_example =
    reachable_recovers wire blank header header_bytes (1 ∷ []) torn torn cut_off second_block
      cut_off_manager header-IsColumn (omega arith) header_written torn-IsSlot torn-IsSlot
      cut_off_reached cut_off_manager-IsManagerOf second_block-IsMetaBlock (omega arith)

abbrev manager : PageManager
manager =
    page_manager v0_2_0
      (record { content = with_slots wire (header_bytes ++ (1 ∷ [])) torn torn; log = [] }) 1024

manager-IsManagerOf : IsManagerOf (with_slots wire (header_bytes ++ (1 ∷ [])) torn torn) manager
unfolding page_manager
manager-IsManagerOf = record { is_v2 = refl; content_is = refl; position_is = refl; size_is = refl }

write_transaction-Reach_example :
    (pm : PageManager) × (t : Disk) × (write_transaction wire first_block manager ≡ ok pm)
    × Reach wire empty_disk t
    × IsManagerOf (with_slots wire (header_bytes ++ (1 ∷ [])) t.slot_a t.slot_b) pm
    × (t.committed ≡ some first_block)
    × (t.phase ≡ idle)
write_transaction-Reach_example =
    write_transaction-Reach wire empty_disk first_block (header_bytes ++ (1 ∷ [])) manager
      header_long refl refl manager-IsManagerOf refl first_block-IsMetaBlock (omega arith)
