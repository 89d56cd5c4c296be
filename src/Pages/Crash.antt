-- ===== src/Pages/Crash.antt =====
-- Crashes while transactions are committed: what stands in the two metablock slots at every moment
-- of PageManager::writeTransaction (cstable/io/PageManager.cc), over any number of transactions.
pub mod Invariant
pub mod Durable
pub mod Commit
pub mod Recovery
use libcstable.Prelude.{ℕ, ◌+◌, ◌%◌, ◌≡◌, Option, none, some, if◌then◌else◌, ◌==◌}
use libcstable.Prelude.Bytes.{Bytes}
use libcstable.Stx.{Wire}
use libcstable.Format.{MetaBlock}
use libcstable.Format.Checksum.{IsMetaBlock, write_meta_block}
use libcstable.Format.RoundTrip.{IsSlot}
use libcstable.Format.Latest.{newest}

-- Where a transaction is: not begun, begun, or with its whole metablock on disk.
pub data Phase : Type 0 where
  idle : Phase
  begun : MetaBlock → Phase
  written : MetaBlock → Phase

-- The slots on disk, and the metablock of the last transaction that was completed.
pub record Disk : Type 0 where
  pub slot_a : Bytes
  pub slot_b : Bytes
  pub committed : Option MetaBlock
  pub phase : Phase

-- The transaction ids are counted from one.
abbrev pub next_id : Option MetaBlock → ℕ
next_id none = 1
next_id (some mb) = mb.transaction_id + 1

-- A slot after bytes are written to that of the transaction.
abbrev pub put_a : MetaBlock → Bytes → Bytes → Bytes
put_a mb bytes slot_a = if mb.transaction_id % 2 == 0 then bytes else slot_a

abbrev pub put_b : MetaBlock → Bytes → Bytes → Bytes
put_b mb bytes slot_b = if mb.transaction_id % 2 == 0 then slot_b else bytes

module _ (W : Wire) where
  -- `tear` leaves in the slot bytes that are no metablock, as a write that is cut short may;
  -- `restart` is a crash, after which the file is opened at the newest valid metablock.
  pub data Step : Disk → Disk → Type 0 where
    begin :
        (s : Disk) (mb : MetaBlock)
        → s.phase ≡ idle
        → IsMetaBlock mb
        → mb.transaction_id ≡ next_id s.committed
        → Step s (record s { phase = begun mb })
    tear :
        (s : Disk) (mb : MetaBlock) (bytes : Bytes)
        → s.phase ≡ begun mb
        → IsSlot W bytes none
        → Step s (record s { slot_a = put_a mb bytes s.slot_a; slot_b = put_b mb bytes s.slot_b })
    write :
        (s : Disk) (mb : MetaBlock)
        → s.phase ≡ begun mb
        → Step s (record s {
          slot_a = put_a mb (write_meta_block W mb) s.slot_a;
          slot_b = put_b mb (write_meta_block W mb) s.slot_b;
          phase = written mb;
        })
    sync :
        (s : Disk) (mb : MetaBlock)
        → s.phase ≡ written mb
        → Step s (record s { committed = some mb; phase = idle })
    restart :
        (s : Disk) (found_a found_b : Option MetaBlock)
        → IsSlot W s.slot_a found_a
        → IsSlot W s.slot_b found_b
        → Step s (record s { committed = newest found_a found_b; phase = idle })

  pub data Reach (s : Disk) : Disk → Type 0 where
    here : Reach s s
    next : {t u : Disk} → Reach s t → Step t u → Reach s u

-- The metablock that the file shall be opened at.
abbrev pub visible_in : Option MetaBlock → Phase → Option MetaBlock
visible_in committed idle = committed
visible_in committed (begun mb) = committed
visible_in committed (written mb) = some mb

abbrev pub visible : Disk → Option MetaBlock
visible s = visible_in s.committed s.phase
