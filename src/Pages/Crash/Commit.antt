-- ===== src/Pages/Crash/Commit.antt =====
-- PageManager::writeTransaction is a begun, written and synced transaction.
use libcstable.Prelude.{◌≤◌, ◌≡◌, refl, some, ok, length}
use libcstable.Prelude.Bytes.{Bytes}
use libcstable.Stx.{Wire}
use libcstable.Format.{MetaBlock}
use libcstable.Format.Checksum.{IsMetaBlock, write_meta_block}
use libcstable.Format.RoundTrip.{with_slots}
use libcstable.Pages.{PageManager, write_transaction}
use libcstable.Pages.Transaction.{IsManagerOf, write_transaction_lem}
use libcstable.Pages.Crash.{
  idle, begun, written, Disk, next_id, put_a, put_b, begin, write, sync, Reach, here, next,
}

module _ (W : Wire) where
  -- From a disk between two transactions, with slots of 56 bytes and at least 14 bytes of file in
  -- front of them, writeTransaction of a metablock with the next id whose values fit their types
  -- succeeds, and leaves on the file the slots of a disk that is reached from there and between
  -- two transactions, on which that metablock is the committed one.
  pub write_transaction-Reach :
      (s : Disk) (mb : MetaBlock) (file : Bytes) (pm : PageManager)
      → 14 ≤ length file
      → length s.slot_a ≡ 56
      → length s.slot_b ≡ 56
      → IsManagerOf (with_slots W file s.slot_a s.slot_b) pm
      → s.phase ≡ idle
      → IsMetaBlock mb
      → mb.transaction_id ≡ next_id s.committed
      → (pm' : PageManager) × (t : Disk) × (write_transaction W mb pm ≡ ok pm')
        × Reach W s t
        × IsManagerOf (with_slots W file t.slot_a t.slot_b) pm'
        × (t.committed ≡ some mb)
        × (t.phase ≡ idle)
  write_transaction-Reach s mb file pm h ha hb m e fits is_next =
      let (pm', ew, m', log, offset) =
        write_transaction_lem W mb file s.slot_a s.slot_b pm h ha hb m in
      let s1 : Disk = record s { phase = begun mb } in
      let s2 : Disk = record s {
        slot_a = put_a mb (write_meta_block W mb) s.slot_a;
        slot_b = put_b mb (write_meta_block W mb) s.slot_b;
        phase = written mb;
      } in
      let t : Disk = record s2 { committed = some mb; phase = idle } in
      let r1 : Reach W s s1 = next here (begin s mb e fits is_next) in
      let r2 : Reach W s s2 = next r1 (write s1 mb refl) in
      (pm', t, ew, next r2 (sync s2 mb refl), m', refl, refl)
