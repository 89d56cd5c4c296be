-- ===== src/Pages/Transaction.antt =====
-- What writeTransaction leaves on disk.
use libcstable.Prelude.{
  ◌+◌, ◌-◌, ◌*◌, ◌%◌, ◌≤◌, ◌≡◌, refl, ap, sym, ◌∙◌, [], ◌∷◌, ◌++◌, length, take, drop, take-append,
  drop-append, length-append, length-take, append_assoc, append-nil, ok, arith, if◌then◌else◌, ◌==◌,
  ==_iff, Bool-cases, inl, inr,
}
use libcstable.Prelude.Bytes.{Bytes}
use libcstable.Stx.{Wire}
use libcstable.Format.{v0_2_0, MetaBlock}
use libcstable.Format.Checksum.{write_meta_block, length-write_meta_block}
use libcstable.Format.RoundTrip.{with_slots}
use libcstable.Pages.{pwrite, fsync, overwrite, issue, PageManager, write_transaction, slot_offset}

overwrite-append :
    (a b c bytes : Bytes)
    → length bytes ≡ length b
    → overwrite (a ++ (b ++ c)) (length a) bytes ≡ a ++ (bytes ++ c)
unfolding overwrite
overwrite-append a b c bytes h = rw (
  no_gap a (b ++ c),
  append-nil (a ++ (b ++ c)),
  take-append (length a) a (b ++ c) refl,
  ← append_assoc a b c,
  drop-append (length a + length bytes) (a ++ b) c (omega (arith, length-append a b, h)),
)
  where
    no_gap : (a x : Bytes) → length a - length (a ++ x) ≡ 0
    no_gap a x = omega (arith, length-append a x)

-- The slots of a file: fourteen bytes, two slots of 56 bytes, and the rest.
module _ (front slot_a slot_b rest bytes : Bytes) (hf : length front ≡ 14) (ha : length slot_a ≡ 56)
    (hb : length slot_b ≡ 56) (hm : length bytes ≡ 56) where
  overwrite_a :
      overwrite (front ++ (slot_a ++ (slot_b ++ rest))) 14 bytes
      ≡ front ++ (bytes ++ (slot_b ++ rest))
  overwrite_a = rw hf at (overwrite-append front slot_a (slot_b ++ rest) bytes (hm ∙ sym ha))

  overwrite_b :
      overwrite (front ++ (slot_a ++ (slot_b ++ rest))) 70 bytes
      ≡ front ++ (slot_a ++ (bytes ++ rest))
  overwrite_b =
      let n : length (front ++ slot_a) ≡ 70 = omega (arith, length-append front slot_a, hf, ha) in
      let e = rw n at (overwrite-append (front ++ slot_a) slot_b rest bytes (hm ∙ sym hb)) in
      ap (λ t. overwrite t 70 bytes) (sym (append_assoc front slot_a (slot_b ++ rest)))
      ∙ e
      ∙ append_assoc front slot_a (bytes ++ rest)

-- The slots after a metablock is written to that of its transaction.
abbrev pub new_slot_a : Wire → MetaBlock → Bytes → Bytes
new_slot_a W mb slot_a = if mb.transaction_id % 2 == 0 then write_meta_block W mb else slot_a

abbrev pub new_slot_b : Wire → MetaBlock → Bytes → Bytes
new_slot_b W mb slot_b = if mb.transaction_id % 2 == 0 then slot_b else write_meta_block W mb

-- The manager of a v0.2 file with these bytes.
pub record IsManagerOf (content : Bytes) (pm : PageManager) : Type 0 where
  pub is_v2 : pm.version ≡ v0_2_0
  pub content_is : pm.file.content ≡ content
  pub position_is : pm.meta_block_position ≡ 14
  pub size_is : pm.meta_block_size ≡ 56

module _ (W : Wire) where
  slots_written :
      (mb : MetaBlock) (file slot_a slot_b : Bytes)
      → 14 ≤ length file
      → length slot_a ≡ 56
      → length slot_b ≡ 56
      → overwrite
          (with_slots W file slot_a slot_b)
          (14 + 56 * (mb.transaction_id % 2))
          (write_meta_block W mb)
        ≡ with_slots W file (new_slot_a W mb slot_a) (new_slot_b W mb slot_b)
  slots_written mb file slot_a slot_b h ha hb =
      let front = take 14 file in
      let rest = drop 126 file in
      let hf : length front ≡ 14 = omega (arith, length-take 14 file) in
      let hm = length-write_meta_block W mb in
      elim (Bool-cases (mb.transaction_id % 2 == 0)) [
        | inl even ↦
            let z : mb.transaction_id % 2 ≡ 0 = (==_iff (mb.transaction_id % 2) 0).0 even in
            rw (z) (overwrite_a front slot_a slot_b rest (write_meta_block W mb) hf ha hb hm)
        | inr odd ↦
            let z : mb.transaction_id % 2 ≡ 1 = ground arith in
            rw (z) (overwrite_b front slot_a slot_b rest (write_meta_block W mb) hf ha hb hm)
      ]

  -- On a v0.2 file of at least 14 bytes before its slots, writeTransaction succeeds: the new
  -- metablock replaces one slot, chosen by the parity of its transaction id, and the other slot, the
  -- header and the pages stay; the metablock is written between two syncs, and nothing else is.
  pub write_transaction_lem :
      (mb : MetaBlock) (file slot_a slot_b : Bytes) (pm : PageManager)
      → 14 ≤ length file
      → length slot_a ≡ 56
      → length slot_b ≡ 56
      → IsManagerOf (with_slots W file slot_a slot_b) pm
      → (pm' : PageManager) × (write_transaction W mb pm ≡ ok pm')
        × IsManagerOf (with_slots W file (new_slot_a W mb slot_a) (new_slot_b W mb slot_b)) pm'
        × (pm'.file.log
            ≡ pm.file.log
              ++ (fsync ∷ (pwrite (slot_offset mb pm) (write_meta_block W mb) ∷ (fsync ∷ []))))
        × (pm'.offset ≡ pm.offset)
  write_transaction_lem mb file slot_a slot_b pm h ha hb m =
      let buf = write_meta_block W mb in
      let synced = issue fsync pm.file in
      let pm' : PageManager = record pm {
        file = issue fsync (issue (pwrite (slot_offset mb pm) buf) synced);
      } in
      (
        pm',
        unfold write_transaction in simp (m.is_v2, m.size_is, length-write_meta_block W mb),
        record {
          is_v2 = m.is_v2;
          content_is =
              simp (m.content_is, m.position_is, m.size_is)
                (slots_written mb file slot_a slot_b h ha hb);
          position_is = m.position_is;
          size_is = m.size_is;
        },
        simp append_assoc,
        refl,
      )
