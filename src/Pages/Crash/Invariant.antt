-- ===== src/Pages/Crash/Invariant.antt =====
-- The invariant of the metablock slots in PageManager::writeTransaction
-- (cstable/io/PageManager.cc): the committed metablock stands in its slot.
use libcstable.Prelude.{
  ℕ, ◌+◌, ◌%◌, ◌<◌, ◌≡◌, refl, sym, ◌∙◌, [], Option, none, some, arith, if◌then◌else◌, ◌==◌,
  Bool-cases, inl, inr,
}
use mathlib.Core.Path.{subst}
use libcstable.Prelude.Bytes.{Bytes}
use libcstable.Stx.{Wire}
use libcstable.Format.{MetaBlock}
use libcstable.Format.Checksum.{IsMetaBlock, write_meta_block}
use libcstable.Format.RoundTrip.{IsSlot, written-IsSlot}
use libcstable.Format.Latest.{newest}
use libcstable.Pages.Crash.{
  Phase, idle, begun, written, Disk, next_id, put_a, put_b, Step, begin, tear, write, sync, restart,
  Reach, here, next, visible, visible_in,
}

-- The slot of the next transaction, and the other one.
abbrev pub target : ℕ → Option MetaBlock → Option MetaBlock → Option MetaBlock
target n a b = if n % 2 == 0 then a else b

abbrev pub own : ℕ → Option MetaBlock → Option MetaBlock → Option MetaBlock
own n a b = if n % 2 == 0 then b else a

-- Not newer than what was committed.
abbrev pub IsPast : Option MetaBlock → Option MetaBlock → Type 0
IsPast none committed = Unit
IsPast (some old) none = ⊥
IsPast (some old) (some mb) = old.transaction_id < mb.transaction_id

-- What the phase says of the next transaction's slot.
abbrev pub IsPhase : Option MetaBlock → Option MetaBlock → Phase → Type 0
IsPhase found committed idle = IsPast found committed
IsPhase found committed (begun mb) =
    IsPast found committed × (mb.transaction_id ≡ next_id committed) × IsMetaBlock mb
IsPhase found committed (written mb) = (found ≡ some mb) × (mb.transaction_id ≡ next_id committed)

-- The committed metablock stands in its slot.
pub record IsDurable (W : Wire) (s : Disk) : Type 0 where
  pub found_a : Option MetaBlock
  pub found_b : Option MetaBlock
  pub is_a : IsSlot W s.slot_a found_a
  pub is_b : IsSlot W s.slot_b found_b
  pub own_is : own (next_id s.committed) found_a found_b ≡ s.committed
  pub target_is : IsPhase (target (next_id s.committed) found_a found_b) s.committed s.phase

-- The newer one of both slots, in either order.
newest_kept :
    (committed past : Option MetaBlock)
    → IsPast past committed
    → (newest committed past ≡ committed) × (newest past committed ≡ committed)
newest_kept none none h = (refl, refl)
newest_kept none (some old) h = absurd h
newest_kept (some mb) none h = (refl, refl)
newest_kept (some mb) (some old) h = (ground arith, ground arith)

newest_new :
    (committed : Option MetaBlock) (mb : MetaBlock)
    → mb.transaction_id ≡ next_id committed
    → (newest committed (some mb) ≡ some mb) × (newest (some mb) committed ≡ some mb)
newest_new none mb h = (refl, refl)
newest_new (some old) mb h = (ground arith, ground arith)

-- The slots by their part in the next transaction.
newest_slots :
    (n : ℕ) (a b result : Option MetaBlock)
    → (newest (own n a b) (target n a b) ≡ result) × (newest (target n a b) (own n a b) ≡ result)
    → newest a b ≡ result
newest_slots n a b result h = elim (Bool-cases (n % 2 == 0)) [
  | inl even ↦ (rw even at h).1
  | inr odd ↦ (rw odd at h).0
]

pub newest-visible :
    (W : Wire) (s : Disk) (d : IsDurable W s) → newest d.found_a d.found_b ≡ visible s
newest-visible W s d =
    newest_slots (next_id s.committed) d.found_a d.found_b (visible s)
      (by_phase s.phase d.target_is)
  where
    by_phase :
        (phase : Phase)
        → IsPhase (target (next_id s.committed) d.found_a d.found_b) s.committed phase
        → (newest
              (own (next_id s.committed) d.found_a d.found_b)
              (target (next_id s.committed) d.found_a d.found_b)
            ≡ visible_in s.committed phase)
          × (newest
                (target (next_id s.committed) d.found_a d.found_b)
                (own (next_id s.committed) d.found_a d.found_b)
              ≡ visible_in s.committed phase)
    by_phase idle h = rw d.own_is (newest_kept s.committed _ h)
    by_phase (begun mb) h = rw d.own_is (newest_kept s.committed _ h.0)
    by_phase (written mb) h = rw (d.own_is, h.0) (newest_new s.committed mb h.1)

-- The slots change their parts from one transaction to the next.
own-suc : (n : ℕ) (a b : Option MetaBlock) → own (n + 1) a b ≡ target n a b
own-suc n a b = ground arith

target-suc : (n : ℕ) (a b : Option MetaBlock) → target (n + 1) a b ≡ own n a b
target-suc n a b = ground arith

next-IsPast :
    (committed : Option MetaBlock) (mb : MetaBlock)
    → mb.transaction_id ≡ next_id committed
    → IsPast committed (some mb)
next-IsPast none mb h = tt
next-IsPast (some old) mb h = omega arith

module _ (W : Wire) where
  -- A transaction that has ended, with success or not, leaves what is visible committed.
  settle :
      (slot_a slot_b : Bytes) (committed found_a found_b : Option MetaBlock) (phase : Phase)
      → IsSlot W slot_a found_a
      → IsSlot W slot_b found_b
      → own (next_id committed) found_a found_b ≡ committed
      → IsPhase (target (next_id committed) found_a found_b) committed phase
      → IsDurable W (record {
        slot_a = slot_a;
        slot_b = slot_b;
        committed = visible_in committed phase;
        phase = idle;
      })
  settle slot_a slot_b committed a b idle sa sb ho ht = record {
    found_a = a;
    found_b = b;
    is_a = sa;
    is_b = sb;
    own_is = ho;
    target_is = ht;
  }
  settle slot_a slot_b committed a b (begun mb) sa sb ho ht = record {
    found_a = a;
    found_b = b;
    is_a = sa;
    is_b = sb;
    own_is = ho;
    target_is = ht.0;
  }
  settle slot_a slot_b committed a b (written mb) sa sb ho ht =
      let n = next_id committed in
      record {
        found_a = a;
        found_b = b;
        is_a = sa;
        is_b = sb;
        own_is = subst (λ (k : ℕ). own (k + 1) a b ≡ some mb) (sym ht.1) (own-suc n a b ∙ ht.0);
        target_is =
            subst (λ (k : ℕ). IsPast (target (k + 1) a b) (some mb)) (sym ht.1)
              (subst (λ (found : Option MetaBlock). IsPast found (some mb))
                (sym (target-suc n a b ∙ ho)) (next-IsPast committed mb ht.1));
      }

  -- A write to the next transaction's slot.
  put-IsDurable :
      (s : Disk) (mb : MetaBlock) (bytes : Bytes) (x : Option MetaBlock) (phase : Phase)
      → (d : IsDurable W s) → mb.transaction_id ≡ next_id s.committed
      → IsSlot W bytes x
      → IsPhase x s.committed phase
      → IsDurable W (record s {
        slot_a = put_a mb bytes s.slot_a;
        slot_b = put_b mb bytes s.slot_b;
        phase = phase;
      })
  put-IsDurable s mb bytes x phase d e hx hp =
      let n = next_id s.committed in
      let o = d.own_is in
      elim (Bool-cases (n % 2 == 0)) [
        | inl even ↦ record {
          found_a = x;
          found_b = d.found_b;
          is_a = rw (e, even) hx;
          is_b = rw (e, even) d.is_b;
          own_is = rw even (rw even at o);
          target_is = rw even hp;
        }
        | inr odd ↦ record {
          found_a = d.found_a;
          found_b = x;
          is_a = rw (e, odd) d.is_a;
          is_b = rw (e, odd) hx;
          own_is = rw odd (rw odd at o);
          target_is = rw odd hp;
        }
      ]

  IsSlot-unique : (bs : Bytes) (x y : Option MetaBlock) → IsSlot W bs x → IsSlot W bs y → x ≡ y
  IsSlot-unique bs x y h k = let e = h.slot_reads [] in let f = k.slot_reads [] in cc

  pub Step-IsDurable : {s t : Disk} → Step W s t → IsDurable W s → IsDurable W t
  Step-IsDurable (begin s mb e fits is_next) d = record {
    found_a = d.found_a;
    found_b = d.found_b;
    is_a = d.is_a;
    is_b = d.is_b;
    own_is = d.own_is;
    target_is = (
      subst (IsPhase (target (next_id s.committed) d.found_a d.found_b) s.committed) e d.target_is,
      is_next,
      fits,
    );
  }
  Step-IsDurable (tear s mb bytes e h) d =
      let (past, is_next, fits) =
        subst (IsPhase (target (next_id s.committed) d.found_a d.found_b) s.committed) e
          d.target_is in
      subst
        (λ (phase : Phase). IsDurable W (record s {
          slot_a = put_a mb bytes s.slot_a;
          slot_b = put_b mb bytes s.slot_b;
          phase = phase;
        }))
        (sym e) (put-IsDurable s mb bytes none (begun mb) d is_next h (tt, is_next, fits))
  Step-IsDurable (write s mb e) d =
      let (past, is_next, fits) =
        subst (IsPhase (target (next_id s.committed) d.found_a d.found_b) s.committed) e
          d.target_is in
      put-IsDurable s mb (write_meta_block W mb) (some mb) (written mb) d is_next
        (written-IsSlot W mb fits) (refl, is_next)
  Step-IsDurable (sync s mb e) d =
      subst
        (λ (phase : Phase).
          IsDurable W (record s { committed = visible_in s.committed phase; phase = idle }))
        e
        (settle s.slot_a s.slot_b s.committed d.found_a d.found_b s.phase d.is_a d.is_b d.own_is
          d.target_is)
  Step-IsDurable (restart s a b ha hb) d =
      let ea = IsSlot-unique s.slot_a d.found_a a d.is_a ha in
      let eb = IsSlot-unique s.slot_b d.found_b b d.is_b hb in
      let e : visible s ≡ newest a b = sym (newest-visible W s d) ∙ (rw (ea, eb)) in
      subst (λ (mb : Option MetaBlock). IsDurable W (record s { committed = mb; phase = idle })) e
        (settle s.slot_a s.slot_b s.committed d.found_a d.found_b s.phase d.is_a d.is_b d.own_is
          d.target_is)

  pub Reach-IsDurable : {s t : Disk} → IsDurable W s → Reach W s t → IsDurable W t
  Reach-IsDurable d here = d
  Reach-IsDurable d (next r st) = Step-IsDurable st (Reach-IsDurable d r)

  -- Two slots without a metablock.
  pub blank-IsDurable :
      (slot_a slot_b : Bytes)
      → IsSlot W slot_a none
      → IsSlot W slot_b none
      → IsDurable W (record { slot_a = slot_a; slot_b = slot_b; committed = none; phase = idle })
  blank-IsDurable slot_a slot_b ha hb = record {
    found_a = none;
    found_b = none;
    is_a = ha;
    is_b = hb;
    own_is = refl;
    target_is = tt;
  }
