-- ===== src/Table/Slots.antt =====
-- The metablock slots that the commits of one writer use.
use libcstable.Prelude.{
  ℕ, ◌%◌, ◌^◌, ◌+◌, ◌≡◌, refl, ◌∙◌, List, [], ◌∷◌, ◌++◌, append_assoc, Bool, true, false, length,
  Result, ok, err, undefined, runtime_error, check, ◌>>=◌, ◌>>◌, ◌==◌, if◌then◌else◌,
}
use mathlib.Core.Path.{subst}
use libcstable.Stx.{Wire}
use libcstable.Format.{MetaBlock}
use libcstable.Format.Checksum.{write_meta_block}
use libcstable.Pages.{Event, pwrite, fsync, PageManager, write_transaction, slot_offset, is_v1}
use libcstable.Pages.Index
use libcstable.Pages.Index.{Store}
use libcstable.Table.{TableWriter, add_rows, meta_block, commit_v2}
use libcstable.Table.Commits.{session}

-- The last thing issued on the file is the write of a metablock to its slot, between two syncs; its
-- transaction follows `txid`, which is still the writer's.
pub record IsCommitted (W : Wire) (txid : ℕ) (t : TableWriter) : Type 0 where
  pub written : MetaBlock
  pub before : List Event
  pub log_ends :
      t.store.manager.file.log
      ≡ before
        ++ (fsync
            ∷ (pwrite (slot_offset written t.store.manager) (write_meta_block W written)
                ∷ (fsync ∷ [])))
  pub transaction_is : written.transaction_id ≡ (txid + 1) % 2 ^ 64
  pub txid_kept : t.current_txid ≡ txid

-- A normal end, if there is one, satisfies the property.
abbrev pub Ends : {A : Type 0} → (A → Type 0) → Result A → Type 0
Ends P (ok a) = P a
Ends P _ = Unit

bind-Ends :
    {A B : Type 0} (P : A → Type 0) (Q : B → Type 0) (x : Result A) (f : A → Result B)
    → Ends P x
    → ((a : A) → P a → Ends Q (f a))
    → Ends Q (x >>= f)
bind-Ends P Q (ok a) f h k = k a h
bind-Ends P Q (err e) f h k = tt
bind-Ends P Q undefined f h k = tt

anything : {A : Type 0} (x : Result A) → Ends (λ a. Unit) x
anything (ok a) = tt
anything (err e) = tt
anything undefined = tt

check-Ends :
    {B : Type 0} (Q : B → Type 0) (b : Bool) (f : Result B)
    → Ends Q f
    → Ends Q (check b runtime_error >> f)
check-Ends Q true f h = h
check-Ends Q false f h = tt

module _ (W : Wire) where
  abbrev LogEnds : MetaBlock → PageManager → PageManager → Type 0
  LogEnds mb pm pm' =
      pm'.file.log
      ≡ pm.file.log
        ++ (fsync ∷ (pwrite (slot_offset mb pm') (write_meta_block W mb) ∷ (fsync ∷ [])))

  transaction-Ends :
      (mb : MetaBlock) (pm : PageManager) → Ends (LogEnds mb pm) (write_transaction W mb pm)
  unfolding write_transaction
  transaction-Ends mb pm =
      let event = pwrite (slot_offset mb pm) (write_meta_block W mb) in
      check-Ends {B = PageManager} (LogEnds mb pm) (if is_v1 pm.version then false else true) _ (
        check-Ends {B = PageManager} (LogEnds mb pm)
          (length (write_meta_block W mb) == pm.meta_block_size) _
          (append_assoc (pm.file.log ++ (fsync ∷ [])) (event ∷ []) (fsync ∷ [])
            ∙ append_assoc pm.file.log (fsync ∷ []) (event ∷ fsync ∷ [])))

  commit-Ends : (t : TableWriter) → Ends (IsCommitted W t.current_txid) (commit_v2 W t)
  unfolding commit_v2 meta_block
  commit-Ends t =
      bind-Ends (λ p. Unit) (IsCommitted W t.current_txid) (Index.write W t.free_idx_ptr t.store) _
        (anything (Index.write W t.free_idx_ptr t.store))
        (λ p u.
          bind-Ends (LogEnds (meta_block p.0 p.1 t) p.1.manager) (IsCommitted W t.current_txid)
            (write_transaction W (meta_block p.0 p.1 t) p.1.manager) _
            (transaction-Ends (meta_block p.0 p.1 t) p.1.manager)
            (λ pm e. record {
              written = meta_block p.0 p.1 t;
              before = p.1.manager.file.log;
              log_ends = e;
              transaction_is = refl;
              txid_kept = refl;
            }))

  -- Whatever is written before each of a writer's commits, at least one, if none of them throws then
  -- the last thing issued on the file is, between two syncs, the write of a metablock of the
  -- transaction id after the one that the writer began with, modulo 2 ^ 64: no commit advances it, so they all
  -- write the same slot.
  pub session-IsCommitted :
      (first : (Store → Store) × ℕ) (more : List ((Store → Store) × ℕ)) (t : TableWriter)
      → Ends (IsCommitted W t.current_txid) (session W (first ∷ more) t)
  unfolding session add_rows
  session-IsCommitted first [] t =
      bind-Ends (IsCommitted W t.current_txid) (IsCommitted W t.current_txid) _ _ (commit-Ends _)
        (λ t' h. h)
  session-IsCommitted first (second ∷ more) t =
      bind-Ends (IsCommitted W t.current_txid) (IsCommitted W t.current_txid) _ _ (commit-Ends _)
        (λ t' h.
          subst (λ n. Ends (IsCommitted W n) (session W (second ∷ more) t')) h.txid_kept
            (session-IsCommitted second more t'))
