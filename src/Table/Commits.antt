-- ===== src/Table/Commits.antt =====
-- The commits of one writer, one after another.
use libcstable.Prelude.{
  ℕ, zero, suc, ◌≡◌, ◌∙◌, refl, length, List, [], ◌∷◌, some, Result, ok, err, undefined, ◌>>=◌,
}
use libcstable.Prelude.Bytes.{Bytes}
use libcstable.Stx.{Wire}
use libcstable.Format.{PageRef}
use libcstable.Pages.{PageManager, write_transaction}
use libcstable.Pages.Index
use libcstable.Pages.Index.{Store, build_index, alloc_index, write_pages}
use libcstable.Table.{TableWriter, add_rows, meta_block, commit_v2}

-- A writer's life: values are written, which changes the store, and rows are added; then follows a
-- commit; and so on, until a commit throws.
unfoldable pub session : Wire → List ((Store → Store) × ℕ) → TableWriter → Result TableWriter
session W [] t = ok t
session W ((values, rows) ∷ more) t =
    commit_v2 W (record (add_rows rows t) { store = values t.store }) >>= session W more

-- The run does not end normally.
abbrev pub Fails : {A : Type 0} → Result A → Type 0
Fails (ok a) = ⊥
Fails (err e) = Unit
Fails undefined = Unit

bind-Fails :
    {A B : Type 0} (x : Result A) (f : A → Result B)
    → ((a : A) → x ≡ ok a → Fails (f a))
    → Fails (x >>= f)
bind-Fails (ok a) f h = h a refl
bind-Fails (err e) f h = tt
bind-Fails undefined f h = tt

first-Fails : {A B : Type 0} (x : Result A) (f : A → Result B) → Fails x → Fails (x >>= f)
first-Fails (ok a) f h = elim h [ ]
first-Fails (err e) f h = tt
first-Fails undefined f h = tt

nested-Fails :
    {A B C : Type 0} (x : Result A) (g : A → Result B) (f : B → Result C)
    → ((a : A) → Fails (g a >>= f))
    → Fails ((x >>= g) >>= f)
nested-Fails (ok a) g f h = h a
nested-Fails (err e) g f h = tt
nested-Fails undefined g f h = tt

module _ (W : Wire) where
  -- With a page to use again, the index is not written.
  reused-Fails : (page : PageRef) (s : Store) → Fails (Index.write W (some page) s)
  unfolding Index.write alloc_index write_pages
  reused-Fails page s =
      bind-Fails (build_index W s.writers s.index s.manager) _
        (λ p e. pages_fail (length p.0) p.0 p.1)
    where
      pages_fail :
          (n : ℕ) (buf : Bytes) (pm : PageManager)
          → Fails {A = PageRef × Store} (
              alloc_index n (some page) pm >>= λ q.
              write_pages W buf q.0 q.1 >>= λ x. ok (x.0, record s { manager = x.1 }))
      pages_fail zero buf pm = tt
      pages_fail (suc n) buf pm = tt

  reused_commit-Fails :
      (page : PageRef) (t : TableWriter) → t.free_idx_ptr ≡ some page → Fails (commit_v2 W t)
  unfolding commit_v2
  reused_commit-Fails page t h = rw h (first-Fails _ _ (reused-Fails page t.store))

  -- After a commit the pages to use again are those of the commit before it.
  commit_next :
      (t : TableWriter) (f : TableWriter → Result TableWriter)
      → ((head : PageRef) (t' : TableWriter)
          → t'.free_idx_ptr ≡ t.cur_idx_ptr
          → t'.cur_idx_ptr ≡ some head
          → Fails (f t'))
      → Fails (commit_v2 W t >>= f)
  unfolding commit_v2
  commit_next t f h = nested-Fails (Index.write W t.free_idx_ptr t.store) _ f (λ p.
      nested-Fails (write_transaction W (meta_block p.0 p.1 t) p.1.manager) _ f
        (λ manager. h p.0 _ refl refl))

  -- A table writer never commits three times: whatever is written before each commit, and from
  -- whatever state, the first, the second or the third commit does not succeed.
  pub third_commit-Fails :
      (t : TableWriter) (first second third : (Store → Store) × ℕ)
      → Fails (session W (first ∷ second ∷ third ∷ []) t)
  unfolding session add_rows
  third_commit-Fails t first second third = commit_next _ _ (λ h1 t1 f1 c1.
      commit_next _ _ (λ h2 t2 f2 c2. first-Fails _ _ (reused_commit-Fails h1 _ (f2 ∙ c1))))
