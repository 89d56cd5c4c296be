-- ===== src/Materializer/Aligned.antt =====
-- Reading a record and skipping it move the columns in the same way.
use libcstable.Prelude.{
  ℕ, zero, suc, ◌≡◌, refl, ap, ◌∙◌, List, [], ◌∷◌, Option, none, some, Result, ok, err, undefined,
  replicate,
}
use libcstable.Stx.{Numerics}
use libcstable.Column.{ColumnSource}
use libcstable.Classes.Embed.{both-Succeeds}
use libcstable.Materializer.{
  and_then, ColumnState, Turn, more, done, repeat, fetch_if_not_pending, advance, skip_turn,
  skip_column,
}
use libcstable.Materializer.Build.{
  Builder, load_entry, with_record, load_turn, load_loop, load_column,
}
use libcstable.Materializer.Columns.{Columns, skip_record, next_record}

-- A loop that ends well, and what follows it.
and_then-parts :
    {A B : Type 0} (m : Option (Result A)) (f : A → Option (Result B)) {b : B}
    → and_then m f ≡ some (ok b)
    → (a : A) × (m ≡ some (ok a)) × (f a ≡ some (ok b))
and_then-parts none f e = absurd cc
and_then-parts (some (ok a)) f e = (a, refl, e)
and_then-parts (some (err kind)) f e = absurd cc
and_then-parts (some undefined) f e = absurd cc

module _ {N : Numerics} {K : Type 0} (S : ColumnSource N K) (B : Builder N) where
  abbrev pub forget : Turn (ColumnState N K × List ℕ × B.Message) → Turn (ColumnState N K)
  forget (more (s, indexes, record_)) = more s
  forget (done (s, indexes, record_)) = done s

  forget-with_record :
      (l : List ℕ × B.Message) (u : Turn (ColumnState N K))
      (t : Turn (ColumnState N K × List ℕ × B.Message))
      → with_record l u ≡ ok t
      → u ≡ forget t
  forget-with_record l (more s) (more t) h = cc
  forget-with_record l (more s) (done t) h = absurd cc
  forget-with_record l (done s) (more t) h = absurd cc
  forget-with_record l (done s) (done t) h = cc

  pub skip_turn-load_turn :
      (indexes : List ℕ) (record_ : B.Message) (s : ColumnState N K)
      (t : Turn (ColumnState N K × List ℕ × B.Message))
      → load_turn S B indexes record_ s ≡ ok t
      → skip_turn S s ≡ ok (forget t)
  unfolding load_turn skip_turn
  skip_turn-load_turn indexes record_ s t h =
      let a = both-Succeeds (fetch_if_not_pending S s) h in
      let b = both-Succeeds (load_entry S B indexes record_ a.value) a.after_is in
      let c = both-Succeeds (advance S a.value) b.after_is in
      rw a.step_is (c.step_is ∙ ap ok (forget-with_record b.value c.value t c.after_is))

  repeat-forget :
      (again : ColumnState N K × List ℕ × B.Message → Option (Result (ColumnState N K × B.Message)))
      (again' : ColumnState N K → Option (Result (ColumnState N K)))
      (m : Result (Turn (ColumnState N K × List ℕ × B.Message)))
      (m' : Result (Turn (ColumnState N K))) (s' : ColumnState N K) (record' : B.Message)
      → ((a : ColumnState N K × List ℕ × B.Message)
          → again a ≡ some (ok (s', record'))
          → again' a.0 ≡ some (ok s'))
      → ((t : Turn (ColumnState N K × List ℕ × B.Message)) → m ≡ ok t → m' ≡ ok (forget t))
      → repeat again (λ t. (t.0, t.2)) m ≡ some (ok (s', record'))
      → repeat again' (λ s. s) m' ≡ some (ok s')
  repeat-forget again again' (ok (more (s, indexes, record_))) m' s' record' ih same h =
      rw (same (more (s, indexes, record_)) refl) (ih (s, indexes, record_) h)
  repeat-forget again again' (ok (done (s, indexes, record_))) m' s' record' ih same h =
      rw (same (done (s, indexes, record_)) refl) (cc)
  repeat-forget again again' (err e) m' s' record' ih same h = absurd cc
  repeat-forget again again' undefined m' s' record' ih same h = absurd cc

  load_loop-skip_column :
      (fuel : ℕ) (indexes : List ℕ) (record_ record' : B.Message) (s s' : ColumnState N K)
      → load_loop S B fuel indexes record_ s ≡ some (ok (s', record'))
      → skip_column S fuel s ≡ some (ok s')
  unfolding load_loop skip_column
  load_loop-skip_column zero indexes record_ record' s s' h = absurd cc
  load_loop-skip_column (suc fuel) indexes record_ record' s s' h =
      repeat-forget (λ t. load_loop S B fuel t.1 t.2 t.0) (skip_column S fuel)
        (load_turn S B indexes record_ s) (skip_turn S s) s' record'
        (λ a k. load_loop-skip_column fuel a.1 a.2 record' a.0 s' k)
        (skip_turn-load_turn indexes record_ s) h

  -- If nextRecord succeeds, from any state of the columns and with any record, then skipRecord from
  -- the same state succeeds, and leaves every column in the same state: read or skipped, a record
  -- takes the same entries of each column.
  pub next_record-skip_record :
      (fuel : ℕ) (cols cols' : Columns N K) (record_ record' : B.Message)
      → next_record S B fuel cols record_ ≡ some (ok (cols', record'))
      → skip_record S fuel cols ≡ some (ok cols')
  unfolding next_record skip_record load_column
  next_record-skip_record fuel [] cols' record_ record' h =
      ap (λ (cols : Columns N K). some (ok cols)) (no_columns_left cols' h)
    where
      no_columns_left :
          (cols' : Columns N K)
          → ◌≡◌ {A = Option (Result (Columns N K × B.Message))}
              (some (ok ([], record_)))
              (some (ok (cols', record')))
          → [] ≡ cols'
      no_columns_left cols' e = cc
  next_record-skip_record fuel ((name, s) ∷ cols) cols' record_ record' h =
      let indexes = replicate (S.max_repetition_level s.reader) 0 in
      let ((s', r1), e1, h1) = and_then-parts (load_loop S B fuel indexes record_ s) _ h in
      let ((rest, r2), e2, h2) = and_then-parts (next_record S B fuel cols r1) _ h1 in
      let e : (name, s') ∷ rest ≡ cols' = cc in
      rw (
        load_loop-skip_column fuel indexes record_ r1 s s' e1,
        next_record-skip_record fuel cols rest r1 r2 e2,
        e,
      )
