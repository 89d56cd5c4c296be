-- ===== src/Materializer/Ends.antt =====
-- The loops of the materializer end.
use libcstable.Prelude.{
  ℕ, zero, suc, ◌-◌, ◌≤◌, ◌<◌, ◌≡◌, ◌≢◌, refl, ap, sym, ◌∙◌, Bool, true, false, List, [], ◌∷◌,
  Option, none, some, Result, ok, err, undefined, replicate, ◌>>=◌, if◌then◌else◌, ◌==◌, Bool-cases,
  inl, inr, arith,
}
use mathlib.Core.Path.{subst}
use libcstable.Prelude.Bytes.{Bytes}
use libcstable.Prelude.Int.{ℤ}
use libcstable.Stx.{Numerics}
use libcstable.Column.{ColumnSource}
use libcstable.Format.{
  ColumnType, subrecord, boolean, unsigned_int, signed_int, string, float, datetime, column_type,
  IsKnownType,
}
use libcstable.V1.{Cell}
use libcstable.Classes.Embed.{both-Succeeds}
use libcstable.Materializer.{
  and_then, ColumnState, Turn, more, done, repeat, fetch, fetch_if_not_pending, consume, advance,
  skip_turn, skip_column,
}
use libcstable.Materializer.Build.{Builder, load_turn, load_loop, load_column}
use libcstable.Materializer.Aligned.{skip_turn-load_turn}
use libcstable.Materializer.Columns.{Columns, skip_record, next_record}

-- A source of finitely many entries: each read takes one off, as long as there are any, and where
-- none is left the end is reached.
pub record IsFinite {N : Numerics} {K : Type 0} (S : ColumnSource N K) : Type 0 where
  pub left : K → ℕ
  pub left-unsigned_int :
      (k k' : K) (c : Cell ℕ) → S.read_unsigned_int k ≡ ok (c, k') → left k' ≡ left k - 1
  pub left-signed_int :
      (k k' : K) (c : Cell ℤ) → S.read_signed_int k ≡ ok (c, k') → left k' ≡ left k - 1
  pub left-float :
      (k k' : K) (c : Cell N.Double) → S.read_float k ≡ ok (c, k') → left k' ≡ left k - 1
  pub left-string :
      (k k' : K) (c : Cell Bytes) → S.read_string k ≡ ok (c, k') → left k' ≡ left k - 1
  pub ends : (k : K) → left k ≡ 0 → S.eof_reached k ≡ true

-- A round ends the loop, or it goes on as the loop does.
repeat-ends :
    {A C : Type 0} (again : A → Option (Result C)) (leave : A → C) (m : Result (Turn A))
    → ((a : A) → m ≡ ok (more a) → (r : Result C) × (again a ≡ some r))
    → (r : Result C) × (repeat again leave m ≡ some r)
repeat-ends again leave (ok (more a)) h = h a refl
repeat-ends again leave (ok (done a)) h = (ok (leave a), refl)
repeat-ends again leave (err kind) h = (err kind, refl)
repeat-ends again leave undefined h = (undefined, refl)

and_then-ends :
    {A C : Type 0} (m : Option (Result A)) (f : A → Option (Result C))
    → (r : Result A) × (m ≡ some r)
    → ((a : A) → (r : Result C) × (f a ≡ some r))
    → (r : Result C) × (and_then m f ≡ some r)
and_then-ends none f (r, e) h = absurd cc
and_then-ends (some (ok a)) f e h = h a
and_then-ends (some (err kind)) f e h = (err kind, refl)
and_then-ends (some undefined) f e h = (undefined, refl)

-- The branch that a test takes.
pub when_true :
    {A : Type 0} (b : Bool) (x y : A) {r : A} → (if b then x else y) ≡ r → b ≡ true → x ≡ r
when_true true x y e h = e
when_true false x y e h = absurd cc

pub when_false :
    {A : Type 0} (b : Bool) (x y : A) {r : A} → (if b then x else y) ≡ r → b ≡ false → y ≡ r
when_false true x y e h = absurd cc
when_false false x y e h = e

module _ {N : Numerics} {K : Type 0} (S : ColumnSource N K) (F : IsFinite S) where
  open F use {left}

  -- The entries left and a type that is kept.
  record Reads (s s' : ColumnState N K) : Type 0 where
    fewer : left s'.reader ≡ left s.reader - 1
    same_type : s'.col_type ≡ s.col_type

  read-Reads :
      {V : Type 0} (read : K → Result (Cell V × K)) (s s' : ColumnState N K)
      (after : Cell V × K → ColumnState N K)
      → ((p : Cell V × K) → (after p).reader ≡ p.1)
      → ((p : Cell V × K) → (after p).col_type ≡ s.col_type)
      → ((k k' : K) (c : Cell V) → read k ≡ ok (c, k') → left k' ≡ left k - 1)
      → (read s.reader >>= λ p. ok (after p)) ≡ ok s'
      → Reads s s'
  read-Reads read s s' after hr ht hl e =
      let p = both-Succeeds (read s.reader) e in
      let n = hl s.reader p.value.1 p.value.0 p.step_is in
      let same : after p.value ≡ s' = let q = p.after_is in cc in
      subst (λ (t : ColumnState N K). Reads s t) same
        (record { fewer = ap left (hr p.value) ∙ n; same_type = ht p.value })

  fetch-Reads :
      (t : ColumnType) (s s' : ColumnState N K) → IsKnownType t → fetch S t s ≡ ok s' → Reads s s'
  unfolding fetch
  fetch-Reads subrecord s s' h e = absurd cc
  fetch-Reads boolean s s' h e =
      read-Reads S.read_unsigned_int s s' _ (λ p. refl) (λ p. refl) F.left-unsigned_int e
  fetch-Reads unsigned_int s s' h e =
      read-Reads S.read_unsigned_int s s' _ (λ p. refl) (λ p. refl) F.left-unsigned_int e
  fetch-Reads signed_int s s' h e =
      read-Reads S.read_signed_int s s' _ (λ p. refl) (λ p. refl) F.left-signed_int e
  fetch-Reads string s s' h e =
      read-Reads S.read_string s s' _ (λ p. refl) (λ p. refl) F.left-string e
  fetch-Reads float s s' h e = read-Reads S.read_float s s' _ (λ p. refl) (λ p. refl) F.left-float e
  fetch-Reads datetime s s' h e =
      read-Reads S.read_unsigned_int s s' _ (λ p. refl) (λ p. refl) F.left-unsigned_int e
  fetch-Reads (column_type b) s s' h e = absurd h

  -- A first fetch of a round may find an entry that is pending.
  record Kept (s s' : ColumnState N K) : Type 0 where
    no_more : left s'.reader ≤ left s.reader
    kept_type : s'.col_type ≡ s.col_type

  first_fetch :
      (s s' : ColumnState N K)
      → IsKnownType s.col_type
      → fetch_if_not_pending S s ≡ ok s'
      → Kept s s'
  unfolding fetch_if_not_pending
  first_fetch s s' h e = elim (Bool-cases s.pending) [
    | inl pending ↦
        let same : s ≡ s' = let q = when_true s.pending _ _ e pending in cc in
        subst (λ (t : ColumnState N K). Kept s t) same
          (record { no_more = omega arith; kept_type = refl })
    | inr not_pending ↦
        let r = fetch-Reads s.col_type s s' h (when_false s.pending _ _ e not_pending) in
        record { no_more = omega (arith, r.fewer); kept_type = r.same_type }
  ]

  -- A loop that goes on has an entry less before it.
  record GoesOn (s s' : ColumnState N K) : Type 0 where
    less : left s'.reader < left s.reader
    type_kept : s'.col_type ≡ s.col_type

  advance-more :
      (s s' : ColumnState N K) → IsKnownType s.col_type → advance S s ≡ ok (more s') → GoesOn s s'
  unfolding advance fetch_if_not_pending consume
  advance-more s s' h e = elim (Bool-cases (S.eof_reached s.reader)) [
    | inl at_end ↦ absurd (let q = rw at_end at e in cc)
    | inr not_at_end ↦
        let some_left : left s.reader ≢ 0 = λ z. let q = F.ends s.reader z in absurd cc in
        let p =
          both-Succeeds (fetch S s.col_type (record s { pending = false })) (rw not_at_end at e) in
        elim (Bool-cases (p.value.r == 0)) [
          | inl ends_here ↦ absurd (let q = rw ends_here at p.after_is in cc)
          | inr goes_on ↦
              let r = fetch-Reads s.col_type (record s { pending = false }) p.value h p.step_is in
              let same : p.value ≡ s' = let q = rw goes_on at p.after_is in cc in
              subst (λ (t : ColumnState N K). GoesOn s t) same
                (record { less = omega (arith, r.fewer, some_left); type_kept = r.same_type })
        ]
  ]

  skip_turn-more :
      (s s' : ColumnState N K) → IsKnownType s.col_type → skip_turn S s ≡ ok (more s') → GoesOn s s'
  unfolding skip_turn
  skip_turn-more s s' h e =
      let p = both-Succeeds (fetch_if_not_pending S s) e in
      let k = first_fetch s p.value h p.step_is in
      let g = advance-more p.value s' (subst IsKnownType (sym k.kept_type) h) p.after_is in
      record { less = omega (arith, k.no_more, g.less); type_kept = g.type_kept ∙ k.kept_type }

  skip_column-ends :
      (fuel : ℕ) (s : ColumnState N K)
      → IsKnownType s.col_type
      → left s.reader < fuel
      → (m : Result (ColumnState N K)) × (skip_column S fuel s ≡ some m)
  unfolding skip_column
  skip_column-ends zero s h n = absurd (omega arith)
  skip_column-ends (suc fuel) s h n =
      repeat-ends (skip_column S fuel) (λ s'. s') (skip_turn S s)
        λ s' e.
          let g = skip_turn-more s s' h e in
          skip_column-ends fuel s' (subst IsKnownType (sym g.type_kept) h) (omega (arith, g.less))

  -- The fuel is more than the entries that each column has left, and its type is named.
  abbrev pub IsEnough : ℕ → Columns N K → Type 0
  IsEnough fuel [] = Unit
  IsEnough fuel ((name, s) ∷ cols) =
      (IsKnownType s.col_type × (left s.reader < fuel)) × IsEnough fuel cols

  skip_record-ends :
      (fuel : ℕ) (cols : Columns N K)
      → IsEnough fuel cols
      → (m : Result (Columns N K)) × (skip_record S fuel cols ≡ some m)
  unfolding skip_record
  skip_record-ends fuel [] h = (ok [], refl)
  skip_record-ends fuel ((name, s) ∷ cols) (h, hs) =
      and_then-ends (skip_column S fuel s) _ (skip_column-ends fuel s h.0 h.1) λ s'.
        and_then-ends (skip_record S fuel cols) _ (skip_record-ends fuel cols hs)
          λ cols'. (ok ((name, s') ∷ cols'), refl)

  module _ (B : Builder N) where
    load_loop-ends :
        (fuel : ℕ) (indexes : List ℕ) (record_ : B.Message) (s : ColumnState N K)
        → IsKnownType s.col_type
        → left s.reader < fuel
        → (m : Result (ColumnState N K × B.Message)) × (load_loop S B fuel indexes record_ s
            ≡ some m)
    unfolding load_loop
    load_loop-ends zero indexes record_ s h n = absurd (omega arith)
    load_loop-ends (suc fuel) indexes record_ s h n =
        repeat-ends (λ t. load_loop S B fuel t.1 t.2 t.0) (λ t. (t.0, t.2))
          (load_turn S B indexes record_ s)
          λ t e.
            let g = skip_turn-more s t.0 h (skip_turn-load_turn S B indexes record_ s (more t) e) in
            load_loop-ends fuel t.1 t.2 t.0 (subst IsKnownType (sym g.type_kept) h)
              (omega (arith, g.less))

    loaded :
        (fuel : ℕ) (cols : Columns N K) (record_ : B.Message)
        → IsEnough fuel cols
        → (m : Result (Columns N K × B.Message)) × (next_record S B fuel cols record_ ≡ some m)
    unfolding next_record load_column
    loaded fuel [] record_ h = (ok ([], record_), refl)
    loaded fuel ((name, s) ∷ cols) record_ (h, hs) =
        and_then-ends (load_loop S B fuel (replicate (S.max_repetition_level s.reader) 0) record_ s)
          _ (load_loop-ends fuel _ record_ s h.0 h.1)
          λ p.
            and_then-ends (next_record S B fuel cols p.1) _ (loaded fuel cols p.1 hs)
              λ q. (ok ((name, p.0) ∷ q.0, q.1), refl)

    -- For columns of finite sources, of types that the enumeration names, and more fuel than any of
    -- them has entries left: whatever the record, no loop of nextRecord and none of skipRecord runs
    -- out of the fuel, so none takes more rounds than the entries left and one. Each has an outcome
    -- then: success, an error, or `undefined` where a read or an index is undefined.
    pub next_record-ends :
        (fuel : ℕ) (cols : Columns N K) (record_ : B.Message)
        → IsEnough fuel cols
        → ((m : Result (Columns N K × B.Message)) × (next_record S B fuel cols record_ ≡ some m))
          × ((m : Result (Columns N K)) × (skip_record S fuel cols ≡ some m))
    next_record-ends fuel cols record_ h =
        (loaded fuel cols record_ h, skip_record-ends fuel cols h)
