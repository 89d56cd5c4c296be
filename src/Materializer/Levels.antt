-- ===== src/Materializer/Levels.antt =====
-- The levels of the entries that the materializer fetches (fetchIfNotPending and consume of
-- cstable/RecordMaterializer.cc).
use libcstable.Prelude.{
  ℕ, ◌≤◌, ◌≡◌, refl, ap, sym, ◌∙◌, Bool, true, false, Result, ok, ◌>>=◌, if◌then◌else◌, ◌==◌,
  Bool-cases, inl, inr, arith,
}
use mathlib.Core.Path.{subst}
use libcstable.Stx.{Numerics}
use libcstable.Column.{ColumnSource}
use libcstable.Format.{
  ColumnType, subrecord, boolean, unsigned_int, signed_int, string, float, datetime, column_type,
  IsKnownType,
}
use libcstable.V1.{Cell}
use libcstable.Shredder.Safe.{Safe, bind-Safe}
use libcstable.Materializer.{
  ColumnState, Turn, more, done, fetch, fetch_if_not_pending, consume, advance,
}
use libcstable.Materializer.Sound.{repeated_in}

pub if-Safe :
    {A : Type 0} (P : A → Type 0) (b : Bool) (x y : Result A)
    → Safe P x
    → Safe P y
    → Safe P (if b then x else y)
if-Safe P true x y h k = h
if-Safe P false x y h k = k

-- What holds behind a round.
abbrev pub TurnHolds : {A : Type 0} → (A → Type 0) → Turn A → Type 0
TurnHolds P (more a) = P a
TurnHolds P (done a) = P a

-- The reads of a source in a good state are defined, their repetition levels within the maximum of
-- the column, which stays, and the state behind them good.
module _ {N : Numerics} {K : Type 0} (S : ColumnSource N K) where
  abbrev pub IsRead : {V : Type 0} → (K → Type 0) → K → Cell V × K → Type 0
  IsRead is_good k p =
      (p.0.rlvl ≤ S.max_repetition_level k)
      × (S.max_repetition_level p.1 ≡ S.max_repetition_level k)
      × is_good p.1

  pub record IsLevelled (is_good : K → Type 0) : Type 0 where
    pub unsigned_int_reads : (k : K) → is_good k → Safe (IsRead is_good k) (S.read_unsigned_int k)
    pub signed_int_reads : (k : K) → is_good k → Safe (IsRead is_good k) (S.read_signed_int k)
    pub float_reads : (k : K) → is_good k → Safe (IsRead is_good k) (S.read_float k)
    pub string_reads : (k : K) → is_good k → Safe (IsRead is_good k) (S.read_string k)

  -- A column of which no more parents are repeated than it has repetition levels, with an entry
  -- within them; there are `n` of them.
  pub record IsSoundFor (is_good : K → Type 0) (n : ℕ) (s : ColumnState N K) : Type 0 where
    pub type_known : IsKnownType s.col_type
    pub parents_fit : repeated_in s.parents ≤ n
    pub level_fits : s.r ≤ n
    pub reader_good : is_good s.reader
    pub levels_are : S.max_repetition_level s.reader ≡ n

  abbrev pub IsSound : (K → Type 0) → ColumnState N K → Type 0
  IsSound is_good s = IsSoundFor is_good (S.max_repetition_level s.reader) s

  module _ (is_good : K → Type 0) (L : IsLevelled is_good) (n : ℕ) where
    read-IsSound :
        {V : Type 0} (read : K → Result (Cell V × K)) (s : ColumnState N K)
        (after : Cell V × K → ColumnState N K)
        → ((p : Cell V × K) → (after p).col_type ≡ s.col_type)
        → ((p : Cell V × K) → (after p).parents ≡ s.parents)
        → ((p : Cell V × K) → (after p).r ≡ p.0.rlvl)
        → ((p : Cell V × K) → (after p).reader ≡ p.1)
        → Safe (IsRead is_good s.reader) (read s.reader)
        → IsSoundFor is_good n s
        → Safe (IsSoundFor is_good n) (read s.reader >>= λ p. ok (after p))
    read-IsSound read s after ht hp hr hk l h =
        bind-Safe (IsRead is_good s.reader) (IsSoundFor is_good n) (read s.reader) _ l λ p w.
          record {
            type_known = rw (ht p) h.type_known;
            parents_fit = rw (hp p) h.parents_fit;
            level_fits = omega (arith, hr p, w.0, h.levels_are);
            levels_are = ap S.max_repetition_level (hk p) ∙ w.1 ∙ h.levels_are;
            reader_good = subst is_good (sym (hk p)) w.2;
          }

    fetch-IsSound :
        (t : ColumnType) (s : ColumnState N K)
        → IsKnownType t
        → IsSoundFor is_good n s
        → Safe (IsSoundFor is_good n) (fetch S t s)
    unfolding fetch
    fetch-IsSound subrecord s k h = tt
    fetch-IsSound boolean s k h =
        read-IsSound S.read_unsigned_int s _ (λ p. refl) (λ p. refl) (λ p. refl) (λ p. refl)
          (L.unsigned_int_reads s.reader h.reader_good) h
    fetch-IsSound unsigned_int s k h =
        read-IsSound S.read_unsigned_int s _ (λ p. refl) (λ p. refl) (λ p. refl) (λ p. refl)
          (L.unsigned_int_reads s.reader h.reader_good) h
    fetch-IsSound datetime s k h =
        read-IsSound S.read_unsigned_int s _ (λ p. refl) (λ p. refl) (λ p. refl) (λ p. refl)
          (L.unsigned_int_reads s.reader h.reader_good) h
    fetch-IsSound signed_int s k h =
        read-IsSound S.read_signed_int s _ (λ p. refl) (λ p. refl) (λ p. refl) (λ p. refl)
          (L.signed_int_reads s.reader h.reader_good) h
    fetch-IsSound string s k h =
        read-IsSound S.read_string s _ (λ p. refl) (λ p. refl) (λ p. refl) (λ p. refl)
          (L.string_reads s.reader h.reader_good) h
    fetch-IsSound float s k h =
        read-IsSound S.read_float s _ (λ p. refl) (λ p. refl) (λ p. refl) (λ p. refl)
          (L.float_reads s.reader h.reader_good) h
    fetch-IsSound (column_type b) s k h = absurd k

    pub fetched-IsSound :
        (s : ColumnState N K)
        → IsSoundFor is_good n s
        → Safe (IsSoundFor is_good n) (fetch_if_not_pending S s)
    unfolding fetch_if_not_pending
    fetched-IsSound s h =
        if-Safe (IsSoundFor is_good n) s.pending (ok s) (fetch S s.col_type s) h
          (fetch-IsSound s.col_type s h.type_known h)

    pub advance-IsSound :
        (s : ColumnState N K)
        → IsSoundFor is_good n s
        → Safe (TurnHolds (IsSoundFor is_good n)) (advance S s)
    unfolding advance consume
    advance-IsSound s h =
        let s1 = record s { pending = false } in
        let h1 : IsSoundFor is_good n s1 = record {
          type_known = h.type_known;
          parents_fit = h.parents_fit;
          level_fits = h.level_fits;
          levels_are = h.levels_are;
          reader_good = h.reader_good;
        } in
        elim (Bool-cases (S.eof_reached s.reader)) [
          | inl at_end ↦ rw at_end h1
          | inr not_at_end ↦ rw not_at_end (
              bind-Safe (IsSoundFor is_good n) (TurnHolds (IsSoundFor is_good n))
                (fetch_if_not_pending S s1) _ (fetched-IsSound s1 h1)
                λ s2 h2. elim (Bool-cases (s2.r == 0)) [
                  | inl ends ↦ rw ends h2
                  | inr goes_on ↦ rw goes_on h2
                ])
        ]
