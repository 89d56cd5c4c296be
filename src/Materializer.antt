-- ===== src/Materializer.antt =====
-- The record materializer (cstable/RecordMaterializer.cc): records are put together from the
-- entries of their columns.

pub mod Build
pub mod Columns
pub mod Aligned
pub mod Ends
pub mod Sound
pub mod Levels
pub mod Indexed
pub mod Children
pub mod Inserted
use libcstable.Prelude.{
  ℕ, zero, suc, ◌+◌, ◌-◌, ◌%◌, ◌^◌, ◌≡◌, Bool, true, false, ◌&&◌, ◌||◌, List, [], ◌∷◌, ◌++◌,
  replicate, Option, none, some, Result, ok, err, undefined, need, illegal_state,
  invalid_conversion, type_error, ◌>>=◌, ◌>>◌, if◌then◌else◌, ltb, leb, ◌==◌,
}
use libcstable.Prelude.Bytes.{Bytes, bytes_eq}
use libcstable.Prelude.Int.{ℤ, to_bits, of_bits}
use libcstable.Stx.{Numerics}
use libcstable.Column.{ColumnSource}
use libcstable.Format.{
  ColumnType, subrecord, boolean, unsigned_int, signed_int, string, float, datetime, column_type,
}
use libcstable.V1.{Cell}
use libcstable.Schema.Protobuf.{FieldType}

-- Loops one after another; `none` means that the fuel of one ran out.
abbrev pub and_then :
    {A B : Type 0} → Option (Result A) → (A → Option (Result B)) → Option (Result B)
and_then none f = none
and_then (some (ok a)) f = f a
and_then (some (err e)) f = some (err e)
and_then (some undefined) f = some undefined

-- One round of a loop: it goes on or it ends.
pub data Turn (A : Type 0) : Type 0 where
  more : A → Turn A
  done : A → Turn A

-- What a loop does after a round, over itself and what it leaves at its end.
abbrev pub repeat :
    {A C : Type 0} → (A → Option (Result C)) → (A → C) → Result (Turn A) → Option (Result C)
repeat again leave (ok (more a)) = again a
repeat again leave (ok (done a)) = some (ok (leave a))
repeat again leave (err e) = some (err e)
repeat again leave undefined = some undefined

-- A parent of a field: its id, whether it is repeated, and its definition level.
pub record Parent : Type 0 where
  pub id : ℕ
  pub repeated : Bool
  pub dmax : ℕ

-- `K` is the state of the column's reader.
pub record ColumnState (N : Numerics) (K : Type 0) : Type 0 where
  pub reader : K
  pub r : ℕ
  pub d : ℕ
  pub pending : Bool
  pub defined : Bool
  pub parents : List Parent
  pub field_id : ℕ
  pub field_type : FieldType
  pub col_type : ColumnType
  pub val_str : Bytes
  pub val_uint : ℕ
  pub val_sint : ℤ
  pub val_float : N.Double

module _ {N : Numerics} {K : Type 0} where
  -- The value as another type, by the type of the column.
  abbrev unsigned_of : ColumnType → ColumnState N K → Result ℕ
  unsigned_of subrecord s = err illegal_state
  unsigned_of boolean s = ok s.val_uint
  unsigned_of unsigned_int s = ok s.val_uint
  unsigned_of datetime s = ok s.val_uint
  unsigned_of signed_int s = ok (to_bits s.val_sint)
  unsigned_of string s = need invalid_conversion (N.stoull s.val_str)
  unsigned_of float s = ok (N.to_unsigned s.val_float)
  unsigned_of (column_type b) s = undefined

  unfoldable pub get_unsigned_integer : ColumnState N K → Result ℕ
  get_unsigned_integer s = unsigned_of s.col_type s

  abbrev signed_of : ColumnType → ColumnState N K → Result ℤ
  signed_of subrecord s = err illegal_state
  signed_of boolean s = ok (of_bits s.val_uint)
  signed_of unsigned_int s = ok (of_bits s.val_uint)
  signed_of datetime s = ok (of_bits s.val_uint)
  signed_of signed_int s = ok s.val_sint
  signed_of string s = need invalid_conversion (N.stoll s.val_str)
  signed_of float s = ok (N.to_signed s.val_float)
  signed_of (column_type b) s = undefined

  unfoldable pub get_signed_integer : ColumnState N K → Result ℤ
  get_signed_integer s = signed_of s.col_type s

  abbrev text_of : ColumnType → ColumnState N K → Result Bytes
  text_of subrecord s = err illegal_state
  text_of boolean s = ok (N.show_unsigned s.val_uint)
  text_of unsigned_int s = ok (N.show_unsigned s.val_uint)
  text_of datetime s = ok (N.show_unsigned s.val_uint)
  text_of signed_int s = ok (N.show_signed s.val_sint)
  text_of string s = ok s.val_str
  text_of float s = ok (N.show_double s.val_float)
  text_of (column_type b) s = undefined

  unfoldable pub get_string : ColumnState N K → Result Bytes
  get_string s = text_of s.col_type s

  abbrev float_of : ColumnType → ColumnState N K → Result N.Double
  float_of subrecord s = err illegal_state
  float_of boolean s = ok (N.of_unsigned s.val_uint)
  float_of unsigned_int s = ok (N.of_unsigned s.val_uint)
  float_of datetime s = ok (N.of_unsigned s.val_uint)
  float_of signed_int s = ok (N.of_signed s.val_sint)
  float_of string s = need invalid_conversion (N.stod s.val_str)
  float_of float s = ok s.val_float
  float_of (column_type b) s = undefined

  unfoldable pub get_float : ColumnState N K → Result N.Double
  get_float s = float_of s.col_type s

module _ {N : Numerics} {K : Type 0} (S : ColumnSource N K) where
  -- A cell that was read, and the reader after it.
  abbrev take_in : {V : Type 0} → Cell V → K → ColumnState N K → ColumnState N K
  take_in c k s = record s {
    reader = k;
    r = c.rlvl;
    d = c.dlvl;
    defined = c.defined;
    pending = true;
  }

  -- A type that the enumeration does not name reads nothing.
  fetch : ColumnType → ColumnState N K → Result (ColumnState N K)
  fetch subrecord s = err illegal_state
  fetch boolean s =
      S.read_unsigned_int s.reader >>= λ p. ok (record (take_in p.0 p.1 s) { val_uint = p.0.value })
  fetch unsigned_int s =
      S.read_unsigned_int s.reader >>= λ p. ok (record (take_in p.0 p.1 s) { val_uint = p.0.value })
  fetch signed_int s =
      S.read_signed_int s.reader >>= λ p. ok (record (take_in p.0 p.1 s) { val_sint = p.0.value })
  fetch string s =
      S.read_string s.reader >>= λ p. ok (record (take_in p.0 p.1 s) { val_str = p.0.value })
  fetch float s =
      S.read_float s.reader >>= λ p. ok (record (take_in p.0 p.1 s) { val_float = p.0.value })
  fetch datetime s =
      S.read_unsigned_int s.reader >>= λ p. ok (record (take_in p.0 p.1 s) { val_uint = p.0.value })
  fetch (column_type b) s = ok (record s { pending = true })

  unfoldable pub fetch_if_not_pending : ColumnState N K → Result (ColumnState N K)
  unfolding fetch
  fetch_if_not_pending s = if s.pending then ok s else fetch s.col_type s

  unfoldable pub consume : ColumnState N K → ColumnState N K
  consume s = record s { pending = false }

  -- The end of a round, which the loops of loadColumn and skipRecord share: the entry is consumed,
  -- and the loop goes on if the next one belongs to the same record.
  unfoldable pub advance : ColumnState N K → Result (Turn (ColumnState N K))
  unfolding consume fetch_if_not_pending
  advance s =
      let s1 = consume s in
      let at_end : Result (Turn (ColumnState N K)) = ok (done s1) in
      let next : Result (Turn (ColumnState N K)) =
        fetch_if_not_pending s1 >>= λ s2. if s2.r == 0 then ok (done s2) else ok (more s2) in
      if S.eof_reached s1.reader then at_end else next

  -- The loop of skipRecord for one column; `none` means that the fuel ran out.
  unfoldable pub skip_turn : ColumnState N K → Result (Turn (ColumnState N K))
  unfolding fetch_if_not_pending advance
  skip_turn s = fetch_if_not_pending s >>= advance

  unfoldable pub skip_column : ℕ → ColumnState N K → Option (Result (ColumnState N K))
  unfolding skip_turn
  skip_column zero s = none
  skip_column (suc fuel) s = repeat (skip_column fuel) (λ s'. s') (skip_turn s)
