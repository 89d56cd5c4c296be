-- ===== src/Column.antt =====
-- The interfaces cstable::ColumnWriter and cstable::ColumnReader (cstable/ColumnWriter.h and
-- cstable/ColumnReader.h): what a client of a column, such as the record shredder, the record
-- materializer or a copy from another column, calls. `K` is the state of the column.
use libcstable.Prelude.{ℕ, Bool, Result, ok, ◌>>=◌, if◌then◌else◌}
use libcstable.Prelude.Bytes.{Bytes}
use libcstable.Prelude.Int.{ℤ}
use libcstable.Stx.{Numerics}
use libcstable.Format.{ColumnType}
use libcstable.V1.{Cell, cell}

-- The arguments are the repetition level, the definition level, the value and the column. A time
-- is its count of microseconds.
pub record ColumnSink (N : Numerics) (K : Type 0) : Type 0 where
  pub write_null : ℕ → ℕ → K → Result K
  pub write_boolean : ℕ → ℕ → Bool → K → Result K
  pub write_unsigned_int : ℕ → ℕ → ℕ → K → Result K
  pub write_signed_int : ℕ → ℕ → ℤ → K → Result K
  pub write_float : ℕ → ℕ → N.Double → K → Result K
  pub write_string : ℕ → ℕ → Bytes → K → Result K
  pub write_date_time : ℕ → ℕ → ℕ → K → Result K
  pub max_repetition_level : K → ℕ
  pub max_definition_level : K → ℕ

-- A read returns whether there is a value, the levels and the value, and moves on.
pub record ColumnSource (N : Numerics) (K : Type 0) : Type 0 where
  pub read_boolean : K → Result (Cell Bool × K)
  pub read_unsigned_int : K → Result (Cell ℕ × K)
  pub read_signed_int : K → Result (Cell ℤ × K)
  pub read_float : K → Result (Cell N.Double × K)
  pub read_string : K → Result (Cell Bytes × K)
  pub skip_value : K → Result K
  pub next_repetition_level : K → ℕ
  pub eof_reached : K → Bool
  pub column_type : K → ColumnType
  pub max_repetition_level : K → ℕ
  pub max_definition_level : K → ℕ

-- readDateTime of the base class: a time is read as its count of microseconds.
unfoldable pub read_date_time :
    {N : Numerics} {K : Type 0} → ColumnSource N K → K → Result (Cell ℕ × K)
read_date_time S k = S.read_unsigned_int k >>= λ p.
    let c = p.0 in ok (cell c.defined c.rlvl c.dlvl (if c.defined then c.value else 0), p.1)
