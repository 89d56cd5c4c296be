-- ===== src/V2.antt =====
-- Columns of format v0.2: DefaultColumnWriter (cstable/ColumnWriter.cc) and UnsignedIntColumnWriter
-- (cstable/columns/UnsignedIntColumnWriter.cc). A column's page writers are numbers in the store.
pub mod Reader
use libcstable.Prelude.{
  ℕ, Bool, true, false, Option, none, some, Result, ok, err, invalid_conversion, illegal_argument,
  need, ◌>>=◌, if◌then◌else◌, ltb,
}
use libcstable.Prelude.Bytes.{Bytes}
use libcstable.Prelude.Int.{ℤ, to_bits, is_negative}
use libcstable.Stx.{Wire, Numerics}
use libcstable.Format.{ColumnConfig, ColumnEncoding, uint64_plain}
use libcstable.Pages.Writer.{PageIndexKey, data_entry, rlevel, dlevel}
use libcstable.Pages.Index.{Store, new_page_writer, add_page_writer, append_to}

pub record UnsignedIntColumn : Type 0 where
  pub config : ColumnConfig
  pub rlevel_writer : Option ℕ
  pub dlevel_writer : Option ℕ
  pub data_writer : ℕ

-- Opens a writer and registers it: the constructor of the writer does so a first time.
unfoldable pub level_writer : PageIndexKey → Store → ℕ × Store
unfolding new_page_writer add_page_writer
level_writer key s = let p = new_page_writer key s in (p.0, add_page_writer key p.0 p.1)

-- DefaultColumnWriter: a level writer only where the column has such levels.
unfoldable pub open_level : ℕ → PageIndexKey → Store → Option ℕ × Store
unfolding level_writer
open_level level_max key s =
    let opened = level_writer key s in
    let with_writer : Option ℕ × Store = (some opened.0, opened.1) in
    let without : Option ℕ × Store = (none, s) in if ltb 0 level_max then with_writer else without

abbrev pub is_uint64_plain : ColumnEncoding → Bool
is_uint64_plain uint64_plain = true
is_uint64_plain _ = false

unfoldable pub unsigned_int_column : ColumnConfig → Store → Result (UnsignedIntColumn × Store)
unfolding open_level new_page_writer
unsigned_int_column config s =
    let r =
      open_level config.rlevel_max (record { column_id = config.column_id; entry_type = rlevel })
        s in
    let d =
      open_level config.dlevel_max (record { column_id = config.column_id; entry_type = dlevel })
        r.1 in
    let v =
      new_page_writer (record { column_id = config.column_id; entry_type = data_entry }) d.1 in
    let column : UnsignedIntColumn = record {
      config = config;
      rlevel_writer = r.0;
      dlevel_writer = d.0;
      data_writer = v.0;
    } in
    if is_uint64_plain config.storage_type then ok (column, v.1) else err illegal_argument

module _ (W : Wire) (column : UnsignedIntColumn) where
  abbrev append_level : Option ℕ → ℕ → Store → Result Store
  append_level none level s = ok s
  append_level (some writer) level s = append_to W writer level s

  pub write_null : ℕ → ℕ → Store → Result Store
  write_null r d s =
      append_level column.rlevel_writer r s >>= λ s1. append_level column.dlevel_writer d s1

  pub write_unsigned_int : ℕ → ℕ → ℕ → Store → Result Store
  write_unsigned_int r d value s = append_level column.rlevel_writer r s >>= λ s1.
      append_level column.dlevel_writer d s1 >>= λ s2. append_to W column.data_writer value s2

  pub write_boolean : ℕ → ℕ → Bool → Store → Result Store
  write_boolean r d value = write_unsigned_int r d (if value then 1 else 0)

  -- A negative value is written as 0.
  pub write_signed_int : ℕ → ℕ → ℤ → Store → Result Store
  write_signed_int r d value =
      write_unsigned_int r d (if is_negative value then 0 else to_bits value)

  pub write_float : (N : Numerics) → ℕ → ℕ → N.Double → Store → Result Store
  write_float N r d value =
      write_unsigned_int r d (N.to_unsigned (if N.below_zero value then N.zero_double else value))

  pub write_string : Numerics → ℕ → ℕ → Bytes → Store → Result Store
  write_string N r d text s =
      need invalid_conversion (Numerics.stoull N text) >>= λ value. write_unsigned_int r d value s

  pub write_date_time : ℕ → ℕ → ℕ → Store → Result Store
  write_date_time r d micros = write_unsigned_int r d micros
