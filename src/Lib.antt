-- ===== src/Lib.antt =====
-- libcstable: a columnar file format for nested records, and the library that writes and reads it.
--
-- A table schema (src/cstable/TableSchema.cc) is flattened into columns, each with a repetition and
-- a definition level. The record shredder (src/cstable/RecordShredder.cc) splits a message into
-- entries of these columns, and the table writer (src/cstable/CSTableWriter.cc) puts them into a
-- file. In format v0.1 every column is one body of levels and data (src/cstable/columns/v1); in
-- format v0.2 it is a list of pages that a page manager allocates and an index names
-- (src/cstable/io, src/cstable/columns), and two metablock slots behind the magic bytes are to make
-- a commit atomic (src/cstable/cstable.cc).
--
-- Files:
--   Prelude: what all files share, among it the outcome `Result` of code that may throw, bytes in
--     memory, and 64-bit signed integers.
--   Stx: what the program calls in the vendored library deps/libstx, as records of operations with
--     their documented laws: Wire (byte codecs and SHA1, and std::sort), Packing (bit packing),
--     Numerics (doubles, texts). Stx.Sorting has what std::sort promises, and
--     Stx.Sample shows that the laws can hold.
--   Column: the interfaces cstable::ColumnWriter, which shredder and copies write to, and
--     cstable::ColumnReader, with its readDateTime.
--   V1: v1::ColumnWriter and v1::ColumnReader; a file below V1 for each column class (Leb128, Uint32,
--     Uint64, Text, Double, Boolean, BitPacked) with a function for each method. Entries, Steps,
--     Frame, RoundTrip and Sink have what the classes share.
--   Format: the constants and records of src/cstable/cstable.h; Checksum for writeMetaBlock and
--     readMetaBlock, Header for writeHeader and readHeader of v0.2, Open for readHeader of a whole
--     file and of v0.1, Order for the order of the names that it sorts by.
--   Pages: PageManager; Writer for UInt64PageWriter, Index for PageIndex.
--     Crash: a step relation of what stands in the metablock slots at every moment of
--     writeTransaction, with torn writes, crashes and restarts, over any number of transactions.
--   Classes: the seven column classes behind one type of writers and one of readers, with the two
--     openColumnV1, the virtual calls (Readers), the typed writes of a client (Typed), and the types
--     and counts of the writers (Counting).
--   V2: DefaultColumnWriter and UnsignedIntColumnWriter; V2.Reader for UnsignedIntColumnReader,
--     UInt64PageReader, PageIndexReader and openColumnV2 of the table reader.
--   Table: CSTableWriter with addRow, addRows and commitV2; Table.Create for createFile and the
--     constructor; Table.Bodies for commitV1; Table.Reader for CSTableReader; Table.EndToEnd for
--     both together.
--   Schema: TableSchema; Flat for flatColumns, Protobuf for fromProtobuf.
--   Shredder: addRecordFromProtobuf of RecordShredder; Shredder.Csv for addRecordsFromCSV.
--   Materializer: RecordMaterializer, over any source of columns. The file itself has the state of a
--     column and skipRecord of one column, Build has insertValue, insertNull and loadColumn, Columns
--     has nextRecord, skipRecord and createColumns. Builder stands for the messages it makes.
--   Examples: runs on concrete inputs.
--
-- How state is modelled: an object is a record, and a method a function that returns the new record.
-- A call that throws returns `err` with the kind of the exception; behaviour that C++ leaves
-- undefined is `undefined`. A file is its bytes and the log of the writes and syncs issued. Page
-- writers are shared by columns and index, so they stand in a store and are named by number. In a
-- schema the pointers of columns_ are slots, and one whose column was destroyed is `dangling`.
--
-- Numbers are natural numbers with the source's wrap-around written out. Loops are structural
-- recursion, on the list or the count that they run over. Only the loops of the materializer, which
-- run until a reader is at its end, take fuel: a round reads an entry, so one more than the entries
-- of the longest column is enough (Materializer/Ends.antt), and without fuel they give `none`.
-- Memory that the source reads before it is assigned is a parameter (`blank`) or `none`.
--
-- Not modelled: failing system calls and memory exhaustion; reopenFile of the table writer, which only
-- throws; the command line tool, the lock manager and the tests; deps/libstx itself.
pub mod Prelude
pub mod Stx
pub mod Column
pub mod V1
pub mod Format
pub mod Pages
pub mod V2
pub mod Table
pub mod Classes
pub mod Schema
pub mod Shredder
pub mod Materializer
pub mod Examples
