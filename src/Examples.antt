-- ===== src/Examples.antt =====
-- Runs of the model on concrete inputs, with the codecs of Stx.Sample.
pub mod Csv
pub mod Columns
pub mod Files
pub mod Tables
pub mod Bodies
pub mod EndToEnd
pub mod Crashes
pub mod Records
