-- ===== src/Example.antt =====
-- examples/parse_block.rs: the program that prints a summary of a block.
pub mod Program
pub mod Load
pub mod Listing
pub mod Chosen
pub mod Outputs
pub mod Printed
pub mod Listed
pub mod Safe
pub mod Synthetic
pub mod Encode
pub mod Closing
pub mod Summary
pub mod Totals
pub mod Tally
pub mod Lines
pub mod Texts
pub mod Report
pub mod Loop
pub mod Opts
pub mod Args
pub mod Dat
