-- ===== src/Lib.antt =====
-- blockchain-zc-parser: a zero-copy parser of Bitcoin blocks, transactions, scripts and block
-- files.
--
-- The parts of the program and their files:
--
--   src/error.rs        Error: the error type; a result has a third value, `fault`, for a panic or
--                       an out-of-bounds unchecked access, so that their absence can be stated.
--                       Error/Display: `Display`, for which Error/Text has a reader;
--                       Error/Truthful: the errors whose numbers are those of a refusal.
--   src/cursor.rs       Cursor and Cursor/: the methods by their names. Cursor/Format says what it
--                       is that a parser reads a format, Cursor/Rules and Cursor/Checks carry
--                       that through `?` and the checks, Cursor/Words, Reads and VarInt give the
--                       formats of the reads, Cursor/Accepted states them as equivalences, and
--                       Cursor/Triples gives what the reads keep and how they fail.
--   src/hash.rs         Hash; Hash/Text: `Display` and `Debug`. The digest of the crate sha2 is a
--                       parameter.
--   src/script.rs       Script: `Script` and its parser; Script/Classify: `ScriptType::classify`,
--                       whose slice patterns are treated in Script/Patterns and whose templates
--                       in Script/Templates; Script/Instructions: the iterator over instructions,
--                       which Script/Opcodes relates to the parser of Script/Reader,
--                       Script/Encoding gives the format of, Script/Iterate treats call by call,
--                       Script/Collect and Walk in a loop over a script, and Script/Refine
--                       against an abstract view.
--   src/transaction.rs  Transaction: `parse_out_point`, `parse_input`, `parse_output` and
--                       `parse_witness` are the `parse` of `OutPoint`, `TxInput`, `TxOutput` and
--                       `Witness`; `parse_with` is `TransactionParser::parse_with`.
--                       Transaction/Wire, Witnesses, Skip, Whole, Head, ReadLoop, Tail, Steps and
--                       Parse treat the wire formats, Stream, StreamRules and Loops the rules for
--                       parsers that call closures, Invariant what the closures keep of their
--                       state, Accepted the results, Size the least sizes, Coinbase
--                       `is_coinbase`, Items the iterator over a witness's items, Events and
--                       Replay the recorded calls of the closures, Triples what is kept on every branch,
--                       Serialise and Fits the serialised form and the transactions that have
--                       one, RoundTrip the parser on it, and Debug the struct `Transaction`.
--   src/block.rs        Block: `parse_header`, `new_iter`, `next_tx`, `skip_remaining` and
--                       `finish_strict`; Block/Strict: `consume_all_strict`; Block/File:
--                       `BlkFileIter`. Block/Fields, Header and Offsets treat the header, Next,
--                       Wrapped, Rounds, StrictRounds and Consume the loop over the transactions,
--                       FileNext and FileLoop a file's blocks, Skip `skip_remaining`, Accepted
--                       the single calls, Reach any sequence of calls of `next_tx`, Drained the
--                       calls up to its end, Replay its recorded calls of the closures, Triples,
--                       FileTriples, StrictTriples and Invariant what is kept on every branch,
--                       and RoundTrip and FileRoundTrip serialised blocks and files.
--   examples/parse_block.rs
--                       Example: Example/Opts is `parse_opts`, Example/Dat `try_first_dat_entry`,
--                       Example/Synthetic the block that is built in and `encode_varint`,
--                       Example/Loop the `while` loop over `next_tx`, Example/Lines its output,
--                       Example/Texts the text of it, and Example/Report the closures and `main`,
--                       whose part from the block's bytes on is `summarise`. Listing says from
--                       a block's contents and the options what is to be printed, and Chosen,
--                       Outputs, Printed and Listed treat the lines; Tally, Totals, Closing and Summary the
--                       counters and the result; Args the command line, Encode the encoding, Load
--                       the choice of the block, and Program and Safe the whole.
--   #[cfg(test)] and tests/integration_tests.rs
--                       UnitTests: the tests as Boolean functions, with runs on both targets;
--                       Reads, Scripts, Transactions and Blocks are those of the source files,
--                       Integration and Messages those of tests/.
--   verification/Base, Action, Target, Bytes and Text hold what the parts share: library names and
--   tests on numbers, methods with `&mut self` as functions of the state (Action/Triple: invariants
--   of such methods, their values and errors), the width of `usize`, bytes, and texts as lists of
--   character codes.
--   verification/Tests holds runs on concrete inputs.
--
-- How the parts interact: every parser is a sequence of the cursor's reads. A slice is the list of
-- its bytes, a cursor that list and an offset; `&mut self` is a state that is passed on, and an
-- error keeps the state reached. The closures of `parse_with`, `next_tx` and `consume_all_strict`
-- are functions of a state of any type, which is passed along with the cursor. `next_tx` runs
-- `parse_with` on the unread slice and skips what it consumed; `consume_all_strict` runs `next_tx`
-- with closures that wrap the user's.
--
-- Bounds and fuel: `usize` has 32 or 64 bits, and `checked_add` and the conversion from `u64` are
-- written out for both. A valid cursor holds bytes, no more than `usize` can count, and an offset
-- that lies among them. `while_unconsumed` has a round for each transaction not yet consumed, which
-- is enough because a round consumes one or ends the loop; the loop over a file's blocks has one
-- round for each byte and one more, and an entry is never empty; `while_next`, the loop of the
-- example program, has one round for each transaction not yet consumed and one for the last test;
-- `collect`, the loop over a script's instructions, has one call for each byte and one more, since
-- an instruction takes a byte at least. In each, running out of fuel would be a `fault`.
--
-- The example program: a printed line is the record of its values, and a run is its result and the
-- lines in their order, from which `stdout` and `stderr` give the two outputs. `std::fs::read`,
-- `str::parse::<usize>` and the text of a total in BTC, a float, are parameters.
--
-- Not modelled: addresses, so that of zero copy there is only that a returned slice equals a part of
-- the input, and the tests that compare pointers are left out. The benchmarks only call the library,
-- and src/lib.rs only passes names on.
pub mod Text
pub mod Base
pub mod Error
pub mod Action
pub mod Target
pub mod Bytes
pub mod Cursor
pub mod Hash
pub mod Script
pub mod Transaction
pub mod UnitTests
pub mod Block
pub mod Example
mod Tests
