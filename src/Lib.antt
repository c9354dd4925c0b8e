-- ===== src/Lib.antt =====
-- Models and proofs for the protocol crates of ytsaurus-rs, a client of YTsaurus in Rust.
--
-- The parts, and the files that model them:
--
-- - Yson/Varint: the integers of binary YSON (crates/ytsaurus-yson/src/varint.rs). A reader returns
--   the value and the count of its bytes; a writer extends the buffer that it is given.
-- - Yson/Lexer: the tokens of both forms of YSON (crates/ytsaurus-yson/src/lexer.rs and node.rs). A
--   cursor is the input behind the position. Yson/Lexer/Ignored is `skip_ignored`, Quoted and Text are
--   the tokens of text YSON, Tokens is the iterator over either form.
-- - Yson/Scan: where the first value of a buffer ends (crates/ytsaurus-yson/src/scan.rs). Depth is
--   counted down from the limit.
-- - Yson/Node: the dynamic value (crates/ytsaurus-yson/src/node.rs).
-- - Job/Reader, Job/Reader/Control and Job/Groups: the input of a job
--   (crates/ytsaurus-job/src/reader.rs): the buffer and the search for records, the control records
--   and what is pending, the events and the groups. Job/Stream says what the stream is apart from how
--   it is buffered.
-- - Job/Writer: the output tables of a job (crates/ytsaurus-job/src/writer.rs).
-- - Job/Skiff and Job/Skiff/Control: the layouts of the system columns of Skiff jobs, and the reader of
--   their rows over the decoder of Skiff/Wire/Rows (crates/ytsaurus-job/src/skiff.rs).
-- - Rpc/Crc64: the checksum of the bus (crates/ytsaurus-rpc/src/crc64.rs): the table, the register
--   that takes bytes piece by piece, and the checksum of a buffer.
-- - Rpc/Guid: the binary forms of a GUID, and its textual form in Rpc/Guid/Text
--   (crates/ytsaurus-rpc/src/guid.rs).
-- - Rpc/Packet: packets of the bus (crates/ytsaurus-rpc/src/bus/packet.rs), over the checksum.
--   `encode` answers its result and the buffer behind it. Rpc/Packet/Decode is the decoder: each call
--   of `decode_with` takes the bytes received so far and answers a packet, an error or the wish for
--   more bytes, with what is left of the buffer.
-- - Rpc/Wire: rowsets as attachments of the RPC proxy (crates/ytsaurus-rpc/src/wire.rs): the limits,
--   the encoder, and in Rpc/Wire/Reader the decoder.
-- - Rpc/Connection: the calls of a connection (crates/ytsaurus-rpc/src/connection.rs) as steps: each
--   stretch of `invoke_raw` between two awaits, the drop of its guard, and the loops of the writer and
--   the reader. A call may be dropped or meet its deadline at each await.
-- - Skiff/Schema: wire types, schemas and their validation (crates/ytsaurus-skiff/src/schema.rs).
-- - Skiff/Wire: the codec of the values that a schema describes (crates/ytsaurus-skiff/src/wire.rs):
--   the encoder, the decoder with the budget of its row in Skiff/Wire/Decode, and in Skiff/Wire/Skip
--   the walk that builds no value.
-- - Skiff/Format and Skiff/Wire/Rows: formats, and the encoder and decoder of rows, which frame a value
--   by the index of its table (schema.rs and wire.rs of the same crate).
-- - Client/Error and Client/Retry: the errors of the HTTP client, which of them are worth another
--   attempt, the waits and the retry loop (crates/ytsaurus-client/src/error.rs and retry.rs).
-- - Client/Batch: batches of commands (crates/ytsaurus-client/src/batch.rs): the parts and how the whole
--   may be repeated, the document of a request in Client/Batch/Requests, the answer to one in
--   Client/Batch/Results, and in Client/Batch/Execute the loop over the requests
--   (`Client::execute_batch_with` of lib.rs). Client/YsonBuild are the documents (yson_build.rs).
-- - Client/Path: table paths, ranges of rows and keys, and in Client/Path/Refusals the paths that a read
--   or a write refuses (crates/ytsaurus-client/src/path.rs).
--
-- Base holds what the parts share: tests on numbers, byte strings and their little-endian words, the
-- bind of `Result`, and lemmas on bits.
--
-- Conventions. A byte is a number, and where its bound matters a hypothesis says it; an unsigned
-- integer is a number, a signed one and a float are their bit patterns. Shifts, sums and products that
-- wrap in the source are taken modulo the power of two there. Loops are structural recursion, but for
-- these: `write_uvarint_loop` recurses on accessibility; the loop of repeated variants runs on fuel,
-- one round more than the input has bytes, since each round takes a byte; the loops of the scanner run
-- on fuel likewise; the retry loop runs on fuel, one round more than the attempts allowed, since each
-- round is an attempt; and the loops of the job reader take their fuel from the caller: enough is one
-- more than the bytes to come, the interruptions to come and the end of the input together, since each
-- read brings a byte, is interrupted or sees the end, and each record has a byte. The chunks of a batch are
-- cut on fuel, as many as the batch has parts; the digits of a word of a GUID are eight at most. In the
-- bounds of row ranges an `i64` is its distance from the least one, which keeps the order.
--
-- Parameters stand for what is not in the repository: whether the allocator can reserve the memory of
-- a rowset, the size of a Rust value, how a JSON document reads, how the standard library parses a
-- float and renders a token, the request that is repeated, and the input and the sinks of a job, which
-- the theorems take under the contracts of `std::io::Read` and `std::io::Write`. The codec of whole
-- YSON documents, which serde drives, is a parameter of the job reader and of batches, as is the
-- transport of batches; nothing is assumed of them. Of the comparison of floats in keys it is assumed
-- that it turns around with its operands.
--
-- Not modelled: the sockets and messages of the RPC client, the HTTP commands, the serde glue of
-- YSON, the writer of Skiff jobs, transactions, and the builders of operation specs. Errors of the
-- operating system are texts or left out. The theorems on the scanner and the job reader are about
-- binary YSON, the form that jobs use; text YSON is modelled, and its tests show where a scan of it
-- depends on where the buffer ends.
pub mod Base
pub mod Yson
pub mod Rpc
pub mod Skiff
pub mod Client
pub mod Job
