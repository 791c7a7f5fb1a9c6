-- ===== src/Lib.antt =====
-- A model of four crates of tlsn-utils in a cubical type theory: rangeset, sets of values as sorted
-- lists of half-open ranges; mux, many streams over one connection; futures-limit, a limit on the rate
-- of a writer and a delay of a reader; and futures-plex, pipes in memory.
--
-- Base: numbers, lists, comparison tests that return Booleans, and `Run`, the result of a loop on fuel.
-- The type `T: Copy + Ord` of a range is the natural numbers. A number of the machine keeps its bound:
-- `u32_max`, and `usize_max` for 64 bits; a panic is `none`, and saturating operations are written out.
--
-- Rangeset (crate rangeset)
--   Range, and the modules below it: rangeset/src/range.rs. One range, `Once`, and the iterators over
--     the union, the difference and the intersection of two ranges.
--   Ranges: the values that a list of ranges covers, and `Canonical`, the invariant that
--     rangeset/src/set.rs states at the field of `RangeSet`: sorted, non-adjacent, non-intersecting and
--     non-empty ranges.
--   Set: rangeset/src/set.rs. `RangeSet` and its methods; a method on `&mut self` returns the new set.
--     Set.Iter has its two iterators. The other modules below it are named for what they prove.
--   Iter: rangeset/src/iter.rs. `RangeIterator` is the trait, as a record of its two methods, and the
--     combinators are functions of two such records. A `loop` of the source is a function `round`, for
--     one pass of its body, which `run_loop` repeats on fuel. Iter.Slices fills the interface with the
--     iterators of a set.
--
-- Mux (crate mux/mux)
--   Config: mux/mux/src/lib.rs, the configuration and its builder.
--   Header, Frame: mux/mux/src/frame/header.rs and mux/mux/src/frame.rs.
--   Frame.Reader: mux/mux/src/frame/io.rs, the reading half. The transport is a parameter: its
--     `poll_read`, and the bytes that are still to come. `IsAnswer` says what it may answer: no more
--     bytes than asked for, the next ones, and none only at the end.
--   Frame.Writer: mux/mux/src/frame/io.rs, the writing half. The transport is a parameter: its
--     `poll_write`, and the bytes it has taken. `IsTaken` says what it may answer: how many of the bytes
--     given it has taken, from their start.
--   Flow: mux/mux/src/connection/stream/flow_control.rs. `Pooled` is the state that the streams of a
--     connection share: the last round-trip time and the sum of the windows. The clock is an argument.
--   Chunks: mux/mux/src/chunks.rs and the loop of `poll_read` in mux/mux/src/connection/stream.rs.
--   Stream: mux/mux/src/connection/stream.rs, the state of a stream and `poll_write` from its call of
--     `sender.poll_ready` on; Connection.Write has all of `poll_write`. The channel to the
--     connection is a parameter.
--   Rtt: mux/mux/src/connection/rtt.rs. The clock and the nonce are arguments. Rtt.Trace runs any sequence
--     of tests for a ping and of pongs.
--   Connection: mux/mux/src/connection/active.rs. Connection.Registry is the registry of streams; the
--     state that a stream shares stands in a store of cells, which the registry's maps and the handles
--     refer to by address, and with it `poll_activate` of mux/mux/src/connection/stream.rs.
--     Connection.Active has the handlers of incoming frames, Connection.Driver one round of the loop of
--     `poll` and the end of the connection. What the socket, the channels of the streams and the clock
--     answer are inputs of a round. Connection.System is the step relation of a whole connection: rounds,
--     operations of handles, and any change of a cell by a stream's task. Connection.Shutdown is the
--     future of mux/mux/src/connection/closing.rs; the answers of the channels and of the socket are the
--     inputs of a poll, and each loop of it goes through a list of answers.
--
-- Limit (crate futures-limit)
--   Bucket, Rate: futures-limit/src/bucket.rs and futures-limit/src/rate.rs. The writer below is a
--     parameter, its `poll_write`; the clock and what the timer answers are arguments.
--   Delay: futures-limit/src/delay.rs, the queue of delayed bytes and the future that feeds it.
--
-- Plex (crate futures-plex)
--   Stream: futures-plex/src/lib.rs, `SimplexStream`, a ring buffer. Stream.Ring has the list of bytes
--     that it stands for.
--   Close: futures-plex/src/lib.rs, the steps of a close without the lock and of a reader that parks.
--
-- Fuel. A loop over the ranges of two sets has fuel past the number of ranges that are left, since each
-- round passes one (difference: twice that, as a range may be cut). The loop of `poll_read` has two
-- rounds for each chunk, one to copy it and one to drop it. The frame reader has fuel past the bytes
-- that a header and the largest body have, and the changes of its stage; the writer, fuel past the bytes
-- that it has still to write.
--
-- Not modelled: rangeset's union and symmetric difference of iterators, its value iterator and set
-- covers; the states of a mux connection's handle, the cleanup after an error, the closing of channels; the locks
-- of futures-limit's delay and of futures-plex's halves, and its duplex pair; the crates serio, spansy,
-- web-spawn, websocket-relay and rand06-compat, most of which are adapters of other libraries. Wakers
-- that a task registers are numbers where the state holds them, and where a task is woken its number is
-- recorded; logging is left out.
pub mod Base
pub mod Rangeset
pub mod Mux
pub mod Limit
pub mod Plex
