-- ===== src/Lib.antt =====
-- tokio-netem and trixter: network faults as adapters of Tokio I/O, and the proxy that uses them.
--
-- The crate tokio-netem wraps an object with `AsyncRead` and `AsyncWrite` in adapters that delay,
-- throttle, slice, corrupt, terminate or shut down its traffic, or count it; each adapter is again such
-- an object, so they stack. Two more inject messages of a channel into a stream. A knob
-- (`DynamicRate`, `DynamicSize`, `DynamicDuration`, `DynamicProbability`) is an atomic
-- cell that another task may set while an adapter reads it. The proxy trixter stacks them over both
-- sockets of a connection, and its HTTP API sets the knobs of a connection or shuts it down.
--
-- Files and code (paths from the repository's root):
--   Prelude, Prelude/*   names of the libraries and lemmas on lists and Boolean tests
--   Tokio, Tokio/*       interfaces of what is not in this repository: Poll and io::Result, the I/O
--                        traits, timers, random numbers, f64, oneshot and mpsc channels and DashMap,
--                        with the documented behaviour that proofs rely on as records of laws
--   Io, Io/*             tokio-netem/src/io.rs: ResetLinger, and the calls that a wrapper passes on
--   Builders             tokio-netem/src/io.rs: NetEmReadExt and NetEmWriteExt
--   Slicer, Slicer/*     tokio-netem/src/slicer.rs
--   Throttler/*          tokio-netem/src/throttler.rs: Knob (Rate), Bucket (LeakyBucket), Writer
--                        (ThrottledWriter), Reader (ThrottledReader)
--   Delayer/*            tokio-netem/src/delayer.rs: Knob (Duration), Delay, Writer (DelayedWriter),
--                        Reader (DelayedReader)
--   Probability/*        tokio-netem/src/probability.rs
--   Terminator/*         tokio-netem/src/terminator.rs
--   Shutdowner/*         tokio-netem/src/shutdowner.rs
--   Drain, Drain/*       the loop of tokio-netem/src/corrupter.rs and tokio-netem/src/injector.rs that
--                        writes a queued buffer before the caller's, and what it makes of a stream
--   Corrupter/*          tokio-netem/src/corrupter.rs
--   Injector/*           tokio-netem/src/injector.rs: Reader (ReadInjector), Writer (WriteInjector)
--   RateCounting/*       tokio-netem/src/utils/rate_counting_reader.rs
--   Proxy/*              trixter/src/main.rs: Settings (Config), Api (the connection table, the requests
--                        to it and their routes), Stack (the writers over a socket, by the builders of
--                        tokio-netem/src/io.rs), Task (handle_connection), Finish (its end) and
--                        Main (main: the check, the listener and the accept loop)
--   Fixtures, Fixtures/* concrete instances of the interfaces, for the examples in the Tests modules
--
-- How the code is read. A method on `Pin<&mut Self>` is a function of the object and of the task's
-- context `Cx` that returns its result and both as it leaves them. `Cx` also carries the clock:
-- each `Instant::now()` is a reading that may be later than the one before, so a theorem holds for
-- every course of time. `ready!` and `?` are `ready_ok`; a panic and a loop that runs out of fuel
-- are results of their own. Bytes, sizes and nanoseconds are natural numbers; `u64` and `u128`
-- results that may wrap keep their modulus, `saturating_sub` is the subtraction that stops at 0.
-- Instants and sums of `usize` do not overflow in the model. A knob is an interface with the
-- methods of its trait, each a load of its own.
--
-- Loops. The `for` over slices recurses on the list. The loop of `poll_acquire` has 11 rounds of
-- fuel: ten wake-up times are worth a token at every rate, so it has returned before, unless
-- the product of clock and rate overflows. The loops of
-- `poll_with_write_delay` and of the delayed `poll_read` take two rounds, since the second finds the
-- sleep armed. The retry loop of the corrupter takes two rounds, and its inner `while` as many as there
-- are bytes to write. The loop of the write injector has 129 rounds: each but the last receives a
-- message, and tokio's cooperative scheduling lets a task receive 128 before it must yield.
--
-- The task of a connection is one function of its sockets, its configuration and the table; the copy
-- between the two streams is an interface that returns the streams and the table as it and the other
-- tasks leave them. A knob that the API sets is a value there, and is what the adapters read next.
-- `Proxy.Main.Processes` takes the tasks apart: its steps are a task that enters its connection, a
-- request, and a task that cleans up, in any interleaving. `Proxy.Task.Limit` does so for one stream:
-- its steps are calls of the stream, and new values in its knobs. `Proxy.Task.Whole`,
-- `Proxy.Task.Client` and `Proxy.Task.Reads` do so with the bytes that the writes report or the reads
-- hand over, and the noise.
--
-- Not modelled: `copy_bidirectional` and `timeout` of tokio, the HTTP server and the task that runs it,
-- the parsing of the command line and of JSON, logging, the formatting of errors, and the memory order
-- of the atomics.
pub mod Builders
pub mod Corrupter
pub mod Delayer
pub mod Drain
pub mod Fixtures
pub mod Injector
pub mod Io
pub mod Prelude
pub mod Probability
pub mod Proxy
pub mod RateCounting
pub mod Shutdowner
pub mod Slicer
pub mod Terminator
pub mod Throttler
pub mod Tokio
