-- ===== src/Lib.antt =====
-- dg-cat copies datagrams from a source (UDP, a file or pipe, or a random generator) to a
-- destination (UDP, or a file or pipe) through a ring of bytes. A source's thread commits batches of
-- datagrams to the ring, each behind a 4-byte length in network byte order; a destination's thread
-- takes runs of bytes out of it. In a file the same frames stand one after the other.
--
-- Parts, with the code they model (paths from the repository's root):
-- - Wire: include/dg_cat/util.hpp, the length prefix; Wire/Splits is the framing of a file as a
--   relation between bytes and datagrams.
-- - Batch, Queue: include/dg_cat/buffer_queue.hpp. `Queue.BufferQueue` has the class's fields,
--   `Queue/Window.contents` is what they stand for: the list of bytes held, oldest first. Each method
--   is a function of its name; the overloads with a time limit end in `_until`. A method runs under
--   the mutex, so it is one function; where it waits, it returns the state at the wait, and
--   `reserve_wake`, `start_wake`, `commit_wake` run it on from a later state. `notify_all` is counted.
--   Queue/Fifo is a bounded list of bytes with the same calls, the abstract view of the ring.
-- - Stats: include/dg_cat/stats.hpp: the records that the code above fills, Stats/Rates the rates and
--   the conversions of times to doubles, Stats/Text the printed lines, Stats/Locks the mutexes that
--   `LockableStats` takes, with threads that take them in any order.
-- - FileSource: include/dg_cat/file_datagram_source.hpp, the loop over a stream of bytes and a
--   schedule of what each `read` does.
-- - UdpSource, RandomSource: include/dg_cat/udp_datagram_source.hpp and random_datagram_source.hpp,
--   the loops over schedules of `recvmmsg` results and of random draws; RandomSource/Args is the
--   constructor's parser, RandomSource/Made the constructor.
-- - Copier: the threads of `DatagramCopier::start` in include/dg_cat/datagram_copier.hpp with
--   `FileDatagramDestination::copy_from_buffer_queue` of include/dg_cat/file_datagram_destination.hpp:
--   a step relation in which the two threads take turns in any order and `force_eof` comes at any
--   time. In Copier/Notified a thread that waits goes on only behind a `notify_all` that comes after
--   it began to wait. The source is a list of batches; Copier/FileToFile, Copier/RandomToFile and
--   Copier/UdpToFile take the batches of FileSource, RandomSource and UdpSource for it.
-- - Threads: the rest of include/dg_cat/datagram_copier.hpp: the signal thread, `wait` and the
--   exception that the threads record, as a step relation; here the endpoints end at any time.
-- - UdpDestination: include/dg_cat/udp_datagram_destination.hpp, a round of the loop, the loop over the
--   results of `sendmsg`, and in Pace its pauses.
-- - UdpCopier: the same threads of include/dg_cat/datagram_copier.hpp as in Copier, with the loop of
--   UdpDestination for the destination; a datagram that `sendmsg` refuses is counted and not among
--   those sent. UdpCopier/Notified is as in Copier; UdpCopier/Relays takes the batches of FileSource and UdpSource
--   for the source, UdpCopier/Forwards those that UdpSource receives into its buffers;
--   UdpCopier/Replays is a copy to a file and a later one from it.
-- - AddrInfo, Sockets: include/dg_cat/addrinfo.hpp (AddrInfo/Owners the owner of a result,
--   AddrInfo/Shared the lists and entries that share it), and the loops of the UDP constructors that look
--   for an address to bind or to connect.
-- - Handle: `close` and `force_eof` of sources and destinations, and include/dg_cat/object_closer.hpp.
-- - Paths: which class a path makes, and what it opens or binds to (src/datagram_source.cpp,
--   src/datagram_destination.cpp and the constructors).
-- - Timespec, Config, CommandLine: include/dg_cat/timespec_math.hpp, config.hpp, and the part of
--   src/main.cpp that makes a configuration of the options.
-- - Common: shared operators, lists, memory as lists of bytes, signed integers. Tests: a
--   little-endian machine and runs at concrete inputs.
--
-- Numbers: `size_t` is a native number with its wrap at 2^64 written out (`add_size`, `sub_size`).
-- A ring is valid below 2^63 bytes, where no sum of the code wraps. `long` in times is an integer.
--
-- Parameters: `Wire.Endian` holds the byte-order functions and the layout of a `uint32_t`, with their
-- documented behaviour; `UdpSource.Buffers.Recvmmsg` what `recvmmsg` writes; `Stats.Rates.Doubles` the
-- operations of doubles, `Stats.Text.Printer` the printing of numbers; `std::stoul`, `sysconf`, clocks,
-- random numbers and the results of system calls are arguments.
--
-- Fuel: `FileSource.parse` is given one more than the bytes at hand, and each round takes at least
-- the four bytes of a prefix; `parse_args` one more than the length of its string, and each round
-- takes a character; a range loop over addresses one more than there are, and `updateResults` as
-- much as there are nodes. Schedules are finite lists; a run that uses its schedule up says so.
--
-- Not modelled: the option parser, logging and stack traces (src/main.cpp, src/stacktrace.cpp), which
-- only call libraries; `getaddrinfo` and `getnameinfo`; the system calls that open files.
pub mod Common
pub mod Wire
pub mod Batch
pub mod Stats
pub mod Queue
pub mod Timespec
pub mod FileSource
pub mod Copier
pub mod UdpCopier
pub mod Threads
pub mod UdpDestination
pub mod RandomSource
pub mod UdpSource
pub mod Handle
pub mod AddrInfo
pub mod Sockets
pub mod Config
pub mod CommandLine
pub mod Paths
mod Tests
