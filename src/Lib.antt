-- ===== src/Lib.antt =====
-- ZoneBuffer: a page buffer over a zoned device.
--
-- The program has three parts. `BufferManager` (src/zBuffer.cpp, include/zBuffer.h) keeps pages in
-- frames. A replacement policy, `ZALP` or `LRU` (src/zalp.cpp, include/zalp.h), tells it which frame
-- to use and which dirty frames to write. `ZNSController` (src/zController.cpp,
-- include/zController.h) keeps each page at an address of the device: it chooses an open zone,
-- appends the page at the write pointer, and keeps a table from page ids to addresses, a bitmap of
-- the pages in use and a counter for each zone. Threads recycle zones with few pages in use.
--
-- The files:
--   Base and its children: numbers, lists, integers, and `Result` for calls that can fail.
--   Params: include/parameter.h. Env: all that the program is given, which is Cuckoo, the map of
--     libcuckoo, and Device, the device behind libzbd with the machine's `double`.
--   StdList: `std::list` as a list of numbered nodes, where an iterator is a number that is not
--     used again. StdList.Index: a list with the map of its iterators.
--   Zalp: class `ZALP`, each method a function of the same name on the record of its four lists
--     and three maps. Zalp.View is the policy as four lists of frames, Zalp.Inv the invariant, and
--     Zalp.Moves, Zalp.Frames, Zalp.Evict and Zalp.Clean relate the methods to the view.
--   Lru: class `LRU`. Lru.Track: its map. Lru.Runs: sequences of calls.
--   Zns: the state of `ZNSController` and its small methods. Zns.Write: the choice of a zone and the
--     reads and writes. Zns.Gc: `get_gc_info`, `cd_detect`, `garbage_collection` and the rest of the
--     recycling. Zns.Valid: the bitmap and the counters. Zns.Mapping: the table and the bitmap.
--     Zns.Consistent: the invariant. Zns.Pages: the move that a write makes. Zns.Keeps and
--     Zns.Select: the choice of a zone. Zns.Bytes: the bytes of pages.
--     Zns.Store: the store that the controller promises. Zns.Create and Zns.Insert: the same for
--     `create_new_page`. Zns.Stored and Zns.Rewrite: what a write does to that store.
--     Zns.Spares: the zones that can still be opened. Zns.Move, Zns.Vacate, Zns.Reset, Zns.Recycle
--     and Zns.Collect: `garbage_collection`, from one page to the whole. Zns.Restruct:
--     `cold_data_restruct`. Zns.Cluster: `write_cluster`, of which Zns.Cluster.Step and
--     Zns.Cluster.Place are the loop over the pages, Zns.Cluster.Batches is the loop that writes,
--     Zns.Cluster.Spec what the whole should do, and Zns.Cluster.Kept, Zns.Cluster.Run and
--     Zns.Cluster.Spend that it does.
--     Zns.Close: the other calls of libzbd, and `close_file`.
--     Zns.Writers: calls of `write_page` and moves of a collection by several threads, as steps.
--     One thread of a collection moves one page: it reads it, at a position of a full zone that is
--     marked for the collection, and writes it anew. A collection of n pages is n such threads, each
--     after the one before; its start and its end, with the figures, the flags and the reset, and
--     the moves of `cold_data_restruct` are no steps.
--     Zns.Writers.Forward, Zns.Writers.Conds and Zns.Writers.Unfilled: what becomes of the
--     conditions of the zones.
--     Zns.Writers.Waits, Zns.Writers.Alone and Zns.Writers.Lost: how long a thread takes, a thread
--     that is alone, and a write during a collection.
--   Buffer: the state of `BufferManager`. Buffer.Access: `fix_page`, `fix_new_page`, `read_page`
--     and `write_page` (here `read` and `write`) and `clean_buffer`. Buffer.Evict: `evict_victim`
--     and `select_victim`. Buffer.Ach: `evict_victim_ach`. Buffer.Levels: its levels.
--     Buffer.Largest and Buffer.Choose: the choice of a cluster and of its victims. Buffer.Coherent and Buffer.Claim: the tables of
--     the buffer against the lists of the policy. Buffer.Write: a write and a read of a page.
--     Buffer.Flush: what the evictions store. Buffer.Rounds, Buffer.Rounds.Frames and
--     Buffer.Rounds.Victims: the three rounds of `evict_victim_ach`.
--   Bench: the frames of src/common.cpp, the instructions of link.h and the loops of main.cpp.
--     Bench.Parse: the reading of a file of instructions in link.h. Bench.Parse.Numbers,
--     Bench.Parse.Words and Bench.Parse.Lines: numbers, first words and whole files.
--     Bench.Bcb: class `BCB` of src/common.cpp and include/common.h.
--   Dlist: class `List` of src/datastructure.cpp, with include/datastructure.h, in a memory of nodes.
--     Dlist.Cells and Dlist.Seg: the cells of a list and the segments of the memory that hold them.
--     Dlist.Inv: the invariant. Dlist.Push, Dlist.Erase, Dlist.Read and Dlist.Destroy: the methods.
--     Dlist.Runs: sequences of calls.
--   HashTable: class `HashTable` of the same file. HashTable.Buckets and HashTable.Chains: a chain.
--     HashTable.Laws: the table. HashTable.Runs: sequences of calls, and bad keys and values.
--   Tests: a small machine, and the theorems at concrete inputs.
--
-- Conventions. A method is a function from a state to a `Result`, whose faults are a failed
-- assertion, the exception of a lookup, and undefined behaviour such as a stale iterator or an index
-- out of range. Arrays are functions. The `unsigned int` counters wrap at 2 ^ 32; addresses
-- and page ids are natural numbers, since the program uses no negative ones; only the id that is
-- parsed from a line is an integer. The statements range over all constants of the build.
--
-- A call of the device can fail, and then the assertion on what it returns fails, for a read as for a
-- write. Statements that need the device to answer say so: `IsReliable` is for its writes, openings
-- and finishings, `IsReadable` for its reads.
--
-- A write whose zone has been closed between the choice and the lock calls itself again. Here it
-- takes the number of calls that are left. Outside of Zns.Writers one operation is one step, so that
-- the chosen zone is open and one call is enough; the buffer passes `tries`, which is 1. In
-- Zns.Writers the choice is one step, and what is done under the lock of the zone another; a call
-- that begins again is a step of its own, and no fuel is needed.
--
-- `L_distance` and the destructor of `List` take one more round than addresses have been given out,
-- which is more than a valid list has nodes. No other part uses the classes of datastructure.cpp.
-- There `free` of a node that `new` has made, which is undefined, is modelled as a release of the node.
--
-- Not modelled: libcuckoo, a library that the repository holds a copy of, and libzbd, which are the
-- parameters Cuckoo and Device; interleavings but for those of Zns.Writers, where no zone is
-- reset and no two threads hold the locks of two zones at once (elsewhere a thread that is started
-- is a `Job`, run as one step); prints, the log and `malloc`; `open_file`, whose result is an
-- argument of `init`; the lists of zones of `select_write_zone_ach`, whose body is undefined on every
-- path.
-- Fields that the source leaves uninitialised start at zero.
pub mod Base
pub mod Cuckoo
pub mod StdList
pub mod Params
pub mod Zalp
pub mod Device
pub mod Env
pub mod Zns
pub mod Lru
pub mod Buffer
pub mod Bench
pub mod Dlist
pub mod HashTable
pub mod Tests
