-- ===== src/Lib.antt =====
-- A model of the engine core of packaged_task, and its theorems.
--
-- The program is a small game engine in C++. A `GameObjectManager` owns components and game objects of
-- classes that a registry knows by number; it writes them to a byte stream and reads them back, and
-- links the pointers between them. A module is a singleton with a startup and a shutdown. An event
-- system hands the delegates of an event to a thread pool. A file system reads and writes plain files
-- and zip archives. A connection queues the packets of a socket. A log writes to a file, the console or
-- both.
--
-- Files and what they model:
--
--   Base and below: lists, maps as association lists, bytes in little-endian order, bit masks, and what
--     streams print of numbers and `stoul` reads.
--   MemoryStream: src/core/memory_stream.h, src/core/memory_stream.cpp. A stream is a record of its
--     bytes, head and capacity; a read returns the value and the stream, a range error, or a fault,
--     which is an access outside the array. MemoryStream/Moves: the moves and `swap`.
--   Rtti: the registry of src/core/object.cpp (`RegisterClass`, `ClassIDToRTTI`,
--     `IsDerivedFromClassID`, `StringToClassID`, `ClassIDToString`) and src/core/classids.h.
--   Objects/State, Handles: src/core/object.h, src/core/objhandle.h. Objects and handles stand behind
--     addresses in a `World`, which also has the members of the manager. An operation goes from a
--     world to an outcome: a value and a world, an exception, a failed assertion, a fault, or still
--     running.
--   Objects/Manager: src/core/gameobjectmanager.cpp, but for serialization. Manager/Counts, Nullify,
--     Owned and Destroy are about its destructor; Manager/Sound and below about who owns which
--     handles, Sound/Uses the steps of clients and Sound/Reached what holds wherever they lead.
--   Objects/Messages, Members, Components: src/core/cmpmsgs.cpp, `addComponent`, `sendMessage` and the
--     queries of src/core/gameobject.cpp and src/core/component.cpp. Components/Receivers: who gets a
--     message.
--   Objects/Dump: `dump` of src/core/gameobject.cpp, src/core/component.cpp and
--     src/core/gameobjectmanager.cpp, and `onAddMessage`; Dump/Shown compares it with the records.
--   Objects/Write, Parse, Deserialize, Link: `write`, `read` and `link` of src/core/gameobject.cpp and
--     src/core/component.cpp, `serialize` and `deserialize` of src/core/gameobjectmanager.cpp.
--   Objects/Stored, RoundTrip, Loading: the records of a stream, and what reading them does to a
--     world. Objects/Linking: what linking does then, from one `shared_ptr` (Shared) and one link (Step)
--     to a game object (Links) and a manager (Entries, Transfer).
--   Lifecycle: src/core/module.h. ThreadPool: src/core/threadpool.h, as steps of clients, workers
--     and the destructor. Event: src/core/event.h.
--   Fs/DosTime, ZipFormat, Stream, Archive, Files: src/fs/zip.h, and `GetDosTime`, `createZIP`,
--     `addZippedDir`, `isExist`, the search of `getFile`, and `writeFile` of src/fs/file_system.cpp.
--     Archive/Layout has the pieces of the archive, Archive/Format its bytes field by field;
--     Files/Listing and Files/Opening read such an archive with the code of `addZippedDir`, and
--     Files/Entered says what is listed.
--   Fs/Extend: `addFileToZIP` of src/fs/file_system.cpp, on the bytes of an archive; Extend/Names and
--     Extend/Appended run it on what `createZIP` has written.
--   Fs/Memory: src/fs/file.h, src/fs/file.cpp. Fs/Load: the constructor of `FileSystem`, `getFile` with
--     `loadZipFile` and `loadPermanentFile`, and `writeFile`, over a host that opens files; Load/Member
--     and Load/Archived load from an archive, Load/Plain loads and writes plain files.
--   Log: src/log/log.cpp over an interface of boost.log's core; Log/Sinks has whose the sinks are,
--     Log/Reach who gets a message, Log/Names the names of the severities, Log/Printf the two `cstr_log`.
--   Core: src/core/core.h, src/core/core.cpp, over a configuration and a platform.
--   Network: the queue of src/network/connection.cpp. Network/Sockets: src/network/socketaddress.h,
--     src/network/socketaddress.cpp, src/network/udpsocket.cpp and `sendPacket`, over boost::asio as
--     interfaces; Network/Message and Network/Delivery send strings from end to end.
--   Exceptions: src/core/exception.h, src/core/exception.cpp.
--   Tests: runs at concrete values.
--
-- How the code corresponds: names are those of the source in snake case. A number of w bits is a
-- natural number, with its wrap-around written out; -1 of an `int32_t` is 2 ^ 32 - 1. An
-- `std::unordered_map` is an association list in its order of iteration, a new key standing at the
-- end. Pointers are addresses, and address 0 is null; the allocator never hands out an address again.
-- That new keys stand behind the others is a convention of the model: where an unordered map puts them
-- is not specified. The operations of the object manager and of the events are modelled one after
-- another. The spin locks of the events make them so; the manager's mutex is not held in `deserialize`,
-- the destructor and most of `registerObj`, which are modelled as undisturbed by other threads. The
-- thread pool has interleavings: a step is one action of a client, a worker or the destructor. The
-- arguments of an event are forwarded to each delegate in turn, and a parameter says what that leaves of
-- them. A call of a socket that has no more events waits. zlib, boost's io_service, sockets, addresses
-- and log core, `vsnprintf`, `vswprintf`, the disk, `localtime`, `mktime`, `tolower` and the callbacks of
-- clients are parameters or arguments.
--
-- Fuel: the loop of `IsDerivedFromClassID` has fuel, of which the rank of the class and two more are
-- enough; the loop of `deserialize` has fuel, of which one more than the number of records is enough.
-- The digits of a number have the number itself and one more as fuel, and the moves of a stream, which
-- call each other, any amount. All other loops are structural recursion.
--
-- Not modelled: the format of the log's lines and its locale, which are handed to boost.log;
-- `GetTempDir`, `GetCurrentDir` and `GetTempFileName`, which only call the operating system; the
-- getters and the clock of src/core/core.h; and src/main.cpp, which runs the parts one after the other
-- on fixed values. doc/ holds notes and samples.
pub mod Base
pub mod MemoryStream
pub mod Rtti
pub mod Objects
pub mod Lifecycle
pub mod ThreadPool
pub mod Event
pub mod Fs
pub mod Log
pub mod Core
pub mod Network
pub mod Exceptions
pub mod Tests
