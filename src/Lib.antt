-- ===== src/Lib.antt =====
-- SoLoad, a loader of Android ARM64 shared objects that does not use dlopen.
--
-- The program. A SoLoader maps a library's segments, reads its tables into an ElfImage, and hands
-- it to a Linker. The Linker loads what the library needs, gives each image its TLS module, binds
-- the images' relocations to symbols of the images or of the system, registers the images for
-- backtraces and runs their constructors; destroy and abandon undo this. TlsManager and
-- BacktraceManager are the two tables that all linkers share.
--
-- The files, with the code that they are about:
--   Base         helpers: machine words with their wrap-around written out (Words, Bits, Int),
--                Boolean tests, lists, and fixed arrays of slots with their search loop (Slots)
--   Sleb128      include/sleb128.hpp: decode, decodeUnsigned, hasMore over the bytes from
--                current_ to end_. Spec has the reference encodings.
--   Image        include/elf_image.hpp: the records of <elf.h> and the class ElfImage.
--     Header     src/elf_image.cpp: validateElfHeader, and the bias of parseDynamic
--     Hash       elfHash and gnuHash
--     Lookup     gnuHashLookup, elfHashLookup, linearLookup, findSymbolOffset,
--                findSymbolAddress, getSymbolAt
--     Sound, Search  proofs: what a lookup finds, and when it ends
--   Tls          include/tls.hpp and src/tls.cpp: registerSegment, unregisterSegment,
--                allocateBlock, getBlockForThread, getAddress, allocateIndex and the destructor
--                of a thread's block. Proofs: Invariant, Register, Blocks, PerThread.
--   Backtrace    include/backtrace.hpp and src/backtrace.cpp: registerLibrary,
--                unregisterLibrary, registerEhFrame, unregisterEhFrame, customDlIteratePhdr,
--                customDladdr. EhFrameHdr has decodePointer and parseEhFrameHdr. Proofs:
--                Registry, Frames, Visits, Pointers.
--   Linker       include/linker.hpp: the state of the class Linker.
--     Symbols    src/linker.cpp: findSymbol and findSymbolCached. Proofs: Preference, Cache.
--     Memory     the words in a memory of bytes
--     Relocation processRelocation. Proofs: Writes.
--     Relocate   processRelocations, with its parts: Relr (RELR), Tables (the dynamic table, RELA
--                and REL) and Packed (APS2). Proofs: Packed has a reference encoding (Format) and
--                what the loops do on it; Tables has what the scan finds (Entries); Relocate has
--                what an image's tables ask for and that it is done (Asked, Served), the log of
--                any run that ends (Log, Loops, Magic, Replay, Order), and what follows from them
--                (Frame, Coherent, Owned).
--     Pages      pageStart, pageEnd
--     Segments   loadSegment. Proofs: Contents, Layout.
--     Library    getLoadSize, loadLibraryManually. Proofs: Inside, Mapped, Outcome, Empty.
--     Dependencies  findLibraryPath, isLoaded, loadDependencies. Proofs: Mappings, Distinct,
--                Ends.
--     Protection restoreProtections, and makeWritable of link. Proofs: Covered, Restored.
--     Life       init, destroy, abandon, ~Linker, callConstructors, callDestructors. Proofs: Ending.
--     Resolver   dynamic_tls_resolver
-- A file Runs holds test data of its component, and the theorems applied to it.
--
-- Conventions. Numbers are natural numbers; a sum that wraps around in the code wraps around in
-- the model. A pointer is an address with 0 for nullptr, and a table behind a pointer is the list
-- of its entries: a read past the end is an outcome of its own (fault, broken or none), and so is
-- a shift by 64 bits or more. Signed arithmetic that overflows, which C++17 leaves undefined, is
-- taken modulo 2 ^ 64, as compilers do it: the shift past the sign and the negation in decode. A
-- state that the code changes in place is an argument and a result. Memory is the byte at each
-- address; a relocation writes eight of them. A mutex is not modelled: each operation runs as a
-- whole.
--
-- Bounds and fuel. Most loops run over lists, so they end by their structure. The others count
-- their rounds; that the rounds are used up is an outcome of its own (endless, or none):
--   gnuHashLookup    one round more than there are dynamic symbols, enough for every table
--   elfHashLookup    no bound in the code; the number is an argument, and an order of the chain's
--                    entries gives a sufficient one
--   APS2 groups      no bound in the code; on a complete stream one round more than there are
--                    groups is enough
--   loadDependencies
--                    the list that it goes over grows; one round more than there are names
--                    that the tables can ask for is enough
--   restoreProtections
--                    one round more than a segment has pages is enough
--
-- Parameters. The page size, the success of mmap and the place of a reservation, the files with
-- what pread gives of them, ElfImage::create, posix_memalign, malloc, strdup, the bytes of memory,
-- the values of the DT_ANDROID tags, IFUNC resolvers, dlsym, the system's dladdr and
-- dl_iterate_phdr, and the presence of GCC's frame functions are arguments of the definitions that
-- use them. Functions of the loaded library, calls of GCC's runtime and delete are recorded in
-- traces, in their order. Whether an address is mapped is part of the process, and its open files
-- are counted.
--
-- Not modelled: the sections and the dynamic section that ElfImage reads, link as a whole,
-- SoLoader, the test program in src/soloader.cpp, logging.
pub mod Base
pub mod Sleb128
pub mod Image
pub mod Tls
pub mod Linker
pub mod Backtrace
