-- ===== src/Lib.antt =====
-- xal: an index of the extents of a file system (xnvme/xal), modelled and proved.
--
-- The library reads the metadata of an XFS file system, or asks the kernel by FIEMAP, and keeps
-- inodes and extents in two memory pools. Readers, also in other processes, follow the pools while
-- xal_index() may rewrite them; a sequence lock and the index state tell them when they must try again.
--
-- Base    Shared helpers: numbers, words of 32 and 64 bits, lists, results with errno.
-- Pool    src/xal_pool.c and include/xal_pool.h. The outcomes of system calls are arguments; an
--         element is a value of any type. xal_pool_map, _unmap, _grow, _claim_inodes, _claim_extents
--         and _clear are map_pool, unmap, grow, claim_inodes, claim_extents and clear.
-- Model   include/libxal.h and include/xal.h: superblock, inode, extent, bounded access by index.
-- Extent  Of src/xal.c: xal_fsbno_offset, xal_extent_in_bytes and xal_extent_in_lba; of
--         src/xal_be_xfs.c: decode_xfs_extent and xal_agbno_absolute_offset.
-- Disk    The XFS format as src/xal_be_xfs.c reads it: dinodes, B+tree blocks, directory entries, inode
--         numbers, and reads of a device, whose answers are arguments.
-- Build   process_ino and all that it calls, and xal_be_xfs_index, of src/xal_be_xfs.c: state, files,
--         directories, index. The map of dinodes, the device, the kernel and qsort() are arguments. Fuel
--         for the depth of directories and for the height of a file's B+tree is given by the caller, as
--         nothing in the code bounds them; a block's loops have fuel from its size.
-- Sync    The index state and the sequence lock (src/xal.c), and threads that call xal_index() and
--         xal_mark_dirty(), one atomic access to a step, with a build of the XFS backend whose pools
--         are any value. Sync.Threads.World adds two counters that the program has not.
-- Reader  What a reader sees: the shared memory at each of its accesses, as the threads leave it.
-- Path    inode_path_assemble and xal_inode_path of src/xal.c. A parent has a lower index than its
--         child or the call fails, so the index and one more are fuel enough.
-- Lookup  path_under_basepath, search_by_traversal and xal_get_inode of src/xal.c for the XFS backend.
--         Each round takes a component off the path, so its length and one more are fuel enough.
--         bsearch() is a parameter, with what the C standard says of it in Lookup.Children.Names.
--         Lookup.Content has xal_get_root, xal_get_extents and xal_get_dentries.
-- Walk    xal_walk, _walk and walk_dentries of src/xal.c, with the callback as an argument. Fuel for the
--         depth is given by the caller; a directory's loop has 2 ^ 32 rounds, the range of its count.
--
-- Dinodes xal_dinodes_retrieve and the inode B+tree of src/xal_be_xfs.c, the superblock and the headers
--         of allocation groups. The device, khash and calloc() are arguments. Fuel for the tree is given
--         by the caller, as a damaged node of level 1 may point to itself. A write past the buffer of
--         dinodes and a failed assertion end the model, with results of their own.
-- Fiemap  src/xal_be_fiemap.c. State holds what the walk asks the kernel and writes; Mapping is
--         read_fiemap; Shadow the directory of clones; Visit process_ino_fiemap and the functions of
--         directories and files; Index xal_be_fiemap_index; Paths the map from paths to inodes,
--         xal_build_lookup_hashmap and the lookups; Open what a handle owns from xal_be_fiemap_open to
--         xal_close. Kept proves what the walk keeps. The kernel's answers and khash are arguments, the
--         latter with the laws of a table (Paths.Keys). Fuel for the depth of directories is given by
--         the caller, as nothing in the code bounds it.
-- Watch   src/xal_be_fiemap_inotify.c. Lifecycle has the critical sections that start and reap the watch
--         thread, as steps of a world of threads; Events is check_events, with an event as a record
--         and what the thread sees when it comes to it; Loop a round of background_thread_start, with
--         what it reads and what poll() and check_events() answer. Whether a callback was given is an
--         argument.
-- Publish publish_shared_state of src/xal.c, as the stores it makes into the region of shared memory one
--         after the other, and xal_from_shm, as its accesses beside them. What the system calls answer
--         is an argument.
--
-- An errno is its number on Linux. A reader makes its accesses in program order, and every access
-- sees one state of the memory: weaker memory orders are not modelled. The FIEMAP index runs alone at
-- its handle; the map of paths is built at rest. A failed assertion ends the process, which a result
-- of its own stands for.
--
-- Not modelled: xal_open, xal_open_from_uri and retrieve_mountpoint (src/xal.c), and
-- xal_be_xfs_open as a whole; the close of a secondary; the purge of other processes' shadow
-- directories; printing (src/pp.c, src/utils.c); the programs (src/cli.c, tools); and the hash
-- table of tp/khash.h.
pub mod Base
pub mod Pool
pub mod Model
pub mod Extent
pub mod Sync
pub mod Reader
pub mod Path
pub mod Lookup
pub mod Walk
pub mod Disk
pub mod Build
pub mod Dinodes
pub mod Fiemap
pub mod Watch
pub mod Publish
