-- ===== src/Lib.antt =====
-- C code of the kernel patches for webOS devices, and what is proved of it: the compressed swap
-- device compcache with its memory allocator, and the aufs union file system.
--
-- Parts and files
--
-- - Base, with Base/Tests (Boolean tests), Base/Arrays (arrays as functions), Base/Lists, Base/Bits
--   (bits of a word) and Base/Scan (loops that look for the first index that passes a test),
--   Base/Count (how many do), Base/Pigeonhole and Base/Wrap (a counter that wraps around): what all
--   parts share.
-- - Kernel/Bitops: the kernel's bit operations that xvmalloc calls, an interface with the behaviour
--   that the kernel documents, and an implementation on words.
-- - Xvmalloc: compcache/compcache-0.5.4/sub-projects/allocators/xvmalloc-kmod/xvmalloc.c and
--   xvmalloc_int.h. Xvmalloc has the constants, the data layout and the indices of free lists
--   (get_index, get_index_for_insert); Xvmalloc/FreeList has insert_block, remove_block_head and
--   remove_block; Xvmalloc/FindBlock the bitmap search find_block; Xvmalloc/Alloc xv_create_pool,
--   grow_pool and xv_malloc; Xvmalloc/Free xv_free and the two size queries. The state Xv is the
--   pool and the headers in its pages, a function from <pagenum, offset> pairs. Of the other
--   children, Index is about the indices, Bitmaps and Search about the bitmaps, Chain, Unlink,
--   Lists and Lists/Remove about the doubly linked free lists, Grow about new pages, Malloc about
--   xv_malloc as its callers see it. The pool's abstract view is a list of places for each
--   free-list index (IsListed).
-- - Ramzswap: compcache/compcache-0.5.4/ramzswap.c and ramzswap.h, the block device, which stores
--   its pages through xvmalloc. Ramzswap has the page table, the statistics and the requests;
--   Ramzswap/Slots has ramzswap_free_page and the notifications, Ramzswap/Requests ramzswap_read,
--   ramzswap_write and ramzswap_make_request, Ramzswap/Setup the sizes that the module parameters
--   give. Of the other children, Bytes is about copies of bytes, Reads about ramzswap_read,
--   RoundTrip about a write and the read after it, Forward about the backing device, Memlimit about
--   the memory limit, Limits about bounds.
-- - Aufs: aufs/fs/aufs, its branches (branch.h), super block (super.h) and dentry information
--   (dentry.h). Aufs/Dinfo is dinfo.c, the range of branches that a dentry's hidden dentries lie
--   in, Aufs/Iinfo the same for an inode (iinfo.c), and Aufs/Tight what the two share;
--   Aufs/WbrPolicy is wbr_policy.c, the choice of the writable branch that a new entry is created
--   on or copied up to, with all policies and their tables (opts.h). Its children are about the
--   policies' choices. The policies read the dentry information.
-- - Aufs/Xino: xino.c and au_ino of vdir.c, the numbers of inodes: the bitmap xib, of which one
--   page is in memory, and the entries of the branches' files. Of its children, Bitmap is about
--   paging, Find about the search for a free number, Numbers about new numbers, Unique about
--   au_ino, Release about au_xino_write0, Lost about a write that fails when the bitmap grows.
-- - Aufs/Vdir: vdir.c, a directory merged from those of the branches. Aufs/Vdir has the data
--   (dir.h) and the name lists, Aufs/Vdir/Read reading the branches (fillvdir, append_de,
--   au_do_read_vdir), Aufs/Vdir/Cache the directory that an inode keeps and its copy for an open
--   file (read_vdir, copy_vdir, au_vdir_init), Aufs/Vdir/Fill handing entries over (seek_vdir,
--   au_vdir_fill_de). Merge describes the merge by the branches' entries alone; Names, Blocks,
--   Filled, Step and Listing show that reading is this merge, Success when it succeeds, Bounds that
--   entries stay in their blocks, Kept and Readable that this holds of whole reads, Open is about a
--   first opening, Asked, Offsets, Resume and Rewind about calls of au_vdir_fill_de, Readdir about an
--   opening and the reading after it. Reading numbers inodes by au_ino of Aufs/Xino.
-- - Aufs/Empty: the part of dir.c that tests whether a directory is empty (au_test_empty,
--   au_test_empty_lower), over the dentry information and the whiteout lists of Aufs/Vdir; Covered
--   is about one directory, Visible about the merge of all.
-- - Aufs/Branches: branch.c and au_new_br_id of sbinfo.c, the super block's branches with the
--   hidden dentries and inodes of the root. Aufs/Branches has the data, au_br_index and the ids,
--   Branches/Add au_br_add with test_add and au_br_init, Branches/Delete au_br_del, Branches/Change
--   au_br_mod. Valid says what holds of the branches between two operations; Ids is about new ids,
--   Lookup about au_find_dbindex on the root, Sizes about moves within arrays and the largest
--   s_maxbytes, Put about a branch's own fields; Add/Arrays, Add/Insert and Delete/Remove are about
--   the arrays, Change/Keep about au_br_mod on any branches, Add/Result, Delete/Result and
--   Change/Mod about all outcomes of the three operations.
-- - Aufs/Refresh: au_refresh_hinode_self of inode.c, which moves an inode's hidden inodes to their
--   branches' new indices, over au_br_index and the range of Aufs/Iinfo. Rounds and Loop are about
--   its loop, Self about the whole function, Follow and Compose about it after au_br_add or
--   au_br_del. Refresh/Dentry is au_refresh_hinode, which goes on with a dentry's hidden dentries
--   (Aufs/Dinfo); of its children Rounds is about the loop, Held about the whole function. The link
--   counts are an argument.
-- - Aufs/Opts: opts.c, what parsed mount options do: au_opt_simple, au_opt_br, which calls the
--   operations of Aufs/Branches, and au_opts_mount up to the test that there is a branch.
--   si_mntflags is a function from the numbers of its bits. Aufs/Opts has the data, Simple
--   au_opt_simple, Apply au_opt_br and au_opts_mount; Flags is about the flags that exclude each
--   other, Opts/Branches about the two loops.
-- - Tests: the theorems at concrete states, and runs.
--
-- Bounds and machine integers
--
-- `ulong` has 32 bits and a page 4096 bytes, as on the ARM devices. Stores to u16 fields, u32 and
-- size_t arithmetic and the statistics wrap, written out. All loops are structural recursion on the
-- number of rounds that the C loop has: the number of branches, or of indices in a range. The loop
-- of au_update_dbend is an exception: below index 0 it does not end, and the model's result is then
-- `none`. The loop of au_new_br_id has fuel for a round per branch and two more, where ids are
-- words of `w` bits (8 or 16 in C) and AUFS_BRANCH_MAX is an argument; the loop of
-- au_refresh_hinode_self has its fuel as an argument, of which twice the length of the longer array
-- and one are enough. A branch index of -1, and
-- the error -EROFS of a policy, is `none`. i_version, which the kernel's headers declare, and
-- si_xib_next_bit, an int that each new number counts up and each freed one sets back, are counted
-- without an end; names have at most NAME_MAX (255) bytes in C, which is a condition of the theorems
-- where the u8 length of a name matters.
--
-- What is not modelled
--
-- Locks, kmap and reference counts: a call runs to its end. In xv_malloc the pool's lock is let go
-- while the pool grows; no other call comes between. The kernel's page allocator is an argument of
-- grow_pool, xv_malloc and ramzswap_write (the number of the fresh page, or 0); the lzo compressor
-- is the record Lzo of Ramzswap; statfs, permissions and the clock are the record Kernel of
-- Aufs/WbrPolicy. Of ramzswap.c, the start and the end of the module, the set-up of a backing
-- device and the proc file are left out, and an object's bytes are kept apart from the block
-- headers. A store to a header is taken to change no other header, which holds where headers lie at
-- least a header apart. The parts of wbr_policy.c that copy directories' attributes
-- (au_cpdown_dirs), and the rest of aufs (super block, parsing, showing and verifying options,
-- remounting, the creation and truncation of xino files, whiteouts, inode and file operations) call
-- the VFS for most of what they do. Of branch.c, what au_wh_init, the xino files,
-- test_children_busy, test_overlap and au_br_mod_files_ro answer are arguments of the operations,
-- and sysfs entries, plink and the root's attributes are left out, as attributes are in inode.c.
-- Which file reads and writes of xino.c succeed is an argument that counts the calls, and so are
-- the allocations of vdir.c; a call that fails is taken to change nothing. A branch's directory is
-- what its readdir hands over, call by call. A block of a merged directory is a list of entries
-- with byte offsets, not bytes; a position between entries is one at which no entry is found.
-- aufs/fs/aufs25 is the same file system for other kernels.
pub mod Base
pub mod Kernel
pub mod Xvmalloc
pub mod Ramzswap
pub mod Aufs
mod Tests
