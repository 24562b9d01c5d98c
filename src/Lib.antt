-- ===== src/Lib.antt =====
-- Verification of the core of Tux3, a versioning filesystem (user/kernel).
--
-- The program keeps a volume's free blocks in a bitmap file (user/kernel/balloc.c, on the bit ranges
-- of user/kernel/utility.c); inodes in the leaves of a btree (user/kernel/btree.c, user/kernel/ileaf.c), as attributes in a
-- variable format (user/kernel/iattr.c, user/kernel/xattr.c) of big-endian fields and packed words
-- (user/kernel/tux3.h); the extents of a file in leaves of its own btree (user/kernel/dleaf.c); and a log of changes to metadata (user/kernel/log.c), which a mount replays
-- into the bitmap (user/kernel/replay.c). Directories are files of chained entries (user/kernel/dir.c). The log also holds the queue of deferred frees.
--
-- Files, each with its children:
--   Base: shared names, Boolean tests, lists, bits and byte-addressed memory.
--   Bitmap: set_bits, clear_bits, all_set, all_clear and bytebits of user/kernel/utility.c.
--   Errno: results of functions that return an error number.
--   Balloc: user/kernel/balloc.c. `Sb` is the part of struct sb that allocation uses; the bitmap
--     file is a function from blocks to bytes, and its read may fail.
--   Codec: encode16 to encode64 and decode16 to decode64 of user/kernel/tux3.h, on lists of bytes.
--   Packed: groups, entries, extents, roots and fixed-point times of user/kernel/tux3.h.
--   Dleaf: user/kernel/dleaf.c. A leaf is its header and its three tables, in the order of the logical
--     addresses. View has the mapping of a leaf, Split, Merge, Walk, Probe and Pack the operations, Check,
--     Cut, Halves, Joined and the other children the proofs. The cursor is a record of places.
--   Ileaf: user/kernel/ileaf.c. The offsets at the top of a leaf are a function `dict` and the attributes
--     the memory `table`; a valid leaf keeps the two apart within the block.
--   Iattr: user/kernel/iattr.c, the encoders of user/kernel/xattr.c and the device numbers of
--     user/knlcompat.h. `Inode` has the fields that are attributes.
--   Log: the record writers of user/kernel/log.c. A log block is its payload; a failed assertion is `none`.
--   Replay: user/kernel/replay.c. Reading a block of the volume is a parameter.
--   Stash: the stash of user/kernel/log.c. A page is its slots, and page allocation is an argument.
--   Xcache: the attribute cache of user/kernel/xattr.c. Memory allocation is an argument.
--   Atoms: reference counts and free atoms of attribute names, user/kernel/xattr.c.
--   Dir: finding, creating and deleting entries of user/kernel/dir.c. A block is the chain of its entries.
--     Chain has the records that fill a block, Delete a deletion, Find and Whole the
--     search after a creation, in a block and in the directory.
--   Btree: user/kernel/btree.c. Index nodes are the lists of their entries, on a volume of blocks; a
--     cursor is its index nodes from the deepest up and its leaf. Cursor has the walks, Edit the changes
--     of nodes, Redirect the copies of clean blocks. The leaf operations and the allocator are parameters.
--   Version: versioned pointers, user/version.c.
--   Examples and the Examples of a component: tests, and the theorems at concrete values.
--
-- Machine integers are natural numbers with their wrap written out where the source can wrap. Loops of
-- the source recurse on the rounds left, which the code computes before the loop, or on the number of
-- bytes left: a record or an attribute takes one byte or more, so that this is fuel enough, and the
-- round trips show that it is not exhausted.
--
-- In a btree the rounds are the levels of the tree, which its root records. On the path of a version the
-- rounds are the 256 labels: each version has a higher order than its parent, and no order is above 256.
--
-- Not modelled: the block cache (user/buffer.c) and all I/O, locks and, but for the copies of clean
-- blocks, dirty marks; tree_chop and the leaf operations' side of btree.c, the commit and the
-- glue to the VFS; the editing of child lists and the deletion of versions (user/version.c); the atom
-- dictionary's names; functions that only print.
pub mod Base
pub mod Bitmap
pub mod Errno
pub mod Atoms
pub mod Balloc
pub mod Btree
pub mod Codec
pub mod Packed
pub mod Dleaf
pub mod Ileaf
pub mod Iattr
pub mod Log
pub mod Replay
pub mod Stash
pub mod Version
pub mod Xcache
pub mod Dir
pub mod Examples
