-- ===== src/Lib.antt =====
-- The ext4 image builder of img-db/ext4_utils, which make_ext4fs runs to turn a directory into a
-- filesystem image.
--
-- How the parts work together. `make_ext4fs` (make_ext4fs.c) completes the parameters in the global
-- `info`, and `ext4_create_fs_aux_info` (ext4_utils.c) derives `aux_info` from them. The allocator
-- (allocate.c) cuts the image into block groups, each with a bitmap of blocks and one of inodes, and
-- reserves what every group needs for itself. Files and directories then take blocks and inodes from
-- it. What has to be written is put into a queue (backed_block.c) in the order of the blocks, and is
-- written out at the end by `write_ext4_image` through an output file (output_file.c), with a CRC-32
-- (sparse_crc32.c) if the image is sparse; `simg2img` (simg2img.c) makes a plain image of a sparse one.
--
-- Which file models what, with `img-db/ext4_utils/` left out of the paths:
-- - Common, and the files under it: shared names, lists, Boolean tests, bits, and `Run`, the ways a
--   run can end. The macro `error` of ext4_utils.h exits unless `force` is set, so functions that
--   report errors take `force` as an argument. A read outside of a buffer is a `fault`.
-- - Crc: sparse_crc32.c. Crc/Laws has the bitwise checksum that it is compared with.
-- - Bitmap: `bitmap_set_bit`, `bitmap_set_8_bits` and the clearing of a bit of allocate.c, on lists
--   of bytes. Bitmap/Bits and Bitmap/Marks say what they do to the bits.
-- - Group: `struct block_group_info`, `reserve_blocks` and `free_blocks` of allocate.c. Group/Walk,
--   Group/Reserve, Group/Blocks and Group/Release have their proofs; `IsGroup` is the invariant.
--   Group/Init is `init_bg` and `block_allocator_init`.
-- - Fs: `struct fs_info`, `struct fs_aux_info`, the compute functions of make_ext4fs.c and
--   `ext4_create_fs_aux_info`. Fs/Super is about superblocks, Fs/Geometry about the groups.
-- - Alloc: `ext4_allocate_blocks_from_block_group` up to `do_allocate` of allocate.c, on the list of
--   all groups. Alloc/Pool, Alloc/Take, Alloc/Spread and Alloc/Total follow the calls upwards;
--   Alloc/Hang is about the input on which the loop does not end, Alloc/Single about
--   `allocate_block`.
-- - Regions: the lists of regions of allocate.c, from `create_allocation` and `allocate_blocks` to
--   `append_oob_allocation` and `reduce_allocation`, on a heap of nodes. Regions/Chain has the blocks
--   of an allocation as a sequence, Regions/Advance the position in it. A chain of regions that
--   `do_allocate` returns is put at the end of the heap.
-- - Extents: extent.c, which puts the regions of an allocation into an inode and their contents into
--   the queue. Extents/Cover is about the loop that writes the extents.
-- - Inode: `reserve_inodes`, `allocate_inode`, `get_inode` and the counts of directories of
--   allocate.c. Inode/Reserve and Inode/Fresh have the proofs.
-- - Start: `block_allocator_init` against what Alloc and Inode ask for.
-- - Superblock: `ext4_fill_in_sb` of ext4_utils.c. Superblock/Located has the descriptors against the
--   groups of Group/Init and the inode tables of Inode, Superblock/Filled the whole.
-- - Resize: `inode_attach_resize` of indirect.c and `ext4_create_resize_inode` of ext4_utils.c, which
--   calls it. Resize/Tables has the two loops, Resize/Blocks and Reserved the allocation that they
--   read, Resize/Built how it is made, Resize/Created the whole, Resize/Rows the order of the rows.
-- - Totals: `ext4_update_free` of ext4_utils.c.
-- - Directory: `dentry_size`, `add_dentry` and the layout of `make_directory` of contents.c.
--   Directory/Places has the offsets, Layout and Adding what the entries add, Tiles the whole.
-- - Contents: the rest of contents.c, which makes directories, files and links with their inodes, and
--   the blocks that indirect.c gives a long link. Contents/Places is `get_inode` a second time,
--   Contents/Links a link with its permissions.
-- - Queue: `queue_db` and its callers of backed_block.c, on a heap of nodes. Queue/Chain is the
--   list on the heap, Queue/Insert the search and the insertion, Queue/Order the abstract sequence,
--   Queue/Add the refinement. Queue/Each is `for_each_data_block` on entries that do not overlap, and
--   Queue/Checked its check for their order.
-- - Sparse: sparse_format.h. Sparse/Image is a file as its bytes and a place in it; Sparse/Items has
--   the chunks, how each is written and what it stands for.
-- - Sparse/Output: output_file.c, over any operations on files. Sparse/Output/Reliable says what it is
--   for them to succeed; Sparse/Output/Written, RawChunk, Blocks and Stage follow the functions that
--   write a sparse file upwards; Session is its start and its end, Plain the file that is not
--   sparse, Errors what happens if calls fail.
-- - Sparse/Expand: simg2img.c, over any calls of stdio. Sparse/Expand/Headers, Copy, Skip and Chunks
--   follow it upwards, and Sparse/RoundTrip is `main`.
-- - Writer: `write_ext4_image` of ext4_utils.c. Writer/Layout is the image that the calls for the
--   queue make up, Writer/RoundTrip the whole.
-- - Tests, and the files under it: runs on small inputs.
--
-- Numbers. A `u32` or `u64` keeps its wrap-around, written as a remainder, wherever the code does
-- not rule it out by a test just before. An `int` is the number with the same 32 bits, so that one from
-- `2 ^ 31` on is negative: where the code takes a length or the number of a group as an `int`, the model
-- says what follows from that. Pointers to nodes are addresses on a heap, and NULL is
-- `none`.
--
-- Files. The system calls, zlib and stdio stand behind records of operations that the functions take
-- as an argument. `IsReliable` and `IsReliableStdio` are the hypotheses that such calls succeed and do
-- to a file what POSIX says; files in memory are their instances.
--
-- Fuel. The loops of `reserve_blocks` are given one round more than blocks asked for, and
-- `is_power_of` one more than its argument; both are enough for every input that their
-- theorems admit. The loop of `ext4_allocate_multiple_contiguous_blocks` needs one round more than
-- there are groups without a data block, and the search of the queue and the walks along the regions
-- of an allocation as many as there are nodes, or one more. The
-- loops of output_file.c and simg2img.c compute their own fuel from the length that they count
-- down: a round for each block, buffer or longest seek in it, and two more; the second loop of
-- `process_skip_chunk` has a round for each byte.
--
-- Not modelled: what is printed, failures of `malloc` and `calloc`, and the freeing of memory; the
-- trees of indirect blocks, the inodes of the journal, and UUIDs; SHA-1, a library of another
-- project; the walk over the directory that make_ext4fs makes; the scripts and the vendored tools of
-- the repository.
pub mod Common
pub mod Crc
pub mod Bitmap
pub mod Fs
pub mod Group
pub mod Alloc
pub mod Inode
pub mod Start
pub mod Superblock
pub mod Totals
pub mod Directory
pub mod Queue
pub mod Sparse
pub mod Writer
pub mod Regions
pub mod Extents
pub mod Resize
pub mod Contents
pub mod Tests
