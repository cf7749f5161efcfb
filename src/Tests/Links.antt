-- ===== src/Tests/Links.antt =====
-- Runs of contents.c with the inodes, and the theorem on links at one of them.
use android_tools.Common.{ℕ, ◌≡◌, refl, arith, true, List, [], ◌∷◌, done, exited}
use android_tools.Fs.{FsInfo, FsAuxInfo}
use android_tools.Tests.{group_a, one-AreInodes}
use android_tools.Tests.Contents.{empty_queue, empty-Holds}
use android_tools.Contents.{Files, InodeFields, unset, indirect_blocks_needed}
use android_tools.Contents.Links.{Linked, make_link-inode_set_permissions}

abbrev info : FsInfo
info = record {
  len = 640;
  block_size = 16;
  blocks_per_group = 16;
  inodes_per_group = 8;
  inode_size = 4;
  inodes = 8;
  journal_blocks = 0;
  feat_ro_compat = 1;
  feat_compat = 0;
  feat_incompat = 0;
  no_journal = 1;
}

abbrev aux : FsAuxInfo
aux = record {
  first_data_block = 0;
  len_blocks = 16;
  inode_table_blocks = 2;
  groups = 1;
  bg_desc_blocks = 1;
  bg_desc_reserve_blocks = 3;
  default_i_flags = 128;
  blocks_per_ind = 4;
  blocks_per_dind = 16;
  blocks_per_tind = 64;
}

abbrev blank : InodeFields
blank = record {
  i_mode = 0;
  i_uid = 0;
  i_gid = 0;
  i_links_count = 0;
  i_flags = 0;
  i_mtime = 0;
  i_atime = 0;
  i_ctime = 0;
  i_size_lo = 0;
  i_size_high = 0;
  i_blocks_lo = 0;
  l_i_blocks_high = 0;
  i_block = unset;
}

abbrev one_group : Files
one_group = record {
  st = record { heap = []; bgs = group_a ∷ []; queue = empty_queue };
  inodes = λ _. blank;
}

-- "/bin"
abbrev bin : List ℕ
bin = b'/' ∷ b'b' ∷ b'i' ∷ b'n' ∷ []

make_link-inode_set_permissions_example : Linked info aux true 1 300 one_group bin 400 511 1 2 77 []
make_link-inode_set_permissions_example =
    make_link-inode_set_permissions info aux true 1 300 one_group bin 400 511 1 2 77 0 group_a []
      one-AreInodes (omega arith) (omega arith) refl (omega arith) (omega arith) empty-Holds
      (omega arith)

-- For 20 blocks, 8 of them behind the direct ones: 2 blocks of numbers, and the one that leads to the
-- second of these.
no_indirect : indirect_blocks_needed aux 12 ≡ done 0
unfolding indirect_blocks_needed
no_indirect = refl

one_indirect : indirect_blocks_needed aux 14 ≡ done 1
unfolding indirect_blocks_needed
one_indirect = refl

two_levels : indirect_blocks_needed aux 20 ≡ done 3
unfolding indirect_blocks_needed
two_levels = refl

too_large : indirect_blocks_needed aux 97 ≡ exited
unfolding indirect_blocks_needed
too_large = refl
