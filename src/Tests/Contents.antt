-- ===== src/Tests/Contents.antt =====
-- Runs of the directories and of the superblock, and their theorems at small inputs.
use android_tools.Common.{
  ℕ, ◌*◌, ◌≡◌, refl, arith, List, [], ◌∷◌, inl, none, map, replicate, done, fault,
}
use mathlib.Core.List.{reverse}
use android_tools.Fs.{FsInfo, FsAuxInfo}
use android_tools.Queue.{Queue}
use android_tools.Queue.Order.{Holds}
use android_tools.Directory.{
  Dentry, DirData, add_dentry, add_dentries, put_dentry, close_directory, start_directory,
  fill_directory, directory_len, dentry_size, size_loop, dot, dot_dot, ft_dir,
}
use android_tools.Directory.Layout.{Tiled, content}
use android_tools.Directory.Adding.{unfilled}
use android_tools.Directory.Tiles.{fill_directory-Tiled}
use android_tools.Superblock.Located.{Located}

-- a name of `n` letters
abbrev named : ℕ → Dentry
named n = record { filename = replicate n b'a'; file_type = 1 }

abbrev names : List Dentry
names = named 200 ∷ named 250 ∷ named 3 ∷ []

fill_directory-Tiled_example :
    (w : DirData) × (fill_directory 512 (directory_len 512 names) 12 2 names ≡ done w)
    × Tiled 512 w.dentries (directory_len 512 names)
    × (map content w.dentries
        ≡ (0, [], 0) ∷ reverse ((12, dot, ft_dir) ∷ (2, dot_dot, ft_dir) ∷ map unfilled names))
fill_directory-Tiled_example =
    fill_directory-Tiled 512 (omega arith) (omega arith) 12 2 names (omega arith) (omega arith)

-- Names whose entries end where the one block does: `dentry_size` counts no padding, `add_dentry`
-- pads all the same, and writes behind the buffer.
ends_with_block : fill_directory 512 512 12 2 (named 250 ∷ named 220 ∷ []) ≡ fault
unfolding fill_directory start_directory add_dentries add_dentry put_dentry close_directory
ends_with_block = refl

counted_as_one_block : directory_len 512 (named 250 ∷ named 220 ∷ []) ≡ 512
unfolding dentry_size size_loop
counted_as_one_block = refl

-- Names that leave 4 bytes of the block: the entry behind them does not fit.
no_room_behind : fill_directory 512 512 12 2 (named 250 ∷ named 216 ∷ []) ≡ fault
unfolding fill_directory start_directory add_dentries add_dentry put_dentry close_directory
no_room_behind = refl

counted_as_one_block' : directory_len 512 (named 250 ∷ named 216 ∷ []) ≡ 512
unfolding dentry_size size_loop
counted_as_one_block' = refl

abbrev info : FsInfo
info = record {
  len = 16385 * 1024;
  block_size = 1024;
  blocks_per_group = 8192;
  inodes_per_group = 16;
  inode_size = 256;
  inodes = 32;
  journal_blocks = 0;
  feat_ro_compat = 1;
  feat_compat = 0;
  feat_incompat = 0;
  no_journal = 1;
}

abbrev aux : FsAuxInfo
aux = record {
  first_data_block = 1;
  len_blocks = 16385;
  inode_table_blocks = 4;
  groups = 2;
  bg_desc_blocks = 1;
  bg_desc_reserve_blocks = 63;
  default_i_flags = 128;
  blocks_per_ind = 256;
  blocks_per_dind = 65536;
  blocks_per_tind = 16777216;
}

abbrev pub empty_queue : Queue
empty_queue = record { heap = []; data_blocks = none; last_used = none }

pub empty-Holds : Holds empty_queue []
empty-Holds = record {
  addresses = [];
  valid = record { chain = refl; sorted = tt; last = inl refl };
  view = refl;
}
