-- ===== src/Superblock/Filled.antt =====
-- `ext4_fill_in_sb` of img-db/ext4_utils/ext4_utils.c as a whole.
use android_tools.Queue.{Queue}
use android_tools.Superblock.Located.{Located}
