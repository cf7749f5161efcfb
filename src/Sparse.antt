-- ===== src/Sparse.antt =====
-- The format of sparse images, img-db/ext4_utils/sparse_format.h. The headers are written and read
-- as they stand in memory, which is taken to be little-endian.
pub mod Image
pub mod Items
pub mod Output
pub mod Expand
pub mod RoundTrip
use android_tools.Common.{ℕ, zero, suc, ◌+◌, ◌*◌, ◌/◌, ◌%◌, ◌^◌, List, [], ◌∷◌, ◌++◌}

-- the `n` bytes of a number
unfoldable pub le : ℕ → ℕ → List ℕ
le zero v = []
le (suc n) v = v % 256 ∷ le n (v / 256)

-- the number of some bytes
unfoldable pub from_le : List ℕ → ℕ
from_le [] = 0
from_le (b ∷ bs) = b + 256 * from_le bs

-- `sparse_header_t`
pub record SparseHeader : Type 0 where
  pub magic : ℕ
  pub major_version : ℕ
  pub minor_version : ℕ
  pub file_hdr_sz : ℕ
  pub chunk_hdr_sz : ℕ
  pub blk_sz : ℕ
  pub total_blks : ℕ
  pub total_chunks : ℕ
  pub image_checksum : ℕ

-- `chunk_header_t`; its `reserved1` is always 0 when it is written, and not looked at when read.
pub record ChunkHeader : Type 0 where
  pub chunk_type : ℕ
  pub chunk_sz : ℕ
  pub total_sz : ℕ

-- SPARSE_HEADER_MAGIC, CHUNK_TYPE_RAW and CHUNK_TYPE_DONT_CARE
abbrev pub sparse_header_magic : ℕ
sparse_header_magic = 0xed26ff3a

abbrev pub chunk_type_raw : ℕ
chunk_type_raw = 0xCAC1

abbrev pub chunk_type_dont_care : ℕ
chunk_type_dont_care = 0xCAC3

-- SPARSE_HEADER_LEN and CHUNK_HEADER_LEN
abbrev pub sparse_header_len : ℕ
sparse_header_len = 28

abbrev pub chunk_header_len : ℕ
chunk_header_len = 12

-- the bytes of the headers in memory
unfoldable pub sparse_header_bytes : SparseHeader → List ℕ
unfolding le
sparse_header_bytes h =
    le 4 h.magic
    ++ (le 2 h.major_version
        ++ (le 2 h.minor_version
            ++ (le 2 h.file_hdr_sz
                ++ (le 2 h.chunk_hdr_sz
                    ++ (le 4 h.blk_sz
                        ++ (le 4 h.total_blks
                            ++ (le 4 h.total_chunks ++ le 4 h.image_checksum)))))))

unfoldable pub chunk_header_bytes : ChunkHeader → List ℕ
unfolding le
chunk_header_bytes h = le 2 h.chunk_type ++ (le 2 0 ++ (le 4 h.chunk_sz ++ le 4 h.total_sz))
