-- ===== src/Sparse/Expand/Headers.antt =====
-- The headers of a sparse image are read back as they were written.
use android_tools.Common.{ℕ, zero, suc, ◌/◌, ◌^◌, ◌<◌, ◌≡◌, refl, arith, length}
use native.Mathlib.Nat.{pow-suc, pow-zero}
use android_tools.Sparse.{
  SparseHeader, ChunkHeader, le, from_le, sparse_header_bytes, chunk_header_bytes,
}
use android_tools.Sparse.Expand.{sparse_header_of, chunk_header_of}

from_le-le : (n v : ℕ) → v < 256 ^ n → from_le (le n v) ≡ v
unfolding from_le le
from_le-le zero v small = omega (arith, pow-zero 256)
from_le-le (suc n) v small =
    let next = from_le-le n (v / 256) (omega (arith, pow-suc 256 n)) in rw next (omega arith)

-- Each header field is as wide as the source has it.
pub record IsHeader (h : SparseHeader) : Type 0 where
  pub magic : h.magic < 2 ^ 32
  pub major_version : h.major_version < 2 ^ 16
  pub minor_version : h.minor_version < 2 ^ 16
  pub file_hdr_sz : h.file_hdr_sz < 2 ^ 16
  pub chunk_hdr_sz : h.chunk_hdr_sz < 2 ^ 16
  pub blk_sz : h.blk_sz < 2 ^ 32
  pub total_blks : h.total_blks < 2 ^ 32
  pub total_chunks : h.total_chunks < 2 ^ 32
  pub image_checksum : h.image_checksum < 2 ^ 32

abbrev pub IsChunk : ChunkHeader → Type 0
IsChunk h = (h.chunk_type < 2 ^ 16) × (h.chunk_sz < 2 ^ 32) × (h.total_sz < 2 ^ 32)

pub chunk_header_of-bytes :
    (h : ChunkHeader) → IsChunk h → chunk_header_of (chunk_header_bytes h) ≡ h
unfolding chunk_header_of chunk_header_bytes le from_le
chunk_header_of-bytes h (a, b, c) =
    let kind = from_le-le 2 h.chunk_type (omega arith) in
    let blocks = from_le-le 4 h.chunk_sz (omega arith) in
    let total = from_le-le 4 h.total_sz (omega arith) in rw (kind, blocks, total) refl

-- The header of a sparse file whose fields are as wide as the format has them is read back from its
-- bytes.
pub sparse_header_of-bytes :
    (h : SparseHeader) → IsHeader h → sparse_header_of (sparse_header_bytes h) ≡ h
unfolding sparse_header_of sparse_header_bytes le from_le
sparse_header_of-bytes h v =
    let magic = from_le-le 4 h.magic (omega (arith, v.magic)) in
    let major = from_le-le 2 h.major_version (omega (arith, v.major_version)) in
    let minor = from_le-le 2 h.minor_version (omega (arith, v.minor_version)) in
    let file_size = from_le-le 2 h.file_hdr_sz (omega (arith, v.file_hdr_sz)) in
    let chunk_size = from_le-le 2 h.chunk_hdr_sz (omega (arith, v.chunk_hdr_sz)) in
    let block_size = from_le-le 4 h.blk_sz (omega (arith, v.blk_sz)) in
    let blocks = from_le-le 4 h.total_blks (omega (arith, v.total_blks)) in
    let chunks = from_le-le 4 h.total_chunks (omega (arith, v.total_chunks)) in
    let checksum = from_le-le 4 h.image_checksum (omega (arith, v.image_checksum)) in
    rw (magic, major, minor, file_size, chunk_size, block_size, blocks, chunks, checksum) refl

pub length-chunk_header_bytes : (h : ChunkHeader) → length (chunk_header_bytes h) ≡ 12
unfolding chunk_header_bytes le
length-chunk_header_bytes h = refl

pub length-sparse_header_bytes : (h : SparseHeader) → length (sparse_header_bytes h) ≡ 28
unfolding sparse_header_bytes le
length-sparse_header_bytes h = refl
