-- ===== src/Directory.antt =====
-- Directories, img-db/ext4_utils/contents.c: the size that is allocated for the entries, and their
-- layout in the blocks of a directory.
pub mod Places
pub mod Layout
pub mod Adding
pub mod Tiles
use android_tools.Common.{
  ℕ, ◌+◌, ◌-◌, ◌*◌, ◌/◌, ◌%◌, ◌^◌, Bool, true, false, ◌&&◌, ◌||◌, not, List, [], ◌∷◌, ◌==◌, ltb,
  if◌then◌else◌, length, Run, done, exited, fault, ◌>>=◌,
}
use android_tools.Fs.{u32, div_round_up}

-- What `make_directory` reads of `struct dentry`; a name is its bytes, without the 0 at the end.
pub record Dentry : Type 0 where
  pub filename : List ℕ
  pub file_type : ℕ

-- `struct ext4_dir_entry_2`, with its offset in the buffer.
pub record DirEntry : Type 0 where
  pub at : ℕ
  pub inode : ℕ
  pub rec_len : ℕ
  pub name_len : ℕ
  pub file_type : ℕ
  pub name : List ℕ

-- The buffer of a directory: its length in bytes, the entries that were written to it, the last one
-- first, and the variable `offset`.
pub record DirData : Type 0 where
  pub size : ℕ
  pub dentries : List DirEntry
  pub offset : ℕ

-- ALIGN(x, 4)
abbrev pub align_four : ℕ → ℕ
align_four x = 4 * ((x + 3) / 4)

-- one round of the loop of `dentry_size`
abbrev pub grow : ℕ → ℕ → ℕ → ℕ
grow block_size len dentry_len =
    if ltb block_size (u32 (len % block_size + dentry_len))
    then u32 (u32 (len + (block_size - len % block_size)) + dentry_len)
    else u32 (len + dentry_len)

unfoldable pub size_loop : ℕ → ℕ → List Dentry → ℕ
size_loop block_size len [] = len
size_loop block_size len (d ∷ ds) =
    size_loop block_size (grow block_size len (u32 (8 + align_four (length d.filename)))) ds

unfoldable pub dentry_size : ℕ → List Dentry → ℕ
unfolding size_loop
dentry_size block_size dentries = size_loop block_size 24 dentries

-- `prev->rec_len += …`; `critical_error` exits in any case.
abbrev pub pad_prev : ℕ → List DirEntry → Run (List DirEntry)
pad_prev padding [] = exited
pad_prev padding (prev ∷ before) =
    done (record prev { rec_len = (prev.rec_len + padding) % 2 ^ 16 } ∷ before)

-- The rest of `add_dentry`, from the place of the entry on. It writes the fields, which have 8 bytes,
-- and the name.
unfoldable pub put_dentry : DirData → ℕ → ℕ → ℕ → List ℕ → ℕ → Run DirData
put_dentry w rec_len name_len inode name file_type =
    if ltb w.size (w.offset + 8 + name_len)
    then fault
    else let dentry : DirEntry = record {
      at = w.offset;
      inode = inode;
      rec_len = rec_len;
      name_len = name_len;
      file_type = file_type;
      name = name;
    } in
      done (record w { dentries = dentry ∷ w.dentries; offset = u32 (w.offset + rec_len) })

unfoldable pub add_dentry : ℕ → DirData → ℕ → List ℕ → ℕ → Run DirData
add_dentry block_size w inode name file_type =
    let name_len = length name % 2 ^ 8 in
    let rec_len = (8 + align_four name_len) % 2 ^ 16 in
    let end_block = u32 (w.offset + rec_len) / block_size in
    let start = u32 (end_block * block_size) in
    if block_size == 0
    then fault
    else if w.offset / block_size == end_block
    then put_dentry w rec_len name_len inode name file_type
    else (pad_prev (u32 (start + 2 ^ 32 - w.offset)) w.dentries >>= λ dentries.
        put_dentry (record w { dentries = dentries; offset = start }) rec_len name_len inode name
          file_type)

-- `!dentries` behind this one
abbrev pub is_last : List Dentry → Bool
is_last [] = true
is_last (d ∷ ds) = false

-- the loop of `make_directory` over the entries; their inodes are filled in later.
unfoldable pub add_dentries : ℕ → ℕ → DirData → List Dentry → Run DirData
add_dentries block_size len w [] = done w
add_dentries block_size len w (d ∷ ds) = add_dentry block_size w 0 d.filename d.file_type >>= λ w.
    if ltb len w.offset || w.offset == len && not (is_last ds)
    then exited
    else add_dentries block_size len w ds

-- EXT4_FT_DIR, and the names "." and ".."
abbrev pub ft_dir : ℕ
ft_dir = 2

abbrev pub dot : List ℕ
dot = b'.' ∷ []

abbrev pub dot_dot : List ℕ
dot_dot = b'.' ∷ b'.' ∷ []

-- The entry behind the last one, up to the end of the buffer.
unfoldable pub close_directory : ℕ → DirData → Run DirData
close_directory len w =
    if ltb w.size (w.offset + 8)
    then fault
    else (let end : DirEntry = record {
      at = w.offset;
      inode = 0;
      rec_len = u32 (len + 2 ^ 32 - w.offset) % 2 ^ 16;
      name_len = 0;
      file_type = 0;
      name = [];
    } in
        done (record w { dentries = end ∷ w.dentries }))

-- the entries "." and ".." in an empty buffer of `len` bytes
unfoldable pub start_directory : ℕ → ℕ → ℕ → ℕ → Run DirData
start_directory block_size len inode_num dir_inode_num =
    let empty : DirData = record { size = len; dentries = []; offset = 0 } in
    add_dentry block_size empty inode_num dot ft_dir >>= λ w.
    add_dentry block_size w dir_inode_num dot_dot ft_dir

-- The entries of `make_directory` in a buffer of `len` bytes.
unfoldable pub fill_directory : ℕ → ℕ → ℕ → ℕ → List Dentry → Run DirData
fill_directory block_size len inode_num dir_inode_num dentries =
    start_directory block_size len inode_num dir_inode_num >>= λ w.
    add_dentries block_size len w dentries >>= close_directory len

-- `blocks * info.block_size`, the length of the buffer
abbrev pub directory_len : ℕ → List Dentry → ℕ
directory_len block_size dentries =
    u32 (div_round_up 32 (dentry_size block_size dentries) block_size * block_size)
