-- ===== src/Tests/Output.antt =====
-- Runs of the output file and of simg2img, and their theorems at small images.
use android_tools.Common.{
  Bool, ◌*◌, ◌≡◌, refl, arith, true, false, List, [], ◌∷◌, ◌++◌, some, replicate, done, exited,
}
use android_tools.Fs.{FsInfo}
use android_tools.Tests.{info, queue, queued, queue-Holds}
use android_tools.Crc.{sparse_crc32, crc_loop, crc_step, crc32_tab}
use android_tools.Sparse.{sparse_header_bytes, chunk_header_bytes}
use android_tools.Sparse.Image.{Image}
use android_tools.Sparse.Items.{Item, skip, raw, expand_all}
use android_tools.Sparse.Output.{OutputFile, write_data_block, write_chunk_raw, pad_output_file}
use android_tools.Sparse.Output.Plain.{pad_output_file-plain}
use android_tools.Sparse.Output.Errors.{IsChecked, Succeeds, watched, write_chunk_raw-IsChecked}
use android_tools.Sparse.Output.Reliable.{memory_file, memory_file-IsReliable}
use android_tools.Sparse.Output.Written.{IsSize}
use android_tools.Sparse.Output.Stage.{Stage, IsLength, write_data_block-Stage}
use android_tools.Sparse.RoundTrip.{sparse_file, Fills, simg2img-sparse_file}
use android_tools.Sparse.Expand.{simg2img}
use android_tools.Sparse.Expand.Copy.{memory_stdio, memory_stdio-IsReliableStdio}
use android_tools.Writer.{Contents, AuxData, write_ext4_image, first_block}
use android_tools.Writer.Layout.{image_from}
use android_tools.Writer.RoundTrip.{parts, Ready, write_ext4_image-Fills, write_ext4_image-simg2img}

abbrev info_2048 : FsInfo
info_2048 = record info { len = 12 * 2048; block_size = 2048 }

size_2048 : IsSize 2048
size_2048 = record {
  high = 21;
  low = 11;
  split = refl;
  power = refl;
  some_bytes = omega arith;
  at_most = omega arith;
}

length_12 : IsLength memory_file-IsReliable true info_2048 size_2048 12
length_12 = record { len = refl; fits = omega arith }

abbrev data_of : Contents
data_of = record {
  in_memory = λ ptr len. replicate len 170;
  in_file = λ name from len. some (replicate len 85);
}

abbrev aux : AuxData
aux = record { first_data_block = 0; sb = replicate 1024 83; bg_desc = replicate 2048 68 }

abbrev empty : Image
empty = record { contents = []; pos = 0 }

ready :
    Ready memory_file-IsReliable true info_2048 size_2048 data_of 12 length_12 aux 2 queue queued
unfolding first_block
ready = record {
  least = omega arith;
  most = omega arith;
  super = record {
    behind = omega arith;
    inside = omega arith;
    some_bytes = omega arith;
    fits = omega arith;
  };
  descriptors = record {
    behind = omega arith;
    inside = omega arith;
    some_bytes = omega arith;
    fits = omega arith;
  };
  holds = queue-Holds;
  apart = (
    omega arith,
    (omega arith, omega arith, omega arith),
    (omega arith, (omega arith, omega arith, omega arith), tt),
  );
  enough_fuel = omega arith;
  supplied = (
    (replicate 8 85, refl, refl, omega arith, omega arith),
    record {
      behind = omega arith;
      inside = omega arith;
      some_bytes = omega arith;
      fits = omega arith;
    },
    (
      refl,
      record {
        behind = omega arith;
        inside = omega arith;
        some_bytes = omega arith;
        fits = omega arith;
      },
      omega arith,
    ),
  );
}

write_ext4_image-Fills_example :
    (f : Image) × (items : List Item) × (write_ext4_image memory_file true info_2048 data_of
        (some empty)
        true
        aux
        2
        queue
      ≡ done (some f))
    × (f.contents ≡ sparse_file info_2048 items)
    × Fills info_2048 items
    × (expand_all 2048 items ≡ image_from 2048 12 0 (parts info_2048 data_of aux queued))
write_ext4_image-Fills_example =
    write_ext4_image-Fills memory_file-IsReliable true info_2048 size_2048 data_of 12 length_12 aux
      2 queue queued empty ready refl

write_ext4_image-simg2img_example :
    (f : Image) × (o : Image) × (write_ext4_image memory_file true info_2048 data_of
        (some empty)
        true
        aux
        2
        queue
      ≡ done (some f))
    × (simg2img memory_stdio (λ n. replicate n 0) f.contents empty ≡ done o)
    × (o.contents ≡ image_from 2048 12 0 (parts info_2048 data_of aux queued))
write_ext4_image-simg2img_example =
    write_ext4_image-simg2img memory_file-IsReliable true info_2048 size_2048 data_of 12 length_12
      memory_stdio-IsReliableStdio (λ n. replicate n 0) (λ f. f.contents) empty aux 2 queue queued
      empty ready refl (λ f. refl) refl refl

-- Four bytes a block: one raw block, two that are skipped, and two raw ones.
abbrev info_4 : FsInfo
info_4 = record info { len = 20; block_size = 4 }

size_4 : IsSize 4
size_4 = record {
  high = 30;
  low = 2;
  split = refl;
  power = refl;
  some_bytes = omega arith;
  at_most = omega arith;
}

abbrev chunks : List Item
chunks = raw (1 ∷ 2 ∷ 3 ∷ 4 ∷ []) ∷ skip 2 ∷ raw (5 ∷ 6 ∷ 7 ∷ 8 ∷ 9 ∷ 10 ∷ 11 ∷ 12 ∷ []) ∷ []

chunks-Fills : Fills info_4 chunks
chunks-Fills = record {
  items_fit = ((refl, omega arith), (omega arith, ((refl, omega arith), tt)));
  all = refl;
  blocks_fit = omega arith;
  count_fits = omega arith;
}

simg2img-sparse_file_example :
    (o : Image) × (simg2img memory_stdio (λ n. replicate n 0) (sparse_file info_4 chunks) empty
      ≡ done o)
    × (o.contents ≡ expand_all 4 chunks)
simg2img-sparse_file_example =
    simg2img-sparse_file memory_stdio-IsReliableStdio info_4 chunks (λ n. replicate n 0)
      (sparse_file info_4 chunks) empty size_4 chunks-Fills refl refl refl

-- An open sparse file, and one that is not sparse, with ten bytes written.
abbrev opened : OutputFile Image
opened = record {
  fd = record { contents = replicate 28 0; pos = 28 };
  sparse = true;
  cur_out_ptr = 0;
  chunk_cnt = 0;
  crc32 = 0;
}

abbrev plain : OutputFile Image
plain = record {
  fd = record { contents = replicate 20 7; pos = 20 };
  sparse = false;
  cur_out_ptr = 0;
  chunk_cnt = 0;
  crc32 = 0;
}

length_5 : IsLength memory_file-IsReliable true info_4 size_4 5
length_5 = record { len = refl; fits = omega arith }

opened-Stage : Stage memory_file-IsReliable true info_4 size_4 opened [] 0
opened-Stage = record {
  items = [];
  written = record {
    head = replicate 28 0;
    head_len = refl;
    at_end = record { contents = refl; place = refl };
    ptr = refl;
    count = refl;
    crc = unfold sparse_crc32 crc_loop in refl;
    flag = refl;
    items_fit = tt;
  };
  expands = refl;
  counts = refl;
  few = omega arith;
}

write_data_block-Stage_example :
    (out : OutputFile Image) × (write_data_block memory_file true info_4 opened
        (2 * 4)
        (1 ∷ 2 ∷ 3 ∷ [])
      ≡ done out)
    × Stage memory_file-IsReliable true info_4 size_4 out (replicate 8 0 ++ (1 ∷ 2 ∷ 3 ∷ 0 ∷ [])) 3
write_data_block-Stage_example =
    write_data_block-Stage memory_file-IsReliable true info_4 size_4 opened [] 0 5 2
      (1 ∷ 2 ∷ 3 ∷ []) opened-Stage length_5
      (record {
        behind = omega arith;
        inside = omega arith;
        some_bytes = omega arith;
        fits = omega arith;
      })

abbrev watched_file : OutputFile (Image × Bool)
watched_file = record {
  fd = (opened.fd, false);
  sparse = true;
  cur_out_ptr = 0;
  chunk_cnt = 0;
  crc32 = 0;
}

write_chunk_raw-IsChecked_example :
    IsChecked Succeeds
      (write_chunk_raw (watched memory_file) false info_4 watched_file 8 (1 ∷ 2 ∷ []))
write_chunk_raw-IsChecked_example =
    write_chunk_raw-IsChecked memory_file info_4 size_4 watched_file 8 (1 ∷ 2 ∷ []) (omega arith)
      refl

pad_output_file-plain_example :
    (out : OutputFile Image) × (pad_output_file memory_file true info_4 plain 20 ≡ done out)
    × (out.fd.contents ≡ replicate 19 7 ++ (0 ∷ []))
pad_output_file-plain_example =
    pad_output_file-plain memory_file-IsReliable true info_4 plain refl (omega arith) (omega arith)
      (omega arith)

-- Where `malloc` finds bytes that are not zero, the checksum of an image with a skip is refused.
uncleared_zerobuf :
    simg2img memory_stdio (λ n. replicate n 1) (sparse_file info_4 chunks) empty ≡ exited
unfolding simg2img sparse_header_bytes chunk_header_bytes sparse_crc32 crc_loop crc_step crc32_tab
uncleared_zerobuf = refl
