-- ===== src/Queue/Each.antt =====
-- `for_each_data_block` on a queue whose entries do not overlap.
use android_tools.Common.{
  ℕ, zero, suc, ◌+◌, ◌-◌, ◌*◌, ◌/◌, ◌%◌, ◌^◌, ◌≤◌, ◌<◌, ◌≡◌, refl, ap, sym, ◌∙◌, arith, Bool, false,
  List, [], ◌∷◌, Option, some, ltb, get_elem?, length, map, length-map, done, ◌>>=◌, ◌==◌,
}
use native.Mathlib.Nat.{mul-le-mul}
use android_tools.Fs.{FsInfo, div_round_up}
use android_tools.Queue.{
  DataBlock, Heap, Queue, node_at, Call, call, calls_from, for_each_data_block,
}
use android_tools.Queue.Chain.{Chain, Entry, entry_of, held}
use android_tools.Queue.Order.{Holds}

-- the blocks that an entry takes up
abbrev pub blocks_of : ℕ → Entry → ℕ
blocks_of size e = (e.1 + size - 1) / size

-- No number of an entry exceeds 32 bits.
abbrev pub IsSmall : ℕ → Entry → Type 0
IsSmall size e = (0 < blocks_of size e) × (e.1 + size < 2 ^ 32) × (e.0 + blocks_of size e < 2 ^ 32)

-- The entries follow one another from block `start` on, and none overlaps the next.
abbrev pub Apart : ℕ → ℕ → List Entry → Type 0
Apart size start [] = Unit {0}
Apart size start (e ∷ es) = (start ≤ e.0) × IsSmall size e × Apart size (e.0 + blocks_of size e) es

-- the call for an entry
abbrev pub call_of : ℕ → Entry → Call
call_of size e = call (e.0 * size) e.2 e.1

module _ (force : Bool) (size : ℕ) (pos : 0 < size) (small : size < 2 ^ 32) where
  calls_step :
      (fuel : ℕ) (h : Heap) (a last : ℕ) {d : DataBlock}
      → get_elem? h a ≡ some d
      → last ≤ d.block
      → IsSmall size (d.block, d.len, d.source)
      → calls_from force size (suc fuel) h (some a) last ≡ (
          calls_from force size fuel h d.next
            (d.block + blocks_of size (d.block, d.len, d.source) - 1)
          >>= λ rest. done (call (d.block * size) d.source d.len ∷ rest))
  unfolding calls_from
  calls_step fuel h a last {d} at le (some_blocks, len_small, end_small) =
      let blocks = (d.len + size - 1) / size in
      let in_order : ltb d.block last ≡ false = ground arith in
      let divides : (size == 0) ≡ false = ground arith in
      let sum : ((d.len + size) % 2 ^ 32 + 2 ^ 32 - 1) % 2 ^ 32 ≡ d.len + size - 1 = omega arith in
      let count : div_round_up 32 d.len size ≡ blocks = ap (λ (t : ℕ). t / size) sum in
      let end : (d.block + blocks + 2 ^ 32 - 1) % 2 ^ 32 ≡ d.block + blocks - 1 = omega arith in
      let most : d.block * size ≤ (2 ^ 32 - 1) * (2 ^ 32 - 1) =
        mul-le-mul {n₂ = 2 ^ 32 - 1} {m₂ = 2 ^ 32 - 1} (omega arith) (omega arith) in
      let offset : d.block * size % 2 ^ 64 ≡ d.block * size = omega (arith, most) in
      rw (at, node_at) (rw (in_order, divides, count, end, offset) refl)

  calls_from-Apart :
      (fuel : ℕ) (h : Heap) (p : Option ℕ) (xs : List ℕ) (last start : ℕ)
      → last ≤ start
      → Chain h p xs
      → length xs ≤ fuel
      → Apart size start (map (entry_of h) xs)
      → calls_from force size fuel h p last ≡ done (map (call_of size) (map (entry_of h) xs))
  calls_from-Apart fuel h p [] last start le e few apart = rw e (unfold calls_from in refl)
  calls_from-Apart zero h p (a ∷ xs) last start le c few apart = absurd (omega arith)
  calls_from-Apart (suc fuel) h p (a ∷ xs) last start le (e, d, at, out, c) few
        (from, fits, apart) =
      let is : entry_of h a ≡ (d.block, d.len, d.source) = ap held at in
      let end : ℕ = d.block + blocks_of size (d.block, d.len, d.source) in
      let rest =
        calls_from-Apart fuel h d.next xs (end - 1) end (omega arith) c (omega arith)
          (rw is at apart) in
      rw e (
        calls_step fuel h a last at (let block = ap (λ (e : Entry). e.0) is in omega (arith, block))
          (rw is at fits)
        ∙ (rw (rest, ◌>>=◌) (rw is refl)))

-- On a queue that holds entries which follow one another without overlap and whose numbers fit 32
-- bits, with a block size that is not zero and fuel for all entries, `for_each_data_block` reports
-- nothing and returns, with `force` or without: it makes one call for each entry, in their order,
-- at the byte where the entry's first block begins.
pub for_each_data_block-Apart :
    (force : Bool) (info : FsInfo) (fuel : ℕ) (q : Queue) (es : List Entry)
    → 0 < info.block_size
    → info.block_size < 2 ^ 32
    → Holds q es
    → length es ≤ fuel
    → Apart info.block_size 0 es
    → for_each_data_block force info fuel q ≡ done (map (call_of info.block_size) es)
unfolding for_each_data_block
for_each_data_block-Apart force info fuel q es pos small v few apart =
    let count : length v.addresses ≡ length es =
      sym (length-map v.addresses (entry_of q.heap)) ∙ ap length v.view in
    let view = v.view in
    let back = sym view in
    calls_from-Apart force info.block_size pos small fuel q.heap q.data_blocks v.addresses 0 0
      (omega arith) v.valid.chain (omega arith) (rw back at apart)
    ∙ ap (λ es. done (map (call_of info.block_size) es)) view
