-- ===== src/Queue/Checked.antt =====
-- `for_each_data_block` on any queue: where its check for the order of the blocks reports.
use android_tools.Common.{
  ℕ, zero, suc, ◌+◌, ◌-◌, ◌*◌, ◌/◌, ◌%◌, ◌^◌, ◌≤◌, ◌<◌, ◌≡◌, ◌⊎◌, inl, inr, refl, ap, sym, ◌∙◌,
  arith, Bool, true, false, List, [], ◌∷◌, Option, some, ltb, get_elem?, length, map, length-map,
  Run, done, ◌>>=◌, ◌>>◌, ◌==◌, error, if◌then◌else◌,
}
use native.Mathlib.Decide.{dec_lt}
use native.Mathlib.Nat.{mul-le-mul}
use android_tools.Fs.{FsInfo, div_round_up}
use android_tools.Queue.{
  DataBlock, Heap, Queue, node_at, Call, call, calls_from, for_each_data_block,
}
use android_tools.Queue.Chain.{Chain, Entry, entry_of, held}
use android_tools.Queue.Order.{Holds}
use android_tools.Queue.Each.{blocks_of, call_of}

-- The numbers of an entry fit 32 bits, and an empty one is not at block 0.
abbrev pub Fits : ℕ → Entry → Type 0
Fits size e =
    (0 < e.0 + blocks_of size e) × (e.1 + size < 2 ^ 32) × (e.0 + blocks_of size e < 2 ^ 32)

abbrev pub AllFit : ℕ → List Entry → Type 0
AllFit size [] = Unit {0}
AllFit size (e ∷ es) = Fits size e × AllFit size es

-- No entry begins before the last block of the one before it, which for the first is `last`.
abbrev pub InOrder : ℕ → ℕ → List Entry → Type 0
InOrder size last [] = Unit {0}
InOrder size last (e ∷ es) = (last ≤ e.0) × InOrder size (e.0 + blocks_of size e - 1) es

-- The calls for all entries, behind an error if these are not in order.
abbrev pub Checked : Bool → ℕ → ℕ → List Entry → Run (List Call) → Type 0
Checked force size last es r =
    (InOrder size last es × (r ≡ done (map (call_of size) es)))
    ⊎ ((¬ InOrder size last es) × (r ≡ (error force >> done (map (call_of size) es))))

-- a call in front of the others, behind their error
after_error :
    {A B : Type 0} (force : Bool) (a : A) (f : A → B)
    → ((error force >> done a) >>= λ x. done (f x)) ≡ (error force >> done (f a))
after_error true a f = refl
after_error false a f = refl

-- an error of its own in front of theirs
error_twice :
    {A : Type 0} (force : Bool) (a : A)
    → (error force >> (error force >> done a)) ≡ (error force >> done a)
error_twice true a = refl
error_twice false a = refl

module _ (force : Bool) (size : ℕ) (pos : 0 < size) (small : size < 2 ^ 32) where
  checked_step :
      (fuel : ℕ) (h : Heap) (a last : ℕ) {d : DataBlock}
      → get_elem? h a ≡ some d
      → Fits size (d.block, d.len, d.source)
      → calls_from force size (suc fuel) h (some a) last ≡ (
          (if ltb d.block last then error force else done tt)
          >> (calls_from force size fuel h d.next
                (d.block + blocks_of size (d.block, d.len, d.source) - 1)
              >>= λ rest. done (call (d.block * size) d.source d.len ∷ rest)))
  unfolding calls_from
  checked_step fuel h a last {d} at (some_end, len_small, end_small) =
      let blocks = (d.len + size - 1) / size in
      let divides : (size == 0) ≡ false = ground arith in
      let sum : ((d.len + size) % 2 ^ 32 + 2 ^ 32 - 1) % 2 ^ 32 ≡ d.len + size - 1 = omega arith in
      let count : div_round_up 32 d.len size ≡ blocks = ap (λ (t : ℕ). t / size) sum in
      let end : (d.block + blocks + 2 ^ 32 - 1) % 2 ^ 32 ≡ d.block + blocks - 1 = omega arith in
      let most : d.block * size ≤ (2 ^ 32 - 1) * (2 ^ 32 - 1) =
        mul-le-mul {n₂ = 2 ^ 32 - 1} {m₂ = 2 ^ 32 - 1} (omega arith) (omega arith) in
      let offset : d.block * size % 2 ^ 64 ≡ d.block * size = omega (arith, most) in
      rw (at, node_at) (rw (divides, count, end, offset) refl)

  -- from the run behind an entry to the run with it
  Checked-cons :
      (last : ℕ) (e : Entry) (es : List Entry) (r : Run (List Call))
      → Checked force size (e.0 + blocks_of size e - 1) es r
      → Checked force size last (e ∷ es) (
          (if ltb e.0 last then error force else done tt)
          >> (r >>= λ rest. done (call_of size e ∷ rest)))
  Checked-cons last e es r next = elim (dec_lt e.0 last) [
    | yes before ↦
        let test : ltb e.0 last ≡ true = ground arith in
        rw test (
          inr (
            (λ v. absurd (omega (arith, v.0))),
            elim next [
              | inl v ↦ ap (λ m. error force >> (m >>= λ rest. done (call_of size e ∷ rest))) v.1
              | inr v ↦
                  ap (λ m. error force >> (m >>= λ rest. done (call_of size e ∷ rest))) v.1
                  ∙ ap (λ m. error force >> m)
                      (after_error force (map (call_of size) es) (λ rest. call_of size e ∷ rest))
                  ∙ error_twice force (map (call_of size) (e ∷ es))
            ],
          ))
    | no behind ↦
        let test : ltb e.0 last ≡ false = ground arith in
        rw test (elim next [
          | inl v ↦
              inl ((omega arith, v.0), ap (λ m. m >>= λ rest. done (call_of size e ∷ rest)) v.1)
          | inr v ↦ inr (
            (λ w. v.0 w.1),
            ap (λ m. m >>= λ rest. done (call_of size e ∷ rest)) v.1
                ∙ after_error force (map (call_of size) es) (λ rest. call_of size e ∷ rest),
          )
        ])
  ]

  calls_from-Checked :
      (fuel : ℕ) (h : Heap) (p : Option ℕ) (xs : List ℕ) (last : ℕ)
      → Chain h p xs
      → length xs ≤ fuel
      → AllFit size (map (entry_of h) xs)
      → Checked force size last (map (entry_of h) xs) (calls_from force size fuel h p last)
  calls_from-Checked fuel h p [] last e few fit = rw e (inl (tt, unfold calls_from in refl))
  calls_from-Checked zero h p (a ∷ xs) last c few fit = absurd (omega arith)
  calls_from-Checked (suc fuel) h p (a ∷ xs) last (e, d, at, out, c) few (fits, fit) =
      let is : entry_of h a ≡ (d.block, d.len, d.source) = ap held at in
      let rest =
        calls_from-Checked fuel h d.next xs
          (d.block + blocks_of size (d.block, d.len, d.source) - 1) c (omega arith) fit in
      rw (e, is, checked_step fuel h a last at (rw is at fits))
        (Checked-cons last (d.block, d.len, d.source) (map (entry_of h) xs) _ rest)

-- On a queue that holds entries whose numbers fit 32 bits, an empty one among them not at block 0,
-- with a block size that is not zero and fits 32 bits, and fuel for all entries. If no entry begins
-- before the last block of the one before it, which for the first is block 0, `for_each_data_block`
-- returns and reports nothing. Otherwise it reports an error, with which it exits unless `force` is
-- set, and then returns. Where it returns, it has made one call for each entry, in their order, at
-- the byte where the entry's first block begins.
pub for_each_data_block-Checked :
    (force : Bool) (info : FsInfo) (fuel : ℕ) (q : Queue) (es : List Entry)
    → 0 < info.block_size
    → info.block_size < 2 ^ 32
    → Holds q es
    → length es ≤ fuel
    → AllFit info.block_size es
    → Checked force info.block_size 0 es (for_each_data_block force info fuel q)
unfolding for_each_data_block
for_each_data_block-Checked force info fuel q es pos small v few fit =
    let count : length v.addresses ≡ length es =
      sym (length-map v.addresses (entry_of q.heap)) ∙ ap length v.view in
    let back = sym v.view in
    rw v.view at (
      calls_from-Checked force info.block_size pos small fuel q.heap q.data_blocks v.addresses 0
        v.valid.chain (omega arith) (rw back at fit))
