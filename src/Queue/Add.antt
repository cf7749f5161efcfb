-- ===== src/Queue/Add.antt =====
-- `queue_data_block` and `queue_data_file` of img-db/ext4_utils/backed_block.c as a whole.
use android_tools.Common.{
  ℕ, zero, suc, ◌≤◌, ◌<◌, ◌≡◌, ◌⊎◌, inl, inr, refl, ap, sym, ◌∙◌, arith, true, false, List, [], ◌∷◌,
  ◌++◌, Option, none, some, ltb, get_elem?, get_elem?-set_self, set, length, Run, done, exited,
  fault, out_of_fuel, ◌>>=◌, Bool-cases, map, length-map,
}
use android_tools.Queue.{
  Source, DataBlock, Heap, Queue, node_at, walk, link, start_at, queue_db, queue_data,
}
use android_tools.Queue.Chain.{
  NotIn, Chain, Agree, Agree-refl, Agree-set, Chain-Agree, Entry, held, entry_of, block_of,
  place_in, entry_of-set, in_heap, In,
}
use android_tools.Queue.Insert.{search_at}
use android_tools.Queue.Order.{
  insert_after, insert_entry, place, IsQueue, Holds, Sorted-place, Same-all, Same-Agree,
  Sorted-Same, view-Same,
}

Chain-In :
    (h : Heap) (p : Option ℕ) (xs : List ℕ) (l : ℕ)
    → Chain h p xs
    → In l xs
    → (d : DataBlock) × (get_elem? h l ≡ some d)
Chain-In h p [] l c i = absurd i
Chain-In h p (a ∷ xs) l (e, d, at, out, c) (inl same) = (d, rw same at)
Chain-In h p (a ∷ xs) l (e, d, at, out, c) (inr i) = Chain-In h d.next xs l c i

In-place_in : (h : Heap) (b new : ℕ) (xs : List ℕ) → In new (place_in h b new xs)
In-place_in h b new [] = inl refl
In-place_in h b new (y ∷ ys) = elim (Bool-cases (ltb (block_of h y) b)) [
  | inl lt ↦ rw lt (inr (In-place_in h b new ys))
  | inr ge ↦ rw ge (inl refl)
]

-- Where the search starts: at the head, or at a node whose block is below that of the new one.
start_at-lt :
    (h : Heap) (b a : ℕ) (last : Option ℕ) (xs : List ℕ)
    → Chain h (some a) (a ∷ xs)
    → (last ≡ none) ⊎ ((l : ℕ) × (last ≡ some l) × In l (a ∷ xs))
    → (l : ℕ) × (start_at h b last a ≡ done l) × In l (a ∷ xs) × (block_of h l < b ⊎ (l ≡ a))
unfolding start_at
start_at-lt h b a last xs c (inl e) = (a, rw e refl, inl refl, inr refl)
start_at-lt h b a last xs c (inr (l, e, i)) =
    let (d, at) = Chain-In h (some a) (a ∷ xs) l c i in
    elim (Bool-cases (ltb d.block b)) [
      | inl lt ↦ (
        l,
        rw e (rw (at, node_at) (rw lt refl)),
        i,
        inl (rw (at, block_of, entry_of) (ground arith)),
      )
      | inr ge ↦ (a, rw e (rw (at, node_at) (rw ge refl)), inl refl, inr refl)
    ]

module _ (fuel : ℕ) (q : Queue) (new a : ℕ) {d n : DataBlock} (head : q.data_blocks ≡ some a)
    (at : get_elem? q.heap a ≡ some d) (at_new : get_elem? q.heap new ≡ some n) where
  in_front :
      ltb n.block d.block ≡ true
      → queue_db fuel q new
        ≡ done (record q {
          heap = set q.heap new (record n { next = some a });
          data_blocks = some new;
        })
  unfolding queue_db
  in_front test = rw (head, queue_db) (rw (at, node_at) (rw (at_new, node_at) (rw test refl)))

  behind :
      (start : ℕ) (h' : Heap)
      → ltb n.block d.block ≡ false
      → start_at q.heap n.block q.last_used a ≡ done start
      → (walk fuel q.heap n.block start >>= λ db. link q.heap db new) ≡ done h'
      → queue_db fuel q new ≡ done (record q { heap = h'; last_used = some new })
  unfolding queue_db
  behind start h' test begin run =
      rw (head, queue_db)
        (rw (at, node_at)
          (rw (at_new, node_at)
            (rw test (rw (begin, ◌>>=◌) (go (walk fuel q.heap n.block start) run)))))
    where
      go :
          (r : Run ℕ)
          → (r >>= λ db. link q.heap db new) ≡ done h'
          → (r >>= λ db.
              link q.heap db new >>= λ h. done (record q { heap = h; last_used = some new }))
            ≡ done (record { heap = h'; data_blocks = some a; last_used = some new })
      go (done db) e = rw e (rw head refl)
      go exited e = cc
      go fault e = cc
      go out_of_fuel e = cc

-- `queue_db` with a node that is not in the list yet.
queue_db-IsQueue :
    (fuel : ℕ) (q : Queue) (xs : List ℕ) (new : ℕ) {n : DataBlock}
    → length xs ≤ fuel
    → IsQueue q xs
    → get_elem? q.heap new ≡ some n
    → n.next ≡ none
    → NotIn new xs
    → (q' : Queue) × (queue_db fuel q new ≡ done q')
      × IsQueue q' (place q.heap n.block new xs)
      × ((x : ℕ) → entry_of q'.heap x ≡ entry_of q.heap x)
queue_db-IsQueue fuel q [] new {n} small v at_new ends fresh = (
  record q { data_blocks = some new },
  (let empty = v.chain in unfold queue_db in rw empty refl),
  record {
    chain = (refl, n, at_new, tt, ends);
    sorted = (tt, tt);
    last = elim v.last [ inl e ↦ inl e | inr w ↦ absurd w.2 ];
  },
  λ x. refl,
)
queue_db-IsQueue fuel q (a ∷ xs) new {n} small v at_new ends fresh =
    let (head, d, at, out, c) = v.chain in
    let is_block : block_of q.heap new ≡ n.block = rw (at_new, block_of, entry_of) refl in
    let is_first : block_of q.heap a ≡ d.block = rw (at, block_of, entry_of) refl in
    let sorted = Sorted-place q.heap n.block new is_block (a ∷ xs) v.sorted in
    elim (Bool-cases (ltb n.block (block_of q.heap a))) [
      | inl lt ↦
          let n' : DataBlock = record n { next = some a } in
          let h' = set q.heap new n' in
          let same : (x : ℕ) → entry_of h' x ≡ entry_of q.heap x =
            λ x. entry_of-set q.heap new n n' x at_new refl in
          let agree = Agree-set q.heap q.heap new n' (a ∷ xs) fresh (Agree-refl q.heap (a ∷ xs)) in
          (
            record q { heap = h'; data_blocks = some new },
            in_front fuel q new a head at at_new (rw is_first at lt),
            record {
              chain = rw lt (
                refl,
                n',
                get_elem?-set_self q.heap new n' (in_heap q.heap new at_new),
                fresh,
                Chain-Agree q.heap h' (some a) (a ∷ xs) agree (refl, d, at, out, c),
              );
              sorted =
                  Sorted-Same q.heap h' (place q.heap n.block new (a ∷ xs))
                    (Same-all q.heap h' _ same) sorted;
              last = elim v.last [ inl e ↦ inl e | inr w ↦ inr (w.0, w.1, rw lt (inr w.2)) ];
            },
            same,
          )
      | inr ge ↦
          let (start, begin, i, below) =
            start_at-lt q.heap n.block a q.last_used xs (refl, d, at, out, c) v.last in
          let (h', run, c', keeps) =
            search_at n.block new fuel start q.heap a xs (omega arith) v.sorted i below
              (refl, d, at, out, c) at_new ends fresh in
          (
            record q { heap = h'; last_used = some new },
            behind fuel q new a head at at_new start h' (rw is_first at ge) begin run,
            record {
              chain = rw ge (rw head c');
              sorted =
                  Sorted-Same q.heap h' (place q.heap n.block new (a ∷ xs))
                    (Same-all q.heap h' _ keeps.same) sorted;
              last = inr (new, refl, rw ge (inr (In-place_in q.heap n.block new xs)));
            },
            keeps.same,
          )
    ]

-- Memory that is allocated is at a new address, and changes no node.
module _ (h : Heap) (n : DataBlock) where
  get_elem?-new : (g : Heap) → get_elem? (g ++ (n ∷ [])) (length g) ≡ some n
  get_elem?-new [] = refl
  get_elem?-new (d ∷ g) = get_elem?-new g

  get_elem?-old : (g : Heap) (x : ℕ) → x < length g → get_elem? (g ++ (n ∷ [])) x ≡ get_elem? g x
  get_elem?-old [] x lt = absurd (omega arith)
  get_elem?-old (d ∷ g) zero lt = refl
  get_elem?-old (d ∷ g) (suc x) lt = get_elem?-old g x (omega arith)

  Agree-new : (p : Option ℕ) (xs : List ℕ) → Chain h p xs → Agree h (h ++ (n ∷ [])) xs
  Agree-new p [] c = tt
  Agree-new p (a ∷ xs) (e, d, at, out, c) =
      (get_elem?-old h a (in_heap h a at), Agree-new d.next xs c)

  NotIn-new : (p : Option ℕ) (xs : List ℕ) → Chain h p xs → NotIn (length h) xs
  NotIn-new p [] c = tt
  NotIn-new p (a ∷ xs) (e, d, at, out, c) =
      ((λ same. let lt = in_heap h a at in omega (arith, lt)), NotIn-new d.next xs c)

-- The places on the heap are those of the insertion of entries.
module _ (h : Heap) (b new : ℕ) (len : ℕ) (source : Source)
    (is : entry_of h new ≡ (b, len, source)) where
  view-place_in :
      (xs : List ℕ)
      → map (entry_of h) (place_in h b new xs) ≡ insert_after (b, len, source) (map (entry_of h) xs)
  view-place_in [] = ap (λ x. x ∷ []) is
  view-place_in (y ∷ ys) = elim (Bool-cases (ltb (block_of h y) b)) [
    | inl lt ↦ rw lt (ap (λ x. entry_of h y ∷ x) (view-place_in ys))
    | inr ge ↦ rw ge (ap (λ x. x ∷ entry_of h y ∷ map (entry_of h) ys) is)
  ]

  view-place :
      (xs : List ℕ)
      → map (entry_of h) (place h b new xs) ≡ insert_entry (b, len, source) (map (entry_of h) xs)
  view-place [] = ap (λ x. x ∷ []) is
  view-place (y ∷ ys) = elim (Bool-cases (ltb b (block_of h y))) [
    | inl lt ↦ rw lt (ap (λ x. x ∷ entry_of h y ∷ map (entry_of h) ys) is)
    | inr ge ↦ rw ge (ap (λ x. entry_of h y ∷ x) (view-place_in ys))
  ]

-- A queue that holds entries in the order of their blocks, and fuel for as many: `queue_data_block`
-- and `queue_data_file` return, and the queue then holds these entries with the new one inserted,
-- wherever the search starts: before the first entry if it is below it, and else after the first,
-- before the next that is not below it.
pub queue_data-Holds :
    (fuel : ℕ) (q : Queue) (source : Source) (len block : ℕ) (es : List Entry)
    → Holds q es
    → length es ≤ fuel
    → (q' : Queue) × (queue_data fuel q source len block ≡ done q')
      × Holds q' (insert_entry (block, len, source) es)
unfolding queue_data
queue_data-Holds fuel q source len block es v small =
    let n : DataBlock = record { block = block; len = len; source = source; next = none } in
    let xs = v.addresses in
    let h = q.heap ++ (n ∷ []) in
    let new = length q.heap in
    let agree = Agree-new q.heap n q.data_blocks xs v.valid.chain in
    let same = Same-Agree q.heap h xs agree in
    let count : length xs ≡ length es = sym (length-map xs (entry_of q.heap)) ∙ ap length v.view in
    let ready : IsQueue (record q { heap = h }) xs = record {
      chain = Chain-Agree q.heap h q.data_blocks xs agree v.valid.chain;
      sorted = Sorted-Same q.heap h xs same v.valid.sorted;
      last = v.valid.last;
    } in
    let at_new = get_elem?-new q.heap n q.heap in
    let (q', run, v', keeps) =
      queue_db-IsQueue fuel (record q { heap = h }) xs new (omega arith) ready at_new refl
        (NotIn-new q.heap n q.data_blocks xs v.valid.chain) in
    (
      q',
      run,
      record {
        addresses = place h block new xs;
        valid = v';
        view =
            view-Same h q'.heap (place h block new xs) (Same-all h q'.heap _ keeps)
            ∙ view-place h block new len source (ap held at_new) xs
            ∙ ap (insert_entry (block, len, source)) (view-Same q.heap h xs same ∙ v.view);
      },
    )
