-- ===== src/Queue.antt =====
-- The queue of data to write, img-db/ext4_utils/backed_block.c: a linked list in the order of the
-- blocks, with a pointer to the node that was added last.
pub mod Chain
pub mod Insert
pub mod Order
pub mod Add
pub mod Each
pub mod Checked
use android_tools.Fs.{FsInfo, div_round_up}
use android_tools.Common.{
  ◌-◌, ◌*◌, ◌%◌, ◌^◌, ◌==◌, ◌>>◌, error, ℕ, zero, suc, ◌+◌, Bool, true, false, List, [], ◌∷◌, ◌++◌,
  Option, none, some, ltb, if◌then◌else◌, get_elem?, set, length, Run, done, fault, out_of_fuel,
  ◌>>=◌,
}

-- What is to be written: `data`, a pointer to memory, or `filename` and `offset`.
pub data Source : Type 0 where
  memory : ℕ → Source
  file : List ℕ → ℕ → Source

-- `struct data_block`; `next` is the address of a node, and `none` is NULL.
pub record DataBlock : Type 0 where
  pub block : ℕ
  pub len : ℕ
  pub source : Source
  pub next : Option ℕ

-- The nodes of the program, by address, and the two static variables.
abbrev pub Heap : Type 0
Heap = List DataBlock

pub record Queue : Type 0 where
  pub heap : Heap
  pub data_blocks : Option ℕ
  pub last_used : Option ℕ

abbrev pub node_at {ℓ} : {A : Type ℓ} → Heap → ℕ → (DataBlock → Run A) → Run A
node_at h a k = elim (get_elem? h a) [ none ↦ fault | some d ↦ k d ]

-- `for (; db->next && db->next->block < new_db->block; db = db->next)`
unfoldable pub walk : ℕ → Heap → ℕ → ℕ → Run ℕ
walk zero h b db = out_of_fuel
walk (suc fuel) h b db = node_at h db λ d. elim d.next [
  | none ↦ done db
  | some next ↦
      node_at h next λ e. elim (ltb e.block b) [ true ↦ walk fuel h b next | false ↦ done db ]
]

-- the insertion after `db`, at the end of `queue_db`
unfoldable pub link : Heap → ℕ → ℕ → Run Heap
link h db new = node_at h db λ d. elim d.next [
  | none ↦ done (set h db (record d { next = some new }))
  | some next ↦
      node_at h new λ n.
        done (set (set h new (record n { next = some next })) db (record d { next = some new }))
]

-- where the search of `queue_db` starts
unfoldable pub start_at : Heap → ℕ → Option ℕ → ℕ → Run ℕ
start_at h b none head = done head
start_at h b (some l) head = node_at h l λ d. if ltb d.block b then done l else done head

-- `queue_db`, with `new` the address of the node and fuel for its loop
unfoldable pub queue_db : ℕ → Queue → ℕ → Run Queue
unfolding walk link start_at
queue_db fuel q new = elim q.data_blocks [
  | none ↦ done (record q { data_blocks = some new })
  | some head ↦ node_at q.heap head λ d. node_at q.heap new λ n. elim (ltb n.block d.block) [
    | true ↦
        done (record q {
          heap = set q.heap new (record n { next = some head });
          data_blocks = some new;
        })
    | false ↦ start_at q.heap n.block q.last_used head >>= λ db.
        walk fuel q.heap n.block db >>= λ db.
        link q.heap db new >>= λ h. done (record q { heap = h; last_used = some new })
  ]
]

-- `queue_data_block` and `queue_data_file`: the node is made at the next address.
unfoldable pub queue_data : ℕ → Queue → Source → ℕ → ℕ → Run Queue
unfolding queue_db
queue_data fuel q source len block =
    let node : DataBlock = record { block = block; len = len; source = source; next = none } in
    queue_db fuel (record q { heap = q.heap ++ (node ∷ []) }) (length q.heap)

abbrev pub queue_data_block : ℕ → Queue → ℕ → ℕ → ℕ → Run Queue
queue_data_block fuel q ptr len block = queue_data fuel q (memory ptr) len block

abbrev pub queue_data_file : ℕ → Queue → List ℕ → ℕ → ℕ → ℕ → Run Queue
queue_data_file fuel q filename offset len block =
    queue_data fuel q (file filename offset) len block

-- A call of `data_func` or of `file_func`: the offset in the image, what is written, and its length.
pub data Call : Type 0 where
  call : ℕ → Source → ℕ → Call

-- The loop of `for_each_data_block` with the calls it makes; a division by zero is a fault.
unfoldable pub calls_from : Bool → ℕ → ℕ → Heap → Option ℕ → ℕ → Run (List Call)
calls_from force block_size fuel h none last_block = done []
calls_from force block_size zero h (some a) last_block = out_of_fuel
calls_from force block_size (suc fuel) h (some a) last_block = node_at h a λ d.
    (if ltb d.block last_block then error force else done tt)
    >> (if block_size == 0
        then fault
        else (calls_from force block_size fuel h d.next
              ((d.block + div_round_up 32 d.len block_size + 2 ^ 32 - 1) % 2 ^ 32)
            >>= λ rest. done (call (d.block * block_size % 2 ^ 64) d.source d.len ∷ rest)))

unfoldable pub for_each_data_block : Bool → FsInfo → ℕ → Queue → Run (List Call)
unfolding calls_from
for_each_data_block force info fuel q = calls_from force info.block_size fuel q.heap q.data_blocks 0

-- `free_data_blocks`, but for the freeing of the nodes: the queue is empty.
unfoldable pub free_data_blocks : Queue → Queue
free_data_blocks q = elim q.data_blocks [
  | none ↦ q
  | some a ↦ record q { data_blocks = none; last_used = none }
]
