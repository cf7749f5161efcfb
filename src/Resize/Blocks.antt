-- ===== src/Resize/Blocks.antt =====
-- The blocks of regions of the same length, and the list of one region that is appended.
use android_tools.Common.{
  ℕ, zero, suc, ◌+◌, ◌-◌, ◌*◌, ◌≤◌, ◌<◌, ◌≡◌, refl, ap, ◌∙◌, arith, Bool, List, [], ◌∷◌, ◌++◌,
  Option, none, some, map, set, get_elem?, get_or, length, length-append, done, ◌>>=◌,
}
use android_tools.Group.{ok}
use android_tools.Alloc.{Groups, Region, do_allocate}
use android_tools.Regions.{
  Node, Heap, at_node, Allocation, RegionList, empty_list, region_list_append, append_each,
  append_oob_allocation,
}
use android_tools.Regions.Chain.{
  Chain, blocks_of, range, length-range, get_or-range, get_or-behind, get_elem?-append,
}

-- regions of the same length
abbrev pub regions_of : List ℕ → ℕ → List (ℕ × ℕ)
regions_of starts len = map (λ (s : ℕ). (s, len)) starts

pub get_or-regions_of :
    (starts : List ℕ) (len j r d : ℕ)
    → j < length starts
    → r < len
    → get_or (blocks_of (regions_of starts len)) (j * len + r) d ≡ get_or starts j 0 + r
get_or-regions_of [] len j r d few lt = absurd (omega arith)
get_or-regions_of (s ∷ starts) len zero r d few lt =
    ap (λ (t : ℕ). get_or (range s len ++ blocks_of (regions_of starts len)) t d) {x = 0 * len + r}
      {y = r} (omega arith)
    ∙ get_or-range s len r (blocks_of (regions_of starts len)) d lt
get_or-regions_of (s ∷ starts) len (suc j) r d few lt =
    get_or-behind s len (suc j * len + r) (blocks_of (regions_of starts len)) d (omega arith)
    ∙ ap (λ (t : ℕ). get_or (blocks_of (regions_of starts len)) t d) {x = suc j * len + r - len}
        {y = j * len + r} (omega arith)
    ∙ get_or-regions_of starts len j r d (omega arith) lt

pub length-regions_of :
    (starts : List ℕ) (len : ℕ) → length (blocks_of (regions_of starts len)) ≡ length starts * len
length-regions_of [] len = omega arith
length-regions_of (s ∷ starts) len = omega (
  arith,
  length-append (range s len) (blocks_of (regions_of starts len)),
  length-range s len,
  length-regions_of starts len,
)

set-append : (h : Heap) (n v : Node) → set (h ++ (n ∷ [])) (length h) v ≡ h ++ (v ∷ [])
set-append [] n v = refl
set-append (x ∷ h) n v = ap (λ t. x ∷ t) (set-append h n v)

get_elem?-front :
    (h more : Heap) (a : ℕ) {n : Node} → get_elem? h a ≡ some n → get_elem? (h ++ more) a ≡ some n
get_elem?-front [] more a e = cc
get_elem?-front (x ∷ h) more zero e = e
get_elem?-front (x ∷ h) more (suc a) e = get_elem?-front h more a e

pub Chain-front :
    (h more : Heap) (p : Option ℕ) (rs : List (ℕ × ℕ)) → Chain h p rs → Chain (h ++ more) p rs
Chain-front h more p [] e = e
Chain-front h more p (r ∷ rs) (a, n, e, at, block, len, c) =
    (a, n, e, get_elem?-front h more a at, block, len, Chain-front h more n.next rs c)

-- The node and the list of one region.
abbrev pub node_of : Region → Node
node_of reg = record { block = reg.block; len = reg.len; bg = reg.bg; next = none; prev = none }

abbrev pub only : ℕ → RegionList
only a = record { first = some a; last = some a; iter = some a; partial_iter = 0 }

-- `region_list_append` of the node at the end of the heap to an empty list
pub append_first :
    (h : Heap) (reg : Region)
    → region_list_append (h ++ (node_of reg ∷ [])) empty_list (length h)
      ≡ done (h ++ (node_of reg ∷ []), only (length h))
unfolding region_list_append
append_first h reg =
    let same = set-append h (node_of reg) (node_of reg) in
    rw (get_elem?-append h (node_of reg ∷ []), at_node) (rw same refl)

append_each-one :
    (fuel : ℕ) (h : Heap) (reg : Region)
    → append_each (suc fuel) (h ++ (node_of reg ∷ [])) empty_list (some (length h))
      ≡ done (h ++ (node_of reg ∷ []), only (length h))
unfolding append_each
append_each-one fuel h reg =
    rw (append_first h reg, ◌>>=◌) (rw (get_elem?-append h (node_of reg ∷ []), at_node) refl)

pub append_one :
    (force : Bool) (fuel : ℕ) (h : Heap) (alloc : Allocation) (reg : Region) (bgs bgs' : Groups)
    → do_allocate force fuel 1 bgs ≡ done (some (reg ∷ []), bgs')
    → 1 ≤ fuel
    → alloc.oob_list ≡ empty_list
    → append_oob_allocation force fuel h alloc 1 bgs
      ≡ done (ok, h ++ (node_of reg ∷ []), record alloc { oob_list = only (length h) }, bgs')
unfolding append_oob_allocation
append_one force zero h alloc reg bgs bgs' e room out = absurd (omega arith)
append_one force (suc fuel) h alloc reg bgs bgs' e room out =
    rw (e, ◌>>=◌) (rw out (rw (append_each-one fuel h reg, ◌>>=◌) refl))
