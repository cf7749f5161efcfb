-- ===== src/Queue/Insert.antt =====
-- The loop of `queue_db` and the insertion after it, on the heap.
use android_tools.Common.{
  ℕ, zero, suc, ◌<◌, ◌≡◌, ◌≢◌, ◌⊎◌, inl, inr, refl, sym, ◌∙◌, arith, true, false, List, [], ◌∷◌,
  none, some, ltb, get_elem?, get_elem?-set_ne, get_elem?-set_self, set, length, Run, done, ◌>>=◌,
  Bool-cases,
}
use android_tools.Queue.{DataBlock, Heap, node_at, walk, link}
use android_tools.Queue.Chain.{
  NotIn, Chain, Agree, Agree-refl, Agree-set, Chain-Agree, entry_of, block_of, place_in, Keeps,
  entry_of-set, in_heap, Sorted, In, In-Sorted,
}

module _ (b new : ℕ) where
  abbrev search : ℕ → Heap → ℕ → Run Heap
  search fuel h a = walk fuel h b a >>= λ d. link h d new

  at_end :
      (fuel : ℕ) (h : Heap) (a : ℕ) {d : DataBlock}
      → get_elem? h a ≡ some d
      → d.next ≡ none
      → search (suc fuel) h a ≡ done (set h a (record d { next = some new }))
  unfolding walk link
  at_end fuel h a {d} at e = rw (at, node_at) (rw (e, ◌>>=◌) (rw (at, node_at) (rw e refl)))

  stops :
      (fuel : ℕ) (h : Heap) (a y : ℕ) {d e n : DataBlock}
      → get_elem? h a ≡ some d
      → d.next ≡ some y
      → get_elem? h y ≡ some e
      → ltb e.block b ≡ false
      → get_elem? h new ≡ some n
      → search (suc fuel) h a
        ≡ done (set (set h new (record n { next = some y })) a (record d { next = some new }))
  unfolding walk link
  stops fuel h a y at e there test at_new =
      rw (at, node_at)
        (rw (e, ◌>>=◌)
          (rw (there, node_at)
            (rw (test, ◌>>=◌) (rw (at, node_at) (rw e (rw (at_new, node_at) refl))))))

  goes :
      (fuel : ℕ) (h : Heap) (a y : ℕ) {d e : DataBlock}
      → get_elem? h a ≡ some d
      → d.next ≡ some y
      → get_elem? h y ≡ some e
      → ltb e.block b ≡ true
      → search (suc fuel) h a ≡ search fuel h y
  unfolding walk link
  goes fuel h a y at e there test =
      rw (at, node_at) (rw (e, ◌>>=◌) (rw (there, node_at) (rw (test, ◌>>=◌) refl)))

  -- What the search from address `a` leaves, where the list goes on with `xs` after it.
  abbrev pub Placed : Run Heap → Heap → ℕ → List ℕ → Type 0
  Placed r h a xs =
      (h' : Heap) × (r ≡ done h')
      × Chain h' (some a) (a ∷ place_in h b new xs)
      × Keeps new (a ∷ xs) h h'

  Placed-last :
      (fuel : ℕ) (h : Heap) (a : ℕ) {d n : DataBlock}
      → get_elem? h a ≡ some d
      → d.next ≡ none
      → get_elem? h new ≡ some n
      → n.next ≡ none
      → new ≢ a
      → Placed (search (suc fuel) h a) h a []
  Placed-last fuel h a {d} {n} at e at_new ends ne =
      let d' : DataBlock = record d { next = some new } in
      (
        set h a d',
        at_end fuel h a at e,
        (
          refl,
          d',
          get_elem?-set_self h a d' (in_heap h a at),
          ((λ e. ne (sym e)), tt),
          (refl, n, get_elem?-set_ne h d' (λ e. ne (sym e)) ∙ at_new, tt, ends),
        ),
        record {
          same = λ x. entry_of-set h a d d' x at refl;
          outside = λ x nx out. get_elem?-set_ne h d' (λ e. out.0 (sym e));
        },
      )

  Placed-before :
      (fuel : ℕ) (h : Heap) (a y : ℕ) (ys : List ℕ) {d n : DataBlock}
      → get_elem? h a ≡ some d
      → NotIn a (y ∷ ys)
      → Chain h d.next (y ∷ ys)
      → get_elem? h new ≡ some n
      → NotIn new (a ∷ y ∷ ys)
      → ltb (block_of h y) b ≡ false
      → Placed (search (suc fuel) h a) h a (y ∷ ys)
  Placed-before fuel h a y ys {d} {n} at out (e, dy, there, out_y, c) at_new fresh test =
      let d' : DataBlock = record d { next = some new } in
      let n' : DataBlock = record n { next = some y } in
      let h₁ = set h new n' in
      let h₂ = set h₁ a d' in
      let at₁ : get_elem? h₁ a ≡ some d = get_elem?-set_ne h n' fresh.0 ∙ at in
      let new₂ : get_elem? h₂ new ≡ some n' =
        get_elem?-set_ne h₁ d' (λ e. fresh.0 (sym e))
        ∙ get_elem?-set_self h new n' (in_heap h new at_new) in
      let agree : Agree h h₂ (y ∷ ys) =
        Agree-set h h₁ a d' (y ∷ ys) out
          (Agree-set h h new n' (y ∷ ys) fresh.1 (Agree-refl h (y ∷ ys))) in
      rw test (
        h₂,
        stops fuel h a y at e there (rw (there, block_of, entry_of) at test) at_new,
        (
          refl,
          d',
          get_elem?-set_self h₁ a d' (in_heap h₁ a at₁),
          ((λ e. fresh.0 (sym e)), out),
          (
            refl,
            n',
            new₂,
            fresh.1,
            Chain-Agree h h₂ (some y) (y ∷ ys) agree (refl, dy, there, out_y, c),
          ),
        ),
        record {
          same = λ x. entry_of-set h₁ a d d' x at₁ refl ∙ entry_of-set h new n n' x at_new refl;
          outside = λ x nx out.
              get_elem?-set_ne h₁ d' (λ e. out.0 (sym e)) ∙ get_elem?-set_ne h n' (λ e. nx (sym e));
        },
      )

  NotIn-place :
      (h : Heap) (x : ℕ) (ys : List ℕ) → x ≢ new → NotIn x ys → NotIn x (place_in h b new ys)
  NotIn-place h x [] ne out = (ne, tt)
  NotIn-place h x (y ∷ ys) ne out = elim (Bool-cases (ltb (block_of h y) b)) [
    | inl lt ↦ rw lt (out.0, NotIn-place h x ys ne out.1)
    | inr ge ↦ rw ge (ne, out)
  ]

  -- The node before a list that was changed.
  Placed-further :
      {r : Run Heap} (h : Heap) (a y : ℕ) (ys : List ℕ) {d : DataBlock}
      → get_elem? h a ≡ some d
      → d.next ≡ some y
      → NotIn a (y ∷ ys)
      → new ≢ a
      → ltb (block_of h y) b ≡ true
      → Placed r h y ys
      → Placed r h a (y ∷ ys)
  Placed-further h a y ys {d} at e out ne test (h', run, c, k) = rw test (
    h',
    run,
    (
      refl,
      d,
      k.outside a (λ e. ne (sym e)) out ∙ at,
      (out.0, NotIn-place h a ys (λ e. ne (sym e)) out.1),
      rw e c,
    ),
    record { same = k.same; outside = λ x nx out. k.outside x nx out.1 },
  )

  -- The search from a node on, with enough fuel.
  search_from :
      (fuel : ℕ) (h : Heap) (a : ℕ) (xs : List ℕ) {n : DataBlock}
      → length xs < fuel
      → Chain h (some a) (a ∷ xs)
      → get_elem? h new ≡ some n
      → n.next ≡ none
      → NotIn new (a ∷ xs)
      → Placed (search fuel h a) h a xs
  search_from zero h a xs small c at_new ends fresh = absurd (omega arith)
  search_from (suc fuel) h a [] small (e, d, at, out, c) at_new ends fresh =
      Placed-last fuel h a at c at_new ends fresh.0
  search_from (suc fuel) h a (y ∷ ys) small (e, d, at, out, (link_y, dy, there, out_y, c)) at_new
        ends fresh =
      elim (Bool-cases (ltb (block_of h y) b)) [
        | inl lt ↦ rw (goes fuel h a y at link_y there (rw (there, block_of, entry_of) at lt)) (
            Placed-further h a y ys at link_y out fresh.0 lt (
              search_from fuel h y ys (omega arith) (refl, dy, there, out_y, c) at_new ends
                fresh.1))
        | inr ge ↦ Placed-before fuel h a y ys at out (link_y, dy, there, out_y, c) at_new fresh ge
      ]

  -- In a list in order, the search may start from any node whose block is below `b`.
  pub search_at :
      (fuel l : ℕ) (h : Heap) (a : ℕ) (xs : List ℕ) {n : DataBlock}
      → length xs < fuel
      → Sorted h (a ∷ xs)
      → In l (a ∷ xs)
      → block_of h l < b ⊎ (l ≡ a)
      → Chain h (some a) (a ∷ xs)
      → get_elem? h new ≡ some n
      → n.next ≡ none
      → NotIn new (a ∷ xs)
      → Placed (search fuel h l) h a xs
  search_at fuel l h a xs small s (inl e) below c at_new ends fresh =
      rw e (search_from fuel h a xs small c at_new ends fresh)
  search_at fuel l h a [] small s (inr none_in) below c at_new ends fresh = absurd none_in
  search_at fuel l h a (y ∷ ys) small s (inr there) (inr e) c at_new ends fresh =
      rw e (search_from fuel h a (y ∷ ys) small c at_new ends fresh)
  search_at fuel l h a (y ∷ ys) small s (inr there) (inl below) (e, d, at, out, c) at_new ends
        fresh =
      let first = In-Sorted h l y ys s.1 there in
      let (link_y, dy, there_y, out_y, rest) = c in
      let lt : ltb (block_of h y) b ≡ true = ground (arith, first) in
      Placed-further h a y ys at link_y out fresh.0 lt (
        search_at fuel l h y ys (omega arith) s.1 there (inl below) (refl, dy, there_y, out_y, rest)
          at_new ends fresh.1)
