-- ===== src/LinkList/Change.antt =====
-- practise/link_list.c: `Insert`, `Delete` and `DeleteList`.
use learn_c_linux.Prelude.{
  ℕ, zero, suc, ◌<◌, ◌≡◌, ◌≢◌, ◌⊎◌, refl, ◌∙◌, subst, sym, none, some, [], ◌∷◌, arith, length, ◌==◌,
  Bool-cases, inl, inr, true, false, Yields, yields, Yields-mono,
}
use learn_c_linux.Nodes.{Heap, node, load, write, free, set_next}
use learn_c_linux.LinkList.{
  unlink, is_last, find_previous, delete, insert, delete_from, delete_list,
}
use learn_c_linux.Nodes.Chain.{
  Chain, last, cons, Cells, has, frame, Chain-ne, Chain-head, load_at, not_in-fresh, unlink-Chain,
}
use learn_c_linux.LinkList.Chain.{first, remove, not_in-remove}

-- What `Delete` leaves behind.
pub record Deleted (h : Heap ℕ) (x p y : ℕ) (xs : Cells ℕ) (h' : Heap ℕ) : Type 0 where
  pub chain : Chain h' p y (remove x xs)
  pub freed : (first x xs ≡ 0) ⊎ (h' (first x xs) ≡ none)
  pub others : (a : ℕ) → (has a ((p, y) ∷ xs) ≡ true) ⊎ (h' a ≡ h a)

outside-others :
    (h h' : Heap ℕ) (a : ℕ) (cells : Cells ℕ)
    → (has a cells ≡ true) ⊎ (h' a ≡ h a)
    → has a cells ≡ false
    → h' a ≡ h a
outside-others h h' a cells (inr e) o = e
outside-others h h' a cells (inl i) o = ground (arith, i, o)

inside-others :
    (h h' : Heap ℕ) (a p y : ℕ) (cells : Cells ℕ)
    → (has a cells ≡ true) ⊎ (h' a ≡ h a)
    → (has a ((p, y) ∷ cells) ≡ true) ⊎ (h' a ≡ h a)
inside-others h h' a p y cells (inr e) = inr e
inside-others h h' a p y cells (inl i) = inl (ground (arith, i))

unlink-runs :
    (h : Heap ℕ) (p y q z r : ℕ)
    → p ≢ 0
    → h p ≡ some (node y q)
    → q ≢ 0
    → h q ≡ some (node z r)
    → p ≢ q
    → unlink h p ≡ some (write (write h p (some (node y r))) q none)
unfolding unlink set_next free load write
unlink-runs h p y q z r np ep nq eq apart = ground arith

delete_here :
    (f : ℕ) (h : Heap ℕ) (x p y q z r : ℕ)
    → p ≢ 0
    → h p ≡ some (node y q)
    → q ≢ 0
    → h q ≡ some (node z r)
    → (z == x) ≡ true
    → delete (suc f) h x p ≡ unlink h p
unfolding delete find_previous is_last
delete_here f h x p y q z r np ep nq eq same =
    let here = load_at h p (node y q) np ep in
    let there = load_at h q (node z r) nq eq in
    let prev : find_previous (suc f) h x p ≡ some p = ground (arith, here, there, same) in
    let more : is_last h p ≡ some false = ground (arith, here) in rw (delete, prev, more) refl

delete_later :
    (f : ℕ) (h : Heap ℕ) (x p y q z r : ℕ)
    → p ≢ 0
    → h p ≡ some (node y q)
    → q ≢ 0
    → h q ≡ some (node z r)
    → (z == x) ≡ false
    → delete (suc f) h x p ≡ delete f h x q
unfolding delete find_previous
delete_later f h x p y q z r np ep nq eq other =
    let here = load_at h p (node y q) np ep in
    let there = load_at h q (node z r) nq eq in
    let prev : find_previous (suc f) h x p ≡ find_previous f h x q =
      ground (arith, here, there, other) in
    rw (delete, prev) refl

delete_none :
    (f : ℕ) (h : Heap ℕ) (x p y : ℕ) → p ≢ 0 → h p ≡ some (node y 0) → delete (suc f) h x p ≡ some h
unfolding delete find_previous is_last
delete_none f h x p y np ep =
    let here = load_at h p (node y 0) np ep in
    let prev : find_previous (suc f) h x p ≡ some p = ground (arith, here) in
    let done : is_last h p ≡ some true = ground (arith, here) in rw (delete, prev, done) refl

Yields-of : (P : Heap ℕ → Type 0) (h : Heap ℕ) → P h → Yields P (some h)
Yields-of P h p = yields p

hidden :
    (q z x p : ℕ) (xs : Cells ℕ)
    → has p ((q, z) ∷ xs) ≡ false
    → has p ((q, z) ∷ remove x xs) ≡ false
hidden q z x p xs o = ground (arith, not_in-remove p x xs)

-- `Delete` on a list ends, and every pointer it follows is good. It takes the first node that has the
-- element out of the list and frees it; the other nodes keep their order, and nothing else on the heap
-- changes. When no node has the element, the list stays as it is.
pub delete-Deleted :
    (f : ℕ) (h : Heap ℕ) (x p y : ℕ) (xs : Cells ℕ)
    → Chain h p y xs
    → length xs < f
    → Yields (Deleted h x p y xs) (delete f h x p)
unfolding delete write
delete-Deleted zero h x p y xs c fuel = absurd (omega arith)
delete-Deleted (suc f) h x p y [] (last ne e) fuel =
    rw (delete_none f h x p y ne e)
      (yields (record { chain = last ne e; freed = inl refl; others = λ a. inr refl }))
delete-Deleted (suc f) h x p y (_ ∷ xs) (cons {q} {z} np ep op c) fuel =
    let nq = Chain-ne c in
    let (r, eq) = Chain-head c in
    elim (Bool-cases (z == x)) [
      | inl same ↦
          rw
            (
              delete_here f h x p y q z r np ep nq eq same,
              unlink-runs h p y q z r np ep nq eq (ground arith),
            )
            (let after = write (write h p (some (node y r))) q none in
              let rest : remove x ((q, z) ∷ xs) ≡ xs = rw same refl in
              Yields-of (Deleted h x p y ((q, z) ∷ xs)) after (record {
                chain =
                    subst (λ l. Chain after p y l) (sym rest)
                      (unlink-Chain h p q r y z xs np eq op c);
                freed = inr (ground (arith, same));
                others = λ a. ground arith;
              }))
      | inr other ↦ rw (delete_later f h x p y q z r np ep nq eq other) (
          Yields-mono (delete-Deleted f h x q z xs c (omega arith)) λ h' d. record {
            chain = rw other (
                cons np (outside-others h h' p ((q, z) ∷ xs) (d.others p) op ∙ ep)
                  (hidden q z x p xs op) d.chain);
            freed = rw other d.freed;
            others = λ a. inside-others h h' a p y ((q, z) ∷ xs) (d.others a);
          })
    ]

insert-runs :
    (cell : ℕ) (h : Heap ℕ) (x l y q : ℕ)
    → cell ≢ 0
    → h cell ≡ none
    → l ≢ 0
    → h l ≡ some (node y q)
    → insert cell h x l ≡ some (write (write h cell (some (node x q))) l (some (node y cell)))
unfolding insert set_next load write
insert-runs cell h x l y q nc fresh nl el = ground arith

-- `Insert` behind the header, with a new node from `malloc`: the list has the element in front, and
-- the rest is as before.
pub insert-Chain :
    (cell : ℕ) (h : Heap ℕ) (x l y : ℕ) (xs : Cells ℕ)
    → cell ≢ 0
    → h cell ≡ none
    → Chain h l y xs
    → Yields (λ h'. Chain h' l y ((cell, x) ∷ xs)) (insert cell h x l)
unfolding write
insert-Chain cell h x l y [] nc fresh (last nl el) =
    rw (insert-runs cell h x l y 0 nc fresh nl el)
      (yields (cons nl (ground arith) (ground arith) (last nc (ground arith))))
insert-Chain cell h x l y (_ ∷ xs) nc fresh (cons {q} {z} nl el ol c) =
    let out = not_in-fresh h cell q z xs fresh c in
    rw (insert-runs cell h x l y q nc fresh nl el) (
      yields (
        cons nl (ground arith) (ground (arith, out))
          (cons nc (ground arith) out (frame c λ a i. ground arith))))

-- `DeleteList` on a list that is not empty reads a node that it has freed, however long it may run.
pub delete_list-faults :
    (f : ℕ) (h : Heap ℕ) (l y q z : ℕ) (xs : Cells ℕ)
    → Chain h l y ((q, z) ∷ xs)
    → delete_list f h l ≡ none
unfolding delete_list delete_from set_next load free write
delete_list-faults zero h l y q z xs (cons np ep op c) = ground arith
delete_list-faults (suc f) h l y q z xs (cons np ep op c) =
    let nq = Chain-ne c in let (r, eq) = Chain-head c in ground arith
