-- ===== src/LinkList/Search.antt =====
-- practise/link_list.c: `Find`.
use learn_c_linux.Prelude.{
  ℕ, zero, suc, ◌+◌, ◌<◌, ◌≡◌, refl, some, [], ◌∷◌, arith, length, ◌==◌, Bool-cases, inl, inr,
}
use learn_c_linux.Nodes.{Heap, node}
use learn_c_linux.LinkList.{find_from, find}
use learn_c_linux.Nodes.Chain.{Chain, last, cons, Cells, eq_zero, load_at}
use learn_c_linux.LinkList.Chain.{first}

find_from-first :
    (f : ℕ) (h : Heap ℕ) (x p y : ℕ) (xs : Cells ℕ)
    → Chain h p y xs
    → length xs + 1 < f
    → find_from f h x p ≡ some (first x ((p, y) ∷ xs))
unfolding find_from
find_from-first zero h x p y xs c fuel = absurd (omega arith)
find_from-first (suc zero) h x p y xs c fuel = absurd (omega arith)
find_from-first (suc (suc f)) h x p y [] (last ne e) fuel =
    let here = load_at h p (node y 0) ne e in ground (arith, here)
find_from-first (suc (suc f)) h x p y (_ ∷ xs) (cons {q} {z} ne e out c) fuel =
    let here = load_at h p (node y q) ne e in
    let rest = find_from-first (suc f) h x q z xs c (omega arith) in
    elim (Bool-cases (y == x)) [
      | inl same ↦ rw (here, same) (rw (eq_zero p ne) refl)
      | inr other ↦ rw (here, other) (rw (eq_zero p ne) rest)
    ]

-- `Find` on a list ends and returns the first node that has the element, or `NULL` when there is none.
pub find-first :
    (f : ℕ) (h : Heap ℕ) (x l y : ℕ) (xs : Cells ℕ)
    → Chain h l y xs
    → length xs < f
    → find f h x l ≡ some (first x xs)
unfolding find find_from
find-first zero h x l y xs c fuel = absurd (omega arith)
find-first (suc f) h x l y [] (last ne e) fuel = rw (find, load_at h l (node y 0) ne e) refl
find-first (suc f) h x l y (_ ∷ xs) (cons {q} {z} ne e out c) fuel =
    rw (find, load_at h l (node y q) ne e) (find_from-first (suc f) h x q z xs c (omega arith))
