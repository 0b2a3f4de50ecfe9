-- ===== src/LinkList.antt =====
-- practise/link_list.c: lists of nodes on a heap. An element is a `char *`, compared as a pointer. `none`
-- is an access through `NULL` or to a node that has been freed, or no fuel left.
pub mod Chain
pub mod Search
pub mod Change
mod Tests
use learn_c_linux.Prelude.{
  ℕ, zero, suc, ◌==◌, if◌then◌else◌, Bool, true, false, Option, none, some, ◌>>=◌,
}
use learn_c_linux.Nodes.{Heap, Node, node, load, write, free, set_next}

unfoldable pub is_empty : Heap ℕ → ℕ → Option Bool
is_empty h l = elim (load h l) [ none ↦ none | some n ↦ some (n.next == 0) ]

-- `IsLast`; the list is not used.
unfoldable pub is_last : Heap ℕ → ℕ → Option Bool
is_last h p = elim (load h p) [ none ↦ none | some n ↦ some (n.next == 0) ]

-- The loop of `Find` at the node `p`.
unfoldable pub find_from : ℕ → Heap ℕ → ℕ → ℕ → Option ℕ
find_from zero h x p = none
find_from (suc f) h x p = if p == 0 then some 0 else elim (load h p) [
  | none ↦ none
  | some n ↦ elim (n.element == x) [ true ↦ some p | false ↦ find_from f h x n.next ]
]

unfoldable pub find : ℕ → Heap ℕ → ℕ → ℕ → Option ℕ
unfolding find_from
find f h x l = elim (load h l) [ none ↦ none | some n ↦ find_from f h x n.next ]

-- The loop of `FindPrevious` at the node `p`.
unfoldable pub find_previous : ℕ → Heap ℕ → ℕ → ℕ → Option ℕ
find_previous zero h x p = none
find_previous (suc f) h x p = elim (load h p) [
  | none ↦ none
  | some n ↦ if n.next == 0 then some p else elim (load h n.next) [
    | none ↦ none
    | some m ↦ elim (m.element == x) [ true ↦ some p | false ↦ find_previous f h x n.next ]
  ]
]

-- What `Delete` does behind the node `p`.
unfoldable pub unlink : Heap ℕ → ℕ → Option (Heap ℕ)
unfolding set_next free
unlink h p = do n ← load h p; m ← load h n.next; h' ← set_next h p m.next; free h' n.next

unfoldable pub delete : ℕ → Heap ℕ → ℕ → ℕ → Option (Heap ℕ)
unfolding find_previous is_last unlink
delete f h x l = do
  p ← find_previous f h x l
  last ← is_last h p
  if last then some h else unlink h p

-- `Insert` behind the node `p`; `cell` is what `malloc` returns, and its memory is taken to be zero.
unfoldable pub insert : ℕ → Heap ℕ → ℕ → ℕ → Option (Heap ℕ)
unfolding set_next
insert cell h x p = if cell == 0 then none else elim (load h p) [
  | none ↦ none
  | some n ↦ set_next (write h cell (some (node x n.next))) p cell
]

-- The loop of `DeleteList`: it reads the node `p` after it has freed it.
unfoldable pub delete_from : ℕ → Heap ℕ → ℕ → Option (Heap ℕ)
unfolding free load
delete_from zero h p = none
delete_from (suc f) h p = if p == 0 then some h else elim (free h p) [
  | none ↦ none
  | some h' ↦ elim (load h' p) [ none ↦ none | some tmp ↦ delete_from f h' tmp.next ]
]

unfoldable pub delete_list : ℕ → Heap ℕ → ℕ → Option (Heap ℕ)
unfolding delete_from set_next
delete_list f h l = do n ← load h l; h' ← set_next h l 0; delete_from f h' n.next
