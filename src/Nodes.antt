-- ===== src/Nodes.antt =====
-- The structs of practise/link_list.h and practise/contacts.c as nodes on a heap: an address holds an
-- element and the address of the next node. `none` is an access through `NULL`, or to a node that is
-- not allocated.
pub mod Chain
use learn_c_linux.Prelude.{ℕ, ◌==◌, if◌then◌else◌, Option, none, some}

pub record Node (A : Type 0) : Type 0 where
  pub element : A
  pub next : ℕ

abbrev pub node : {A : Type 0} → A → ℕ → Node A
node x q = record { element = x; next = q }

abbrev pub Heap : Type 0 → Type 0
Heap A = ℕ → Option (Node A)

module _ {A : Type 0} where
  unfoldable pub write : Heap A → ℕ → Option (Node A) → Heap A
  write h p c a = if a == p then c else h a

  unfoldable pub load : Heap A → ℕ → Option (Node A)
  load h p = if p == 0 then none else h p

  unfoldable pub free : Heap A → ℕ → Option (Heap A)
  unfolding load write
  free h p = elim (load h p) [ none ↦ none | some _ ↦ some (write h p none) ]

  unfoldable pub set_next : Heap A → ℕ → ℕ → Option (Heap A)
  unfolding load write
  set_next h p q = elim (load h p) [
    | none ↦ none
    | some n ↦ some (write h p (some (node n.element q)))
  ]
