-- ===== src/LinkList/Tests.antt =====
-- Runs of practise/link_list.c, and its theorems at concrete inputs.
use learn_c_linux.Prelude.{
  ℕ, ◌≡◌, refl, false, none, some, [], ◌∷◌, arith, ◌==◌, if◌then◌else◌, Yields, ◌>>=◌,
}
use learn_c_linux.Nodes.{Heap, node, load, write}
use learn_c_linux.LinkList.{find, delete, insert, is_empty}
use learn_c_linux.Nodes.Chain.{Chain, last, cons}
use learn_c_linux.LinkList.Change.{Deleted, delete-Deleted, insert-Chain}

-- The header at 8, and two nodes with the elements 70 and 71.
abbrev two_nodes : Heap ℕ
two_nodes a =
    if a == 8
    then some (node 0 16)
    else if a == 16
    then some (node 70 24)
    else if a == 24
    then some (node 71 0)
    else none

two_nodes-Chain : Chain two_nodes 8 0 ((16, 70) ∷ (24, 71) ∷ [])
two_nodes-Chain =
    cons (omega arith) refl refl (cons (omega arith) refl refl (last (omega arith) refl))

delete_then_find : (delete 3 two_nodes 70 8 >>= λ h. find 3 h 71 8) ≡ some 24
unfolding delete find load write
delete_then_find = refl

not_empty : is_empty two_nodes 8 ≡ some false
unfolding is_empty load
not_empty = refl

delete-Deleted_example :
    Yields (Deleted two_nodes 71 8 0 ((16, 70) ∷ (24, 71) ∷ [])) (delete 3 two_nodes 71 8)
delete-Deleted_example =
    delete-Deleted 3 two_nodes 71 8 0 ((16, 70) ∷ (24, 71) ∷ []) two_nodes-Chain (omega arith)

insert-Chain_example :
    Yields (λ h. Chain h 8 0 ((32, 72) ∷ (16, 70) ∷ (24, 71) ∷ [])) (insert 32 two_nodes 72 8)
insert-Chain_example =
    insert-Chain 32 two_nodes 72 8 0 ((16, 70) ∷ (24, 71) ∷ []) (omega arith) refl two_nodes-Chain
