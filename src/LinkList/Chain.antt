-- ===== src/LinkList/Chain.antt =====
-- practise/link_list.c: search and removal on the list of cells.
use learn_c_linux.Prelude.{ℕ, ◌≡◌, ◌==◌, false, if◌then◌else◌, [], ◌∷◌, arith}
use learn_c_linux.Nodes.Chain.{Cells, has}

-- The address of the first node with the element `x`, or `NULL`.
abbrev pub first : ℕ → Cells ℕ → ℕ
first x [] = 0
first x ((p, y) ∷ xs) = if y == x then p else first x xs

-- The list without that node.
abbrev pub remove : ℕ → Cells ℕ → Cells ℕ
remove x [] = []
remove x ((p, y) ∷ xs) = if y == x then xs else (p, y) ∷ remove x xs

pub not_in-remove : (a x : ℕ) (xs : Cells ℕ) → has a xs ≡ false → has a (remove x xs) ≡ false
not_in-remove a x [] h = h
not_in-remove a x (_ ∷ xs) h = ground (arith, not_in-remove a x xs)
