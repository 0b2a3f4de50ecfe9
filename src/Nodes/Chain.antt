-- ===== src/Nodes/Chain.antt =====
-- The nodes of a list, in order, and what changes spare them.
use learn_c_linux.Prelude.{
  ℕ, ◌≡◌, ◌≢◌, ◌==◌, Bool, true, false, ◌||◌, none, some, List, [], ◌∷◌, arith,
}
use learn_c_linux.Nodes.{Node, node, Heap, load, write}

-- Address and element of each node.
abbrev pub Cells : Type 0 → Type 0
Cells A = List (ℕ × A)

abbrev pub has : {A : Type 0} → ℕ → Cells A → Bool
has a [] = false
has a ((p, _) ∷ xs) = (a == p) || has a xs

-- The node `p` has the element `y`, and from it the pointers lead through the nodes `xs` to `NULL`; all
-- are distinct.
pub data Chain {A : Type 0} (h : Heap A) : ℕ → A → Cells A → Type 0 where
  last : {p : ℕ} {y : A} → p ≢ 0 → h p ≡ some (node y 0) → Chain h p y []
  cons :
      {p q : ℕ} {y z : A} {xs : Cells A}
      → p ≢ 0
      → h p ≡ some (node y q)
      → has p ((q, z) ∷ xs) ≡ false
      → Chain h q z xs
      → Chain h p y ((q, z) ∷ xs)

pub eq_zero : (p : ℕ) → p ≢ 0 → (p == 0) ≡ false
eq_zero p ne = ground arith

module _ {A : Type 0} where
  pub frame :
      {h g : Heap A} {p : ℕ} {y : A} {xs : Cells A}
      → Chain h p y xs
      → ((a : ℕ) → has a ((p, y) ∷ xs) ≡ true → g a ≡ h a)
      → Chain g p y xs
  frame (last {p} ne e) same = last ne (ground (arith, same p))
  frame (cons {p} ne e out s) same =
      cons ne (ground (arith, same p)) out (frame s λ a i. same a (ground arith))

  pub Chain-ne : {h : Heap A} {p : ℕ} {y : A} {xs : Cells A} → Chain h p y xs → p ≢ 0
  Chain-ne (last ne e) = ne
  Chain-ne (cons ne e out s) = ne

  pub Chain-head :
      {h : Heap A} {p : ℕ} {y : A} {xs : Cells A}
      → Chain h p y xs
      → (q : ℕ) × (h p ≡ some (node y q))
  Chain-head (last ne e) = (0, e)
  Chain-head (cons {q} ne e out s) = (q, e)

  pub load_at : (h : Heap A) (p : ℕ) (n : Node A) → p ≢ 0 → h p ≡ some n → load h p ≡ some n
  unfolding load
  load_at h p n ne e = ground (arith, e)

  pub not_in-fresh :
      (h : Heap A) (a p : ℕ) (y : A) (xs : Cells A)
      → h a ≡ none
      → Chain h p y xs
      → has a ((p, y) ∷ xs) ≡ false
  not_in-fresh h a p y [] fresh (last np ep) = ground arith
  not_in-fresh h a p y (_ ∷ xs) fresh (cons {q} {z} np ep op c) =
      let rest = not_in-fresh h a q z xs fresh c in ground (arith, rest)

  -- The chain from `p` when the node `q` behind it has been taken out and freed.
  pub unlink-Chain :
      (h : Heap A) (p q r : ℕ) (y z : A) (xs : Cells A)
      → p ≢ 0
      → h q ≡ some (node z r)
      → has p ((q, z) ∷ xs) ≡ false
      → Chain h q z xs
      → Chain (write (write h p (some (node y r))) q none) p y xs
  unfolding write
  unlink-Chain h p q r y z [] np e op (last nq eq) = last np (ground arith)
  unlink-Chain h p q r y z (_ ∷ xs) np e op (cons nq eq oq c) =
      cons np (ground arith) (ground arith) (frame c λ a i. ground arith)
