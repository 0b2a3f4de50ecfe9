-- ===== src/SelectServer/Bounds.antt =====
-- socket/io_model/select.c: the highest descriptor.
use learn_c_linux.Prelude.{
  ℕ, ◌≤◌, ◌≡◌, ◌⊎◌, inl, inr, refl, sym, ap, ltb, Bool-cases, List, [], ◌∷◌, All, arith, Yields,
  yields, some, get_elem?, suc,
}
use learn_c_linux.SelectServer.{max_from, max_client}

-- A bound of all the numbers, and one of them.
pub record IsMax (m tmp : ℕ) (fds : List ℕ) : Type 0 where
  pub above : tmp ≤ m
  pub all_above : All (λ fd. fd ≤ m) fds
  pub reached : (m ≡ tmp) ⊎ ((i : ℕ) × (get_elem? fds i ≡ some m))

max_from-IsMax : (tmp : ℕ) (fds : List ℕ) → IsMax (max_from tmp fds) tmp fds
unfolding max_from
max_from-IsMax tmp [] = record { above = omega arith; all_above = tt; reached = inl refl }
max_from-IsMax tmp (fd ∷ fds) = elim (Bool-cases (ltb tmp fd)) [
  | inl less ↦
      let r = max_from-IsMax fd fds in
      rw less (record {
        above = ground (arith, r.above, less);
        all_above = (r.above, r.all_above);
        reached = elim r.reached [ inl e ↦ inr (0, ap some (sym e)) | inr (i, e) ↦ inr (suc i, e) ];
      })
  | inr more ↦
      let r = max_from-IsMax tmp fds in
      rw more (record {
        above = r.above;
        all_above = (ground (arith, r.above, more), r.all_above);
        reached = elim r.reached [ inl e ↦ inl e | inr (i, e) ↦ inr (suc i, e) ];
      })
]

All-weaken : (m k : ℕ) (fds : List ℕ) → m ≤ k → All (λ fd. fd ≤ m) fds → All (λ fd. fd ≤ k) fds
All-weaken m k [] le h = tt
All-weaken m k (fd ∷ fds) le h = (omega (arith, h.0), All-weaken m k fds le h.1)

-- `max_client` returns the highest of the descriptors and the server's own.
pub max_client-IsMax :
    (fd ss : ℕ) (fds : List ℕ) → Yields (λ m. IsMax m ss (fd ∷ fds)) (max_client (fd ∷ fds) ss)
unfolding max_client
max_client-IsMax fd ss fds =
    let r = max_from-IsMax fd fds in
    elim (Bool-cases (ltb ss (max_from fd fds))) [
      | inl less ↦ rw less (
          yields (record {
            above = ground (arith, less);
            all_above = (r.above, r.all_above);
            reached =
                inr (elim r.reached [ inl e ↦ (0, ap some (sym e)) | inr (i, e) ↦ (suc i, e) ]);
          }))
      | inr more ↦ rw more (
          yields (record {
            above = omega arith;
            all_above =
                All-weaken (max_from fd fds) ss (fd ∷ fds) (ground (arith, more))
                  (r.above, r.all_above);
            reached = inl refl;
          }))
    ]
