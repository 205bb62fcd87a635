-- ===== src/Exec/NodeReplicated/Register.antt =====
-- exec/mod.rs, `NodeReplicated::register`.
use verified_node_replicatio.Prelude.{
  ℕ, zero, suc, ◌≤◌, ◌≡◌, ◌⊎◌, none, some, List, [], ◌∷◌, push, get_elem?, length, set_at,
  set_at_same, Option-cases, inl, inr, refl, ap, ◌∙◌, arith,
}
use verified_node_replicatio.Dispatch.{Dispatch}
use verified_node_replicatio.Exec.Context.{ThreadToken}
use verified_node_replicatio.Exec.NodeReplicated.{
  NodeReplicated, remove_elem, insert_elem, register,
}
use verified_node_replicatio.Exec.Replica
use verified_node_replicatio.Exec.Replica.{Replica, pop}

module _ {A : Type 0} where
  none-length : (xs : List A) (i : ℕ) → get_elem? xs i ≡ none → length xs ≤ i
  none-length [] i e = omega arith
  none-length (x ∷ xs) zero e = absurd (cc)
  none-length (x ∷ xs) (suc i) e = omega (arith, none-length xs i e)

  remove_elem-none : (xs : List A) (i : ℕ) → get_elem? xs i ≡ none → remove_elem xs i ≡ none
  remove_elem-none [] i e = refl
  remove_elem-none (x ∷ xs) zero e = absurd (cc)
  remove_elem-none (x ∷ xs) (suc i) e = rw (remove_elem-none xs i e) refl

  -- An element that is removed and inserted again at its place is overwritten.
  remove_elem-insert_elem :
      (xs : List A) (i : ℕ) {x : A}
      → get_elem? xs i ≡ some x
      → (rest : List A) × (remove_elem xs i ≡ some (x, rest))
        × ((y : A) → insert_elem rest i y ≡ set_at xs i y)
  remove_elem-insert_elem [] i e = absurd (cc)
  remove_elem-insert_elem (x ∷ xs) zero e = (xs, ground arith, λ y. refl)
  remove_elem-insert_elem (x ∷ xs) (suc i) e =
      let (rest, r, back) = remove_elem-insert_elem xs i e in
      (x ∷ rest, rw r refl, λ y. ap (◌∷◌ x) (back y))

  -- `Vec::pop` takes the last element.
  pop_lem :
      (xs : List A)
      → ((xs ≡ []) × (pop xs ≡ none))
        ⊎ ((ys : List A) × (y : A) × (xs ≡ push ys y) × (pop xs ≡ some (y, ys)))
  pop_lem [] = inl (refl, refl)
  pop_lem (x ∷ xs) = elim (pop_lem xs) [
    | inl (e, p) ↦ inr ([], x, ap (◌∷◌ x) e, rw p refl)
    | inr (ys, y, e, p) ↦ inr (x ∷ ys, y, ap (◌∷◌ x) e, rw p refl)
  ]

module _ {dt : Dispatch} where
  -- The replica `i` with other tokens.
  abbrev pub with_tokens : NodeReplicated dt → ℕ → Replica dt → List ThreadToken → NodeReplicated dt
  with_tokens nr i replica tokens = record nr {
    replicas = set_at (nr.replicas) i (record replica { thread_tokens = tokens });
  }

  -- Registration fails, and changes nothing, where the replica does not exist or has no token left; otherwise
  -- it hands out the last token of the replica, which the replica no longer has.
  pub register-cases :
      (i : ℕ) (nr : NodeReplicated dt)
      → ((length (nr.replicas) ≤ i) × (register i nr ≡ (none, nr)))
        ⊎ ((replica : Replica dt) × (get_elem? (nr.replicas) i ≡ some replica)
            × (((replica.thread_tokens ≡ []) × (register i nr ≡ (none, nr)))
                ⊎ ((tokens : List ThreadToken) × (tkn : ThreadToken) × (replica.thread_tokens
                      ≡ push tokens tkn)
                    × (register i nr ≡ (some tkn, with_tokens nr i replica tokens)))))
  unfolding register Replica.register
  register-cases i nr = elim (Option-cases (get_elem? (nr.replicas) i)) [
    | inl out ↦
        inl (
          none-length (nr.replicas) i out,
          rw (register, remove_elem-none (nr.replicas) i out) refl,
        )
    | inr (replica, at) ↦
        let (rest, e, back) = remove_elem-insert_elem (nr.replicas) i at in
        elim (pop_lem (replica.thread_tokens)) [
          | inl (empty, p) ↦
              let none_left : Replica.register replica ≡ (none, replica) =
                rw (Replica.register, p) refl in
              let same : insert_elem rest i replica ≡ nr.replicas =
                back replica ∙ set_at_same (nr.replicas) i replica at in
              inr (replica, at, inl (empty, rw (register, e, none_left, same) refl))
          | inr (tokens, tkn, last, p) ↦
              let rest_tokens : Replica dt = record replica { thread_tokens = tokens } in
              let one : Replica.register replica ≡ (some tkn, rest_tokens) =
                rw (Replica.register, p) refl in
              inr
                (replica, at, inr (tokens, tkn, last, rw (register, e, one, back rest_tokens) refl))
        ]
  ]
