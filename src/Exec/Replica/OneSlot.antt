-- ===== src/Exec/Replica/OneSlot.antt =====
-- exec/replica.rs: a round of combining for one thread, where the other threads have no request.
use mathlib.Core.Path.{ap₂}
use verified_node_replicatio.Prelude.{
  ℕ, zero, suc, ◌≡◌, none, some, List, [], ◌∷◌, get_elem?, set_at, refl, ap, ◌∙◌, arith,
}
use verified_node_replicatio.Exec.Context.{Context, PendingOperation}
use verified_node_replicatio.Exec.Replica.Slots.{Slots, Served, settled, requested, answered}

module _ {Op Resp : Type 0} where
  -- No thread has an operation in its slot.
  abbrev pub AllEmpty : List (Context Op Resp) → Type 0
  AllEmpty cs = (i : ℕ) (c : Context Op Resp) → get_elem? cs i ≡ some c → c ≡ settled none

  pub AllEmpty-Slots : (cs : List (Context Op Resp)) → AllEmpty cs → Slots cs []
  AllEmpty-Slots [] h = Slots.done
  AllEmpty-Slots (c ∷ cs) h = rw (h 0 c refl) (Slots.idle none (AllEmpty-Slots cs (λ i. h (suc i))))

  pub request-Slots :
      (cs : List (Context Op Resp)) (i : ℕ) (p : PendingOperation Op Resp) {c : Context Op Resp}
      → AllEmpty cs
      → get_elem? cs i ≡ some c
      → Slots (set_at cs i (requested p)) (p.op ∷ [])
  request-Slots [] i p h at = absurd (cc)
  request-Slots (c ∷ cs) zero p h at = Slots.busy p (AllEmpty-Slots cs (λ i. h (suc i)))
  request-Slots (c ∷ cs) (suc i) p h at =
      rw (h 0 c refl) (Slots.idle none (request-Slots cs i p (λ j. h (suc j)) at))

  pub Served-none :
      {cs ds : List (Context Op Resp)} {rs : List Resp} → Served cs rs ds → rs ≡ [] → ds ≡ cs
  Served-none Served.done none_left = refl
  Served-none (Served.idle {cs} {ds} batch s) none_left =
      ap (◌∷◌ (settled batch)) (Served-none s none_left)
  Served-none (Served.busy p resp s) none_left = absurd (cc none_left)

  -- The one request has the one response; the other slots are as they were.
  pub Served-one :
      (cs : List (Context Op Resp)) (i : ℕ) (p : PendingOperation Op Resp) (r : Resp)
      {xs ds : List (Context Op Resp)} {rs : List Resp} {c : Context Op Resp}
      → AllEmpty cs
      → get_elem? cs i ≡ some c
      → Served xs rs ds
      → xs ≡ set_at cs i (requested p)
      → rs ≡ r ∷ []
      → ds ≡ set_at cs i (answered (p.op) r)
  Served-one [] i p r h at s e f = absurd (cc at)
  Served-one (c ∷ cs) i p r h at Served.done e f = absurd (cc f)
  Served-one (c ∷ cs) zero p r h at (Served.idle b s) e f = absurd (ground (arith, e))
  Served-one (c ∷ cs) (suc i) p r h at (Served.idle {cs = xs} {ds = ds} b s) e f =
      let tails : xs ≡ set_at cs i (requested p) = ground (arith, e) in
      let heads : settled b ≡ c = ground (arith, e) in
      ap₂ ◌∷◌ heads (Served-one cs i p r (λ j. h (suc j)) at s tails f)
  Served-one (c ∷ cs) zero p r h at (Served.busy {cs = xs} {ds = ds} {rs = rs} q resp s) e f =
      let tails : xs ≡ cs = ground (arith, e) in
      let same : resp ≡ r = ground (arith, f) in
      let rest : rs ≡ [] = ground (arith, f) in
      let ops : q.op ≡ p.op = ground (arith, e) in
      ap₂ ◌∷◌ (ap₂ answered ops same) (Served-none s rest ∙ tails)
  Served-one (c ∷ cs) (suc i) p r h at (Served.busy q resp s) e f =
      let heads : requested q ≡ settled none = ground (arith, e, h 0 c refl) in
      absurd (ground (arith, heads))
