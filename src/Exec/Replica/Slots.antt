-- ===== src/Exec/Replica/Slots.antt =====
-- exec/replica.rs: what the combiner collects from the threads' slots, and what it hands out.
use mathlib.Core.Path.{subst}
use mathlib.Core.List.{append-nil}
use verified_node_replicatio.Prelude.{
  ℕ, zero, suc, ◌+◌, ◌≡◌, Option, some, List, [], ◌∷◌, ◌++◌, map, push, push-append, get_elem?,
  get_elem?_total, length, ◌>>=◌, refl, sym, ◌∙◌, arith,
}
use verified_node_replicatio.Exec.Context.{
  Context, PendingOperation, new, dequeue_response, enqueue_op,
}
use verified_node_replicatio.Exec.Replica.{
  collect_thread_ops, collect_thread_op, distribute_thread_resps, distribute_thread_resp,
}
use verified_node_replicatio.Exec.Log.Represents.{drop, drop-get_elem?, drop-all}

module _ {Op Resp : Type 0} where
  -- A slot whose operation has its response, or that has none.
  abbrev pub settled : Option (PendingOperation Op Resp) → Context Op Resp
  settled batch = record { batch = batch; atomic = 0 }

  abbrev pub requested : PendingOperation Op Resp → Context Op Resp
  requested p = record { batch = some p; atomic = 1 }

  abbrev pub answered : Op → Resp → Context Op Resp
  answered op resp = settled (some (record { op = op; resp = some resp }))

  -- The slots, and the operations that are requested in them, in the order of the threads.
  pub data Slots : List (Context Op Resp) → List Op → Type 0 where
    done : Slots [] []
    idle :
        {cs : List (Context Op Resp)} {ops : List Op} (batch : Option (PendingOperation Op Resp))
        → Slots cs ops
        → Slots (settled batch ∷ cs) ops
    busy :
        {cs : List (Context Op Resp)} {ops : List Op} (p : PendingOperation Op Resp)
        → Slots cs ops
        → Slots (requested p ∷ cs) (p.op ∷ ops)

  -- The slots with the responses handed out to the requests in their order.
  pub data Served : List (Context Op Resp) → List Resp → List (Context Op Resp) → Type 0 where
    done : Served [] [] []
    idle :
        {cs ds : List (Context Op Resp)} {rs : List Resp}
        (batch : Option (PendingOperation Op Resp))
        → Served cs rs ds
        → Served (settled batch ∷ cs) rs (settled batch ∷ ds)
    busy :
        {cs ds : List (Context Op Resp)} {rs : List Resp} (p : PendingOperation Op Resp)
        (resp : Resp)
        → Served cs rs ds
        → Served (requested p ∷ cs) (resp ∷ rs) (answered (p.op) resp ∷ ds)

  abbrev pub atomics : List (Context Op Resp) → List ℕ
  atomics cs = map (λ c. c.atomic) cs

  -- The combiner collects the requested operations, and the number of them in each slot.
  pub collect_thread_ops-Slots :
      {cs : List (Context Op Resp)} {ops : List Op} (acc : List Op) (nums : List ℕ)
      → Slots cs ops
      → collect_thread_ops cs acc nums ≡ some (acc ++ ops, nums ++ atomics cs)
  unfolding collect_thread_ops collect_thread_op
  collect_thread_ops-Slots acc nums Slots.done = rw (append-nil acc, append-nil nums) refl
  collect_thread_ops-Slots acc nums (Slots.idle {cs} {ops} batch h) =
      collect_thread_ops-Slots acc (push nums 0) h ∙ rw (push-append nums (atomics cs) 0) refl
  collect_thread_ops-Slots acc nums (Slots.busy {cs} {ops} p h) =
      collect_thread_ops-Slots (push acc (p.op)) (push nums 1) h
      ∙ rw (push-append nums (atomics cs) 1, push-append acc ops (p.op)) refl

  -- The combiner hands the responses out, one for each request, in the order in which it collected them.
  pub distribute_thread_resps-Served :
      {cs : List (Context Op Resp)} {ops : List Op} (rs : List Resp) (s : ℕ)
      → Slots cs ops
      → length rs ≡ s + length ops
      → (ds : List (Context Op Resp)) × (distribute_thread_resps rs (atomics cs) s cs ≡ some ds)
        × Served cs (drop s rs) ds
  unfolding distribute_thread_resps distribute_thread_resp
  distribute_thread_resps-Served rs s Slots.done len =
      let none_left : drop s rs ≡ [] = drop-all rs s (omega arith) in
      ([], refl, subst (λ t. Served [] t []) (sym none_left) Served.done)
  distribute_thread_resps-Served rs s (Slots.idle {cs} {ops} batch h) len =
      let (ds, e, served) = distribute_thread_resps-Served rs s h len in
      (settled batch ∷ ds, rw e refl, Served.idle batch served)
  distribute_thread_resps-Served rs s (Slots.busy {cs} {ops} p h) len =
      let (resp, at) = get_elem?_total rs s (omega arith) in
      let (ds, e, served) = distribute_thread_resps-Served rs (suc s) h (omega arith) in
      (
        answered (p.op) resp ∷ ds,
        rw (at, ◌>>=◌, e) refl,
        subst (λ t. Served (requested p ∷ cs) t (answered (p.op) resp ∷ ds))
            (sym (drop-get_elem? rs s at)) (Served.busy p resp served),
      )

  -- A slot that has a request has the response to it.
  pub Served-at :
      {cs ds : List (Context Op Resp)} {ops : List Op} {rs : List Resp} (i : ℕ)
      {p : PendingOperation Op Resp}
      → Slots cs ops
      → Served cs rs ds
      → get_elem? cs i ≡ some (requested p)
      → (k : ℕ) × (resp : Resp) × (get_elem? ops k ≡ some (p.op))
        × (get_elem? rs k ≡ some resp)
        × (get_elem? ds i ≡ some (answered (p.op) resp))
  Served-at i Slots.done Served.done at = absurd (cc)
  Served-at zero (Slots.idle b h) (Served.idle b' t) at = absurd (ground arith)
  Served-at (suc i) (Slots.idle b h) (Served.idle b' t) at = Served-at i h t at
  Served-at zero (Slots.busy q h) (Served.busy q' resp t) at =
      (0, resp, ground arith, refl, ground arith)
  Served-at (suc i) (Slots.busy q h) (Served.busy q' resp t) at =
      let (k, r, a, b, c) = Served-at i h t at in (suc k, r, a, b, c)

  -- What a thread enqueues in its slot, the combiner collects and answers: where the combiner hands out as
  -- many responses as it collected operations, the thread then dequeues the response that stands at the
  -- place of its operation, and its slot is as it was.
  pub enqueue_op-dequeue_response :
      {cs : List (Context Op Resp)} {ops : List Op} (rs : List Resp) (i : ℕ) (op : Op)
      {c : Context Op Resp}
      → Slots cs ops
      → length rs ≡ length ops
      → enqueue_op op new ≡ some c
      → get_elem? cs i ≡ some c
      → (ds : List (Context Op Resp)) × (d : Context Op Resp) × (k : ℕ) × (resp : Resp)
        × (collect_thread_ops cs [] [] ≡ some (ops, atomics cs))
        × (distribute_thread_resps rs (atomics cs) 0 cs ≡ some ds)
        × (get_elem? ds i ≡ some d)
        × (dequeue_response d ≡ some (some resp, new))
        × (get_elem? ops k ≡ some op)
        × (get_elem? rs k ≡ some resp)
  unfolding enqueue_op dequeue_response new
  enqueue_op-dequeue_response rs i op {c} h len enq at =
      let (ds, e, served) = distribute_thread_resps-Served rs 0 h (omega arith) in
      let here = at ∙ sym enq in
      let (k, resp, a, b, d) = Served-at i h served here in
      (ds, answered op resp, k, resp, collect_thread_ops-Slots [] [] h, e, d, refl, a, b)
