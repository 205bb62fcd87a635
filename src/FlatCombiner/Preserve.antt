-- ===== src/FlatCombiner/Preserve.antt =====
-- spec/flat_combiner.rs: the `…_inductive` proofs of the invariants.
use verified_node_replicatio.Prelude.{
  ℕ, refl, ◌<◌, ◌≡◌, ◌≢◌, Map, none, some, length, length-push, get_elem?-push, get_elem?-lt,
  insert, arith,
}
use verified_node_replicatio.FlatCombiner
use verified_node_replicatio.FlatCombiner.{
  State, ClientState, SlotState, CombinerState, as_in_progress,
}
use verified_node_replicatio.FlatCombiner.Next.{Action, step}
use verified_node_replicatio.FlatCombiner.Enabled.{
  collect_request_lem, responding_result_lem, recv_response_lem,
}
use verified_node_replicatio.FlatCombiner.Inv.{Inv, CombinerWf, CollectingWf, RespondingWf}

pub initialize-Inv : (num_threads : ℕ) → Inv (FlatCombiner.initialize num_threads)
unfolding FlatCombiner.initialize
initialize-Inv num_threads = grind arith

combiner_responding_start-Inv :
    (s : State) {t : State} → Inv s → FlatCombiner.combiner_responding_start s ≡ some t → Inv t
unfolding FlatCombiner.combiner_responding_start
combiner_responding_start-Inv s inv e = grind arith

combiner_responding_done-Inv :
    (s : State) {t : State} → Inv s → FlatCombiner.combiner_responding_done s ≡ some t → Inv t
unfolding FlatCombiner.combiner_responding_done
combiner_responding_done-Inv s inv e = grind (arith, get_elem?-lt)

send_request-Inv :
    (tid rid : ℕ) (s : State) {t : State}
    → Inv s
    → FlatCombiner.send_request tid rid s ≡ some t
    → Inv t
unfolding FlatCombiner.send_request
send_request-Inv tid rid s inv e = grind arith

combiner_collect_empty-Inv :
    (s : State) {t : State} → Inv s → FlatCombiner.combiner_collect_empty s ≡ some t → Inv t
unfolding FlatCombiner.combiner_collect_empty
combiner_collect_empty-Inv s inv e = grind (arith, get_elem?-push, length-push)

combiner_collect_request-Inv :
    (s : State) {t : State} → Inv s → FlatCombiner.combiner_collect_request s ≡ some t → Inv t
combiner_collect_request-Inv s inv e =
    let (reqs, rid, c, sl, eq) = collect_request_lem s e in
    let k = length reqs in
    let w : CollectingWf (s.num_threads) (s.slots) reqs = rw c at inv.combiner_wf in
    let lt : k < s.num_threads = ground (arith, inv.slots_out k) in
    rw eq (record {
      clients_in = inv.clients_in;
      clients_out = inv.clients_out;
      slots_in = λ i lt. ground (arith, inv.slots_in i lt);
      slots_out = λ i le. ground (arith, inv.slots_out i le);
      client_slot_empty = λ i a b f g. ground (
        arith,
        inv.client_slot_empty i a b f,
        inv.client_slot_empty i a (SlotState.request rid) f,
      );
      client_reqids = λ i r b f g.
          ground
            (arith, inv.client_reqids i r b f, inv.client_reqids i r (SlotState.request rid) f);
      combiner_wf = record {
        len = omega (arith, length-push reqs (some rid));
        none_free = λ i b g f. ground (
          arith,
          get_elem?-push reqs (some rid) i g,
          w.none_free i b,
          get_elem?-lt reqs i {a = none},
        );
        above_free = λ i b le f. ground (arith, length-push reqs (some rid), w.above_free i b);
        ids = λ i r g. ground (
          arith,
          get_elem?-push reqs (some rid) i g,
          w.ids i r,
          get_elem?-lt reqs i {a = some r},
        );
      };
    })

combiner_responding_empty-Inv :
    (s : State) {t : State} → Inv s → FlatCombiner.combiner_responding_empty s ≡ some t → Inv t
unfolding FlatCombiner.combiner_responding_empty
combiner_responding_empty-Inv s inv e = grind arith

combiner_responding_result-Inv :
    (s : State) {t : State} → Inv s → FlatCombiner.combiner_responding_result s ≡ some t → Inv t
combiner_responding_result-Inv s inv e =
    let (reqs, idx, q, rid, c, lt, g, sl, eq) = responding_result_lem s e in
    let w : RespondingWf (s.num_threads) (s.slots) reqs idx = rw c at inv.combiner_wf in
    rw eq (record {
      clients_in = inv.clients_in;
      clients_out = inv.clients_out;
      slots_in = λ i lt. ground (arith, inv.slots_in i lt);
      slots_out = λ i le. ground (arith, inv.slots_out i le);
      client_slot_empty = λ i a b f g. ground (
        arith,
        inv.client_slot_empty i a b f,
        inv.client_slot_empty i a (SlotState.in_progress rid) f,
      );
      client_reqids = λ i r b f g.
          ground
            (arith, inv.client_reqids i r b f, inv.client_reqids i r (SlotState.in_progress rid) f);
      combiner_wf = record {
        len = w.len;
        idx_le = omega (arith, w.len);
        none_free = λ i b h f. ground (arith, w.none_free i b h);
        below_free = λ i b lt f. ground (arith, w.below_free i b);
        ids = λ i r le h. ground (arith, w.ids i r);
      };
    })

-- A slot that is not in progress becomes another one that is not.
insert-CombinerWf :
    (n : ℕ) (slots : Map SlotState) (tid : ℕ) (sl : SlotState) (c : CombinerState)
    → as_in_progress sl ≡ none
    → ((rid : ℕ) → slots tid ≢ some (SlotState.in_progress rid))
    → CombinerWf n slots c
    → CombinerWf n (insert slots tid sl) c
insert-CombinerWf n slots tid sl (CombinerState.collecting reqs) free was w = record {
  len = w.len;
  none_free = λ i b g f. ground (arith, w.none_free i b g);
  above_free = λ i b le f. ground (arith, w.above_free i b le);
  ids = λ i r g. ground (arith, w.ids i r g, was r);
}
insert-CombinerWf n slots tid sl (CombinerState.responding reqs idx) free was w = record {
  len = w.len;
  idx_le = w.idx_le;
  none_free = λ i b g f. ground (arith, w.none_free i b g);
  below_free = λ i b lt f. ground (arith, w.below_free i b lt);
  ids = λ i r le g. ground (arith, w.ids i r le g, was r);
}

recv_response-Inv :
    (tid rid : ℕ) (s : State) {t : State}
    → Inv s
    → FlatCombiner.recv_response tid rid s ≡ some t
    → Inv t
recv_response-Inv tid rid s inv e =
    let (cl, sl, eq) = recv_response_lem tid rid s e in
    rw eq (record {
      clients_in = λ i lt. ground (arith, inv.clients_in i lt);
      clients_out = λ i le. ground (arith, inv.clients_out i le);
      slots_in = λ i lt. ground (arith, inv.slots_in i lt);
      slots_out = λ i le. ground (arith, inv.slots_out i le);
      client_slot_empty = λ i a b f g. ground (arith, inv.client_slot_empty i a b);
      client_reqids = λ i r b f g. ground (arith, inv.client_reqids i r b);
      combiner_wf =
          insert-CombinerWf (s.num_threads) (s.slots) tid SlotState.empty (s.combiner) refl
            (λ q h. cc) (inv.combiner_wf);
    })

-- Every transition of the flat combiner, those of its clients included, keeps its invariants.
pub combiner_step-Inv : (a : Action) (s : State) {t : State} → Inv s → step a s ≡ some t → Inv t
unfolding step
combiner_step-Inv Action.combiner_collect_empty s inv e = combiner_collect_empty-Inv s inv e
combiner_step-Inv Action.combiner_collect_request s inv e = combiner_collect_request-Inv s inv e
combiner_step-Inv Action.combiner_responding_start s inv e = combiner_responding_start-Inv s inv e
combiner_step-Inv Action.combiner_responding_empty s inv e = combiner_responding_empty-Inv s inv e
combiner_step-Inv Action.combiner_responding_result s inv e = combiner_responding_result-Inv s inv e
combiner_step-Inv Action.combiner_responding_done s inv e = combiner_responding_done-Inv s inv e
combiner_step-Inv (Action.send_request tid rid) s inv e = send_request-Inv tid rid s inv e
combiner_step-Inv (Action.recv_response tid rid) s inv e = recv_response-Inv tid rid s inv e
