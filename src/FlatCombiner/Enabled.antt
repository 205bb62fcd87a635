-- ===== src/FlatCombiner/Enabled.antt =====
-- What an enabled transition of spec/flat_combiner.rs found, and the state that it leaves.
use verified_node_replicatio.Prelude.{
  ℕ, suc, ◌<◌, ◌≡◌, Option, some, List, length, get_elem?, push, insert, arith,
}
use verified_node_replicatio.FlatCombiner
use verified_node_replicatio.FlatCombiner.{State, ClientState, SlotState, CombinerState}

pub collect_request_lem :
    (s : State) {t : State}
    → FlatCombiner.combiner_collect_request s ≡ some t
    → (reqs : List (Option ℕ)) × (rid : ℕ) × (s.combiner ≡ CombinerState.collecting reqs)
      × (s.slots (length reqs) ≡ some (SlotState.request rid))
      × (t ≡ record s {
        slots = insert (s.slots) (length reqs) (SlotState.in_progress rid);
        combiner = CombinerState.collecting (push reqs (some rid));
      })
unfolding FlatCombiner.combiner_collect_request
collect_request_lem s e = ground arith

pub responding_result_lem :
    (s : State) {t : State}
    → FlatCombiner.combiner_responding_result s ≡ some t
    → (reqs : List (Option ℕ)) × (idx r rid : ℕ) × (s.combiner ≡ CombinerState.responding reqs idx)
      × (idx < s.num_threads)
      × (get_elem? reqs idx ≡ some (some r))
      × (s.slots idx ≡ some (SlotState.in_progress rid))
      × (t ≡ record s {
        slots = insert (s.slots) idx (SlotState.response rid);
        combiner = CombinerState.responding reqs (suc idx);
      })
unfolding FlatCombiner.combiner_responding_result
responding_result_lem s e = ground arith

pub recv_response_lem :
    (tid rid : ℕ) (s : State) {t : State}
    → FlatCombiner.recv_response tid rid s ≡ some t
    → (s.clients tid ≡ some (ClientState.waiting rid))
      × (s.slots tid ≡ some (SlotState.response rid))
      × (t ≡ record s {
        clients = insert (s.clients) tid ClientState.idle;
        slots = insert (s.slots) tid SlotState.empty;
      })
unfolding FlatCombiner.recv_response
recv_response_lem tid rid s e = ground arith
