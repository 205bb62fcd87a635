-- ===== src/FlatCombiner/Inv.antt =====
-- spec/flat_combiner.rs: the invariants.
use verified_node_replicatio.Prelude.{
  ℕ, ◌≤◌, ◌<◌, ◌≡◌, ◌≢◌, ◌↔◌, Option, none, some, List, length, get_elem?, Map,
}
use verified_node_replicatio.FlatCombiner.{
  ClientState, SlotState, CombinerState, State, get_req_id, as_in_progress,
}

-- `inv_combiner_elements`, `inv_combiner_slots_not_in_progress` and `inv_combiner_request_ids` while
-- the combiner collects.
pub record CollectingWf (num_threads : ℕ) (slots : Map SlotState) (reqs : List (Option ℕ))
    : Type 0 where
  pub len : length reqs ≤ num_threads
  pub none_free :
      (i : ℕ) (sl : SlotState)
      → get_elem? reqs i ≡ some none
      → slots i ≡ some sl
      → as_in_progress sl ≡ none
  pub above_free :
      (i : ℕ) (sl : SlotState) → length reqs ≤ i → slots i ≡ some sl → as_in_progress sl ≡ none
  pub ids :
      (i rid : ℕ) → get_elem? reqs i ≡ some (some rid) → slots i ≡ some (SlotState.in_progress rid)

-- The same while the combiner answers.
pub record RespondingWf (num_threads : ℕ) (slots : Map SlotState) (reqs : List (Option ℕ)) (idx : ℕ)
    : Type 0 where
  pub len : length reqs ≡ num_threads
  pub idx_le : idx ≤ length reqs
  pub none_free :
      (i : ℕ) (sl : SlotState)
      → get_elem? reqs i ≡ some none
      → slots i ≡ some sl
      → as_in_progress sl ≡ none
  pub below_free : (i : ℕ) (sl : SlotState) → i < idx → slots i ≡ some sl → as_in_progress sl ≡ none
  pub ids :
      (i rid : ℕ)
      → idx ≤ i
      → get_elem? reqs i ≡ some (some rid)
      → slots i ≡ some (SlotState.in_progress rid)

abbrev pub CombinerWf : ℕ → Map SlotState → CombinerState → Type 0
CombinerWf num_threads slots (CombinerState.collecting reqs) = CollectingWf num_threads slots reqs
CombinerWf num_threads slots (CombinerState.responding reqs idx) =
    RespondingWf num_threads slots reqs idx

pub record Inv (s : State) : Type 0 where
  pub clients_in : (i : ℕ) → i < s.num_threads → s.clients i ≢ none
  pub clients_out : (i : ℕ) → s.num_threads ≤ i → s.clients i ≡ none
  pub slots_in : (i : ℕ) → i < s.num_threads → s.slots i ≢ none
  pub slots_out : (i : ℕ) → s.num_threads ≤ i → s.slots i ≡ none
  pub client_slot_empty :
      (i : ℕ) (c : ClientState) (sl : SlotState)
      → s.clients i ≡ some c
      → s.slots i ≡ some sl
      → (c ≡ ClientState.idle) ↔ (sl ≡ SlotState.empty)
  pub client_reqids :
      (i rid : ℕ) (sl : SlotState)
      → s.clients i ≡ some (ClientState.waiting rid)
      → s.slots i ≡ some sl
      → get_req_id sl ≡ some rid
  pub combiner_wf : CombinerWf (s.num_threads) (s.slots) (s.combiner)
