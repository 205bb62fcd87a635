-- ===== src/FlatCombiner.antt =====
-- spec/flat_combiner.rs: the threads of a replica leave requests in their slots, and the combiner
-- collects and answers them. A transition is `none` where it is not enabled.
pub mod Next
pub mod Enabled
pub mod Inv
pub mod Preserve
pub mod Safety
use verified_node_replicatio.Prelude.{
  ℕ, zero, suc, ◌==◌, Bool, true, false, Option, none, some, List, [], length, get_elem?, push,
  if◌then◌else◌, ltb, guard, ◌>>=◌, ◌>>◌, is_none, Map, insert,
}

-- `enum ClientState`
pub data ClientState : Type 0 where
  idle : ClientState
  waiting : (rid : ℕ) → ClientState

-- `enum SlotState`
pub data SlotState : Type 0 where
  empty : SlotState
  request : (rid : ℕ) → SlotState
  in_progress : (rid : ℕ) → SlotState
  response : (rid : ℕ) → SlotState

-- `SlotState::get_ReqId`, which has no value for an empty slot.
abbrev pub get_req_id : SlotState → Option ℕ
get_req_id SlotState.empty = none
get_req_id (SlotState.request rid) = some rid
get_req_id (SlotState.in_progress rid) = some rid
get_req_id (SlotState.response rid) = some rid

-- `enum CombinerState`
pub data CombinerState : Type 0 where
  collecting : (reqs : List (Option ℕ)) → CombinerState
  responding : (reqs : List (Option ℕ)) (idx : ℕ) → CombinerState

pub record State : Type 0 where
  pub num_threads : ℕ
  pub clients : Map ClientState
  pub slots : Map SlotState
  pub combiner : CombinerState

abbrev pub get_collecting : CombinerState → Option (List (Option ℕ))
get_collecting (CombinerState.collecting reqs) = some reqs
get_collecting (CombinerState.responding reqs idx) = none

abbrev pub get_responding : CombinerState → Option (List (Option ℕ) × ℕ)
get_responding (CombinerState.collecting reqs) = none
get_responding (CombinerState.responding reqs idx) = some (reqs, idx)

-- `let ClientState::Idle`
abbrev pub as_idle : ClientState → Option (Unit {0})
as_idle ClientState.idle = some tt
as_idle (ClientState.waiting rid) = none

abbrev pub as_waiting : ClientState → Option ℕ
as_waiting ClientState.idle = none
as_waiting (ClientState.waiting rid) = some rid

abbrev pub as_empty : SlotState → Option (Unit {0})
as_empty SlotState.empty = some tt
as_empty _ = none

abbrev pub as_request : SlotState → Option ℕ
as_request (SlotState.request rid) = some rid
as_request _ = none

abbrev pub as_in_progress : SlotState → Option ℕ
as_in_progress (SlotState.in_progress rid) = some rid
as_in_progress _ = none

abbrev pub as_response : SlotState → Option ℕ
as_response (SlotState.response rid) = some rid
as_response _ = none

-- `let (SlotState::Empty | SlotState::Response)`
abbrev pub as_empty_or_response : SlotState → Option (Unit {0})
as_empty_or_response SlotState.empty = some tt
as_empty_or_response (SlotState.request rid) = none
as_empty_or_response (SlotState.in_progress rid) = none
as_empty_or_response (SlotState.response rid) = some tt

unfoldable pub initialize : ℕ → State
initialize num_threads = record {
  num_threads = num_threads;
  clients = λ i. if ltb i num_threads then some ClientState.idle else none;
  slots = λ i. if ltb i num_threads then some SlotState.empty else none;
  combiner = CombinerState.collecting [];
}

unfoldable pub combiner_collect_empty : State → Option State
combiner_collect_empty s = do
  reqs ← get_collecting (s.combiner)
  slot ← s.slots (length reqs)
  as_empty_or_response slot
  some (record s { combiner = CombinerState.collecting (push reqs none) })

unfoldable pub combiner_collect_request : State → Option State
combiner_collect_request s = do
  reqs ← get_collecting (s.combiner)
  slot ← s.slots (length reqs)
  rid ← as_request slot
  some (record s {
    slots = insert (s.slots) (length reqs) (SlotState.in_progress rid);
    combiner = CombinerState.collecting (push reqs (some rid));
  })

unfoldable pub combiner_responding_start : State → Option State
combiner_responding_start s = do
  reqs ← get_collecting (s.combiner)
  guard (length reqs == s.num_threads)
  some (record s { combiner = CombinerState.responding reqs 0 })

unfoldable pub combiner_responding_empty : State → Option State
combiner_responding_empty s = do
  r ← get_responding (s.combiner)
  guard (ltb r.1 (s.num_threads))
  req ← get_elem? r.0 r.1
  guard (is_none req)
  some (record s { combiner = CombinerState.responding r.0 (suc r.1) })

-- The source asserts that the slot holds the request in progress; here the step needs it.
unfoldable pub combiner_responding_result : State → Option State
combiner_responding_result s = do
  r ← get_responding (s.combiner)
  guard (ltb r.1 (s.num_threads))
  req ← get_elem? r.0 r.1
  _ ← req
  slot ← s.slots r.1
  rid ← as_in_progress slot
  some (record s {
    slots = insert (s.slots) r.1 (SlotState.response rid);
    combiner = CombinerState.responding r.0 (suc r.1);
  })

unfoldable pub combiner_responding_done : State → Option State
combiner_responding_done s = do
  r ← get_responding (s.combiner)
  guard (r.1 == s.num_threads)
  some (record s { combiner = CombinerState.collecting [] })

unfoldable pub send_request : ℕ → ℕ → State → Option State
send_request tid rid s = do
  c ← s.clients tid
  as_idle c
  slot ← s.slots tid
  as_empty slot
  some (record s {
    clients = insert (s.clients) tid (ClientState.waiting rid);
    slots = insert (s.slots) tid (SlotState.request rid);
  })

unfoldable pub recv_response : ℕ → ℕ → State → Option State
recv_response tid rid s = do
  c ← s.clients tid
  r ← as_waiting c
  guard (r == rid)
  slot ← s.slots tid
  r' ← as_response slot
  guard (r' == rid)
  some (record s {
    clients = insert (s.clients) tid ClientState.idle;
    slots = insert (s.slots) tid SlotState.empty;
  })
