-- ===== src/FlatCombiner/Safety.antt =====
-- spec/flat_combiner.rs: the safety conditions, `pre_combiner_collect_request`, `pre_send_request` and
-- `pre_recv_response`, and the progress of the combiner.
use verified_node_replicatio.Prelude.{
  ℕ, suc, ◌<◌, ◌≡◌, refl, present, Option, none, some, List, [], insert, push, length, get_elem?,
  get_elem?_total, arith,
}
use native.Mathlib.Decide.{dec_lt}
use verified_node_replicatio.FlatCombiner
use verified_node_replicatio.FlatCombiner.{State, ClientState, SlotState, CombinerState, get_req_id}
use verified_node_replicatio.FlatCombiner.Next.{Action, step, Reachable, inited, stepped}
use verified_node_replicatio.FlatCombiner.Inv.{Inv, CollectingWf, RespondingWf}
use verified_node_replicatio.FlatCombiner.Preserve.{initialize-Inv, combiner_step-Inv}

-- Every reachable state has the invariants.
pub Reachable-Inv : {num_threads : ℕ} {s : State} → Reachable num_threads s → Inv s
Reachable-Inv {num_threads} inited = initialize-Inv num_threads
Reachable-Inv (stepped {s} a r e) = combiner_step-Inv a s (Reachable-Inv r) e

-- In a reachable state the request in the slot of a thread that waits is the one that it waits for,
-- and a thread that is idle has an empty slot.
pub waits_for_its_own :
    {num_threads : ℕ} {s : State} (tid : ℕ) {c : ClientState} {sl : SlotState}
    → Reachable num_threads s
    → s.clients tid ≡ some c
    → s.slots tid ≡ some sl
    → ((rid : ℕ) → c ≡ ClientState.waiting rid → get_req_id sl ≡ some rid)
      × (c ≡ ClientState.idle → sl ≡ SlotState.empty)
waits_for_its_own tid {c} {sl} r f g =
    let inv = Reachable-Inv r in
    (λ rid e. inv.client_reqids tid rid sl (rw e at f) g, (inv.client_slot_empty tid c sl f g).0)

-- The transitions of the combiner, which need no client.
abbrev pub IsCombiner : Action → Type 0
IsCombiner (Action.send_request tid rid) = ⊥
IsCombiner (Action.recv_response tid rid) = ⊥
IsCombiner _ = Unit {0}

record Enabled (s : State) : Type 0 where
  a : Action
  of_combiner : IsCombiner a
  t : State
  enabled : step a s ≡ some t

collecting-Enabled :
    (s : State) (reqs : List (Option ℕ))
    → Inv s
    → s.combiner ≡ CombinerState.collecting reqs
    → Enabled s
unfolding step FlatCombiner.combiner_collect_empty FlatCombiner.combiner_collect_request
    FlatCombiner.combiner_responding_start
collecting-Enabled s reqs inv c =
    let w : CollectingWf (s.num_threads) (s.slots) reqs = rw c at inv.combiner_wf in
    elim (dec_lt (length reqs) (s.num_threads)) [
      | yes more ↦
          let (sl, f) = present (s.slots (length reqs)) (inv.slots_in (length reqs) more) in
          slot sl f (w.above_free (length reqs) sl (omega arith) f)
      | no all ↦ record {
        a = Action.combiner_responding_start;
        of_combiner = tt;
        t = record s { combiner = CombinerState.responding reqs 0 };
        enabled = ground (arith, w.len);
      }
    ]
  where
    slot :
        (sl : SlotState)
        → s.slots (length reqs) ≡ some sl
        → FlatCombiner.as_in_progress sl ≡ none
        → Enabled s
    slot SlotState.empty f free = record {
      a = Action.combiner_collect_empty;
      of_combiner = tt;
      t = record s { combiner = CombinerState.collecting (push reqs none) };
      enabled = rw c (rw f refl);
    }
    slot (SlotState.request rid) f free = record {
      a = Action.combiner_collect_request;
      of_combiner = tt;
      t = record s {
        slots = insert (s.slots) (length reqs) (SlotState.in_progress rid);
        combiner = CombinerState.collecting (push reqs (some rid));
      };
      enabled = rw c (rw f refl);
    }
    slot (SlotState.in_progress rid) f free = absurd (cc)
    slot (SlotState.response rid) f free = record {
      a = Action.combiner_collect_empty;
      of_combiner = tt;
      t = record s { combiner = CombinerState.collecting (push reqs none) };
      enabled = rw c (rw f refl);
    }

-- In a reachable state the answer to a collected request can be given, and it goes to the slot that
-- holds this request in progress (the assertions of `combiner_responding_result`).
pub responding_result-enabled :
    {num_threads : ℕ} {s : State} {reqs : List (Option ℕ)} {idx rid : ℕ}
    → Reachable num_threads s
    → s.combiner ≡ CombinerState.responding reqs idx
    → get_elem? reqs idx ≡ some (some rid)
    → (t : State) × (FlatCombiner.combiner_responding_result s ≡ some t)
      × (s.slots idx ≡ some (SlotState.in_progress rid))
      × (t.slots idx ≡ some (SlotState.response rid))
unfolding FlatCombiner.combiner_responding_result
responding_result-enabled {s} {reqs} {idx} {rid} r c g =
    let inv = Reachable-Inv r in
    let w : RespondingWf (s.num_threads) (s.slots) reqs idx = rw c at inv.combiner_wf in
    let f = w.ids idx rid (omega arith) g in
    let lt : idx < s.num_threads = ground (arith, inv.slots_out idx) in
    let t : State = record s {
      slots = insert (s.slots) idx (SlotState.response rid);
      combiner = CombinerState.responding reqs (suc idx);
    } in
    (t, ground arith, f, ground arith)

responding-Enabled :
    {num_threads : ℕ} (s : State) (reqs : List (Option ℕ)) (idx : ℕ)
    → Reachable num_threads s
    → s.combiner ≡ CombinerState.responding reqs idx
    → Enabled s
unfolding step FlatCombiner.combiner_responding_empty FlatCombiner.combiner_responding_done
responding-Enabled s reqs idx r c =
    let inv = Reachable-Inv r in
    let w : RespondingWf (s.num_threads) (s.slots) reqs idx = rw c at inv.combiner_wf in
    elim (dec_lt idx (s.num_threads)) [
      | yes more ↦
          let (req, g) = get_elem?_total reqs idx (omega (arith, w.len)) in answer req g more
      | no all ↦ record {
        a = Action.combiner_responding_done;
        of_combiner = tt;
        t = record s { combiner = CombinerState.collecting [] };
        enabled = ground (arith, w.len, w.idx_le);
      }
    ]
  where
    answer : (req : Option ℕ) → get_elem? reqs idx ≡ some req → idx < s.num_threads → Enabled s
    answer none g lt = record {
      a = Action.combiner_responding_empty;
      of_combiner = tt;
      t = record s { combiner = CombinerState.responding reqs (suc idx) };
      enabled = ground arith;
    }
    answer (some rid) g lt =
        let (t, e, _, _) = responding_result-enabled r c g in
        record { a = Action.combiner_responding_result; of_combiner = tt; t = t; enabled = e }

-- The combiner is never stuck: in a reachable state one of its transitions is enabled.
pub IsCombiner-enabled :
    {num_threads : ℕ} {s : State}
    → Reachable num_threads s
    → (a : Action) × (t : State) × IsCombiner a × (step a s ≡ some t)
IsCombiner-enabled {s} r = let e = go (s.combiner) refl in (e.a, e.t, e.of_combiner, e.enabled)
  where
    go : (c : CombinerState) → s.combiner ≡ c → Enabled s
    go (CombinerState.collecting reqs) e = collecting-Enabled s reqs (Reachable-Inv r) e
    go (CombinerState.responding reqs idx) e = responding-Enabled s reqs idx r e
