-- ===== src/Network/Sync/Node/Chains.antt =====
-- The chains of synchronizations: a chain comes to an end.
use zamlet.Common.{
  ℕ, zero, suc, ◌≤◌, ◌<◌, Bool-cases, inl, inr, true, ◌||◌, not, ◌≡◌, refl, sym, subst, ap, arith,
  Option, none, some, List, [], ◌∷◌, length, Result, ok, err, assertion, ok_unique, >>=-eq-ok,
  or_raise-then, lookup, erase,
}
use zamlet.Params.{ZamletParams}
use zamlet.Network.Sync.{SyncPacket}
use zamlet.Network.Sync.Grid.{SyncDirection}
use zamlet.Network.Sync.State.{SyncState, may_complete, aggregated_value, mark_local}
use zamlet.Network.Sync.Node.{
  Synchronizer, LocalEvent, put, fire, chained, complete, then_update, then_fire, update_completed,
  update_all, local_event, process_received_packet, trigger_event, add_chain, then_event,
  chain_from, chain_fault_sync,
}

length-erase : (i : ℕ) (m : List (ℕ × ℕ)) → length (erase i m) ≤ length m
unfolding erase
length-erase i [] = omega arith
length-erase i ((j, w) ∷ m) = ground (arith, length-erase i m)

erase_shorter : (i t : ℕ) (m : List (ℕ × ℕ)) → lookup i m ≡ some t → length (erase i m) < length m
unfolding erase lookup
erase_shorter i t [] h = cc
erase_shorter i t ((j, w) ∷ m) h = ground (arith, length-erase i m, erase_shorter i t m)

module _ (params : ZamletParams) (x y : ℕ) where
  -- An event from a chain leaves a shorter list of chains.
  chained_shorter :
      (s t : Synchronizer) (i : ℕ) (state : SyncState) (v : Option ℕ) (target : Option ℕ)
      (event : LocalEvent)
      → lookup i (s.fault_chains) ≡ target
      → chained params x y s i state v target ≡ ok (t, some event)
      → length (t.fault_chains) < length (s.fault_chains)
  unfolding chained
  chained_shorter s t i state v none event e h = cc
  chained_shorter s t i state v (some u) event e h =
      let (op, e1, e2) = or_raise-then (state.op) assertion _ h in
      let p : ◌≡◌ {A = Synchronizer × Option LocalEvent} (_, some _) (t, some event) =
        ok_unique e2 in
      subst (λ (t : Synchronizer). length (t.fault_chains) < length (s.fault_chains))
        (ap (λ (q : Synchronizer × Option LocalEvent). q.0) p)
        (erase_shorter i u (s.fault_chains) e)

  complete_shorter :
      (s t : Synchronizer) (i : ℕ) (entry : Option SyncState) (event : LocalEvent)
      → complete params x y s i entry ≡ ok (t, some event)
      → length (t.fault_chains) < length (s.fault_chains)
  unfolding complete
  complete_shorter s t i none event h = cc
  complete_shorter s t i (some state) event h =
      elim (Bool-cases (state.completed || not (may_complete params x y state))) [
        | inl b ↦ let h' = rw b at h in cc
        | inr b ↦
            let (v, _, e) = >>=-eq-ok (aggregated_value params x y state) _ (rw b at h) in
            chained_shorter (put s i (record state { completed = true })) t i state v
              (lookup i (s.fault_chains)) event refl e
      ]

  fire-fault_chains :
      (s t : Synchronizer) (event : LocalEvent)
      → fire params x y s event ≡ ok t
      → t.fault_chains ≡ s.fault_chains
  unfolding fire
  fire-fault_chains s t event h =
      let (state, _, e) =
        >>=-eq-ok
          (mark_local params x y (event.value) (event.op) (event.width)
            (s.sync_states (event.sync_ident)))
          _ h in
      ap (λ (q : Synchronizer). q.fault_chains) (sym (ok_unique e))

  abbrev pub Ends : Option (Result Synchronizer) → Type 0
  Ends r = (result : Result Synchronizer) × (r ≡ some result)

  then_update-Ends :
      (again : Synchronizer → ℕ → Option (Result Synchronizer)) (i : ℕ) (r : Result Synchronizer)
      → ((t : Synchronizer) → r ≡ ok t → Ends (again t i))
      → Ends (then_update params x y again i r)
  then_update-Ends again i (err e) h = (err e, refl)
  then_update-Ends again i (ok t) h = h t refl

  then_fire-Ends :
      (again : Synchronizer → ℕ → Option (Result Synchronizer))
      (r : Result (Synchronizer × Option LocalEvent))
      → ((t u : Synchronizer) (event : LocalEvent)
          → r ≡ ok (t, some event)
          → fire params x y t event ≡ ok u
          → Ends (again u (event.sync_ident)))
      → Ends (then_fire params x y again r)
  then_fire-Ends again (err e) h = (err e, refl)
  then_fire-Ends again (ok (t, none)) h = (ok t, refl)
  then_fire-Ends again (ok (t, some event)) h =
      then_update-Ends again (event.sync_ident) (fire params x y t event)
        (λ u e. h t u event refl e)

  update_completed-Ends :
      (fuel : ℕ) (s : Synchronizer) (i : ℕ)
      → length (s.fault_chains) < fuel
      → Ends (update_completed params x y fuel s i)
  unfolding update_completed
  update_completed-Ends zero s i enough = absurd (omega arith)
  update_completed-Ends (suc fuel) s i enough =
      then_fire-Ends (λ t j. update_completed params x y fuel t j)
        (complete params x y s i (s.sync_states i))
        (λ t u event e f. update_completed-Ends fuel u (event.sync_ident) (
          omega (
            arith,
            ap length (fire-fault_chains t u event f),
            complete_shorter s t i (s.sync_states i) event e,
          )))

  update_all-Ends : (s : Synchronizer) (i : ℕ) → Ends (update_all params x y s i)
  unfolding update_all
  update_all-Ends s i = update_completed-Ends (suc (length (s.fault_chains))) s i (omega arith)

  pub local_event-Ends :
      (s : Synchronizer) (event : LocalEvent) → Ends (local_event params x y s event)
  unfolding local_event
  local_event-Ends s event =
      then_update-Ends (update_all params x y) (event.sync_ident) (fire params x y s event)
        (λ t _. update_all-Ends t (event.sync_ident))

  pub process_received_packet-Ends :
      (s : Synchronizer) (packet : SyncPacket) (d : SyncDirection)
      → Ends (process_received_packet params x y s packet d)
  unfolding process_received_packet
  process_received_packet-Ends s packet d =
      then_update-Ends (update_all params x y) (packet.sync_ident) _
        (λ t _. update_all-Ends t (packet.sync_ident))

  pub chain_fault_sync-Ends :
      (s : Synchronizer) (trigger target : ℕ) → Ends (chain_fault_sync params x y s trigger target)
  unfolding chain_fault_sync
  chain_fault_sync-Ends s trigger target = by_entry (s.sync_states trigger)
    where
      by_event : (r : Result LocalEvent) → Ends (then_event params x y s r)
      by_event (err e) = (err e, refl)
      by_event (ok event) = local_event-Ends s event

      by_entry : (entry : Option SyncState) → Ends (chain_from params x y s trigger target entry)
      by_entry none = (ok (add_chain params x y s trigger target), refl)
      by_entry (some state) = elim (Bool-cases (state.completed)) [
        | inl e ↦ simp (e) (by_event (trigger_event params x y state target))
        | inr e ↦ simp (e) (ok (add_chain params x y s trigger target), refl)
      ]

  -- `local_event`, `_process_received_packet` and `chain_fault_sync` return or raise, whatever
  -- synchronizations are chained: one round more than there are chains is enough for the calls
  -- that complete one synchronization after another.
  pub synchronizer-Ends :
      (s : Synchronizer) (event : LocalEvent) (packet : SyncPacket) (d : SyncDirection)
      (trigger target : ℕ)
      → Ends (local_event params x y s event)
        × Ends (process_received_packet params x y s packet d)
        × Ends (chain_fault_sync params x y s trigger target)
  synchronizer-Ends s event packet d trigger target = (
    local_event-Ends s event,
    process_received_packet-Ends s packet d,
    chain_fault_sync-Ends s trigger target,
  )
