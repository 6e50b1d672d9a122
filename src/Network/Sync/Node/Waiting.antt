-- ===== src/Network/Sync/Node/Waiting.antt =====
-- What waits for a synchronization waits for one that is not complete.
use zamlet.Common.{
  ℕ, zero, suc, ◌==◌, Bool-cases, inl, inr, true, false, ◌&&◌, ◌||◌, not, ◌≡◌, refl, sym, subst, ap,
  ◌∙◌, Option, none, some, List, [], ◌∷◌, length, Result, ok, err, assertion, assert, ◌>>=◌, ◌>>◌,
  ok_unique, ==→eq, >>=-eq-ok, or_raise-then, assert-then, lookup, erase, lookup-erase,
  lookup-insert,
}
use zamlet.Params.{ZamletParams}
use zamlet.Network.Sync.{SyncPacket}
use zamlet.Network.Sync.Aggregate.{SyncAggOp}
use zamlet.Network.Sync.Grid.{SyncDirection}
use zamlet.Network.Sync.State.{
  SyncState, start_state, may_complete, should_send, get_value_for_direction, aggregated_value,
  same_op, set_op, current_state, mark_local, mark_received, mark_sent,
}
use zamlet.Network.Sync.Node.{
  Synchronizer, LocalEvent, put, is_complete, entry_completed, clear_sync, fire, chained, complete,
  then_update, then_fire, update_completed, update_all, local_event, process_received_packet,
  trigger_event, add_chain, then_event, chain_from, chain_fault_sync, send_packet, Call, call_event,
  call_packet, call_chain, call_send, call_clear, call_look, node_after, has_sync, perform,
  then_calls, run_calls, no_syncs, send_from,
}

-- Every trigger that is recorded is not complete.
abbrev pub WaitsOpen : Synchronizer → Type 0
WaitsOpen s = (t u : ℕ) → lookup t (s.fault_chains) ≡ some u → is_complete s t ≡ false

put-WaitsOpen :
    (s : Synchronizer) (i : ℕ) (state : SyncState)
    → state.completed ≡ false
    → WaitsOpen s
    → WaitsOpen (put s i state)
put-WaitsOpen s i state open_yet waits t u e = elim (Bool-cases (t == i)) [
  | inl h ↦ rw h open_yet
  | inr h ↦ rw h (waits t u e)
]

module _ (params : ZamletParams) (x y : ℕ) where
  current_state-open :
      (op : Option SyncAggOp) (width : ℕ) (entry : Option SyncState)
      → (current_state params x y op width entry).completed ≡ false
  unfolding current_state start_state
  current_state-open op width none = refl
  current_state-open op width (some state) = elim (Bool-cases (state.completed)) [
    | inl e ↦ simp (e) refl
    | inr e ↦ simp (e) refl
  ]

  set_op-open :
      (op : SyncAggOp) (width : ℕ) (state after : SyncState) (old : Option SyncAggOp)
      → state.completed ≡ false
      → (elim old [
        | none ↦ ok (record state { op = some op; width = width })
        | some a ↦ assert (same_op (some a) op && state.width == width) >> ok state
      ])
        ≡ ok after
      → after.completed ≡ false
  set_op-open op width state after none open_yet e =
      ap (λ (s : SyncState). s.completed) (sym (ok_unique e)) ∙ open_yet
  set_op-open op width state after (some a) open_yet e =
      let (_, f) = assert-then (same_op (some a) op && state.width == width) (ok state) e in
      ap (λ (s : SyncState). s.completed) (sym (ok_unique f)) ∙ open_yet

  mark_local-open :
      (value : Option ℕ) (op : SyncAggOp) (width : ℕ) (entry : Option SyncState) (state : SyncState)
      → mark_local params x y value op width entry ≡ ok state
      → state.completed ≡ false
  unfolding mark_local
  mark_local-open value op width entry state e =
      let start = current_state params x y (some op) width entry in
      let (s, e1, e2) = >>=-eq-ok (set_op op width start) _ e in
      ap (λ (s : SyncState). s.completed) (sym (ok_unique e2))
      ∙ set_op-open op width start s (start.op) (current_state-open (some op) width entry) e1

  mark_received-open :
      (value : Option ℕ) (d : SyncDirection) (entry : Option SyncState) (state : SyncState)
      → mark_received params x y value d entry ≡ ok state
      → state.completed ≡ false
  unfolding mark_received
  mark_received-open value d entry state e =
      let start = current_state params x y none 32 entry in
      let (_, f) = assert-then (not (start.synced d)) _ e in
      ap (λ (s : SyncState). s.completed) (sym (ok_unique f)) ∙ current_state-open none 32 entry

  fire-WaitsOpen :
      (s t : Synchronizer) (event : LocalEvent)
      → fire params x y s event ≡ ok t
      → WaitsOpen s
      → WaitsOpen t
  unfolding fire
  fire-WaitsOpen s t event h waits =
      let (state, e, f) =
        >>=-eq-ok
          (mark_local params x y (event.value) (event.op) (event.width)
            (s.sync_states (event.sync_ident)))
          _ h in
      subst WaitsOpen (ok_unique f) (
        put-WaitsOpen s (event.sync_ident) state
          (mark_local-open (event.value) (event.op) (event.width) (s.sync_states (event.sync_ident))
            state e)
          waits)

  done_alone :
      (s : Synchronizer) (i : ℕ) (state : SyncState)
      → lookup i (s.fault_chains) ≡ none
      → WaitsOpen s
      → WaitsOpen (put s i state)
  done_alone s i state alone waits t u e = elim (Bool-cases (t == i)) [
    | inl h ↦ let none' = rw (==→eq t i h) at e in cc
    | inr h ↦ rw h (waits t u e)
  ]

  done_erased :
      (s : Synchronizer) (i : ℕ) (state : SyncState)
      → WaitsOpen s
      → WaitsOpen (record (put s i state) { fault_chains = erase i (s.fault_chains) })
  done_erased s i state waits t u e = elim (Bool-cases (t == i)) [
    | inl h ↦ let none' = rw h at (lookup-erase {V = ℕ} t i (s.fault_chains)) in cc
    | inr h ↦ rw h (waits t u (sym (rw h at (lookup-erase t i (s.fault_chains))) ∙ e))
  ]

  -- A synchronization that completes is waited for no longer.
  chained-WaitsOpen :
      (s t : Synchronizer) (i : ℕ) (state : SyncState) (v : Option ℕ) (target : Option ℕ)
      (event : Option LocalEvent)
      → lookup i (s.fault_chains) ≡ target
      → chained params x y (put s i state) i state v target ≡ ok (t, event)
      → WaitsOpen s
      → WaitsOpen t
  unfolding chained
  chained-WaitsOpen s t i state v none event e h waits =
      let p : ◌≡◌ {A = Synchronizer × Option LocalEvent} (_, _) (t, event) = ok_unique h in
      subst WaitsOpen (ap (λ (q : Synchronizer × Option LocalEvent). q.0) p)
        (done_alone s i state e waits)
  chained-WaitsOpen s t i state v (some u) event e h waits =
      let (op, e1, e2) = or_raise-then (state.op) assertion _ h in
      let p : ◌≡◌ {A = Synchronizer × Option LocalEvent} (_, _) (t, event) = ok_unique e2 in
      subst WaitsOpen (ap (λ (q : Synchronizer × Option LocalEvent). q.0) p)
        (done_erased s i state waits)

  complete-WaitsOpen :
      (s t : Synchronizer) (i : ℕ) (entry : Option SyncState) (event : Option LocalEvent)
      → complete params x y s i entry ≡ ok (t, event)
      → WaitsOpen s
      → WaitsOpen t
  unfolding complete chained
  complete-WaitsOpen s t i none event h waits =
      let p : ◌≡◌ {A = Synchronizer × Option LocalEvent} (s, none) (t, event) = ok_unique h in
      subst WaitsOpen (ap (λ (q : Synchronizer × Option LocalEvent). q.0) p) waits
  complete-WaitsOpen s t i (some state) event h waits =
      elim (Bool-cases (state.completed || not (may_complete params x y state))) [
        | inl b ↦
            let p : ◌≡◌ {A = Synchronizer × Option LocalEvent} (s, none) (t, event) =
              ok_unique (simp (b) at h) in
            subst WaitsOpen (ap (λ (q : Synchronizer × Option LocalEvent). q.0) p) waits
        | inr b ↦
            let (v, _, e) = >>=-eq-ok (aggregated_value params x y state) _ (rw b at h) in
            chained-WaitsOpen s t i (record state { completed = true }) v
              (lookup i (s.fault_chains)) event refl e waits
      ]

  -- A call that succeeds leaves only what waits for what is not complete.
  abbrev Keeps : Option (Result Synchronizer) → Type 0
  Keeps none = Unit
  Keeps (some (err e)) = Unit
  Keeps (some (ok t)) = WaitsOpen t

  then_update-Keeps :
      (again : Synchronizer → ℕ → Option (Result Synchronizer)) (i : ℕ) (r : Result Synchronizer)
      → ((t : Synchronizer) → r ≡ ok t → Keeps (again t i))
      → Keeps (then_update params x y again i r)
  then_update-Keeps again i (err e) h = tt
  then_update-Keeps again i (ok t) h = h t refl

  then_fire-Keeps :
      (again : Synchronizer → ℕ → Option (Result Synchronizer))
      (r : Result (Synchronizer × Option LocalEvent))
      → ((t : Synchronizer) (event : Option LocalEvent) → r ≡ ok (t, event) → WaitsOpen t)
      → ((t : Synchronizer) (i : ℕ) → WaitsOpen t → Keeps (again t i))
      → Keeps (then_fire params x y again r)
  then_fire-Keeps again (err e) h rest = tt
  then_fire-Keeps again (ok (t, none)) h rest = h t none refl
  then_fire-Keeps again (ok (t, some event)) h rest =
      then_update-Keeps again (event.sync_ident) (fire params x y t event)
        (λ u e. rest u (event.sync_ident) (fire-WaitsOpen t u event e (h t (some event) refl)))

  update_completed-Keeps :
      (fuel : ℕ) (s : Synchronizer) (i : ℕ)
      → WaitsOpen s
      → Keeps (update_completed params x y fuel s i)
  unfolding update_completed
  update_completed-Keeps zero s i waits = tt
  update_completed-Keeps (suc fuel) s i waits =
      then_fire-Keeps (λ t j. update_completed params x y fuel t j)
        (complete params x y s i (s.sync_states i))
        (λ t event e. complete-WaitsOpen s t i (s.sync_states i) event e waits)
        (λ t j w. update_completed-Keeps fuel t j w)

  pub update_all-Keeps :
      (s : Synchronizer) (i : ℕ) → WaitsOpen s → Keeps (update_all params x y s i)
  unfolding update_all
  update_all-Keeps s i waits = update_completed-Keeps (suc (length (s.fault_chains))) s i waits

  pub local_event-Keeps :
      (s : Synchronizer) (event : LocalEvent) → WaitsOpen s → Keeps (local_event params x y s event)
  unfolding local_event
  local_event-Keeps s event waits =
      then_update-Keeps (update_all params x y) (event.sync_ident) (fire params x y s event)
        (λ t e. update_all-Keeps t (event.sync_ident) (fire-WaitsOpen s t event e waits))

  pub process_received_packet-Keeps :
      (s : Synchronizer) (packet : SyncPacket) (d : SyncDirection)
      → WaitsOpen s
      → Keeps (process_received_packet params x y s packet d)
  unfolding process_received_packet
  process_received_packet-Keeps s packet d waits =
      then_update-Keeps (update_all params x y) (packet.sync_ident) _ (λ t h.
        let (state, e, f) =
          >>=-eq-ok (mark_received params x y (packet.value) d (s.sync_states (packet.sync_ident)))
            _ h in
        update_all-Keeps t (packet.sync_ident) (
          subst WaitsOpen (ok_unique f) (
            put-WaitsOpen s (packet.sync_ident) state
              (mark_received-open (packet.value) d (s.sync_states (packet.sync_ident)) state e)
              waits)))

  add_chain-WaitsOpen :
      (s : Synchronizer) (trigger target : ℕ)
      → is_complete s trigger ≡ false
      → WaitsOpen s
      → WaitsOpen (add_chain params x y s trigger target)
  add_chain-WaitsOpen s trigger target open_yet waits t u e = elim (Bool-cases (t == trigger)) [
    | inl h ↦ rw (==→eq t trigger h) open_yet
    | inr h ↦ waits t u (sym (rw h at (lookup-insert t trigger target (s.fault_chains))) ∙ e)
  ]

  pub chain_fault_sync-Keeps :
      (s : Synchronizer) (trigger target : ℕ)
      → WaitsOpen s
      → Keeps (chain_fault_sync params x y s trigger target)
  unfolding chain_fault_sync
  chain_fault_sync-Keeps s trigger target waits =
      by_entry (s.sync_states trigger) (add_chain-WaitsOpen s trigger target)
    where
      by_event : (r : Result LocalEvent) → Keeps (then_event params x y s r)
      by_event (err e) = tt
      by_event (ok event) = local_event-Keeps s event waits

      by_entry :
          (entry : Option SyncState)
          → (entry_completed entry ≡ false
              → WaitsOpen s
              → WaitsOpen (add_chain params x y s trigger target))
          → Keeps (chain_from params x y s trigger target entry)
      by_entry none added = added refl waits
      by_entry (some state) added = elim (Bool-cases (state.completed)) [
        | inl e ↦ simp (e) (by_event (trigger_event params x y state target))
        | inr e ↦ simp (e) (added e waits)
      ]

  put_kept :
      (s : Synchronizer) (i : ℕ) (state after : SyncState)
      → s.sync_states i ≡ some state
      → after.completed ≡ state.completed
      → WaitsOpen s
      → WaitsOpen (put s i after)
  put_kept s i state after e same waits t u h = elim (Bool-cases (t == i)) [
    | inl q ↦ rw q (same ∙ (rw (==→eq t i q, e) at (waits t u h)))
    | inr q ↦ rw q (waits t u h)
  ]

  send_packet-Keeps :
      (s : Synchronizer) (i : ℕ) (d : SyncDirection)
      → WaitsOpen s
      → Keeps (some (node_after params x y (send_packet params x y s i d)))
  unfolding send_packet mark_sent
  send_packet-Keeps s i d waits = by_entry (s.sync_states i) refl
    where
      by_value :
          (state : SyncState)
          → s.sync_states i ≡ some state
          → (r : Result (Option ℕ))
          → Keeps (
              some (
                node_after params x y (do
                  value ← r
                  ok (
                    put s i (mark_sent d state),
                    some (record { sync_ident = i; value = value }),
                  ))))
      by_value state e (err _) = tt
      by_value state e (ok value) = put_kept s i state (mark_sent d state) e refl waits

      by_entry :
          (entry : Option SyncState)
          → s.sync_states i ≡ entry
          → Keeps (some (node_after params x y (send_from params x y s i d entry)))
      by_entry none e = waits
      by_entry (some state) e = elim (Bool-cases (should_send params x y state d)) [
        | inl h ↦ rw h (by_value state e (get_value_for_direction params x y state d))
        | inr h ↦ rw h waits
      ]

  clear_sync-Keeps : (s : Synchronizer) (i : ℕ) → WaitsOpen s → Keeps (some (clear_sync s i))
  unfolding clear_sync
  clear_sync-Keeps s i waits = elim (Bool-cases (has_sync s i)) [
    | inl h ↦
        rw h
          (λ t u e. elim (Bool-cases (t == i)) [ inl q ↦ rw q refl | inr q ↦ rw q (waits t u e) ])
    | inr h ↦ rw h tt
  ]

  perform-Keeps : (s : Synchronizer) (c : Call) → WaitsOpen s → Keeps (perform params x y s c)
  unfolding perform
  perform-Keeps s (call_event e) waits = local_event-Keeps s e waits
  perform-Keeps s (call_packet p d) waits = process_received_packet-Keeps s p d waits
  perform-Keeps s (call_chain trigger target) waits = chain_fault_sync-Keeps s trigger target waits
  perform-Keeps s (call_send i d) waits = send_packet-Keeps s i d waits
  perform-Keeps s (call_clear i) waits = clear_sync-Keeps s i waits
  perform-Keeps s (call_look i) waits = update_all-Keeps s i waits

  then_calls-Keeps :
      (rest : Synchronizer → Option (Result Synchronizer)) (r : Option (Result Synchronizer))
      → Keeps r
      → ((t : Synchronizer) → WaitsOpen t → Keeps (rest t))
      → Keeps (then_calls params x y rest r)
  then_calls-Keeps rest none k h = tt
  then_calls-Keeps rest (some (err e)) k h = tt
  then_calls-Keeps rest (some (ok t)) k h = h t k

  run_calls-Keeps :
      (s : Synchronizer) (calls : List Call) → WaitsOpen s → Keeps (run_calls params x y s calls)
  unfolding run_calls
  run_calls-Keeps s [] waits = waits
  run_calls-Keeps s (c ∷ calls) waits =
      then_calls-Keeps (λ t. run_calls params x y t calls) (perform params x y s c)
        (perform-Keeps s c waits) (λ t w. run_calls-Keeps t calls w)

  -- After any calls of a new synchronizer that all succeed, a synchronization that another one is
  -- chained to is not complete.
  pub run_calls-WaitsOpen :
      (calls : List Call) (s : Synchronizer) (t u : ℕ)
      → run_calls params x y no_syncs calls ≡ some (ok s)
      → lookup t (s.fault_chains) ≡ some u
      → is_complete s t ≡ false
  unfolding lookup
  run_calls-WaitsOpen calls s t u e h =
      (subst Keeps e (run_calls-Keeps no_syncs calls (λ a b f. cc))) t u h
