-- ===== src/Cache/Registry/States.antt =====
-- The registry as one state machine per key: what the operations on other keys and the cleaner of
-- cache/transaction_registry_inmem.go do to the transaction of a key.
use chproxy.Base.{
  Dict, List, Option, Option-cases, Text, [], arith, false, if◌then◌else◌, inl, inr, lookup,
  lookup-delete, lookup-insert, ltb, none, refl, some, sym, text_eq, text_eq_iff, ℕ, ◌+◌, ◌∷◌, ◌≡◌,
  ◌≤◌,
}
use chproxy.Cache.Registry.{
  TransactionState, created, completed, failed, PendingEntry, Registry, Operation, creates,
  completes, fails, cleans, create, update_transaction_state, complete, fail, status, drop_outdated,
  clean_pending_entries, apply_operation, apply_operations,
}

abbrev pub ended_entry : TransactionState → Text → (ended now : ℕ) → PendingEntry
ended_entry state reason ended now = record {
  deadline = now + ended;
  state = state;
  failed_reason = reason;
}

-- The transaction of one key, without the rest of the map.
machine : (deadline ended : ℕ) (key : Text) → Operation → Option PendingEntry → Option PendingEntry
machine d ended key (creates k now) none =
    if text_eq k key
    then some (record { deadline = now + d; state = created; failed_reason = [] })
    else none
machine d ended key (creates k now) (some e) = some e
machine d ended key (completes k now) e =
    if text_eq k key then some (ended_entry completed [] ended now) else e
machine d ended key (fails k reason now) e =
    if text_eq k key then some (ended_entry failed reason ended now) else e
machine d ended key (cleans now) none = none
machine d ended key (cleans now) (some e) = if ltb e.deadline now then none else some e

pub run_machine :
    (deadline ended : ℕ) (key : Text) → List Operation → Option PendingEntry → Option PendingEntry
run_machine d ended key [] e = e
run_machine d ended key (o ∷ os) e = run_machine d ended key os (machine d ended key o e)

abbrev keep_current : ℕ → Option PendingEntry → Option PendingEntry
keep_current now none = none
keep_current now (some e) = if ltb e.deadline now then none else some e

lookup-drop_outdated :
    (key : Text) (now : ℕ) (m : Dict PendingEntry)
    → lookup key (drop_outdated now m) ≡ keep_current now (lookup key m)
unfolding drop_outdated lookup
lookup-drop_outdated key now [] = refl
lookup-drop_outdated key now ((k, e) ∷ m) =
    ground (arith, lookup-delete key k (drop_outdated now m), lookup-drop_outdated key now m)

machine-creates_none :
    (d ended : ℕ) (key k : Text) (now : ℕ) (m : Dict PendingEntry) (x : Option PendingEntry)
    → lookup key m ≡ x
    → lookup k m ≡ none
    → (if text_eq k key
        then some (record { deadline = now + d; state = created; failed_reason = [] })
        else x)
      ≡ machine d ended key (creates k now) x
unfolding machine
machine-creates_none d ended key k now m none h g = refl
machine-creates_none d ended key k now m (some e) h g = ground (arith, text_eq_iff k key)

machine-creates_some :
    (d ended : ℕ) (key k : Text) (now : ℕ) (m : Dict PendingEntry) (x : Option PendingEntry)
    {y : PendingEntry}
    → lookup key m ≡ x
    → lookup k m ≡ some y
    → x ≡ machine d ended key (creates k now) x
unfolding machine
machine-creates_some d ended key k now m none h g = ground (arith, text_eq_iff k key)
machine-creates_some d ended key k now m (some e) h g = refl

lookup-create :
    (key k : Text) (now : ℕ) (r : Registry)
    → lookup key (create k now r).pending_entries
      ≡ machine r.deadline r.transaction_ended_deadline key
          (creates k now)
          (lookup key r.pending_entries)
unfolding create machine
lookup-create key k now r =
    let fresh : PendingEntry = record {
      deadline = now + r.deadline;
      state = created;
      failed_reason = [];
    } in
    elim (Option-cases (lookup k r.pending_entries)) [
      | inl e ↦
          rw (e, create, lookup-insert key k fresh r.pending_entries)
            (machine-creates_none r.deadline r.transaction_ended_deadline key k now
              r.pending_entries (lookup key r.pending_entries) refl e)
      | inr (x, e) ↦
          rw (e, create)
            (machine-creates_some r.deadline r.transaction_ended_deadline key k now
              r.pending_entries (lookup key r.pending_entries) refl e)
    ]

pub lookup-update :
    (key k : Text) (state : TransactionState) (reason : Text) (now : ℕ) (r : Registry)
    → lookup key (update_transaction_state k state reason now r).pending_entries ≡ (
        if text_eq k key
        then some (ended_entry state reason r.transaction_ended_deadline now)
        else lookup key r.pending_entries)
unfolding update_transaction_state
lookup-update key k state reason now r =
    let l =
      lookup-insert key k (ended_entry state reason r.transaction_ended_deadline now)
        r.pending_entries in
    elim (Option-cases (lookup k r.pending_entries)) [
      | inl e ↦ rw (e, update_transaction_state) l
      | inr (x, e) ↦ rw (e, update_transaction_state) l
    ]

abbrev Keeps : (r s : Registry) → Type 0
Keeps r s =
    (s.deadline ≡ r.deadline) × (s.transaction_ended_deadline ≡ r.transaction_ended_deadline)

create-Keeps : (k : Text) (now : ℕ) (r : Registry) → Keeps r (create k now r)
unfolding create
create-Keeps k now r = elim (Option-cases (lookup k r.pending_entries)) [
  | inl e ↦ rw (e, create) (refl, refl)
  | inr (x, e) ↦ rw (e, create) (refl, refl)
]

update_transaction_state-Keeps :
    (k : Text) (state : TransactionState) (reason : Text) (now : ℕ) (r : Registry)
    → Keeps r (update_transaction_state k state reason now r)
unfolding update_transaction_state
update_transaction_state-Keeps k state reason now r =
    elim (Option-cases (lookup k r.pending_entries)) [
      | inl e ↦ rw (e, update_transaction_state) (refl, refl)
      | inr (x, e) ↦ rw (e, update_transaction_state) (refl, refl)
    ]

apply_operation-Keeps : (o : Operation) (r : Registry) → Keeps r (apply_operation o r)
unfolding apply_operation complete fail clean_pending_entries
apply_operation-Keeps (creates k now) r = create-Keeps k now r
apply_operation-Keeps (completes k now) r = update_transaction_state-Keeps k completed [] now r
apply_operation-Keeps (fails k reason now) r = update_transaction_state-Keeps k failed reason now r
apply_operation-Keeps (cleans now) r = (refl, refl)

machine-cleans :
    (d ended : ℕ) (key : Text) (now : ℕ) (e : Option PendingEntry)
    → machine d ended key (cleans now) e ≡ keep_current now e
unfolding machine
machine-cleans d ended key now none = refl
machine-cleans d ended key now (some e) = refl

lookup-apply_operation :
    (key : Text) (o : Operation) (r : Registry)
    → lookup key (apply_operation o r).pending_entries
      ≡ machine r.deadline r.transaction_ended_deadline key o (lookup key r.pending_entries)
unfolding apply_operation complete fail clean_pending_entries machine
lookup-apply_operation key (creates k now) r = lookup-create key k now r
lookup-apply_operation key (completes k now) r = lookup-update key k completed [] now r
lookup-apply_operation key (fails k reason now) r = lookup-update key k failed reason now r
lookup-apply_operation key (cleans now) r = rw (lookup-drop_outdated key now r.pending_entries) (
    sym (
      machine-cleans r.deadline r.transaction_ended_deadline key now
        (lookup key r.pending_entries)))

-- The operations on a registry, of any number of requests and of the cleaner in any order, act on
-- the entry of each key as the machine of that key does: created once, then replaced by each end,
-- and dropped by a cleaning behind its deadline. Operations on other keys do nothing to it.
pub apply_operations-machine :
    (key : Text) (os : List Operation) (r : Registry)
    → lookup key (apply_operations os r).pending_entries
      ≡ run_machine r.deadline r.transaction_ended_deadline key os (lookup key r.pending_entries)
unfolding apply_operations run_machine
apply_operations-machine key [] r = refl
apply_operations-machine key (o ∷ os) r =
    let k = apply_operation-Keeps o r in
    rw
      (
        apply_operations-machine key os (apply_operation o r),
        k.0,
        k.1,
        lookup-apply_operation key o r,
      )
      refl

-- None of the operations ends the transaction of the key or cleans behind the deadline.
abbrev pub IsQuiet : (key : Text) (deadline : ℕ) → List Operation → Type 0
IsQuiet key d [] = Unit {0}
IsQuiet key d (creates k now ∷ os) = IsQuiet key d os
IsQuiet key d (completes k now ∷ os) = (text_eq k key ≡ false) × IsQuiet key d os
IsQuiet key d (fails k reason now ∷ os) = (text_eq k key ≡ false) × IsQuiet key d os
IsQuiet key d (cleans now ∷ os) = (now ≤ d) × IsQuiet key d os

run_machine-quiet :
    (d ended : ℕ) (key : Text) (os : List Operation) (e : PendingEntry)
    → IsQuiet key e.deadline os
    → run_machine d ended key os (some e) ≡ some e
unfolding run_machine machine
run_machine-quiet d ended key [] e q = refl
run_machine-quiet d ended key (creates k now ∷ os) e q = run_machine-quiet d ended key os e q
run_machine-quiet d ended key (completes k now ∷ os) e q =
    rw q.0 (run_machine-quiet d ended key os e q.1)
run_machine-quiet d ended key (fails k reason now ∷ os) e q =
    rw q.0 (run_machine-quiet d ended key os e q.1)
run_machine-quiet d ended key (cleans now ∷ os) e q =
    let not_outdated : ltb e.deadline now ≡ false = ground arith in
    rw not_outdated (run_machine-quiet d ended key os e q.1)

-- Whatever is in the registry, a transaction that has an entry keeps its status, its reason
-- included, through any operations of which none completes or fails it and none cleans behind its
-- deadline. Another creation of it is one of these operations.
status-quiet :
    (key : Text) (os : List Operation) (r : Registry) (e : PendingEntry)
    → lookup key r.pending_entries ≡ some e
    → IsQuiet key e.deadline os
    → status key (apply_operations os r) ≡ status key r
unfolding status
status-quiet key os r e h q =
    rw (apply_operations-machine key os r, h)
      (rw (run_machine-quiet r.deadline r.transaction_ended_deadline key os e q) refl)
