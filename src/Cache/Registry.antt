-- ===== src/Cache/Registry.antt =====
-- cache/transaction_registry.go and cache/transaction_registry_inmem.go: the transactions of the
-- queries that are running, by the text of their cache key. The lock makes each operation one step;
-- `now` is what `time.Now` gives it, in nanoseconds.
pub mod States
use chproxy.Base.{
  Bool, Dict, List, Option, Text, [], delete, false, if◌then◌else◌, insert, lookup, ltb, none, some,
  true, ℕ, ◌*◌, ◌+◌, ◌^◌, ◌∷◌,
}

pub data TransactionState : Type 0 where
  created completed failed absent : TransactionState

unfoldable pub is_pending : TransactionState → Bool
is_pending created = true
is_pending completed = false
is_pending failed = false
is_pending absent = false

unfoldable pub is_completed : TransactionState → Bool
is_completed created = false
is_completed completed = true
is_completed failed = false
is_completed absent = false

unfoldable pub is_failed : TransactionState → Bool
is_failed created = false
is_failed completed = false
is_failed failed = true
is_failed absent = false

pub record TransactionStatus : Type 0 where
  pub state : TransactionState
  pub fail_reason : Text

pub record PendingEntry : Type 0 where
  pub deadline : ℕ
  pub state : TransactionState
  pub failed_reason : Text

pub record Registry : Type 0 where
  pub pending_entries : Dict PendingEntry
  pub deadline : ℕ
  pub transaction_ended_deadline : ℕ

-- 500 milliseconds.
abbrev pub transaction_ended_ttl : ℕ
transaction_ended_ttl = 500 * 1000000

unfoldable pub new_registry : (deadline transaction_ended_deadline : ℕ) → Registry
new_registry deadline ended = record {
  pending_entries = [];
  deadline = deadline;
  transaction_ended_deadline = ended;
}

pub create : (key : Text) (now : ℕ) → Registry → Registry
create key now r = elim (lookup key r.pending_entries) [
  | some e ↦ r
  | none ↦
      let e : PendingEntry = record {
        deadline = now + r.deadline;
        state = created;
        failed_reason = [];
      } in
      record r { pending_entries = insert key e r.pending_entries }
]

pub update_transaction_state :
    (key : Text) → TransactionState → (reason : Text) (now : ℕ) → Registry → Registry
update_transaction_state key state reason now r =
    let ended = now + r.transaction_ended_deadline in
    elim (lookup key r.pending_entries) [
      | some e ↦
          let e' : PendingEntry = record e {
            state = state;
            failed_reason = reason;
            deadline = ended;
          } in
          record r { pending_entries = insert key e' r.pending_entries }
      | none ↦
          let e : PendingEntry = record {
            deadline = ended;
            state = state;
            failed_reason = reason;
          } in
          record r { pending_entries = insert key e r.pending_entries }
    ]

unfoldable pub complete : (key : Text) (now : ℕ) → Registry → Registry
unfolding update_transaction_state
complete key now r = update_transaction_state key completed [] now r

unfoldable pub fail : (key reason : Text) (now : ℕ) → Registry → Registry
unfolding update_transaction_state
fail key reason now r = update_transaction_state key failed reason now r

abbrev pub status_of_entry : Option PendingEntry → TransactionStatus
status_of_entry none = record { state = absent; fail_reason = [] }
status_of_entry (some e) = record { state = e.state; fail_reason = e.failed_reason }

unfoldable pub status : (key : Text) → Registry → TransactionStatus
status key r = status_of_entry (lookup key r.pending_entries)

-- The range over the map in which every outdated entry is deleted.
drop_outdated : (now : ℕ) → Dict PendingEntry → Dict PendingEntry
drop_outdated now [] = []
drop_outdated now ((k, e) ∷ m) =
    let rest = drop_outdated now m in if ltb e.deadline now then delete k rest else (k, e) ∷ rest

-- One round of `pendingEntriesCleaner`.
clean_pending_entries : (now : ℕ) → Registry → Registry
clean_pending_entries now r = record r { pending_entries = drop_outdated now r.pending_entries }

-- The time between two rounds: between 100 milliseconds and a second.
unfoldable pub cleaner_period : (deadline : ℕ) → ℕ
cleaner_period deadline =
    let d = if ltb deadline (100 * 10 ^ 6) then 100 * 10 ^ 6 else deadline in
    if ltb (10 ^ 9) d then 10 ^ 9 else d

-- The operations of any number of requests and of the cleaner, in the order of the lock.
pub data Operation : Type 0 where
  creates completes : (key : Text) (now : ℕ) → Operation
  fails : (key reason : Text) (now : ℕ) → Operation
  cleans : (now : ℕ) → Operation

apply_operation : Operation → Registry → Registry
unfolding create complete fail clean_pending_entries update_transaction_state
apply_operation (creates k now) r = create k now r
apply_operation (completes k now) r = complete k now r
apply_operation (fails k reason now) r = fail k reason now r
apply_operation (cleans now) r = clean_pending_entries now r

pub apply_operations : List Operation → Registry → Registry
unfolding apply_operation create complete fail clean_pending_entries update_transaction_state
apply_operations [] r = r
apply_operations (o ∷ os) r = apply_operations os (apply_operation o r)
