-- ===== src/Task/Manager.antt =====
-- crates/ng-task/src/rpc/mod.rs: `TaskManager`, the sessions of the agents and the calls that wait for
-- a result. A channel of tokio is its queue, its capacity and whether its receiver is there.
use node_get.Prelude.{
  ℕ, Bool, true, false, not, List, [], ◌∷◌, ◌++◌, Option, none, some, ltb, length, keep, any, ◌==◌,
  if◌then◌else◌, ℕ_discrete,
}
use node_get.Keyed.{find, put, erase}
use node_get.Task.{TaskEvent, TaskEventResponse}

pub record Channel (U : Type 0) : Type 0 where
  pub queue : List (TaskEvent U)
  pub capacity : ℕ
  pub is_open : Bool

-- The session of each agent, with its registration and the sender's channel; the channels; the tasks
-- with a waiter; what the waiters were sent.
pub record TaskManager (U R : Type 0) : Type 0 where
  pub peers : List (ℕ × (ℕ × ℕ))
  pub channels : List (ℕ × Channel U)
  pub blocking_waiters : List ℕ
  pub answers : List (ℕ × TaskEventResponse R)

pub data TaskSendError : Type 0 where
  not_connected queue_full : ℕ → TaskSendError

abbrev pub is_not_connected : TaskSendError → Bool
is_not_connected (not_connected _) = true
is_not_connected (queue_full _) = false

-- `tx.try_send(event)`
pub data TrySend (U : Type 0) : Type 0 where
  sent : List (ℕ × Channel U) → TrySend U
  full closed : TrySend U

abbrev pub push_event : {U : Type 0} → TaskEvent U → Channel U → Channel U
push_event event c = record {
  queue = c.queue ++ event ∷ [];
  capacity = c.capacity;
  is_open = c.is_open;
}

unfoldable pub try_send : {U : Type 0} → ℕ → TaskEvent U → List (ℕ × Channel U) → TrySend U
try_send tx event channels = elim (find ℕ_discrete tx channels) [
  | none ↦ closed
  | some c ↦
      if not (c.is_open)
      then closed
      else if ltb (length (c.queue)) (c.capacity)
      then sent (put ℕ_discrete tx (push_event event c) channels)
      else full
]

abbrev pub without : ℕ → List ℕ → List ℕ
without task_id waiters = keep (λ j. not (j == task_id)) waiters

abbrev pub rest_of : {A : Type 0} → List A → List A
rest_of [] = []
rest_of (x ∷ xs) = xs

-- `rx.recv()`, and the end of the receiver.
abbrev pub recv : {U : Type 0} → Channel U → Channel U
recv c = record { queue = rest_of c.queue; capacity = c.capacity; is_open = c.is_open }

abbrev pub hang_up : {U : Type 0} → Channel U → Channel U
hang_up c = record { queue = c.queue; capacity = c.capacity; is_open = false }

module _ {U R : Type 0} where
  abbrev pub with_peers : List (ℕ × (ℕ × ℕ)) → TaskManager U R → TaskManager U R
  with_peers peers m = record {
    peers = peers;
    channels = m.channels;
    blocking_waiters = m.blocking_waiters;
    answers = m.answers;
  }

  abbrev pub with_channels : List (ℕ × Channel U) → TaskManager U R → TaskManager U R
  with_channels channels m = record {
    peers = m.peers;
    channels = channels;
    blocking_waiters = m.blocking_waiters;
    answers = m.answers;
  }

  abbrev pub with_waiters :
      List ℕ → List (ℕ × TaskEventResponse R) → TaskManager U R → TaskManager U R
  with_waiters waiters answers m = record {
    peers = m.peers;
    channels = m.channels;
    blocking_waiters = waiters;
    answers = answers;
  }

  unfoldable pub add_session : ℕ → ℕ → ℕ → TaskManager U R → TaskManager U R
  add_session uuid reg_id tx m = with_peers (put ℕ_discrete uuid (reg_id, tx) m.peers) m

  -- Only the registration that is current ends the session.
  unfoldable pub remove_session : ℕ → ℕ → TaskManager U R → TaskManager U R
  remove_session uuid reg_id m = elim (find ℕ_discrete uuid m.peers) [
    | none ↦ m
    | some session ↦ if session.0 == reg_id then with_peers (erase ℕ_discrete uuid m.peers) m else m
  ]

  -- `none` is `Ok(())`.
  abbrev pub after_send : ℕ → TrySend U → TaskManager U R → Option TaskSendError × TaskManager U R
  after_send uuid (sent channels) m = (none, with_channels channels m)
  after_send uuid full m = (some (queue_full uuid), m)
  after_send uuid closed m = (some (not_connected uuid), m)

  unfoldable pub send_event :
      ℕ → TaskEvent U → TaskManager U R → Option TaskSendError × TaskManager U R
  send_event uuid event m = elim (find ℕ_discrete uuid m.peers) [
    | none ↦ (some (not_connected uuid), m)
    | some session ↦ after_send uuid (try_send (session.1) event m.channels) m
  ]

  unfoldable pub is_connected : ℕ → TaskManager U R → Bool
  is_connected uuid m = elim (find ℕ_discrete uuid m.peers) [ none ↦ false | some _ ↦ true ]

  unfoldable pub connected_uuids : List ℕ → TaskManager U R → List ℕ
  connected_uuids candidates m = keep (λ uuid. is_connected uuid m) candidates

  -- `insert` replaces the waiter of the same task.
  unfoldable pub register_blocking_waiter : ℕ → TaskManager U R → TaskManager U R
  register_blocking_waiter task_id m =
      with_waiters (task_id ∷ without task_id m.blocking_waiters) m.answers m

  unfoldable pub remove_blocking_waiter : ℕ → TaskManager U R → TaskManager U R
  remove_blocking_waiter task_id m = with_waiters (without task_id m.blocking_waiters) m.answers m

  unfoldable pub notify_blocking_waiter :
      ℕ → TaskEventResponse R → TaskManager U R → Bool × TaskManager U R
  notify_blocking_waiter task_id response m =
      if any (λ j. j == task_id) m.blocking_waiters
      then (
        true,
        with_waiters (without task_id m.blocking_waiters) ((task_id, response) ∷ m.answers) m,
      )
      else (false, m)

  -- `register_task` makes a channel of 32 places and a registration together; they have one number here.
  abbrev pub start_session : ℕ → ℕ → TaskManager U R → TaskManager U R
  start_session uuid reg_id m = add_session uuid reg_id reg_id (
      with_channels
        (put ℕ_discrete reg_id (record { queue = []; capacity = 32; is_open = true }) m.channels) m)

  abbrev pub change_channel : ℕ → (Channel U → Channel U) → TaskManager U R → TaskManager U R
  change_channel tx change m = elim (find ℕ_discrete tx m.channels) [
    | none ↦ m
    | some c ↦ with_channels (put ℕ_discrete tx (change c) m.channels) m
  ]
