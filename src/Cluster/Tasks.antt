-- ===== src/Cluster/Tasks.antt =====
-- lua/BeeCluster/bee_cluster.lua: cluster.send and cluster.call to one node, and the queue in which they wait while clusterd
-- is asked for the sender of the node.
pub mod Order
pub mod Draining
mod Tests
use testcluster.Prelude.{ℕ, ◌≡◌, Option, none, some, List, [], ◌∷◌, ◌++◌, map}
use testcluster.Cluster.Wire.{Bytes}

-- An entry of the queue: the packed message of a cluster.send, or the coroutine of a cluster.call with the message that it is
-- about to send.
pub data Task : Type 0 where
  pushing : (message : Bytes) → Task
  calling : (message : Bytes) → Task

-- What became of a task: "push" or "req" with the message went to a sender; or there was no sender: a push is then dropped, and
-- the call of nil raises an error.
pub data Fate : Type 0 where
  pushed : (sender : ℕ) (message : Bytes) → Fate
  dropped : (message : Bytes) → Fate
  requested : (sender : ℕ) (message : Bytes) → Fate
  failed : (message : Bytes) → Fate

-- Where the coroutine request_sender stands: it waits for clusterd; it is at the head of its loop; or it has woken the
-- coroutine of a call, and waits to be woken by it. `c` is what clusterd gave, nil if its call failed.
pub data Phase : Type 0 where
  asking : Phase
  running : (c : Option ℕ) → Phase
  confirming : (c : Option ℕ) (message : Bytes) → Phase

-- The queue from where the loop stands.
pub record Queue : Type 0 where
  pub tasks : List Task
  pub phase : Phase

-- sender[node], task_queue[node], and what has been sent so far.
pub record State : Type 0 where
  pub sender : Option ℕ
  pub queue : Option Queue
  pub log : List Fate

abbrev pub no_sender : State
no_sender = record { sender = none; queue = none; log = [] }

unfoldable pub get_queue : Option Queue → Queue
get_queue none = record { tasks = []; phase = asking }
get_queue (some q) = q

abbrev pub log_fate : State → Fate → State
log_fate s fate = record s { log = s.log ++ fate ∷ [] }

-- table.insert(task_queue[node], task)
unfoldable pub insert_task : State → Task → State
unfolding get_queue
insert_task s task =
    let q = get_queue s.queue in
    record s { queue = some (record q { tasks = q.tasks ++ task ∷ [] }) }

-- With the sender, or with nil.
unfoldable pub send_by : State → Option ℕ → Bytes → State
unfolding insert_task
send_by s none message = insert_task s (pushing message)
send_by s (some c) message = log_fate s (pushed c message)

unfoldable pub cluster_send : State → Bytes → State
unfolding send_by
cluster_send s message = send_by s s.sender message

unfoldable pub call_by : State → Option ℕ → Bytes → State
unfolding insert_task
call_by s none message = insert_task s (calling message)
call_by s (some c) message = log_fate s (requested c message)

-- cluster.call up to its wait for the answer, or for the sender.
unfoldable pub cluster_call : State → Bytes → State
unfolding call_by
cluster_call s message = call_by s s.sender message

unfoldable pub push_fate : Option ℕ → Bytes → Fate
push_fate none message = dropped message
push_fate (some c) message = pushed c message

unfoldable pub call_fate : Option ℕ → Bytes → Fate
call_fate none message = failed message
call_fate (some c) message = requested c message

-- The loop of request_sender: the next entry of its queue, or its end.
unfoldable pub request_sender : State → List Task → Option ℕ → State
unfolding push_fate
request_sender s [] c = record s { queue = none; sender = c }
request_sender s (pushing message ∷ rest) c = record s {
  queue = some (record { tasks = rest; phase = running c });
  log = s.log ++ push_fate c message ∷ [];
}
request_sender s (calling message ∷ rest) c = record s {
  queue = some (record { tasks = rest; phase = confirming c message });
}

-- The coroutine of a call goes on in get_sender: it wakes request_sender, and sends its message to q.sender.
unfoldable pub get_sender : State → List Task → Option ℕ → Bytes → State
unfolding call_fate
get_sender s tasks c message = record s {
  queue = some (record { tasks = tasks; phase = running c });
  log = s.log ++ call_fate c message ∷ [];
}

-- What happens next, with the task that a service of the node asks for, if it is that.
pub data Step (s : State) : List Task → State → Type 0 where
  send : (message : Bytes) → Step s (pushing message ∷ []) (cluster_send s message)
  call : (message : Bytes) → Step s (calling message ∷ []) (cluster_call s message)
  reply :
      (tasks : List Task) (c : Option ℕ)
      → s.queue ≡ some (record { tasks = tasks; phase = asking })
      → Step s [] (record s { queue = some (record { tasks = tasks; phase = running c }) })
  run :
      (tasks : List Task) (c : Option ℕ)
      → s.queue ≡ some (record { tasks = tasks; phase = running c })
      → Step s [] (request_sender s tasks c)
  wake :
      (tasks : List Task) (c : Option ℕ) (message : Bytes)
      → s.queue ≡ some (record { tasks = tasks; phase = confirming c message })
      → Step s [] (get_sender s tasks c message)

-- Any number of steps, with the tasks that were asked for, in their order.
pub data Reach (s : State) : List Task → State → Type 0 where
  here : Reach s [] s
  next :
      {asked more : List Task} {t u : State}
      → Reach s asked t
      → Step t more u
      → Reach s (asked ++ more) u
