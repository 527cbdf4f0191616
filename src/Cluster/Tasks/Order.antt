-- ===== src/Cluster/Tasks/Order.antt =====
-- The messages to one node keep their order (lua/BeeCluster/bee_cluster.lua).
use testcluster.Prelude.{
  ℕ, ◌≡◌, refl, ◌∙◌, sym, ap, ◌⊎◌, inl, inr, Option, none, some, List, [], ◌∷◌, ◌++◌, append_assoc,
  append-nil,
}
use testcluster.Cluster.Wire.{Bytes}
use testcluster.Cluster.Tasks.{
  Task, pushing, calling, Fate, pushed, dropped, requested, failed, Phase, asking, running,
  confirming, Queue, State, no_sender, get_queue, log_fate, insert_task, send_by, call_by,
  cluster_send, cluster_call, push_fate, call_fate, request_sender, get_sender, Step, send, call,
  reply, run, wake, Reach, here, next,
}

-- The task that had this fate.
unfoldable pub task_of : Fate → Task
task_of (pushed c message) = pushing message
task_of (dropped message) = pushing message
task_of (requested c message) = calling message
task_of (failed message) = calling message

unfoldable pub tasks_of : List Fate → List Task
unfolding task_of
tasks_of [] = []
tasks_of (fate ∷ log) = task_of fate ∷ tasks_of log

-- The call whose coroutine has been woken and has not run.
unfoldable pub woken : Phase → List Task
woken asking = []
woken (running c) = []
woken (confirming c message) = calling message ∷ []

-- The tasks that wait.
unfoldable pub waiting : Option Queue → List Task
unfolding woken
waiting none = []
waiting (some q) = woken q.phase ++ q.tasks

tasks_of-append :
    (log : List Fate) (fate : Fate)
    → tasks_of (log ++ fate ∷ []) ≡ tasks_of log ++ task_of fate ∷ []
unfolding tasks_of
tasks_of-append [] fate = refl
tasks_of-append (f ∷ log) fate = ap (λ tasks. task_of f ∷ tasks) (tasks_of-append log fate)

task_of-push_fate :
    (c : Option ℕ) (message : Bytes) → task_of (push_fate c message) ≡ pushing message
unfolding task_of push_fate
task_of-push_fate none message = refl
task_of-push_fate (some c) message = refl

task_of-call_fate :
    (c : Option ℕ) (message : Bytes) → task_of (call_fate c message) ≡ calling message
unfolding task_of call_fate
task_of-call_fate none message = refl
task_of-call_fate (some c) message = refl

-- All tasks, in their order.
abbrev pub all_tasks : State → List Task
all_tasks s = tasks_of s.log ++ waiting s.queue

-- Where there is a sender, there is no queue.
pub record IsOrdered (s : State) (asked : List Task) : Type 0 where
  pub order : all_tasks s ≡ asked
  pub free : (s.sender ≡ none) ⊎ (s.queue ≡ none)

waiting-inserted :
    (queue : Option Queue) (task : Task)
    → waiting (some (record (get_queue queue) { tasks = (get_queue queue).tasks ++ task ∷ [] }))
      ≡ waiting queue ++ task ∷ []
unfolding waiting get_queue
waiting-inserted none task = refl
waiting-inserted (some q) task = sym (append_assoc (woken q.phase) q.tasks (task ∷ []))

-- A task that got its fate in front of those that wait.
settled :
    (log : List Fate) (fate : Fate) (rest : List Task)
    → tasks_of (log ++ fate ∷ []) ++ rest ≡ tasks_of log ++ task_of fate ∷ rest
settled log fate rest =
    ap (λ tasks. tasks ++ rest) (tasks_of-append log fate)
    ∙ append_assoc (tasks_of log) (task_of fate ∷ []) rest

module _ (s : State) (asked : List Task) (o : IsOrdered s asked) where
  no_sender_yet : (q : Queue) → s.queue ≡ some q → s.sender ≡ none
  no_sender_yet q e = elim o.free [ inl free ↦ free | inr empty ↦ cc (e, empty) ]

  no_queue : (c : ℕ) → s.sender ≡ some c → s.queue ≡ none
  no_queue c e = elim o.free [ inl free ↦ cc (e, free) | inr empty ↦ empty ]

  inserted-IsOrdered :
      (task : Task) → s.sender ≡ none → IsOrdered (insert_task s task) (asked ++ task ∷ [])
  unfolding insert_task
  inserted-IsOrdered task free = record {
    order =
        ap (λ tasks. tasks_of s.log ++ tasks) (waiting-inserted s.queue task)
        ∙ sym (append_assoc (tasks_of s.log) (waiting s.queue) (task ∷ []))
        ∙ ap (λ tasks. tasks ++ task ∷ []) o.order;
    free = inl free;
  }

  -- With a sender there is no queue, so that the task goes behind all others.
  logged-IsOrdered :
      (c : ℕ) (fate : Fate)
      → s.sender ≡ some c
      → IsOrdered (log_fate s fate) (asked ++ task_of fate ∷ [])
  unfolding waiting
  logged-IsOrdered c fate has =
      let empty = no_queue c has in
      let before : tasks_of s.log ≡ asked =
        sym (append-nil (tasks_of s.log)) ∙ (rw empty at o.order) in
      record {
        order =
            ap (λ queue. tasks_of (s.log ++ fate ∷ []) ++ waiting queue) empty
            ∙ append-nil (tasks_of (s.log ++ fate ∷ []))
            ∙ tasks_of-append s.log fate
            ∙ ap (λ tasks. tasks ++ task_of fate ∷ []) before;
        free = inr empty;
      }

  send_by-IsOrdered :
      (c : Option ℕ) (message : Bytes)
      → s.sender ≡ c
      → IsOrdered (send_by s c message) (asked ++ pushing message ∷ [])
  unfolding send_by task_of
  send_by-IsOrdered none message e = inserted-IsOrdered (pushing message) e
  send_by-IsOrdered (some c) message e = logged-IsOrdered c (pushed c message) e

  call_by-IsOrdered :
      (c : Option ℕ) (message : Bytes)
      → s.sender ≡ c
      → IsOrdered (call_by s c message) (asked ++ calling message ∷ [])
  unfolding call_by task_of
  call_by-IsOrdered none message e = inserted-IsOrdered (calling message) e
  call_by-IsOrdered (some c) message e = logged-IsOrdered c (requested c message) e

  run-IsOrdered :
      (tasks : List Task) (c : Option ℕ)
      → s.queue ≡ some (record { tasks = tasks; phase = running c })
      → IsOrdered (request_sender s tasks c) asked
  unfolding request_sender waiting woken
  run-IsOrdered [] c e = record { order = rw e at o.order; free = inr refl }
  run-IsOrdered (pushing message ∷ rest) c e = record {
    order =
        settled s.log (push_fate c message) rest
        ∙ ap (λ task. tasks_of s.log ++ task ∷ rest) (task_of-push_fate c message)
        ∙ (rw e at o.order);
    free = inl (no_sender_yet _ e);
  }
  run-IsOrdered (calling message ∷ rest) c e = record {
    order = rw e at o.order;
    free = inl (no_sender_yet _ e);
  }

  wake-IsOrdered :
      (tasks : List Task) (c : Option ℕ) (message : Bytes)
      → s.queue ≡ some (record { tasks = tasks; phase = confirming c message })
      → IsOrdered (get_sender s tasks c message) asked
  unfolding get_sender waiting woken
  wake-IsOrdered tasks c message e = record {
    order =
        settled s.log (call_fate c message) tasks
        ∙ ap (λ task. tasks_of s.log ++ task ∷ tasks) (task_of-call_fate c message)
        ∙ (rw e at o.order);
    free = inl (no_sender_yet _ e);
  }

Step-IsOrdered :
    {s t : State} {more : List Task}
    → Step s more t
    → (asked : List Task) → IsOrdered s asked
    → IsOrdered t (asked ++ more)
unfolding waiting woken cluster_send cluster_call
Step-IsOrdered {s} (send message) asked o = send_by-IsOrdered s asked o s.sender message refl
Step-IsOrdered {s} (call message) asked o = call_by-IsOrdered s asked o s.sender message refl
Step-IsOrdered {s} (reply tasks c e) asked o =
    rw (append-nil asked)
      (record { order = rw e at o.order; free = inl (no_sender_yet s asked o _ e) })
Step-IsOrdered {s} (run tasks c e) asked o =
    rw (append-nil asked) (run-IsOrdered s asked o tasks c e)
Step-IsOrdered {s} (wake tasks c message e) asked o =
    rw (append-nil asked) (wake-IsOrdered s asked o tasks c message e)

Reach-IsOrdered : {t : State} {asked : List Task} → Reach no_sender asked t → IsOrdered t asked
unfolding waiting tasks_of
Reach-IsOrdered here = record { order = refl; free = inl refl }
Reach-IsOrdered (next {asked} {more} r step) = Step-IsOrdered step asked (Reach-IsOrdered r)

-- In whatever order pushes and calls to a node are asked for, clusterd answers and coroutines run: what was sent, was dropped or
-- failed, and what waits behind it, is each push and each call once, in the order in which they were asked for.
pub messages_in_order :
    {s : State} {asked : List Task}
    → Reach no_sender asked s
    → tasks_of s.log ++ waiting s.queue ≡ asked
messages_in_order r = let o = Reach-IsOrdered r in o.order
