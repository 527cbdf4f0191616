-- ===== src/Cluster/Tasks/Draining.antt =====
-- The queue of a node does not stay (lua/BeeCluster/bee_cluster.lua).
use testcluster.Prelude.{ℕ, refl, Option, none, some, List, [], ◌∷◌, ◌++◌, append_assoc, append-nil}
use testcluster.Cluster.Tasks.{
  Task, pushing, calling, Fate, Phase, asking, running, confirming, Queue, State, push_fate,
  call_fate, request_sender, get_sender, reply, run, wake, Reach, here, next,
}
use testcluster.Cluster.Tasks.Order.{woken, waiting}

-- What becomes of tasks that wait for this sender.
unfoldable pub fates : Option ℕ → List Task → List Fate
unfolding push_fate call_fate
fates c [] = []
fates c (pushing message ∷ rest) = push_fate c message ∷ fates c rest
fates c (calling message ∷ rest) = call_fate c message ∷ fates c rest

-- The sender that those who wait will get: what clusterd gives, where it is still asked.
abbrev pub given_in : Phase → Option ℕ → Option ℕ
given_in asking answer = answer
given_in (running c) answer = c
given_in (confirming c message) answer = c

abbrev pub given : Option ℕ → Option Queue → Option ℕ → Option ℕ
given sender none answer = sender
given sender (some q) answer = given_in q.phase answer

-- The state behind the queue.
abbrev pub drained : State → Option ℕ → State
drained s answer = record {
  sender = given s.sender s.queue answer;
  queue = none;
  log = s.log ++ fates (given s.sender s.queue answer) (waiting s.queue);
}

drained_running :
    (u : State) (sender : Option ℕ) (tasks : List Task) (c : Option ℕ) (log : List Fate)
    → Reach u [] (record {
      sender = sender;
      queue = some (record { tasks = tasks; phase = running c });
      log = log;
    })
    → Reach u [] (record { sender = c; queue = none; log = log ++ fates c tasks })
unfolding fates request_sender get_sender
drained_running u sender [] c log r = rw (append-nil log) (next r (run [] c refl))
drained_running u sender (pushing message ∷ rest) c log r =
    let done =
      drained_running u sender rest c (log ++ push_fate c message ∷ [])
        (next r (run (pushing message ∷ rest) c refl)) in
    rw (append_assoc log (push_fate c message ∷ []) (fates c rest)) at done
drained_running u sender (calling message ∷ rest) c log r =
    let confirms = next r (run (calling message ∷ rest) c refl) in
    let done =
      drained_running u sender rest c (log ++ call_fate c message ∷ [])
        (next confirms (wake rest c message refl)) in
    rw (append_assoc log (call_fate c message ∷ []) (fates c rest)) at done

drained_phase :
    (sender : Option ℕ) (tasks : List Task) (phase : Phase) (log : List Fate) (answer : Option ℕ)
    → let s : State = record {
      sender = sender;
      queue = some (record { tasks = tasks; phase = phase });
      log = log;
    } in
      Reach s [] (drained s answer)
unfolding waiting woken fates get_sender
drained_phase sender tasks asking log answer =
    drained_running _ sender tasks answer log (next here (reply tasks answer refl))
drained_phase sender tasks (running c) log answer = drained_running _ sender tasks c log here
drained_phase sender tasks (confirming c message) log answer =
    let done =
      drained_running _ sender tasks c (log ++ call_fate c message ∷ [])
        (next here (wake tasks c message refl)) in
    rw (append_assoc log (call_fate c message ∷ []) (fates c tasks)) at done

drained_queue :
    (sender : Option ℕ) (queue : Option Queue) (log : List Fate) (answer : Option ℕ)
    → let s : State = record { sender = sender; queue = queue; log = log } in
      Reach s [] (drained s answer)
unfolding waiting fates
drained_queue sender none log answer = rw (append-nil log) here
drained_queue sender (some q) log answer = drained_phase sender q.tasks q.phase log answer

-- From any state, with nothing more asked for and any answer of clusterd, the coroutines get to a state without a queue that keeps
-- the sender which clusterd gave: every task that waited has been sent to it, in order, or, if clusterd gave none, was dropped
-- or failed.
pub queue_drains : (s : State) (answer : Option ℕ) → Reach s [] (drained s answer)
queue_drains s answer = drained_queue s.sender s.queue s.log answer
