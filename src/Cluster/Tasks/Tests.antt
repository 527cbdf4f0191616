-- ===== src/Cluster/Tasks/Tests.antt =====
-- A push, a call and a push while the sender of a node is asked for, and a push after that.
use testcluster.Prelude.{◌≡◌, refl, none, some, [], ◌∷◌, ◌++◌}
use testcluster.Cluster.Wire.{Bytes}
use testcluster.Cluster.Tasks.{
  pushing, calling, pushed, dropped, failed, asking, confirming, State, no_sender, get_queue,
  cluster_send, cluster_call, push_fate, call_fate, request_sender, send, call, reply, run, Reach,
  here, next,
}
use testcluster.Cluster.Tasks.Order.{tasks_of, waiting, messages_in_order}
use testcluster.Cluster.Tasks.Draining.{drained, fates, queue_drains}

abbrev one : Bytes
one = b'1' ∷ []

abbrev two : Bytes
two = b'2' ∷ []

abbrev three : Bytes
three = b'3' ∷ []

-- The sender is 7. The call has been woken and has not run when the third message is asked for.
abbrev halfway : State
halfway = record {
  sender = none;
  queue = some (record { tasks = pushing three ∷ []; phase = confirming (some 7) two });
  log = pushed 7 one ∷ [];
}

halfway-Reach : Reach no_sender (pushing one ∷ calling two ∷ pushing three ∷ []) halfway
unfolding cluster_send cluster_call get_queue request_sender push_fate
halfway-Reach =
    next
      (next
        (next
          (next (next (next here (send one)) (call two))
            (reply (pushing one ∷ calling two ∷ []) (some 7) refl))
          (run (pushing one ∷ calling two ∷ []) (some 7) refl))
        (run (calling two ∷ []) (some 7) refl))
      (send three)

messages_in_order_example :
    tasks_of halfway.log ++ waiting halfway.queue ≡ pushing one ∷ calling two ∷ pushing three ∷ []
messages_in_order_example = messages_in_order halfway-Reach

queue_drains_example : Reach halfway [] (drained halfway none)
queue_drains_example = queue_drains halfway none

-- Without a sender, the push is dropped and the call fails.
abbrev asked_for : State
asked_for = record {
  sender = none;
  queue = some (record { tasks = pushing one ∷ calling two ∷ []; phase = asking });
  log = [];
}

without_sender : (drained asked_for none).log ≡ dropped one ∷ failed two ∷ []
unfolding fates waiting push_fate call_fate
without_sender = refl
