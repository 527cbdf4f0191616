-- ===== src/Cluster/Call/Serving.antt =====
-- An agent (lua/BeeCluster/bee_clusteragent.lua) that has got a whole request, and the answer that it writes.
use testcluster.Prelude.{ℕ, zero, suc, ◌≡◌, refl, ap, List, [], ◌∷◌}
use mathlib.Core.List.{append-nil}
use testcluster.Cluster.Wire.{Bytes}
use testcluster.Cluster.Lua.{LuaApi, Outcome, ok, raised, fault, Heap, M, continue}
use testcluster.Cluster.Agent.{LargeRequests, Gathered, waiting, receive, receive_all}
use testcluster.Cluster.Agent.LongRequest.{answers}
use testcluster.Cluster.Agent.Respond.{Node, Event, dispatch_gathered, serve, serve_all}

-- What a chain that succeeds went through.
bind_ok :
    {A B : Type 0} (m : Outcome A × Heap) (f : A → M B) (b : B) (h : Heap)
    → continue m f ≡ (ok b, h)
    → (a : A) × (h' : Heap) × (m ≡ (ok a, h')) × (f a h' ≡ (ok b, h))
bind_ok (ok a, h') f b h e = (a, h', refl, e)
bind_ok (raised x, h') f b h e = cc
bind_ok (fault, h') f b h e = cc

module _ (lua : LuaApi) (node : Node) where
  record Got (packet : Bytes) (packets : List Bytes) (large last : LargeRequests)
      (gs : List Gathered) (h heap : Heap) : Type 0 where
    next : LargeRequests
    first : Gathered
    rest : List Gathered
    between : Heap
    received : receive lua large packet h ≡ (ok (next, first), between)
    more : receive_all lua next packets between ≡ (ok (last, rest), heap)
    whole : gs ≡ first ∷ rest

  got :
      (packet : Bytes) (packets : List Bytes) (large last : LargeRequests) (gs : List Gathered)
      (h heap : Heap)
      → receive_all lua large (packet ∷ packets) h ≡ (ok (last, gs), heap)
      → Got packet packets large last gs h heap
  unfolding receive_all
  got packet packets large last gs h heap e =
      let ((next, first), between, received, after) =
        bind_ok (receive lua large packet h) _ (last, gs) heap e in
      let ((end, rest), final, more, same) =
        bind_ok (receive_all lua next packets between) _ (last, gs) heap after in
      record {
        next = next;
        first = first;
        rest = rest;
        between = between;
        received = received;
        more = cc (more, same);
        whole = cc (same);
      }

  serve_packet :
      (packet : Bytes) (large next : LargeRequests) (h between heap : Heap) (g : Gathered)
      (events : List Event)
      → receive lua large packet h ≡ (ok (next, g), between)
      → dispatch_gathered lua node g between ≡ (ok events, heap)
      → serve lua node large packet h ≡ (ok (next, events), heap)
  unfolding serve
  serve_packet packet large next h between heap g events e d = rw (e) (rw (d))

  pub serve_all-answers :
      (packets : List Bytes) (n : ℕ) (g : Gathered) (large last : LargeRequests)
      (h heap heap' : Heap) (events : List Event)
      → receive_all lua large packets h ≡ (ok (last, answers n g), heap)
      → dispatch_gathered lua node g heap ≡ (ok events, heap')
      → serve_all lua node large packets h ≡ (ok (last, events), heap')
  unfolding receive_all serve_all dispatch_gathered
  serve_all-answers [] zero g large last h heap heap' events e d = cc (e)
  serve_all-answers [] (suc n) g large last h heap heap' events e d = cc (e)
  serve_all-answers (packet ∷ []) zero g large last h heap heap' events e d =
      let r = got packet [] large last (g ∷ []) h heap e in
      let served : serve lua node large packet h ≡ (ok (last, events), heap') =
        serve_packet packet large last h heap heap' g events (cc (r.received, r.more, r.whole)) d in
      rw (served) (ap (λ es. (ok (last, es), heap')) (append-nil events))
  serve_all-answers (packet ∷ p ∷ packets) zero g large last h heap heap' events e d =
      let r = got packet (p ∷ packets) large last (g ∷ []) h heap e in
      let q = got p packets r.next last r.rest r.between heap r.more in cc (q.whole, r.whole)
  serve_all-answers (packet ∷ packets) (suc n) g large last h heap heap' events e d =
      let r = got packet packets large last (waiting ∷ answers n g) h heap e in
      let served : serve lua node large packet h ≡ (ok (r.next, []), r.between) =
        serve_packet packet large r.next h r.between r.between waiting [] (cc (r.received, r.whole))
          refl in
      let gathered : receive_all lua r.next packets r.between ≡ (ok (last, answers n g), heap) =
        cc (r.more, r.whole) in
      let later =
        serve_all-answers packets n g r.next last r.between heap heap' events gathered d in
      rw (served) (rw (later))
