-- ===== src/Cluster/Names/Stale.antt =====
-- An agent that is still being started is not told of names that are gone (bee_clusterd.lua: clearnamecache passes over
-- the entries of cluster_agent that are no numbers).
use testcluster.Prelude.{ℕ, ◌≡◌, refl, true, false, none, some, [], ◌∷◌}
use testcluster.Pack.Order.{Bytes}
use testcluster.Service.Table.{same_name_refl}
use testcluster.Cluster.Names.{Names, set_name, set_addr, unregister, queryname}
use testcluster.Cluster.Names.Paired.{unregisters, run}
use testcluster.Cluster.Names.Cache.{
  answer, System, nothing_cached, clear_name_cache, commanded, receive, Step, command, ask, reply,
  take_message, list_agent, Reach, here, next, new_agent,
}

-- The unlisted agent after it has asked for a name and got its address.
abbrev informed : Names → Bytes → ℕ → System
informed names name addr = record (new_agent names false) {
  cache = set_name nothing_cached name (some addr);
}

informed-Reach :
    (names : Names) (name : Bytes) (addr : ℕ)
    → queryname names name ≡ some addr
    → Reach (new_agent names false) (informed names name addr)
unfolding queryname receive
informed-Reach names name addr e =
    let s : System = new_agent names false in
    let asking : System = record s { queries = (0, name) ∷ [] } in
    let replied : System = record s { inbox = answer 0 name (queryname names name) ∷ [] } in
    let first : Step s asking = ask name refl in
    let second : Step asking replied = reply 0 name [] refl in
    let third : Step replied (receive s (answer 0 name (queryname names name))) =
      take_message (answer 0 name (queryname names name)) [] refl in
    let taken : receive s (answer 0 name (queryname names name)) ≡ informed names name addr =
      rw (e) refl in
    let last : Step replied (informed names name addr) = rw taken at third in
    next (next (next here first) second) last

-- A name that an agent asked for before it was listed, and that is unregistered before it is listed, stays with it: with no
-- message under way, the agent is listed and remembers an address of a name that has none.
pub stale_name :
    (names : Names) (name : Bytes) (addr : ℕ)
    → queryname names name ≡ some addr
    → (s : System) × Reach (new_agent names false) s
      × (s.listed ≡ true)
      × (s.queries ≡ [])
      × (s.inbox ≡ [])
      × (s.cache name ≡ some addr)
      × (queryname s.names name ≡ none)
unfolding queryname commanded clear_name_cache run
stale_name names name addr e =
    let s : System = informed names name addr in
    let less : Names = record {
      by_name = set_name names.by_name name none;
      by_addr = set_addr names.by_addr addr none;
    } in
    let gone : System = record s { names = less } in
    let ran : run names (unregisters name) ≡ (less, true) = rw (e, unregister) refl in
    let told : commanded s (run names (unregisters name)) ≡ gone = rw (ran) refl in
    let step : Step s (commanded s (run names (unregisters name))) = command (unregisters name) in
    let unregistered : Step s gone = rw told at step in
    let listed : Step gone (record gone { listed = true }) = list_agent in
    (
      record gone { listed = true },
      next (next (informed-Reach names name addr e) unregistered) listed,
      refl,
      refl,
      refl,
      rw (same_name_refl name) refl,
      rw (same_name_refl name) refl,
    )
