-- ===== src/Cluster/Connection/Follows.antt =====
-- Each connection has its agent, and no agent is left (lua/BeeCluster/bee_clusterd.lua).
use testcluster.Prelude.{ℕ, ◌≡◌, refl, Bool, true, false, none, some, [], ◌∷◌, ==_refl}
use testcluster.Cluster.Connection.{
  boolean, service, State, no_connection, without, exit_agent, open_socket, is_closed, launched,
  close_by, close_socket, Step, opens, launches, closes, Reach, here, next,
}

-- What there is for a connection: while its agent is started, an entry that tells whether the connection was closed since, and no
-- agent; then, if it is connected, one agent with its entry, and else nothing.
pub data IsServed : State → Type 0 where
  starting :
      (connected : Bool) (entry : Bool)
      → (connected ≡ true → entry ≡ false)
      → (connected ≡ false → entry ≡ true)
      → IsServed (record {
        connected = connected;
        launching = true;
        cluster_agent = some (boolean entry);
        agents = [];
      })
  serving :
      (agent : ℕ)
      → IsServed (record {
        connected = true;
        launching = false;
        cluster_agent = some (service agent);
        agents = agent ∷ [];
      })
  gone :
      IsServed (record { connected = false; launching = false; cluster_agent = none; agents = [] })

without-single : (agent : ℕ) → without agent (agent ∷ []) ≡ []
unfolding without
without-single agent = rw (==_refl agent) refl

gone_without :
    (agent : ℕ)
    → IsServed (record {
      connected = false;
      launching = false;
      cluster_agent = none;
      agents = without agent (agent ∷ []);
    })
gone_without agent = rw (without-single agent) gone

launched-IsServed :
    (connected entry : Bool) (agent : ℕ)
    → (connected ≡ true → entry ≡ false)
    → (connected ≡ false → entry ≡ true)
    → IsServed (
        launched
          (record {
            connected = connected;
            launching = true;
            cluster_agent = some (boolean entry);
            agents = [];
          })
          agent)
unfolding launched is_closed exit_agent
launched-IsServed true true agent opened shut = cc (opened refl)
launched-IsServed true false agent opened shut = serving agent
launched-IsServed false true agent opened shut = gone_without agent
launched-IsServed false false agent opened shut = cc (shut refl)

Step-IsServed : {s t : State} → IsServed s → Step s t → IsServed t
unfolding open_socket launched close_socket close_by exit_agent
Step-IsServed (starting connected entry opened shut) (opens c l) = cc (l)
Step-IsServed (starting connected entry opened shut) (launches agent l) =
    launched-IsServed connected entry agent opened shut
Step-IsServed (starting connected entry opened shut) closes =
    starting false true (λ e. cc (e)) (λ e. refl)
Step-IsServed (serving a) (opens c l) = cc (c)
Step-IsServed (serving a) (launches agent l) = cc (l)
Step-IsServed (serving a) closes = gone_without a
Step-IsServed gone (opens c l) = starting true false (λ e. refl) (λ e. cc (e))
Step-IsServed gone (launches agent l) = cc (l)
Step-IsServed gone closes = gone

-- In whatever order a connection is opened, closed (once or more) and its agent is started: as long as the agent is started, the
-- entry tells whether the connection was closed since, and there is no other agent; after that there is just the one agent,
-- with its entry, if the connection is open, and neither an agent nor an entry if it is closed.
pub connection-IsServed : {s : State} → Reach no_connection s → IsServed s
connection-IsServed here = gone
connection-IsServed (next r step) = Step-IsServed (connection-IsServed r) step
