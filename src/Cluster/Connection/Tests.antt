-- ===== src/Cluster/Connection/Tests.antt =====
-- A connection that is closed while its agent is started.
use testcluster.Prelude.{refl, false, none, []}
use testcluster.Cluster.Connection.{
  State, no_connection, without, exit_agent, open_socket, is_closed, launched, close_by,
  close_socket, opens, launches, closes, Reach, here, next,
}
use testcluster.Cluster.Connection.Follows.{IsServed, connection-IsServed}

abbrev closed_early : State
closed_early = record { connected = false; launching = false; cluster_agent = none; agents = [] }

closed_early-Reach : Reach no_connection closed_early
unfolding open_socket close_socket close_by launched is_closed exit_agent without
closed_early-Reach = next (next (next here (opens refl refl)) closes) (launches 8 refl)

connection-IsServed_example : IsServed closed_early
connection-IsServed_example = connection-IsServed closed_early-Reach
