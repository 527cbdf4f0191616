-- ===== src/Lib.antt =====
-- Verification of the program's own code: the cluster of skynet nodes (cpp/beecluster, and the sender, the agent and the
-- names of a node in lua/BeeCluster), the C++ services with their message packets (cpp/common, cpp/shop, cpp/log), and the
-- same packets in Lua (lua/lib/protopack.lua).
--
-- Parts, and how they interact.
-- - cpp/beecluster/lua-beecluster.c is the Lua library beecluster.core. bee_clustersender.lua calls packrequest,
--   packpush and packtrace and writes the packets to a socket; bee_clusteragent.lua calls unpackrequest on each
--   packet that it reads, gathers the parts of long requests with append and concat, and answers with
--   packresponse; bee_clustersender.lua reads answers with unpackresponse. Packets start with a length of two
--   bytes (fill_header), which the socket channel takes off before a packet is unpacked.
-- - lua/BeeCluster/bee_clusterd.lua keeps the names of a node's services; each agent asks it for names, remembers the answers,
--   and forgets them at a "namechange".
-- - cpp/common/Pack.h, Pack.cpp: OutPack puts a protobuf message, its type name and a room into a packet for a
--   client (length in front) or for a service (uid in front); InPack takes it out again. lua/lib/protopack.lua does both in Lua.
-- - cpp/common/Dispatcher.h, RPC.h, RPC.cpp: DispatcherT decodes a packet and runs the callback of its type;
--   RpcClient and RpcServer exchange packets with a sub_type in front, by session. Service is all of these and
--   Timer: service_poll takes a message, selects the handler, and sets the uid
--   that is served while it runs; Shop is one of these. Callbacks are names, with a
--   function that tells what running one does to the object and to the rest of the service.
--
-- Files.
-- - Prelude: native numbers, Boolean tests, lists, and the integers of Lua (Prelude/Int, with the casts to
--   int32_t and uint32_t written out).
-- - Cluster/Wire: fill_uint32, fill_header, unpack_uint32, TEMP_LENGTH and MULTI_PART.
-- - Cluster/Lua: Lua values, the errors that the code raises, an outcome (returned values, an error, or a read
--   outside memory), a heap of skynet_malloc blocks, and the calls of the Lua C API. Conversions between strings
--   and numbers are the parameter LuaApi.
-- - Cluster/Memory: reads of blocks, and copies.
-- - Cluster/Request: packreq_number, packreq_string, packreq_multi, packrequest, lpackrequest, lpackpush,
--   lpacktrace. Its children hold the parts of a request (Parts, Packets), a whole call (Whole), and theorems.
-- - Cluster/Unpack: lunpackrequest and the seven functions it selects from. Cluster/Response: lpackresponse and
--   lunpackresponse. Cluster/Assemble: lappend and lconcat. Cluster/Name: lisname and lnodename.
-- - Cluster/Agent: of lua/BeeCluster/bee_clusteragent.lua, the part of dispatch_request that gathers requests, with the
--   packets of many requests in Cluster/Agent/Traffic. Cluster/Agent/Respond: the rest of dispatch_request, which calls services
--   and writes answers. The services of the node, and register_name there, are the parameter Node.
-- - Cluster/Sender: send_request, command.req and command.push of lua/BeeCluster/bee_clustersender.lua. skynet's socket
--   channel is the parameter Channel, with what it does with sessions and padding in Gathers; Cluster/Call/Tests has one that
--   does. Cluster/Call follows a call from the sender through the agent and back.
-- - Cluster/Names: register, unregister and queryname of lua/BeeCluster/bee_clusterd.lua; register_name, whose keys are names
--   and addresses, is two maps there. Cluster/Names/Cache: the names that an agent remembers and the messages between it and
--   clusterd, as a step relation.
-- - Cluster/Tasks: cluster.send and cluster.call of lua/BeeCluster/bee_cluster.lua with the queue of a node, as a step relation
--   of the coroutines. Cluster/Lookup: the coroutines that look up one name in an agent (register_name_mt of
--   bee_clusteragent.lua), as a step relation, too. Cluster/Connection: command.socket of bee_clusterd.lua, for one connection.
-- - Cluster/Push follows a push from the sender through the agent.
-- - Memcache: lua/common/memcache.lua. MysqlPool: start and getconn of lua/lpersistence/mysqlpool.lua. MysqlPool/Reconnect: reconn,
--   for one connection, as a step relation of the coroutines; those that were woken run before the next message, as in
--   dispatch_wakeup of skynet.lua. What the database driver gives is a parameter, or any outcome.
-- - Dispatcher: lua/lib/dispatcher.lua, and what activity.lua and lpersistence.lua do with a packet. The functions of a service are
--   names, with a function that tells what they return.
-- - Activity: get_addrs of lua/activity_master/activity_master.lua, and what that service does with packets.
-- - Protopack: lua/lib/protopack.lua, over the protobuf library of Lua (the parameter LuaProtobuf).
-- - Pack/Order: byte order, with ntoh64 and hton64. Pack/Decode: InPack, get_uid_from_stream.
--   Pack/Encode: OutPack, serialize_msg, serialize_imsg, serialize_imsg_type. Pack/Trip, Pack/Delivery and
--   Pack/Bounds hold their theorems. Pack/Zip: zlib_compress, the two OutPack::zip_reset,
--   serialize_msg_with_compress and compress_row_msg, over the parameter Zlib (deflateInit and deflate), of which
--   Pack/Zip/Deflate has what zlib documents of the calls that it allows (Promises); Pack/Zip/Store is a zlib that keeps to it, and refuses input behind its end.
-- - Service/Table: std::map, as an association list. Service/Send: skynet_send_noleak of
--   cpp/common/skynet_wrapper.c. Service/Dispatcher: DispatcherT of cpp/common/Dispatcher.h. Service/Rpc: RpcClient and
--   RpcServer of cpp/common/RPC.h and RPC.cpp; Service/Rpc/Trip and Service/Rpc/Exchange follow a call through both, and Service/Rpc/NullCalls those that wait for no answer.
--   Service/Timer: Timer of cpp/common/Timer.h and Timer.cpp. Service/State, Service/Poll and Service/Outgoing: Service
--   of cpp/common/Service.h and Service.cpp, whose state is one record, of which the base classes see a part (as_timer,
--   as_client, as_server); the modules below Service/Poll follow messages and calls from service to service.
--   Service/Socket: skynet_wrap_socket_send of cpp/common/ServiceContext.h.
-- - Shop: Shop of cpp/shop, a Program of Service. Shop/Ping follows a text message through it.
-- - Log: _logger of cpp/log/service_log.cpp, and the log functions of cpp/log/Log.cpp; its result is what LOG gets.
--   Log/Lines holds its theorem.
-- - Text/Divide: divide_string of cpp/common/common.h. Text/Parm: TextParm of cpp/common/Pack.h and Pack.cpp, over
--   Text/Sorted (std::map by key) and Text/Number (the C library's numbers as text). Text/Strsep: the C library's strsep.
-- - The modules called Tests (of Cluster, Cluster/Agent/Traffic, Cluster/Call, Cluster/Names, Cluster/Tasks, Cluster/Lookup,
--   Cluster/Connection, Activity, Dispatcher, MysqlPool,
--   MysqlPool/Reconnect, Cluster/Push, Memcache, Protopack, Pack, Pack/Zip, Text, Service, Service/Poll, Service/Socket, Shop and
--   Log) run the definitions on small inputs and apply the theorems at concrete ones.
--
-- Correspondence. A C function is the definition of its name. A block of code with an early return or a loop
-- that a function contains is a definition of its own beside it. An error by luaL_error or by a failed
-- luaL_check is the outcome `raised` with the heap at that moment, so that a leak is visible. Bytes are numbers;
-- what is stored to a byte is reduced mod 256, and int and uint32_t arithmetic has its wrap-around written out.
-- A pointer into received data is the memory from there on, and a read behind its end is `fault` (Cluster) or
-- `none` (Pack).
--
-- Bounds. But for two loops, there is no fuel: those of lpackresponse and packreq_multi recurse on the number of parts, that of
-- lconcat on the number of strings. The loop of TextParm::deserilize has the length of the text as fuel.
-- The inner loop of zlib_compress, which goes on as long as deflate fills its output, has `rounds`; its theorems take
-- any number for which rounds * 16384 is above deflateBound of the data. Data sizes are below 2^31 where the code keeps them in an int.
--
-- Not modelled. Protobuf, the Lua C API and the skynet allocator are parameters or the memory model; an
-- allocation always succeeds. time(NULL) is a parameter. luaopen_beecluster_core and logger_init set up other
-- libraries, and log_record appends to a file. Of the Lua services, those that
-- start and connect skynet services and databases are left out: of bee_clusterd.lua the channels to other nodes and the
-- listening, of bee_clustersender.lua changenode, and lua/lobby, the rest of lua/activity_master, of
-- mysqlpool.lua the queries, and lua/NameServer. 3rd/ is other projects' code.
pub mod Prelude
pub mod Cluster
pub mod Pack
pub mod Text
pub mod Service
pub mod Shop
pub mod Protopack
pub mod Memcache
pub mod MysqlPool
pub mod Activity
pub mod Dispatcher
pub mod Log
