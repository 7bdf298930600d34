-- ===== src/Lib.antt =====
-- rtdbus: a broker that passes the requests of clients to the workers of services, over ZeroMQ
-- and in the frames of the MDP protocol, with a database (eXtremeDB) of services, workers and
-- requests behind it; and a real-time database of points, whose worker answers requests to read and
-- to write attributes.
--
-- How the parts interact. start_brokering (mdp/mdp_broker.cpp) reads a multipart message
-- (mdp/mdp_zmsg.cpp) and gives it to client_msg or worker_msg by its header. A client's request
-- becomes a letter in the database (xdb/impl/xdb_impl_db_broker.cpp) and goes to an armed worker
-- of its service, which is then occupied; the worker's REPORT goes to the client, takes the letter
-- out and arms the worker. Workers whose heartbeat is late are disarmed (purge_workers). Names
-- that contain "mmi." are services of the broker itself. The worker of the real-time database
-- (worker/wdigger.cpp) makes a message of the last two frames of a request (msg), reads or writes an
-- attribute for each of its items (xdb/impl/xdb_impl_db_rtap.cpp), and sends the answer.
--
-- The files.
--   Base, Base/*       numbers, lists, options, byte strings (strcmp, strncpy, find) and tests.
--   Zmsg, Zmsg/*       mdp/mdp_zmsg.cpp. A message is the list of its frames (m_part_data);
--                      push_front, wrap, unwrap, recv, send, encode_uuid and decode_uuid keep
--                      their names. Wire, Uuid and Envelope prove.
--   Xdb/Rows           the classes of xdb/impl/dat/broker_db.mco.
--   Xdb/Service, Worker, Letter   the objects of xdb/broker/xdb_broker_{service,worker,letter}.cpp;
--                      a setter SetX is set_x.
--   Xdb/Table, Mco     what the code uses of eXtremeDB, which is not in the repository: a parameter
--                      `m : Mco` of every definition that uses it, with the documented behaviour of
--                      its calls as the hypothesis `IsMco m`.
--   Xdb/Services, Workers, Letters   xdb/impl/xdb_impl_db_broker.cpp: PushWorker is push_worker,
--                      AssignLetterToWorker is assign_letter_to_worker, and so on. Their child
--                      modules prove: Laws, Identity, Lookup, Assign, Keep.
--   Xdb/ServiceList, Clear   ServiceList, ClearWorkersForService and ClearServices of the same file.
--                      Walk, Shrinks, Count, Ends and Services prove.
--   Xdb/Memory         a database of lists of rows that has the hypotheses, for the examples of
--                      Xdb/Samples, Xdb/Tests and Broker/Tests.
--   Broker/State, Dispatch, WorkerSide, ClientSide, Loop   mdp/mdp_broker.cpp, one function per
--                      method. Extends, Requests, Reports, Turn, Delivery, Purge, Replies,
--                      Senders and Gone prove.
--   WorkerApi, WorkerApi/*   mdp/mdp_worker_api.cpp: a turn of the loop of mdwrk::recv (turn,
--                      on_message, on_timeout, on_clock), connect_to_broker, getEndpoint. Endpoint,
--                      Liveness and Requests prove.
--   Client, Client/*   mdp/mdp_client_async_api.cpp: ask_service_info, send, send_direct and recv
--                      (here receive). Services, Direct, Known and Answers prove.
--   Rtap, Rtap/*       GOFVALTI of xdb/impl/xdb_impl_db_rtap.cpp, which changes the validity of an
--                      analog point when VALIDCHANGE is written (gofvalti, with one function for each
--                      case of its switch), and on_update_VALIDCHANGE, which calls it. A write that
--                      fails has a code, and `break` is a constructor of Flow. Values, Effects and
--                      Messages prove.
--   Rtap/Groups        the groups of subscription of the same file: create_group, delete_group,
--                      query_sbs_armed_group and query_sbs_points (one function for ARMED and one for
--                      DISARM), with one function for each of their loops and for its body. The
--                      classes are tables, like those of Xdb; names fit their fields, what stands
--                      in memory behind a full name is a parameter, and a cursor meets what is
--                      there when it is opened. A code that a `break` out of an inner loop leaves
--                      behind is lost where the source overwrites it. rtQUERY_SBS_READ_POINTS_ARMED
--                      is not modelled. Rtap/Groups/Selected is querySbsDisarmSelectedPoints. It,
--                      Armed, Points, Disarm, Creation and Deletion prove.
--   Attribute          the values of attributes, of xdb/common/xdb_common.hpp and .cpp: the union of the
--                      scalars is one number, of which a member reads and writes the low bits.
--   Rtap/Attributes    readVAL, writeVAL and so on of xdb/impl/xdb_impl_db_rtap.cpp (read_val,
--                      write_val), for the values, validities, inhibitions, VALIDCHANGE and STATUS.
--   Rtap/Access        read and write of an attribute by its name, of the same file; the maps from names
--                      to functions are a parameter. Spec is the view of a client, which is the
--                      specification; Laws, Values, Refines and Runs prove.
--   Msg/Value, Items   Value, and the items of ReadMulti, WriteMulti and SubscriptionEvent, of
--                      msg/msg_sinf.cpp; ValueUpdate is the record Update. RoundTrip and Delivery prove.
--   Msg/Letter         Letter, DataImpl and the factory of msg/msg_message.cpp and
--                      msg/msg_message_impl.cpp; what protobuf parses and serializes is the parameter
--                      `codec : Codec`.
--   Digger, Digger/*   DiggerWorker of worker/wdigger.cpp: processing, handle_read, handle_write and
--                      send_exec_result, over a connection of xdb/impl/xdb_impl_connection.cpp. A
--                      request to handle_sbs_ctrl is handed on. Publish is publish_sbs_impl, and
--                      Service is handle_request and handle_asklife of Digger, and Echo of
--                      worker/wecho.cpp. Reads, Writes, Dialogue, Requests and Bundles prove.
--   Database, Database/*   TransitionToState of xdb/impl/xdb_impl_database.cpp; Transitions proves.
--
-- How state is modelled. The broker is a record of the database, of the messages handed to the
-- socket, oldest first, and of m_heartbeat_at. A method returns the state it leaves; a method that
-- writes through a pointer returns the object too. A failed assertion, a null dereference or a read
-- out of range is `none`. The clock is an argument, one reading for a message. The database holds
-- whether the runtime starts and commits transactions; a failed step is rolled back.
--
-- Numbers are natural: ids, seconds and lengths are compared and added. A value of an attribute is
-- its bits, cut to its width by `% 2 ^ w`; so is the counter of exchanges. The other subtractions
-- are the places of a message's last frames, behind the test that there are two, and --m_liveness,
-- which keeps the wrap-around of size_t. The bounds are those of cmake/CMakeLists.txt: identities
-- of 11 characters, service names of 32, endpoints of 100, heartbeats of 2500 ms. Every loop is
-- over a list (the frames, the rows that a cursor meets, the services, the polls) or over the count
-- of the items of a message, but those that clear the services: one turn for each row of the
-- service and one more, or for each service of the list, which clear_services-Ends shows to be
-- enough.
--
-- Not modelled: sockets and their errors; logging, dump and snapshots; an error of eXtremeDB other
-- than a missing row, a failed creation, write, removal, start or commit; the clock's failure; what
-- a transaction that is left open does to the next one; names longer than their fields in the
-- database; the refusal of a second letter for one worker by the unique index of worker_ref; a read
-- behind the array of 400 services after the list has shrunk; of the real-time database what is not
-- named above (xdb/rtap, and the rest of xdb/impl/xdb_impl_db_rtap.cpp); the control of
-- subscriptions and the threads of worker/wdigger.cpp; as_string and SubscriptionControl of msg;
-- the clients (client) and the tools.
pub mod Base
pub mod Zmsg
pub mod Xdb
pub mod Broker
pub mod Client
pub mod Database
pub mod Digger
pub mod Rtap
pub mod Attribute
pub mod Msg
pub mod WorkerApi
