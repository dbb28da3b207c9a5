-- ===== src/Lib.antt =====
-- A model of the Dahua edge gateway (src/): a service that takes requests from a message broker,
-- drives cameras over the vendor's SDK, and pushes their video to a media server.
--
-- Requests arrive on a broker connection, are put into a list, and are handled one by one; a handler
-- starts and stops media sessions, which the SDK feeds with video, and queues its reply for the thread
-- that publishes. The parts:
--   Common      names of the libraries passed on, Boolean tests, lists over the native numbers, and
--               Dict, an association list for the maps of the program.
--   Sdk         the camera SDK and the media socket library: a call is a constructor, a history is the
--               list of the calls made so far, newest first, and every answer is an unknown function of
--               history and call. Nothing is assumed of these answers.
--   Session     src/PlaySession.h and src/PlaySession.cpp, the methods of PlaySession. Session/Send is
--               sendMS, Session/Playback the control of playback and download, Session/Feed the data
--               callbacks of the SDK and the way of their blocks to sendMS.
--   Sessions    SessionMange of the same files, the map from stream ids to sessions.
--   Streams     src/sdk_wrap.cpp, the stream operations of sdk_wrap over that map. Streams/Race is
--               start_real_stream on several threads at once, Streams/Stops is stop_play on several.
--   Equipment   src/sdk_wrap.cpp, EquipmentMgr: the logins that are kept.
--   Ptz         src/sdk_wrap.cpp, ptz_control.
--   Records     src/sdk_wrap.cpp, CompareTime and query_record_file.
--   Cameras     src/sdk_wrap.cpp, get_camera_list and query_ptz_preset.
--   Config      src/config_manage.h and src/config_manage.cpp, with Config of src/common.h.
--   Platforms   src/server_manage.cpp, the devices in memory and in platforms.json.
--   TaskQueue   src/dc_thread_pool: semaphore.h, task_queue.h and thread_pool.h.
--   Mailbox     src/event_condition_variable.h with insert_task and erase_task of
--               src/server_manage.cpp.
--   Mq          src/rabbitMQ.h and src/rabbitMQ.cpp, rabbitmqClient over the AMQP library, which is
--               a parameter as the SDK is.
--   Gateway     src/gateway_msg.cpp over the documents that rapidjson reads and writes: Gateway/Requests
--               and Gateway/Media read requests, Gateway/Channels the ids of channels, and
--               Gateway/Replies and Gateway/Reports make the texts.
--   Client      src/client_manage.h and src/client_manage.cpp, client_manage over three such clients.
--               Client/Send publishes, Client/Send/Drained follows its thread over a whole list of
--               messages, and Client/Listen feeds the list of requests.
--   Server      src/server_manage.h and src/server_manage.cpp: the state of server_manage, the
--               handlers in Server/Devices and Server/Media, the dispatch of handle_msg_func in
--               Server/Dispatch, and start_server with main and onclose of src/DHGatewayServer.cpp in
--               Server/Start. Server/Answers and Server/Replies follow the replies from the handlers
--               to the thread of Client/Send. Server/Running is the way of a request on the
--               gateway's threads: from the list of Mailbox over handle_msg_func and the queue of
--               TaskQueue to the handler.
--   OldClient   src/rabbitmqclient.h and src/rabbitmqclient.cpp, CRabbitmqClient, an earlier version of
--               rabbitmqClient that nothing includes.
--
-- A definition is named after the function that it models. State is passed explicitly: a method takes
-- the object and the history and returns its result with the new object and history. Integers of w
-- bits are their bit patterns, so -1 is 2 ^ 32 - 1, and arithmetic that can wrap is written with
-- `% 2 ^ w`. Handles are bit patterns, and 0 is no handle. Members that a constructor leaves unset are
-- arguments of the model (Junk). An access out of bounds, or the use of an iterator that erase
-- invalidated, is `none`.
--
-- The loops of the program are structural in the model (over lists, or over the counter that the code
-- counts down), so no fuel is spent. The endless loops of threads are modelled by their rounds. Code
-- that several threads run is a step relation on the shared state, one step for each part that a lock
-- makes atomic or, in Streams/Stops, between two accesses to the handles, so a statement about
-- reachable states holds in every interleaving of these parts.
--
-- Not modelled: the packers outside the repository, logging (src/log.cpp) and MySQL
-- (src/mysql_manage.cpp), which only call libraries, and src/dc_thread_pool/List.h, a copy of another
-- project's container: the queue of tasks is a list. Floating-point numbers, times in text,
-- rapidjson, xpack, boost's ini parser and std::to_string are parameters. A handler of Server runs as
-- one step in Server/Running, although the thread pool runs several at once and only the maps are
-- locked, so what is said there is about the messages and not about handlers at once; Streams/Race
-- and Streams/Stops take two of them apart. What follows the second destruction of an envelope in
-- rabbitmqClient::Consumer is undefined and not modelled; `freed_twice` marks it.
pub mod Common
pub mod Sdk
pub mod Session
pub mod Sessions
pub mod Streams
pub mod Equipment
pub mod Ptz
pub mod Records
pub mod Platforms
pub mod TaskQueue
pub mod Mailbox
pub mod Mq
pub mod Gateway
pub mod Config
pub mod Cameras
pub mod Client
pub mod OldClient
pub mod Server
