-- ===== src/Lib.antt =====
-- MROS: a small robot message passing system. Nodes publish and subscribe to topics; a mediator
-- keeps who publishes and subscribes to what, tells subscribers where the publishers are, and
-- drops a node when its connection closes. Nodes and the mediator talk through remote calls, which
-- are json messages over a stream of framed bytes.
--
-- Common, Containers: the numbers, lists, sets and tables that the parts share.
-- Json: the json package (nlohmann::json, outside the repository) as an interface: its operations
--   and the documented laws that the code relies on. Json/Sample has an instance of it for tests.
-- Mediator: include/mediator/mediator.hpp and src/mediator/mediator.cpp. The two tables are
--   association lists, the connections are numbers, and what the mediator sends and closes is a log.
--   addPublisher and addSubscriber are two functions each, one for each table lock that they take.
--   Callbacks is handleRPCConnections: the callbacks of a connection and the accepting loop.
--   Registry is the specification: who publishes what and where, who subscribes to what and who is
--   connected; Refines, Publishing, Subscribing and Removal relate each function to it; Race is an
--   overlap of two handlers; Accepting is how the accepting loop ends; Serve relates the requests on
--   the wire to the functions; Events, Invariant and History state what holds after any sequence of
--   events, each handler run to its end. Threads has the same handlers in the parts that each of the
--   two locks covers, for threads that overlap in any way: Keeps and Agree say what each part does
--   while others are under way, and Schedules what holds after any sequence of parts.
-- Rpc: include/socket/bson_rpc_socket/bson_rpc_socket.hpp and
--   src/socket/bson_rpc_socket/bson_rpc_socket.cpp: the messages, the callbacks, and the receiving
--   thread with processRequest and processRequestResponse. Closing is the closing of a connection:
--   close, the closing branch of receiveCycle and sendClosingMessage, as steps of the two ends, with any
--   number of threads in close.
--   Handshake is its start: client_bson_rpc_socket.cpp and connection_bson_rpc_socket.cpp beside it.
-- BsonSocket: include/socket/bson_socket/bson_socket.hpp and src/socket/bson_socket/bson_socket.cpp:
--   sendMessage and receiveMessage over what send, recv and poll answer.
-- Sockets: src/socket/server_socket.cpp, src/socket/client_socket.cpp, the closing in
--   src/socket/bson_socket/bson_socket.cpp and the exceptions of include/socket/utils: the calls of the
--   operating system that each function makes (Construct), and which socket holds which descriptor
--   (Owners, Descriptors).
-- Subscriber: include/mros/subscriber.hpp: the message queue (Queue), and the receiving and the
--   spinning thread as actions one after the other (Actions, Orderly, Spinning); Connecting is a cycle
--   of the receiving thread during which connections are made.
-- Publisher: include/mros/publisher.hpp: the connections of a publisher and what is sent on them
--   (Deliveries); Schedules has its threads in turns, Streams what each subscriber then gets, and Ends
--   how the accepting thread ends.
-- Delivery: a message from publish over the sockets into the queue of a subscriber, for any message
--   type of the concept in include/mros/utils/utils.hpp, such as that of
--   include/messages/example_message.hpp.
-- Node: include/mros/node.hpp and src/mros/node.cpp: the tables of a node, its messages to the
--   mediator (Discovery: from a new subscriber over the mediator back to it), disconnect (Leaving),
--   spin with the thread that disconnects (Spin), and the destructors of a publisher and a subscriber,
--   which tell the node (Owned).
-- Mros: include/mros/mros.hpp and src/mros/mros.cpp: the instance of a process and ctrl+C; Interrupt
--   is ctrl+C in a process with nodes.
-- Logging: include/logging/logging.hpp and src/logging/logging.cpp: the level and the contexts; what
--   the other parts log is not in their models.
-- Uri: toURI of src/mros/utils/utils.cpp.
-- OldMediator: src/mediator/mediator_old.cpp, which the build leaves out, and its callbacks (Wire).
--
-- How the parts interact: receiveCycle (Rpc) reads messages that receiveMessage (BsonSocket) cuts
-- out of the stream, and calls the callbacks that the mediator (Mediator/Callbacks) registers; the
-- callbacks read the messages through Json and call the functions on the tables (Mediator), which
-- send requests on other connections; the receiving thread of a node (Node) reads those and
-- connects its subscribers, which then receive what publishers send (Delivery).
--
-- Bounds: sizes wrap at 2 ^ 64, and the cast of a message's size to int at 2 ^ 32, as on the
-- machines that the program is built for; a port goes to the kernel in 16 bits. There is no fuel:
-- each loop runs over a list of what the operating system answers, over a list of the tables, or,
-- for the digits of a port, on the order of the numbers. A closing takes boundedly many steps
-- (Rpc/Closing/Terminates).
--
-- Not modelled: the calls of the operating system and of the json package, whose answers are
-- arguments; the order of memory accesses inside a part that a lock covers; a reset that loses
-- what a peer sent before it closed; the layout of a logged line; src/command_line, which has one
-- call of the mediator's constructor; and the type Topic of src/mediator/mediator_old.cpp, which
-- no file declares and which is a parameter with its operator ==; and ends that close in the midst
-- of a handshake, whose model has no closing.
pub mod Common
pub mod Containers
pub mod Json
pub mod Mediator
pub mod OldMediator
pub mod Delivery
pub mod Sockets
pub mod Rpc
pub mod Uri
pub mod BsonSocket
pub mod Subscriber
pub mod Publisher
pub mod Node
pub mod Mros
pub mod Logging
