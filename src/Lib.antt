-- ===== src/Lib.antt =====
-- A verification of the chat server: a C++ program whose clients register and log in, make friends,
-- found groups, and exchange messages and files, with its data in Redis.
--
-- The parts and how they interact:
--   * A master accepts sockets and hands them to ten workers in turn (src/Server/Reactor). A worker
--     reads from its sockets through a `Connection` each (src/Server/net/connection.cc), which puts
--     the bytes into a buffer, takes frames off it (src/tools/protocol.cc), and calls a handler for
--     each message.
--   * A handler reads and writes Redis (src/Server/Redis), finds other users' sockets in the tables
--     of the sessions (src/Server/Manage/User_manager.cc), and sends to them through the message
--     centre (src/Server/Manage/messageCenter.cc).
--   * A server of its own, for registration and login (src/Server/UserAuth), shares Redis only.
--   * Files go through a third server (src/Server/FTP_server): a client opens a control connection,
--     asks for a data connection by PASV, and sends or fetches one file by STOR or RETR. Redis keeps
--     a list of the names that wait from one user to another.
--   * The client (src/Client) sends the requests that its menus ask for, and a thread receives the
--     answers (UserChat); a file is sent and fetched by a thread of its own (UserFile).
--
-- The files:
--   * Base: bytes, lists, maps, and stateful code as `M S A = S → Option (A × S)`, where `none` is
--     undefined behaviour; `Returns` says that code comes to an end with a fact of the outcome.
--   * Protocol: pack and unpack over lists of bytes, with uint32_t wrapping around (Framing), and
--     generate_uuid (Uuid).
--   * Redis: the commands as parameters, Redis/Documented what their documentation says, and
--     Redis/Memory a server that keeps it. RedisClient: a definition for each method (Users, Groups,
--     Lists), with try and catch (Try) and the keys (Keys); Kinded, Effects and Accounts say what
--     the methods do, where each key holds its kind of value.
--   * Chat: the messages of Proto/user_chat.proto. World: the state of the server process.
--   * UserManager, MessageCenter, Worker: the tables and the ways of a message.
--   * Connection: a child for each group of handlers (Groups, Managers, Members, Joining, Chats,
--     Friends, Files, Accounts), the heartbeat (Heart) and readMessage (Receive). A handler has the
--     name of its method in snake case and takes the socket and the part of the message it reads.
--   * UserAuth: the server for registration and login.
--   * FileServer: the data connection (Data, with its loops over system calls in Sockets), the
--     commands (Command, Listing), the lines of a connection (Session) and the workers (Reactor).
--     Words, Queue and Transfer hold the lemmas on transfers, and Keeps those on what no command
--     changes.
--   * FileClient: the reading of the server's address (Passive) and the two transfers (Transfer), on
--     the answers and the outcomes of recv and send that are still to come (State).
--   * Client: a child for the answers about friends and about groups, the loops that receive them
--     (Receive), names (Names), and the commands (FriendRequests, GroupRequests, GroupMembers,
--     Files).
--   * Tests: examples on the server in memory.
--
-- Bounds and fuel: the loops over frames take fuel, one round for each frame and one more; a run
-- that needs more rounds is `none`. The loop over SCAN takes its rounds from the services. The
-- loops over accept, recv and send go over the outcomes that these calls will have, and are `none`
-- where these run out; process_input takes a round for each byte. A loop of the client that reads
-- lines takes a round for each line. All other loops are over lists.
--
-- Parameters: Redis, the generated protobuf code, the clock, in seconds from 1970 on, and the random
-- numbers, which are unknown functions of how often they were asked; for the file server also the entries of
-- directories, whether a file can be created, and the addresses of sockets. A hypothesis on kinds
-- says that a key is used for one kind of value; key families that collide for odd user names are
-- excluded by it.
--
-- A field that its constructor leaves indeterminate, heart_time of `Connection`, is an Option: reading
-- it before it is set is undefined. Where a theorem reads it, a hypothesis gives it a time.
--
-- Not modelled: the set-up of sockets, epoll and threads (the handlers of all threads run one at a
-- time, which the locks of the program do not enforce everywhere), errors of send on control
-- sockets, which are only printed, the servers' output to the console, the mail library, and of the
-- client its menus and its screens for registration and login (src/Client/UserAuth). A call of the
-- client that blocks is taken to send all or to fail.
pub mod Base
pub mod Protocol
pub mod Redis
pub mod RedisClient
pub mod Chat
pub mod World
pub mod Tests
pub mod Client
pub mod FileServer
pub mod FileClient
pub mod MessageCenter
pub mod UserManager
pub mod Connection
pub mod Worker
pub mod UserAuth
