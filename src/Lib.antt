-- ===== src/Lib.antt =====
-- A server that passes short messages between users over UDP, and what keeps it right.
--
-- The program (src/server, src/shared, src/client) has a server and a client. Clients log in under a
-- name from an address, two addresses at most at a time, follow other users, and send messages. The
-- server's main loop takes received datagrams from a queue, hands each to the handler of client
-- messages, and pushes a message to the send queue for each action that the handler asks for. Three
-- managers keep the state: which addresses are logged in for which user, the users with their
-- followers and the notifications that wait for them, and the table of stored messages. A message
-- to a follower that is online goes out at once; for all others one copy is stored, with a count of
-- the users that it waits for, until the last of them has logged in.
--
-- The files, and what they model:
--   Base, Base/..: tests, lists, finite maps, runs that may crash, and finite sums.
--   Shared/Validation: src/shared/shared_helpers.cpp. Shared/Ids: src/shared/msg_id.h, msg_id.cpp
--     and src/server/server_defines.h. Shared/Memory: strcpy and the bytes of a word. Shared/Json:
--     what is used of jsoncpp, as a parameter. Shared/Buffer: the arrays of BUFFER_SIZE bytes of
--     src/shared/shared.h that datagrams are read into, and how they are parsed.
--   Shared/Atomic: the three classes of src/shared/atomic.h. Guarded: an object behind one semaphore.
--     Var, VecQueue: AtomicVar and AtomicVecQueue as such objects. Readers: AtomicMultipleReadersVar;
--     Exclusion, Progress: who may be where, and that somebody can go on.
--   Shared/Sockets: the loops over address candidates in src/client/client_connection.cpp and
--     src/server/server_broadcast.cpp, which Client/Connection and Server/Broadcast name. Leaks: which
--     sockets stay open.
--   Server/Connections: src/server/user_connection.h, user_connection.cpp, hashing.cpp.
--     Invariant: the two maps agree. Sessions: who is logged in where, as one finite map.
--   Server/Persistence: src/server/user_persistence.h, user_persistence.cpp. Invariant: names and ids
--     are inverse, follower lists are sets of other users. Users, Followers, Pending: the operations.
--   Server/Notification, Server/NotificationManager: src/server/notification.h, notification.cpp.
--     Counts and Keeps: counts of pending users are numbers of references. Fan: the loop over
--     followers. Stored: what storing a message leaves.
--   Server/Message: src/server/server_message.h, server_message.cpp, server_action.h and
--     src/shared/shared_server_msg.h. Payload: what is read back of a payload.
--   Server/Handler: src/server/client_message_handler.h, client_message_handler.cpp. Invariant: what
--     holds between two datagrams. Login, LoginUsers, FirstLogin, Delivery, Follow, Publish, Send,
--     LoginAnswer, Datagram, OfflineMessage: the handlers, and the way of a message to a user that is
--     offline.
--   Server/Loop: the loop of src/server/server.cpp. Dispatch: where messages go. Invariant: any list
--     of datagrams.
--   Server/Disk: src/server/disk_operations.h, disk_operations.cpp. UserFile: the bytes of a user's
--     file. Directory: updates and a restart.
--   Server/Restart: load_user_persistence, and the states of the users over many runs of the server.
--     Mirror, Kept, Step: the folder with the queue written, and the users in memory, in step. Loading,
--     Restored, Runs: what the next run starts with. Serving, Service: the main loop's datagrams, and the
--     restart after them.
--   Server/Worker: the loops of src/server/server_sender.cpp and of fn_disk_io, against the main thread
--     of src/server/server.cpp. Shutdown, Finish: what is handled, and that the loop ends. Server/Sender:
--     what the sender sends. Server/Receiver: src/server/server_receiver.cpp. Order: what it pushes.
--   Client/Message: src/shared/client_message.h, client_message.cpp. Client/Input:
--     src/client/user_input.h, user_input.cpp and the handling of the user's input in
--     src/client/client.cpp. Commands: what a typed line leads to. Arrival: how the server reads it.
--   Client/Login: src/client/login.cpp. Reply: what it reads of a reply. Answer: the login at the
--     server, and back. Client/Session: the main loop and the clean-up of src/client/client.cpp.
--     Reading: the server's messages. Texts: which of them are ASCII. Requests: what a session pushes.
--     Delivered: a message from one client to the other's screen. Client/UserCommand: the variable
--     between the input thread and the main loop. Client/Typing: the input thread's loop in
--     src/client/user_input.cpp. Lines: what it writes. Client/Sender: src/client/client_sender.cpp.
--     Order: what it writes. Client/Receiver: src/client/client_receiver.cpp.
--   Examples: a server with two users, at which the theorems are applied.
--
-- Operations of the source are functions of the same name that return the changed state. A pointer
-- that may be null is an option, an unordered_map a function from keys to options, a string the list
-- of its bytes, an int its 32-bit pattern. A run that an uncaught exception or a write past an object,
-- or a read past a buffer, would end is a value of Outcome. Payloads are the 160 bytes of their union:
-- a copy past a member but within the union is taken as a write to these bytes, as compilers without
-- fortified copies do it. Loops over vectors are structural recursion. Loops that go on until they are
-- told to end are structural recursion over what the system and the other threads give in each round,
-- or, in Server/Worker, steps of a relation; no fuel is used. Threads are interleaved: a semaphore is
-- a number, sem_wait a step that needs it to be positive, and every access to a shared object a step
-- of its own. In Server/Worker the methods of the queue and of the flag are single steps, as
-- Shared/Atomic justifies. Strings have fewer than 2^31 bytes, so that an int holds their size, as in
-- the checks of Shared/Validation. Ids are bounded: theorems that number a user or a message ask that
-- the next id is below 2^31 or 2^32, and the time has 64 bits.
--
-- Parameters are the accessors, the writer and the reader of jsoncpp (Shared/Json), the contents of
-- uninitialised payloads, the clock and ctime. Of jsoncpp it is asked that it reads back what it
-- writes where the texts are ASCII, as its texts are UTF-8; of ctime, that it gives ASCII. The text of
-- a document is abstract, with its bytes. The client's buffer keeps what is left of earlier datagrams;
-- a buffer without a NUL is read past its end, a crash. The server's listener is modelled for
-- datagrams shorter than its buffer, which it clears. Datagrams are asked to be readable: the
-- accessors do not throw, and the name of a follow request fits a payload.
--
-- Files are a finite map from names to bytes; whether a file opens for writing is an argument of
-- update_user_on_disk. In Client/Commands a typed line is one step that reads it and handles what it
-- wrote.
--
-- A restart is modelled after a run that has ended as Server/Worker shows, with all updates written.
--
-- Not modelled: the system's calls for sockets and threads, of which the answers are arguments, signals,
-- a semaphore that cannot be initialised, a write of the client that fails and ends its process, debug
-- output, the hash function, and folders. The main loop is the only thread that uses the three managers.
pub mod Base
pub mod Client
pub mod Examples
pub mod Shared
pub mod Server
