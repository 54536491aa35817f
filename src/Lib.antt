-- ===== src/Lib.antt =====
-- gnatsd: a NATS server, with the sliding window protocol swp and the health monitor beside it.
-- What is modelled, file by file (paths from the repository's root):
--
-- server/sublist.go, in Sublist: the trie that routes a published subject to its subscribers.
--   Sublist/Subject has the tokens and the tests of subjects, Sublist/Trie the trie with
--   `Insert`'s walk and `matchLevel`, Sublist/Removal the walk of `Remove` with its pruning,
--   Sublist/Store the operations Insert, Remove and Match with the cache and the counters.
--   A pointer to a level or node is a value with a nil case; a subscription's pointer is its `id`;
--   a slice is its elements, so capacities and shared backing arrays are not modelled.
--   The order in which a map is iterated matters only where the cache is bounded; there the
--   entry that goes is a parameter. Walks recur on the tokens, so nothing runs on fuel.
--   Statistics (`Stats`, `numLevels`) are not modelled.
--
-- server/parser.go, in Server/Parser: the parser of the protocol. State has the states, the buffers
--   and the events (calls of handlers), Step one turn of the loop by state, Loop the loop and what
--   follows it. An index is a number; one past 2^63 - 1 is the model's `panic`. The loop runs on
--   fuel 2 * len + 2: a turn moves the index on, or leaves an argument for its payload. A buffer is
--   its bytes, so that slices of one buffer and the scratch buffer share nothing; `clonePubArg`
--   then only fills `argBuf`. `processConnect` and `processInfo` decode JSON and are parameters
--   (`Config`), and so is the authorization timer. `protoSnippet` is not modelled.
--   Keeps, Safety, Limits and Total prove about any input, Turns, Message and Stream about whole
--   PUB operations.
-- server/client.go, in Server/Args: the words of an argument and `processPub`, `processMsgArgs`, and
--   the arguments of `processSub` and `processUnsub`; the parser calls them.
-- server/client.go, in Server/Client: a server with its clients and routes as one state (`World`): the
--   sublist, the subscriptions behind their pointers, the clients by cid, and what was written, in
--   order. Subs has `processSub`, `processUnsub`, `unsubscribe` and `closeConnection`, Deliver
--   `msgHeader` and `deliverMsg`, Publish `processMsg` with its permissions, caches, routes and queue
--   groups; the lines for the routes are those of server/route.go, `removeClient` that of
--   server/server.go. A handler runs as a whole: the locks of the source are not modelled, nor an
--   interleaving of two handlers. A client always has its server, and a subscription its client. What a
--   write to a connection comes to (taken, timed out, failed) is a field of the client; buffers,
--   deadlines, timers, traces and logs are not modelled, nor the reconnecting of a closed route and
--   `remotes`. `nm` counts without bound, the statistics modulo 2^64. Decimal and quoted text, the
--   regular expression for a route's sid, the order of maps and the draws of one call are parameters
--   (`Env`). Keeps, Limits, Exact and Reach have what the proofs share.
-- server/util.go, in Server/Number: `parseSize` and `parseInt64`, with the wrap-around of 64 bits
--   written out.
-- health/rbuf.go, in Health/RingBuf: the ring of fixed size; -1 for an index is `none`, and so is the
--   panic of a division by zero.
-- health/health.go and health/aloc.go, in Health/Election: the order `AgentLocLessThan` and
--   `setLeader`. The ids and hosts are bytes, ranks and ports numbers from 0, leases times in
--   nanoseconds. The history of leaders is the ring of health/rbuf.go, which takes no more of them
--   once it is full. Nothing compares the addresses of `Grpc`. Order, Best and Agree have the proofs.
--   The lease check over the members, their messages and the timers are not modelled.
-- swp/tcp.go, in Swp/Tcp: the state machine `UpdateTcp`, and in Swp/Tcp/Runs its runs.
-- swp/recv.go, in Swp/Receiver: the path of a data packet (`EventData`, sequence number from 0)
--   through the window, after the filters by sender and checksum, the checks of the cumulated
--   bytes, `UpdateControl`, the acks, and the consumption by the client. The delivery loop has as
--   much fuel as the window has slots. Counters that start at -1 are one more in the model, a
--   negative capacity is `none`, and numbers do not wrap. Timers, channels and the other events are
--   not modelled.
-- swp/retree.go, in Swp/Retree: the loops over the two trees of slots. The library rbtree is a parameter
--   (`Rbtree`), with the laws of an ordered set (`IsRbtree`), which hold of sorted lists (Model).
-- swp/sender.go, in Swp/Sender: the data path of the sender, with first sends, retries, flow
--   control and what it hears of the other side. A slot is its index in `Txq`; times, and the
--   durations that come from estimates in floating point, are arguments. A call of `Net.Send` adds
--   to a list. A loop that has returned, since nothing was heard for too long, takes no more turns.
--   What the client asked to be told of acks, the sending of keepalives, and the packets that open
--   and close a session are not modelled. Turns has the branches of a turn, Frames, Trees and
--   Window have the invariant, History and Stream what is sent, Retries what the timer sends again.
-- swp/sender.go and swp/recv.go, in Swp/Link: the sender of one side and the receiver of the other. The
--   network may give any packet or ack that was ever sent, at any time and any number of times, or
--   never. Data flows one way only; the windows of both sides are the same, as `NewSWP` makes them.
-- conf/lex.go, in Conf/Lexer: the lexer of configuration files. State has a constructor for each
--   state function, `Conf/Lexer/Keys`, `Values` and `Scalars` have the functions, Run the calls of
--   `nextItem` until the lexer ends, on fuel 10 n + 2 for n bytes, which lexing needs unless it hangs.
--   Moves has what a valid lexer is and how much it has left to do. The libraries for UTF-8 and
--   Unicode are a parameter (`Unicode`), with laws (`IsUnicode`). A state that slices or indexes out of
--   range panics. The texts of errors, the two String methods and `escapeSpecial` are not modelled.
-- conf/parse.go, in Conf/Parser: the values and the stacks of the parser; Items has `processItem` and
--   the loop of `parse` over the items, Files has `Parse`, `ParseFile` and `parse` from the text.
--   strconv, time and strings (`Libs`), the environment and the file system (`System`) are parameters;
--   the depth of includes, and of variables of the environment, is bounded by an argument, since the
--   source does not bound it. The keys of a map are in the order in which they were set first.
-- auth/plain.go, auth/multiuser.go and auth/token.go, in Auth: the tests of passwords and tokens, with
--   bcrypt as a parameter, and `RegisterUser` of server/client.go, which gives a client its permissions.
--   The options of a client are arguments of the tests. Covered, Decisions and Permitted have the
--   proofs about permissions.
-- Prelude has what the components share. Accept loops, HTTP endpoints and the connecting of routes are
-- I/O and not modelled; nor are the reading of options, the opening and closing of sessions of
-- swp, and the monitoring of health/health.go.
pub mod Prelude
pub mod Sublist
pub mod Server
pub mod Health
pub mod Auth
pub mod Conf
pub mod Swp
