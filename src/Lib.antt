-- ===== src/Lib.antt =====
-- A model of phpredis, the C extension under redis-6.0.2/, and theorems about it.
--
-- The extension turns method calls of PHP into commands of the Redis protocol, sends them to a
-- server, and reads the replies. A RedisCluster chooses the node by a hash of the key and follows
-- the redirections that nodes answer with; a RedisArray spreads keys over servers by a ring or a
-- share of a hash; a connection that is lost is opened again after a delay. A PHP session is kept
-- on a server of a pool and locked there while a process uses it.
--
--   Base        bytes, lists, bits, integers and text that the parts share
--   Zend        what the code takes from PHP: values, arrays, and the functions of the Zend API as the
--               fields of a record (Zend/Host is an instance with texts for numbers and strings);
--               Zend/Decimal has snprintf with %d and %ld
--   Resp        redis-6.0.2/library.c, the smart-string commands: Resp/Sstr has redis_cmd_init_sstr,
--               redis_cmd_append_sstr and the functions over it, Resp/Spprintf has redis_spprintf;
--               Resp/Server is a reader of requests, written from the protocol, which is their
--               specification, and Resp/RoundTrip joins the two
--   Backoff     redis-6.0.2/backoff.c, and redis_sock_set_backoff of library.c (Backoff/Options)
--   RedisArray  redis-6.0.2/redis_array_impl.c, ra_extract_key and ra_find_node: the search on the ring
--               (RedisArray/Search), the share without a ring (RedisArray/Distribute) and tags
--   Cluster     redis-6.0.2/crc16.h (Cluster/Crc16), cluster_hash_key (Cluster/HashKey) and the handling
--               of MOVED, ASK and other errors (Cluster/Redirect) the abort of transactions
--               (Cluster/Abort), and the map of slots (Cluster/Slots: cluster_update_slot and
--               cluster_find_slot; Cluster/Slots/Mapping: cluster_map_slots and cluster_map_keyspace) of
--               redis-6.0.2/cluster_library.c; of the same file the sending of a command (Cluster/Send),
--               the choice of a node (Cluster/Send/Write) and the loop over redirections
--               (Cluster/Send/Loop); what sending keeps (Cluster/Send/Kept), what holds when the loop ends
--               (Cluster/Send/Ends), that it does (Cluster/Send/Returns), a slot that has moved
--               (Cluster/Send/Moved), and commands that go astray (Cluster/Send/Strays)
--   Commands    redis-6.0.2/redis_commands.c: redis_build_script_cmd (Commands/Script),
--               redis_fmt_scan_cmd (Commands/Scan), redis_set_cmd (Commands/Set, with its words in
--               Commands/SetWords and what its options mean in Commands/SetMeant), redis_restore_cmd and redis_getex_cmd (Commands/Restore, with their
--               words in Commands/RestoreWords and Commands/GetexWords),
--               the commands of a fixed shape (Commands/Fixed, with their words in Commands/FixedWords),
--               those with any number of values or fields (Commands/Lists, with their words in
--               Commands/ListWords), those with several keys and EVAL (Commands/Slotted; Commands/SlotCalls
--               says when their slot is that of every key), LMOVE and COPY
--               (Commands/Pairs), redis_mpop_cmd (Commands/Mpop), redis_zrange_cmd (Commands/Zrange,
--               with its words in Commands/ZrangeWords and what each keyword takes in
--               Commands/ZrangeCalls), gen_varkey_cmd (Commands/Slotted, against what a call means in
--               Commands/VarkeyCalls)
--   Session     redis-6.0.2/redis_session.c: the pool of servers and the keys of sessions (Session and
--               Session/Pool), and the lock of a session (Session/Lock): lock_acquire (Session/Acquire),
--               write_allowed and lock_release (Session/Hold); the PS_ functions that PHP calls, over
--               those (Session/Handlers, with Session/Handlers/Safe)
--   Sock        redis-6.0.2/common.h and library.c: the struct RedisSock with its errors and how it is
--               closed (Sock), lines, bulk strings and headers (Sock/Read); Sock/Exact and Sock/Numbers
--               are about lines and numbers that arrive whole, and Sock/Wire is an instance of a stream
--   Reply       redis-6.0.2/library.c: redis_read_variant_reply and what it calls (Reply), against the
--               replies as the protocol prints them and a caller should see them (Reply/Protocol), one
--               element at a time (Reply/Element) and as a whole (Reply/RoundTrip)
--   Reply/Loop  arrays of bulk strings, with values unserialized by their index
--   Connect     redis-6.0.2/library.c: redis_sock_connect (Connect, with the pool of streams and AUTH and
--               SELECT in Connect/Auth), redis_check_eof with its retries, redis_sock_write and
--               redis_sock_server_open (Connect/Check); attempts that fail (Connect/Retries), a login that
--               is accepted (Connect/Login), and both (Connect/Reopen)
--   Compress    redis-6.0.2/library.c: crc8 and the LZ4 branches of redis_compress and redis_uncompress
--
-- Functions keep the names of the source. A smart string is the list of its bytes, a byte a number;
-- a NULL pointer is `none`; a function that changes a struct returns the new struct; -1 and FAILURE
-- are `none`, false, or a constructor. Unsigned arithmetic is cut to its width. A length is below
-- 2^31, the range of the int parameters it is passed in.
--
-- The search on a ring has as many rounds as the ring has points, of which each round leaves at
-- most half. A number n is written with fuel for n + 1 digits. The loop that tries to lock a
-- session runs on fuel: with n retries it makes at most n + 1 attempts and one last test, so n + 2
-- are enough; with retries without end (-1) it may run out.
--
-- A PHP stream is the bytes that it has still to deliver before the connection ends. As each read
-- leaves fewer bytes, a function of these bytes can say how many of them the next read delivers. A
-- loop that reads a bulk string takes a unit of fuel for each read, of which there are at most as
-- many as bytes, and the loop over an array takes one for each element. The functions that open a
-- connection call redis_check_eof through redis_sock_write, and each such call inside another takes
-- one unit. The loop of cluster_send_command takes one unit for each time it sends the command.
--
-- Parameters: what the functions of a PHP stream do with its bytes (Stream, StreamLaws), the
-- settings of the extension and what the network answers (Net), the replies to CLUSTER SLOTS of the
-- seeds, what the nodes of a cluster do with what is sent to them (World), the functions of the Zend API with their documented behaviour (ZendLaws), the random
-- numbers of PHP (Random), its checksum and hash functions (PhpHash), LZ4 (Lz4), the functions of
-- the user that a RedisArray calls, the answers of a server, which depend on the commands sent
-- before (Server), whether a connection opens, and redis_pack, which serializes by the
-- configuration of the connection.
--
-- Accesses outside of an array: the map of the slots and the buffers of a host and of a key end the
-- model with `none` (in cluster_send_command, as a crash), and what stands behind a session key of
-- less than four bytes is a parameter.
--
-- Not modelled: timeouts and the statistics of bytes, the replies of single commands that the
-- general readers do not cover, the other compressions, the opening of a pool from a save path, the
-- creation of session ids, the session handler of the cluster, the other commands, the registration of classes and the
-- parsing of PHP parameters, the generated argument tables, and the copy of LZF.
mod Base
pub mod Zend
pub mod Resp
pub mod Backoff
pub mod RedisArray
pub mod Cluster
pub mod Commands
pub mod Session
pub mod Sock
pub mod Reply
pub mod Connect
pub mod Compress
