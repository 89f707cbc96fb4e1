-- ===== src/Lib.antt =====
-- The C programs of this repository. Modelled are the game server TicTacToe/Server; the hash table,
-- the messages and the server of Chat System/Server; the caching proxy HTTP Proxy Effecient; of the
-- echo projects the packets and the server of Mini Project 27-1-26; and of the exercises the
-- calculator 23-12-25/4-3.c, the calendar 5-1-26/5-8.c, the word count 7-1-26/6-4.c and the buffered
-- files 14-1-26/8-4.c.
--
-- The game server is one loop over epoll. A connection first shakes hands (websocket.c); after that
-- every `recv` holds a WebSocket frame (frame.c) with a JSON message (message.c), and its code
-- selects a request: CREATE_MATCH, JOIN_MATCH or MOVE. Matches and clients are allocated
-- (client.c); the table `matches` holds the open matches by id, and each client points to its
-- match. The answers are messages in frames again.
--
-- The chat server has the same frames. Its table of names (hashmap.c) owns the clients; a client
-- registers under a name by a message to `server`, and sends to a name or to `broadcast`.
--
-- The proxy accepts a connection, checks the credentials of the first packet (proxy-auth.c), parses
-- it (request.c), and answers it from its cache (hashmap.c) or connects to the server and relays
-- bytes from then on. Each of the two sockets has a `Data` object, both point to one `Connection`,
-- which counts them (data.c).
--
-- The echo server has a thread for each connection. The threads share a table of users by address
-- and the total of the echoes; what they do under the lock is one step of the model, and the steps of
-- all threads come in any order.
--
-- The calculator reads a line, splits it into operands and computes them on a stack. The word count
-- reads words with one character put back, counts them in a search tree, and sorts its nodes. The
-- buffered files are a table of files over the system calls, each with a buffer of 1024 bytes.
--
--   Base        the numbers, lists, bytes, memory and text the models share; `Run` is a result or
--               `fault`, which stands for undefined behaviour and for a crash
--   Libc        strstr, atoi, %d, strcmp
--   Frame       TicTacToe/Server/frame.c: parse_frame (parse_frame), createClientFrameBuffer
--               (create_client_frame_buffer), createFrame (create_frame); Frame.Wire is the frame of
--               RFC 6455, independent of the code
--   HashMap     Chat System/Server/hashmap.c and its copy TicTacToe/Server/hashmap.c: hash, put, get,
--               isAvailable, removeKey, freeTable, initTable
--   TicTacToe.Message   TicTacToe/Server/message.c: parse_json_string, create_message_json
--   TicTacToe.Board     createMatch of TicTacToe/Server/client.c, evaluate_board of server.c
--   TicTacToe.State     Client and createClient of client.c; the globals of server.c and the heap of
--               matches and clients, as a state passed on by `>>=`
--   TicTacToe.Server    the requests and the close frame of server.c, with send_response
--   TicTacToe.Loop      websocket.c, and the body of the loop of `main` in server.c
--   Chat.Message        Chat System/Server/message.c, and the text of a broadcast in server.c
--   Chat.Server         Client of Chat System/Server/client.c; close_connection and the branch of
--               `main` for a client's socket in server.c; in Chat.Server.Loop the loop of `main`
--               and the new connections
--   Proxy.Text, Proxy.Url   the searches in C strings, and HTTP Proxy Effecient/request.c
--   Proxy.Auth          HTTP Proxy Effecient/proxy-auth.c
--   Proxy.State         HTTP Proxy Effecient/data.c: Data (End), Connection, createData (create_end),
--               createConnection, cleanup_connection
--   Proxy.Server        the body of the loop of `main` in HTTP Proxy Effecient/proxy.c
--   Packet      Mini Project 27-1-26/datapack.h: pack_client_data, unpack_client_data, trim; in
--               Server pack_server_data, unpack_server_data, htonll, ntohll; in Transfer recvall and
--               sendall
--   Echo        Mini Project 27-1-26/EchoServer.c: Client_FD (Client), addOrUpdateUser
--               (add_or_update_user), thread_routene (advance), the loop of `main` (handle_event)
--   Exercises.Calculator   23-12-25/4-3.c: push, pop, empty_stack, evaluate; in Line getLine
--               (get_line), split, and `main` (round, session)
--   Exercises.Calendar     5-1-26/5-8.c: day_of_year, month_day
--   Exercises.WordCount    7-1-26/6-4.c: addtree, sorted_tree, sort_on_frequency (bubble,
--               sort_rounds); in Reader getch, ungetch, getword and `main` (print_frequencies)
--   Exercises.Stdio        14-1-26/8-4.c: MY_FILE (File), my_getc, my_putc, _my_fillbuf, _my_flushbuf;
--               in Files my_fopen, my_fclose, my_fflush, my_fseek, and the two loops of `main` in
--               14-1-26/8-3.c (put_text, get_text)
--
-- State. A pointer to a match, a client, a connection or its end is a place in the list of all that
-- were allocated; `free` leaves `none` there, and a later use of it is a `fault`, as is an index
-- outside `matches`, the board or a buffer. `sent` lists what `send` accepted. What the kernel
-- answers is part of the event (`Kernel`): the bytes received, what the stack held behind them, and
-- whether each `send` succeeds. The events of one call of epoll_wait are handled like those of
-- several, but in the chat server, which takes the client of the first one for all of them. SHA1
-- and EVP_EncodeBlock are the parameter `OpenSsl`; the proxy's event holds what EVP_DecodeBlock and
-- connect_upstream answer. The calculator's stack owns its nodes alone and is a list; `double` is
-- the parameter `Double`. The system calls of the buffered files, and malloc, are the parameter
-- `Exercises.Stdio.Kernel`; what they are relied on for is named: that `read` gives the bytes that are
-- left in pieces of any size (`Reads`), and that `write` takes what it reports (`Writes`). htonl and
-- ntohl are the parameter `Network`, relied on to turn 32 bits into 32 bits and back (`Swaps`);
-- recv and send are `Packet.Transfer.Socket`, relied on for what they report (`Receives`, `Sends`).
--
-- Bounds. The sizes are those of the code: 1000 bytes for a message, 1024 for a response frame,
-- 65536 for a request, 1000 matches, 64-bit payload lengths, the 32 bits that
-- createClientFrameBuffer gives back as the length of a frame, 100 users of 63 bytes, 100 bytes for a
-- cache key and 256 for decoded credentials. The loop of parse_frame over the length runs for the 2
-- or 8 bytes it reads; print_int has the number and one as fuel, which is more than the number of
-- its digits. The calculator has lines of 100 bytes and 30 operands of 20; `operands` has the bytes
-- of the line as fuel, and `session` counts the rounds of `main`, of which one more than the lines
-- of the input is enough; `find_month` has the twelve rounds of its bound. The word count has words
-- of 99 bytes, 1000 nodes and 100 lines for each; `skip_spaces` has the characters that are left and
-- one as fuel, and `count_words` those of the whole text and one, since every call takes one at least.
-- The echo server has 100 users, an `int` for the count of each and a `long` for the total, which
-- fault where they would overflow. The loops of recvall and sendall have the bytes and one as fuel;
-- that of `get_text` needs one call more than there are bytes.
--
-- Not modelled: the setup of the sockets, what is printed, failing allocation but that of the
-- buffered files, and memory that is never freed; send_pong and decode_ws_frame of the chat server,
-- which nothing calls; HTTP Proxy Server, the earlier version of the proxy; the client of the echo
-- projects and their versions with encrypted packets, and the other exercises in the dated
-- directories. What a thread of the echo server does outside of the lock is taken to be one step
-- for each statement that touches the table.
pub mod Base
pub mod Chat
pub mod Echo
pub mod Exercises
pub mod Frame
pub mod HashMap
pub mod Libc
pub mod Packet
pub mod Proxy
pub mod TicTacToe
