-- ===== src/Lib.antt =====
-- lprog-hw is a text editor that several users share: editor.c is the client, server.c the server,
-- which forks a worker for each document. Client and worker each keep the document in a buffer
-- (buffer.c); what a user types is applied to the client's buffer and sent to the worker (msg.c),
-- which applies it to its own and sends it on to the other clients. utilities.c keeps the accounts and
-- the list of documents in files.
--
-- Prelude (Tests, Lists, Int) has the shared names and lemmas on Booleans, lists and integers over the
-- native numbers. Rope is the interface of librope (include/rope.h; the library itself is a binary): a
-- rope has a text, and each operation does to the text what the header documents. Json is the
-- interface of the copied JSON library, src/parson.c.
--
-- Buffer is src/buffer.c with include/buffer.h. Buffer/State has the structs and enums. A line is a
-- cell of a store that pointers address, null is 0, and an operation is a function from the buffer to
-- `done` with a result and the new buffer, to `fault` (a read through NULL or of a freed line), or to
-- `out_of_fuel`. Buffer/Window has binit_onscreen_info, buffer_scroll, buffer_trim, buffer_extend;
-- Buffer/Cursors has line_new, line_free, cursor_move, cursor_insert, cursor_del, bline_find,
-- bcursor_find; Buffer/Edit has the operations on cursors by id, bcursor_new to bcursor_del, and
-- buffer_deletel; Buffer/File has buffer_new, buffer_from_file, buffer_save, buffer_free,
-- buffer_add_ui; Buffer/Serial has buffer_serialize and buffer_deserialize. The parts of a long C
-- function are functions here, called where it has them. Buffer/Returns is total correctness of a run.
-- Buffer/Safe is the invariant: the lines form a doubly linked chain, first, last, top and bottom are
-- lines of it, and every cursor stands within its line; its children prove what keeps it.
-- Buffer/Document is the list of the lines from first to last, and what bline_find and buffer_save
-- make of it; Document/Edits and Document/Moves are what typing, deleting and moving do to the saved
-- file. Buffer/Created is about buffer_new and, for a file of one line, buffer_from_file:
-- Created/Lines has line_new at the end of the chain, Created/Adding the loop that calls it,
-- Created/Marking binit_onscreen_info, Created/Fresh and Created/Loaded the theorems. Buffer/Splitting
-- is about bcursor_insert_line: Splitting/Rewired has writes to lines that are there, Splitting/Made
-- line_new between two lines, Splitting/Linking the chain and Splitting/Lines the document with a line
-- more, Splitting/Trimming buffer_trim, Splitting/Cut split_line, Splitting/Placed, Splitting/Before,
-- Splitting/After and Splitting/Saved the theorem. Buffer/Merging is about bcursor_del at the start of
-- a line: Merging/Arriving has the move to the line before, Merging/Appending append_next,
-- Merging/Removed takes a line out of the chain, Merging/Among and Merging/Lines out of the document,
-- Merging/Extending runs buffer_extend, Merging/Deleting and Merging/Saved the rest of buffer_deletel,
-- Merging/Following the cursors and the end of join_line, Merging/Joined has the theorem, for a cursor
-- of a peer. Buffer/Joining is about cursors that come and go, Buffer/Find the search for a cursor,
-- Buffer/Full an insertion without room. Buffer/Runs and Buffer/Examples run the operations on small
-- inputs.
--
-- Utilities is src/utilities.c: Utilities/Text has strings and the calls of the C library on them,
-- Utilities/Users the accounts of userdata.txt, Utilities/Files the list of documents in files.txt,
-- Utilities/Numbers what is read of a printed number; Utilities/Accounts and Utilities/Registry set
-- the accounts against a list of names and passwords. Message is src/msg.c and include/msg.h,
-- Message/Wire what becomes of a message on the wire; Message/Rows is a small JSON library for the
-- examples. Server is src/server.c: Server/State the globals of a process, Server/Handle the handler
-- handle_msg in both modes with what it calls, Server/Listen the rounds of server_listen, the start of
-- a worker in get_worker, handle_shutdown, and recv_msg of src/msg.c; Server/Broadcast, Server/Work
-- and Server/Refused have theorems on one message, Server/Keeps and Server/Closed the rules for what
-- every handler keeps, Server/Logins and Server/Tables what follows from them for the logins and for
-- the tables of the process over all rounds, Server/Ports the search for a port, Server/Starting the
-- start of a worker, Server/Shutdown handle_shutdown; Server/Examples runs it on a small state. Editor
-- is src/editor.c: handle_msg and handle_input, Editor/Typing is about handle_input, and Editor/Server
-- has create_login_payload and server_loop, Editor/Worker worker_loop and main, and Editor/Leaving is
-- about the end of worker_loop, with Buffer/Freed about buffer_free. Message/Print is print_msg. Ui is
-- src/ui.c: ui_update as the list of what it draws, with Ui/Shown about it. Session puts the parts
-- together: a character typed into a client, sent, and handled by the worker; Session/Port the port of
-- a worker on its way to a client.
--
-- Fuel: a loop over the lines of a buffer has the number of addresses handed out as its fuel, and no
-- line occurs twice in a chain; the loop of buffer_deserialize and the search for a free port take
-- theirs as an argument. Loops over arrays, bytes and lines of files are structural. Integers are
-- unbounded, but for width - 1 in cursor_insert and the length that bcursor_insert_line deletes, which
-- wrap at 2 ^ 64 as size_t does. The id of a cursor is kept as its 32 bits, since that of a message may be
-- negative.
--
-- Memory that the program reads or writes wrongly: what an index outside `clients` reads, what `dir` of a
-- worker is where it is not set, what stands in the freed strings of validate_register, and what malloc
-- leaves are parameters; a text that does not fit into the scratch pad of a buffer or into the list of
-- documents, a write outside an array, and ui_update through the pointer that buffer_from_file and
-- buffer_deserialize set at their end only are faults. cursor_new, which has no return statement, is taken
-- to return the cursor.
--
-- Not modelled: sockets, poll, accept, recv, fork, signals and the tunnel, whose results are arguments;
-- the questions of the client's main, main of the server, ui_free; locks on files; memory that is never
-- freed; and what is in the scratch pad of a buffer, which is written before each use. A call of
-- ui_update in the buffer's operations is counted as a repaint. malloc does not fail and hands out new
-- addresses.
pub mod Prelude
pub mod Rope
pub mod Buffer
pub mod Utilities
pub mod Json
pub mod Message
pub mod Server
pub mod Editor
pub mod Ui
pub mod Session
