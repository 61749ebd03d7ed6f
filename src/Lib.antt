-- ===== src/Lib.antt =====
-- Verification of the course projects: the memory allocator (lab2-src), the bounded buffer and the
-- reactions (lab4-src), the shell (lab3-src), the web server (lab5-src) and the list of primes
-- (lab1). The projects are programs of their own and do not call each other.
--
-- Common: natural numbers, lists, texts as lists of bytes, code that may fault, arrays of slots,
-- and in Common/Arrays arrays that grow when they are full.
--
-- Malloc: lab2-src/MyMalloc.c and MyMalloc.h. Malloc/Memory is the words of memory and the fields
-- of the tag structures, Malloc/Objects allocate_object and free_object piece by piece, in the
-- order of their writes, and Malloc/Interface the static variables with initialize, malloc, free,
-- calloc, realloc and print_list. Malloc/Layout says what a heap is: a row of used and free objects
-- and of gaps between chunks, with tags that agree and a list of the free objects in the order of
-- their addresses. Malloc/Alloc is about handing out, Malloc/Release about freeing, Malloc/Requests
-- about sizes and the first chunk, and Malloc/Service puts them together. A loop over the free list
-- has as fuel the number of its rounds; one more than there are free objects is enough. Addresses
-- are natural numbers, and a size_t wraps at 2^64. The address that sbrk returns is an argument.
-- Freeing is treated with the sentinel below the heap, as a static variable lies. The mutex makes
-- each operation one step, except that realloc has two. print_stats and the exit handler only
-- print.
--
-- Queue: lab4-src/part1.c and part1.h. Queue itself has the shared variables, a thread as its place
-- in the loop of producer or consumer, what it does from there, and the steps of any number of
-- threads; Queue/Start is main up to its joins, Queue/Counts is about one step, Queue/Invariant
-- about all reachable states, Queue/Progress about the calls made so far and Queue/Liveness about
-- how the threads end.
--
-- Reactions: lab4-src/part2.c. Reactions itself has the counters and semaphores, a thread as what
-- it makes and where it is, what it does from there, and the steps of the six threads;
-- Reactions/Atoms is about the atoms in all reachable states, and Reactions/Mutex about the mutex.
-- Counters are ints that wrap at 2^32.
--
-- Shell: lab3-src/command.c and command.h. Shell/Table is the operations on simple commands and
-- commands, over the arrays of Common/Slots, Shell/Filled what insertions leave and Shell/Cleared
-- what command_clear leaves. Shell/Editor is read_line of lab3-src/read-line.c, of which lab3-test
-- and the two directories examples have copies; Shell/Editor/Edits says what it is to do with each
-- key, Shell/Editor/Held is about the line in the buffer, and Shell/Editor/Typed and
-- Shell/Editor/Returned about whole lines. The bytes typed are an argument. An int like line_length
-- is an integer of Common/Int, and is not modelled at its bounds. Shell/Execute is command_execute
-- of lab3-src/command.c. Shell/Execute/Descriptors is the interface of the kernel's calls on
-- descriptors with what the manual says of them; Shell/Execute/Rounds, Last, Pipeline and Whole
-- follow the descriptors through a round of the loop, the last one, the loop and all of it, and
-- Shell/Execute/Leaks through a built-in command. fork, chdir and getenv are parameters too; only
-- the shell's side of fork is followed.
--
-- Shell/Lexer is the rules of lab3-src/shell.l with their actions, of which the longest match is
-- taken; Shell/Lexer/Words and Tokens are about lines of plain words, and Shell/Lexer/Ends about
-- its end. Shell/Grammar is the grammar of lab3-src/shell.y, as the state in which the parser that
-- bison makes of it is in a line; Shell/Grammar/Lines and Accepted say which lines it takes.
-- Shell/Expand is expand_wildcards, tilde_expansion, environment_expansion and insert_arguments of
-- lab3-src/shell.y, with what they leave alone in Shell/Expand/Inserted, where they fault in
-- Shell/Expand/Faults, and the end of their loop over an argument in Shell/Expand/Ends.
-- Shell/Session puts the lexer, the grammar, the expansions, the command table and its execution
-- together, as main of lab3-src/command.c does: an action of the grammar changes a session, and
-- what the system answers depends on what has happened so far. Shell/Session/Lines is about the
-- tokens of a line, Ends about the end of the input, Prepared, Filled and Line about the table that
-- the actions of a line leave, Spelled about its bytes and Runs about its processes. yylex and the
-- parser have as fuel a round for each byte of the input, and the loop of environment_expansion one
-- for each byte of the argument.
--
-- Server: lab5-src. Server/Buffer is a heap buffer with its capacity, where a write past the end is
-- a fault. A connection goes through handle of server.c: Server/Reader is socket_read_line of
-- socket.c over the bytes that come in, with the line that it returns in Server/Reader/Lines;
-- Server/Request is handle up to the http_request, and its children are about the words of a line,
-- the lines, a whole request and the end of the loop; Server/Path is the path that parse_respond
-- opens, and Server/Respond the rest of parse_respond and handle as a whole, with its strings, the
-- responses for files and what handle answers in its children. Responses are rendered by
-- Server/Messages, which is response_string of http_messages.c, with status_reason in
-- Server/Reasons. Server/Directory is handle_directory of handle_dir.c, with the page and the
-- entries in its children. Server/Listing is generate_dir_listing of misc.c, which the server does
-- not call, and Server/ContentType get_content_type of the same file. Server/Serve is main of
-- main.c with the loops over connections of server.c. A doubling loop has the size it aims at as
-- fuel, and the loop over the lines of a request its rounds, of which one more than there are bytes
-- is enough. What is in the file system, with the type that get_content_type finds there, what
-- stat, gmtime and readdir give, qsort and atoi are parameters. Status codes, content lengths,
-- sizes of files and dates are not negative. The ints that hold the lengths of texts are natural
-- numbers without a bound: texts and files are taken to be far shorter than 2^31 bytes, and names,
-- as C strings, have no null in them.
--
-- Primes: lab1/src1.c, of which src2.c and src3.c are copies. The loops have as many rounds as
-- there are numbers left to look at.
--
-- Not modelled: of the shell the handler zombie, which only waits, and the shell in backquotes,
-- which is not reached without a fault; of the server the sockets, which are mostly calls of the
-- operating system; and what is printed for the operator.
pub mod Common
pub mod Malloc
pub mod Primes
pub mod Queue
pub mod Reactions
pub mod Shell
pub mod Server
