-- ===== src/Lib.antt =====
-- The programs of a course on Unix system programming: the shells that its exercises build up to
-- week08Lab2/myShell2.c, the fork exercises, the directory listings, and of apue.3e, which the course
-- keeps beside its own programs, the database library, the printer daemon with its client, a queue of
-- jobs, the clients of the open server, a stream over memory, the terminal modes, an asynchronous copy
-- and a walk through a file hierarchy.
--
-- The shells. A session reads lines with fgets (Shell/Session), parses a line in place into argv
-- (Shell/Words), and either runs a built-in command or looks for an operator in the line: `<` and `>`
-- (Shell/Redirect), `;` (Shell/Sequence), `|` (Shell/Pipeline). Every branch ends in the expansion of
-- wildcards and in fork, execvp and wait (Shell/Execute).
--   Clib: the functions of <string.h>, <strings.h> and <stdio.h> that the programs call, over texts,
--   which are the bytes of a C string; Clib/Laws and Clib/Pieces have what is said of them.
--   Descriptors: a process's descriptor table with dup2 and close. Which descriptor an allocation
--   picks is the parameter `fresh`; of it POSIX says that it was not open (`IsFresh`).
--   Shell/World: the system's answers (`Os`: fresh, glob, and whether open and fork succeed), the
--   world of the shell (its table, the number of questions asked, the number of pipes made, the list
--   of events), and the outcome of a step: done, exited by exit(), or crashed where C leaves the
--   behaviour undefined (a null string, a write past argv, a read past its terminator, a write in
--   front of the line), or in a wait that does not return.
--   Shell/Words: `parse` of all the shells, with pointers as offsets into the line.
--   Shell/Execute: `execute` and `expand_wildcards`. A child is an event with its argv and its
--   descriptors; what it does is not part of the model. Whether it ends is an answer of the system
--   (`child_ends`), and a wait for a child that does not end is an outcome like the faults.
--   Shell/Redirect, Shell/Sequence, Shell/Pipeline: the branches of main for the operators, and
--   `fileRedir`. Shell/ThreePipe: `execute_pipeline` of week08Lab2/3pipe.c.
--   Shell/Session: main of week08Lab2/myShell2.c; week08Lab2/pipeloop.c is the same program under
--   another prompt. Its loop has the length of the input for fuel, as each fgets takes a byte at
--   least; the loop over strtok has the length of the text.
--   Shell/Basic: week06Lab2/simple-shell0.c and myshell.c, week07Lab1/tryShell.c and tryShell1.c, and
--   the copy of the last in week08Lab1.
--
-- Forks: forkloop.c, 1fork.c, 3fork.c, test.c and week08Lab1/tryFork.c as lists of processes.
-- Listing: the loops of week07Lab2/ls1.c and ls2.c over entries with the results of stat and lstat.
--
-- Database: apue.3e/db/db.c. A Db is the C structure with the bytes of its two files and the offset of
-- the index file's descriptor; a function takes it and returns it with a result, or with the way in
-- which it ended the process (err_dump, err_quit, a sprintf past the end of idxbuf, a read past that of
-- datbuf). The parameter
-- `sys` says which of the calls of the system succeed: locks, reads and writes, in the order in which
-- they are made.
--   Database/Numbers: numbers as text, as sprintf and atol have it.
--   Database/Files: the functions that read or write a pointer, an index record or a data record.
--   Database/Records: _db_find_and_lock, db_fetch, _db_dodelete and db_delete. Database/Store:
--   _db_findfree and db_store. Database/Scan: the initialisation in db_open, db_rewind, db_nextrec.
--   The loops along a chain are on fuel, since a chain in a damaged file can come back to itself; a
--   search that is cut off is a result of its own, and a round for each record of the chain is enough.
--   Database/Runs, Bytes, Quiet, Reads, Locks, Pointers, Data, Fresh, Entries and Writes have the proofs
--   about single operations. Database/Chains, Fetch, Models, Insert and Refines read the files as a
--   table of chains, each a list of pairs of a key and its data, with a free list, and have the
--   operations on that table.
--   Other processes do not change the files between the calls of one operation.
--
-- Linked: doubly linked lists on a heap of nodes. `Lists` says that a head and a tail stand for a
-- sequence of nodes, and Linked/Deque has the operations on such a list, with what each does to the
-- sequence. An operation that follows a pointer to no node gives none.
--
-- Printer: apue.3e/printer/printd.c.
--   Printer/Jobs: the job numbers, add_job, replace_job and remove_job. Printer/JobFile: the file that
--   keeps the next number over a restart. Printer/Workers: the list of client threads.
--   Printer/Clients: client_thread, with the spool as a function from names to contents. The answers
--   of the system's calls in the service of one client are a record (`Calls`); the byte order of the
--   network and what the buffer held before are parameters.
--   Printer/Ipp: what printer_thread sends, with htons and htonl as parameters. Printer/Printing: one
--   round of printer_thread, with the calls that succeed as a record (`Round`); the call of
--   update_jobno in it is in Printer/JobFile, as it touches no job.
--   Printer/Startup: build_qonstart, over the entries that readdir returns, each with what open, read and
--   malloc answer for it. Printer/Reads: tread and treadn of printer/util.c, with the answers of select and
--   read as parameters; a round for each byte and one more are enough fuel. Printer/Response: readmore,
--   and the loop of printer_status that looks for the end of the HTTP header.
--   Printer/Submit: submit_file of printer/print.c, with readn and writen of apue.3e/lib. What a request
--   holds before it is filled, what getpwuid, the reads and the writes answer (`Calls`), how the machine
--   stores a number of 32 bits and the byte order of the network are parameters. Submit/Header is on the
--   request, with Submit/Strings for its texts, Submit/Stream on what goes to the server, and Submit/Leaks
--   on what goes there when a read of the file fails.
--   Numbers of 32 bits are their bits, and wrap around. The loops along the list of workers are on
--   fuel, and more fuel than there are workers is enough.
--
-- Walk: apue.3e/filedir/ftw8.c, for any function that is called for each file. A Walker is the path in the
-- buffer, without the bytes behind its NUL, the buffer's size, and the state of that function; a write
-- behind the end of the buffer is a result of its own. lstat and opendir are functions of the path, whose
-- answers do not change during a walk. The recursion is on fuel, and one more than the height of the
-- hierarchy is enough. Walk/PathAlloc: apue.3e/lib/pathalloc.c, at its first call. Walk/Counts: myfunc and
-- main. Walk/Trees: hierarchies as trees, and the calls that are owed to one; Names and Directory have
-- the loop over a directory's names and one directory, Visits the recursion, Census the counts.
--
-- Threads: the queue of apue.3e/threads/rwlock.c on the same lists. Each operation holds the lock from
-- beginning to end, so that the operations of several threads come one after another.
--   Threads/References: apue.3e/threads/mutex2.c, any number of threads that allocate, hold, find and
--   release one object. A step goes from one call on a lock to the next, by the lock's discipline that
--   an owner excludes the others; hashlock can also be taken for another object of the table.
--
-- Memstream: apue.3e/exercises/fmemopen.c. A stream has the buffer's bytes; a copy past the end of the
-- buffer gives none. What the code keeps in an int is cut to one (`as_int`, `int_of`). The calls of
-- malloc and funopen are parameters, and mstream_close, which only frees, is left out.
--
-- Opend: the array of clients of apue.3e/ipc2/opend/client.c. An entry's descriptor is none where the
-- code has -1; the array that is NULL is the empty one. The searches behind `again` are on fuel, and two
-- are enough. Opend/Loop: a round of ipc2/opend/loop.poll.c over pollfd[], beside client[].
--
-- Terminal: apue.3e/lib/ttymodes.c. A Tty is the settings of the terminals with the static variables of
-- the file; the driver, which may make some of the changes only, is a parameter. tty_cbreak and tty_raw
-- are one function with what they change and check as arguments (`set_mode`).
--
-- Rot13: apue.3e/advio/rot13c2.c, with the loop of main over its eight buffers. The input is a list of
-- bytes and a read or a write takes effect when aio_error says that it is complete, which it does of the
-- operation that aio_suspend returned for; a write writes all of its bytes. Rot13/Rounds and Passes have
-- one step and one round, Copies the loop, on fuel. That open, aio_read and aio_write succeed is assumed.
--
-- Not modelled: the buffering of stdio (children that read the shell's own input, output that is
-- copied by fork), signals, PIDs; of the database, malloc and the opening of the files; of the
-- printer daemon and its client, the signals, the rest of printer_status, the sockets and the
-- configuration; of the walk, the messages and the percentages; db_delete on the table of chains, as
-- it writes over records in place and the table does not say that records lie apart; the other programs of apue.3e, the textbook's sources; scripts, build files and logs.
pub mod Prelude
pub mod Clib
pub mod Descriptors
pub mod Shell
pub mod Forks
pub mod Listing
pub mod Database
pub mod Linked
pub mod Printer
pub mod Walk
pub mod Threads
pub mod Opend
pub mod Memstream
pub mod Terminal
pub mod Rot13
