-- ===== src/Lib.antt =====
-- AIthon, a compiler for a Python dialect with an actor runtime: a verification library for its
-- lexer, its parser, its semantic analyser, its syntax validator and the runtime.
--
-- The compiler reads a source file (src/compiler/compiler.cpp), cuts it into tokens (src/lexer),
-- and goes on to parse, analyse and translate them with LLVM. The compiled code runs on the
-- runtime: actors with a heap and a mailbox of their own, which a scheduler runs on a few worker
-- threads.
--
-- Prelude (and Prelude/Tests, Lists, Text, Int): shared names, Boolean tests on numbers, lists, bytes, integers.
--
-- Token, include/lexer/token.h: TokenType, SourceLocation and Token. The value of a token is a data
-- type with the variants that the lexer makes; a double is of a type that is a parameter.
-- Token/Texts, src/lexer/token.cpp: the names of token types in messages.
--
-- Lexer, src/lexer/lexer.cpp. The state (Lexer/Cursor, `Lexer`) is the text from `current_` on,
-- with `line_`, `column_`, the start of the line and the reports made; `peek`, `advance` and the
-- others keep their names. Lexer/Literals has make_number, make_string and make_identifier,
-- Lexer/Scan the rest of tokenize: one function per branch of its loop. A character is a byte;
-- `peek` gives 0 at the end, as the code does. The loop of tokenize recurs on fuel, the length of
-- the source and one more; each round takes at least a byte. `std::stod` is a parameter,
-- `std::stoll` is written out, with its exception as an outcome. The proofs: Position and Strings
-- follow the line counter; Literal reads string literals by a definition of its own; Located and Locations carry it through tokenize; Loop and Progress end
-- it; Shape and Quote read its result; Words compares the keywords with their names in messages.
--
-- Ast, include/parser/ast.h: the syntax tree, with one constructor for each class of node.
--
-- Parser, src/parser/parser.cpp. The state is the list of the tokens from `current_` on. A parsing
-- function takes it and gives a value with the tokens left, or a report, or the exception of
-- `std::get`. Parser/Grammar has the tables of the types that are matched, Expr the expressions,
-- Stmt and Block the statements, with the code's names; parse_logical_or to parse_factor are
-- `parse_level` at six levels. The functions recur on fuel, one unit for each call, and `parse`
-- takes 40 units for each token and 40 more, which is enough: fewer calls than that follow one
-- another between two tokens consumed. Ends, ExprEnds, DeclEnds and StmtEnds are about that,
-- function by function, and Total about parse. Print writes an expression as tokens; Reads, Levels,
-- Operations, Sequences, Atoms, Postfixes and RoundTrip follow how it is read back, for which there
-- is a fuel that is enough, given by the proof. The depth of the recursion on a real stack is not
-- modelled.
--
-- Analyzer, src/analyzer/semantic_analyzer.cpp. Analyzer/Table has the symbol table and the state
-- of the analyser, Analyzer/Walk the functions from infer_type to analyze, which recur on the tree.
-- A report is a value in place of a text; hash maps and sets are lists, so the last check goes
-- through the called names in the order of their first calls, where the code's order is
-- unspecified. Names and Scopes follow the scopes, Undefined and Silent what is reported.
--
-- Runtime/Heap, src/runtime/heap.cpp: a heap is the list of its objects with the allocation pointer
-- as an offset from the start. Sizes are `size_t` with its wrap-around, while the sums of pointers
-- and sizes are unbounded. So the model is the code for requests of less than 2^63 bytes, and for
-- those that are rounded to 0; near 2^64 the code's sums of pointers are undefined, and an object
-- would overlap its header. The bytes of payloads are not modelled. Heap/Pointers is about the
-- test for room on the pointers themselves, Heap/Given about one more attempt after a collection.
--
-- Runtime/Actor, src/runtime/actor_process.cpp: an actor as a record, each method a function of it.
-- The mailbox is the list of its messages in order. Compiled code is a parameter: any function of
-- the actor that may throw. `continuation_state_` and the stack trace of a crash are set nowhere,
-- and left out; the polling loop receive_timeout is left out too.
--
-- Runtime/LockFreeQueue, include/runtime/lockfree_queue.h: the queue that a mailbox is. Nodes stand
-- at addresses; one that is freed is gone, and an access to it has no outcome. `new` gives any free
-- address, a used one too. An enqueue is the exchange of the tail and, any number of steps of
-- others later, the store of the link; a dequeue is one step, since it reads what others write just
-- once. Memory is sequentially consistent. The destructor is left out. The steps are in
-- LockFreeQueue/Histories; Chain and Links follow the nodes, Fifo the operations. The actor's model
-- has the list in place of the nodes.
--
-- Runtime/Scheduler, src/runtime/scheduler.cpp: the registry of actors and the workers with their
-- queues. A worker's place in worker_loop is its phase. What a worker or a caller does between two
-- points where another thread can matter is one step (Scheduler/Steps), and steps follow one
-- another in any order; a quantum is one step, and so are spawn and send_message. The code chooses
-- a worker for a new actor before it queues it, and other threads may run between the two: so the
-- step puts it on any worker, `spawn_on`, and `spawn` is the call with nothing in between. Pids are
-- unbounded, as if fewer than 2^31 actors were made. Rounds has the pieces of worker_loop and the stealing. The random victim is an argument of the step, any number
-- at all. Condition variables, the joins of shutdown, and the clock are left out: they only choose
-- when a step is taken.
--
-- Runtime/Objects, src/runtime/runtime.cpp from line 588 on: the objects of classes, with reference
-- counts and fields that are words of 64 bits. Objects stand at addresses; one that is freed is
-- gone, and an access to it has no outcome. Objects/Client is compiled code that uses them, call by
-- call, with the references it has; which fields of a class are references is a parameter. Store
-- and Counts follow the references, Changes, Writes, Pointers, Calls and Accesses each call,
-- Client/Safety any number of them, and Fields the number fields. `malloc` gives any free address.
-- Calls are atomic.
--
-- Runtime/Lists, src/runtime/runtime.cpp up to line 330: lists and dictionaries, with the strings
-- that stand at addresses, until they are deleted. Lists/Memory is about the strings.
--
-- Runtime/Values, src/runtime/pyobject.cpp: the values of a program. Values/Operators and Compare
-- have the methods of each class, as in `add_int` for PyInt::add, and the virtual call, `add`;
-- Containers has strings, lists and dictionaries. Integers have 64 bits, and their overflow is an
-- outcome of its own; doubles are a parameter. Of an exception only the kind is kept, not its text.
-- Types sets the operators beside the analyser's
-- types, Numbers is about remainders and Repeat about strings, Items about lists and dictionaries.
--
-- Runtime/GreenThread, src/runtime/green_threads.cpp: one green thread, with its own heap and
-- mailbox. Compiled code is a parameter, and so is the comparison of doubles that says when to
-- collect. GreenThread/Quantum is about what becomes of a message that was sent.
--
-- Validator, src/validator/syntax_validator.cpp: the check of a text before it is compiled, by the
-- older driver, src/compiler/compiler_old.cpp. Positions are indices. `std::regex_search` is a
-- parameter; the loops over its matches recur on two units of fuel for each byte and two more,
-- which is enough when no match is empty. An error has its type in place of the message. Lexical
-- reads strings and comments off a text by a scanner of its own, Balanced is about the braces,
-- Searches about the loops and `validate`.
--
-- Not modelled: the project validator and the code generators, the reference counts of values, the
-- actor collector, the scheduler of green threads and the exceptions; and all output.
pub mod Prelude
pub mod Token
pub mod Lexer
pub mod Ast
pub mod Parser
pub mod Analyzer
pub mod Runtime
pub mod Validator
