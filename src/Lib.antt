-- ===== src/Lib.antt =====
-- e4, an embeddable Forth system in C: the library under core/. The model is of a target whose
-- cells, pointers and e4__usize have 64 bits and whose char is signed.
--
-- The parts of the program, from the bottom up:
-- * Machine words (core/include/e4.h, core/src/util/usize.c). A word is a number below 2 ^ 64, and
--   what C truncates is written out. Usize has the macros e4__USIZE_*, e4__usize_clz, _sdiv and
--   _todouble, Usize.Multiply e4__usize_mul, Usize.Format e4__usize_digit and _format, Gmt
--   e4__usize_togmt, Messages e4__usize_format_exception, and Errors the error constants. A buffer
--   that is written from its end is the list of the bytes that are written.
-- * Double words (core/src/util/double.c). Double has e4__double_u and _negate, Double.LongDivide the
--   unsigned core of e4__double_ndiv in two digits of half a word, Double.Divide the signs, the
--   roundings and the errors of e4__double_ndiv and _div. The two pointers that are written are a
--   record, and the returned error an alternative of Errors.Result.
-- * Utilities on memory (core/src/util/mem.c). Mem.Number has e4__mem_number, Mem.Text
--   e4__mem_strncasecmp and _parse, Mem.Layout e4__mem_aligned and _cells, Mem.Ring the circular
--   buffer e4__mem_cbuf_init, _push and, in Mem.Ring.Escaped, _epush, Mem.Pictured the pictured
--   numeric output e4__mem_pno_*, Mem.Escape e4__mem_strnescape and what decoding a whole text with
--   it gives, and Dict the functions on dictionary entries.
-- * The task (core/src/kernel/e4-internal.h) is the record Task.Task. Memory maps the number of a
--   cell to what it holds; pointers to cells are such numbers, and `here`, which may stand inside
--   a cell, is an address in bytes. The functions of the kernel take a task and return one.
-- * The stacks (core/src/kernel/stack.c) are Stack; Stack.Contents reads the two stacks as lists, and
--   Stack.Shuffle and Stack.Roll say what the words do to the lists.
-- * The dictionary (core/src/kernel/dict.c) is Dict: the list of the headers, the newest first, in
--   which the tail stands for the link.
-- * Exceptions (core/src/kernel/exception.c) are Exception. Code that may jump has an outcome, which
--   is either its value or the task at the jump; the word that is executed and the callbacks,
--   which may throw to an outer handler, are arguments.
-- * Compilation (core/src/kernel/compile.c) is Compile: the compilation state, and cells that are
--   compiled at `here`; Compile.Strings has characters and strings, which lie in memory, and
--   Compile.Copied the loop of e4__compile_estr over the chunks of a string. Addresses that the
--   linker chooses are the record Compile.Addresses.
-- * The space of a task (core/src/kernel/task.c) is Space: creation, allotting and queries, and
--   Space.Members the members that can be read from outside. The struct is that of a build with
--   every word set; the size of its jmp_buf is an argument. Task.ByteAccess reads and writes the
--   bytes of memory, the lowest byte of a cell first.
-- * Threaded code (core/src/kernel/execute.c) is Execute: e4__execute, the call through a code
--   pointer, and the interpreter. Code that is not in execute.c is the field `native` of the record
--   Execute.Words.Code. Execute.Meaning says what a word built from such code means, and the
--   modules beside it that the interpreter does that.
-- * Builtin words (core/src/builtin) are Builtin: the tests in front of a word and e4__builtin_exec
--   of builtin.c, and in Builtin.Effects words of the stacks and of the instruction pointer.
-- * Input and output (core/src/kernel/io.c) are Io: the table of callbacks, which act on a world of
--   any type, Io.File the functions on files, Io.Line e4__io_file_readline, Io.Source parsing and
--   refilling the input, Io.Pno the pictured output between HERE and PAD.
-- * Evaluation (core/src/kernel/evaluate.c) is Evaluate: words, which are compiled or interpreted,
--   the loop over the words of a text, and e4__evaluate. Evaluate.File has the functions on files
--   and Evaluate.Quit the loop of e4__evaluate_quit; there, what the evaluation of one line does, to
--   the outside too, is an argument.
--
-- Loops are recursion on the list or the number that they use up, or on fuel. e4__usize_clz has
-- fuel for seven tests of its width, 64 halved until it is 0. The loop that corrects a digit of a
-- division has fuel for three rounds, of which two are used; where it would go on the result is
-- none, and the theorems about division say that it never is. e4__mem_number has fuel for every
-- byte that is left, and the decoding of escapes for every chunk of the text. The interpreter has
-- fuel for every call and every token, which Execute.Total computes from a word. A line of a file
-- is read with fuel for two rounds more than the file has bytes left, a text is evaluated with fuel
-- for one round more than it has bytes, and three calls: the handler, the wrapper and the loop.
-- A file is evaluated with fuel for its lines and for the end of the file. The loop of
-- e4__evaluate_quit ends only with BYE; its fuel is an argument.
--
-- Not modelled: the dump of memory and the names of code in core/src/util/mem.c, the decompiler and
-- most builtin words (core/src/builtin), and what only calls the operating system or other
-- libraries: core/src/platform/posix.c, the foreign function words and repl/. In Exception the jump
-- buffer is left out: which handler a jump meets is given by the nesting of the calls.
pub mod Base
pub mod Errors
pub mod Usize
pub mod Double
pub mod Dict
pub mod Task
pub mod Stack
pub mod Mem
pub mod Exception
pub mod Compile
pub mod Gmt
pub mod Messages
pub mod Space
pub mod Tests
pub mod Execute
pub mod Builtin
pub mod Io
pub mod Evaluate
