-- ===== src/Lib.antt =====
-- A verification library of the Javalette compiler, whose sources are the C files under src/.
--
-- The compiler parses a program into a syntax tree (src/tree.h), checks it (src/tree.c) and turns
-- it into quadruples (src/quadr.c), from which src/gencode.c and a backend make assembly code. The
-- checks rest on the types of src/types.c, the code generator on the trees of src/rbtree.c.
-- Modelled here are the trees, the types, the scopes, the type check of expressions and the
-- semantic check of instructions and functions, the quadruples of expressions, the liveness analysis
-- of src/flow.c, the allocators and the string table of src/mem.c on which all parts draw, and the
-- output buffer of the backends.
--
-- Conventions. A failed assertion, an `xabort`, an access through a null pointer and a write outside
-- an array are `none`; a C function that can have none of these returns its result plainly. Numbers
-- are natural numbers; the wrap-around of the `unsigned` of rb_size is written out. Symbols, the
-- strings of the tree and allocated types are addresses.
--
-- Prelude and its children hold the shared names, the Boolean tests, the monad of steps that may
-- fail, and the predicates `Returns` (there is a result and it satisfies P) and `Ensures` (if there
-- is one).
--
-- Rbtree, for src/rbtree.c and src/rbtree.h. A node is a tree value, the null node the constant
-- `nil`; `RbPair` holds the comparison functions. The stack of parents with the current node is a
-- zipper: a frame records a parent, the side on which the walk left it and the other subtree, and
-- `plug` puts the tree together again, so that an assignment through a pointer to a node on the path
-- is the rebuilt frame. The capacity of the stack is kept, the contents live in one operation.
-- Rotate, Insert, Delete, Walk and Join hold the functions under their names without `rb_`;
-- rb_insert_fixup recurs on the stack, and delete_fixup on fuel `length stack * 3 + 5`: each round
-- that moves up takes a frame off the stack, the round that rotates a red sibling adds one frame
-- under a red parent and is followed by at most two more rounds. Balance and Order state
-- the invariant and the order of the keys, Client the operations as one interface and its
-- specification, a sorted list.
--
-- Types, for src/types.h and src/types.c: `type_t` with its lists of arguments, and `type_equiv`
-- with `do_type_equiv`; Types/Compatible has the rules of compatibility.
--
-- Tree, for src/tree.h and src/tree.c. Tree/Exprs and Tree/Instrs are the nodes, built once by the
-- parser and not shared, so that a node has no type before its check. Tree/Scopes has the static
-- arrays and the chain of declarations of each symbol, with the memory of the array `decls` in
-- bytes; the size of a pointer is a parameter. Tree/Check has `do_type_check`: the messages are a
-- list in the report, `expr->type` is in the result, and each case of the switch that branches is a
-- function of its own. Tree/Check/Typing has the type system as rules. Tree/Semantics has
-- `check_lvalue` and the steps that the checks of instructions share, Tree/Semantics/Nodes has
-- `do_semantic_check` and `semantic_check`. Their state holds the scopes, the reports and, as a list,
-- the latest first, the calls into src/quadr.c; a basic block and a variable are
-- the numbers of their allocation, and a block that the C code leaves unassigned is `none`.
--
-- Mem, for src/mem.c and src/mem.h. Mem/Alloc has `alloc_t`, whose pools are numbered as malloc
-- gives them; a size that is no `int` is `none`. Mem/Pool has `pool_t` over addresses, with the
-- word at the start of each free object as memory; `size_t` has 64 bits, a pointer 8 bytes, and
-- malloc gives one address after the other. The loop of `make_free_list` is on fuel, as many rounds
-- as there are bytes; its step is an `int`, and `none` stands for a step of 0, with which it does
-- not end. Mem/Strtab has the string table: the hash of 32 bits, and chains of nodes
-- that are indices into the table. The walk along a chain is on fuel, as many rounds as there are
-- nodes in use; where the table would be moved, which leaves the pointers into it behind, the
-- result is `none`.
--
-- Outbuf, for src/outbuf.c and src/outbuf.h. The lines are in memory: a function from addresses to
-- lines with their pointers, `none` where nothing is allocated. Outbuf/Links says when the lines form
-- a doubly linked list, Outbuf/Cells when the buffer holds it. The lines that `FOR_ALL_LINES` cuts a
-- string into are computed before they are inserted; a line above `MAX_LINE_LEN` is `none`.
--
-- Quadr, for src/quadr.h and src/quadr.c: the quadruples. Quadr/Blocks has the function in hand
-- with its variables, numbered as they are declared, and its blocks, each at the address that its
-- `id` is, and Quadr/Linking their list; a block that is freed is `none` and its address is not
-- used again. The walk to the last of the blocks that are added is on fuel, one more than the
-- blocks that were ever allocated. Quadr/Typed has the expressions with the types and declarations
-- that the checks have put there, Quadr/Emit, Quadr/Gen and Quadr/Instrs the functions that emit
-- code under their names: the two functions for an expression are the two fields of `Code`, because
-- the one calls the other on the same node. The negation of an `int` reads an `int` of a `double`
-- that was passed, which is `none`. Quadr/Machine is the reference: what the expressions mean and
-- what straight-line quadruples do, over any arithmetic; Quadr/Runs, Quadr/Emitted, Quadr/Yields
-- and Quadr/Elements have the steps from one to the other, Quadr/Assignments and Quadr/Steps
-- assignments and `++`, Quadr/Branches and Quadr/Conditions the blocks and jumps of a comparison,
-- Quadr/VarLists the lists of variables.
--
-- Flow, for src/flow.c: the flow graph and the liveness analysis. A block is its position in the
-- function's list. The sets of variables are the interface `VarSet`, which Flow/Trees fills with
-- the trees of Rbtree; the descriptors in `live_in` are that set with a distance for each variable,
-- an `unsigned` of 32 bits. In Flow/NearestUse an `int` overflow is `none`. Flow/Liveness has the
-- passes: `do_liveness` is on fuel, as many calls as there are blocks, since a call visits one
-- more; `while (changed)` on fuel two more than blocks times variables, since a pass that is not
-- the last adds a variable to a block. `begin_traversal` takes the marks away, as it does until its
-- 16-bit counter wraps. Flow/Live says what is live, Flow/Traversal and Flow/Loop follow the walk
-- and the passes, Flow/Graph has the conditions on the code, Flow/Finish what the backends get, and
-- Flow/NearestUse the function of src/quadr.c that reads it.
--
-- Not modelled: what the calls of src/tree.c into src/quadr.c leave in the blocks of a function,
-- several functions in a row, src/gencode.c and the rest of src/outbuf.c, which are later parts of
-- this library; the backends, src/flags.c, src/jl.c and src/utils.c, which read options and print
-- text; the scanner and the parser, whose code is generated. malloc always succeeds, and freeing
-- with `free` leaves no trace but in Outbuf and in Quadr.
pub mod Prelude
pub mod Rbtree
pub mod Types
pub mod Tree
pub mod Mem
pub mod Outbuf
pub mod Quadr
pub mod Flow
