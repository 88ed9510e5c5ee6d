-- ===== src/Lib.antt =====
-- jitfusion, an expression engine: a tree of execution nodes is validated, compiled with LLVM and
-- run. This library models the parts that decide what is compiled and what is loaded.
--
-- - Types is include/type.h and src/type.cc: the value types, the operators, and the tests of
--   `TypeHelper`.
-- - Scope is src/scope_stack.h: the stack of scopes, as a list of association lists whose head is the
--   back of the vector.
-- - Builtins is src/function and `FunctionRegistry::Init` of src/function_registry.cc: the tables of
--   the functions that every registry starts with. A child holds the tables of one source file or of
--   a part of it; Calls runs them. The address of a function is a parameter, which is not null.
-- - Lists is src/function/list_indexing.cc, src/function/list_group.cc, src/function/list_comparison.cc
--   and `CountBits` of src/function/list_aggregation.cc: what the functions on lists compute. A list
--   structure is the list of its elements, and an element type is a parameter with the tests that the
--   source makes on it. Table is the hash tables and `Find`, Search and Sorted are `FindSorted` and
--   `Bucketize`, Compact is the compactions and the gather, and Group is the grouping. Bitmap is the
--   bitmaps of comparisons, the filter by a bitmap and `CountBits`, which BitValue, BitFilter, BitCount
--   and Filter are about; Choose is `IfLarge` and its like and the choices by a bitmap, without xsimd,
--   which Choices is about. A write behind the end of an array, and a read behind the end of a bitmap,
--   which the source does not test for, are results of their own. The searches by halving run on fuel,
--   the length of the list, which each turn lowers.
-- - ExecNode is include/exec_node.h: the tree. A node's source location is left out.
-- - Registry is include/function_registry.h and src/function_registry.cc: the signatures, and the
--   table of functions, as an association list in the order of insertion. A function pointer is its
--   address.
-- - Validator is src/validator.h and src/validator.cc: each `Visit` is a clause of `visit`, with the
--   scopes passed on from one visit to the next. It uses Types, Scope, ExecNode and Registry.
-- - Codegen is part of src/codegen: the conversions and instructions that a numeric conversion and a
--   unary, binary or if node ask of LLVM's builder, from the types that the validator wrote. A call of
--   the builder is a constructor; what a cast computes is a parameter with its documented behaviour.
-- - Arena is include/arena.h and src/arena.cc: the arena as a record, `malloc` as a parameter, and the
--   buffers freed and objects destroyed as lists in the order of the calls.
-- - Artifact is src/compiled_artifact.h and src/compiled_artifact.cc: the bytes of a compiled
--   artifact, its writer, its reader and the host check.
-- - Dsu is athena/dsu.h and athena/dsu.cc: the disjoint sets, with the hash maps as functions. `Find`
--   runs on fuel; the ranks grow towards the root, so more fuel than there were unions is enough.
-- - Grouper is athena/pipeline_grouper.cc: the heights of the nodes, in 32 bits, and the nodes that
--   `GetHeight` joins with the pipeline that holds them, which Grouper/Refs is about; Grouper/Depth
--   bounds the heights; Grouper/Group is the hash and `Group`, which joins them
--   in the sets of Dsu, and Grouper/Classes is about it. It searches with one turn more than there are
--   unions. ExecNode/Text is `ToString`, whose text is hashed; `std::to_string` and the bytes of a
--   `std::string` are parameters.
-- - Common has the names and lemmas that the others share.
--
-- An error is a constructor with the values that its message shows. All functions are total: the
-- trees are visited by structural recursion, and the reader's loops count down the number of records
-- that they have read from the blob, without fuel. Sizes and positions of the reader are numbers
-- below 2^64, and their sums wrap there, as `std::size_t` does.
--
-- Not modelled: LLVM, the basic blocks and the other nodes of the code generation, the engines that
-- call the compiled code, the arithmetic on lists, numbers and strings, the parser and what generates
-- it, and the rendering of messages.
pub mod Common
pub mod Types
pub mod Scope
pub mod ExecNode
pub mod Registry
pub mod Validator
pub mod Codegen
pub mod Builtins
pub mod Lists
pub mod Dsu
pub mod Grouper
pub mod Arena
pub mod Artifact
