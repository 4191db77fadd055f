-- ===== src/Lib.antt =====
-- Fault compiles a specification language for dynamic systems to SMT, hands the formulas to a solver,
-- and prints what the solver found.
--
-- The parts and how they interact. The listener turns the parsed text into a syntax tree
-- (listener/, ast/), the preprocessor names its instances and keeps them in spec records
-- (preprocess/), the type checker annotates them (types/), and the reachability tracer
-- (reachability/) rejects a system whose states are not entered. The compiler (llvm/) emits LLVM code,
-- and negates each assertion on the way. The generator (smt/) runs through that code and writes SMT
-- rules: a variable gets a new name at each assignment (smt/variables), the branches of a conditional
-- are rules under tags (smt/rules) whose last versions are merged (smt/forks), and the states of an
-- assertion are joined by its temporal word (smt/asserts.go). execute/ reads the solver's model into
-- traces and prints them.
--
-- The files:
-- - Common: what the modules share. Lists over native numbers (Common/Lists), types with `==`
--   (Common/Keys), Go maps as association lists, whose order stands for the order in which one `range`
--   visits the map (Common/Dict), int16 with its wrap (Common/Int), text as code points with Split,
--   Join, Itoa and Atoi (Common/Text), and computations that may panic, where `none` is the panic
--   (Common/Fallible).
-- - Listener: listener/listener.go, the stack and the scopes of the walk over a parse tree, with the
--   Exit methods of expressions, statements, blocks, structs, assertions and runs. Trees has the parse
--   trees, Node the nodes, Build, Blocks and Declarations what a method makes of the nodes it pops,
--   Stack the pops and pushes, Walk the walk; Denote says what a tree stands for without a stack.
-- - Types: types/types.go, typecheck, infer, inferFunction, the look-ups in a Record, typeAdju and
--   calculateBase. Ty has the types, Expr the nodes, Checker the state, Infer the methods.
-- - Rules: smt/rules/rules.go, the kinds of rule, TagRule and TagRules.
-- - Reachability: reachability/reachability.go, NewTracer, walk, check and Scan.
-- - Variables: smt/variables/variables.go, the SSA numbers and names (AdvanceSSA, GetVarBase,
--   ConvertIdent) and the stacks of branches (InitPhis, StoreLastState, PopPhis, SaveState, LoadState).
-- - Forks: smt/forks/forks.go, the versions of a variable in a branch (AddChoiceValue, GetEnd).
-- - Asserts: smt/asserts.go and smt/generator.go, the text of an assertion from its states
--   (packageStateGraph, writeAssert, applyTemporalLogic, eventuallyAlways), and in Merge the joining of
--   two sides by round (mergeByRound, termCombos, balance, joinStates).
-- - Negation: llvm/compiler.go, negate, evaluate, negateTemporal and the part of compileAssert that
--   calls them.
-- - Execute: execute/history.go and execute/format.go, the traces, generateRows and deadBranches;
--   LoadMeta of execute/execute.go. The three types of trace are one, over the type of the values.
-- - Responses: what is read of the solver's output, Check and cleanExtraOutputs of
--   execute/execute.go, splitIdent and ExitFunction_def of execute/responses.go.
-- - Record: preprocess/record.go, the maps of a spec, Fetch, FetchVar, UpdateVar,
--   GetStructType and Update.
-- - Lookup: llvm/variables/lookup.go, llvm/variables/pointers.go and llvm/spec.go, the values that a
--   variable has had.
-- - Preprocess: preprocess/preprocess.go, walk and Run. Tree has the nodes, Processor the state and what
--   the methods return, Naming, Collapse, Structs, Instances and Calls the cases of walk, Walk the
--   whole.
-- - Generator: parts of smt/generator.go. Permutations has parallelPermutations, Rounds the versions of
--   a round (addVarToRound, varRounds), Choosing the choices of a fork (buildForkChoice), Writes the
--   text of the rules (writeRule, generateRules, SMT).
-- - Util: util/util.go, string sets and the helpers on slices.
-- In each, a child module named for what it proves holds the lemmas, and Tests runs the definitions.
--
-- Bounds: every loop is over a list or a tree, with three exceptions. GetStructType runs on the
-- length of the id as fuel, enough since each call drops a part of it. The look-ups of the type
-- checker need not end: there the depth of an expression over literals is enough. The walk of the
-- preprocessor need not end either, since it goes through calls and can make a circle of ifs: the
-- number of nodes of a tree without these is enough. Numbers of versions are int16 and wrap where
-- Go's do; lengths and counters of Go's int are taken as unbounded. float64, its arithmetic and
-- what fmt.Sprintf prints of it, what an int32 of a float64 out of range is, what
-- strconv.ParseFloat takes, deepcopy.Anything and the types of the LLVM library are parameters.
--
-- Not modelled: the generated parsers, the syntax tree but for the nodes that a modelled function
-- reads, the listener's constants, imports and clauses, the instances that the type checker goes
-- through, the emission of LLVM code, the generator's walk over LLVM blocks and the rules that join
-- the branches of a fork, the combinations of states that a counting filter asks for, the process of
-- the solver, the diagrams, and the command line.
-- Messages and positions of errors are left out everywhere: an error is a value without its text.
-- Shared backing arrays and shared maps are taken as copies; the modelled functions do not write to
-- one that another name still reads, but for the ifs of the preprocessor, which are in a store. A node
-- that the syntax tree shares with a spec record is one node in each. The names in a tree have no
-- space around them, so that strings.TrimSpace leaves them as they are.
pub mod Common
pub mod Rules
pub mod Reachability
pub mod Variables
pub mod Types
pub mod Util
pub mod Asserts
pub mod Negation
pub mod Preprocess
pub mod Forks
pub mod Generator
pub mod Execute
pub mod Record
pub mod Lookup
pub mod Responses
pub mod Listener
