-- ===== src/Reachability/Trace.antt =====
-- The states that a syntax tree defines and those that it enters, read off the tree without a
-- tracer, and the invariant of reachability/reachability.go that relates the two.
use fault.Common.{
  ◌≡◌, refl, not, ◌&&◌, List, [], ◌∷◌, ◌++◌, none, some, true, false, arith, if◌then◌else◌, same,
  same_iff, distinct, has, has-append, append_assoc, append-nil,
}
use fault.Common.Dict.{lookup, insert, lookup-insert, distinct-insert, keys}
use fault.Common.Text.{Text, text_key}
use fault.Reachability.{
  Name, Node, Nodes, OptNode, Pairs, Tracer, spec, def_statement, component_literal,
  start_statement, function_literal, block_statement, expression_statement, if_expression, built_in,
  other, nil, cons, absent, present, no_pairs, pair, new_tracer, without, define, call, call_all,
  start_ids, local_ids, state_id, walk, walk_all, walk_opt, walk_pairs, walk_state,
}

unfoldable mutual
  -- The states that the components of a tree define, in the order of the walk.
  pub defined : Node → List Text
  defined (spec statements) = defined_all statements
  defined (def_statement value) = defined value
  defined (component_literal name pairs) = defined_pairs name pairs
  defined (function_literal body) = defined body
  defined (block_statement statements) = defined_all statements
  defined (expression_statement expression) = defined expression
  defined (if_expression consequence elif alternative) =
      (defined consequence ++ defined_opt elif) ++ defined_opt alternative
  defined _ = []

  pub defined_all : Nodes → List Text
  defined_all nil = []
  defined_all (cons n ns) = defined n ++ defined_all ns

  pub defined_opt : OptNode → List Text
  defined_opt absent = []
  defined_opt (present n) = defined n

  pub defined_pairs : Name → Pairs → List Text
  defined_pairs name no_pairs = []
  defined_pairs name (pair key value rest) =
      defined_state (state_id name key) value ++ defined_pairs name rest

  pub defined_state : Text → Node → List Text
  defined_state id (function_literal body) = (id ∷ []) ++ defined body
  defined_state id _ = []

unfoldable mutual
  -- The states that its start statements and built-ins enter.
  pub entered : Node → List Text
  entered (spec statements) = entered_all statements
  entered (def_statement value) = entered value
  entered (component_literal name pairs) = entered_pairs pairs
  entered (start_statement pairs) = start_ids pairs
  entered (function_literal body) = entered body
  entered (block_statement statements) = entered_all statements
  entered (expression_statement expression) = entered expression
  entered (if_expression consequence elif alternative) =
      (entered consequence ++ entered_opt elif) ++ entered_opt alternative
  entered (built_in parameters) = local_ids parameters
  entered other = []

  pub entered_all : Nodes → List Text
  entered_all nil = []
  entered_all (cons n ns) = entered n ++ entered_all ns

  pub entered_opt : OptNode → List Text
  entered_opt absent = []
  entered_opt (present n) = entered n

  pub entered_pairs : Pairs → List Text
  entered_pairs no_pairs = []
  entered_pairs (pair key value rest) = entered_state value ++ entered_pairs rest

  pub entered_state : Node → List Text
  entered_state (function_literal body) = entered body
  entered_state _ = []

-- What a tracer knows after the states `ds` were defined and the states `es` entered.
pub record Traces (ds es : List Text) (t : Tracer) : Type 0 where
  pub graph_at : (id : Text) → lookup id t.graph ≡ (if has id ds then some (has id es) else none)
  pub undefined_at : (id : Text) → has id t.undefined ≡ (has id es && not (has id ds))
  pub keys_distinct : distinct (keys t.graph) ≡ true

has-without : (id j : Text) (vs : List Text) → has j (without id vs) ≡ (has j vs && not (same id j))
unfolding without
has-without id j [] = refl
has-without id j (v ∷ vs) =
    ground (arith, same_iff v id, same_iff v j, same_iff id j, has-without id j vs)

module _ {ds es : List Text} {t : Tracer} (id : Text) (h : Traces ds es t) where
  open h use {graph_at, undefined_at, keys_distinct}

  define_graph_at :
      (j : Text)
      → lookup j (define t id).graph ≡ (if has j (ds ++ id ∷ []) then some (has j es) else none)
  unfolding define
  define_graph_at j = ground (
    arith,
    same_iff id j,
    graph_at id,
    graph_at j,
    undefined_at id,
    has-append j ds (id ∷ []),
    lookup-insert id j false t.graph,
    lookup-insert id j true t.graph,
    lookup-insert id j true (insert id false t.graph),
  )

  define_undefined_at :
      (j : Text) → has j (define t id).undefined ≡ (has j es && not (has j (ds ++ id ∷ [])))
  unfolding define
  define_undefined_at j = ground (
    arith,
    same_iff id j,
    graph_at id,
    undefined_at id,
    undefined_at j,
    has-append j ds (id ∷ []),
    has-without id j t.undefined,
  )

  define-keys-distinct : distinct (keys (define t id).graph) ≡ true
  unfolding define
  define-keys-distinct = ground (
    arith,
    keys_distinct,
    distinct-insert id false t.graph keys_distinct,
    distinct-insert id true t.graph keys_distinct,
    distinct-insert id true (insert id false t.graph)
        (distinct-insert id false t.graph keys_distinct),
  )

  define-Traces : Traces (ds ++ id ∷ []) es (define t id)
  define-Traces = record {
    graph_at = define_graph_at;
    undefined_at = define_undefined_at;
    keys_distinct = define-keys-distinct;
  }

  call_graph_at :
      (j : Text)
      → lookup j (call t id).graph ≡ (if has j ds then some (has j (es ++ id ∷ [])) else none)
  unfolding call
  call_graph_at j = ground (
    arith,
    same_iff id j,
    graph_at id,
    graph_at j,
    has-append j es (id ∷ []),
    lookup-insert id j true t.graph,
  )

  call_undefined_at :
      (j : Text) → has j (call t id).undefined ≡ (has j (es ++ id ∷ []) && not (has j ds))
  unfolding call
  call_undefined_at j = ground (
    arith,
    same_iff id j,
    graph_at id,
    undefined_at j,
    has-append j es (id ∷ []),
    has-append j t.undefined (id ∷ []),
    has-without id j t.undefined,
  )

  call-keys-distinct : distinct (keys (call t id).graph) ≡ true
  unfolding call
  call-keys-distinct = ground (arith, keys_distinct, distinct-insert id true t.graph keys_distinct)

  call-Traces : Traces ds (es ++ id ∷ []) (call t id)
  call-Traces = record {
    graph_at = call_graph_at;
    undefined_at = call_undefined_at;
    keys_distinct = call-keys-distinct;
  }

call_all-Traces :
    {ds es : List Text} (t : Tracer) (ids : List Text)
    → Traces ds es t
    → Traces ds (es ++ ids) (call_all t ids)
unfolding call_all
call_all-Traces {ds} {es} t [] h = rw append-nil h
call_all-Traces {ds} {es} t (id ∷ ids) h =
    rw (append_assoc es (id ∷ []) ids) at (call_all-Traces (call t id) ids (call-Traces id h))

Traces-append :
    (ds es d1 d2 e1 e2 : List Text) {t : Tracer}
    → Traces (ds ++ d1 ++ d2) (es ++ e1 ++ e2) t
    → Traces (ds ++ (d1 ++ d2)) (es ++ (e1 ++ e2)) t
Traces-append ds es d1 d2 e1 e2 h = rw (← append_assoc ds d1 d2) (rw (← append_assoc es e1 e2) h)

mutual
  unfolding walk walk_all walk_opt walk_pairs walk_state defined defined_all defined_opt
      defined_pairs defined_state entered entered_all entered_opt entered_pairs entered_state

  walks :
      (n : Node) (ds es : List Text) (t : Tracer)
      → Traces ds es t
      → Traces (ds ++ defined n) (es ++ entered n) (walk t n)
  walks (spec statements) ds es t h = walks_all statements ds es t h
  walks (def_statement value) ds es t h = walks value ds es t h
  walks (component_literal name pairs) ds es t h = walks_pairs name pairs ds es t h
  walks (start_statement pairs) ds es t h = rw append-nil (call_all-Traces t (start_ids pairs) h)
  walks (function_literal body) ds es t h = walks body ds es t h
  walks (block_statement statements) ds es t h = walks_all statements ds es t h
  walks (expression_statement expression) ds es t h = walks expression ds es t h
  walks (if_expression consequence elif alternative) ds es t h = Traces-append ds es _ _ _ _ (
      walks_opt alternative _ _ _
        (Traces-append ds es _ _ _ _ (walks_opt elif _ _ _ (walks consequence ds es t h))))
  walks (built_in parameters) ds es t h = rw append-nil (call_all-Traces t (local_ids parameters) h)
  walks other ds es t h = rw append-nil (rw append-nil h)

  walks_all :
      (ns : Nodes) (ds es : List Text) (t : Tracer)
      → Traces ds es t
      → Traces (ds ++ defined_all ns) (es ++ entered_all ns) (walk_all t ns)
  walks_all nil ds es t h = rw append-nil (rw append-nil h)
  walks_all (cons n ns) ds es t h =
      Traces-append ds es _ _ _ _ (walks_all ns _ _ _ (walks n ds es t h))

  walks_opt :
      (n : OptNode) (ds es : List Text) (t : Tracer)
      → Traces ds es t
      → Traces (ds ++ defined_opt n) (es ++ entered_opt n) (walk_opt t n)
  walks_opt absent ds es t h = rw append-nil (rw append-nil h)
  walks_opt (present n) ds es t h = walks n ds es t h

  walks_pairs :
      (name : Name) (ps : Pairs) (ds es : List Text) (t : Tracer)
      → Traces ds es t
      → Traces (ds ++ defined_pairs name ps) (es ++ entered_pairs ps) (walk_pairs name t ps)
  walks_pairs name no_pairs ds es t h = rw append-nil (rw append-nil h)
  walks_pairs name (pair key value rest) ds es t h =
      Traces-append ds es _ _ _ _
        (walks_pairs name rest _ _ _ (walks_state (state_id name key) value ds es t h))

  walks_state :
      (id : Text) (n : Node) (ds es : List Text) (t : Tracer)
      → Traces ds es t
      → Traces (ds ++ defined_state id n) (es ++ entered_state n) (walk_state id t n)
  walks_state id (function_literal body) ds es t h =
      rw (← append_assoc ds (id ∷ []) (defined body))
        (walks body _ es (define t id) (define-Traces id h))
  walks_state id _ ds es t h = rw append-nil (rw append-nil h)

-- The walk of a whole tree, from a new tracer.
pub walk-Traces : (n : Node) → Traces (defined n) (entered n) (walk new_tracer n)
unfolding new_tracer
walk-Traces n = walks n [] [] new_tracer start
  where
    start : Traces [] [] new_tracer
    start =
        unfold lookup in
        record { graph_at = λ id. refl; undefined_at = λ id. refl; keys_distinct = refl }
