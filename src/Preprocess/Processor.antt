-- ===== src/Preprocess/Processor.antt =====
-- `Processor` of preprocess/preprocess.go and what its methods return.
use fault.Common.{
  ℕ, Bool, true, false, List, [], ◌∷◌, ◌++◌, Option, none, some, last?, init, get_elem?, set,
  length,
}
use fault.Common.Text.{Text, text_key}
use fault.Common.Dict.{lookup, insert}
use fault.Record.{StructType, SpecRecord, Result, ok, err, panic, new_spec_record}
use fault.Preprocess.Tree.{Node, IfNode}

-- `ifs` are the ifs that the pointers lead to. `Processed` is the result of the run.
pub record Processor : Type 0 where
  pub specs : List (Text × SpecRecord Node)
  pub scope : Text
  pub local_idents : List (Text × List Text)
  pub trail : List Text
  pub struct_types : List (Text × List (Text × StructType))
  pub initial_pass : Bool
  pub in_func : Bool
  pub in_struct : Text
  pub in_state : Text
  pub in_global : Bool
  pub structs_property_order : List (Text × List Text)
  pub ifs : List IfNode

-- A value, an error, a panic, or no fuel left. The callers pass an error on to `Run`, which panics;
-- none reads the node beside it.
pub data Outcome (A : Type 0) : Type 0 where
  done : A → Processor → Outcome A
  failed : Outcome A
  panicked : Outcome A
  spent : Outcome A

abbrev pub Cmd : Type 0 → Type 0
Cmd A = Processor → Outcome A

abbrev pub return : {A : Type 0} → A → Cmd A
return = done

module _ {A B : Type 0} where
  abbrev pub and_then : Outcome A → (A → Cmd B) → Outcome B
  and_then (done a p) k = k a p
  and_then failed k = failed
  and_then panicked k = panicked
  and_then spent k = spent

  infixl 5 ◌>>=◌ ◌>>◌
  abbrev pub ◌>>=◌ : Cmd A → (A → Cmd B) → Cmd B
  m >>= k = λ p. and_then (m p) k

  abbrev pub ◌>>◌ : Cmd A → Cmd B → Cmd B
  m >> k = m >>= λ _. k

module _ {A : Type 0} where
  abbrev pub or_panic : Option A → Cmd A
  or_panic (some a) = done a
  or_panic none = λ p. panicked

  -- A call of a spec record.
  abbrev pub of_record : Result A → Cmd A
  of_record (ok a) = done a
  of_record err = λ p. failed
  of_record panic = λ p. panicked

  abbrev pub gets : (Processor → A) → Cmd A
  gets f p = done (f p) p

abbrev pub modify : (Processor → Processor) → Cmd (Unit {0})
modify f p = done tt (f p)

abbrev pub when : Bool → Cmd (Unit {0}) → Cmd (Unit {0})
when true m = m
when false m = done tt

-- `p.trail.CurrentSpec()`
abbrev pub current_spec : Cmd Text
current_spec p = or_panic (last? p.trail) p

-- `p.trail = p.trail.PushSpec(name)`
abbrev pub push_spec : Text → Cmd (Unit {0})
push_spec name = modify λ p. record p { trail = p.trail ++ name ∷ [] }

-- `_, p.trail = p.trail.PopSpec()`
abbrev pub pop_spec : Cmd (Unit {0})
pop_spec = current_spec >>= λ _. modify λ p. record p { trail = init p.trail }

abbrev pub new_spec : Text → Cmd (Unit {0})
new_spec name =
    modify
      λ p. record p { specs = insert name (record new_spec_record { spec_name = name }) p.specs }

-- `p.Specs[name]`, where a method of it is called: one that is missing is a panic.
abbrev pub spec_named : Text → Cmd (SpecRecord Node)
spec_named name p = or_panic (lookup name p.specs) p

abbrev pub put_spec : Text → SpecRecord Node → Cmd (Unit {0})
put_spec name r = modify λ p. record p { specs = insert name r p.specs }

-- `NewSpecRecord` where `p.Specs[name]` is nil.
unfoldable pub ensure_spec : Text → Cmd (Unit {0})
unfolding lookup insert new_spec_record
ensure_spec name p = elim (lookup name p.specs) [
  | some r ↦ done tt p
  | none ↦ done tt (record p { specs = insert name new_spec_record p.specs })
]

abbrev pub set_scope : Text → Cmd (Unit {0})
set_scope s = modify λ p. record p { scope = s }

abbrev pub set_in_func : Bool → Cmd (Unit {0})
set_in_func b = modify λ p. record p { in_func = b }

abbrev pub set_in_state : Text → Cmd (Unit {0})
set_in_state s = modify λ p. record p { in_state = s }

abbrev pub set_in_struct : Text → Cmd (Unit {0})
set_in_struct s = modify λ p. record p { in_struct = s }

abbrev pub set_in_global : Bool → Cmd (Unit {0})
set_in_global b = modify λ p. record p { in_global = b }

-- What a pointer to an if leads to, a write through it, and a new one.
abbrev pub load_if : ℕ → Cmd IfNode
load_if a p = or_panic (get_elem? p.ifs a) p

abbrev pub store_if : ℕ → IfNode → Cmd (Unit {0})
store_if a i = modify λ p. record p { ifs = set p.ifs a i }

abbrev pub new_if : IfNode → Cmd ℕ
new_if i p = done (length p.ifs) (record p { ifs = p.ifs ++ i ∷ [] })
