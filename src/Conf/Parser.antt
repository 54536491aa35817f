-- ===== src/Conf/Parser.antt =====
-- conf/parse.go: the parser of configuration files, from the lexer's items to a map.
pub mod Items
pub mod Files
pub mod RoundTrip
mod Tests
use gnatsd.Prelude.{
  ℕ, Bool, List, [], ◌∷◌, ◌++◌, Bytes, Option, none, some, bytes_eq, if◌then◌else◌,
}

-- What stands behind an `interface{}`. An int64 and a float64 are their bit patterns, a time is
-- what the library's `time.Parse` returned.
mutual
  pub data Value : Type 0 where
    str : Bytes → Value
    bool : Bool → Value
    int : ℕ → Value
    float : ℕ → Value
    time : ℕ → Value
    array : Values → Value
    mapping : Fields → Value

  pub data Values : Type 0 where
    nil : Values
    cons : Value → Values → Values

  -- A Go map, by the order in which its keys were first set.
  pub data Fields : Type 0 where
    end : Fields
    field : Bytes → Value → Fields → Fields

-- `append(ctx, val)`
unfoldable pub snoc : Values → Value → Values
snoc nil v = cons v nil
snoc (cons w vs) v = cons w (snoc vs v)

-- `ctx[key] = val`
unfoldable pub set_field : Bytes → Value → Fields → Fields
set_field k v end = field k v end
set_field k v (field j w fs) =
    let rest = set_field k v fs in if bytes_eq j k then field j v fs else field j w rest

unfoldable pub get_field : Bytes → Fields → Option Value
get_field k end = none
get_field k (field j w fs) = let rest = get_field k fs in if bytes_eq j k then some w else rest

-- `parser`. The heads of `ctxs` and `keys` are the tops of the stacks, and `p.ctx` is the head of
-- `ctxs`; a context on the stack is in no other, so its value stands there alone.
pub record Parser : Type 0 where
  pub ctxs : List Value
  pub keys : List Bytes
  pub fp : Bytes

-- How an operation ends: with a value, with an error, in a panic; `stuck` is a lexer that hangs, or
-- files nested deeper than the model goes.
pub data Result {ℓ} (A : Type ℓ) : Type ℓ where
  ok : A → Result A
  err panic stuck : Result A

abbrev pub push_context : Value → Parser → Parser
push_context ctx p = record p { ctxs = ctx ∷ p.ctxs }

-- `popContext`: it panics on an empty stack, and where the stack gets empty.
unfoldable pub pop_contexts : List Value → Option (Value × List Value)
pop_contexts (last ∷ ctx ∷ ctxs) = some (last, ctx ∷ ctxs)
pop_contexts _ = none

unfoldable pub pop_context : Parser → Result (Value × Parser)
unfolding pop_contexts
pop_context p = elim (pop_contexts p.ctxs) [
  | none ↦ panic
  | some (last, ctxs) ↦ ok (last, record p { ctxs = ctxs })
]

abbrev pub push_key : Bytes → Parser → Parser
push_key key p = record p { keys = key ∷ p.keys }

-- `setValue` in a map, which pops its key.
unfoldable pub set_in_map : Value → Fields → List Value → List Bytes → Parser → Result Parser
unfolding set_field
set_in_map v fs ctxs [] p = panic
set_in_map v fs ctxs (key ∷ keys) p =
    ok (record p { ctxs = mapping (set_field key v fs) ∷ ctxs; keys = keys })

unfoldable pub set_at : Value → List Value → Parser → Result Parser
unfolding snoc set_in_map
set_at v (array vs ∷ ctxs) p = ok (record p { ctxs = array (snoc vs v) ∷ ctxs })
set_at v (mapping fs ∷ ctxs) p = set_in_map v fs ctxs p.keys p
set_at v _ p = ok p

-- `setValue`
unfoldable pub set_value : Value → Parser → Result Parser
unfolding set_at
set_value v p = set_at v p.ctxs p
