-- ===== src/Conf/Parser/Files.antt =====
-- conf/parse.go: `parse`, `Parse` and `ParseFile`, with includes and variables of the environment.
use gnatsd.Prelude.{
  ℕ, zero, suc, ◌+◌, ◌*◌, List, [], ◌∷◌, ◌++◌, Bytes, Option, none, some, codes, length,
}
use gnatsd.Conf.Lexer.{Unicode, Item, lex}
use gnatsd.Conf.Lexer
use gnatsd.Conf.Lexer.Run.{run, Run, finished, crashed, unfinished}
use gnatsd.Conf.Parser.{
  Value, mapping, end, Fields, get_field, Parser, Result, ok, err, panic, stuck,
}
use gnatsd.Conf.Parser.Items.{Libs, Processed, done, more, failed, panicked, lost, process}

-- The environment and the file system: `os.LookupEnv`, `ioutil.ReadFile`, `filepath.Dir`,
-- `filepath.Join`.
pub record System : Type 0 where
  pub lookup_env : Bytes → Option Bytes
  pub read_file : Bytes → Option Bytes
  pub dir : Bytes → Bytes
  pub join : Bytes → Bytes → Bytes

-- `p.mapping`, which stays at the bottom of the stack.
unfoldable pub bottom : List Value → Fields
bottom [] = end
bottom (mapping fs ∷ []) = fs
bottom (v ∷ ctxs) = bottom ctxs

-- What `parse` returns, by what follows the items that there are: a call of the nil state, the panic
-- of the lexer, or its hanging.
abbrev pub parsed : Result Fields → Processed → Result Fields
parsed behind (done p) = ok (bottom p.ctxs)
parsed behind (more p) = behind
parsed behind failed = err
parsed behind panicked = panic
parsed behind lost = stuck

abbrev pub initial : Bytes → Parser
initial fp = record { ctxs = mapping end ∷ []; keys = []; fp = fp }

abbrev pub parse_run : (List Item → Processed) → Run → Result Fields
parse_run processed (finished l) = parsed panic (processed l.items)
parse_run processed (crashed l) = parsed panic (processed l.items)
parse_run processed (unfinished s l) = parsed stuck (processed l.items)

-- The value of the variable that `Parse` was given.
abbrev pub env_value : Result Fields → Result (Option Value)
env_value (ok m) = ok (get_field (codes "pk") m)
env_value err = ok none
env_value panic = panic
env_value stuck = stuck

-- `parse`. The first argument is the depth of the calls of `Parse` and `ParseFile` within; the
-- fuel of the lexer is what lexing needs unless it hangs.
unfoldable pub parse : ℕ → Unicode → Libs → System → Bytes → Bytes → Result Fields
unfolding run process lex
parse zero u libs sys text fp = stuck
parse (suc depth) u libs sys text fp =
    parse_run
      (λ items.
        process libs
          (λ name. elim (sys.lookup_env name) [
            | none ↦ ok none
            | some v ↦ env_value (parse depth u libs sys (codes "pk=" ++ v) [])
          ])
          (λ name. elim (sys.read_file (sys.join fp name)) [
            | none ↦ err
            | some text' ↦ parse depth u libs sys text' (sys.dir (sys.join fp name))
          ])
          items (initial fp))
      (run (10 * length text + 2) u Lexer.top (lex text))

-- `ParseFile`
unfoldable pub parse_file : ℕ → Unicode → Libs → System → Bytes → Result Fields
unfolding parse
parse_file depth u libs sys path = elim (sys.read_file path) [
  | none ↦ err
  | some text ↦ parse depth u libs sys text (sys.dir path)
]
