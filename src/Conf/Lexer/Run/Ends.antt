-- ===== src/Conf/Lexer/Run/Ends.antt =====
-- Runs of the lexer of conf/lex.go end, or hang in a state that waits for a quote or a parenthesis.
use gnatsd.Prelude.{
  ℕ, zero, suc, ◌+◌, ◌*◌, ◌≤◌, ◌<◌, true, false, Bytes, leb, ◌&&◌, length, ◌≡◌, refl, arith,
  Bool-cases, inl, inr, ◌∙◌,
}
use gnatsd.Conf.Lexer.{
  Unicode, IsUnicode, Lexer, Item, State, skip, ItemType, Outcome, goes, ends, panics, rune, next,
  peek, backup, lex, ignore, item_string, item_include,
}
use gnatsd.Conf.Lexer
use gnatsd.Conf.Lexer.Moves.{
  well_stacked, needs, hangs, rank_in, rank_end, measure, IsValid, Good, rune_at_end,
}
use gnatsd.Conf.Lexer.Keys.{quoted_key_body, quoted_body}
use gnatsd.Conf.Lexer.Values.{lex_map_key}
use gnatsd.Conf.Lexer.Scalars.{lex_block}
use gnatsd.Conf.Lexer.Run.{step, run, run_on, Run, finished, crashed, unfinished}
use gnatsd.Conf.Lexer.Run.Falls.{step-Good}

-- How a run with enough fuel ends: in nil, in a panic, or hanging at the end of the input.
abbrev pub Ended : Run → Type 0
Ended (finished l) = Unit
Ended (crashed l) = Unit
Ended (unfinished s l) = (hangs s ≡ true) × (length l.input ≤ l.pos)

module _ (u : Unicode) (v : IsUnicode u) where
  abbrev AtEnd : Lexer → Lexer → Type 0
  AtEnd lx l = (length l.input ≤ l.pos) × (l.items ≡ lx.items)

  next-AtEnd : (lx : Lexer) → length lx.input ≤ lx.pos → AtEnd lx (next u lx)
  unfolding next
  next-AtEnd lx h = ground arith

  peek-AtEnd : (lx : Lexer) → length lx.input ≤ lx.pos → AtEnd lx (peek u lx)
  unfolding peek next backup
  peek-AtEnd lx h = ground arith

  next-peek-AtEnd : (lx : Lexer) → length lx.input ≤ lx.pos → AtEnd lx (next u (peek u lx))
  next-peek-AtEnd lx h =
      let (p, e) = peek-AtEnd lx h in let (p', e') = next-AtEnd (peek u lx) p in (p', e' ∙ e)

  quoted_key_hang :
      (quote : ℕ) (itself behind : State) (lx : Lexer)
      → 0 < quote
      → length lx.input ≤ lx.pos
      → quoted_key_body u quote itself behind lx ≡ goes itself (next u (peek u lx))
  unfolding quoted_key_body
  quoted_key_hang quote itself behind lx q h = ground (arith, rune_at_end u v lx)

  quoted_hang :
      (quote : ℕ) (typ : ItemType) (itself : State) (lx : Lexer)
      → 0 < quote
      → length lx.input ≤ lx.pos
      → quoted_body u quote typ itself lx ≡ goes itself (next u lx)
  unfolding quoted_body
  quoted_hang quote typ itself lx q h = ground (arith, rune_at_end u v lx)

  map_key_hang :
      (lx : Lexer)
      → length lx.input ≤ lx.pos
      → lex_map_key u lx ≡ goes Lexer.map_key (next u (peek u lx))
  unfolding lex_map_key
  map_key_hang lx h = ground (arith, rune_at_end u v lx, v.nul_no_space)

  block_hang :
      (lx : Lexer) → length lx.input ≤ lx.pos → lex_block u lx ≡ goes Lexer.block (next u lx)
  unfolding lex_block
  block_hang lx h = ground (arith, rune_at_end u v lx)

  -- At the end of the input such a state returns itself, with nothing sent.
  hang_step :
      (s : State) (lx : Lexer)
      → hangs s ≡ true
      → length lx.input ≤ lx.pos
      → (l : Lexer) × (step u s lx ≡ goes s l) × AtEnd lx l
  unfolding step hangs
  hang_step Lexer.dub_quoted_key lx h e = (
    next u (peek u lx),
    quoted_key_hang b'"' _ Lexer.key_end lx (omega arith) e,
    next-peek-AtEnd lx e,
  )
  hang_step Lexer.quoted_key lx h e = (
    next u (peek u lx),
    quoted_key_hang b'\'' _ Lexer.key_end lx (omega arith) e,
    next-peek-AtEnd lx e,
  )
  hang_step Lexer.map_quoted_key lx h e = (
    next u (peek u lx),
    quoted_key_hang b'\'' _ Lexer.map_key_end lx (omega arith) e,
    next-peek-AtEnd lx e,
  )
  hang_step Lexer.map_dub_quoted_key lx h e = (
    next u (peek u lx),
    quoted_key_hang b'"' _ Lexer.map_key_end lx (omega arith) e,
    next-peek-AtEnd lx e,
  )
  hang_step Lexer.include_quoted_string lx h e =
      (next u lx, quoted_hang b'\'' item_include _ lx (omega arith) e, next-AtEnd lx e)
  hang_step Lexer.include_dub_quoted_string lx h e =
      (next u lx, quoted_hang b'"' item_include _ lx (omega arith) e, next-AtEnd lx e)
  hang_step Lexer.quoted_string lx h e =
      (next u lx, quoted_hang b'\'' item_string _ lx (omega arith) e, next-AtEnd lx e)
  hang_step Lexer.dub_quoted_string lx h e =
      (next u lx, quoted_hang b'"' item_string _ lx (omega arith) e, next-AtEnd lx e)
  hang_step Lexer.map_key lx h e = (next u (peek u lx), map_key_hang lx e, next-peek-AtEnd lx e)
  hang_step Lexer.block lx h e = (next u lx, block_hang lx e, next-AtEnd lx e)
  hang_step _ lx h e = cc

  -- Inside quotes, a block or the key of a map, at the end of the input, the lexer runs forever:
  -- however many turns it is given, it has not returned nil, and it has sent nothing more.
  pub run-hangs :
      (fuel : ℕ) (s : State) (lx : Lexer)
      → hangs s ≡ true
      → length lx.input ≤ lx.pos
      → (l : Lexer) × (run fuel u s lx ≡ unfinished s l) × AtEnd lx l
  unfolding run
  run-hangs zero s lx h e = (lx, refl, (e, refl))
  run-hangs (suc fuel) s lx h e =
      let (l, st, (p, i)) = hang_step s lx h e in
      let (l', r, (p', i')) = run-hangs fuel s l h p in (l', rw (st, run) r, (p', i' ∙ i))

  run_on-Ended :
      (s : State) (lx : Lexer) (continued : State → Lexer → Run) (o : Outcome)
      → Good s lx o
      → (hangs s && leb (length lx.input) lx.pos) ≡ false
      → ((s' : State) (l : Lexer)
          → IsValid s' l
          → measure s' l < measure s lx
          → Ended (continued s' l))
      → Ended (run_on continued lx o)
  run_on-Ended s lx continued (goes s' l) (a, b, c, d, e, f) h k =
      k s' l record { ordered = a; inside = b; stacked = c; enough = d } (ground (arith, h, f))
  run_on-Ended s lx continued (ends l) g h k = tt
  run_on-Ended s lx continued panics g h k = tt

  run-Ended :
      (fuel : ℕ) (s : State) (lx : Lexer)
      → IsValid s lx
      → measure s lx < fuel
      → Ended (run fuel u s lx)
  unfolding run
  run-Ended zero s lx h m = absurd (omega arith)
  run-Ended (suc fuel) s lx h m = elim (Bool-cases (hangs s && leb (length lx.input) lx.pos)) [
    | inl t ↦
        let at_end : (hangs s ≡ true) × (length lx.input ≤ lx.pos) =
          (ground (arith, t), ground (arith, t)) in
        let (l, r, (p, _)) = run-hangs (suc fuel) s lx at_end.0 at_end.1 in rw r (at_end.0, p)
    | inr t ↦
        run_on-Ended s lx (run fuel u) (step u s lx) (step-Good u v s lx h) t
          (λ s' l w less. run-Ended fuel s' l w (omega arith))
  ]

  -- Lexing a file of n bytes ends within 10 n + 2 turns, in nil, in a panic, or hanging.
  pub lex-Ended : (input : Bytes) → Ended (run (10 * length input + 2) u Lexer.top (lex input))
  unfolding lex needs well_stacked rank_in rank_end
  lex-Ended input =
      run-Ended (10 * length input + 2) Lexer.top (lex input)
        record { ordered = omega arith; inside = omega arith; stacked = refl; enough = omega arith }
        (ground arith)
