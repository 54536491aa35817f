-- ===== src/Conf/Lexer/Moves.antt =====
-- What the moves of conf/lex.go over its input do: `next`, `peek`, `backup` and `pop`.
use gnatsd.Prelude.{
  ℕ, zero, suc, ◌+◌, ◌-◌, ◌*◌, ◌≤◌, ◌<◌, Bool, true, false, List, [], ◌∷◌, Bytes, ltb, leb, ◌==◌,
  ◌||◌, ◌&&◌, if◌then◌else◌, length, drop, get_elem?, none, some, ◌≡◌, refl, arith, inl, inr, ap,
  Bool-cases, ◌∙◌,
}
use gnatsd.Prelude.Drop.{drop-length}
use gnatsd.Conf.Lexer.{
  Unicode, IsUnicode, Lexer, State, skip, Outcome, goes, ends, panics, rune, next, peek, backup,
  pop, pop_from, eof,
}
use gnatsd.Conf.Lexer

-- The states behind a value; only these wait on the stack, but for what is below a comment.
unfoldable pub value_end : State → Bool
value_end Lexer.top_value_end = true
value_end Lexer.array_value_end = true
value_end Lexer.map_value_end = true
value_end _ = false

abbrev pub value_ends : List State → Bool
value_ends [] = true
value_ends (s ∷ stack) = value_end s && value_ends stack

-- What a comment returns to.
unfoldable pub returns : State → Bool
returns Lexer.top = true
returns Lexer.top_value_end = true
returns Lexer.array_value = true
returns Lexer.array_value_end = true
returns Lexer.map_key_start = true
returns Lexer.map_value_end = true
returns _ = false

abbrev pub comment_ends : List State → Bool
comment_ends [] = false
comment_ends (s ∷ stack) = returns s && value_ends stack

unfoldable pub well_stacked : State → List State → Bool
well_stacked Lexer.comment stack = comment_ends stack
well_stacked Lexer.comment_start stack = comment_ends stack
well_stacked (skip s) stack = well_stacked s stack
well_stacked _ stack = value_ends stack

-- A block has its parenthesis before its start.
unfoldable pub needs : State → ℕ
needs Lexer.block = 1
needs (skip s) = needs s
needs _ = 0

-- The states that stay as they are at the end of the input.
unfoldable pub hangs : State → Bool
hangs Lexer.dub_quoted_key = true
hangs Lexer.quoted_key = true
hangs Lexer.include_quoted_string = true
hangs Lexer.include_dub_quoted_string = true
hangs Lexer.map_quoted_key = true
hangs Lexer.map_dub_quoted_key = true
hangs Lexer.map_key = true
hangs Lexer.quoted_string = true
hangs Lexer.dub_quoted_string = true
hangs Lexer.block = true
hangs _ = false

-- How many turns can follow with nothing read, before the end of the input and at it.
unfoldable pub rank_in : State → ℕ
rank_in Lexer.top = 1
rank_in Lexer.string = 2
rank_in Lexer.number = 2
rank_in Lexer.convenient_number = 2
rank_in Lexer.neg_number = 2
rank_in Lexer.float = 2
rank_in Lexer.ip_addr = 2
rank_in Lexer.include_string = 2
rank_in Lexer.array_end = 2
rank_in Lexer.map_end = 2
rank_in Lexer.include_value = 3
rank_in Lexer.include_start = 4
rank_in Lexer.value = 3
rank_in Lexer.array_value = 4
rank_in Lexer.map_value = 4
rank_in Lexer.map_key_end = 5
rank_in Lexer.map_key = 6
rank_in Lexer.key_end = 4
rank_in Lexer.key = 5
rank_in Lexer.comment = 5
rank_in Lexer.comment_start = 6
rank_in (skip s) = rank_in s + 1
rank_in _ = 0

unfoldable pub rank_end : State → ℕ
rank_end Lexer.top_value_end = 1
rank_end Lexer.key = 1
rank_end Lexer.key_start = 2
rank_end Lexer.map_key_start = 1
rank_end Lexer.string = 2
rank_end Lexer.number = 2
rank_end Lexer.convenient_number = 2
rank_end Lexer.neg_number = 2
rank_end Lexer.float = 2
rank_end Lexer.ip_addr = 2
rank_end Lexer.include_string = 2
rank_end Lexer.array_end = 2
rank_end Lexer.map_end = 2
rank_end Lexer.include_value = 3
rank_end Lexer.include_start = 4
rank_end Lexer.value = 3
rank_end Lexer.array_value = 4
rank_end Lexer.map_value = 4
rank_end Lexer.map_key_end = 5
rank_end Lexer.comment = 5
rank_end Lexer.comment_start = 6
rank_end (skip s) = rank_end s + 1
rank_end _ = 0

-- The turns that can follow at most, unless the lexer hangs.
abbrev pub measure : State → Lexer → ℕ
measure s lx =
    let left = length lx.input - lx.pos in if left == 0 then rank_end s else rank_in s + 10 * left

pub record IsValid (s : State) (lx : Lexer) : Type 0 where
  pub ordered : lx.start ≤ lx.pos
  pub inside : lx.pos ≤ length lx.input
  pub stacked : well_stacked s lx.stack ≡ true
  pub enough : needs s ≤ lx.start

-- What one turn may do at a valid lexer: it goes on, nearer to its end or hanging at the end of the
-- input; or it ends; or it panics, for a string at the end of the input.
abbrev pub Good : State → Lexer → Outcome → Type 0
Good s lx (goes s' l) =
    (l.start ≤ l.pos)
    × (l.pos ≤ length l.input)
    × (well_stacked s' l.stack ≡ true)
    × (needs s' ≤ l.start)
    × (l.input ≡ lx.input)
    × ((hangs s && leb (length lx.input) lx.pos) || ltb (measure s' l) (measure s lx) ≡ true)
Good s lx (ends l) = Unit
Good s lx panics = (s ≡ Lexer.string) × (length lx.input ≤ lx.start)

value_end-ranks :
    (s : State) (stack : List State)
    → value_end s ≡ true
    → (rank_in s ≡ 0) × (rank_end s ≤ 1) × (needs s ≡ 0) × (well_stacked s stack ≡ value_ends stack)
unfolding value_end rank_in rank_end needs well_stacked
value_end-ranks s stack h = ground arith

returns-ranks :
    (s : State) (stack : List State)
    → returns s ≡ true
    → (rank_in s ≤ 4) × (rank_end s ≤ 4) × (needs s ≡ 0) × (well_stacked s stack ≡ value_ends stack)
unfolding returns rank_in rank_end needs well_stacked
returns-ranks s stack h = ground arith

-- After `next`: the position has moved by the width, which is 0 at the end of the input only.
pub record Moved (lx l : Lexer) : Type 0 where
  pub same_input : l.input ≡ lx.input
  pub same_start : l.start ≡ lx.start
  pub same_stack : l.stack ≡ lx.stack
  pub moved : l.pos ≡ lx.pos + l.width
  pub moved_inside : l.pos ≤ length lx.input
  pub not_moved : length lx.input ≤ lx.pos → l.width ≡ 0
  pub has_moved : lx.pos < length lx.input → 1 ≤ l.width

pub drop-cons : (i : ℕ) (xs : Bytes) → i < length xs → (b : ℕ) × (bs : Bytes) × (drop i xs ≡ b ∷ bs)
drop-cons i [] h = absurd (omega arith)
drop-cons zero (x ∷ xs) h = (x, xs, refl)
drop-cons (suc i) (x ∷ xs) h = drop-cons i xs (omega arith)

module _ (u : Unicode) (v : IsUnicode u) where
  pub next-Moved : (lx : Lexer) → lx.pos ≤ length lx.input → Moved lx (next u lx)
  unfolding next
  next-Moved lx h = elim (Bool-cases (leb (length lx.input) lx.pos)) [
    | inl t ↦ ground (arith, t)
    | inr t ↦
        let (b, bs, e) = drop-cons lx.pos lx.input (ground (arith, t)) in
        let size = drop-length lx.pos lx.input bs b e in
        let w : u.width_of (drop lx.pos lx.input) ≡ u.width_of (b ∷ bs) = ap u.width_of e in
        ground (arith, t, v.some_width b bs, v.width_inside b bs, w, size)
  ]

  pub rune_at_end : (lx : Lexer) → length lx.input ≤ lx.pos → rune u lx ≡ 0
  unfolding rune
  rune_at_end lx h = ground arith

-- The position, the start, the input and the stack after `backup`.
pub backup_fields :
    (l : Lexer)
    → ((backup l).pos ≡ l.pos - l.width)
      × ((backup l).start ≡ l.start)
      × ((backup l).input ≡ l.input)
      × ((backup l).stack ≡ l.stack)
      × ((backup l).width ≡ l.width)
unfolding backup
backup_fields l = (refl, refl, refl, refl, refl)

pub peek_fields :
    (u : Unicode) (lx : Lexer)
    → IsUnicode u
    → lx.pos ≤ length lx.input
    → ((peek u lx).pos ≡ lx.pos)
      × ((peek u lx).start ≡ lx.start)
      × ((peek u lx).input ≡ lx.input)
      × ((peek u lx).stack ≡ lx.stack)
unfolding peek
peek_fields u lx v h = ground (arith, backup_fields (next u lx), next-Moved u v lx)

-- A return to what waits on the stack.
pub pop-Good :
    (s : State) (lx l : Lexer)
    → l.start ≤ l.pos
    → l.pos ≤ length l.input
    → l.input ≡ lx.input
    → value_ends l.stack ≡ true
    → lx.pos ≤ l.pos
    → (l.pos ≤ lx.pos → (1 ≤ rank_in s) × (2 ≤ rank_end s))
    → Good s lx (pop l)
unfolding pop pop_from
pop-Good s lx l a b c d e f = from l.stack d
  where
    from : (stack : List State) → value_ends stack ≡ true → Good s lx (pop_from stack l)
    from [] d = tt
    from (t ∷ stack) d = ground (arith, value_end-ranks t stack, a, b, c, e, f)

pub comment_pop-Good :
    (lx l : Lexer)
    → l.start ≤ l.pos
    → l.input ≡ lx.input
    → l.pos ≡ lx.pos
    → lx.pos ≤ length lx.input
    → comment_ends l.stack ≡ true
    → Good Lexer.comment lx (pop l)
unfolding pop pop_from rank_in rank_end
comment_pop-Good lx l a b c d e = from l.stack e
  where
    from :
        (stack : List State) → comment_ends stack ≡ true → Good Lexer.comment lx (pop_from stack l)
    from [] e = cc
    from (t ∷ stack) e = ground (arith, returns-ranks t stack, a, b, c, d)

pub get_elem?-length : (i : ℕ) (xs : Bytes) → get_elem? xs i ≡ none → length xs ≤ i
get_elem?-length i [] h = omega arith
get_elem?-length zero (x ∷ xs) h = cc
get_elem?-length (suc i) (x ∷ xs) h = omega (arith, get_elem?-length i xs h)

pub get_elem?-lt : (i : ℕ) (xs : Bytes) {b : ℕ} → get_elem? xs i ≡ some b → i < length xs
get_elem?-lt i [] h = cc
get_elem?-lt zero (x ∷ xs) h = omega arith
get_elem?-lt (suc i) (x ∷ xs) h = omega (arith, get_elem?-lt i xs h)

pub get_elem?-head :
    (i : ℕ) (xs : Bytes) {b c : ℕ} {bs : Bytes}
    → get_elem? xs i ≡ some b
    → drop i xs ≡ c ∷ bs
    → c ≡ b
get_elem?-head i [] h e = cc
get_elem?-head zero (x ∷ xs) h e = cc
get_elem?-head (suc i) (x ∷ xs) h e = get_elem?-head i xs h e

-- An ASCII byte is the rune that is read there.
pub rune_of_byte :
    (u : Unicode) (lx : Lexer) (b : ℕ)
    → IsUnicode u
    → get_elem? lx.input lx.pos ≡ some b
    → b < 128
    → rune u lx ≡ b
unfolding rune
rune_of_byte u lx b v h k = elim (Bool-cases (leb (length lx.input) lx.pos)) [
  | inl t ↦ absurd (ground (arith, t, get_elem?-lt lx.pos lx.input h))
  | inr t ↦
      let (c, bs, e) = drop-cons lx.pos lx.input (ground (arith, t)) in
      let same = get_elem?-head lx.pos lx.input h e in
      rw (t, e) (v.ascii_rune c bs (omega (arith, same)) ∙ same)
]
