-- ===== src/Conf/Lexer/Run/BlockSteps.antt =====
-- One turn of the lexer of conf/lex.go at a valid state, for blocks and dates.
use gnatsd.Prelude.{
  ℕ, ◌+◌, ◌≤◌, ◌<◌, Bool, true, List, [], ◌∷◌, ltb, ◌&&◌, length, ◌≡◌, refl, arith, some, get_elem?,
  codes, ap, ap₂, ◌∙◌,
}
use gnatsd.Conf.Lexer.{
  Unicode, IsUnicode, Lexer, State, skip, Outcome, goes, ends, panics, rune, next, peek, backup,
  pop, eof, ItemType, emitted, ignore, push, item_datetime, item_string,
}
use gnatsd.Conf.Lexer
use gnatsd.Conf.Lexer.Moves.{
  well_stacked, value_end, returns, needs, hangs, rank_in, rank_end, value_ends, IsValid, Good,
  next-Moved, rune_at_end, backup_fields, pop-Good,
}
use gnatsd.Conf.Lexer.Ascii.{width_small, byte_of_rune, byte_width, width_before}
use gnatsd.Conf.Lexer.Scalars.{lex_block, lex_date_after_year, date_formats}

module _ (u : Unicode) (v : IsUnicode u) where
  abbrev none_nul : List ℕ → Bool
  none_nul [] = true
  none_nul (f ∷ formats) = ltb 0 f && none_nul formats

  date_formats-Good :
      (formats : List ℕ) (lx l : Lexer)
      → none_nul formats ≡ true
      → l.start ≤ l.pos
      → l.pos ≤ length l.input
      → l.input ≡ lx.input
      → value_ends l.stack ≡ true
      → lx.pos ≤ l.pos
      → lx.pos < l.pos + length formats
      → Good Lexer.date_after_year lx (date_formats u formats l)
  unfolding date_formats
  date_formats-Good [] lx l n a b c d e f =
      ground (arith, pop-Good Lexer.date_after_year lx (emitted item_datetime l))
  date_formats-Good (g ∷ formats) lx l n a b c d e f = ground (
    arith,
    next-Moved u v l,
    rune_at_end u v l,
    v.nul_no_digit,
    date_formats-Good formats lx (next u l),
  )

  pub lex_date_after_year-Good :
      (lx : Lexer)
      → IsValid Lexer.date_after_year lx
      → Good Lexer.date_after_year lx (lex_date_after_year u lx)
  unfolding lex_date_after_year well_stacked
  lex_date_after_year-Good lx h =
      date_formats-Good (codes "00-00T00:00:00Z") lx lx refl h.ordered h.inside refl h.stacked
        (omega arith) (omega arith)

  -- The moves of `lexBlock` at a parenthesis: back over it and the byte before it, and over both again.
  closing_moves :
      (lx : Lexer)
      → 1 ≤ lx.pos
      → lx.pos ≤ length lx.input
      → rune u lx ≡ b')'
      → (let l = next u lx in
          let b = backup (backup l) in
          let l2 = next u b in
          let l3 = next u l2 in
          (lx.pos < length lx.input)
          × (l.width ≡ 1)
          × (l.pos ≡ lx.pos + 1)
          × (l3.pos ≡ lx.pos + 1)
          × (l3.start ≡ lx.start)
          × (l3.input ≡ lx.input)
          × (l3.stack ≡ lx.stack))
  closing_moves lx p q r =
      let l = next u lx in
      let b = backup (backup l) in
      let l2 = next u b in
      let inside : lx.pos < length lx.input = ground (arith, r, rune_at_end u v lx) in
      let m = next-Moved u v lx q in
      let w = width_small u v lx inside (omega (arith, r)) in
      let here : get_elem? lx.input lx.pos ≡ some b')' =
        byte_of_rune u v lx inside (omega (arith, r)) ∙ ap some r in
      let f1 = backup_fields l in
      let f2 = backup_fields (backup l) in
      let input_b : b.input ≡ lx.input = f2.2 ∙ f1.2 ∙ m.same_input in
      let pos_b : b.pos + 1 ≡ lx.pos = omega (arith, m.moved, w, f1.0, f1.4, f2.0) in
      let before : get_elem? b.input (b.pos + 1) ≡ some b')' = ap₂ get_elem? input_b pos_b ∙ here in
      let w_b = width_before u v b b')' before (omega arith) in
      let m2 = next-Moved u v b (omega (arith, ap length input_b)) in
      let pos2 : l2.pos ≡ lx.pos = omega (arith, m2.moved, w_b, pos_b) in
      let input2 : l2.input ≡ lx.input = m2.same_input ∙ input_b in
      let here2 : get_elem? l2.input l2.pos ≡ some b')' = ap₂ get_elem? input2 pos2 ∙ here in
      let w2 = byte_width u v l2 b')' here2 (omega arith) in
      let m3 = next-Moved u v l2 (omega (arith, ap length input2)) in
      (
        inside,
        w,
        omega (arith, m.moved, w),
        omega (arith, m3.moved, w2),
        m3.same_start ∙ m2.same_start ∙ f2.1 ∙ f1.1 ∙ m.same_start,
        m3.same_input ∙ input2,
        m3.same_stack ∙ m2.same_stack ∙ f2.3 ∙ f1.3 ∙ m.same_stack,
      )

  pub lex_block-Good : (lx : Lexer) → IsValid Lexer.block lx → Good Lexer.block lx (lex_block u lx)
  unfolding lex_block well_stacked value_end returns needs hangs rank_in rank_end
  lex_block-Good lx h =
      let l = next u lx in
      let b = backup (backup l) in
      let l3 = next u (next u b) in
      let l4 = next u l3 in
      let e = emitted item_string (backup (backup l4)) in
      ground (
        arith,
        next-Moved u v lx,
        rune_at_end u v lx,
        closing_moves lx,
        next-Moved u v l3,
        rune_at_end u v l3,
        width_small u v l3,
        backup_fields l4,
        backup_fields (backup l4),
        next-Moved u v e,
        pop-Good Lexer.block lx (ignore (next u e)),
      )
