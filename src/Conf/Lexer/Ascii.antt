-- ===== src/Conf/Lexer/Ascii.antt =====
-- How `next` of conf/lex.go reads ASCII bytes.
use gnatsd.Prelude.{
  ℕ, ◌+◌, ◌<◌, false, ◌∷◌, Bytes, leb, length, drop, get_elem?, some, ◌≡◌, refl, sym, ◌∙◌, ap,
  arith,
}
use gnatsd.Prelude.Drop.{get_elem?-drop, drop-next}
use gnatsd.Conf.Lexer.{Unicode, IsUnicode, Lexer, rune, next}
use gnatsd.Conf.Lexer.Moves.{drop-cons, get_elem?-lt, get_elem?-head}

module _ (u : Unicode) (v : IsUnicode u) where
  -- A read inside the input, by the bytes that are left.
  next-cons :
      (lx : Lexer) (b : ℕ) (bs : Bytes)
      → drop lx.pos lx.input ≡ b ∷ bs
      → lx.pos < length lx.input
      → (rune u lx ≡ u.rune_of (b ∷ bs)) × ((next u lx).width ≡ u.width_of (b ∷ bs))
  unfolding rune next
  next-cons lx b bs e h =
      let inside : leb (length lx.input) lx.pos ≡ false = ground (arith, h) in
      (rw (inside, e) refl, rw (inside, e) refl)

  pub width_small :
      (lx : Lexer) → lx.pos < length lx.input → rune u lx < 128 → (next u lx).width ≡ 1
  width_small lx h k =
      let (b, bs, e) = drop-cons lx.pos lx.input h in
      let (r, w) = next-cons lx b bs e h in
      let ascii = v.ascii_byte b bs (omega (arith, r)) in
      w ∙ v.ascii_width b bs (omega (arith, r, ascii))

  pub byte_of_rune :
      (lx : Lexer)
      → lx.pos < length lx.input
      → rune u lx < 128
      → get_elem? lx.input lx.pos ≡ some (rune u lx)
  byte_of_rune lx h k =
      let (b, bs, e) = drop-cons lx.pos lx.input h in
      let (r, w) = next-cons lx b bs e h in
      get_elem?-drop lx.pos lx.input e ∙ ap some (sym (r ∙ v.ascii_byte b bs (omega (arith, r))))

  pub byte_width :
      (lx : Lexer) (c : ℕ) → get_elem? lx.input lx.pos ≡ some c → c < 128 → (next u lx).width ≡ 1
  byte_width lx c g k =
      let h = get_elem?-lt lx.pos lx.input g in
      let (b, bs, e) = drop-cons lx.pos lx.input h in
      let same = get_elem?-head lx.pos lx.input g e in
      (next-cons lx b bs e h).1 ∙ v.ascii_width b bs (omega (arith, same))

  -- Before an ASCII byte there is no rune of more than one byte.
  pub width_before :
      (lx : Lexer) (c : ℕ)
      → get_elem? lx.input (lx.pos + 1) ≡ some c
      → c < 128
      → (next u lx).width ≡ 1
  width_before lx c g k =
      let inside = get_elem?-lt (lx.pos + 1) lx.input g in
      let (b, bs, e) = drop-cons lx.pos lx.input (omega (arith, inside)) in
      let (d, ds, e') = drop-cons (lx.pos + 1) lx.input inside in
      let same = get_elem?-head (lx.pos + 1) lx.input g e' in
      let tail : bs ≡ d ∷ ds = sym (drop-next lx.pos lx.input e) ∙ e' in
      (next-cons lx b bs e (omega (arith, inside))).1
      ∙ ap (λ t. u.width_of (b ∷ t)) tail
      ∙ v.short b d ds (omega (arith, same))
