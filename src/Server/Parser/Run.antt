-- ===== src/Server/Parser/Run.antt =====
-- Runs of the loop of `parse`: single turns, verbs and arguments, from a position that is known by
-- the bytes that are left there.
use gnatsd.Prelude.{ℕ, suc, ◌+◌, Bytes, ◌≡◌, drop, [], ◌∷◌}
use gnatsd.Prelude.Drop.{get_elem?-drop, get_elem?-drop_end}
use gnatsd.Server.Parser.State.{Parse, next, jump, Config}
use gnatsd.Server.Parser.Loop.{turn, loop, finish}

module _ (cfg : Config) (buf : Bytes) where
  pub loop-next :
      (f f' i b : ℕ) (rest : Bytes) (p q : Parse)
      → f ≡ suc f'
      → drop i buf ≡ b ∷ rest
      → turn cfg buf i b p p.state ≡ next q
      → loop f cfg buf i p ≡ loop f' cfg buf (i + 1) q
  unfolding loop
  loop-next f f' i b rest p q e d t = rw (e, get_elem?-drop i buf d, loop, t)

  pub loop-jump :
      (f f' i b j : ℕ) (rest : Bytes) (p q : Parse)
      → f ≡ suc f'
      → drop i buf ≡ b ∷ rest
      → turn cfg buf i b p p.state ≡ jump q j
      → loop f cfg buf i p ≡ loop f' cfg buf j q
  unfolding loop
  loop-jump f f' i b j rest p q e d t = rw (e, get_elem?-drop i buf d, loop, t)

  pub loop-end :
      (f f' i : ℕ) (p : Parse)
      → f ≡ suc f'
      → drop i buf ≡ []
      → loop f cfg buf i p ≡ finish cfg buf p
  unfolding loop
  loop-end f f' i p e d = rw (e, get_elem?-drop_end i buf d, loop)
