-- ===== src/Base/Reads.antt =====
-- Readers (`io.Reader`) and calls of them.
use Prim.Native.Nat.{ℕ}
use mathlib.Core.Path.{◌≡◌, ◌∙◌, refl, ap}
use mathlib.Core.Logic.{◌⊎◌, inl, inr}
use mathlib.Core.List.{List, [], ◌∷◌, ◌++◌}
use mathlib.Core.Option.{Option, none, some}
use chproxy.Base.Lists.{take, drop}
use chproxy.Base.Strings.{Text}
use chproxy.Base.Pieces.{take-drop}

-- What reading gives besides bytes: the end of the stream, or an error.
pub data Stop : Type 0 where
  at_end read_failed : Stop

module _ {ℓ κ} {R : Type ℓ} {Call : Type κ} (read : Call → R → Stop ⊎ (Text × R)) where
  -- Calls of `Read` in a row: what was read, and why it stopped, if the calls were enough.
  unfoldable pub read_calls : List Call → R → Text × Option Stop
  read_calls [] r = ([], none)
  read_calls (c ∷ cs) r = elim (read c r) [
    | inl stop ↦ ([], some stop)
    | inr (t, r') ↦ let (more, stop) = read_calls cs r' in (t ++ more, stop)
  ]

  pub read_calls-more :
      (c : Call) (cs : List Call) (r r' : R) {t more : Text} {stop : Option Stop}
      → read c r ≡ inr (t, r')
      → read_calls cs r' ≡ (more, stop)
      → read_calls (c ∷ cs) r ≡ (t ++ more, stop)
  unfolding read_calls
  read_calls-more c cs r r' h g = rw (read_calls, h, g) refl

  pub read_calls-stop :
      (c : Call) (cs : List Call) (r : R) {stop : Stop}
      → read c r ≡ inl stop
      → read_calls (c ∷ cs) r ≡ ([], some stop)
  unfolding read_calls
  read_calls-stop c cs r h = rw (read_calls, h) refl

  -- A piece of what is left, and then the rest of it.
  pub read_calls-piece :
      (c : Call) (cs : List Call) (r r' : R) (n : ℕ) (t more : Text) {stop : Option Stop}
      → read c r ≡ inr (take n t, r')
      → read_calls cs r' ≡ (drop n t ++ more, stop)
      → read_calls (c ∷ cs) r ≡ (t ++ more, stop)
  read_calls-piece c cs r r' n t more {stop} h g =
      read_calls-more c cs r r' h g ∙ ap (λ x. (x, stop)) (take-drop n t more)
