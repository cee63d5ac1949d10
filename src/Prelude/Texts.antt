-- ===== src/Prelude/Texts.antt =====
-- Lengths of texts.
use Prim.Native.Nat.{ℕ, suc}
use Prim.Native.String.{String}

-- The characters of a text: its bytes where it is ASCII.
unfoldable pub text_length : String → ℕ
text_length String.[] = 0
text_length (String.◌∷◌ c s) = suc (text_length s)
