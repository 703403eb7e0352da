-- ===== src/Prelude/Ascii.antt =====
-- ASCII letters in Go strings.
use Prim.Native.Nat.{ℕ, ◌+◌}
use mathlib.Core.Bool.{Bool, ◌&&◌}
use mathlib.Core.List.{map}
use hinkal_go.Prelude.Tests.{Text, leb, text_beq, if◌then◌else◌}

abbrev pub lower_byte : ℕ → ℕ
lower_byte c = if leb 65 c && leb c 90 then c + 32 else c

-- `strings.ToLower`, of ASCII text.
abbrev pub to_lower : Text → Text
to_lower = map lower_byte

-- `strings.EqualFold`, of ASCII text.
unfoldable pub equal_fold : Text → Text → Bool
equal_fold a b = text_beq (to_lower a) (to_lower b)
