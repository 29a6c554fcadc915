-- ===== src/Common/Whitespace.antt =====
-- White space and lines, as the standard library has them.
use Prim.Native.Nat.{ℕ}
use mathlib.Core.Bool.{Bool, ◌||◌}
use mathlib.Core.List.{List, [], ◌∷◌, reverse}
use yamlrocks.Common.Chars.{Text, split}
use yamlrocks.Common.Tests.{between, ◌==◌, if◌then◌else◌}

-- `char::is_whitespace`
unfoldable pub is_whitespace : ℕ → Bool
is_whitespace c =
    between 0x09 0x0d c
    || (c == 0x20
        || (c == 0x85
            || (c == 0xa0
                || (c == 0x1680
                    || (between 0x2000 0x200a c
                        || (c == 0x2028
                            || (c == 0x2029 || (c == 0x202f || (c == 0x205f || c == 0x3000)))))))))

abbrev pub trim_start : Text → Text
trim_start [] = []
trim_start (c ∷ cs) = if is_whitespace c then trim_start cs else c ∷ cs

-- `str::trim`
abbrev pub trim : Text → Text
trim s = reverse (trim_start (reverse (trim_start s)))

abbrev strip_return : Text → Text
strip_return [] = []
strip_return (c ∷ cs) = if c == b'\r' then cs else c ∷ cs

-- `str::lines`, with an empty line behind the last break, which the loop passes over
abbrev pub lines : Text → List Text
lines s = each (split b'\n' s)
  where
    each : List Text → List Text
    each [] = []
    each (l ∷ ls) = reverse (strip_return (reverse l)) ∷ each ls
