-- ===== src/Base/Text.antt =====
-- Go's strings, as lists of bytes, with the functions of package strings that the program calls.
use Prim.Native.Nat.{ℕ, zero, suc}
use Prim.Native.Char.{code}
use Prim.Native.String.{String}
use mathlib.Core.Path.{◌≡◌, refl}
use mathlib.Core.Logic.{◌↔◌}
use mathlib.Core.Bool.{Bool, true, false, ◌&&◌, ◌||◌}
use mathlib.Core.List.{List, [], ◌∷◌, reverse}
use native.Mathlib.Omega.{arith}
use mango_hub.Base.Lists.{length, drop}
use mango_hub.Base.Tests.{◌==◌, leb, if◌then◌else◌}

abbrev pub Bytes : Type 0
Bytes = List ℕ

-- A literal: its code points, which are its bytes where it is ASCII.
abbrev pub codes : String → Bytes
codes String.[] = []
codes (String.◌∷◌ c s) = code c ∷ codes s

-- `a == b` on strings.
unfoldable pub eqb : Bytes → Bytes → Bool
eqb [] [] = true
eqb (a ∷ as') (b ∷ bs) = a == b && eqb as' bs
eqb _ _ = false

pub eqb_refl : (s : Bytes) → eqb s s ≡ true
unfolding eqb
eqb_refl [] = refl
eqb_refl (a ∷ s) = ground (arith, eqb_refl s)

pub eqb→eq : (s t : Bytes) → eqb s t ≡ true → s ≡ t
unfolding eqb
eqb→eq [] [] h = refl
eqb→eq [] (b ∷ t) h = cc
eqb→eq (a ∷ s) [] h = cc
eqb→eq (a ∷ s) (b ∷ t) h = ground (arith, eqb→eq s t)

pub eqb_iff : (s t : Bytes) → (eqb s t ≡ true) ↔ (s ≡ t)
eqb_iff s t = (eqb→eq s t, λ e. subst_eqb e)
  where
    subst_eqb : s ≡ t → eqb s t ≡ true
    subst_eqb e = rw e (eqb_refl t)

-- strings.HasPrefix
unfoldable pub has_prefix : Bytes → Bytes → Bool
has_prefix s [] = true
has_prefix [] (b ∷ t) = false
has_prefix (a ∷ s) (b ∷ t) = a == b && has_prefix s t

-- strings.IndexByte, by the test that the program makes of it: is the byte there?
unfoldable pub contains_byte : Bytes → ℕ → Bool
contains_byte [] c = false
contains_byte (a ∷ s) c = a == c || contains_byte s c

-- The width of the white-space character (unicode.IsSpace) that a text in UTF-8 begins with, 0 if
-- it begins with none.
unfoldable pub space_width : Bytes → ℕ
space_width (c ∷ d ∷ e ∷ s) =
    if c == 32 || leb 9 c && leb c 13
    then 1
    else if c == 0xc2 && (d == 0x85 || d == 0xa0)
    then 2
    else if c == 0xe1 && d == 0x9a && e == 0x80
        || c == 0xe2
          && (d == 0x80 && (leb 0x80 e && leb e 0x8a || e == 0xa8 || e == 0xa9 || e == 0xaf)
              || d == 0x81 && e == 0x9f)
        || c == 0xe3 && d == 0x80 && e == 0x80
    then 3
    else 0
space_width (c ∷ d ∷ []) =
    if c == 32 || leb 9 c && leb c 13
    then 1
    else if c == 0xc2 && (d == 0x85 || d == 0xa0)
    then 2
    else 0
space_width (c ∷ []) = if c == 32 || leb 9 c && leb c 13 then 1 else 0
space_width [] = 0

-- The same for the character that a text ends with; the text is given from its end.
unfoldable pub space_width_back : Bytes → ℕ
unfolding space_width
space_width_back (c ∷ d ∷ e ∷ s) =
    if 0 == space_width (c ∷ [])
    then if space_width (d ∷ c ∷ []) == 2
      then 2
      else if space_width (e ∷ d ∷ c ∷ []) == 3
      then 3
      else 0
    else 1
space_width_back (c ∷ d ∷ []) =
    if 0 == space_width (c ∷ []) then if space_width (d ∷ c ∷ []) == 2 then 2 else 0 else 1
space_width_back (c ∷ []) = space_width (c ∷ [])
space_width_back [] = 0

-- Drops characters of the widths that `width` reads, until it reads 0; the fuel is the length.
unfoldable pub trim_while : ℕ → (Bytes → ℕ) → Bytes → Bytes
trim_while zero width s = s
trim_while (suc f) width s =
    let rest = trim_while f width (drop (width s) s) in if width s == 0 then s else rest

-- strings.TrimSpace
unfoldable pub trim_space : Bytes → Bytes
unfolding trim_while space_width space_width_back
trim_space s =
    let left = trim_while (length s) space_width s in
    reverse (trim_while (length left) space_width_back (reverse left))
