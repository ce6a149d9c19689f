-- ===== src/Common/Text.antt =====
-- Python's `str.strip`, and `str.lower` on the ASCII letters, over native texts.
use Prim.Native.Char.{Char, code}
use Prim.Native.String.{[], ◌∷◌}
use text.Mathlib.Text.{◌==◌}
use owlclaw_core.Common.{
  ℕ, zero, suc, ◌+◌, ◌≡◌, refl, inl, inr, Bool, true, false, ◌&&◌, ◌||◌, Option, none, some, String,
  arith, leb, eqb, if◌then◌else◌, Bool-cases,
}

-- `str.isspace` of one character
is_space : Char → Bool
is_space c =
    let n = code c in
    (leb 9 n && leb n 13)
    || (leb 28 n && leb n 32)
    || (eqb n 133 || eqb n 160 || eqb n 5760)
    || (leb 8192 n && leb n 8202)
    || (eqb n 8232 || eqb n 8233 || eqb n 8239 || eqb n 8287 || eqb n 12288)

lstrip : String → String
lstrip [] = []
lstrip (c ∷ s) = if is_space c then lstrip s else c ∷ s

-- `c` in front of a text that has no space at its end
keep_end : Char → String → String
keep_end c [] = if is_space c then [] else c ∷ []
keep_end c (d ∷ s) = c ∷ d ∷ s

rstrip : String → String
rstrip [] = []
rstrip (c ∷ s) = keep_end c (rstrip s)

unfoldable pub strip : String → String
unfolding is_space lstrip keep_end rstrip
strip s = rstrip (lstrip s)

-- `not s`
unfoldable pub is_blank : String → Bool
is_blank [] = true
is_blank (c ∷ s) = false

pick : ℕ → Char → String → Char
pick n c [] = c
pick n c (d ∷ rest) = if eqb (code d) n then d else pick n c rest

lower_char : Char → Char
unfolding pick
lower_char c =
    if leb 65 (code c) && leb (code c) 90
    then pick (code c + 32) c "abcdefghijklmnopqrstuvwxyz"
    else c

unfoldable pub lower : String → String
unfolding lower_char
lower [] = []
lower (c ∷ s) = lower_char c ∷ lower s

-- s in {…}
unfoldable pub one_of : String → (a b c d : String) → Bool
one_of s a b c d = s == a || s == b || s == c || s == d

keep_end_twice : (c : Char) (s : String) → rstrip s ≡ s → rstrip (keep_end c s) ≡ keep_end c s
unfolding rstrip keep_end
keep_end_twice c [] h = elim (Bool-cases (is_space c)) [
  | inl space ↦ rw space
  | inr other ↦ rw other (rw other)
]
keep_end_twice c (d ∷ s) h = rw h

rstrip_idem : (s : String) → rstrip (rstrip s) ≡ rstrip s
unfolding rstrip
rstrip_idem [] = refl
rstrip_idem (c ∷ s) = keep_end_twice c (rstrip s) (rstrip_idem s)

-- a text with no space in front keeps that when its end is cut
lstrip-keep_end :
    (c : Char) (s : String) → is_space c ≡ false → lstrip (keep_end c s) ≡ keep_end c s
unfolding lstrip keep_end
lstrip-keep_end c [] h = ground arith
lstrip-keep_end c (d ∷ s) h = rw h

lstrip-rstrip-lstrip : (s : String) → lstrip (rstrip (lstrip s)) ≡ rstrip (lstrip s)
unfolding lstrip rstrip
lstrip-rstrip-lstrip [] = refl
lstrip-rstrip-lstrip (c ∷ s) = elim (Bool-cases (is_space c)) [
  | inl space ↦ rw space (lstrip-rstrip-lstrip s)
  | inr other ↦ rw other (lstrip-keep_end c (rstrip s) other)
]

pub strip_idem : (s : String) → strip (strip s) ≡ strip s
unfolding strip
strip_idem s = rw (lstrip-rstrip-lstrip s) (rstrip_idem (lstrip s))

strip_spaces : strip "  pending " ≡ "pending"
unfolding strip
strip_spaces = refl

lower_word : lower "High" ≡ "high"
unfolding lower
lower_word = refl

-- s[:n]
unfoldable pub cut : ℕ → String → String
cut zero s = []
cut (suc n) [] = []
cut (suc n) (c ∷ s) = c ∷ cut n s

-- `str.isascii`
unfoldable pub is_ascii : String → Bool
is_ascii [] = true
is_ascii (c ∷ s) = leb (code c) 127 && is_ascii s

-- s[len(prefix):] if s.startswith(prefix), else none
unfoldable pub strip_prefix : String → String → Option String
strip_prefix [] s = some s
strip_prefix (c ∷ prefix) [] = none
strip_prefix (c ∷ prefix) (d ∷ s) = if eqb (code c) (code d) then strip_prefix prefix s else none

cons_before : Char → Option (String × String) → Option (String × String)
cons_before c none = none
cons_before c (some (a, b)) = some (c ∷ a, b)

-- s.split(sep, 1) for one character that is in the text
unfoldable pub split_once : ℕ → String → Option (String × String)
unfolding cons_before
split_once sep [] = none
split_once sep (c ∷ s) = if eqb (code c) sep then some ([], s) else cons_before c (split_once sep s)

abbrev first_part : String → Option (String × String) → String
first_part s none = s
first_part s (some (a, _)) = a

-- s.split(sep, 1)[0]
unfoldable pub before : ℕ → String → String
unfolding split_once
before sep s = first_part s (split_once sep s)
