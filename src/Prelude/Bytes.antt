-- ===== src/Prelude/Bytes.antt =====
-- Texts that the code walks, as lists of bytes, with what the source uses of Go's package strings.
use Prim.Native.Char.{code}
use mathlib.Core.List.{reverse, reverse-cons, reverse-reverse}
use kaana.Prelude.{
  ℕ, String, Bool, true, false, ◌&&◌, ◌||◌, List, [], ◌∷◌, ◌++◌, ◌==◌, leb, ltb, refl, ◌≡◌, ◌≤◌,
  arith, if◌then◌else◌, length, drop,
}

abbrev pub Bytes : Type 0
Bytes = List ℕ

-- The code points of a text: its bytes, if it is ASCII.
abbrev pub codes : String → Bytes
codes String.[] = []
codes (String.◌∷◌ c s) = code c ∷ codes s

abbrev pub is_empty : Bytes → Bool
is_empty [] = true
is_empty (_ ∷ _) = false

-- s == t
unfoldable pub bytes_eq : Bytes → Bytes → Bool
bytes_eq [] [] = true
bytes_eq (a ∷ s) (b ∷ t) = a == b && bytes_eq s t
bytes_eq _ _ = false

unfoldable pub has_prefix : Bytes → Bytes → Bool
has_prefix s [] = true
has_prefix [] (p ∷ ps) = false
has_prefix (c ∷ s) (p ∷ ps) = c == p && has_prefix s ps

unfoldable pub trim_prefix : Bytes → Bytes → Bytes
unfolding has_prefix
trim_prefix s prefix = if has_prefix s prefix then drop (length prefix) s else s

-- strings.TrimSuffix(s, string(c)), for one byte
unfoldable pub trim_last : Bytes → ℕ → Bytes
trim_last [] c = []
trim_last (b ∷ []) c = if b == c then [] else b ∷ []
trim_last (a ∷ b ∷ s) c = a ∷ trim_last (b ∷ s) c

-- strings.ContainsRune(s, c), for an ASCII rune
unfoldable pub contains : Bytes → ℕ → Bool
contains [] c = false
contains (b ∷ s) c = b == c || contains s c

-- strings.Join(parts, string(c)), for one byte
unfoldable pub join : List Bytes → ℕ → Bytes
join [] c = []
join (s ∷ []) c = s
join (s ∷ t ∷ parts) c = s ++ c ∷ join (t ∷ parts) c

-- unicode.IsSpace, on runes of one, two and three bytes.
abbrev pub is_space : ℕ → Bool
is_space b = leb 9 b && leb b 13 || b == 32

abbrev pub is_space2 : ℕ → ℕ → Bool
is_space2 a b = a == 0xc2 && (b == 0x85 || b == 0xa0)

abbrev pub is_space3 : ℕ → ℕ → ℕ → Bool
is_space3 a b c =
    a == 0xe1 && b == 0x9a && c == 0x80
    || a == 0xe2
      && (b == 0x80 && (leb 0x80 c && leb c 0x8a || c == 0xa8 || c == 0xa9 || c == 0xaf)
          || b == 0x81 && c == 0x9f)
    || a == 0xe3 && b == 0x80 && c == 0x80

-- Spaces off the front, where the tests say which two and which three bytes are one.
unfoldable pub trim_front : (ℕ → ℕ → Bool) → (ℕ → ℕ → ℕ → Bool) → Bytes → Bytes
trim_front two three [] = []
trim_front two three (a ∷ []) = if is_space a then [] else a ∷ []
trim_front two three (a ∷ b ∷ []) =
    let one = trim_front two three (b ∷ []) in
    if is_space a then one else if two a b then [] else a ∷ b ∷ []
trim_front two three (a ∷ b ∷ c ∷ s) =
    let one = trim_front two three (b ∷ c ∷ s) in
    let past_two = trim_front two three (c ∷ s) in
    let past_three = trim_front two three s in
    if is_space a
    then one
    else if two a b
    then past_two
    else if three a b c
    then past_three
    else a ∷ b ∷ c ∷ s

-- strings.TrimSpace
unfoldable pub trim_space : Bytes → Bytes
unfolding trim_front
trim_space s = reverse (
    trim_front (λ a b. is_space2 b a) (λ a b c. is_space3 c b a)
      (reverse (trim_front is_space2 is_space3 s)))

-- A leading space is off.
pub trim_space-space : (s : Bytes) → trim_space (32 ∷ s) ≡ trim_space s
unfolding trim_space
trim_space-space [] = refl
trim_space-space (a ∷ []) = refl
trim_space-space (a ∷ b ∷ s) = refl

trims_both : trim_space (codes "  ab c\t") ≡ codes "ab c"
unfolding trim_space
trims_both = refl

pub bytes_eq_self : (s : Bytes) → bytes_eq s s ≡ true
unfolding bytes_eq
bytes_eq_self [] = refl
bytes_eq_self (c ∷ s) = ground (arith, bytes_eq_self s)

pub bytes_eq-eq : (s t : Bytes) → bytes_eq s t ≡ true → s ≡ t
unfolding bytes_eq
bytes_eq-eq [] [] h = refl
bytes_eq-eq [] (b ∷ t) h = cc
bytes_eq-eq (a ∷ s) [] h = cc
bytes_eq-eq (a ∷ s) (b ∷ t) h = ground (arith, bytes_eq-eq s t)

-- Only ASCII, and no space or control character.
unfoldable pub is_visible : Bytes → Bool
is_visible [] = true
is_visible (c ∷ s) = leb 33 c && leb c 126 && is_visible s

pub is_visible-append : (s t : Bytes) → is_visible (s ++ t) ≡ (is_visible s && is_visible t)
unfolding is_visible
is_visible-append [] t = refl
is_visible-append (c ∷ s) t = ground (arith, is_visible-append s t)

is_visible-reverse : (s : Bytes) → is_visible s ≡ true → is_visible (reverse s) ≡ true
unfolding is_visible
is_visible-reverse [] h = refl
is_visible-reverse (c ∷ s) h =
    rw (reverse-cons c s)
      (ground (arith, is_visible-append (reverse s) (c ∷ []), is_visible-reverse s))

module _ {two : ℕ → ℕ → Bool} {three : ℕ → ℕ → ℕ → Bool}
    (no_two : (a b : ℕ) → a ≤ 126 → two a b ≡ false)
    (no_three : (a b c : ℕ) → a ≤ 126 → three a b c ≡ false) where
  trim_front-visible : (s : Bytes) → is_visible s ≡ true → trim_front two three s ≡ s
  unfolding trim_front is_visible
  trim_front-visible [] h = refl
  trim_front-visible (a ∷ []) h = ground arith
  trim_front-visible (a ∷ b ∷ []) h = ground (arith, no_two a b)
  trim_front-visible (a ∷ b ∷ c ∷ s) h = ground (arith, no_two a b, no_three a b c)

-- There is nothing to trim of a text of visible characters.
pub trim_space-visible : (s : Bytes) → is_visible s ≡ true → trim_space s ≡ s
unfolding trim_space
trim_space-visible s h =
    let front : trim_front is_space2 is_space3 s ≡ s =
      trim_front-visible (λ a b k. ground arith) (λ a b c k. ground arith) s h in
    rw
      (
        front,
        trim_front-visible {two = λ a b. is_space2 b a} {three = λ a b c. is_space3 c b a}
            (λ a b k. ground arith) (λ a b c k. ground arith) (reverse s) (is_visible-reverse s h),
      )
      (reverse-reverse s)

-- s < t, for texts
unfoldable pub bytes_less : Bytes → Bytes → Bool
bytes_less s [] = false
bytes_less [] (b ∷ t) = true
bytes_less (a ∷ s) (b ∷ t) = ltb a b || a == b && bytes_less s t
