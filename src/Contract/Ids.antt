-- ===== src/Contract/Ids.antt =====
-- Model references and the model line that they belong to (internal/contract/ids.go).
use Prim.Native.Char.{code}
use kaana.Prelude.{
  ℕ, String, ◌≡◌, refl, Bool, true, false, Option, none, some, List, [], ◌∷◌, ◌==◌, leb, ◌&&◌, ◌||◌,
  if◌then◌else◌, arith, length, Bool-cases, inl, inr,
}

-- The code points of a text.
abbrev pub codes : String → List ℕ
codes String.[] = []
codes (String.◌∷◌ c s) = code c ∷ codes s

-- ModelReference.Pinned: strings.Contains(r, "@")
unfoldable pub pinned : String → Bool
pinned String.[] = false
pinned (String.◌∷◌ c s) = code c == b'@' || pinned s

-- ModelReference.ModelID: what stands before the first "@", or the whole reference.
unfoldable pub model_id : String → String
model_id String.[] = String.[]
model_id (String.◌∷◌ c s) =
    let rest = String.◌∷◌ c (model_id s) in if code c == b'@' then String.[] else rest

abbrev is_alnum : ℕ → Bool
is_alnum c = leb b'a' c && leb c b'z' || leb b'0' c && leb c b'9'

abbrev is_inner : ℕ → Bool
is_inner c = is_alnum c || c == b'.' || c == b'_' || c == b'-'

-- [a-z0-9._-]*[a-z0-9] to the end, after a first [a-z0-9]
tail_ok : List ℕ → Bool
tail_ok [] = true
tail_ok (c ∷ []) = is_alnum c
tail_ok (c ∷ d ∷ cs) = is_inner c && tail_ok (d ∷ cs)

-- [a-z0-9](?:[a-z0-9._-]*[a-z0-9])?
segment_ok : List ℕ → Bool
unfolding tail_ok
segment_ok [] = false
segment_ok (c ∷ cs) = is_alnum c && tail_ok cs

keep : ℕ → Option (List ℕ × List ℕ) → Option (List ℕ × List ℕ)
keep c none = none
keep c (some (a, b)) = some (c ∷ a, b)

-- The two sides of the first "/", where there is one.
cut_slash : List ℕ → Option (List ℕ × List ℕ)
unfolding keep
cut_slash [] = none
cut_slash (c ∷ cs) = let rest = cut_slash cs in if c == b'/' then some ([], cs) else keep c rest

line_ok : Option (List ℕ × List ℕ) → Bool
unfolding segment_ok
line_ok none = false
line_ok (some (publisher, model)) = segment_ok publisher && segment_ok model

-- ModelID.Valid: at most 129 bytes, and `<publisher>/<model>`. The pattern admits ASCII only, so a
-- count of code points is the count of bytes wherever it matters.
unfoldable pub model_id_valid : String → Bool
unfolding line_ok cut_slash
model_id_valid m = leb (length (codes m)) 129 && line_ok (cut_slash (codes m))

-- The model line of a reference is never itself pinned.
pub pinned-model_id : (r : String) → pinned (model_id r) ≡ false
unfolding pinned model_id
pinned-model_id String.[] = refl
pinned-model_id (String.◌∷◌ c s) = elim (Bool-cases (code c == b'@')) [
  | inl e ↦ rw e refl
  | inr e ↦ rw e (rw e (pinned-model_id s))
]

-- A reference that is not pinned is its own model line.
pub model_id_unpinned : (r : String) → pinned r ≡ false → model_id r ≡ r
unfolding pinned model_id
model_id_unpinned String.[] h = refl
model_id_unpinned (String.◌∷◌ c s) h = ground (arith, model_id_unpinned s)
