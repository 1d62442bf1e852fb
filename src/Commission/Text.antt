-- ===== src/Commission/Text.antt =====
-- C strings of commission/src/calibration_session.cpp: valid_text and copy_text. A text is the
-- bytes that can be read from its pointer on.
use open_arm_ik.Shared.{
  ℕ, zero, suc, ◌≡◌, refl, ap, Bool, true, false, ◌||◌, not, Option, none, some, List, [], ◌∷◌,
  arith, ◌==◌, if◌then◌else◌,
}

abbrev pub text_capacity : ℕ
text_capacity = 64

-- memchr finds a 0 in the first bytes.
unfoldable pub terminated : ℕ → List ℕ → Bool
terminated zero t = false
terminated (suc n) [] = false
terminated (suc n) (c ∷ t) = c == 0 || terminated n t

starts_empty : List ℕ → Bool
starts_empty [] = true
starts_empty (c ∷ t) = c == 0

-- valid_text; `none` is a null pointer.
unfoldable pub valid_text : Option (List ℕ) → Bool → Bool
unfolding starts_empty
valid_text none allow_empty = false
valid_text (some t) allow_empty =
    if not (terminated text_capacity t) then false else allow_empty || not (starts_empty t)

-- The string itself, up to its 0.
unfoldable pub c_string : List ℕ → List ℕ
c_string [] = []
c_string (c ∷ t) = let rest = c_string t in if c == 0 then [] else c ∷ rest

-- The first `room` bytes of the string and then zeros, with one zero more behind them.
unfoldable pub padded : ℕ → List ℕ → List ℕ
padded zero t = 0 ∷ []
padded (suc room) [] = 0 ∷ padded room []
padded (suc room) (c ∷ t) = c ∷ padded room t

-- copy_text: memset to 0, and memcpy of min(strlen(source), capacity - 1) bytes.
unfoldable pub copy_text : List ℕ → List ℕ
copy_text source = padded 63 (c_string source)

c_string-padded_nil : (room : ℕ) → c_string (padded room []) ≡ []
unfolding c_string padded
c_string-padded_nil zero = refl
c_string-padded_nil (suc room) = refl

c_string-padded :
    (room : ℕ) (t : List ℕ)
    → terminated (suc room) t ≡ true
    → c_string (padded room (c_string t)) ≡ c_string t
unfolding c_string padded terminated
c_string-padded room [] h = cc
c_string-padded zero (c ∷ t) h = ground arith
c_string-padded (suc room) (c ∷ t) h =
    ground (arith, c_string-padded room t, c_string-padded_nil room)

terminated-padded : (room : ℕ) (t : List ℕ) → terminated (suc room) (padded room t) ≡ true
unfolding terminated padded
terminated-padded zero t = refl
terminated-padded (suc room) [] = refl
terminated-padded (suc room) (c ∷ t) = ground (arith, terminated-padded room t)

abbrev pub length : List ℕ → ℕ
length [] = 0
length (c ∷ t) = suc (length t)

length-padded : (room : ℕ) (t : List ℕ) → length (padded room t) ≡ suc room
unfolding padded
length-padded zero t = refl
length-padded (suc room) [] = ap suc (length-padded room [])
length-padded (suc room) (c ∷ t) = ap suc (length-padded room t)

-- The copy of a text that may be empty but is terminated in its 64 bytes fills its own 64 bytes, is
-- such a text again, and holds the same string.
pub copy_text_lem :
    (t : List ℕ)
    → valid_text (some t) true ≡ true
    → (length (copy_text t) ≡ 64)
      × (valid_text (some (copy_text t)) true ≡ true)
      × (c_string (copy_text t) ≡ c_string t)
unfolding copy_text valid_text
copy_text_lem t h =
    let ends = terminated-padded 63 (c_string t) in
    (length-padded 63 (c_string t), ground (arith, ends), c_string-padded 63 t (ground arith))
