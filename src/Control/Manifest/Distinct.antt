-- ===== src/Control/Manifest/Distinct.antt =====
-- Lists of identifiers in which each differs from those before it, and the tests that show it.
use open_arm_ik.Shared.{ℕ, ◌≡◌, ◌≢◌, refl, sym, ap, true, false, List, [], ◌∷◌, ◌++◌, arith}
use open_arm_ik.Control.Manifest.Motor.{same_text}
use open_arm_ik.Control.Manifest.Load.{has_id, has_text}

-- An element is none of the list.
abbrev pub Avoids {ℓ} : {A : Type ℓ} → A → List A → Type ℓ
Avoids a [] = Unit
Avoids a (b ∷ bs) = (a ≢ b) × Avoids a bs

-- No element of the list is in `seen`, and none is equal to one before it.
abbrev pub AreNew {ℓ} : {A : Type ℓ} → List A → List A → Type ℓ
AreNew seen [] = Unit
AreNew seen (a ∷ bs) = Avoids a seen × AreNew (a ∷ seen) bs

-- A list before which others were seen, in the order in which they were met.
abbrev pub earlier {ℓ} : {A : Type ℓ} → List A → List A → List A
earlier seen [] = seen
earlier seen (a ∷ bs) = earlier (a ∷ seen) bs

pub AreNew-++ {ℓ} :
    {A : Type ℓ} (seen xs bs : List A)
    → AreNew seen xs
    → AreNew (earlier seen xs) bs
    → AreNew seen (xs ++ bs)
AreNew-++ seen [] bs h k = k
AreNew-++ seen (a ∷ xs) bs (h, hs) k = (h, AreNew-++ (a ∷ seen) xs bs hs k)

pub same_text_refl : (s : List ℕ) → same_text s s ≡ true
unfolding same_text
same_text_refl [] = refl
same_text_refl (a ∷ s) = let e = same_text_refl s in ground arith

pub has_id-Avoids : (a : ℕ) (bs : List ℕ) → has_id a bs ≡ false → Avoids a bs
unfolding has_id
has_id-Avoids a [] h = tt
has_id-Avoids a (b ∷ bs) h = (λ e. ground arith, has_id-Avoids a bs (ground arith))

pub same_text-differs : (s t : List ℕ) → same_text s t ≡ false → s ≢ t
same_text-differs s t h e = absurd (cc (ap (same_text s) (sym e), same_text_refl s))

pub has_text-Avoids : (s : List ℕ) (ts : List (List ℕ)) → has_text s ts ≡ false → Avoids s ts
unfolding has_text
has_text-Avoids s [] h = tt
has_text-Avoids s (t ∷ ts) h =
    (same_text-differs s t (ground arith), has_text-Avoids s ts (ground arith))
