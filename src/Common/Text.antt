-- ===== src/Common/Text.antt =====
-- Texts of C: the bytes of a literal, in UTF-8, and their comparison.
use Prim.Native.Char.{code}
use Prim.Native.String.{String}
use edge_omni.Common.{
  ℕ, ◌+◌, ◌/◌, ◌%◌, ◌≡◌, refl, ap₂, ◌↔◌, inl, inr, ==_iff, Bool-cases, Bool, true, false, ◌&&◌,
  List, [], ◌∷◌, ◌++◌, ltb, ◌==◌, if◌then◌else◌,
}

-- The bytes of a character.
abbrev utf8 : ℕ → List ℕ
utf8 c =
    if ltb c 0x80
    then c ∷ []
    else if ltb c 0x800
    then (0xC0 + c / 64) ∷ (0x80 + c % 64) ∷ []
    else if ltb c 0x10000
    then (0xE0 + c / 4096) ∷ (0x80 + c / 64 % 64) ∷ (0x80 + c % 64) ∷ []
    else (0xF0 + c / 262144) ∷ (0x80 + c / 4096 % 64) ∷ (0x80 + c / 64 % 64) ∷ (0x80 + c % 64) ∷ []

unfoldable pub bytes : String → List ℕ
bytes String.[] = []
bytes (String.◌∷◌ c s) = utf8 (code c) ++ bytes s

-- `strcmp(a, b) == 0`, for texts with no byte 0.
unfoldable pub same_text : (a b : List ℕ) → Bool
same_text [] [] = true
same_text [] (b ∷ bs) = false
same_text (a ∷ rest) [] = false
same_text (a ∷ rest) (b ∷ bs) = (a == b) && same_text rest bs

pub same_text_iff : (a b : List ℕ) → (same_text a b ≡ true) ↔ (a ≡ b)
unfolding same_text
same_text_iff [] [] = ((λ h. refl), (λ h. refl))
same_text_iff [] (b ∷ bs) = ((λ h. absurd (cc)), (λ h. absurd (cc)))
same_text_iff (a ∷ rest) [] = ((λ h. absurd (cc)), (λ h. absurd (cc)))
same_text_iff (a ∷ rest) (b ∷ bs) =
    let (there, back) = same_text_iff rest bs in
    elim (Bool-cases (a == b)) [
      | inl same ↦
          let e : a ≡ b = (==_iff a b).0 same in
          rw same ((λ h. ap₂ ◌∷◌ e (there h)), (λ h. back (cc)))
      | inr differs ↦
          rw differs (
            (λ h. absurd (cc)),
            (λ h. let e : a ≡ b = cc in absurd (cc ((==_iff a b).1 e, differs))),
          )
    ]
