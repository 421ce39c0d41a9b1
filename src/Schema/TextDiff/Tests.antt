-- ===== src/Schema/TextDiff/Tests.antt =====
-- A Y.Text that is its text.
use hamboom.Base.{ℕ, ◌+◌, ◌<◌, ◌≡◌, refl, true, [], ◌∷◌, ◌++◌, arith}
use hamboom.Base.Slices.{take, drop}
use hamboom.Schema.Protocol.{Text}
use hamboom.Schema.TextDiff.{YTexts, apply_text_diff, replace_middle}
use hamboom.Schema.TextDiff.Applied.{IsText, splits, to_string-apply_text_diff}
use hamboom.Schema.TextDiff.Cut.{apply_text_diff-splits}

abbrev texts : YTexts
texts = record {
  YText = Text;
  to_string = λ t. t;
  delete = λ i n t. take i t ++ drop (i + n) t;
  insert = λ i u t. take i t ++ (u ++ drop i t);
}

texts-IsText : IsText texts
texts-IsText = record { deleted = λ i n t h a b. refl; inserted = λ i u t h a. refl }

-- "salam" to "salaam"
abbrev old : Text
old = 115 ∷ 97 ∷ 108 ∷ 97 ∷ 109 ∷ []

abbrev new : Text
new = 115 ∷ 97 ∷ 108 ∷ 97 ∷ 97 ∷ 109 ∷ []

to_string-apply_text_diff_example : apply_text_diff texts new old ≡ new
to_string-apply_text_diff_example =
    to_string-apply_text_diff texts-IsText new old (refl, (refl, (refl, (refl, (refl, tt)))))

-- Two faces with one first half.
apply_text_diff-splits_example :
    (splits (0xd83d ∷ 0xde00 ∷ []) 1 ≡ true)
    × ((eb : ℕ) × (en : ℕ) × (1 < eb)
        × (apply_text_diff texts (0xd83d ∷ 0xde01 ∷ []) (0xd83d ∷ 0xde00 ∷ [])
            ≡ replace_middle texts 1 eb en (0xd83d ∷ 0xde01 ∷ []) (0xd83d ∷ 0xde00 ∷ [])))
apply_text_diff-splits_example =
    apply_text_diff-splits texts [] [] 0xd83d 0xde00 0xde01 (0xd83d ∷ 0xde00 ∷ []) refl
      (ground arith) refl
