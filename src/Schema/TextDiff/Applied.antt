-- ===== src/Schema/TextDiff/Applied.antt =====
-- The text after the edit is the new text; but an edit may cut a surrogate pair.
use hamboom.Base.{
  subst, ℕ, zero, suc, ◌+◌, ◌-◌, ◌≤◌, ◌≡◌, refl, ◌∙◌, sym, Bool, true, false, ◌&&◌, Option, none,
  some, [], ◌∷◌, ◌++◌, length, length-append, ltb, leb, if◌then◌else◌, Bool-cases, inl, inr, arith,
  All, All-append, min,
}
use hamboom.Base.Slices.{
  take, drop, get_elem?, take-append-drop, take-append, drop-append, slice-append-drop, length-take,
  drop-length, All-take, All-drop, All-get_elem?,
}
use hamboom.Schema.Protocol.{Text}
use hamboom.Realtime.Compactor.{same_bytes}
use hamboom.Schema.TextDiff.{YTexts, find_start, find_ends, slice, replace_middle, apply_text_diff}
use hamboom.Schema.TextDiff.Ends.{IsStart, IsEnd, find_start-IsStart, find_ends-IsEnd}

-- `c` is the first or the second half of a surrogate pair.
abbrev pub is_high : ℕ → Bool
is_high c = leb 0xd800 c && leb c 0xdbff

abbrev high_at : Option ℕ → Bool
high_at none = false
high_at (some c) = is_high c

-- The index may stand between the two halves of a pair.
abbrev pub splits : Text → ℕ → Bool
splits t zero = false
splits t (suc i) = high_at (get_elem? t i)

-- What Y.Text promises of indices in the text that cut no pair.
pub record IsText (Y : YTexts) : Type 0 where
  pub deleted :
      (i n : ℕ) (y : Y.YText)
      → i + n ≤ length (Y.to_string y)
      → splits (Y.to_string y) i ≡ false
      → splits (Y.to_string y) (i + n) ≡ false
      → Y.to_string (Y.delete i n y) ≡ take i (Y.to_string y) ++ drop (i + n) (Y.to_string y)
  pub inserted :
      (i : ℕ) (u : Text) (y : Y.YText)
      → i ≤ length (Y.to_string y)
      → splits (Y.to_string y) i ≡ false
      → Y.to_string (Y.insert i u y) ≡ take i (Y.to_string y) ++ (u ++ drop i (Y.to_string y))

-- The text has no first half of a pair: every character is one code unit.
abbrev pub IsPlain : Text → Type 0
IsPlain = All λ c. is_high c ≡ false

high_at-false :
    (t : Text) (i : ℕ) (o : Option ℕ) → get_elem? t i ≡ o → IsPlain t → high_at o ≡ false
high_at-false t i none f p = refl
high_at-false t i (some c) f p = All-get_elem? (λ c. is_high c ≡ false) t i c p f

plain-splits : (t : Text) (i : ℕ) → IsPlain t → splits t i ≡ false
plain-splits t zero p = refl
plain-splits t (suc i) p = high_at-false t i (get_elem? t i) refl p

module _ {Y : YTexts} (law : IsText Y) where
  module _ (base next : Text) (s eb en : ℕ) (plain : IsPlain base) where
    -- The middle that both loops leave is deleted.
    cut_lem :
        (y : Y.YText)
        → Y.to_string y ≡ base
        → IsStart base next s
        → IsEnd base next s (eb, en)
        → Y.to_string (if ltb s eb then Y.delete s (eb - s) y else y) ≡ take s base ++ drop eb base
    cut_lem y e i j = elim (Bool-cases (ltb s eb)) [
      | inl some_cut ↦
          let to : s + (eb - s) ≡ eb = omega (arith, j.start_base) in
          rw some_cut (
            law.deleted s (eb - s) y (rw e (omega (arith, j.start_base, j.below_base)))
              (rw e (plain-splits base s plain)) (rw e (plain-splits base (s + (eb - s)) plain))
            ∙ rw e (rw to refl))
      | inr no_cut ↦
          let at : eb ≡ s = ground arith in rw no_cut (e ∙ rw at (sym (take-append-drop s base)))
    ]

    -- The new middle is put in its place.
    put_lem :
        (y : Y.YText)
        → Y.to_string y ≡ take s base ++ drop eb base
        → IsStart base next s
        → IsEnd base next s (eb, en)
        → Y.to_string (if ltb s en then Y.insert s (slice s en next) y else y) ≡ next
    put_lem y e i j =
        let left = take s base in
        let size : length left ≡ s = length-take s base i.below_base in
        let front : take s (left ++ drop eb base) ≡ take s next =
          subst (λ n. take n (left ++ drop eb base) ≡ left) size (take-append left (drop eb base))
          ∙ i.same in
        let back : drop s (left ++ drop eb base) ≡ drop en next =
          subst (λ n. drop n (left ++ drop eb base) ≡ drop eb base) size
            (drop-append left (drop eb base))
          ∙ j.same in
        let plain_cut : IsPlain (left ++ drop eb base) =
          All-append (λ c. is_high c ≡ false) left (drop eb base)
            (All-take (λ c. is_high c ≡ false) s base plain)
            (All-drop (λ c. is_high c ≡ false) eb base plain) in
        let long : s ≤ length (left ++ drop eb base) =
          omega (arith, length-append left (drop eb base), size) in
        elim (Bool-cases (ltb s en)) [
          | inl some_put ↦ rw some_put (
              law.inserted s (slice s en next) y (rw e long)
                (rw e (plain-splits (left ++ drop eb base) s plain_cut))
              ∙ rw e (
                  rw front (
                    rw back
                      (rw (slice-append-drop s en next j.start_next) (take-append-drop s next)))))
          | inr no_put ↦
              let at : en ≡ s = ground arith in
              rw no_put (e ∙ rw i.same (rw j.same (rw at (take-append-drop s next))))
        ]

    replace_middle_lem :
        (y : Y.YText)
        → Y.to_string y ≡ base
        → IsStart base next s
        → IsEnd base next s (eb, en)
        → Y.to_string (replace_middle Y s eb en next y) ≡ next
    unfolding replace_middle
    replace_middle_lem y e i j =
        put_lem (if ltb s eb then Y.delete s (eb - s) y else y) (cut_lem y e i j) i j

same_bytes-eq : (a b : Text) → same_bytes a b ≡ true → a ≡ b
unfolding same_bytes
same_bytes-eq [] [] h = refl
same_bytes-eq [] (y ∷ b) h = cc
same_bytes-eq (x ∷ a) [] h = cc
same_bytes-eq (x ∷ a) (y ∷ b) h = ground (arith, same_bytes-eq a b)

-- The two indices before the first loop, and after the texts before the second.
pub nothing_read : (base next : Text) → IsStart base next 0
nothing_read base next = record { below_base = omega arith; below_next = omega arith; same = refl }

pub whole_texts :
    (base next : Text) (s : ℕ) → IsStart base next s → IsEnd base next s (length base, length next)
whole_texts base next s i = record {
  start_base = i.below_base;
  start_next = i.below_next;
  below_base = omega arith;
  below_next = omega arith;
  same = drop-length base ∙ sym (drop-length next);
}

-- After the edit the text is the new one, if the old text has no surrogate pairs: whatever the two
-- texts are, one deletion and one insertion at the indices that the loops find bring one to the
-- other. It rests on what Y.Text promises of a deletion and an insertion that cut no pair.
pub to_string-apply_text_diff :
    {Y : YTexts} (law : IsText Y) (next : Text) (y : Y.YText)
    → IsPlain (Y.to_string y)
    → Y.to_string (apply_text_diff Y next y) ≡ next
unfolding apply_text_diff
to_string-apply_text_diff {Y} law next y plain =
    let base = Y.to_string y in
    let rounds = min (length base) (length next) in
    let s = find_start rounds base next 0 in
    let i =
      find_start-IsStart rounds base next 0 (omega arith) (omega arith) (nothing_read base next) in
    let j =
      find_ends-IsEnd rounds base next s (length base) (length next) (whole_texts base next s i) in
    elim (Bool-cases (same_bytes base next)) [
      | inl same ↦ rw same (same_bytes-eq base next same)
      | inr other ↦ rw other (
          replace_middle_lem law base next s
            (find_ends rounds base next s (length base) (length next)).0
            (find_ends rounds base next s (length base) (length next)).1 plain y refl i j)
    ]
