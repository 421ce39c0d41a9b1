-- ===== src/Schema/TextDiff/Cut.antt =====
-- Where two texts first differ within a surrogate pair, the edit cuts the pair.
use hamboom.Base.{
  sym, ◌<◌, ltb, ltb→lt, some, ℕ, zero, suc, ◌+◌, ◌≡◌, ◌≢◌, refl, ◌∙◌, ap, subst, true, false, [],
  ◌∷◌, ◌++◌, length, length-append, ◌==◌, Bool-cases, inl, inr, arith, min,
}
use hamboom.Base.Slices.{get_elem?, drop, drop-append, length-drop}
use hamboom.Schema.TextDiff.Ends.{IsEnd, find_ends-IsEnd, find_start-IsStart}
use hamboom.Schema.Protocol.{Text}
use hamboom.Realtime.Compactor.{same_bytes}
use hamboom.Schema.TextDiff.{
  YTexts, same_unit, find_start, find_ends, replace_middle, apply_text_diff,
}
use hamboom.Schema.TextDiff.Applied.{splits, is_high, nothing_read, whole_texts}

find_start_shift :
    (rounds : ℕ) (base next : Text) (x s : ℕ)
    → find_start rounds (x ∷ base) (x ∷ next) (suc s) ≡ suc (find_start rounds base next s)
unfolding find_start
find_start_shift zero base next x s = refl
find_start_shift (suc rounds) base next x s =
    elim (Bool-cases (same_unit (get_elem? base s) (get_elem? next s))) [
      | inl same ↦
          let one : suc s + 1 ≡ suc (s + 1) = omega arith in
          rw same (rw one (find_start_shift rounds base next x (s + 1)))
      | inr other ↦ rw other refl
    ]

-- Where the texts have a start in common and differ behind it, the first loop stops there.
find_start-differ :
    (p : Text) (rounds : ℕ) (a b : ℕ) (q r : Text)
    → a ≢ b
    → find_start (length p + suc rounds) (p ++ a ∷ q) (p ++ b ∷ r) 0 ≡ length p
unfolding find_start same_unit
find_start-differ [] rounds a b q r n =
    let more : 0 + suc rounds ≡ suc rounds = omega arith in rw more (ground arith)
find_start-differ (x ∷ p) rounds a b q r n =
    let left = length p + suc rounds in
    let more : suc (length p) + suc rounds ≡ suc left = omega arith in
    rw more (elim (Bool-cases (x == x)) [
      | inl same ↦ rw same (
          find_start_shift left (p ++ a ∷ q) (p ++ b ∷ r) x 0
          ∙ ap suc (find_start-differ p rounds a b q r n))
      | inr other ↦ absurd (ground arith)
    ])

length-snoc : (p : Text) (h : ℕ) → length (p ++ h ∷ []) ≡ suc (length p)
length-snoc [] h = refl
length-snoc (x ∷ p) h = ap suc (length-snoc p h)

get-snoc : (p : Text) (h a : ℕ) (q : Text) → get_elem? ((p ++ h ∷ []) ++ a ∷ q) (length p) ≡ some h
get-snoc [] h a q = refl
get-snoc (x ∷ p) h a q = get-snoc p h a q

splits-append :
    (p : Text) (h a : ℕ) (q : Text)
    → is_high h ≡ true
    → splits ((p ++ h ∷ []) ++ a ∷ q) (length (p ++ h ∷ [])) ≡ true
splits-append p h a q e = rw (length-snoc p h) (rw (get-snoc p h a q) e)

differ-bytes :
    (p : Text) (a b : ℕ) (q r : Text) → a ≢ b → same_bytes (p ++ a ∷ q) (p ++ b ∷ r) ≡ false
unfolding same_bytes
differ-bytes [] a b q r n = ground arith
differ-bytes (x ∷ p) a b q r n = ground (arith, differ-bytes p a b q r n)

-- Behind the two texts' first difference the second loop leaves something to delete.
ends-lt :
    (u q : Text) (a b : ℕ) (ends : ℕ × ℕ)
    → a ≢ b
    → IsEnd (u ++ a ∷ q) (u ++ b ∷ q) (length u) ends
    → length u < ends.0
ends-lt u q a b ends n i = elim (Bool-cases (ltb (length u) ends.0)) [
  | inl less ↦ ltb→lt (length u) ends.0 less
  | inr no_less ↦
      let base = u ++ a ∷ q in
      let next = u ++ b ∷ q in
      let first : ends.0 ≡ length u = ground (arith, i.start_base) in
      let left : a ∷ q ≡ drop ends.1 next = sym (drop-append u (a ∷ q)) ∙ (rw (sym first) i.same) in
      let size : length (drop ends.1 next) ≡ suc (length q) = ap length (sym left) in
      let second : ends.1 ≡ length u = omega (
        arith,
        length-drop ends.1 next i.below_next,
        length-append u (b ∷ q),
        size,
        i.start_next,
      ) in
      let right : drop ends.1 next ≡ b ∷ q = rw second (drop-append u (b ∷ q)) in
      let both : a ∷ q ≡ b ∷ q = left ∙ right in let heads : a ≡ b = cc both in absurd (n heads)
]

-- Where a text and the new one agree up to the first half of a surrogate pair, differ in the second
-- (two emoji of one block) and agree in all that follows it, the edit deletes from the index between
-- the two halves of the pair of the text.
pub apply_text_diff-splits :
    (Y : YTexts) (p q : Text) (h a b : ℕ) (y : Y.YText)
    → is_high h ≡ true
    → a ≢ b
    → Y.to_string y ≡ (p ++ h ∷ []) ++ a ∷ q
    → let next = (p ++ h ∷ []) ++ b ∷ q in
      let between = length (p ++ h ∷ []) in
      (splits (Y.to_string y) between ≡ true)
      × ((eb : ℕ) × (en : ℕ) × (between < eb)
          × (apply_text_diff Y next y ≡ replace_middle Y between eb en next y))
unfolding apply_text_diff
apply_text_diff-splits Y p q h a b y hi n e =
    let u = p ++ h ∷ [] in
    let next = u ++ b ∷ q in
    let base = Y.to_string y in
    let rounds = min (length base) (length next) in
    let ends =
      find_ends rounds base next (find_start rounds base next 0) (length base) (length next) in
    let differs : same_bytes base next ≡ false = rw e (differ-bytes u a b q q n) in
    let size : min (length (u ++ a ∷ q)) (length next) ≡ length u + suc (length q) =
      omega (arith, length-append u (a ∷ q), length-append u (b ∷ q)) in
    let stops : find_start rounds base next 0 ≡ length u =
      rw e (rw size (find_start-differ u (length q) a b q q n)) in
    let reached : IsEnd base next (length u) ends =
      subst (λ s. IsEnd base next s ends) stops
        (find_ends-IsEnd rounds base next (find_start rounds base next 0) (length base)
          (length next)
          (whole_texts base next (find_start rounds base next 0) (
            find_start-IsStart rounds base next 0 (omega arith) (omega arith)
              (nothing_read base next)))) in
    (
      rw e (splits-append p h a q hi),
      (
        ends.0,
        ends.1,
        ends-lt u q a b ends n (subst (λ t. IsEnd t next (length u) ends) e reached),
        rw differs (ap (λ s. replace_middle Y s ends.0 ends.1 next y) stops),
      ),
    )
