-- ===== src/Schema/TextDiff.antt =====
-- packages/ydoc-schema/src/value-codec.ts: bringing a Y.Text to a new text by one deletion and one
-- insertion, so that concurrent edits elsewhere in the text survive. Y.Text is a parameter.
pub mod Ends
pub mod Applied
pub mod Cut
mod Tests
use hamboom.Base.{
  ℕ, zero, suc, ◌+◌, ◌-◌, Bool, true, false, ◌&&◌, Option, none, some, List, [], ◌∷◌, ◌++◌, length,
  ltb, ◌==◌, if◌then◌else◌, min,
}
use hamboom.Base.Slices.{take, drop, get_elem?}
use hamboom.Schema.Protocol.{Text}
use hamboom.Realtime.Compactor.{same_bytes}

-- The type Y.Text: `toString`, `delete(index, length)` and `insert(index, text)`.
pub record YTexts : Type 1 where
  pub YText : Type 0
  pub to_string : YText → Text
  pub delete : (index length : ℕ) → YText → YText
  pub insert : (index : ℕ) → Text → YText → YText

-- `base[i] === next[j]`, at indices within the texts
unfoldable pub same_unit : Option ℕ → Option ℕ → Bool
same_unit (some a) (some b) = a == b
same_unit none none = true
same_unit none (some b) = false
same_unit (some a) none = false

-- `while (start < shortest && base[start] === next[start]) start++`
unfoldable pub find_start : (rounds : ℕ) → Text → Text → (start : ℕ) → ℕ
unfolding same_unit
find_start zero base next start = start
find_start (suc rounds) base next start =
    let further = find_start rounds base next (start + 1) in
    if same_unit (get_elem? base start) (get_elem? next start) then further else start

-- `while (endBase > start && endNext > start && base[endBase - 1] === next[endNext - 1])`
unfoldable pub find_ends : (rounds : ℕ) → Text → Text → (start end_base end_next : ℕ) → ℕ × ℕ
unfolding same_unit
find_ends zero base next start end_base end_next = (end_base, end_next)
find_ends (suc rounds) base next start end_base end_next =
    let further = find_ends rounds base next start (end_base - 1) (end_next - 1) in
    if ltb start end_base
      && (ltb start end_next
          && same_unit (get_elem? base (end_base - 1)) (get_elem? next (end_next - 1)))
    then further
    else (end_base, end_next)

-- `next.slice(start, end)`
abbrev pub slice : ℕ → ℕ → Text → Text
slice start end t = take (end - start) (drop start t)

module _ (Y : YTexts) where
  unfoldable pub replace_middle : (start end_base end_next : ℕ) → Text → Y.YText → Y.YText
  replace_middle start end_base end_next next ytext =
      let cut = if ltb start end_base then Y.delete start (end_base - start) ytext else ytext in
      if ltb start end_next then Y.insert start (slice start end_next next) cut else cut

  unfoldable pub apply_text_diff : Text → Y.YText → Y.YText
  unfolding find_start find_ends replace_middle same_bytes
  apply_text_diff next ytext =
      let base = Y.to_string ytext in
      let start = find_start (min (length base) (length next)) base next 0 in
      let ends =
        find_ends (min (length base) (length next)) base next start (length base) (length next) in
      if same_bytes base next then ytext else replace_middle start ends.0 ends.1 next ytext
