-- ===== src/Realtime/Keys.antt =====
-- apps/realtime/src/persistence/snapshot-store.ts: the key under which a snapshot is stored, and
-- that keys of one board differ.
use text.Mathlib.TextLemmas.{append_cancel_left, append_cancel_right}
use hamboom.Base.{
  refl, if_split, ap, sym, ◌∙◌, ◌≤◌, ltb→lt, ℕ, zero, suc, ◌+◌, ◌-◌, ◌*◌, ◌/◌, ◌%◌, ◌<◌, ◌≡◌, arith,
  ltb, if◌then◌else◌,
}
use Prim.Native.Char.{Char, code}
use Prim.Native.String
use Prim.Native.String.{String}

digit : ℕ → Char
digit zero = "0"
digit (suc zero) = "1"
digit (suc (suc zero)) = "2"
digit (suc (suc (suc zero))) = "3"
digit (suc (suc (suc (suc zero)))) = "4"
digit (suc (suc (suc (suc (suc zero))))) = "5"
digit (suc (suc (suc (suc (suc (suc zero)))))) = "6"
digit (suc (suc (suc (suc (suc (suc (suc zero))))))) = "7"
digit (suc (suc (suc (suc (suc (suc (suc (suc zero)))))))) = "8"
digit _ = "9"

-- The decimal digits of n before `rest`; the fuel n is enough, as n / 10 < n from 10 on.
unfoldable pub decimal : ℕ → ℕ → String → String
unfolding digit
decimal zero n rest = String.◌∷◌ (digit n) rest
decimal (suc fuel) n rest =
    let more = decimal fuel (n / 10) (String.◌∷◌ (digit (n % 10)) rest) in
    if ltb n 10 then String.◌∷◌ (digit n) rest else more

unfoldable pub zeros : ℕ → String → String
zeros zero s = s
zeros (suc n) s = String.◌∷◌ "0" (zeros n s)

-- `s.padStart(12, "0")`
unfoldable pub pad_start : String → String
unfolding zeros
pad_start s = zeros (12 - String.count s) s

unfoldable pub snapshot_key : String → ℕ → String
unfolding decimal pad_start
snapshot_key board_id seq_upto =
    String.◌++◌ board_id
      (String.◌++◌ "/" (String.◌++◌ (pad_start (decimal seq_upto seq_upto "")) ".ybin"))

-- The number that digits spell.
number : ℕ → String → ℕ
number m String.[] = m
number m (String.◌∷◌ c s) = number (m * 10 + (code c - 48)) s

code-digit : (d : ℕ) → d < 10 → code (digit d) ≡ 48 + d
unfolding digit
code-digit zero h = refl
code-digit (suc zero) h = refl
code-digit (suc (suc zero)) h = refl
code-digit (suc (suc (suc zero))) h = refl
code-digit (suc (suc (suc (suc zero)))) h = refl
code-digit (suc (suc (suc (suc (suc zero))))) h = refl
code-digit (suc (suc (suc (suc (suc (suc zero)))))) h = refl
code-digit (suc (suc (suc (suc (suc (suc (suc zero))))))) h = refl
code-digit (suc (suc (suc (suc (suc (suc (suc (suc zero)))))))) h = refl
code-digit (suc (suc (suc (suc (suc (suc (suc (suc (suc zero))))))))) h = refl
code-digit (suc (suc (suc (suc (suc (suc (suc (suc (suc (suc d)))))))))) h = ground (arith, h)

number-digit :
    (m d : ℕ) (s : String) → d < 10 → number m (String.◌∷◌ (digit d) s) ≡ number (m * 10 + d) s
unfolding number
number-digit m d s h = rw (code-digit d h) (ap (λ n. number (m * 10 + n) s) (omega arith))

-- Reading the digits of n back gives n.
number-decimal :
    (fuel n : ℕ) (rest : String) → n ≤ fuel → number 0 (decimal fuel n rest) ≡ number n rest
unfolding decimal
number-decimal zero n rest h =
    number-digit 0 n rest (omega (arith, h)) ∙ ap (λ k. number k rest) (omega arith)
number-decimal (suc fuel) n rest h =
    if_split (λ s. number 0 s ≡ number n rest) (ltb n 10)
      (λ small. number-digit 0 n rest (ltb→lt n 10 small) ∙ ap (λ k. number k rest) (omega arith))
      (λ large.
        number-decimal fuel (n / 10) (String.◌∷◌ (digit (n % 10)) rest) (ground arith)
        ∙ (number-digit (n / 10) (n % 10) rest (omega arith)
            ∙ ap (λ k. number k rest) (omega arith)))

number-zeros : (k : ℕ) (s : String) → number 0 (zeros k s) ≡ number 0 s
unfolding number zeros
number-zeros zero s = refl
number-zeros (suc k) s = number-zeros k s

number-key : (n : ℕ) → number 0 (pad_start (decimal n n "")) ≡ n
unfolding pad_start number
number-key n =
    number-zeros (12 - String.count (decimal n n "")) (decimal n n "")
    ∙ number-decimal n n "" (omega arith)

-- Two snapshots of a board lie under different keys.
pub snapshot_key-inj :
    (board : String) (m n : ℕ) → snapshot_key board m ≡ snapshot_key board n → m ≡ n
unfolding snapshot_key
snapshot_key-inj board m n h =
    let digits : pad_start (decimal m m "") ≡ pad_start (decimal n n "") =
      append_cancel_right _ _ ".ybin"
        (append_cancel_left "/" _ _ (append_cancel_left board _ _ h)) in
    sym (number-key m) ∙ (ap (number 0) digits ∙ number-key n)
