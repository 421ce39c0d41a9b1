-- ===== src/Auth/Otp/Guesses.antt =====
-- How many codes can be tried against one challenge.
use hamboom.Base.{
  ℕ, ◌+◌, ◌-◌, ◌≤◌, ◌≡◌, ◌∙◌, refl, ap, subst, false, not, String, Option, none, some, List, [],
  ◌∷◌, ◌===◌, arith, leb, if_split, if_both,
}
use hamboom.Base.Dict.{get, remove, get-put_self, get-remove_self}
use hamboom.Auth.Otp.{
  OtpRecord, OtpStore, OtpConfig, OtpResult, accepted, mismatch, verify_otp, verify_found,
  increment_attempts, increment_found,
}

-- Codes that are presented for a phone one after the other, each with its time, and each answered
-- before the next is presented.
module _ (hash : String → String) (config : OtpConfig) (phone : String) where
  unfoldable pub verify_all : List (String × ℕ) → OtpStore → List OtpResult
  verify_all [] s = []
  verify_all ((code, now) ∷ tries) s =
      let o = verify_otp hash config phone code now s in o.0 ∷ verify_all tries o.1

-- The answers that compared the code.
unfoldable pub compared : List OtpResult → ℕ
compared [] = 0
compared (accepted ∷ os) = 1 + compared os
compared (mismatch ∷ os) = 1 + compared os
compared (_ ∷ os) = compared os

abbrev pub IsAccepted : OtpResult → Type 0
IsAccepted o = o ≡ accepted

-- The comparisons that a challenge still allows.
left : ℕ → Option OtpRecord → ℕ
left limit none = 0
left limit (some r) = limit - r.attempts

module _ (hash : String → String) (config : OtpConfig) (phone : String) where
  increment-get :
      (r : OtpRecord) (s : OtpStore)
      → get phone s ≡ some r
      → get phone (increment_attempts phone s) ≡ some (record r { attempts = r.attempts + 1 })
  unfolding increment_attempts increment_found
  increment-get r s e =
      ap (λ o. get phone (increment_found phone o s)) e
      ∙ get-put_self phone (record r { attempts = r.attempts + 1 }) s

  abbrev Fits : List OtpResult → Option OtpRecord → Type 0
  Fits os o = compared os ≤ left config.max_attempts o

  spent_none :
      (os : List OtpResult) (r : OtpRecord)
      → Fits os none
      → compared os ≤ config.max_attempts - r.attempts
  unfolding left
  spent_none os r h = omega (arith, h)

  one_more :
      (os : List OtpResult) (r : OtpRecord)
      → Fits os (some (record r { attempts = r.attempts + 1 }))
      → leb config.max_attempts r.attempts ≡ false
      → 1 + compared os ≤ config.max_attempts - r.attempts
  unfolding left
  one_more os r h room = ground (arith, h)

  one_none :
      (os : List OtpResult) (r : OtpRecord)
      → Fits os none
      → leb config.max_attempts r.attempts ≡ false
      → 1 + compared os ≤ config.max_attempts - r.attempts
  unfolding left
  one_none os r h room = ground (arith, h)

  -- One answer uses up a comparison when it made one.
  step-left :
      (code : String) (now : ℕ) (s : OtpStore) (o : Option OtpRecord) (os : List OtpResult)
      → get phone s ≡ o
      → let v = verify_found hash config phone code now o s in
        compared os ≤ left config.max_attempts (get phone v.1)
        → compared (v.0 ∷ os) ≤ left config.max_attempts o
  unfolding verify_found left compared
  step-left code now s none os e h = subst (λ o. compared os ≤ left config.max_attempts o) e h
  step-left code now s (some r) os e h =
      let P : OtpResult × OtpStore → Type 0 = λ v.
        compared os ≤ left config.max_attempts (get phone v.1)
        → compared (v.0 ∷ os) ≤ config.max_attempts - r.attempts in
      let gone : get phone (remove phone s) ≡ none = get-remove_self phone s in
      let raised = increment-get r s e in
      if_split P (leb r.expires_at now) (λ _ h. spent_none os r (subst (Fits os) gone h))
        (λ _.
          if_split P (leb config.max_attempts r.attempts) (λ _ h. subst (Fits os) e h)
            (λ room.
              if_both P (not (r.code_hash === hash code))
                (λ h. one_more os r (subst (Fits os) raised h) room)
                (λ h. one_none os r (subst (Fits os) gone h) room)))
        h

  left_le :
      {n : ℕ} (o : Option OtpRecord) → n ≤ left config.max_attempts o → n ≤ config.max_attempts
  unfolding left
  left_le none h = ground arith
  left_le (some r) h = omega (arith, h)

  bounded :
      (tries : List (String × ℕ)) (s : OtpStore)
      → compared (verify_all hash config phone tries s) ≤ left config.max_attempts (get phone s)
  unfolding verify_all verify_otp compared
  bounded [] s = omega arith
  bounded ((code, now) ∷ tries) s =
      step-left code now s (get phone s) _ refl
        (bounded tries (verify_otp hash config phone code now s).1)

  -- However many codes are presented for a phone one after the other (each verification is over
  -- before the next begins, and no code is requested in between), at any times, at most
  -- `maxAttempts` of them are compared with the one that was sent; all the others are answered
  -- without looking at the code.
  pub verify_all-compared :
      (tries : List (String × ℕ)) (s : OtpStore)
      → compared (verify_all hash config phone tries s) ≤ config.max_attempts
  verify_all-compared tries s = left_le (get phone s) (bounded tries s)
