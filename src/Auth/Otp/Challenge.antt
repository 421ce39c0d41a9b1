-- ===== src/Auth/Otp/Challenge.antt =====
-- Which code is accepted, and for how long.
use hamboom.Base.{
  ℕ, ◌+◌, ◌<◌, ◌≡◌, ◌↔◌, ◌∙◌, refl, ap, Bool, true, false, String, Option, none, some, ◌===◌, arith,
  if◌then◌else◌, eq_refl,
}
use hamboom.Base.Dict.{get, put, remove, get-put_self, get-remove_self}
use hamboom.Auth.Otp.{
  Request, OtpRecord, OtpStore, OtpConfig, accepted, no_challenge, verify_otp, verify_found,
  request_otp, sent, silent, failed, challenge,
}

module _ (hash : String → String) (config : OtpConfig) where
  -- The challenge of a phone takes a code: it has not expired, comparisons are left, the code is it.
  pub record IsOpen (phone code : String) (now : ℕ) (s : OtpStore) : Type 0 where
    pub entry : OtpRecord
    pub found : get phone s ≡ some entry
    pub current : now < entry.expires_at
    pub room : entry.attempts < config.max_attempts
    pub code_matches : (entry.code_hash === hash code) ≡ true

  open_of :
      (phone code : String) (now : ℕ) (r : OtpRecord) (s : OtpStore)
      → (verify_found hash config phone code now (some r) s).0 ≡ accepted
      → (now < r.expires_at)
        × (r.attempts < config.max_attempts)
        × ((r.code_hash === hash code) ≡ true)
  unfolding verify_found
  open_of phone code now r s h = ground arith

  open_back :
      (phone code : String) (now : ℕ) (r : OtpRecord) (s : OtpStore)
      → now < r.expires_at
      → r.attempts < config.max_attempts
      → (r.code_hash === hash code) ≡ true
      → verify_found hash config phone code now (some r) s ≡ (accepted, remove phone s)
  unfolding verify_found
  open_back phone code now r s c room m = ground arith

  verify_found-IsOpen :
      (phone code : String) (now : ℕ) (s : OtpStore) (o : Option OtpRecord)
      → get phone s ≡ o
      → (verify_found hash config phone code now o s).0 ≡ accepted
      → IsOpen phone code now s
  unfolding verify_found
  verify_found-IsOpen phone code now s none e h = ground arith
  verify_found-IsOpen phone code now s (some r) e h =
      let (c, room, m) = open_of phone code now r s h in
      record { entry = r; found = e; current = c; room = room; code_matches = m }

  IsOpen-verify :
      (phone code : String) (now : ℕ) (s : OtpStore)
      → (o : IsOpen phone code now s)
      → verify_otp hash config phone code now s ≡ (accepted, remove phone s)
  unfolding verify_otp
  IsOpen-verify phone code now s o =
      ap (λ x. verify_found hash config phone code now x s) o.found
      ∙ open_back phone code now o.entry s o.current o.room o.code_matches

  after :
      (phone code other : String) (now later : ℕ) (s : OtpStore)
      → IsOpen phone code now s
      → (verify_otp hash config phone other later (verify_otp hash config phone code now s).1).0
        ≡ no_challenge
  unfolding verify_found verify_otp
  after phone code other now later s o =
      ap (λ v. (verify_otp hash config phone other later v.1).0) (IsOpen-verify phone code now s o)
      ∙ ap (λ x. (verify_found hash config phone other later x (remove phone s)).0)
          (get-remove_self phone s)

  -- A code is accepted exactly while the phone's challenge is there, has not expired and has
  -- comparisons left, and only the code that was sent is; it is accepted once: the challenge is
  -- gone, and any code is then answered with "no challenge".
  pub verify_otp-accepted :
      (phone code other : String) (now later : ℕ) (s : OtpStore)
      → ((verify_otp hash config phone code now s).0 ≡ accepted) ↔ (
          IsOpen phone code now s
          × ((verify_otp hash config phone other later
                (verify_otp hash config phone code now s).1).0
              ≡ no_challenge))
  unfolding verify_otp
  verify_otp-accepted phone code other now later s = (
    λ h.
        let o = verify_found-IsOpen phone code now s _ refl h in
        (o, after phone code other now later s o),
    λ (o, _). ap (λ v. v.0) (IsOpen-verify phone code now s o),
  )

  sent-stored :
      (phone code : String) (now : ℕ) (s : OtpStore)
      → (request_otp hash config phone code true now s).0 ≡ sent
      → (request_otp hash config phone code true now s).1
        ≡ put phone (challenge hash config code now) s
  unfolding request_otp
  sent-stored phone code now s h = ground arith

  -- A code whose message was sent is accepted at any time before it expires, if at least one
  -- attempt is allowed: requesting and verifying agree on what they store and read.
  pub request_otp-verify_otp :
      (phone code : String) (now later : ℕ) (s : OtpStore)
      → (request_otp hash config phone code true now s).0 ≡ sent
      → 0 < config.max_attempts
      → later < now + config.ttl_seconds
      → (verify_otp hash config phone code later
          (request_otp hash config phone code true now s).1).0
        ≡ accepted
  unfolding challenge
  request_otp-verify_otp phone code now later s h room current =
      rw (sent-stored phone code now s h) (
        ap (λ v. v.0)
          (IsOpen-verify phone code later (put phone (challenge hash config code now) s) (record {
            entry = challenge hash config code now;
            found = get-put_self phone (challenge hash config code now) s;
            current = current;
            room = room;
            code_matches = eq_refl (hash code);
          })))

  -- What a request leaves in the store of the phone it is for.
  abbrev pub AfterRequest : Option OtpRecord → Option OtpRecord → Request → String → ℕ → Type 0
  AfterRequest before found silent code now = found ≡ before
  AfterRequest before found sent code now = found ≡ some (challenge hash config code now)
  AfterRequest before found failed code now = found ≡ none

  requested :
      (phone code : String) (sends : Bool) (now : ℕ) (s : OtpStore)
      → (cool sends : Bool)
      → let o : Request × OtpStore =
          if cool
          then (silent, s)
          else if sends
          then (sent, put phone (challenge hash config code now) s)
          else (failed, remove phone (put phone (challenge hash config code now) s)) in
        AfterRequest (get phone s) (get phone o.1) o.0 code now
  requested phone code sends now s true sends' = refl
  requested phone code sends now s false true = get-put_self phone _ s
  requested phone code sends now s false false = get-remove_self phone _

  -- A request in the cooldown changes nothing; one whose message is sent leaves a fresh challenge
  -- with no attempts made; one whose message fails leaves none, so that a user is never kept
  -- waiting for a code that was not sent.
  pub request_otp-AfterRequest :
      (phone code : String) (sends : Bool) (now : ℕ) (s : OtpStore)
      → let o = request_otp hash config phone code sends now s in
        AfterRequest (get phone s) (get phone o.1) o.0 code now
  unfolding request_otp
  request_otp-AfterRequest phone code sends now s = requested phone code sends now s _ sends
