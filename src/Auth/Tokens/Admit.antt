-- ===== src/Auth/Tokens/Admit.antt =====
-- Who is let in to a board.
use hamboom.Base.{
  Bool-cases, if_split, ℕ, ◌+◌, ◌*◌, ◌≤◌, ◌≡◌, ◌≢◌, ◌↔◌, sym, refl, ap, subst, true, not, String,
  Option, none, some, ◌===◌, arith, ltb, eq_iff, inl, inr,
}
use hamboom.Base.Dict.{ne_of_false}
use hamboom.Billing.Gateway.Zarinpal.{Value}
use hamboom.Auth.Roles.{BoardRole}
use hamboom.Auth.Tokens.{
  Jwt, payload, jwt_expired, signature_failed, algorithm_not_allowed, other_error, RtTokenClaims,
  Result, parse_claims, check_claims, verify_rt_token, admitted, refused, admission_of, verify,
  Admission, CurrentRole, unknown, gone, now_is, effective_role, joins, with_role, accepted_of,
  accept_connection,
}

-- A token that jose accepts, whose payload is the claims, for this board, and not valid for longer
-- than twice the life that tokens are given.
pub record IsAdmissible (jwt : Jwt) (board : String) (ttl_seconds now : ℕ) (c : RtTokenClaims)
    : Type 0 where
  pub body : Value
  pub verified : jwt ≡ payload body
  pub claims : parse_claims body ≡ some c
  pub this_board : c.board_id ≡ board
  pub short : c.exp ≤ now + 2 * ttl_seconds

payload-inj : {a b : Value} → payload a ≡ payload b → b ≡ a
payload-inj h = cc

admitted-inj : {c d : RtTokenClaims} → admitted c ≡ admitted d → c ≡ d
admitted-inj h = cc

checked :
    (board : String) (ttl_seconds now : ℕ) (o : Option RtTokenClaims) (c : RtTokenClaims)
    → admission_of (check_claims board ttl_seconds now o) ≡ admitted c
    → (o ≡ some c) × ((c.board_id === board) ≡ true) × (c.exp ≤ now + 2 * ttl_seconds)
unfolding admission_of check_claims
checked board ttl_seconds now none c h = ground arith
checked board ttl_seconds now (some d) c h =
    if_split P (ltb (now + 2 * ttl_seconds) d.exp) (λ _ h. ground arith)
      (λ short.
        if_split P (not (d.board_id === board)) (λ _ h. ground arith)
          (λ here h.
            let q : d ≡ c = admitted-inj h in
            (
              ap some q,
              subst (λ c. (c.board_id === board) ≡ true) q (ground (arith, here)),
              subst (λ c. c.exp ≤ now + 2 * ttl_seconds) q (ground (arith, short)),
            )))
      h
  where
    P : Result RtTokenClaims → Type 0
    P r =
        admission_of r ≡ admitted c
        → (some d ≡ some c) × ((c.board_id === board) ≡ true) × (c.exp ≤ now + 2 * ttl_seconds)

checks :
    (board : String) (ttl_seconds now : ℕ) (c : RtTokenClaims)
    → (c.board_id === board) ≡ true
    → c.exp ≤ now + 2 * ttl_seconds
    → admission_of (check_claims board ttl_seconds now (some c)) ≡ admitted c
unfolding admission_of check_claims
checks board ttl_seconds now c e l = ground arith

module _ (jwt : String → Jwt) (board : String) (ttl_seconds now : ℕ) where
  jwt-IsAdmissible :
      (j : Jwt) (c : RtTokenClaims)
      → (admission_of (verify_rt_token j board ttl_seconds now) ≡ admitted c)
        ↔ IsAdmissible j board ttl_seconds now c
  unfolding verify_rt_token admission_of
  jwt-IsAdmissible (payload p) c = (
    λ h.
        let (e, here, short) = checked board ttl_seconds now (parse_claims p) c h in
        record {
          body = p;
          verified = refl;
          claims = e;
          this_board = (eq_iff c.board_id board).0 here;
          short = short;
        },
    λ a.
        let same : a.body ≡ p = payload-inj a.verified in
        subst (λ o. admission_of (check_claims board ttl_seconds now o) ≡ admitted c)
          (sym (subst (λ b. parse_claims b ≡ some c) same a.claims))
          (checks board ttl_seconds now c ((eq_iff c.board_id board).1 a.this_board) a.short),
  )
  jwt-IsAdmissible jwt_expired c = (λ h. ground arith, λ a. ground (arith, a.verified))
  jwt-IsAdmissible signature_failed c = (λ h. ground arith, λ a. ground (arith, a.verified))
  jwt-IsAdmissible algorithm_not_allowed c = (λ h. ground arith, λ a. ground (arith, a.verified))
  jwt-IsAdmissible other_error c = (λ h. ground arith, λ a. ground (arith, a.verified))

  -- The authority accepts a token with some claims exactly when it is not empty, jose accepts it, its
  -- payload is these claims, they are for the board that is opened, and they expire no later than
  -- twice the life of a token from now.
  pub verify-IsAdmissible :
      (token : String) (c : RtTokenClaims)
      → (verify jwt token board ttl_seconds now ≡ admitted c)
        ↔ ((token ≢ "") × IsAdmissible (jwt token) board ttl_seconds now c)
  unfolding verify
  verify-IsAdmissible token c = elim (Bool-cases (token === "")) [
    | inl missing ↦
        rw missing (λ h. ground arith, λ (n, a). absurd (n ((eq_iff token "").0 missing)))
    | inr given ↦
        let k = jwt-IsAdmissible (jwt token) c in
        rw given (λ h. (ne_of_false token "" given, k.0 h), λ (n, a). k.1 a)
  ]

  -- The role that a session gets: the one that the authority names now, or the token's where it
  -- names none.
  abbrev pub IsRoleNow : CurrentRole → BoardRole → BoardRole → Type 0
  IsRoleNow unknown of_token role = of_token ≡ role
  IsRoleNow gone of_token role = ⊥
  IsRoleNow (now_is r) of_token role = r ≡ role

  module _ (current : RtTokenClaims → CurrentRole) where
    joins-IsRoleNow :
        (c d : RtTokenClaims) (role : BoardRole) (k : CurrentRole)
        → (with_role d (effective_role k d.role) ≡ joins c role)
          ↔ ((d ≡ c) × IsRoleNow k d.role role)
    unfolding effective_role
    joins-IsRoleNow c d role unknown = (λ h. (cc, cc), λ (e, r). cc)
    joins-IsRoleNow c d role gone = (λ h. ground arith, λ (e, r). absurd r)
    joins-IsRoleNow c d role (now_is k) = (λ h. (cc, cc), λ (e, r). cc)

    accepted_of-joins :
        (c : RtTokenClaims) (role : BoardRole) (a : Admission)
        → (accepted_of current a ≡ joins c role)
          ↔ ((a ≡ admitted c) × IsRoleNow (current c) c.role role)
    unfolding accepted_of
    accepted_of-joins c role (refused e) = (λ h. ground arith, λ (e, r). ground arith)
    accepted_of-joins c role (admitted d) = (
      λ h.
          let (e, r) = (joins-IsRoleNow c d role (current d)).0 h in
          (ap admitted e, subst (λ (x : RtTokenClaims). IsRoleNow (current x) x.role role) e r),
      λ (e, r).
          let same : c ≡ d = sym (admitted-inj e) in
          (joins-IsRoleNow c d role (current d)).1
            (sym same, subst (λ (x : RtTokenClaims). IsRoleNow (current x) x.role role) same r),
    )

    -- The session of a connection is handed to the room, with some claims and a role, exactly when it
    -- brings a token, jose accepts it, its payload is these claims, they are for the board that is
    -- opened and expire no later than twice the life of a token from now, and the role is the one
    -- that the authority names for the user now, or the token's where it names none; where it says
    -- that the access is gone, or its answer fails, no session is made. The room may still refuse the
    -- session.
    pub accept_connection-IsAdmissible :
        (token : String) (c : RtTokenClaims) (role : BoardRole)
        → (accept_connection jwt current token board ttl_seconds now ≡ joins c role) ↔ (
            (token ≢ "")
            × IsAdmissible (jwt token) board ttl_seconds now c
            × IsRoleNow (current c) c.role role)
    unfolding accept_connection
    accept_connection-IsAdmissible token c role =
        let k = accepted_of-joins c role (verify jwt token board ttl_seconds now) in
        let v = verify-IsAdmissible token c in
        (
          λ h. let (e, r) = k.0 h in let (n, a) = v.0 e in (n, a, r),
          λ (n, a, r). k.1 (v.1 (n, a), r),
        )
