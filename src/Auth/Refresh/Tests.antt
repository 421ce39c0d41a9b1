-- ===== src/Auth/Refresh/Tests.antt =====
-- A session that is renewed, and its first token presented again.
use hamboom.Base.{◌≡◌, ◌⊎◌, ◌↔◌, refl, true, false, String, some, [], ◌∷◌, ◌===◌}
use hamboom.Base.Dict.{get}
use hamboom.Auth.Refresh.{
  ok, err, invalid, reuse, expired, SessionRecord, SessionStore, start_session, rotate_session,
  revoke_all_for_user, find_by_hash,
}
use hamboom.Auth.Refresh.Store.{IsLive}
use hamboom.Auth.Refresh.Live.{starts, presents, step, Reach, start, after, Reach-IsSingle}
use hamboom.Auth.Refresh.Reuse.{run, rotate_session_once, rotate_session-burns}

abbrev same : String → String
same s = s

abbrev logged_in : SessionStore
logged_in = step same 100 [] (starts "user" "t1" "f" 0)

abbrev login : Reach same 100 logged_in
login = after start (starts "user" "t1" "f" 0) tt

abbrev renewed : SessionStore
renewed = step same 100 logged_in (presents "t1" "t2" 5 5)

abbrev renewal : Reach same 100 renewed
renewal = after login (presents "t1" "t2" 5 5) tt

abbrev first : SessionRecord
first = record { token_hash = "t1"; family_id = "f"; sub = "user"; used = true; expires_at = 100 }

abbrev second : SessionRecord
second = record { token_hash = "t2"; family_id = "f"; sub = "user"; used = false; expires_at = 105 }

renewed-both : renewed ≡ (("t1", first) ∷ ("t2", second) ∷ [])
unfolding step start_session rotate_session
renewed-both = refl

replayed-burns : (rotate_session same 100 "t1" "t3" 6 6 renewed).1 ≡ []
unfolding step start_session rotate_session
replayed-burns = refl

late-expired : (rotate_session same 100 "t2" "t3" 105 105 renewed).0 ≡ err expired
unfolding step start_session rotate_session
late-expired = refl

revoked-counts : revoke_all_for_user 7 "user" renewed ≡ (1, [])
unfolding step start_session rotate_session revoke_all_for_user
revoked-counts = refl

abbrev second_live : IsLive "f" renewed "t2"
unfolding step start_session rotate_session get
second_live = record { entry = second; found = refl; unused = refl; family = refl }

Reach-IsSingle_example : ◌≡◌ {A = String} "t2" "t2"
Reach-IsSingle_example =
    Reach-IsSingle same 100 renewed "f" "t2" "t2" renewal second_live second_live

taken_first :
    (rotate_session same 100 "t1" "t2" 5 5 logged_in).0
    ≡ ok (record { sub = "user"; refresh_token = "t2" })
unfolding step start_session rotate_session
taken_first = refl

rotate_session_once_example :
    let s =
      run same 100
        (rotate_session same 100 "t1" "t2" 5 5 logged_in).1
        (presents "t2" "t3" 6 6 ∷ []) in
    ((rotate_session same 100 "t1" "t4" 7 7 s).0 ≡ err invalid)
    ⊎ ((rotate_session same 100 "t1" "t4" 7 7 s).0 ≡ err reuse)
rotate_session_once_example =
    rotate_session_once same 100 logged_in "t1" "t2" 5 5 (presents "t2" "t3" 6 6 ∷ []) "t4" 7 7
      login taken_first refl (refl, tt)

found_first : find_by_hash "t1" renewed ≡ some first
unfolding step start_session rotate_session find_by_hash
found_first = refl

rotate_session-burns_example :
    let out = rotate_session same 100 "t1" "t4" 7 7 renewed in
    (out.0 ≡ err reuse)
    × ((find_by_hash "t2" out.1 ≡ some second)
        ↔ ((find_by_hash "t2" renewed ≡ some second) × (("f" === "f") ≡ false)))
rotate_session-burns_example =
    rotate_session-burns same 100 renewed "t1" "t4" 7 7 first "t2" second renewal found_first refl
