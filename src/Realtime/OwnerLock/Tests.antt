-- ===== src/Realtime/OwnerLock/Tests.antt =====
-- A Redis that is a dictionary of values with the times at which they expire.
use hamboom.Base.{
  ℕ, ◌+◌, ◌<◌, ◌≡◌, refl, Bool, true, false, String, Option, none, some, [], ltb, ◌===◌,
  if◌then◌else◌, arith, inr, eq_iff, eq_refl,
}
use hamboom.Base.Dict.{Dict, get, put, remove, get-put, get-remove}
use hamboom.Realtime.OwnerLock.{Redis, acquire, renew}
use hamboom.Realtime.OwnerLock.Leased.{IsRedis, acquire-refused}

abbrev shown : ℕ → Option (String × ℕ) → Option String
shown now none = none
shown now (some (value, until)) = if ltb now until then some value else none

abbrev renewed : ℕ → Option (String × ℕ) → Option (String × ℕ)
renewed until none = none
renewed until (some (value, _)) = some (value, until)

abbrev put_if : String → Option (String × ℕ) → Dict (String × ℕ) → Dict (String × ℕ)
put_if k none s = s
put_if k (some entry) s = put k entry s

abbrev set_if_free :
    (k v : String) (until : ℕ) → Option String → Dict (String × ℕ) → Dict (String × ℕ) × Bool
set_if_free k v until none s = (put k (v, until) s, true)
set_if_free k v until (some _) s = (s, false)

abbrev table : Redis
table = record {
  Store = Dict (String × ℕ);
  get = λ k now s. shown now (get k s);
  set_nx = λ k v seconds now s. set_if_free k v (now + seconds) (shown now (get k s)) s;
  expire = λ k seconds now s. put_if k (renewed (now + seconds) (get k s)) s;
  del = remove;
}

module _ (k j : String) (e : (k === j) ≡ false) where
  set_if-other :
      (v : String) (until t : ℕ) (o : Option String) (s : Dict (String × ℕ))
      → shown t (get j (set_if_free k v until o s).0) ≡ shown t (get j s)
  set_if-other v until t none s = rw (get-put k j (v, until) s) (rw e refl)
  set_if-other v until t (some _) s = refl

  put_if-other :
      (t : ℕ) (o : Option (String × ℕ)) (s : Dict (String × ℕ))
      → shown t (get j (put_if k o s)) ≡ shown t (get j s)
  put_if-other t none s = refl
  put_if-other t (some entry) s = rw (get-put k j entry s) (rw e refl)

renewed-shown :
    (k v : String) (until now t : ℕ) (o : Option (String × ℕ)) (s : Dict (String × ℕ))
    → shown now o ≡ some v
    → t < until
    → shown t (get k (put_if k (renewed until o) s)) ≡ some v
renewed-shown k v until now t none s e l = cc
renewed-shown k v until now t (some (w, old)) s e l =
    rw (get-put k k (w, until) s) (rw (eq_refl k) (ground arith))

table-IsRedis : IsRedis table
table-IsRedis = record {
  set_there = λ k v w seconds now s e. rw e refl;
  set_done = λ k v seconds now s e. rw e refl;
  set_shows = λ k v seconds now t s e a l.
      rw (e, table) (rw (get-put k k (v, now + seconds) s) (rw (eq_refl k) (ground arith)));
  set_other =
      λ k j v seconds now t s e. set_if-other k j e v (now + seconds) t (shown now (get k s)) s;
  expire_shows =
      λ k v seconds now t s e a l. renewed-shown k v (now + seconds) now t (get k s) s e l;
  expire_other =
      λ k j seconds now t s e. put_if-other k j e t (renewed (now + seconds) (get k s)) s;
  del_other = λ k j t s e. rw (get-remove k j s) (rw e refl);
}

-- Two servers and a lease of 30 seconds that is renewed after 20.
abbrev first_lease : Dict (String × ℕ)
first_lease = (acquire table "board" "n1" 30 80 []).0

acquire-refused_example :
    let held = renew table "board" "n1" 30 100 first_lease in
    (held.1 ≡ true)
    × ((acquire table "board" "n2" 30 129 held.0).1 ≡ false)
    × ((renew table "board" "n2" 30 129 held.0).1 ≡ false)
unfolding get put acquire renew
acquire-refused_example =
    acquire-refused table-IsRedis 30 "board" "n1" "n2" 100 129 first_lease
      (renew table "board" "n1" 30 100 first_lease) [] (inr (refl, refl)) tt (omega arith)
      (omega arith) (ground (arith, eq_iff "n1" "n2"))
