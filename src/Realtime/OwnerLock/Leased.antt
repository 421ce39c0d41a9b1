-- ===== src/Realtime/OwnerLock/Leased.antt =====
-- Within the lease of an owner no other server owns the board.
use hamboom.Base.{
  sym, subst, ap, ◌⊎◌, Option, ℕ, ◌+◌, ◌≤◌, ◌<◌, ◌≡◌, ◌≢◌, refl, ◌∙◌, Bool, true, false, String,
  none, some, List, [], ◌∷◌, ◌===◌, arith, Bool-cases, inl, inr, eq_iff,
}
use hamboom.Realtime.OwnerLock.{Redis, is_held_by, acquire, renew, release}

-- What the documentation of Redis says of the commands: a key that is set or renewed shows its value
-- until the seconds are over, NX leaves a key that is there, and other keys are not touched.
pub record IsRedis (R : Redis) : Type 0 where
  pub set_there :
      (k v w : String) (seconds now : ℕ) (s : R.Store)
      → R.get k now s ≡ some w
      → R.set_nx k v seconds now s ≡ (s, false)
  pub set_done :
      (k v : String) (seconds now : ℕ) (s : R.Store)
      → R.get k now s ≡ none
      → (R.set_nx k v seconds now s).1 ≡ true
  pub set_shows :
      (k v : String) (seconds now t : ℕ) (s : R.Store)
      → R.get k now s ≡ none
      → now ≤ t
      → t < now + seconds
      → R.get k t (R.set_nx k v seconds now s).0 ≡ some v
  pub set_other :
      (k j v : String) (seconds now t : ℕ) (s : R.Store)
      → (k === j) ≡ false
      → R.get j t (R.set_nx k v seconds now s).0 ≡ R.get j t s
  pub expire_shows :
      (k v : String) (seconds now t : ℕ) (s : R.Store)
      → R.get k now s ≡ some v
      → now ≤ t
      → t < now + seconds
      → R.get k t (R.expire k seconds now s) ≡ some v
  pub expire_other :
      (k j : String) (seconds now t : ℕ) (s : R.Store)
      → (k === j) ≡ false
      → R.get j t (R.expire k seconds now s) ≡ R.get j t s
  pub del_other :
      (k j : String) (t : ℕ) (s : R.Store) → (k === j) ≡ false → R.get j t (R.del k s) ≡ R.get j t s

-- The calls of all servers, each at its time.
pub data Call : Type 0 where
  acquires : (board node : String) (now : ℕ) → Call
  renews : (board node : String) (now : ℕ) → Call
  releases : (board node : String) (now : ℕ) → Call

module _ {R : Redis} (law : IsRedis R) (seconds : ℕ) where
  abbrev pub call : Call → R.Store → R.Store
  call (acquires board node now) s = (acquire R board node seconds now s).0
  call (renews board node now) s = (renew R board node seconds now s).0
  call (releases board node now) s = release R board node now s

  abbrev pub calls : List Call → R.Store → R.Store
  calls [] s = s
  calls (c ∷ cs) s = calls cs (call c s)

  module _ (board node : String) (from : ℕ) where
    -- The board shows the node from now to the end of the lease.
    abbrev Held : ℕ → R.Store → Type 0
    Held now s = (t : ℕ) → now ≤ t → t < from + seconds → R.get board t s ≡ some node

    abbrev time_of : Call → ℕ
    time_of (acquires b n t) = t
    time_of (renews b n t) = t
    time_of (releases b n t) = t

    -- The owner does not give its board up.
    abbrev Keeps : Call → Type 0
    Keeps (acquires b n t) = Unit
    Keeps (renews b n t) = Unit
    Keeps (releases b n t) = (b ≡ board) → n ≢ node

    -- The calls come in the order of their times, within the lease, and none gives the board up.
    abbrev pub AreLater : ℕ → List Call → Type 0
    AreLater now [] = Unit
    AreLater now (c ∷ cs) =
        (now ≤ time_of c) × (time_of c < from + seconds) × Keeps c × AreLater (time_of c) cs

    abbrev pub last_time : ℕ → List Call → ℕ
    last_time now [] = now
    last_time now (c ∷ cs) = last_time (time_of c) cs

    Held-later : (now t : ℕ) (s : R.Store) → now ≤ t → Held now s → Held t s
    Held-later now t s le h u a b = h u (omega arith) b

    acquire-store :
        (b n : String) (t : ℕ) (s : R.Store)
        → (acquire R b n seconds t s).0 ≡ (R.set_nx b n seconds t s).0
    unfolding acquire
    acquire-store b n t s = elim (Bool-cases (R.set_nx b n seconds t s).1) [
      | inl done ↦ rw done refl
      | inr there ↦ rw there refl
    ]

    shown_at :
        (b : String) (t : ℕ) (s : R.Store)
        → (b === board) ≡ true
        → t < from + seconds
        → Held t s
        → R.get b t s ≡ some node
    shown_at b t s same l h = rw ((eq_iff b board).0 same) (h t (omega arith) l)

    acquire-Held :
        (b n : String) (t : ℕ) (s : R.Store)
        → t < from + seconds
        → Held t s
        → Held t (acquire R b n seconds t s).0
    unfolding acquire
    acquire-Held b n t s l h u a e = rw (acquire-store b n t s) (elim (Bool-cases (b === board)) [
      | inl same ↦
          let shown = shown_at b t s same l h in
          rw (law.set_there b n node seconds t s shown) (h u a e)
      | inr other ↦ law.set_other b board n seconds t u s other ∙ h u a e
    ])

    renew-Held :
        (b n : String) (t : ℕ) (s : R.Store)
        → from ≤ t
        → t < from + seconds
        → Held t s
        → Held t (renew R b n seconds t s).0
    unfolding renew
    renew-Held b n t s f l h u a e = elim (Bool-cases (b === board)) [
      | inl same ↦
          let eb : b ≡ board = (eq_iff b board).0 same in
          let shown = shown_at b t s same l h in
          elim (Bool-cases (is_held_by (R.get b t s) n)) [
            | inl held ↦ rw held (
                subst (λ k. R.get k u (R.expire b seconds t s) ≡ some node) eb
                  (law.expire_shows b node seconds t u s shown a (omega arith)))
            | inr free ↦ rw free (h u a e)
          ]
      | inr other ↦ elim (Bool-cases (is_held_by (R.get b t s) n)) [
        | inl held ↦ rw held (law.expire_other b board seconds t u s other ∙ h u a e)
        | inr free ↦ rw free (h u a e)
      ]
    ]

    release-Held :
        (b n : String) (t : ℕ) (s : R.Store)
        → t < from + seconds
        → ((b ≡ board) → n ≢ node)
        → Held t s
        → Held t (release R b n t s)
    unfolding release
    release-Held b n t s l k h u a e = elim (Bool-cases (is_held_by (R.get b t s) n)) [
      | inr free ↦ rw free (h u a e)
      | inl held ↦ elim (Bool-cases (b === board)) [
        | inr other ↦ rw held (law.del_other b board u s other ∙ h u a e)
        | inl same ↦
            let owns : (node === n) ≡ true = rw (shown_at b t s same l h) at held in
            absurd (k ((eq_iff b board).0 same) (sym ((eq_iff node n).0 owns)))
      ]
    ]

    call-Held :
        (c : Call) (s : R.Store)
        → from ≤ time_of c
        → time_of c < from + seconds
        → Keeps c
        → Held (time_of c) s
        → Held (time_of c) (call c s)
    call-Held (acquires b n t) s f l k h = acquire-Held b n t s l h
    call-Held (renews b n t) s f l k h = renew-Held b n t s f l h
    call-Held (releases b n t) s f l k h = release-Held b n t s l k h

    calls-Held :
        (cs : List Call) (now : ℕ) (s : R.Store)
        → from ≤ now
        → AreLater now cs
        → Held now s
        → Held (last_time now cs) (calls cs s)
    calls-Held [] now s f a h = h
    calls-Held (c ∷ cs) now s f (le, l, k, a) h =
        calls-Held cs (time_of c) (call c s) (omega arith) a
          (call-Held c s (omega arith) l k (Held-later now (time_of c) s le h))

    refused_lem :
        (other : String) (t : ℕ) (s : R.Store)
        → t < from + seconds
        → node ≢ other
        → Held t s
        → ((acquire R board other seconds t s).1 ≡ false)
          × ((renew R board other seconds t s).1 ≡ false)
    unfolding acquire renew
    refused_lem other t s l n h =
        let shown = h t (omega arith) l in
        let not_held : (node === other) ≡ false = ground (arith, eq_iff node other) in
        (
          rw (law.set_there board other node seconds t s shown) (rw shown not_held),
          rw shown (rw not_held refl),
        )

    shows_node : (o : Option String) → is_held_by o node ≡ true → o ≡ some node
    shows_node none h = ground arith
    shows_node (some holder) h = ap some ((eq_iff holder node).0 h)

    renewed-Held :
        (s : R.Store)
        → (renew R board node seconds from s).1 ≡ true
        → Held from (renew R board node seconds from s).0
    unfolding renew
    renewed-Held s h u a l = elim (Bool-cases (is_held_by (R.get board from s) node)) [
      | inl held ↦
          let shown = shows_node (R.get board from s) held in
          rw held (law.expire_shows board node seconds from u s shown a l)
      | inr free ↦ ground (arith, h, free)
    ]

    acquired-Held :
        (s : R.Store)
        → R.get board from s ≡ none
        → Held from (acquire R board node seconds from s).0
    acquired-Held s free u a l =
        rw (acquire-store board node from s) (law.set_shows board node seconds from u s free a l)

    -- A new lease of the board: the node sets the key of a free board, or renews the one it holds.
    abbrev pub Leases : R.Store → R.Store × Bool → Type 0
    Leases s held =
        ((R.get board from s ≡ none) × (held ≡ acquire R board node seconds from s))
        ⊎ ((held ≡ renew R board node seconds from s) × (held.1 ≡ true))

    Leases-Held : (s : R.Store) (held : R.Store × Bool) → Leases s held → Held from held.0
    Leases-Held s held (inl (free, e)) = rw e (acquired-Held s free)
    Leases-Held s held (inr (e, done)) =
        rw e (renewed-Held s (subst (λ (h : R.Store × Bool). h.1 ≡ true) e done))

    Leases-true : (s : R.Store) (held : R.Store × Bool) → Leases s held → held.1 ≡ true
    unfolding acquire
    Leases-true s held (inl (free, e)) =
        rw e (rw (law.set_done board node seconds from s free) refl)
    Leases-true s held (inr (e, done)) = done

  -- A server that acquires a free board, or whose renewal of the board is confirmed, has it for a
  -- whole lease from then on: it is told so, and through any calls of all servers, in the order of
  -- their times within that lease, of which none is its own release of the board, every other server
  -- that tries to acquire or to renew the board within the lease is refused. It rests on what Redis
  -- documents of its commands, on one clock.
  pub acquire-refused :
      (board node other : String) (from t : ℕ) (s : R.Store) (held : R.Store × Bool)
      → (cs : List Call) → Leases board node from s held
      → AreLater board node from from cs
      → last_time board node from from cs ≤ t
      → t < from + seconds
      → node ≢ other
      → (held.1 ≡ true)
        × ((acquire R board other seconds t (calls cs held.0)).1 ≡ false)
        × ((renew R board other seconds t (calls cs held.0)).1 ≡ false)
  acquire-refused board node other from t s held cs g a le l n =
      let taken = held.0 in
      let h =
        calls-Held board node from cs from taken (omega arith) a
          (Leases-Held board node from s held g) in
      let refused =
        refused_lem board node from other t (calls cs taken) l n (
          Held-later board node from (last_time board node from from cs) t (calls cs taken) le h) in
      (Leases-true board node from s held g, refused.0, refused.1)
