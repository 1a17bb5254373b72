-- ===== src/Auth/RateLimit/Window.antt =====
-- How many requests of one client pass in one window of internal/auth/rate_limit.go.
use yolo_ave_mujica.Base.{
  ℕ, suc, ◌+◌, ◌-◌, ◌≤◌, ◌<◌, min, ◌≡◌, refl, ◌∙◌, ◌⊎◌, inl, inr, pos, ltb, leb, nat_beq, Bool,
  true, false, ◌&&◌, ◌==◌, Text, text_key, text_beq, text_beq_iff, lookup, insert, lookup-insert,
  lookup-insert_self, List, [], ◌∷◌, some, arith, Bool-cases, Option-cases,
}
use yolo_ave_mujica.Auth.RateLimit.{
  FixedWindowBucket, FixedWindowLimiter, Buckets, allow, open_window, count_request,
}

-- Requests in the order in which they take the lock, each with the time it read and its client.
abbrev pub Requests : Type 0
Requests = List (ℕ × Text)

abbrev pub one_if : Bool → ℕ
one_if true = 1
one_if false = 0

-- The requests of the client, and those of them that pass.
unfoldable pub requests : Text → Requests → ℕ
requests key [] = 0
requests key ((now, k) ∷ rs) = one_if (k == key) + requests key rs

unfoldable pub passed : FixedWindowLimiter → Text → Requests → Buckets → ℕ
passed l key [] b = 0
passed l key ((now, k) ∷ rs) b =
    let (answer, b') = allow l k now b in one_if ((k == key) && answer.0) + passed l key rs b'

-- The requests of the client read a time before `end`.
abbrev pub Before : ℕ → Text → Requests → Type 0
Before end key [] = Unit {0}
Before end key ((now, k) ∷ rs) = (k ≡ key → now < end) × Before end key rs

-- A limiter that is switched on.
abbrev pub limiter_of : ℕ → ℕ → FixedWindowLimiter
limiter_of limit window = record { limit = pos limit; window = pos window }

module _ (limit window : ℕ) (some_limit : nat_beq limit 0 ≡ false)
    (some_window : nat_beq window 0 ≡ false) where
  -- The bucket of the client is written, or nothing is.
  allow-cases :
      (k : Text) (now : ℕ) (b : Buckets)
      → ((allow (limiter_of limit window) k now b).1 ≡ b)
        ⊎ ((x : FixedWindowBucket) × ((allow (limiter_of limit window) k now b).1 ≡ insert k x b))
  unfolding allow open_window count_request
  allow-cases k now b = elim (Option-cases (lookup k b)) [
    | inl e ↦ inr (record { window_start = now; count = 1 }, rw (some_limit, some_window, e) refl)
    | inr (x, e) ↦ elim (Bool-cases (ltb now (x.window_start + window))) [
      | inr late ↦
          inr (record { window_start = now; count = 1 }, rw (some_limit, some_window, e, late) refl)
      | inl early ↦ elim (Bool-cases (leb limit x.count)) [
        | inl full ↦ inl (rw (some_limit, some_window, e, early, full) refl)
        | inr room ↦
            inr
              (record x { count = suc x.count }, rw (some_limit, some_window, e, early, room) refl)
      ]
    ]
  ]

  -- A request of one client leaves the buckets of the others.
  allow-others :
      (k key : Text) (now : ℕ) (b : Buckets)
      → text_beq k key ≡ false
      → lookup key ((allow (limiter_of limit window) k now b).1) ≡ lookup key b
  allow-others k key now b differs = elim (allow-cases k now b) [
    | inl e ↦ rw e refl
    | inr (x, e) ↦ rw (e, lookup-insert key k x b, differs) refl
  ]

  -- In its window a bucket counts up to the limit.
  allow_counts :
      (key : Text) (now : ℕ) (b : Buckets) (x : FixedWindowBucket)
      → lookup key b ≡ some x
      → now < x.window_start + window
      → x.count < limit
      → allow (limiter_of limit window) key now b
        ≡ ((true, 0), insert key (record x { count = suc x.count }) b)
  unfolding allow count_request
  allow_counts key now b x at early room =
      let e : ltb now (x.window_start + window) ≡ true = ground arith in
      let f : leb limit x.count ≡ false = ground arith in
      rw (some_limit, some_window, at, e, f) refl

  allow_refuses :
      (key : Text) (now : ℕ) (b : Buckets) (x : FixedWindowBucket)
      → lookup key b ≡ some x
      → now < x.window_start + window
      → limit ≤ x.count
      → allow (limiter_of limit window) key now b ≡ ((false, x.window_start + window - now), b)
  unfolding allow count_request
  allow_refuses key now b x at early full =
      let e : ltb now (x.window_start + window) ≡ true = ground arith in
      let f : leb limit x.count ≡ true = ground arith in rw (some_limit, some_window, at, e, f) refl

  allow_opens :
      (key : Text) (now : ℕ) (b : Buckets)
      → ((x : FixedWindowBucket) → lookup key b ≡ some x → x.window_start + window ≤ now)
      → allow (limiter_of limit window) key now b
        ≡ ((true, 0), insert key (record { window_start = now; count = 1 }) b)
  unfolding allow open_window
  allow_opens key now b old = elim (Option-cases (lookup key b)) [
    | inl e ↦ rw (some_limit, some_window, e) refl
    | inr (x, e) ↦
        let late : ltb now (x.window_start + window) ≡ false = ground (arith, old x e) in
        rw (some_limit, some_window, e, late) refl
  ]

  -- The next request of the client, before those that the hypothesis is about.
  passed_next :
      (key : Text) (now : ℕ) (rs : Requests) (b : Buckets) (x : FixedWindowBucket)
      → lookup key b ≡ some x
      → x.count ≤ limit
      → now < x.window_start + window
      → ((b' : Buckets) (y : FixedWindowBucket)
          → lookup key b' ≡ some y
          → y.count ≤ limit
          → y.window_start ≡ x.window_start
          → passed (limiter_of limit window) key rs b' ≡ min (limit - y.count) (requests key rs))
      → passed (limiter_of limit window) key ((now, key) ∷ rs) b
        ≡ min (limit - x.count) (requests key ((now, key) ∷ rs))
  unfolding passed requests
  passed_next key now rs b x at fits early ih =
      let own : text_beq key key ≡ true = (text_beq_iff key key).1 refl in
      elim (Bool-cases (leb limit x.count)) [
        | inl full ↦
            let h = allow_refuses key now b x at early (ground arith) in
            let later = ih b x at fits refl in
            let none_left : x.count ≡ limit = ground arith in rw (own, h, later) (omega arith)
        | inr room ↦
            let h = allow_counts key now b x at early (ground arith) in
            let y : FixedWindowBucket = record x { count = suc x.count } in
            let later = ih (insert key y b) y (lookup-insert_self key y b) (ground arith) refl in
            let left : x.count < limit = ground arith in rw (own, h, later) (omega arith)
      ]

  -- While the window of the bucket is open, its client passes as long as there is room.
  passed_in_window :
      (key : Text) (rs : Requests) (b : Buckets) (x : FixedWindowBucket)
      → lookup key b ≡ some x
      → x.count ≤ limit
      → Before (x.window_start + window) key rs
      → passed (limiter_of limit window) key rs b ≡ min (limit - x.count) (requests key rs)
  unfolding passed requests
  passed_in_window key [] b x at fits before = omega arith
  passed_in_window key ((now, k) ∷ rs) b x at fits (early, before) =
      elim (Bool-cases (text_beq k key)) [
        | inr differs ↦
            let later =
              passed_in_window key rs ((allow (limiter_of limit window) k now b).1) x
                (allow-others k key now b differs ∙ at) fits before in
            rw (differs, later) (omega arith)
        | inl same ↦
            let e = (text_beq_iff k key).0 same in
            rw e (
              passed_next key now rs b x at fits (early e)
                (λ b' y at' fits' start. passed_in_window key rs b' y at' fits' (rw start before)))
      ]

  -- With a positive limit and window: when a request finds no window of its client open, then of it and
  -- the requests of that client until its window ends as many pass as there are, but no more than the
  -- limit, whatever other clients ask in between.
  pub passed_lem :
      (key : Text) (now : ℕ) (rs : Requests) (b : Buckets)
      → ((x : FixedWindowBucket) → lookup key b ≡ some x → x.window_start + window ≤ now)
      → Before (now + window) key rs
      → passed (limiter_of limit window) key ((now, key) ∷ rs) b ≡ min limit (suc (requests key rs))
  unfolding passed
  passed_lem key now rs b old before =
      let own : text_beq key key ≡ true = (text_beq_iff key key).1 refl in
      let x : FixedWindowBucket = record { window_start = now; count = 1 } in
      let h = allow_opens key now b old in
      let later =
        passed_in_window key rs (insert key x b) x (lookup-insert_self key x b) (ground arith)
          before in
      let positive : 1 ≤ limit = ground arith in rw (own, h, later) (omega arith)
