-- ===== src/Paperclip/Http/RateLimit/Window.antt =====
-- The bucket of the rate limiter, which forgets, decides as the log of all admitted requests does.
use agentopia.Prelude.{
  ℕ, ◌≤◌, ◌≡◌, refl, Bool, true, false, not, List, [], ◌∷◌, ◌++◌, leb, length, select, arith, ap,
  ◌∙◌, sym, All, if◌then◌else◌,
}
use agentopia.Paperclip.Http.RateLimit.{is_over, expire, allow_bucket, decide}

-- The decisions of one bucket for requests at the given times.
unfoldable pub run_bucket : ℕ → ℕ → List ℕ → List ℕ → List Bool
run_bucket limit window [] bucket = []
run_bucket limit window (now ∷ times) bucket =
    let (admitted, next) = allow_bucket limit window now bucket in
    admitted ∷ run_bucket limit window times next

-- The decisions over the log.
unfoldable pub run_log : ℕ → ℕ → List ℕ → List ℕ → List Bool
run_log limit window [] log = []
run_log limit window (now ∷ times) log =
    let longer = run_log limit window times (log ++ now ∷ []) in
    let same = run_log limit window times log in
    decide limit window now log ∷ (if decide limit window now log then longer else same)

abbrev pub IsOrdered : ℕ → List ℕ → Type 0
IsOrdered last [] = Unit
IsOrdered last (t ∷ ts) = (last ≤ t) × IsOrdered t ts

abbrev recent : ℕ → ℕ → List ℕ → List ℕ
recent window now log = select (λ t. not (is_over window now t)) log

select-append : (p : ℕ → Bool) (xs ys : List ℕ) → select p (xs ++ ys) ≡ select p xs ++ select p ys
select-append p [] ys = refl
select-append p (x ∷ xs) ys = ground (arith, select-append p xs ys)

expire_twice :
    (window now later : ℕ) (b : List ℕ)
    → now ≤ later
    → expire window later (expire window now b) ≡ expire window later b
unfolding expire
expire_twice window now later [] h = refl
expire_twice window now later (t ∷ ts) h = ground (arith, expire_twice window now later ts h)

expire-append :
    (window now later : ℕ) (b : List ℕ)
    → All (λ t. t ≤ now) b
    → expire window later (b ++ now ∷ []) ≡ expire window later b ++ recent window later (now ∷ [])
unfolding expire
expire-append window now later [] h = ground arith
expire-append window now later (t ∷ ts) (le, rest) =
    ground (arith, expire-append window now later ts rest)

All-if :
    (c : Bool) (n : ℕ) (xs ys : List ℕ)
    → All (λ t. t ≤ n) xs
    → All (λ t. t ≤ n) ys
    → All (λ t. t ≤ n) (if c then xs else ys)
All-if true n xs ys a b = a
All-if false n xs ys a b = b

expire-All :
    (window now n : ℕ) (b : List ℕ) → All (λ t. t ≤ n) b → All (λ t. t ≤ n) (expire window now b)
unfolding expire
expire-All window now n [] h = tt
expire-All window now n (t ∷ ts) (le, rest) =
    All-if (is_over window now t) n (expire window now ts) (t ∷ ts)
      (expire-All window now n ts rest) (le, rest)

All-later : (n m : ℕ) (b : List ℕ) → n ≤ m → All (λ t. t ≤ n) b → All (λ t. t ≤ m) b
All-later n m [] h a = tt
All-later n m (t ∷ ts) h (le, rest) = (omega arith, All-later n m ts h rest)

All-append : (n : ℕ) (b : List ℕ) → All (λ t. t ≤ n) b → All (λ t. t ≤ n) (b ++ n ∷ [])
All-append n [] a = (omega arith, tt)
All-append n (t ∷ ts) (le, rest) = (le, All-append n ts rest)

-- The bucket holds what the log has in the window, at every moment from now on.
record Represents (window last : ℕ) (log bucket : List ℕ) : Type 0 where
  before : All (λ t. t ≤ last) bucket
  same : (later : ℕ) → last ≤ later → recent window later log ≡ expire window later bucket

module _ (limit window : ℕ) where
  refused-Represents :
      (last now : ℕ) (log b : List ℕ)
      → last ≤ now
      → Represents window last log b
      → Represents window now log (expire window now b)
  refused-Represents last now log b h r = record {
    before = expire-All window now now b (All-later last now b h r.before);
    same = λ later le.
        let from : last ≤ later = omega arith in
        r.same later from ∙ sym (expire_twice window now later b le);
  }

  admitted-Represents :
      (last now : ℕ) (log b : List ℕ)
      → last ≤ now
      → Represents window last log b
      → Represents window now (log ++ now ∷ []) (expire window now b ++ now ∷ [])
  admitted-Represents last now log b h r =
      let kept = expire-All window now now b (All-later last now b h r.before) in
      record {
        before = All-append now (expire window now b) kept;
        same = λ later le.
            let from : last ≤ later = omega arith in
            select-append (λ t. not (is_over window later t)) log (now ∷ [])
            ∙ ap (λ xs. xs ++ recent window later (now ∷ []))
                (r.same later from ∙ sym (expire_twice window now later b le))
            ∙ sym (expire-append window now later (expire window now b) kept);
      }

  -- One request: the same decision, and the bucket still represents the log.
  decided :
      (last now : ℕ) (log b : List ℕ)
      → last ≤ now
      → Represents window last log b
      → decide limit window now log ≡ not (leb limit (length (expire window now b)))
  decided last now log b h r = ap (λ xs. not (leb limit (length xs))) (r.same now h)

  run-Represents :
      (times : List ℕ) (last : ℕ) (log b : List ℕ)
      → IsOrdered last times
      → Represents window last log b
      → run_bucket limit window times b ≡ run_log limit window times log
  unfolding run_bucket run_log allow_bucket
  run-Represents [] last log b ordered r = refl
  run-Represents (now ∷ times) last log b (le, ordered) r =
      let refused =
        run-Represents times now log (expire window now b) ordered
          (refused-Represents last now log b le r) in
      let admitted =
        run-Represents times now (log ++ now ∷ []) (expire window now b ++ now ∷ []) ordered
          (admitted-Represents last now log b le r) in
      ground (arith, refused, admitted, decided last now log b le r)

  -- For requests in the order of time, the limiter decides as the test "fewer than the limit were
  -- admitted in the window" on the log of all the requests that it admitted.
  pub run_bucket-run_log :
      (times : List ℕ)
      → IsOrdered 0 times
      → run_bucket limit window times [] ≡ run_log limit window times []
  unfolding expire
  run_bucket-run_log times ordered =
      run-Represents times 0 [] [] ordered (record { before = tt; same = λ later le. refl })
