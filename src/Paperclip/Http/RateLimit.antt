-- ===== src/Paperclip/Http/RateLimit.antt =====
-- scripts/rate_limit.py: at most so many requests of a client in a sliding window.
pub mod Window
use agentopia.Prelude.{
  ℕ, ◌+◌, ◌≤◌, ◌<◌, ◌≡◌, refl, String, Option, none, some, Bool, true, false, List, [], ◌∷◌, ◌++◌,
  leb, if◌then◌else◌, length, select, not, arith, ap, ◌∙◌, sym, All, Bool-cases, inl, inr,
  length-append,
}
use agentopia.Prelude.Table.{Table, lookup, replace}

-- `bucket[0] <= now - window_seconds`
abbrev pub is_over : ℕ → ℕ → ℕ → Bool
is_over window now t = leb (t + window) now

-- The `while` that takes requests off the left of the bucket.
unfoldable pub expire : ℕ → ℕ → List ℕ → List ℕ
expire window now [] = []
expire window now (t ∷ ts) =
    let rest = expire window now ts in if is_over window now t then rest else t ∷ ts

-- `allow` for the bucket of one key.
unfoldable pub allow_bucket : ℕ → ℕ → ℕ → List ℕ → Bool × List ℕ
allow_bucket limit window now bucket =
    let recent = expire window now bucket in
    if leb limit (length recent) then (false, recent) else (true, recent ++ now ∷ [])

abbrev bucket_of : Option (List ℕ) → List ℕ
bucket_of none = []
bucket_of (some b) = b

unfoldable pub allow : ℕ → ℕ → ℕ → String → Table (List ℕ) → Bool × Table (List ℕ)
allow limit window now key buckets =
    let (admitted, bucket) = allow_bucket limit window now (bucket_of (lookup key buckets)) in
    (admitted, replace key bucket buckets)

-- The same decision over a log of all the requests that were admitted: count those of the window.
abbrev pub decide : ℕ → ℕ → ℕ → List ℕ → Bool
decide limit window now log =
    not (leb limit (length (select (λ t. not (is_over window now t)) log)))
