-- ===== src/Hermes/Http/Laws.antt =====
-- What a request to Hermes may do.
use agentopia.Prelude.{
  ◌≡◌, refl, ap, sym, ◌∙◌, ◌≢◌, ◌≤◌, ℕ, String, Bool, true, false, not, ◌&&◌, List, ◌==◌, arith,
  eq_iff, Bool-cases, inl, inr, if◌then◌else◌,
}
use agentopia.Prelude.Table.{Table}
use agentopia.Prelude.Json.{Json}
use agentopia.Python.{Except, ok, raise, ℤ, pos, negsuc, exceeds}
use agentopia.Paperclip.Http.Inputs.{validate_strings}
use agentopia.Paperclip.Http.RateLimit.{allow}
use agentopia.Hermes.Station.{Station, Deployment, pure, lift, ◌>>=◌}
use agentopia.Hermes.Http.Answers.{Request, Answer, Config, require_internal_auth, plain_error}
use agentopia.Hermes.Http.{
  is_input_error, read_body, post_parsed, post_read, post_sized, post_body, post_admitted,
  too_large, unauthorized, rate_limited, do_post,
}

-- A length that passes the limit: within it, or negative.
abbrev pub IsShort : ℕ → ℤ → Type 0
IsShort limit (pos n) = n ≤ limit
IsShort limit (negsuc n) = Unit

not_long : (limit : ℕ) (length : ℤ) → exceeds limit length ≡ false → IsShort limit length
not_long limit (pos n) small = ground arith
not_long limit (negsuc n) small = tt

module _ (d : Deployment) (cfg : Config) where
  -- What a request that changes anything has passed.
  pub record IsAdmitted (req : Request) (now : ℕ) (buckets : Table (List ℕ)) : Type 0 where
    pub is_free :
        (allow cfg.rate_limit_count cfg.rate_limit_window now req.client_ip buckets).0 ≡ true
    pub is_known : req.path ≡ "/internal/execute" → require_internal_auth cfg req ≡ true
    pub length : ℤ
    pub states_length : req.content_length ≡ ok length
    pub is_short : IsShort cfg.max_request_bytes length
    pub body : Json
    pub has_body : req.body ≡ ok body
    pub is_valid : validate_strings cfg.show_number body "<root>" ≡ ok tt

  read_body-ok :
      (req : Request) (body : Json)
      → read_body d cfg req ≡ ok body
      → (req.body ≡ ok body) × (validate_strings cfg.show_number body "<root>" ≡ ok tt)
  unfolding read_body
  read_body-ok req body e = go req.body e
    where
      validated :
          (j : Json) (v : Except (Unit {0}))
          → (elim v [ raise x ↦ raise x | ok _ ↦ ok j ]) ≡ ok body
          → (j ≡ body) × (v ≡ ok tt)
      validated j (ok tt) e = (cc, refl)
      validated j (raise x) e = absurd (cc)

      go :
          (r : Except Json)
          → (elim r [
            | raise x ↦ raise x
            | ok j ↦ elim (validate_strings cfg.show_number j "<root>") [
              | raise x ↦ raise x
              | ok _ ↦ ok j
            ]
          ])
            ≡ ok body
          → (r ≡ ok body) × (validate_strings cfg.show_number body "<root>" ≡ ok tt)
      go (raise x) e = absurd (cc)
      go (ok j) e =
          let (same, valid) = validated j (validate_strings cfg.show_number j "<root>") e in
          (ap ok same, ap (λ b. validate_strings cfg.show_number b "<root>") (sym same) ∙ valid)

  parsed_changes :
      (req : Request) (r : Except Json) (s : Station)
      → (post_parsed d cfg req r s).1 ≢ s
      → (body : Json) × (r ≡ ok body)
  unfolding post_parsed pure lift
  parsed_changes req (ok body) s h = (body, refl)
  parsed_changes req (raise e) s h = absurd (h (same (is_input_error d cfg e.kind)))
    where
      same : (b : Bool) → ((if b then pure (plain_error 400 e.message) else lift (raise e)) s).1 ≡ s
      same true = refl
      same false = refl

  sized_changes :
      (req : Request) (r : Except ℤ) (s : Station)
      → ((lift r >>= post_sized d cfg req) s).1 ≢ s
      → (n : ℤ) × (r ≡ ok n)
        × IsShort cfg.max_request_bytes n
        × ((body : Json) × (read_body d cfg req ≡ ok body))
  unfolding lift pure ◌>>=◌ post_read
  sized_changes req (raise e) s h = absurd (h refl)
  sized_changes req (ok n) s h = elim (Bool-cases (exceeds cfg.max_request_bytes n)) [
    | inl large ↦
        absurd
          (h (ap (λ b. ((if b then pure (too_large d cfg) else post_read d cfg req) s).1) large))
    | inr small ↦ (
      n,
      refl,
      not_long cfg.max_request_bytes n small,
      parsed_changes req (read_body d cfg req) s (λ e.
          h (
            ap (λ b. ((if b then pure (too_large d cfg) else post_read d cfg req) s).1) small ∙ e)),
    )
  ]

  admitted_changes :
      (req : Request) (s : Station)
      → (post_admitted d cfg req s).1 ≢ s
      → (req.path ≡ "/internal/execute" → require_internal_auth cfg req ≡ true)
        × ((post_body d cfg req s).1 ≢ s)
  unfolding post_admitted pure
  admitted_changes req s h =
      elim (Bool-cases (req.path == "/internal/execute" && not (require_internal_auth cfg req))) [
        | inl barred ↦ absurd (h (ap chosen barred))
        | inr passed ↦ (
          λ same.
              let named : (req.path == "/internal/execute") ≡ true =
                (eq_iff req.path "/internal/execute").1 same in
              ground arith,
          λ e. h (ap chosen passed ∙ e),
        )
      ]
    where
      chosen : Bool → Station
      chosen b = ((if b then pure (unauthorized d cfg) else post_body d cfg req) s).1

  -- A POST that changes anything of the process or its files (the stores, the files of the
  -- executor's host, the commands and processes started, the requests sent) was let through by the
  -- rate limiter, carries the token if its path is that of the executor, states a length that is
  -- within `max_request_bytes` or negative, and has a body that `json.loads` reads and that
  -- `validate_strings` accepts.
  pub changes_are-IsAdmitted :
      (req : Request) (now : ℕ) (buckets : Table (List ℕ)) (s : Station)
      → (do_post d cfg req now buckets s).1.0 ≢ s
      → IsAdmitted req now buckets
  unfolding do_post post_body
  changes_are-IsAdmitted req now buckets s h = elim (Bool-cases is_free) [
    | inl free ↦
        let (known, changes) = admitted_changes req s (λ e. h (ap chosen free ∙ e)) in
        let (n, states, small, (body, reads)) = sized_changes req req.content_length s changes in
        record {
          is_free = free;
          is_known = known;
          length = n;
          states_length = states;
          is_short = small;
          body = body;
          has_body = (read_body-ok req body reads).0;
          is_valid = (read_body-ok req body reads).1;
        }
    | inr full ↦ absurd (h (ap chosen full))
  ]
    where
      is_free : Bool
      is_free = (allow cfg.rate_limit_count cfg.rate_limit_window now req.client_ip buckets).0

      chosen : Bool → Station
      chosen b =
          let answered : Except Answer × (Station × Table (List ℕ)) =
            if b
            then (
              (post_admitted d cfg req s).0,
              (
                (post_admitted d cfg req s).1,
                (allow cfg.rate_limit_count cfg.rate_limit_window now req.client_ip buckets).1,
              ),
            )
            else (
              ok (rate_limited d cfg),
              (s, (allow cfg.rate_limit_count cfg.rate_limit_window now req.client_ip buckets).1),
            ) in
          answered.1.0

  -- A POST to any path but that of the executor has the same effects and the same answer whatever it
  -- states as its Authorization.
  pub only_execute_needs_token :
      (req : Request) (authorization : String) (now : ℕ) (buckets : Table (List ℕ)) (s : Station)
      → req.path ≢ "/internal/execute"
      → do_post d cfg (record req { authorization = authorization }) now buckets s
        ≡ do_post d cfg req now buckets s
  unfolding do_post post_admitted post_body post_read post_parsed read_body
  only_execute_needs_token req authorization now buckets s other = rw named refl
    where
      named : (req.path == "/internal/execute") ≡ false
      named = elim (Bool-cases (req.path == "/internal/execute")) [
        | inl same ↦ absurd (other ((eq_iff req.path "/internal/execute").0 same))
        | inr unnamed ↦ unnamed
      ]
