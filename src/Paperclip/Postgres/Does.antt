-- ===== src/Paperclip/Postgres/Does.antt =====
-- Calls on a connection that do to the tables what a function does.
use agentopia.Prelude.{◌≡◌, refl, ap, ◌∙◌, ℕ, suc}
use agentopia.Python.{Except, ok, raise}
use agentopia.Paperclip.Db.{Tables}
use agentopia.Paperclip.Postgres.{Connection, Call, run_in_transaction, write, ◌>>◌}
use agentopia.Paperclip.Postgres.Laws.{IsDocumented}

module _ {Conn : Type 0} (conn : Connection Conn) (doc : IsDocumented conn) where
  -- A connection that can go on, within so many contexts, and sees these tables.
  pub record Sees (n : ℕ) (t : Tables) (s : Conn) : Type 0 where
    pub tables : conn.tables s ≡ t
    pub usable : doc.IsUsable s
    pub depth : doc.depth s ≡ n

  pub record Ends (n : ℕ) (t : Tables) (r : Except (Unit {0}) × Conn) : Type 0 where
    pub returns : r.0 ≡ ok tt
    pub sees : Sees n t r.1

  -- Within n contexts, a call does to the tables what a function does that returns.
  pub record Does (n : ℕ) (m : Call Conn (Unit {0})) (f : Tables → Except Tables) : Type 0 where
    pub at : (s : Conn) (t u : Tables) → Sees n t s → f t ≡ ok u → Ends n u (m s)

  pub execute-Does : (n : ℕ) (f : Tables → Except Tables) → Does n (conn.execute f) f
  execute-Does n f = record {
    at = λ s t u h e.
        let (returned, written, usable) = doc.execute-ok f s u h.usable (ap f h.tables ∙ e) in
        record {
          returns = returned;
          sees = record {
            tables = written;
            usable = usable;
            depth = doc.execute-depth f s ∙ h.depth;
          };
        };
  }

  pub commit-Does : Does 0 conn.commit ok
  commit-Does = record {
    at = λ s t u h e.
        let (returned, kept, usable, outside) = doc.commit-ok s h.depth h.usable in
        record {
          returns = returned;
          sees = record {
            tables = kept ∙ h.tables ∙ ok_inj t u e;
            usable = usable;
            depth = outside;
          };
        };
  }
    where
      ok_inj : (t u : Tables) → ok t ≡ ok u → t ≡ u
      ok_inj t u e = cc

  -- One after the other.
  unfoldable pub then : (Tables → Except Tables) → (Tables → Except Tables) → Tables → Except Tables
  then f g t = elim (f t) [ ok u ↦ g u | raise e ↦ raise e ]

  pub Does-then :
      {n : ℕ} {m k : Call Conn (Unit {0})} {f g : Tables → Except Tables}
      → Does n m f
      → Does n k g
      → Does n (m >> k) (then f g)
  unfolding ◌>>◌ then
  Does-then {n} {m} {k} {f} {g} dm dk = record { at = λ s t u h e. go s t u h (f t) refl e }
    where
      onward :
          (r : Except (Unit {0})) (s' s : Conn) (u : Tables)
          → r ≡ ok tt
          → Ends n u (k s')
          → Ends n u (((λ (z : Conn). (r, s')) >> k) s)
      onward (ok tt) s' s u e h = h
      onward (raise x) s' s u e h = absurd (cc)

      go :
          (s : Conn) (t u : Tables)
          → Sees n t s
          → (r : Except Tables) → f t ≡ r
          → (elim r [ ok u ↦ g u | raise e ↦ raise e ]) ≡ ok u
          → Ends n u ((m >> k) s)
      go s t u h (ok v) first e =
          let done = dm.at s t v h first in
          onward (m s).0 (m s).1 s u done.returns (dk.at (m s).1 v u done.sees e)
      go s t u h (raise x) first e = absurd (cc)

  pub Does-transaction :
      {n : ℕ} {m : Call Conn (Unit {0})} {f : Tables → Except Tables}
      → Does (suc n) m f
      → Does n (run_in_transaction conn m) f
  unfolding run_in_transaction
  Does-transaction {n} {m} {f} dm = record {
    at = λ s t u h e.
        let done =
          dm.at (conn.begin s) t u
            (record {
              tables = doc.begin-tables s ∙ h.tables;
              usable = doc.begin-IsUsable s h.usable;
              depth = doc.begin-depth s ∙ ap suc h.depth;
            })
            e in
        go s u (m (conn.begin s)).0 (m (conn.begin s)).1 done.returns done.sees;
  }
    where
      go :
          (s : Conn) (u : Tables) (r : Except (Unit {0})) (s' : Conn)
          → r ≡ ok tt
          → Sees (suc n) u s'
          → Ends n u (run_in_transaction conn (λ (z : Conn). (r, s')) s)
      go s u (ok tt) s' e h = record {
        returns = refl;
        sees = record {
          tables = doc.finish-tables s' ∙ h.tables;
          usable = doc.finish-IsUsable s' h.usable;
          depth = doc.finish-depth s' n h.depth;
        };
      }
      go s u (raise x) s' e h = absurd (cc)

  -- A constraint that is kept.
  kept : (r : Except Tables) → (elim r [ ok u ↦ ok u | raise e ↦ raise e ]) ≡ r
  kept (ok u) = refl
  kept (raise e) = refl

  pub write-Does : (n : ℕ) (f : Tables → Tables) → Does n (write conn f) (λ t. ok (f t))
  unfolding write
  write-Does n f = execute-Does n (λ t. ok (f t))

  -- A statement and its commit.
  pub executed-Does : (f : Tables → Except Tables) → Does 0 (conn.execute f >> conn.commit) f
  unfolding then
  executed-Does f = record {
    at = λ s t u h e. (Does-then (execute-Does 0 f) commit-Does).at s t u h (kept (f t) ∙ e);
  }

  pub committed-Does : (f : Tables → Tables) → Does 0 (write conn f >> conn.commit) (λ t. ok (f t))
  unfolding write
  committed-Does f = executed-Does (λ t. ok (f t))
