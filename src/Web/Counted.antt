-- ===== src/Web/Counted.antt =====
-- What a request to the web server (rodeo/portal/web.py) does to the counter of failures.
use rodeo_cli.Base.{
  ◌≡◌, refl, ◌⊎◌, inl, inr, String, Bool, true, false, not, ◌&&◌, Option, none, some, Outcome, ok,
  err, if◌then◌else◌, leb, string_eq, ◌==◌, contains,
}
use rodeo_cli.Portal.Python.{Python}
use rodeo_cli.Portal.Text.{is_empty}
use rodeo_cli.Portal.Db.{Error, claim, guess, integrity, value_error}
use rodeo_cli.Portal.Tx.{Connection}
use rodeo_cli.Portal.Settings.{
  CompareError, settings, code_matches, has_access, is_ascii, is_admin_token,
}
use rodeo_cli.Portal.Students.{LabView}
use rodeo_cli.Web.Limiter.{count, over, fail}
use rodeo_cli.Web.Server.{
  post_paths, Server, Clock, Answer, Post, Visit, fail_address, fail_code, fits, form_value, enter,
  answer_claim, ask_claim, claim_with, post_checked, do_post, answer_link, get_link, get_admin,
  visit, code_fails_while_capped,
}

module _ (py : Python) (ip : String) (clock : Clock) where
  -- A free address.
  abbrev pub IsFree : Server → Type 0
  IsFree s = over s.limiter ip clock.start ≡ false

  -- The counter is as it was, or it has one failure more of an address that was free.
  pub record Counts (s : Server) (o : Answer × Server) : Type 0 where
    pub change :
        (o.1.limiter ≡ s.limiter) ⊎ (IsFree s × (o.1.limiter ≡ fail s.limiter ip clock.failed))

  if-Counts :
      (s : Server) (b : Bool) (x y : Answer × Server)
      → (b ≡ true → Counts s x)
      → (b ≡ false → Counts s y)
      → Counts s (if b then x else y)
  if-Counts s true x y p q = p refl
  if-Counts s false x y p q = q refl

  enter-Counts : (code : String) (s : Server) → IsFree s → Counts s (enter py ip clock code s)
  unfolding enter fail_code fail_address
  enter-Counts code s free =
      let paused =
        over s.code_limiter "*" clock.codes
        && leb code_fails_while_capped (count s.limiter ip clock.counted) in
      let wrong = not (code_matches py code (settings s.con.db).code) in
      if-Counts s paused _ _ (λ _. record { change = inl refl })
        (λ _.
          if-Counts s wrong _ _ (λ _. record { change = inr (free, refl) })
            (λ _. record { change = inl refl }))

  answer_claim-Counts :
      (r : Outcome Error (String × String)) (con : Connection) (s : Server)
      → IsFree s
      → Counts s (answer_claim py ip clock r con s)
  unfolding answer_claim fail_address
  answer_claim-Counts (ok (token, lab)) con s free = record { change = inl refl }
  answer_claim-Counts (err (guess m)) con s free = record { change = inr (free, refl) }
  answer_claim-Counts (err (claim m)) con s free = record { change = inl refl }
  answer_claim-Counts (err integrity) con s free = record { change = inl refl }
  answer_claim-Counts (err value_error) con s free = record { change = inl refl }

  claim_with-Counts :
      (r : Outcome CompareError Bool) (p : Post py) (s : Server)
      → IsFree s
      → Counts s (claim_with py ip clock r p s)
  unfolding claim_with ask_claim
  claim_with-Counts (err e) p s free = record { change = inl refl }
  claim_with-Counts (ok false) p s free = record { change = inl refl }
  claim_with-Counts (ok true) p s free = answer_claim-Counts _ _ s free

  post_checked-Counts : (p : Post py) (s : Server) → Counts s (post_checked py ip clock p s)
  unfolding post_checked
  post_checked-Counts p s =
      if-Counts s (p.path == "/forget") _ _ (λ _. record { change = inl refl })
        (λ _.
          if-Counts s (over s.limiter ip clock.start) _ _ (λ _. record { change = inl refl })
            (λ free.
              if-Counts s (p.path == "/enter") _ _
                (λ _. enter-Counts (form_value "code" p.form) s free)
                (λ _. claim_with-Counts (has_access py p.access s.con.db) p s free)))

  do_post-Counts : (p : Post py) (s : Server) → Counts s (do_post py ip clock p s)
  unfolding do_post
  do_post-Counts p s =
      if-Counts s (not (contains post_paths p.path)) _ _ (λ _. record { change = inl refl })
        (λ _.
          if-Counts s (not (fits p.length)) _ _ (λ _. record { change = inl refl })
            (λ _.
              if-Counts s (is_empty p.csrf) _ _ (λ _. record { change = inl refl })
                (λ _.
                  if-Counts s (not (is_ascii p.csrf && is_ascii (form_value "csrf" p.form))) _ _
                    (λ _. record { change = inl refl })
                    (λ _.
                      if-Counts s (not (p.csrf == form_value "csrf" p.form)) _ _
                        (λ _. record { change = inl refl }) (λ _. post_checked-Counts p s)))))

  answer_link-Counts :
      (r : Outcome Error (Option LabView)) (con : Connection) (s : Server)
      → Counts s (answer_link py ip clock r con s)
  unfolding answer_link fail_address
  answer_link-Counts (ok (some row)) con s = record { change = inl refl }
  answer_link-Counts (ok none) con s =
      if-Counts s (over s.limiter ip clock.start) _ _ (λ _. record { change = inl refl })
        (λ free. record { change = inr (free, refl) })
  answer_link-Counts (err e) con s = record { change = inl refl }

  pub visit-Counts : (v : Visit py) (s : Server) → Counts s (visit py ip clock v s)
  unfolding visit get_link get_admin fail_address
  visit-Counts (Visit.post p) s = do_post-Counts p s
  visit-Counts (Visit.link now token) s = answer_link-Counts _ _ s
  visit-Counts (Visit.admin token) s =
      if-Counts s (over s.limiter ip clock.start) _ _ (λ _. record { change = inl refl })
        (λ free.
          if-Counts s (not (is_admin_token py token s.con.db)) _ _
            (λ _. record { change = inr (free, refl) }) (λ _. record { change = inl refl }))
