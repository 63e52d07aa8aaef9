-- ===== src/Session/Rotation.antt =====
-- Rotation of refresh tokens: one at a time, interleaved, and at the bound of five.
use routiq.Base.{
  Option-cases, ℕ, String, Bool, true, false, Option, none, some, List, [], ◌∷◌, ◌++◌, length,
  length-append, drop, ◌-◌, ◌≡◌, ◌≢◌, refl, sym, ap, ◌∙◌, subst, arith, if◌then◌else◌, Bool-cases,
  inl, inr,
}
use routiq.Redis.{Redis}
use routiq.Codes.{ok}
use routiq.Users.{Row, items_of, UserDb, IsUserDb}
use routiq.Users.Columns.{elem}
use routiq.Users.Update.{without}
use routiq.Session.{Site, rotate_check, rotate_commit, rotate_with, rotate_session_tokens}
use routiq.Session.Capped.{elem-without, elem-without_other, elem-take_last}
use routiq.Session.Stored.{row_tokens, tracked, tracked, rotate_check-elem}
use routiq.Session.Kept.{Keeps, added, exchanged, rotate_commit-Keeps}

module _ (D : UserDb) (law : IsUserDb D) (R : Redis) (show : ℕ → String)
    (hash_token : String → String) (jti_of : String → Option String) where
  rotate_check-case :
      (id old : String) (w : Site D.State R.State) (b : Bool)
      → elem (hash_token old) (row_tokens (D.row id w.db)) ≡ b
      → rotate_check D R show hash_token jti_of id old w
        ≡ (if b then some (hash_token old) else none)
  rotate_check-case id old w b h =
      rotate_check-elem D R show hash_token jti_of id old w
      ∙ ap (λ c. if c then some (hash_token old) else none) h

  -- A token whose hash is kept is exchanged.
  pub rotate_session_tokens-found :
      (id old access refresh : String) (version : Option ℕ) (w : Site D.State R.State)
      → elem (hash_token old) (row_tokens (D.row id w.db)) ≡ true
      → (row_tokens (
            D.row id
              (rotate_session_tokens D R show hash_token jti_of id old access refresh version
                w).0.db)
          ≡ exchanged (hash_token old) (hash_token refresh) (row_tokens (D.row id w.db)))
        × ((rotate_session_tokens D R show hash_token jti_of id old access refresh version w).1
            ≡ ok true)
  unfolding rotate_session_tokens
  rotate_session_tokens-found id old access refresh version w h =
      let goal : Option String → Type 0 = λ o.
        (row_tokens
            (D.row id (rotate_with D R show hash_token jti_of o id access refresh version w).0.db)
          ≡ exchanged (hash_token old) (hash_token refresh) (row_tokens (D.row id w.db)))
        × ((rotate_with D R show hash_token jti_of o id access refresh version w).1 ≡ ok true) in
      elim (Option-cases (D.row id w.db)) [
        | inl q ↦ absurd (cc (sym h ∙ ap (λ o. elem (hash_token old) (row_tokens o)) q))
        | inr (r, q) ↦
            let ((r', q', k, l, m), done) =
              rotate_commit-Keeps D law R show hash_token jti_of id (hash_token old) access refresh
                version w r q in
            subst goal (sym (rotate_check-case id old w true h)) (
              ap row_tokens q'
                  ∙ k
                  ∙ ap (λ o. exchanged (hash_token old) (hash_token refresh) (row_tokens o))
                      (sym q),
              done,
            )
      ]

  -- The same for the row that is left.
  pub rotate_session_tokens-Keeps :
      (id old access refresh : String) (version : Option ℕ) (w : Site D.State R.State) (r : Row)
      → D.row id w.db ≡ some r
      → elem (hash_token old) (items_of (r "refreshTokens")) ≡ true
      → Keeps
          (exchanged (hash_token old) (hash_token refresh) (items_of (r "refreshTokens")))
          (tracked (jti_of access) (items_of (r "activeAccessJtis")))
          (r "id")
          (D.row id
            (rotate_session_tokens D R show hash_token jti_of id old access refresh version w).0.db)
        × ((rotate_session_tokens D R show hash_token jti_of id old access refresh version w).1
            ≡ ok true)
  unfolding rotate_session_tokens
  rotate_session_tokens-Keeps id old access refresh version w r q h =
      subst
        (λ o.
          Keeps (exchanged (hash_token old) (hash_token refresh) (items_of (r "refreshTokens")))
            (tracked (jti_of access) (items_of (r "activeAccessJtis"))) (r "id")
            (D.row id (rotate_with D R show hash_token jti_of o id access refresh version w).0.db)
          × ((rotate_with D R show hash_token jti_of o id access refresh version w).1 ≡ ok true))
        (sym
          (rotate_check-case id old w true (ap (λ o. elem (hash_token old) (row_tokens o)) q ∙ h)))
        (rotate_commit-Keeps D law R show hash_token jti_of id (hash_token old) access refresh
          version w r q)

  -- A token whose hash is not kept changes nothing.
  pub rotate_session_tokens-missing :
      (id old access refresh : String) (version : Option ℕ) (w : Site D.State R.State)
      → elem (hash_token old) (row_tokens (D.row id w.db)) ≡ false
      → rotate_session_tokens D R show hash_token jti_of id old access refresh version w
        ≡ (w, ok false)
  unfolding rotate_session_tokens
  rotate_session_tokens-missing id old access refresh version w h =
      ap (λ o. rotate_with D R show hash_token jti_of o id access refresh version w)
        (rotate_check-case id old w false h)

  -- What a rotation does, where no UPDATE is refused: where the hash of the presented token is kept,
  -- it answers true and exchanges that hash for the new one among the last five; otherwise it answers
  -- false and changes nothing: neither the users, nor Redis, nor what is sent to the control plane.
  pub rotate_session_tokens-exchanged :
      (id old access refresh : String) (version : Option ℕ) (w : Site D.State R.State)
      → (row_tokens (
            D.row id
              (rotate_session_tokens D R show hash_token jti_of id old access refresh version
                w).0.db)
          ≡ (if elem (hash_token old) (row_tokens (D.row id w.db))
              then exchanged (hash_token old) (hash_token refresh) (row_tokens (D.row id w.db))
              else row_tokens (D.row id w.db)))
        × ((rotate_session_tokens D R show hash_token jti_of id old access refresh version w).1
            ≡ ok (elem (hash_token old) (row_tokens (D.row id w.db))))
        × ((if elem (hash_token old) (row_tokens (D.row id w.db))
              then w
              else (rotate_session_tokens D R show hash_token jti_of id old access refresh version
                  w).0)
            ≡ w)
  rotate_session_tokens-exchanged id old access refresh version w =
      elim (Bool-cases (elem (hash_token old) (row_tokens (D.row id w.db)))) [
        | inl h ↦
            let (k, done) = rotate_session_tokens-found id old access refresh version w h in
            (rw (h) k, rw (h) done, rw (h) refl)
        | inr h ↦
            let e = rotate_session_tokens-missing id old access refresh version w h in
            (rw (h, e) refl, rw (h, e) refl, rw (h, e) refl)
      ]

  -- Where no UPDATE is refused: two requests that present the same kept token, where both look it up
  -- before either stores its own, both succeed.
  pub rotations_race :
      (id old access access' refresh refresh' : String) (version version' : Option ℕ)
      (w : Site D.State R.State)
      → elem (hash_token old) (row_tokens (D.row id w.db)) ≡ true
      → (rotate_check D R show hash_token jti_of id old w ≡ some (hash_token old))
        × ((rotate_commit D R show hash_token jti_of id (hash_token old) access refresh version w).1
            ≡ ok true)
        × ((rotate_commit D R show hash_token jti_of id
              (hash_token old)
              access'
              refresh'
              version'
              (rotate_commit D R show hash_token jti_of id
                (hash_token old)
                access
                refresh
                version
                w).0).1
            ≡ ok true)
  rotations_race id old access access' refresh refresh' version version' w h =
      elim (Option-cases (D.row id w.db)) [
        | inl q ↦ absurd (cc (sym h ∙ ap (λ o. elem (hash_token old) (row_tokens o)) q))
        | inr (r, q) ↦
            let ((r', q', k, l, m), done) =
              rotate_commit-Keeps D law R show hash_token jti_of id (hash_token old) access refresh
                version w r q in
            let (k', done') =
              rotate_commit-Keeps D law R show hash_token jti_of id (hash_token old) access'
                refresh' version'
                (rotate_commit D R show hash_token jti_of id (hash_token old) access refresh version
                  w).0
                r' q' in
            (rotate_check-case id old w true h, done, done')
      ]

  -- Where no UPDATE is refused: after a rotation of a kept token the old token is refused and the new
  -- one is accepted, where their hashes differ.
  pub rotation_chain :
      (id old access refresh access' refresh' : String) (version version' : Option ℕ)
      (w : Site D.State R.State)
      → elem (hash_token old) (row_tokens (D.row id w.db)) ≡ true
      → hash_token old ≢ hash_token refresh
      → let w' : Site D.State R.State =
          (rotate_session_tokens D R show hash_token jti_of id old access refresh version w).0 in
        ((rotate_session_tokens D R show hash_token jti_of id old access' refresh' version' w').1
          ≡ ok false)
        × ((rotate_session_tokens D R show hash_token jti_of id refresh access' refresh' version'
              w').1
            ≡ ok true)
  rotation_chain id old access refresh access' refresh' version version' w h other =
      let w' : Site D.State R.State =
        (rotate_session_tokens D R show hash_token jti_of id old access refresh version w).0 in
      let kept : List String = added (hash_token refresh) (row_tokens (D.row id w.db)) in
      let k : row_tokens (D.row id w'.db) ≡ without (hash_token old) kept =
        (rotate_session_tokens-found id old access refresh version w h).0 in
      (
        ap (λ x. x.1)
            (rotate_session_tokens-missing id old access' refresh' version' w'
              (ap (elem (hash_token old)) k ∙ elem-without (hash_token old) kept)),
        (rotate_session_tokens-found id refresh access' refresh' version' w' (
            ap (elem (hash_token refresh)) k
            ∙ elem-without_other (hash_token old) (hash_token refresh) kept other
                (elem-take_last 4 (hash_token refresh) (row_tokens (D.row id w.db))))).1,
      )

  added_full :
      (new oldest : String) (others : List String)
      → length others ≡ 4
      → added new (oldest ∷ others) ≡ others ++ new ∷ []
  added_full new oldest others five =
      let six : 6 ≡ length (oldest ∷ others ++ new ∷ []) =
        omega (arith, length-append others (new ∷ []), five) in
      subst (λ n. drop (n - 5) (oldest ∷ others ++ new ∷ []) ≡ others ++ new ∷ []) six refl

  -- Where no UPDATE is refused, five sessions are kept and one of the four younger ones is refreshed, the oldest goes as
  -- well: what is left are the other three and the new one.
  pub rotation_evicts :
      (id old access refresh oldest : String) (others : List String) (version : Option ℕ)
      (w : Site D.State R.State)
      → row_tokens (D.row id w.db) ≡ oldest ∷ others
      → length others ≡ 4
      → elem (hash_token old) others ≡ true
      → row_tokens (
          D.row id
            (rotate_session_tokens D R show hash_token jti_of id old access refresh version w).0.db)
        ≡ without (hash_token old) (others ++ hash_token refresh ∷ [])
  rotation_evicts id old access refresh oldest others version w h five k =
      (rotate_session_tokens-found id old access refresh version w
        (ap (elem (hash_token old)) h ∙ ground (arith, k))).0
      ∙ ap (λ xs. exchanged (hash_token old) (hash_token refresh) xs) h
      ∙ ap (without (hash_token old)) (added_full (hash_token refresh) oldest others five)
