-- ===== src/Codes/EmailLink/Laws.antt =====
-- From the link in an e-mail to the form: the secret comes out once, for the right form only.
use routiq.Base.{
  ℕ, ◌+◌, ◌≤◌, ◌<◌, ◌≡◌, refl, ap, ◌∙◌, String, false, Option, none, some, arith, ltb,
  if◌then◌else◌,
}
use routiq.Base.Dict.{lookup, remove}
use routiq.Redis.{Redis}
use routiq.Codes.{ok, Codec, remember, live, live-remember, live-remove}
use routiq.Codes.EmailLink.{
  EmailLinkKind, same_kind, Payload, Links, Redeemed, is_short, form_for, create_email_link_code,
  take_link, take_form, keep_form, redeemed, redeem_email_link_code, consume_form_token,
  link_ttl_secs, form_ttl_secs,
}

module _ (R : Redis) (json : Codec Payload) where
  open R use {State, available}

  create_given :
      (now : ℕ) (code : String) (p : Payload) (w : Links State)
      → available w.redis ≡ false
      → create_email_link_code R json false now code p w
        ≡ (record w { links = remember now link_ttl_secs code p w.links }, ok code)
  unfolding create_email_link_code
  create_given now code p w off = ground arith

  take_link_given :
      (now : ℕ) (code : String) (w : Links State)
      → available w.redis ≡ false
      → take_link R json now code w
        ≡ (record w { links = remove code w.links }, live now (lookup code w.links))
  unfolding take_link
  take_link_given now code w off = ground arith

  take_form_given :
      (now : ℕ) (token : String) (w : Links State)
      → available w.redis ≡ false
      → take_form R json now token w
        ≡ (record w { forms = remove token w.forms }, live now (lookup token w.forms))
  unfolding take_form
  take_form_given now token w off = ground arith

  keep_form_given :
      (now : ℕ) (token : String) (p : Payload) (w : Links State)
      → available w.redis ≡ false
      → keep_form R json now token p w
        ≡ record w { forms = remember now form_ttl_secs token p w.forms }
  unfolding keep_form
  keep_form_given now token p w off = ground arith

  redeem_long :
      (now now' : ℕ) (code token : String) (w : Links State)
      → is_short code ≡ false
      → redeem_email_link_code R json now now' code token w
        ≡ redeemed R json now' token (take_link R json now code w)
  unfolding redeem_email_link_code
  redeem_long now now' code token w long = ground arith

  consume_long :
      (now : ℕ) (token : String) (kind : EmailLinkKind) (w : Links State)
      → is_short token ≡ false
      → consume_form_token R json now token kind w
        ≡ ((take_form R json now token w).0, form_for kind (take_form R json now token w).1)
  unfolding consume_form_token
  consume_long now token kind w long = ground arith

  pub form_given :
      (now : ℕ) (token : String) (kind : EmailLinkKind) (w : Links State)
      → is_short token ≡ false
      → available w.redis ≡ false
      → consume_form_token R json now token kind w ≡ (
        record w { forms = remove token w.forms },
        form_for kind (live now (lookup token w.forms)),
      )
  form_given now token kind w long off =
      consume_long now token kind w long
      ∙ ap (λ (r : Links State × Option Payload). (r.0, form_for kind r.1))
          (take_form_given now token w off)

  redeem_gone :
      (now : ℕ) (code token : String) (w : Links State)
      → is_short code ≡ false
      → available w.redis ≡ false
      → live now (lookup code w.links) ≡ none
      → (redeem_email_link_code R json now now code token w).1 ≡ none
  redeem_gone now code token w long off gone =
      ap (λ (r : Links State × Option Redeemed). r.1)
        (redeem_long now now code token w long
          ∙ ap (redeemed R json now token) (
              take_link_given now code w off
              ∙ ap (λ (o : Option Payload). (record w { links = remove code w.links }, o)) gone))

  -- The world after a link was created and redeemed.
  abbrev after_redeem : (now now' : ℕ) (code token : String) → Payload → Links State → Links State
  after_redeem now now' code token p w = record w {
    links = remove code (remember now link_ttl_secs code p w.links);
    forms = remember now' form_ttl_secs token p w.forms;
  }

  redeem_given :
      (now then_ now' : ℕ) (code token : String) (p : Payload) (w : Links State)
      → is_short code ≡ false
      → available w.redis ≡ false
      → then_ ≤ now + 86_400_000
      → redeem_email_link_code R json then_ now' code token
          (create_email_link_code R json false now code p w).0
        ≡ (
          after_redeem now now' code token p w,
          some (record { kind = p.kind; form_token = token; meta = p.meta }),
        )
  redeem_given now then_ now' code token p w long off le =
      let links' = remember now link_ttl_secs code p w.links in
      let w' : Links State = record w { links = links' } in
      let w'' : Links State = record w { links = remove code links' } in
      let found : live then_ (lookup code links') ≡ some p =
        live-remember now then_ link_ttl_secs code p w.links ∙ ground arith in
      rw (create_given now code p w off) (
        redeem_long then_ now' code token w' long
        ∙ ap (redeemed R json now' token)
            (take_link_given then_ code w' off ∙ ap (λ (o : Option Payload). (w'', o)) found)
        ∙ ap
            (λ (v : Links State).
              (v, some (record { kind = p.kind; form_token = token; meta = p.meta })))
            (keep_form_given now' token p w'' off))

  redeem_late :
      (now late : ℕ) (code token : String) (p : Payload) (w : Links State)
      → is_short code ≡ false
      → available w.redis ≡ false
      → now + 86_400_000 < late
      → (redeem_email_link_code R json late late code token
          (create_email_link_code R json false now code p w).0).1
        ≡ none
  redeem_late now late code token p w long off lt =
      let links' = remember now link_ttl_secs code p w.links in
      rw (create_given now code p w off) (
        redeem_gone late code token (record w { links = links' }) long off
          (live-remember now late link_ttl_secs code p w.links ∙ ground (arith, lt)))

  -- Without Redis, outside production, the whole way of a link: created, redeemed within a day for a
  -- form token, and that token consumed. The form gets the secret exactly when it is the form of the
  -- link's kind and ten minutes have not passed since; and no second attempt gets anything. A link
  -- that is redeemed after more than a day gives nothing.
  pub email_link_chain :
      (now then_ now' last later late : ℕ) (code token : String) (kind kind' : EmailLinkKind)
      (p : Payload) (w : Links State)
      → is_short code ≡ false
      → is_short token ≡ false
      → available w.redis ≡ false
      → then_ ≤ now + 86_400_000
      → now + 86_400_000 < late
      → let redeemed_ =
          redeem_email_link_code R json then_ now' code token
            (create_email_link_code R json false now code p w).0 in
        let consumed = consume_form_token R json last token kind redeemed_.0 in
        (consumed.1 ≡ (
          if ltb (now' + 600_000) last
          then none
          else if same_kind p.kind kind
          then some (record { secret = p.secret; meta = p.meta })
          else none))
        × ((consume_form_token R json later token kind' consumed.0).1 ≡ none)
        × ((redeem_email_link_code R json later later code token redeemed_.0).1 ≡ none)
        × ((redeem_email_link_code R json late late code token
              (create_email_link_code R json false now code p w).0).1
            ≡ none)
  email_link_chain now then_ now' last later late code token kind kind' p w long long' off le lt =
      let v : Links State = after_redeem now now' code token p w in
      let v' : Links State = record v { forms = remove token v.forms } in
      rw (redeem_given now then_ now' code token p w long off le) (
        rw (form_given last token kind v long' off) (
            rw (live-remember now' last form_ttl_secs token p w.forms)
              (unfold form_for in ground arith)),
        rw (form_given last token kind v long' off) (
            rw (form_given later token kind' v' long' off)
              (rw (live-remove later token v.forms) (unfold form_for in refl))),
        redeem_gone later code token v long off
            (live-remove later code (remember now link_ttl_secs code p w.links)),
        redeem_late now late code token p w long off lt,
      )
