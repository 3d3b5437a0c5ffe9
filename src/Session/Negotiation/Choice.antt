-- ===== src/Session/Negotiation/Choice.antt =====
-- Which method `ProcessHandshake` selects.
use socks5proxy_native.Prelude.{
  ℕ, ◌≡◌, refl, ◌⊎◌, inl, inr, Bool, true, false, not, ◌&&◌, ◌||◌, List, [], ◌∷◌, ◌==◌,
  if◌then◌else◌, if-elim, arith,
}
use socks5proxy_native.Socks.AuthMethod.{no_auth, gssapi, username_password, no_acceptable_methods}
use socks5proxy_native.Session.Env.{Config}
use socks5proxy_native.Session.Negotiation.{Offers, offer, offers, has_credentials, select_method}

-- Is `m` among the methods that the client offers?
unfoldable pub offered : ℕ → List ℕ → Bool
offered m [] = false
offered m (x ∷ xs) = (x == m) || offered m xs

-- The methods that a configuration admits.
unfoldable pub admits : Config → ℕ → Bool
admits cfg m =
    (m == gssapi && cfg.enable_gssapi)
    || (m == username_password && has_credentials cfg)
    || (m == no_auth && not (has_credentials cfg))

offers_gss : (ms : List ℕ) (o : Offers) → (offers ms o).gss ≡ (o.gss || offered gssapi ms)
unfolding offers offered
offers_gss [] o = ground arith
offers_gss (m ∷ ms) o = ground (arith, offers_gss ms (offer m o))

offers_user_pass :
    (ms : List ℕ) (o : Offers)
    → (offers ms o).user_pass ≡ (o.user_pass || offered username_password ms)
unfolding offers offered
offers_user_pass [] o = ground arith
offers_user_pass (m ∷ ms) o = ground (arith, offers_user_pass ms (offer m o))

offers-no_auth :
    (ms : List ℕ) (o : Offers)
    → (offers ms o).no_auth_at_all ≡ (o.no_auth_at_all || offered no_auth ms)
unfolding offers offered
offers-no_auth [] o = ground arith
offers-no_auth (m ∷ ms) o = ground (arith, offers-no_auth ms (offer m o))

-- The preference that the code writes out.
prefers : Config → List ℕ → ℕ
prefers cfg ms =
    if cfg.enable_gssapi && offered gssapi ms
    then gssapi
    else if has_credentials cfg && offered username_password ms
    then username_password
    else if not (has_credentials cfg) && offered no_auth ms
    then no_auth
    else no_acceptable_methods

select_method-prefers : (cfg : Config) (ms : List ℕ) → select_method cfg ms ≡ prefers cfg ms
unfolding select_method prefers
select_method-prefers cfg ms =
    rw
      (
        offers_gss ms (record { gss = false; user_pass = false; no_auth_at_all = false }),
        offers_user_pass ms (record { gss = false; user_pass = false; no_auth_at_all = false }),
        offers-no_auth ms (record { gss = false; user_pass = false; no_auth_at_all = false }),
      )
      refl

admits_cases :
    (cfg : Config) (m : ℕ)
    → admits cfg m ≡ true
    → ((m ≡ gssapi) × (cfg.enable_gssapi ≡ true))
      ⊎ ((m ≡ username_password) × (has_credentials cfg ≡ true))
      ⊎ ((m ≡ no_auth) × (has_credentials cfg ≡ false))
unfolding admits
admits_cases cfg m h = ground (arith, h)

-- What is admitted is not offered when each conjunction of the code fails.
none_offered :
    (cfg : Config) (ms : List ℕ) (m : ℕ)
    → (cfg.enable_gssapi && offered gssapi ms) ≡ false
    → (has_credentials cfg && offered username_password ms) ≡ false
    → (not (has_credentials cfg) && offered no_auth ms) ≡ false
    → ((m ≡ gssapi) × (cfg.enable_gssapi ≡ true))
      ⊎ ((m ≡ username_password) × (has_credentials cfg ≡ true))
      ⊎ ((m ≡ no_auth) × (has_credentials cfg ≡ false))
    → offered m ms ≡ false
none_offered cfg ms m h₁ h₂ h₃ (inl (e, a)) = rw e (ground (arith, h₁, a))
none_offered cfg ms m h₁ h₂ h₃ (inr (inl (e, a))) = rw e (ground (arith, h₂, a))
none_offered cfg ms m h₁ h₂ h₃ (inr (inr (e, a))) = rw e (ground (arith, h₃, a))

-- The method that is selected was offered and is one that the configuration admits; 0xFF is the answer
-- only if no method that is admitted was offered.
pub select_method-admits :
    (cfg : Config) (ms : List ℕ)
    → ((offered (select_method cfg ms) ms ≡ true) × (admits cfg (select_method cfg ms) ≡ true))
      ⊎ ((select_method cfg ms ≡ no_acceptable_methods)
          × ((m : ℕ) → admits cfg m ≡ true → offered m ms ≡ false))
unfolding admits prefers
select_method-admits cfg ms =
    let P : ℕ → Type 0 = λ k.
      ((offered k ms ≡ true) × (admits cfg k ≡ true))
      ⊎ ((k ≡ no_acceptable_methods) × ((m : ℕ) → admits cfg m ≡ true → offered m ms ≡ false)) in
    rw (select_method-prefers cfg ms) (
      if-elim P (cfg.enable_gssapi && offered gssapi ms) gssapi _
        (λ h. inl (ground (arith, h), ground (arith, h)))
        (λ h₁.
          if-elim P (has_credentials cfg && offered username_password ms) username_password _
            (λ h. inl (ground (arith, h), ground (arith, h)))
            (λ h₂.
              if-elim P (not (has_credentials cfg) && offered no_auth ms) no_auth
                no_acceptable_methods (λ h. inl (ground (arith, h), ground (arith, h)))
                (λ h₃. inr (refl, λ m h. none_offered cfg ms m h₁ h₂ h₃ (admits_cases cfg m h))))))
