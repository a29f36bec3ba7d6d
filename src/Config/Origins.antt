-- ===== src/Config/Origins.antt =====
-- src/server/settings.rs: the origins of an HTTP policy that loads.
use luxor.Base.{
  ◌≡◌, refl, ◌≤◌, Bool, true, false, List, [], ◌∷◌, Text, codes, text_eq, is_empty, All, Result, ok,
  Ensures, Ensures-elim, Ensures-bind, Ensures-guard, Ensures-ok, Ensures-seq, Ensures-map,
  Ensures-ensure, map_err_ok, arith,
}
use luxor.Config.{Env, is_production, Url, parse_url, validate_origin, is_origin_only}
use luxor.Config.Listener.{
  HstsSettings, hsts_preload_min_max_age, parse_hsts, HttpSettings, http_settings, validate_origins,
  cors_list,
}

pub IsHstsSound : HstsSettings → Type 0
IsHstsSound h =
    h.preload ≡ true
    → (h.enabled ≡ true)
      × (h.include_subdomains ≡ true)
      × (hsts_preload_min_max_age ≤ h.max_age_seconds)

parse_hsts-IsHstsSound : (env : Env) → Ensures IsHstsSound (parse_hsts env)
unfolding parse_hsts IsHstsSound
parse_hsts-IsHstsSound env = Ensures-bind _ _ _ λ enabled _. Ensures-bind _ _ _ λ max_age _.
    Ensures-bind _ _ _ λ subdomains _. Ensures-bind _ _ _ λ preload _. Ensures-guard _ _ _ _ λ on.
      Ensures-guard _ _ _ _
        λ listed. Ensures-ok _ _ _ refl λ p. (ground arith, ground arith, ground arith)

module _ (url_parse : Text → Result Text Url) where
  -- A text that reads as a URL that is an origin, an https one in production.
  pub IsOrigin : Bool → Text → Type 0
  IsOrigin in_production origin =
      (url : Url) × (url_parse origin ≡ ok url)
      × (is_origin_only url ≡ true)
      × (in_production ≡ true → text_eq url.scheme (codes "https") ≡ true)

  parse_url_lem :
      (key origin : Text) (schemes : List Text)
      → Ensures (λ url. url_parse origin ≡ ok url) (parse_url url_parse key origin schemes)
  unfolding parse_url
  parse_url_lem key origin schemes =
      Ensures-bind _ _ _
        λ url e. Ensures-guard _ _ _ _ λ listed. Ensures-ok _ _ _ refl (map_err_ok _ _ url e)

  validate_origin_lem :
      (key origin : Text) (in_production : Bool)
      → Ensures
          (λ _. IsOrigin in_production origin)
          (validate_origin url_parse key origin in_production)
  unfolding validate_origin IsOrigin
  validate_origin_lem key origin in_production = Ensures-bind _ _ _ λ url e.
      Ensures-guard _ _ _ _ λ secure. Ensures-ensure _ _ _ λ bare. (
        url,
        Ensures-elim _ (parse_url_lem key origin (codes "http" ∷ codes "https" ∷ [])) e,
        bare,
        λ p. ground arith,
      )

  validate_origins_lem :
      (in_production : Bool) (origins : List Text)
      → Ensures
          (λ _. All (IsOrigin in_production) origins)
          (validate_origins url_parse in_production origins)
  unfolding validate_origins
  validate_origins_lem in_production [] = Ensures-ok _ _ _ refl tt
  validate_origins_lem in_production (origin ∷ rest) = Ensures-seq _ _ _ λ first.
      Ensures-map _ _ _ (validate_origins_lem in_production rest)
        λ _ later. (Ensures-elim _ (validate_origin_lem _ origin in_production) first, later)

  module _ {Ip : Type 0} (parse_ip : Text → Result Text Ip) where
    -- What is served by every deployment: some origin, each a bare one; positive bounds; a preload
    -- claim that the preload list accepts; in production, https origins and no browser.
    pub IsPolicySound : Env → HttpSettings Ip → Type 0
    IsPolicySound env s =
        (is_empty s.cors_origins ≡ false)
        × All (IsOrigin (is_production env)) s.cors_origins
        × (1 ≤ s.port)
        × (1 ≤ s.body_limit_bytes)
        × (1 ≤ s.request_timeout_seconds)
        × IsHstsSound s.hsts
        × (is_production env ≡ true → s.open_browser ≡ false)

    http_settings_lem :
        (env : Env) → Ensures (IsPolicySound env) (http_settings url_parse parse_ip env)
    unfolding http_settings IsPolicySound
    http_settings_lem env = Ensures-bind _ _ _ λ ip _. Ensures-bind _ _ _ λ app_port _.
        Ensures-bind _ _ _ λ port _. Ensures-guard _ _ _ _ λ bound. Ensures-guard _ _ _ _ λ listed.
          Ensures-seq _ _ _ λ origins. Ensures-bind _ _ _ λ base _.
            Ensures-bind _ _ _ λ body_limit _. Ensures-guard _ _ _ _ λ limited.
              Ensures-bind _ _ _ λ timeout _. Ensures-guard _ _ _ _ λ timed.
                Ensures-bind _ _ _ λ hsts h. Ensures-bind _ _ _ λ enforcement _.
                  Ensures-bind _ _ _ λ open_browser _. Ensures-guard _ _ _ _ λ closed.
                    Ensures-ok _ _ _ refl (
                      ground arith,
                      Ensures-elim _ (validate_origins_lem (is_production env) (cors_list env))
                          origins,
                      ground arith,
                      ground arith,
                      ground arith,
                      Ensures-elim _ (parse_hsts-IsHstsSound env) h,
                      λ p. ground arith,
                    )

    -- An HTTP policy that loads has an allowed origin, and each is a URL with no more than an
    -- origin, https in production; the port, the body limit and the timeout are positive; HSTS
    -- claims preload only when it is on, covers subdomains and lasts a year; production opens no
    -- browser.
    pub http_settings-IsPolicySound :
        (env : Env) (s : HttpSettings Ip)
        → http_settings url_parse parse_ip env ≡ ok s
        → IsPolicySound env s
    http_settings-IsPolicySound env s = Ensures-elim (IsPolicySound env) (http_settings_lem env)
