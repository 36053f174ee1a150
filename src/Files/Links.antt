-- ===== src/Files/Links.antt =====
-- app/core/permanent_links.py and the methods of app/services/file_service.py for permanent links. The
-- keyed hash of the Python library, as a hexadecimal text, is a parameter.
use pyupload_x.Base.{
  ℕ, ◌≡◌, sym, ap, Bool, true, false, not, ◌&&◌, ◌||◌, Option, none, some, [], ◌∷◌, ◌++◌, arith,
  ◌==◌, if◌then◌else◌, Text, codes, text_eq, text_eq_refl, ◌∙◌,
}
use pyupload_x.Errors.{ok, ok-injective, permanent_link_disabled, permanent_link_not_configured}
use pyupload_x.Config.{Settings}
use pyupload_x.Db.Rows.{nonempty}
use pyupload_x.Request.{World, Identity, App, Action, pure, or_raise, raise_when, ◌>>=◌, ◌>>◌}
use pyupload_x.Request.Laws.{or_raise-eq-ok, raise_when-eq-ok, bind-eq-ok}
use pyupload_x.Uploads.Create.{uuid_text}
use pyupload_x.Files.Access.{get}

abbrev pub is_empty : Text → Bool
is_empty [] = true
is_empty (c ∷ s) = false

-- the text without the slashes at its end
abbrev pub strip_end : Text → Text
strip_end [] = []
strip_end (c ∷ s) = elim (strip_end s) [ [] ↦ if c == b'/' then [] else c ∷ [] | d ∷ t ↦ c ∷ d ∷ t ]

nonempty-some : (o : Option Text) (s : Text) → nonempty o ≡ some s → is_empty s ≡ false
nonempty-some none s h = cc
nonempty-some (some []) s h = cc
nonempty-some (some (c ∷ t)) s h = ground arith

module _ (hmac_sha256 : Text → Text → Text) where
  unfoldable pub sign : ℕ → Text → Text
  sign file_id secret = hmac_sha256 secret (uuid_text file_id)

  unfoldable pub verify : ℕ → Text → Text → Bool
  unfolding sign
  verify file_id secret token =
      not (is_empty token || is_empty secret) && text_eq (sign file_id secret) token

  abbrev verify_with : Option Text → ℕ → Text → Bool
  verify_with none file_id token = false
  verify_with (some secret) file_id token = verify file_id secret token

  unfoldable pub verify_link_token : Settings → ℕ → Text → Bool
  unfolding verify
  verify_link_token settings file_id token =
      verify_with (nonempty settings.permanent_link.secret) file_id token

  verify-sign :
      (file_id : ℕ) (secret : Text)
      → ((k m : Text) → is_empty (hmac_sha256 k m) ≡ false)
      → is_empty secret ≡ false
      → verify file_id secret (sign file_id secret) ≡ true
  unfolding verify
  verify-sign file_id secret h given =
      rw (h secret (uuid_text file_id)) (rw given (text_eq_refl (sign file_id secret)))

  module _ {S : Type 0} (app : App S) (identity : Identity) where
    unfoldable pub create_permanent_link : ℕ → Text → Action S Text
    unfolding sign
    create_permanent_link file_id base_url = do
      raise_when (not app.settings.permanent_link.enabled) permanent_link_disabled
      secret ← or_raise (nonempty app.settings.permanent_link.secret) permanent_link_not_configured
      get app identity file_id
      let token = sign file_id secret
      pure (
          strip_end base_url
          ++ codes "/v1/files/"
          ++ uuid_text file_id
          ++ codes "/download-link?token="
          ++ token)

    -- A link that was created is the address of its file's download below the base, and carries a
    -- token there that is accepted for this file, as long as the secret stays the same and the keyed
    -- hash is never empty.
    pub create_permanent_link-verifies :
        (file_id : ℕ) (base_url : Text) (w : World S) (link : Text) (w' : World S)
        → ((k m : Text) → is_empty (hmac_sha256 k m) ≡ false)
        → create_permanent_link file_id base_url w ≡ (ok link, w')
        → (token : Text) × (link
            ≡ strip_end base_url
              ++ codes "/v1/files/"
              ++ uuid_text file_id
              ++ codes "/download-link?token="
              ++ token)
          × (verify_link_token app.settings file_id token ≡ true)
    unfolding create_permanent_link verify_link_token
    create_permanent_link-verifies file_id base_url w link w' h e =
        let (_, e1) =
          raise_when-eq-ok (not app.settings.permanent_link.enabled) permanent_link_disabled _ w
            e in
        let (secret, given, e2) =
          or_raise-eq-ok (nonempty app.settings.permanent_link.secret) permanent_link_not_configured
            _ w e1 in
        let (_, x, _, e3) = bind-eq-ok (get app identity file_id) _ w e2 in
        (
          sign file_id secret,
          ok-injective (ap (λ r. r.0) (sym e3)),
          ap (λ o. verify_with o file_id (sign file_id secret)) given
              ∙ verify-sign file_id secret h
                  (nonempty-some app.settings.permanent_link.secret secret given),
        )
