-- ===== src/Pdf/Access/Authority.antt =====
-- What `authorize_and_unlock_pdf` requires of a request before it gives the unlocked bytes.
use pdf_engine_toolbox.Base.{
  ℕ, ◌≤◌, ◌≡◌, refl, Bool, true, false, not, ◌&&◌, ◌||◌, Option, none, some, arith, if◌then◌else◌,
}
use pdf_engine_toolbox.Errors.{Text, password_not_required}
use pdf_engine_toolbox.Pdf.{done, raised, >>=-eq-done, Fitz, open_pdf}
use pdf_engine_toolbox.Pdf.Access.{
  utf8_length, Level, level_of, is_owner, Protection, has_encryption, deny_if, check_password,
  UnlockedPdf, with_level, authorize_and_unlock_pdf,
}

deny_if-done :
    {fz : Fitz} (pr : Protection fz) (b : Bool) {u : Unit {0}}
    → deny_if fz pr b ≡ done u
    → b ≡ false
deny_if-done pr true e = cc
deny_if-done pr false e = refl

module _ (fz : Fitz) (pr : Protection fz) where
  -- The password of a request: of 1 to 256 bytes, or empty where the open access is asked for.
  abbrev pub IsPassword : Text → Bool → Type 0
  IsPassword password true = utf8_length password ≡ some 0
  IsPassword password false = (k : ℕ) × (utf8_length password ≡ some k) × (1 ≤ k) × (k ≤ 256)

  -- The document was encrypted; the password opened it at this level, which is the owner's or may copy;
  -- the bytes are the document's, saved without encryption.
  pub record Authorized (b password : Text) (attested without : Bool) (r : UnlockedPdf fz pr)
      : Type 0 where
    pub doc : fz.Doc
    pub read : open_pdf fz b ≡ done doc
    pub attested_authority : attested ≡ true
    pub encrypted : has_encryption fz pr doc ≡ true
    pub open_access : (without && pr.needs_pass doc) ≡ false
    pub password_used : IsPassword password without
    pub level : level_of (pr.authenticate doc password).1 ≡ some r.authentication_level
    pub permitted :
        (is_owner r.authentication_level || (pr.permissions (pr.authenticate doc password).0).copy)
        ≡ true
    pub saved : pr.tobytes_unencrypted (pr.authenticate doc password).0 ≡ some r.pdf_bytes

  check_password-done :
      (password : Text) (without : Bool) (o : Option ℕ)
      → utf8_length password ≡ o
      → check_password fz pr o without ≡ done tt
      → IsPassword password without
  check_password-done password without none q e = cc
  check_password-done password true (some k) q e =
      let at_zero : k ≡ 0 = ground arith in ground (arith, q)
  check_password-done password false (some k) q e = (k, q, ground arith, ground arith)

  with_level-done :
      (d : fz.Doc) (o : Option Level) (r : UnlockedPdf fz pr)
      → with_level fz pr d o ≡ done r
      → (o ≡ some r.authentication_level)
        × ((is_owner r.authentication_level || (pr.permissions d).copy) ≡ true)
        × (pr.tobytes_unencrypted d ≡ some r.pdf_bytes)
  with_level-done d none r e = cc
  with_level-done d (some level) r e = ground arith

  -- If the unlocked bytes are given, then the caller attested to the authority; the password was of 1 to
  -- 256 bytes, or empty and the document readable without one where that was asked for; the document was
  -- encrypted, and the password opened it as its owner, or as a user who may copy.
  pub authorize_and_unlock_pdf-Authorized :
      (b password : Text) (attested without : Bool) (r : UnlockedPdf fz pr)
      → authorize_and_unlock_pdf fz pr b password attested without ≡ done r
      → Authorized b password attested without r
  unfolding authorize_and_unlock_pdf
  authorize_and_unlock_pdf-Authorized b password attested without r e =
      let (_, agreed, e₁) = >>=-eq-done (deny_if fz pr (not attested)) _ e in
      let (_, checked, e₂) =
        >>=-eq-done (check_password fz pr (utf8_length password) without) _ e₁ in
      let (doc, read, e₃) = >>=-eq-done (open_pdf fz b) _ e₂ in
      let (_, locked, e₄) =
        >>=-eq-done (if has_encryption fz pr doc then done tt else raised password_not_required) _
          e₃ in
      let (_, opens, e₅) = >>=-eq-done (deny_if fz pr (without && pr.needs_pass doc)) _ e₄ in
      let (level, permitted, saved) = with_level-done (pr.authenticate doc password).0 _ r e₅ in
      record {
        doc = doc;
        read = read;
        attested_authority = ground (arith, deny_if-done pr (not attested) agreed);
        encrypted = ground (arith, locked);
        open_access = deny_if-done pr (without && pr.needs_pass doc) opens;
        password_used = check_password-done password without _ refl checked;
        level = level;
        permitted = permitted;
        saved = saved;
      }
