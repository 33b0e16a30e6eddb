-- ===== src/Pdf/Access.antt =====
-- What app/services/pdf_service.py says of a document and its protection: `get_info`,
-- `authorize_and_unlock_pdf` and `add_bookmarks`.
pub mod Authority
pub mod Outline
use pdf_engine_toolbox.Base.{
  ℕ, zero, suc, ◌+◌, ◌-◌, ◌≡◌, Bool, true, false, not, ◌&&◌, ◌||◌, Option, none, some, List, [],
  ◌∷◌, leb, ltb, ◌==◌, any, is_empty, map, if◌then◌else◌,
}
use pdf_engine_toolbox.Base.Int.{ℤ, pos, negsuc}
use pdf_engine_toolbox.Errors.{Text, PdfEngineError, password_authorization, password_not_required}
use pdf_engine_toolbox.Tables.{is_space}
use pdf_engine_toolbox.Pdf.{Outcome, done, raised, ◌>>=◌, ◌>>◌, or_uncaught, Fitz, open_pdf}

-- `len(text.encode("utf-8"))`, or a failure at a surrogate.
unfoldable pub utf8_length : Text → Option ℕ
utf8_length [] = some 0
utf8_length (c ∷ t) = elim (utf8_length t) [
  | none ↦ none
  | some k ↦
      if leb 0xD800 c && leb c 0xDFFF
      then none
      else some (
          k + (if ltb c 0x80 then 1 else if ltb c 0x800 then 2 else if ltb c 0x10000 then 3 else 4))
]

-- `_AUTHENTICATION_LEVELS`, and "none".
pub data Level : Type 0 where
  no_level user owner user_and_owner : Level

-- `_AUTHENTICATION_LEVELS.get(…)`
abbrev pub level_of : ℕ → Option Level
level_of k =
    if k == 2
    then some user
    else if k == 4
    then some owner
    else if k == 6
    then some user_and_owner
    else none

abbrev pub is_owner : Level → Bool
is_owner no_level = false
is_owner user = false
is_owner owner = true
is_owner user_and_owner = true

-- `_normalized_permissions`: the bits of the mask.
pub record Permissions : Type 0 where
  pub copy : Bool
  pub modify : Bool
  pub annotate : Bool
  pub print : Bool

pub data SignatureState : Type 0 where
  may_be_invalidated fields_present unknown none_detected : SignatureState

-- One entry of a table of contents; `page` counts from 1 in PyMuPDF, from 0 in the API.
pub record TocEntry : Type 0 where
  pub level : ℕ
  pub title : Text
  pub page : ℤ

pub record BookmarkEntry : Type 0 where
  pub label : Text
  pub page : ℕ
  pub level : ℕ

-- What these operations take of PyMuPDF. `authenticate` gives the document as it is afterwards;
-- `signed_widget` is whether some widget is a signature field, unless the walk over them raises.
pub record Protection (fz : Fitz) : Type 1 where
  pub Measure : Type 0
  pub width : fz.Page → Measure
  pub height : fz.Page → Measure
  pub get_text : fz.Page → Text
  pub needs_pass : fz.Doc → Bool
  pub encryption : fz.Doc → Bool
  pub authenticate : fz.Doc → Text → fz.Doc × ℕ
  pub permissions : fz.Doc → Permissions
  pub get_sigflags : fz.Doc → ℤ
  pub signed_widget : fz.Doc → Option Bool
  pub tobytes_unencrypted : fz.Doc → Option Text
  pub get_toc : fz.Doc → List TocEntry
  pub set_toc : fz.Doc → List TocEntry → Option fz.Doc

module _ (fz : Fitz) (pr : Protection fz) where
  abbrev pub widget_state : Option Bool → ℤ → Option Bool × SignatureState
  widget_state none flags = (none, unknown)
  widget_state (some true) flags = (some true, fields_present)
  widget_state (some false) (negsuc zero) = (none, unknown)
  widget_state (some false) (negsuc (suc n)) = (some false, none_detected)
  widget_state (some false) (pos n) = (some false, none_detected)

  -- `_digital_signature_state`
  unfoldable pub digital_signature_state : fz.Doc → Option Bool × SignatureState
  digital_signature_state d = elim (pr.get_sigflags d) [
    | negsuc n ↦ widget_state (pr.signed_widget d) (negsuc n)
    | pos k ↦
        if k == 3
        then (some true, may_be_invalidated)
        else if k == 1
        then (some true, fields_present)
        else widget_state (pr.signed_widget d) (pos k)
  ]

  -- `_has_encryption`
  abbrev pub has_encryption : fz.Doc → Bool
  has_encryption d = pr.needs_pass d || pr.encryption d

  pub record PageInfo : Type 0 where
    pub index : ℕ
    pub width : pr.Measure
    pub height : pr.Measure
    pub rotation : ℕ
    pub has_text : Bool

  pub record Info : Type 0 where
    pub pages : List PageInfo
    pub is_encrypted : Bool
    pub requires_password : Bool
    pub authentication_level : Level
    pub permissions : Option Permissions
    pub has_digital_signatures : Option Bool
    pub signature_state : SignatureState
    pub outline : List BookmarkEntry

  abbrev pub locked_info : Info
  locked_info = record {
    pages = [];
    is_encrypted = true;
    requires_password = true;
    authentication_level = no_level;
    permissions = none;
    has_digital_signatures = none;
    signature_state = unknown;
    outline = [];
  }

  abbrev pub page_infos : ℕ → List fz.Page → List PageInfo
  page_infos i [] = []
  page_infos i (p ∷ ps) =
      record {
        index = i;
        width = pr.width p;
        height = pr.height p;
        rotation = fz.rotation p;
        has_text = any (λ c. not (is_space c)) (pr.get_text p);
      }
      ∷ page_infos (suc i) ps

  -- `max(page - 1, 0)`
  abbrev pub zero_based : ℤ → ℕ
  zero_based (pos n) = n - 1
  zero_based (negsuc n) = 0

  abbrev pub outline_of : List TocEntry → List BookmarkEntry
  outline_of [] = []
  outline_of (e ∷ es) =
      record { label = e.title; page = zero_based e.page; level = e.level } ∷ outline_of es

  abbrev pub or_none : Option Level → Level
  or_none none = no_level
  or_none (some l) = l

  -- The information of a document that is open, `d` after the authentication if there was one.
  abbrev pub open_info : Bool → Level → fz.Doc → Info
  open_info encrypted level d = record {
    pages = page_infos 0 (fz.pages d);
    is_encrypted = encrypted;
    requires_password = false;
    authentication_level = level;
    permissions = some (pr.permissions d);
    has_digital_signatures = (digital_signature_state d).0;
    signature_state = (digital_signature_state d).1;
    outline = outline_of (pr.get_toc d);
  }

  unfoldable pub get_info : Text → Outcome Info
  unfolding digital_signature_state
  get_info pdf_bytes = do
    doc ← open_pdf fz pdf_bytes
    if pr.needs_pass doc
        then done locked_info
        else if has_encryption doc
        then done (
            open_info true (or_none (level_of (pr.authenticate doc []).1))
              (pr.authenticate doc []).0)
        else done (open_info false no_level doc)

  pub record UnlockedPdf : Type 0 where
    pub authentication_level : Level
    pub permissions : Permissions
    pub has_digital_signatures : Option Bool
    pub signature_state : SignatureState
    pub pdf_bytes : Text

  abbrev pub deny_if : Bool → Outcome (Unit {0})
  deny_if b = if b then raised password_authorization else done tt

  -- What the password must be before the document is opened.
  abbrev pub check_password : Option ℕ → Bool → Outcome (Unit {0})
  check_password none without_password = raised password_authorization
  check_password (some k) true = deny_if (not (k == 0))
  check_password (some k) false = deny_if (not (leb 1 k && leb k 256))

  abbrev pub finish_unlock : fz.Doc → Level → Outcome UnlockedPdf
  finish_unlock d level = do
    deny_if (not (is_owner level) && not (pr.permissions d).copy)
    unlocked ← or_uncaught (pr.tobytes_unencrypted d)
    done (record {
      authentication_level = level;
      permissions = pr.permissions d;
      has_digital_signatures = (digital_signature_state d).0;
      signature_state = (digital_signature_state d).1;
      pdf_bytes = unlocked;
    })

  abbrev pub with_level : fz.Doc → Option Level → Outcome UnlockedPdf
  with_level d none = raised password_authorization
  with_level d (some level) = finish_unlock d level

  unfoldable pub authorize_and_unlock_pdf : Text → Text → Bool → Bool → Outcome UnlockedPdf
  unfolding utf8_length digital_signature_state
  authorize_and_unlock_pdf pdf_bytes password authority_attested without_password = do
    deny_if (not authority_attested)
    check_password (utf8_length password) without_password
    doc ← open_pdf fz pdf_bytes
    (if has_encryption doc then done tt else raised password_not_required)
    deny_if (without_password && pr.needs_pass doc)
    with_level (pr.authenticate doc password).0 (level_of (pr.authenticate doc password).1)

  abbrev pub toc_of : List BookmarkEntry → List TocEntry
  toc_of [] = []
  toc_of (b ∷ bs) = record { level = b.level; title = b.label; page = pos (b.page + 1) } ∷ toc_of bs

  unfoldable pub add_bookmarks : Text → List BookmarkEntry → Outcome Text
  add_bookmarks pdf_bytes bookmarks = do
    doc ← open_pdf fz pdf_bytes
    marked ← or_uncaught (pr.set_toc doc (toc_of bookmarks))
    or_uncaught (fz.tobytes marked)
