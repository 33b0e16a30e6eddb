-- ===== src/Pdf/Access/Outline.antt =====
-- Bookmarks that `add_bookmarks` writes are the outline that `get_info` reads.
use pdf_engine_toolbox.Base.{
  ℕ, ◌+◌, ◌-◌, ◌≤◌, ◌<◌, ◌≡◌, refl, true, false, some, List, [], ◌∷◌, arith, length,
}
use pdf_engine_toolbox.Base.Int.{pos_part}
use pdf_engine_toolbox.Errors.{Text}
use pdf_engine_toolbox.Pdf.{done, opened, Fitz, open_pdf}
use pdf_engine_toolbox.Pdf.Access.{
  TocEntry, BookmarkEntry, Protection, has_encryption, Info, outline_of, toc_of, no_level,
  open_info, get_info, add_bookmarks,
}

-- A table of contents that PyMuPDF accepts: no level skips one, and every page exists.
abbrev pub IsToc : ℕ → ℕ → List TocEntry → Type 0
IsToc before total [] = Unit {0}
IsToc before total (e ∷ es) =
    (1 ≤ e.level)
    × (e.level ≤ before + 1)
    × (1 ≤ pos_part e.page)
    × (pos_part e.page ≤ total)
    × IsToc e.level total es

-- The same of bookmarks, whose pages count from 0.
abbrev pub AreBookmarks : ℕ → ℕ → List BookmarkEntry → Type 0
AreBookmarks before total [] = Unit {0}
AreBookmarks before total (b ∷ bs) =
    (1 ≤ b.level) × (b.level ≤ before + 1) × (b.page < total) × AreBookmarks b.level total bs

module _ (fz : Fitz) (pr : Protection fz) where
  -- What PyMuPDF documents: the contents set on an open document are those of the saved file, which is
  -- saved without encryption.
  pub record TocDocumented : Type 0 where
    pub toc_kept :
        (d : fz.Doc) (es : List TocEntry)
        → has_encryption fz pr d ≡ false
        → 0 < length (fz.pages d)
        → IsToc 0 (length (fz.pages d)) es
        → (d' : fz.Doc) × (out : Text) × (d'' : fz.Doc) × (pr.set_toc d es ≡ some d')
          × (fz.tobytes d' ≡ some out)
          × (fz.open_stream out ≡ opened d'')
          × (fz.is_pdf d'' ≡ true)
          × (pr.needs_pass d'' ≡ false)
          × (pr.encryption d'' ≡ false)
          × (pr.get_toc d'' ≡ es)

  outline_of-toc_of : (bs : List BookmarkEntry) → outline_of fz pr (toc_of fz pr bs) ≡ bs
  outline_of-toc_of [] = refl
  outline_of-toc_of (b ∷ bs) =
      let same : b.page + 1 - 1 ≡ b.page = omega arith in rw (same, outline_of-toc_of bs)

  toc_of-IsToc :
      (before total : ℕ) (bs : List BookmarkEntry)
      → AreBookmarks before total bs
      → IsToc before total (toc_of fz pr bs)
  toc_of-IsToc before total [] h = tt
  toc_of-IsToc before total (b ∷ bs) h =
      (h.0, h.1, omega arith, omega (arith, h.2), toc_of-IsToc b.level total bs h.3)

  -- If the bookmarks form a table of contents of an unencrypted document, then they are written to a
  -- file, and the outline in the information of that file is those bookmarks.
  pub get_info-add_bookmarks :
      (laws : TocDocumented) (b : Text) (bs : List BookmarkEntry) (doc : fz.Doc)
      → open_pdf fz b ≡ done doc
      → has_encryption fz pr doc ≡ false
      → 0 < length (fz.pages doc)
      → AreBookmarks 0 (length (fz.pages doc)) bs
      → (out : Text) × (info : Info fz pr) × (add_bookmarks fz pr b bs ≡ done out)
        × (get_info fz pr out ≡ done info)
        × (info.outline ≡ bs)
  unfolding add_bookmarks get_info open_pdf
  get_info-add_bookmarks laws b bs doc o plain some_page h =
      let (d', out, d'', marked, written, read, pdf, no_pass, no_key, toc) =
        laws.toc_kept doc (toc_of fz pr bs) plain some_page
          (toc_of-IsToc 0 (length (fz.pages doc)) bs h) in
      (
        out,
        open_info fz pr false no_level d'',
        rw (o, marked, written),
        rw (read, pdf, no_pass, no_key),
        rw toc (outline_of-toc_of bs),
      )
